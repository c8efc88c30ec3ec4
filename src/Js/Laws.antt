-- ===== src/Js/Laws.antt =====
-- How deep the parts of a value lie.
use musanad_contracts_backen.Base.{◌<◌, ◌≤◌, String, ◌≡◌, some, List, [], ◌∷◌, arith}
use musanad_contracts_backen.Js.{
  Json, Items, Fields, obj, nil, cons, end, field, depth, depth_items, depth_fields, elems,
  find_field, member, returns,
}

abbrev pub All {ℓ κ} : {A : Type ℓ} → (A → Type κ) → List A → Type κ
All P [] = Unit
All P (x ∷ xs) = P x × All P xs

pub All-weaken {ℓ κ μ} :
    {A : Type ℓ} {P : A → Type κ} {Q : A → Type μ} (xs : List A)
    → ((a : A) → P a → Q a)
    → All P xs
    → All Q xs
All-weaken [] f h = tt
All-weaken (x ∷ xs) f h = (f x h.0, All-weaken xs f h.1)

pub depth-find_field :
    {N : Type 0} (k : String) (fs : Fields N) {v : Json N}
    → find_field k fs ≡ some v
    → depth v ≤ depth_fields fs
unfolding depth
depth-find_field k end h = cc
depth-find_field k (field j w fs) {v} h = ground (arith, depth-find_field k fs {v = v})

pub depth-member :
    {N : Type 0} (b : Json N) (k : String) {v : Json N}
    → member b k ≡ returns (some v)
    → depth v < depth b
unfolding depth
depth-member (obj fs) k {v} h =
    let found : find_field k fs ≡ some v = cc in omega (arith, depth-find_field k fs found)
depth-member _ k h = cc

pub depth-elems : {N : Type 0} (xs : Items N) → All (λ x. depth x ≤ depth_items xs) (elems xs)
unfolding depth
depth-elems nil = tt
depth-elems (cons x xs) = (omega arith, All-weaken (elems xs) (λ a h. omega arith) (depth-elems xs))
