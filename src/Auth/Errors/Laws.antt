-- ===== src/Auth/Errors/Laws.antt =====
-- src/middleware/error.middleware.ts: what a client learns of an error.
use mathlib.Core.Path.{subst}
use mathlib.Core.Bool.{false≢true}
use musanad_contracts_backen.Base.{
  sym, ap, ◌∙◌, Option-cases, ◌≡◌, refl, inl, inr, String, Bool, true, false, Option, none, some,
  List, [], ◌∷◌, ◌=s◌, =s_iff, if◌then◌else◌, Bool-cases,
}
use musanad_contracts_backen.Js.{includes}
use musanad_contracts_backen.Auth.Errors.{
  Details, Issue, path_name, prototype_names, find_detail, in_fields, set_detail, collect_one,
  collect, zod, other, error_middleware,
}

-- The message of the first issue at a path.
abbrev pub first_message : String → List Issue → Option String
first_message k [] = none
first_message k (i ∷ is) = if path_name i.path =s k then some i.message else first_message k is

abbrev pub or_first : Option String → Option String → Option String
or_first none o = o
or_first (some m) o = some m

-- A key that is set has its message, and no other changes.
find_detail-set_detail :
    (k j m : String) (ds : Details)
    → find_detail j ds ≡ none
    → find_detail k (set_detail j m ds)
      ≡ or_first (find_detail k ds) (if j =s k then some m else none)
find_detail-set_detail k j m [] h = refl
find_detail-set_detail k j m ((i, n) ∷ ds) h = elim (Bool-cases (i =s j)) [
  | inl e ↦ absurd (cc (rw e at h))
  | inr e ↦
      let rest = find_detail-set_detail k j m ds (rw e at h) in
      elim (Bool-cases (i =s k)) [ inl f ↦ rw (e, f) refl | inr f ↦ rw (e, f) rest ]
]

-- A path that is not in the fields has no message.
none_of_not_in : (k : String) (ds : Details) → in_fields k ds ≡ false → find_detail k ds ≡ none
none_of_not_in k ds h = elim (Option-cases (find_detail k ds)) [
  | inl e ↦ e
  | inr (m, e) ↦ absurd (elim (Bool-cases (includes prototype_names k)) [
    | inl p ↦ cc (rw p at h)
    | inr p ↦ cc (rw (p, e) at h)
  ])
]

absent_of_not_in :
    (k : String) (ds : Details)
    → includes prototype_names k ≡ false
    → find_detail k ds ≡ none
    → in_fields k ds ≡ false
absent_of_not_in k ds h e = rw (h, e)

find_detail-step :
    (k p m : String) (ds : Details)
    → includes prototype_names k ≡ false
    → find_detail k (collect_one ds p m)
      ≡ or_first (find_detail k ds) (if p =s k then some m else none)
find_detail-step k p m ds h = elim (Bool-cases (in_fields p ds)) [
  | inr f ↦ rw f (find_detail-set_detail k p m ds (none_of_not_in p ds f))
  | inl t ↦ elim (Option-cases (find_detail k ds)) [
    | inr (n, e) ↦ rw (t, e)
    | inl e ↦ elim (Bool-cases (p =s k)) [
      | inr d ↦ rw (t, e, d)
      | inl same ↦
          let same' : p ≡ k = (=s_iff p k).0 same in
          absurd (
            false≢true
              (sym (absent_of_not_in k ds h e) ∙ subst (λ q. in_fields q ds ≡ true) same' t))
    ]
  ]
]

or_first_assoc : (a b c : Option String) → or_first (or_first a b) c ≡ or_first a (or_first b c)
or_first_assoc none b c = refl
or_first_assoc (some m) b c = refl

or_first_if :
    (b : Bool) (m : String) (c : Option String)
    → or_first (if b then some m else none) c ≡ (if b then some m else c)
or_first_if true m c = refl
or_first_if false m c = refl

find_detail-collect :
    (k : String) (ds : Details) (is : List Issue)
    → includes prototype_names k ≡ false
    → find_detail k (collect ds is) ≡ or_first (find_detail k ds) (first_message k is)
unfolding collect
find_detail-collect k ds [] h = elim (Option-cases (find_detail k ds)) [
  | inl e ↦ rw e
  | inr (m, e) ↦ rw e
]
find_detail-collect k ds (i ∷ is) h =
    find_detail-collect k (collect_one ds (path_name i.path) i.message) is h
    ∙ ap (λ o. or_first o (first_message k is))
        (find_detail-step k (path_name i.path) i.message ds h)
    ∙ or_first_assoc (find_detail k ds) _ _
    ∙ ap (or_first (find_detail k ds)) (or_first_if (path_name i.path =s k) i.message _)

-- A response to a failed validation has status 400, and its details have, at every path that is no
-- name of an object's prototype, the message of the first issue at that path, and nothing else.
pub error_middleware-zod :
    (issues : List Issue) (k : String)
    → includes prototype_names k ≡ false
    → ((error_middleware (zod issues)).status ≡ 400)
      × ((ds : Details) × ((error_middleware (zod issues)).details ≡ some ds)
          × (find_detail k ds ≡ first_message k issues))
unfolding error_middleware
error_middleware-zod issues k h =
    (refl, (collect [] issues, refl, find_detail-collect k [] issues h))

absent-collect_one :
    (k p m : String) (ds : Details)
    → includes prototype_names k ≡ true
    → find_detail k ds ≡ none
    → find_detail k (collect_one ds p m) ≡ none
absent-collect_one k p m ds h e = elim (Bool-cases (in_fields p ds)) [
  | inl t ↦ rw t e
  | inr f ↦ elim (Bool-cases (p =s k)) [
    | inr d ↦ rw f (find_detail-set_detail k p m ds (none_of_not_in p ds f) ∙ rw (e, d))
    | inl same ↦
        let f' : in_fields k ds ≡ false =
          subst (λ q. in_fields q ds ≡ false) ((=s_iff p k).0 same) f in
        absurd (false≢true (sym f' ∙ rw h))
  ]
]

absent-collect :
    (k : String) (ds : Details) (is : List Issue)
    → includes prototype_names k ≡ true
    → find_detail k ds ≡ none
    → find_detail k (collect ds is) ≡ none
unfolding collect
absent-collect k ds [] h e = e
absent-collect k ds (i ∷ is) h e =
    absent-collect k (collect_one ds (path_name i.path) i.message) is h
      (absent-collect_one k (path_name i.path) i.message ds h e)

-- The details of a failed validation never name a path that an object has by its prototype, such
-- as `constructor`, whatever issues there are at that path.
pub prototype_path_lost :
    (issues : List Issue) (k : String)
    → includes prototype_names k ≡ true
    → (ds : Details) × ((error_middleware (zod issues)).details ≡ some ds)
      × (find_detail k ds ≡ none)
unfolding error_middleware
prototype_path_lost issues k h = (collect [] issues, refl, absent-collect k [] issues h refl)

-- An error of no class of the hierarchy gives one response, whatever its message: nothing of it
-- reaches the client.
pub error_middleware-other :
    (m n : String)
    → (error_middleware (other m) ≡ error_middleware (other n))
      × ((error_middleware (other m)).status ≡ 500)
      × ((error_middleware (other m)).details ≡ none)
unfolding error_middleware
error_middleware-other m n = (refl, refl, refl)
