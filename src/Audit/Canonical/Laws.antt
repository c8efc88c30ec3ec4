-- ===== src/Audit/Canonical/Laws.antt =====
-- src/utils/audit-canonical.util.ts: the canonical form does not depend on the order of keys.
use musanad_contracts_backen.Base.{
  ℕ, ◌≡◌, refl, ap, ◌∙◌, ◌≢◌, inl, inr, String, true, false, List, [], ◌∷◌, ◌++◌, arith, ◌==◌,
  Bool-cases,
}
use musanad_contracts_backen.Js.{Runtime, Json, Items, Fields, arr, obj, nil, cons, end, field}
use musanad_contracts_backen.Audit.Canonical.{
  utf16, before, stringify, Member, insert, join_members, canonicalize, items, more_items, members,
  hash_payload,
}

before_asym : (a b : List ℕ) → before a b ≡ true → before b a ≡ false
unfolding before
before_asym [] [] h = refl
before_asym [] (y ∷ ys) h = refl
before_asym (x ∷ xs) [] h = absurd (cc)
before_asym (x ∷ xs) (y ∷ ys) h = ground (arith, before_asym xs ys)

before_total : (a b : List ℕ) → before a b ≡ false → before b a ≡ false → a ≡ b
unfolding before
before_total [] [] h k = refl
before_total [] (y ∷ ys) h k = absurd (cc)
before_total (x ∷ xs) [] h k = absurd (cc)
before_total (x ∷ xs) (y ∷ ys) h k = elim (Bool-cases (x == y)) [
  | inl e ↦
      let same : x ≡ y = ground arith in
      let rest : xs ≡ ys = before_total xs ys (rw e at h) (ground arith) in
      ap (λ z. z ∷ xs) same ∙ ap (λ l. y ∷ l) rest
  | inr e ↦ absurd (ground arith)
]

before_trans : (a b c : List ℕ) → before a b ≡ true → before b c ≡ true → before a c ≡ true
unfolding before
before_trans a [] [] h k = absurd (cc)
before_trans [] b (z ∷ zs) h k = refl
before_trans (x ∷ xs) [] (z ∷ zs) h k = absurd (cc)
before_trans a (y ∷ ys) [] h k = absurd (cc)
before_trans (x ∷ xs) (y ∷ ys) (z ∷ zs) h k = ground (arith, before_trans xs ys zs)

insert_comm :
    (p q : Member) (l : List Member) → p.0 ≢ q.0 → insert p (insert q l) ≡ insert q (insert p l)
unfolding insert
insert_comm p q [] d =
    ground (arith, before_asym p.0 q.0, before_asym q.0 p.0, before_total p.0 q.0, d)
insert_comm p q (r ∷ l) d = ground (
  arith,
  before_asym p.0 q.0,
  before_asym q.0 p.0,
  before_total p.0 q.0,
  d,
  before_trans p.0 q.0 r.0,
  before_trans q.0 p.0 r.0,
  insert_comm p q l d,
)

-- Two values that differ at most in the order of the keys of their objects, at any depth.
mutual
  pub data Same {N : Type 0} : Json N → Json N → Type 0 where
    alike : {v : Json N} → Same v v
    arrays : {xs ys : Items N} → SameItems xs ys → Same (arr xs) (arr ys)
    objects : {fs gs : Fields N} → Reordered fs gs → Same (obj fs) (obj gs)

  pub data SameItems {N : Type 0} : Items N → Items N → Type 0 where
    no_items : SameItems nil nil
    items_too :
        {x y : Json N} {xs ys : Items N}
        → Same x y
        → SameItems xs ys
        → SameItems (cons x xs) (cons y ys)

  pub data Reordered {N : Type 0} : Fields N → Fields N → Type 0 where
    no_fields : Reordered end end
    fields_too :
        (k : String) {v w : Json N} {fs gs : Fields N}
        → Same v w
        → Reordered fs gs
        → Reordered (field k v fs) (field k w gs)
    swapped :
        (j k : String) (v w : Json N) (fs : Fields N)
        → utf16 j ≢ utf16 k
        → Reordered (field j v (field k w fs)) (field k w (field j v fs))
    followed : {fs gs hs : Fields N} → Reordered fs gs → Reordered gs hs → Reordered fs hs

module _ (R : Runtime) where
  open R use {Num}

  mutual
    unfolding canonicalize

    same_text : {v w : Json Num} → Same v w → canonicalize R v ≡ canonicalize R w
    same_text alike = refl
    same_text (arrays h) = ap (λ l. b'[' ∷ (l ++ b']' ∷ [])) (same_items h)
    same_text (objects h) = ap (λ l. b'{' ∷ (join_members l ++ b'}' ∷ [])) (same_members h)

    same_items : {xs ys : Items Num} → SameItems xs ys → items R xs ≡ items R ys
    same_items no_items = refl
    same_items (items_too {y} {xs} h t) =
        ap (λ l. l ++ more_items R xs) (same_text h) ∙ ap (λ l. canonicalize R y ++ l) (same_more t)

    same_more : {xs ys : Items Num} → SameItems xs ys → more_items R xs ≡ more_items R ys
    same_more no_items = refl
    same_more (items_too {y} {xs} h t) =
        ap (λ l. b',' ∷ (l ++ more_items R xs)) (same_text h)
        ∙ ap (λ l. b',' ∷ (canonicalize R y ++ l)) (same_more t)

    same_members : {fs gs : Fields Num} → Reordered fs gs → members R fs ≡ members R gs
    same_members no_fields = refl
    same_members (fields_too k {w} {fs} h t) =
        ap (λ l. insert (utf16 k, stringify k ++ b':' ∷ l) (members R fs)) (same_text h)
        ∙ ap (insert (utf16 k, stringify k ++ b':' ∷ canonicalize R w)) (same_members t)
    same_members (swapped j k v w fs d) = insert_comm _ _ (members R fs) d
    same_members (followed h t) = same_members h ∙ same_members t

  -- Two payloads that differ at most in the order of the keys of their objects, at any depth, have
  -- one canonical form, and so one hash in the chain.
  pub canonicalize-Same :
      (sha256_hex : List ℕ → List ℕ) (prev_hash : List ℕ) {v w : Json Num}
      → Same v w
      → (canonicalize R v ≡ canonicalize R w)
        × (hash_payload R sha256_hex prev_hash v ≡ hash_payload R sha256_hex prev_hash w)
  unfolding hash_payload
  canonicalize-Same sha256_hex prev_hash h =
      (same_text h, ap (λ l. sha256_hex (prev_hash ++ l)) (same_text h))
