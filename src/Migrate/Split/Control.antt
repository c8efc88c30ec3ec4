-- ===== src/Migrate/Split/Control.antt =====
-- src/database/migrate.ts, `isControlStatement`: its loop ends, and passes over the comments before
-- the first word.
use musanad_contracts_backen.Base.{
  ℕ, zero, suc, ◌≤◌, ◌<◌, ◌≡◌, refl, ap, ◌∙◌, ◌≢◌, inl, inr, true, ◌&&◌, Option, none, some, List,
  [], ◌∷◌, ◌++◌, arith, ◌==◌, Bool-cases, if◌then◌else◌,
}
use musanad_contracts_backen.Chars.{trim_start, has_prefix, length}
use musanad_contracts_backen.Migrate.Split.{
  after_line, after_block, strip_comments, is_control_word, is_control_statement,
}
use musanad_contracts_backen.Migrate.Split.Pieces.{one_line, unclosed}

length-trim_start : (s : List ℕ) → length (trim_start s) ≤ length s
unfolding trim_start
length-trim_start [] = omega arith
length-trim_start (c ∷ s) = ground (arith, length-trim_start s)

length-after_line : (c : ℕ) (s : List ℕ) → length (after_line (c ∷ s)) ≤ length s
unfolding after_line
length-after_line c [] = ground arith
length-after_line c (d ∷ s) = ground (arith, length-after_line d s)

length-after_block : (c : ℕ) (s : List ℕ) → length (after_block (c ∷ s)) ≤ length s
unfolding after_block
length-after_block c [] = omega arith
length-after_block c (d ∷ s) = ground (arith, length-after_block d s)

-- The loop with either amount of fuel, from the text that is left after the blanks.
abbrev loop : ℕ → List ℕ → Option (List ℕ)
loop fuel t =
    if has_prefix (b'-' ∷ b'-' ∷ []) t
    then strip_comments fuel (after_line t)
    else if has_prefix (b'/' ∷ b'*' ∷ []) t
    then strip_comments fuel (after_block t)
    else some t

abbrev Agree : Option (List ℕ) → Option (List ℕ) → Type 0
Agree a b = (a ≡ b) × (a ≢ none)

loop-Agree :
    (m n : ℕ) (t : List ℕ)
    → ((s : List ℕ) → length s < length t → Agree (strip_comments m s) (strip_comments n s))
    → Agree (loop m t) (loop n t)
unfolding has_prefix
loop-Agree m n [] h = (refl, cc)
loop-Agree m n (c ∷ t) h = elim (Bool-cases (has_prefix (b'-' ∷ b'-' ∷ []) (c ∷ t))) [
  | inl e ↦ rw e (h (after_line (c ∷ t)) (omega (arith, length-after_line c t)))
  | inr e ↦ elim (Bool-cases (has_prefix (b'/' ∷ b'*' ∷ []) (c ∷ t))) [
    | inl f ↦ rw (e, f) (h (after_block (c ∷ t)) (omega (arith, length-after_block c t)))
    | inr f ↦ rw (e, f) (refl, cc)
  ]
]

strip_comments-Agree :
    (m n : ℕ) (s : List ℕ)
    → length s < m
    → length s < n
    → Agree (strip_comments m s) (strip_comments n s)
unfolding strip_comments
strip_comments-Agree zero n s h k = absurd (omega (arith, h))
strip_comments-Agree (suc m) zero s h k = absurd (omega (arith, k))
strip_comments-Agree (suc m) (suc n) s h k = loop-Agree m n (trim_start s) (λ t lt.
    strip_comments-Agree m n t (omega (arith, length-trim_start s, lt))
      (omega (arith, length-trim_start s, lt)))

after_line-comment : (s rest : List ℕ) → one_line s ≡ true → after_line (s ++ 10 ∷ rest) ≡ rest
unfolding after_line
after_line-comment [] rest h = refl
after_line-comment (c ∷ s) rest h = elim (Bool-cases (c == 10)) [
  | inl e ↦ absurd (cc (rw e at h))
  | inr e ↦ rw e (after_line-comment s rest (rw e at h))
]

after_block-comment :
    (s rest : List ℕ) → unclosed s ≡ true → after_block (s ++ b'*' ∷ b'/' ∷ rest) ≡ rest
unfolding after_block
after_block-comment [] rest h = refl
after_block-comment (c ∷ []) rest h = ground arith
after_block-comment (c ∷ d ∷ s) rest h = elim (Bool-cases (c == b'*' && d == b'/')) [
  | inl e ↦ absurd (cc (rw e at h))
  | inr e ↦ rw e (after_block-comment (d ∷ s) rest (rw e at h))
]

length-tail : (s : List ℕ) (rest : List ℕ) → length rest ≤ length (s ++ rest)
length-tail [] rest = omega arith
length-tail (c ∷ s) rest = omega (arith, length-tail s rest)

line-step :
    (n : ℕ) (t : List ℕ)
    → strip_comments (suc n) (b'-' ∷ b'-' ∷ t) ≡ strip_comments n (after_line t)
unfolding strip_comments
line-step n t = refl

block-step :
    (n : ℕ) (t : List ℕ)
    → strip_comments (suc n) (b'/' ∷ b'*' ∷ t) ≡ strip_comments n (after_block (b'*' ∷ t))
unfolding strip_comments
block-step n t = refl

-- The loop of `isControlStatement` ends on every text, and the verdict on a statement does not
-- change when a line comment, or a block comment whose body does not start with a slash, is put
-- before it.
pub is_control_statement-comments :
    (stmt body : List ℕ)
    → (strip_comments (suc (length stmt)) stmt ≢ none)
      × (one_line body ≡ true
          → is_control_statement (b'-' ∷ b'-' ∷ (body ++ 10 ∷ stmt)) ≡ is_control_statement stmt)
      × (unclosed (b'*' ∷ body) ≡ true
          → is_control_statement (b'/' ∷ b'*' ∷ (body ++ b'*' ∷ b'/' ∷ stmt))
            ≡ is_control_statement stmt)
unfolding is_control_statement
is_control_statement-comments stmt body =
    let settle : (n : ℕ)
        → length stmt < n
        → strip_comments n stmt ≡ strip_comments (suc (length stmt)) stmt =
      λ n lt. (strip_comments-Agree n (suc (length stmt)) stmt lt (omega arith)).0 in
    let line = body ++ 10 ∷ stmt in
    let block = body ++ b'*' ∷ b'/' ∷ stmt in
    (
      (strip_comments-Agree (suc (length stmt)) (suc (length stmt)) stmt (omega arith)
          (omega arith)).1,
      λ h. ap is_control_word (
          line-step (suc (suc (length line))) line
          ∙ ap (strip_comments (suc (suc (length line)))) (after_line-comment body stmt h)
          ∙ settle (suc (suc (length line))) (omega (arith, length-tail body (10 ∷ stmt)))),
      λ h. ap is_control_word (
          block-step (suc (suc (length block))) block
          ∙ ap (strip_comments (suc (suc (length block))))
              (after_block-comment (b'*' ∷ body) stmt h)
          ∙ settle (suc (suc (length block)))
              (omega (arith, length-tail body (b'*' ∷ b'/' ∷ stmt)))),
    )
