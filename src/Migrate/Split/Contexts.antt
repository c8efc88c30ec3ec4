-- ===== src/Migrate/Split/Contexts.antt =====
-- src/database/migrate.ts, `splitStatements`: how the loop passes over a string, a comment or a
-- dollar-quoted body.
use musanad_contracts_backen.Base.{
  ℕ, suc, ◌≤◌, ◌≡◌, refl, sym, ap, ◌∙◌, inl, inr, true, false, ◌&&◌, some, List, [], ◌∷◌, ◌++◌,
  arith, ◌==◌, Bool-cases,
}
use musanad_contracts_backen.Chars.{has_prefix, length}
use musanad_contracts_backen.Migrate.Split.{
  Mode, plain, single, line_comment, block_comment, dollar, keep, is_letter_or_line, is_word,
  tag_rest, take, next_is, plain_move, move, scan,
}
use musanad_contracts_backen.Migrate.Split.Pieces.{
  escape, delimiter, one_line, unclosed, all_words, is_name, avoids, starts_slash,
}

pub ++_assoc : (a b c : List ℕ) → (a ++ b) ++ c ≡ a ++ (b ++ c)
++_assoc [] b c = refl
++_assoc (x ∷ a) b c = ap (λ l. x ∷ l) (++_assoc a b c)

-- The text `t` takes the loop from one mode to another, and is appended to the buffer.
abbrev pub Takes : Mode → List ℕ → List ℕ → Mode → Type 0
Takes m t rest m' = (buf : List ℕ) → scan m 0 buf (t ++ rest) ≡ scan m' 0 (buf ++ t) rest

-- One character.
pub Takes-one :
    (m m' : Mode) (c : ℕ) (t rest : List ℕ) (m'' : Mode)
    → move m c (t ++ rest) ≡ keep m' 0
    → Takes m' t rest m''
    → Takes m (c ∷ t) rest m''
unfolding scan
Takes-one m m' c t rest m'' h k buf =
    rw (scan, h) (k (buf ++ c ∷ []) ∙ ap (λ b. scan m'' 0 b rest) (++_assoc buf (c ∷ []) t))

-- Two characters, the second one skipped.
pub Takes-two :
    (m m' : Mode) (c d : ℕ) (t rest : List ℕ) (m'' : Mode)
    → move m c (d ∷ (t ++ rest)) ≡ keep m' 1
    → Takes m' t rest m''
    → Takes m (c ∷ d ∷ t) rest m''
unfolding scan
Takes-two m m' c d t rest m'' h k buf =
    rw (scan, h)
      (k ((buf ++ c ∷ []) ++ d ∷ [])
        ∙ ap (λ b. scan m'' 0 b rest)
            (++_assoc (buf ++ c ∷ []) (d ∷ []) t ∙ ++_assoc buf (c ∷ []) (d ∷ t)))

pub ++_nil : (a : List ℕ) → a ++ [] ≡ a
++_nil [] = refl
++_nil (x ∷ a) = ap (λ l. x ∷ l) (++_nil a)

pub Takes-nil : (m : Mode) (rest : List ℕ) → Takes m [] rest m
Takes-nil m rest buf = ap (λ b. scan m 0 b rest) (sym (++_nil buf))

-- As many characters as the counter says.
skips :
    (m : Mode) (t rest buf : List ℕ) → scan m (length t) buf (t ++ rest) ≡ scan m 0 (buf ++ t) rest
unfolding scan
skips m [] rest buf = Takes-nil m rest buf
skips m (c ∷ t) rest buf =
    skips m t rest (buf ++ c ∷ []) ∙ ap (λ b. scan m 0 b rest) (++_assoc buf (c ∷ []) t)

pub Takes-append :
    (m m' m'' : Mode) (s t rest : List ℕ)
    → Takes m s (t ++ rest) m'
    → Takes m' t rest m''
    → Takes m (s ++ t) rest m''
Takes-append m m' m'' s t rest h k buf =
    ap (scan m 0 buf) (++_assoc s t rest)
    ∙ h buf
    ∙ k (buf ++ s)
    ∙ ap (λ b. scan m'' 0 b rest) (++_assoc buf s t)

-- A string.
pub escape-Takes : (s rest : List ℕ) → next_is 39 rest ≡ false → Takes single (escape s) rest plain
unfolding escape move
escape-Takes [] rest h = Takes-one single plain 39 [] rest plain (rw h) (Takes-nil plain rest)
escape-Takes (c ∷ s) rest h = elim (Bool-cases (c == 39)) [
  | inl e ↦ rw e (Takes-two single single 39 39 (escape s) rest plain refl (escape-Takes s rest h))
  | inr e ↦ rw e (Takes-one single single c (escape s) rest plain (rw e) (escape-Takes s rest h))
]

-- A comment to the end of the line.
pub line-Takes :
    (s rest : List ℕ) → one_line s ≡ true → Takes line_comment (s ++ 10 ∷ []) rest plain
unfolding move
line-Takes [] rest h = Takes-one line_comment plain 10 [] rest plain refl (Takes-nil plain rest)
line-Takes (c ∷ s) rest h = elim (Bool-cases (c == 10)) [
  | inl e ↦ absurd (cc (rw e at h))
  | inr e ↦
      Takes-one line_comment line_comment c (s ++ 10 ∷ []) rest plain (rw e)
        (line-Takes s rest (rw e at h))
]

next_slash : (s rest : List ℕ) → next_is b'/' ((s ++ b'*' ∷ b'/' ∷ []) ++ rest) ≡ starts_slash s
next_slash [] rest = refl
next_slash (c ∷ s) rest = refl

pub block-Takes :
    (s rest : List ℕ) → unclosed s ≡ true → Takes block_comment (s ++ b'*' ∷ b'/' ∷ []) rest plain
unfolding move
block-Takes [] rest h =
    Takes-two block_comment plain b'*' b'/' [] rest plain refl (Takes-nil plain rest)
block-Takes (c ∷ s) rest h = elim (Bool-cases (c == b'*' && starts_slash s)) [
  | inl e ↦ absurd (cc (rw e at h))
  | inr e ↦
      Takes-one block_comment block_comment c (s ++ b'*' ∷ b'/' ∷ []) rest plain
        (rw (next_slash s rest) (rw e)) (block-Takes s rest (rw e at h))
]

-- A dollar-quoted body.
tag_rest-words :
    (s rest : List ℕ)
    → all_words s ≡ true
    → tag_rest false (s ++ b'$' ∷ rest) ≡ some (suc (length s))
unfolding tag_rest
tag_rest-words [] rest h = refl
tag_rest-words (c ∷ s) rest h = elim (Bool-cases (is_word c)) [
  | inl e ↦
      let k : all_words s ≡ true = rw e at h in rw (tag_rest-words s rest k) (rw e (ground arith))
  | inr e ↦ absurd (cc (rw e at h))
]

tag_rest-name :
    (name rest : List ℕ)
    → is_name name ≡ true
    → tag_rest true (name ++ b'$' ∷ rest) ≡ some (suc (length name))
unfolding tag_rest
tag_rest-name [] rest h = refl
tag_rest-name (c ∷ s) rest h = elim (Bool-cases (is_letter_or_line c)) [
  | inl e ↦
      let k : all_words s ≡ true = rw e at h in rw (tag_rest-words s rest k) (rw e (ground arith))
  | inr e ↦ absurd (cc (rw e at h))
]

take-append :
    (s : List ℕ) (c : ℕ) (rest : List ℕ) → take (suc (length s)) (s ++ c ∷ rest) ≡ s ++ c ∷ []
take-append [] c rest = refl
take-append (x ∷ s) c rest = ap (λ l. x ∷ l) (take-append s c rest)

has_prefix-append :
    (p s rest : List ℕ) → length p ≤ length s → has_prefix p (s ++ rest) ≡ has_prefix p s
unfolding has_prefix
has_prefix-append [] s rest h = refl
has_prefix-append (x ∷ p) [] rest h = absurd (omega arith)
has_prefix-append (x ∷ p) (c ∷ s) rest h = rw (has_prefix-append p s rest (omega arith))

has_prefix_self : (p rest : List ℕ) → has_prefix p (p ++ rest) ≡ true
unfolding has_prefix
has_prefix_self [] rest = refl
has_prefix_self (x ∷ p) rest = rw (has_prefix_self p rest) (ground arith)

length-append : (a b : List ℕ) → length b ≤ length (a ++ b)
length-append [] b = omega arith
length-append (x ∷ a) b = omega (arith, length-append a b)

-- The closing delimiter.
close-move :
    (c : ℕ) (name rest : List ℕ)
    → move (dollar (c ∷ name)) c (name ++ rest) ≡ keep plain (length name)
unfolding move
close-move c name rest = rw (has_prefix_self (c ∷ name) rest) (ap (keep plain) (omega arith))

close-Takes : (c : ℕ) (name rest : List ℕ) → Takes (dollar (c ∷ name)) (c ∷ name) rest plain
unfolding scan
close-Takes c name rest buf =
    rw (scan, close-move c name rest)
      (skips plain name rest (buf ++ c ∷ [])
        ∙ ap (λ b. scan plain 0 b rest) (++_assoc buf (c ∷ []) name))

pub body-Takes :
    (d : ℕ) (name body rest : List ℕ)
    → avoids (d ∷ name) body ≡ true
    → Takes (dollar (d ∷ name)) (body ++ d ∷ name) rest plain
unfolding move avoids
body-Takes d name [] rest h = close-Takes d name rest
body-Takes d name (c ∷ s) rest h = elim (Bool-cases (has_prefix (d ∷ name) (c ∷ (s ++ d ∷ name)))) [
  | inl e ↦ absurd (cc (rw e at h))
  | inr e ↦
      let far : has_prefix (d ∷ name) (c ∷ ((s ++ d ∷ name) ++ rest)) ≡ false =
        has_prefix-append (d ∷ name) (c ∷ (s ++ d ∷ name)) rest
          (omega (arith, length-append s (d ∷ name)))
        ∙ e in
      Takes-one (dollar (d ∷ name)) (dollar (d ∷ name)) c (s ++ d ∷ name) rest plain (rw far)
        (body-Takes d name s rest (rw e at h))
]

length-snoc : (s : List ℕ) (c : ℕ) → suc (length s) ≡ length (s ++ c ∷ [])
length-snoc [] c = refl
length-snoc (x ∷ s) c = ap suc (length-snoc s c)

open-move :
    (name rest : List ℕ)
    → is_name name ≡ true
    → move plain b'$' ((name ++ b'$' ∷ []) ++ rest)
      ≡ keep (dollar (delimiter name)) (length (name ++ b'$' ∷ []))
unfolding move plain_move
open-move name rest h =
    rw (++_assoc name (b'$' ∷ []) rest, tag_rest-name name rest h)
      (ap (λ t. keep (dollar (b'$' ∷ t)) (suc (length name)))
          (ap (take (suc (length name))) (++_assoc name (b'$' ∷ []) rest)
            ∙ take-append name b'$' rest)
        ∙ ap (keep (dollar (delimiter name))) (length-snoc name b'$'))

pub open-Takes :
    (name rest : List ℕ)
    → is_name name ≡ true
    → Takes plain (delimiter name) rest (dollar (delimiter name))
unfolding scan
open-Takes name rest h buf =
    rw (scan, open-move name rest h)
      (skips (dollar (delimiter name)) (name ++ b'$' ∷ []) rest (buf ++ b'$' ∷ [])
        ∙ ap (λ b. scan (dollar (delimiter name)) 0 b rest)
            (++_assoc buf (b'$' ∷ []) (name ++ b'$' ∷ [])))
