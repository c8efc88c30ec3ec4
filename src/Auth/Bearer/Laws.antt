-- ===== src/Auth/Bearer/Laws.antt =====
-- src/middleware/auth.middleware.ts: the token of a well-formed header.
use mathlib.Core.List.{reverse, reverse_aux, reverse-reverse}
use musanad_contracts_backen.Base.{
  ℕ, ◌≡◌, refl, ap, ◌∙◌, true, false, some, List, [], ◌∷◌, ◌++◌, ◌==◌, arith, map,
}
use musanad_contracts_backen.Chars.{is_space, lower, trim_start, trim}
use musanad_contracts_backen.Auth.Bearer.{
  is_line_end, after_word, has_line_end, token_part, trimmed, bearer, after_scheme, extract_bearer,
}

-- A token without spaces or line ends.
abbrev pub IsSolid : List ℕ → Type 0
IsSolid [] = Unit {0}
IsSolid (c ∷ s) = (is_space c ≡ false) × (is_line_end c ≡ false) × IsSolid s

has_line_end-solid : (s : List ℕ) → IsSolid s → has_line_end s ≡ false
has_line_end-solid [] h = refl
has_line_end-solid (c ∷ s) (a, b, h) = rw (b, has_line_end-solid s h)

trim_start-solid : (s : List ℕ) → IsSolid s → trim_start s ≡ s
unfolding trim_start
trim_start-solid [] h = refl
trim_start-solid (c ∷ s) (a, b, h) = rw a

IsSolid-reverse_aux : (s t : List ℕ) → IsSolid s → IsSolid t → IsSolid (reverse_aux s t)
IsSolid-reverse_aux [] t h k = k
IsSolid-reverse_aux (c ∷ s) t (a, b, h) k = IsSolid-reverse_aux s (c ∷ t) h (a, b, k)

trim-solid : (s : List ℕ) → IsSolid s → trim s ≡ s
unfolding trim
trim-solid s h =
    ap (λ l. reverse (trim_start (reverse l))) (trim_start-solid s h)
    ∙ ap reverse (trim_start-solid (reverse s) (IsSolid-reverse_aux s [] h tt))
    ∙ reverse-reverse s

==_refl : (n : ℕ) → (n == n) ≡ true
==_refl n = ground arith

after_word-append :
    (word s rest : List ℕ) → map lower s ≡ word → after_word word (s ++ rest) ≡ some rest
unfolding after_word
after_word-append [] [] rest h = refl
after_word-append (w ∷ ws) (c ∷ s) rest h =
    let e : lower c ≡ w = cc in
    let k : map lower s ≡ ws = cc in rw e (rw (==_refl w) (after_word-append ws s rest k))
after_word-append [] (c ∷ s) rest h = absurd (cc)
after_word-append (w ∷ ws) [] rest h = absurd (cc)

token_part-solid : (c : ℕ) (s : List ℕ) → IsSolid (c ∷ s) → token_part (c ∷ s) ≡ some (c ∷ s)
unfolding token_part
token_part-solid c s (a, b, h) = rw a (rw (b, has_line_end-solid s h))

-- `Bearer` in any case, one space and a token without spaces give that token.
pub extract_bearer-print :
    (scheme token : List ℕ) (c : ℕ)
    → map lower scheme ≡ bearer
    → IsSolid (c ∷ token)
    → extract_bearer (some (scheme ++ 32 ∷ c ∷ token)) ≡ some (c ∷ token)
unfolding extract_bearer
extract_bearer-print scheme token c h k =
    ap after_scheme (after_word-append bearer scheme (32 ∷ c ∷ token) h)
    ∙ ap trimmed (token_part-solid c token k)
    ∙ ap some (trim-solid (c ∷ token) k)
