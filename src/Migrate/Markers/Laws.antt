-- ===== src/Migrate/Markers/Laws.antt =====
-- src/database/migrate.ts: the two parts that the markers cut a migration file into.
use musanad_contracts_backen.Base.{
  ℕ, zero, suc, ◌+◌, ◌-◌, ◌≤◌, ◌≡◌, refl, sym, ap, ◌∙◌, inl, inr, Bool, true, false, ◌&&◌, Option,
  none, some, List, [], ◌∷◌, ◌++◌, arith, ◌==◌, leb, Bool-cases, if◌then◌else◌,
}
use musanad_contracts_backen.Chars.{trim, length}
use musanad_contracts_backen.Migrate.Split.{take}
use musanad_contracts_backen.Migrate.Markers.{
  at_line_end, is_marker_line, later, find_from, find_marker, begin_marker, end_marker, drop, slice,
  between, extract_rollback_sql, until, strip_rollback_section,
}

-- No line that starts in `s` is a marker line, whatever follows `s`, which ends at the end of a line.
abbrev pub free_of : (starts_line : Bool) (marker : List ℕ) → (rest : List ℕ) → List ℕ → Bool
free_of starts_line marker rest [] = starts_line
free_of starts_line marker rest (c ∷ s) =
    if starts_line && is_marker_line marker (c ∷ (s ++ rest))
    then false
    else free_of (c == 10) marker rest s

abbrev add : ℕ → Option ℕ → Option ℕ
add n none = none
add n (some i) = some (n + i)

later-add : (n : ℕ) (o : Option ℕ) → later (add n o) ≡ add (suc n) o
later-add n none = refl
later-add n (some i) = ap some (omega arith)

add_zero : (o : Option ℕ) → add 0 o ≡ o
add_zero none = refl
add_zero (some i) = ap some (omega arith)

find_from-append :
    (b : Bool) (marker s rest : List ℕ)
    → free_of b marker rest s ≡ true
    → find_from b marker (s ++ rest) ≡ add (length s) (find_from true marker rest)
unfolding find_from
find_from-append b marker [] rest h =
    ap (λ x. find_from x marker rest) h ∙ sym (add_zero (find_from true marker rest))
find_from-append b marker (c ∷ s) rest h =
    elim (Bool-cases (b && is_marker_line marker (c ∷ (s ++ rest)))) [
      | inl e ↦ absurd (cc (rw e at h))
      | inr e ↦ rw e (
          ap later (find_from-append (c == 10) marker s rest (rw e at h))
          ∙ later-add (length s) (find_from true marker rest))
    ]

find_from-here :
    (c : ℕ) (marker s : List ℕ)
    → is_marker_line marker (c ∷ s) ≡ true
    → find_from true marker (c ∷ s) ≡ some 0
unfolding find_from
find_from-here c marker s h = rw h refl

take-append : (s rest : List ℕ) → take (length s) (s ++ rest) ≡ s
take-append [] [] = refl
take-append [] (c ∷ rest) = refl
take-append (c ∷ s) rest = ap (λ l. c ∷ l) (take-append s rest)

drop-append : (s rest : List ℕ) (n : ℕ) → drop (length s + n) (s ++ rest) ≡ drop n rest
drop-append [] rest n = let e : 0 + n ≡ n = omega arith in ap (λ m. drop m rest) e
drop-append (c ∷ s) rest n =
    let e : suc (length s) + n ≡ suc (length s + n) = omega arith in
    ap (λ m. drop m (c ∷ (s ++ rest))) e ∙ drop-append s rest n

take-drop :
    (n : ℕ) (s rest : List ℕ) → n ≤ length s → take (length s - n) (drop n (s ++ rest)) ≡ drop n s
take-drop zero s rest h =
    let e : length s - 0 ≡ length s = omega arith in
    ap (λ m. take m (s ++ rest)) e ∙ take-append s rest
take-drop (suc n) [] rest h = absurd (omega (arith, h))
take-drop (suc n) (c ∷ s) rest h =
    let e : suc (length s) - suc n ≡ length s - n = omega arith in
    ap (λ m. take m (drop n (s ++ rest))) e ∙ take-drop n s rest (omega (arith, h))

length-append : (s t : List ℕ) → length (s ++ t) ≡ length s + length t
length-append [] t = omega arith
length-append (c ∷ s) t = omega (arith, length-append s t)

++_assoc : (a b c : List ℕ) → (a ++ b) ++ c ≡ a ++ (b ++ c)
++_assoc [] b c = refl
++_assoc (x ∷ a) b c = ap (λ l. x ∷ l) (++_assoc a b c)

slice-append :
    (up part foot : List ℕ)
    → 17 ≤ length part
    → slice (length up + 17) (length (up ++ part)) (up ++ (part ++ foot)) ≡ drop 17 part
slice-append up part foot h =
    let e : length (up ++ part) - (length up + 17) ≡ length part - 17 =
      omega (arith, length-append up part) in
    ap (λ m. take m (drop (length up + 17) (up ++ (part ++ foot)))) e
    ∙ ap (take (length part - 17)) (drop-append up (part ++ foot) 17)
    ∙ take-drop 17 part foot h

between-some :
    (sql : List ℕ) (start stop : ℕ)
    → start + 1 ≤ stop
    → between sql (some start) (some stop) ≡ some (trim (slice (start + 17) stop sql))
between-some sql start stop h = let e : leb stop start ≡ false = ground arith in rw e

-- The text between the markers, where `part` is all from the line of the first marker to the line of
-- the second.
extract-parts :
    (up part foot : List ℕ)
    → find_marker (up ++ (part ++ foot)) begin_marker ≡ some (length up)
    → find_marker (up ++ (part ++ foot)) end_marker ≡ some (length (up ++ part))
    → 17 ≤ length part
    → extract_rollback_sql (up ++ (part ++ foot)) ≡ some (trim (drop 17 part))
unfolding extract_rollback_sql
extract-parts up part foot b e h =
    ap (λ x. between (up ++ (part ++ foot)) x (find_marker (up ++ (part ++ foot)) end_marker)) b
    ∙ ap (between (up ++ (part ++ foot)) (some (length up))) e
    ∙ between-some (up ++ (part ++ foot)) (length up) (length (up ++ part))
        (omega (arith, length-append up part, h))
    ∙ ap (λ t. some (trim t)) (slice-append up part foot h)

add_length : (n : ℕ) → add n (some 0) ≡ some n
add_length n = ap some (omega arith)

find-after :
    (marker s rest : List ℕ) (c : ℕ)
    → free_of true marker (c ∷ rest) s ≡ true
    → is_marker_line marker (c ∷ rest) ≡ true
    → find_marker (s ++ c ∷ rest) marker ≡ some (length s)
unfolding find_marker
find-after marker s rest c h k =
    find_from-append true marker s (c ∷ rest) h
    ∙ ap (add (length s)) (find_from-here c marker rest k)
    ∙ add_length (length s)

-- The rest of the file from the line of the second marker.
abbrev pub foot_of : List ℕ → List ℕ
foot_of tail = end_marker ++ 10 ∷ tail

newline_ends : (s : List ℕ) → at_line_end (10 ∷ s) ≡ true
newline_ends [] = refl
newline_ends (c ∷ s) = refl

end-line : (tail : List ℕ) → is_marker_line end_marker (foot_of tail) ≡ true
unfolding is_marker_line
end-line tail = newline_ends tail

begin-line : (rest : List ℕ) → is_marker_line begin_marker (begin_marker ++ 10 ∷ rest) ≡ true
unfolding is_marker_line
begin-line rest = newline_ends rest

indented-line :
    (rest : List ℕ) → is_marker_line begin_marker (32 ∷ (begin_marker ++ 10 ∷ rest)) ≡ true
unfolding is_marker_line
indented-line rest = newline_ends rest

find-end :
    (up part tail : List ℕ)
    → free_of true end_marker (foot_of tail) (up ++ part) ≡ true
    → find_marker (up ++ (part ++ foot_of tail)) end_marker ≡ some (length (up ++ part))
find-end up part tail h =
    ap (λ s. find_marker s end_marker) (sym (++_assoc up part (foot_of tail)))
    ∙ find-after end_marker (up ++ part) _ b'-' h (end-line tail)

-- The lines of the first marker, flush and indented by a blank, and what follows up to the second.
abbrev pub flush : List ℕ → List ℕ
flush down = begin_marker ++ 10 ∷ down

abbrev pub indented : List ℕ → List ℕ
indented down = 32 ∷ (begin_marker ++ 10 ∷ down)

-- A file that is `up`, a line that is the begin marker and nothing else, ended by a line feed alone,
-- `down`, such a line of the end marker, and any text; `up` and `down` are whole lines, no line of `up` is a
-- marker line of the begin, and none before that of the end is one of the end. Then the migration is `up`,
-- and the rollback is `down` with the line feed before it, trimmed.
pub markers-cut :
    (up down tail : List ℕ)
    → free_of true begin_marker (flush down ++ foot_of tail) up ≡ true
    → free_of true end_marker (foot_of tail) (up ++ flush down) ≡ true
    → (strip_rollback_section (up ++ (flush down ++ foot_of tail)) ≡ up)
      × (extract_rollback_sql (up ++ (flush down ++ foot_of tail)) ≡ some (trim (10 ∷ down)))
unfolding strip_rollback_section
markers-cut up down tail h k =
    let b : find_marker (up ++ (flush down ++ foot_of tail)) begin_marker ≡ some (length up) =
      find-after begin_marker up _ b'-' h (begin-line (down ++ foot_of tail)) in
    (
      ap (until (up ++ (flush down ++ foot_of tail))) b
          ∙ take-append up (flush down ++ foot_of tail),
      extract-parts up (flush down) (foot_of tail) b (find-end up (flush down) tail k)
          (omega arith),
    )

-- If the first marker is indented by a blank, which the search allows, the migration is still `up`,
-- but the rollback starts with the marker's last letter.
pub markers-indented :
    (up down tail : List ℕ)
    → free_of true begin_marker (indented down ++ foot_of tail) up ≡ true
    → free_of true end_marker (foot_of tail) (up ++ indented down) ≡ true
    → (strip_rollback_section (up ++ (indented down ++ foot_of tail)) ≡ up)
      × (extract_rollback_sql (up ++ (indented down ++ foot_of tail))
          ≡ some (trim (b'N' ∷ 10 ∷ down)))
unfolding strip_rollback_section
markers-indented up down tail h k =
    let b : find_marker (up ++ (indented down ++ foot_of tail)) begin_marker ≡ some (length up) =
      find-after begin_marker up _ 32 h (indented-line (down ++ foot_of tail)) in
    (
      ap (until (up ++ (indented down ++ foot_of tail))) b
          ∙ take-append up (indented down ++ foot_of tail),
      extract-parts up (indented down) (foot_of tail) b (find-end up (indented down) tail k)
          (omega arith),
    )
