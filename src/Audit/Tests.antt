-- ===== src/Audit/Tests.antt =====
-- src/utils/audit-canonical.util.ts: runs on concrete payloads.
use mathlib.Core.Bool.{false≢true}
use musanad_contracts_backen.Base.{
  ℕ, ◌-◌, ◌/◌, ◌≡◌, ◌≢◌, refl, sym, ap, Bool, true, false, none, List, [], ◌∷◌, codes, ltb, leb,
  ◌==◌, if◌then◌else◌,
}
use musanad_contracts_backen.Js.{
  Runtime, Json, null, bool, num, str, arr, obj, nil, cons, end, field,
}
use musanad_contracts_backen.Audit.Canonical.{
  utf16, before, stringify, insert, canonicalize, hash_payload,
}
use musanad_contracts_backen.Audit.Canonical.Laws.{
  Same, alike, objects, no_fields, fields_too, swapped, followed, canonicalize-Same,
}

-- Whole numbers in place of doubles.
abbrev whole : Runtime
whole = record {
  Num = ℕ;
  less = ltb;
  at_most = leb;
  sub = λ a b. a - b;
  quot = λ a b. a / b;
  abs = λ a. a;
  is_finite = λ a. ltb a 100;
  falsy = λ a. a == 0;
  of_ℕ = λ a. a;
  nan = 999;
  infinity = 1000;
  show = λ a. if a == 1 then "1" else "2";
  read = λ s. 0;
  date_ms = λ s. 0;
  regex_test = λ p s. none;
}

abbrev sorted : Json ℕ
sorted =
    obj (field "a" (num 1) (field "b" (obj (field "d" null (field "c" (str "x\n\"") end))) end))

abbrev unsorted : Json ℕ
unsorted =
    obj (field "b" (obj (field "c" (str "x\n\"") (field "d" null end))) (field "a" (num 1) end))

canonical_tests :
    (canonicalize whole sorted ≡ codes "{\"a\":1,\"b\":{\"c\":\"x\\n\\\"\",\"d\":null}}")
    × (canonicalize whole (arr (cons (num 999) (cons (bool true) nil))) ≡ codes "[null,true]")
    × (before (utf16 "😀") (utf16 "～") ≡ true)
unfolding canonicalize insert before utf16 stringify
canonical_tests = (refl, refl, refl)

abbrev first_is : ℕ → List ℕ → Bool
first_is c [] = false
first_is c (d ∷ s) = c == d

keys_differ : utf16 "a" ≢ utf16 "b"
unfolding utf16
keys_differ h = false≢true (sym (ap (first_is b'a') h))

inner_keys_differ : utf16 "d" ≢ utf16 "c"
unfolding utf16
inner_keys_differ h = false≢true (sym (ap (first_is b'd') h))

sorted-Same : Same sorted unsorted
sorted-Same = objects (
    followed (swapped "a" "b" _ _ end keys_differ) (
      fields_too "b" (objects (swapped "d" "c" _ _ end inner_keys_differ))
        (fields_too "a" alike no_fields)))

abbrev keep : List ℕ → List ℕ
keep s = s

canonicalize-Same_example :
    (canonicalize whole sorted ≡ canonicalize whole unsorted)
    × (hash_payload whole keep (codes "0") sorted ≡ hash_payload whole keep (codes "0") unsorted)
canonicalize-Same_example = canonicalize-Same whole keep (codes "0") sorted-Same
