-- ===== src/Calls/Laws.antt =====
-- Equality of texts as code units.
use musanad_contracts_backen.Base.{◌≡◌, refl, true, [], ◌∷◌, arith}
use musanad_contracts_backen.Calls.{Units, same_units}

pub same_units_refl : (s : Units) → same_units s s ≡ true
same_units_refl [] = refl
same_units_refl (c ∷ s) = ground (arith, same_units_refl s)

pub same_units_eq : (s t : Units) → same_units s t ≡ true → s ≡ t
same_units_eq [] [] h = refl
same_units_eq [] (d ∷ t) h = absurd cc
same_units_eq (c ∷ s) [] h = absurd cc
same_units_eq (c ∷ s) (d ∷ t) h = ground (arith, same_units_eq s t)
