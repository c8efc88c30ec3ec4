-- ===== src/Calls.antt =====
-- What the services and workers share in their calls of the database and of other services: a call
-- returns or throws, and the guard and the driver that the workers repeat.
pub mod Laws
use Prim.Native.String as S
use Prim.Native.Char.{code}
use musanad_contracts_backen.Base.{
  ℕ, ◌+◌, ◌-◌, ◌/◌, ◌%◌, ltb, ◌==◌, String, Bool, true, false, not, Option, none, some, List, [],
  ◌∷◌, if◌then◌else◌,
}

-- A text as its UTF-16 code units, which `slice` and `length` count.
abbrev pub Units : Type 0
Units = List ℕ

-- `===` on texts
abbrev pub same_units : Units → Units → Bool
same_units [] [] = true
same_units [] (y ∷ ys) = false
same_units (x ∷ xs) [] = false
same_units (x ∷ xs) (y ∷ ys) = let rest = same_units xs ys in if x == y then rest else false

-- The code units of a character, and of a text.
abbrev pub char_units : ℕ → Units → Units
char_units c rest =
    if ltb c 65536
    then c ∷ rest
    else (55296 + (c - 65536) / 1024) ∷ (56320 + (c - 65536) % 1024) ∷ rest

unfoldable pub units : String → Units
units S.[] = []
units (S.◌∷◌ c s) = let rest = units s in char_units (code c) rest

-- A call returns a value or throws an error with a message.
pub data Outcome (A : Type 0) : Type 0 where
  returned : A → Outcome A
  thrown : Units → Outcome A

-- The outcome of a call whose result is not read, for what it throws.
abbrev pub as_outcome : Option Units → Outcome (Unit {0})
as_outcome none = returned tt
as_outcome (some m) = thrown m

-- The guard of the workers on `fn_module_enabled`: a call that throws lets the work go on.
unfoldable pub guard_passes : Outcome Bool → Bool
guard_passes (returned enabled) = enabled
guard_passes (thrown message) = true

-- The driver of a worker: whether a task is held. `start` gives whether a task is returned, and what
-- is held after it; `enabled` is the worker's switch, and `valid` whether its expression is.
unfoldable pub start_driver : (test_mode enabled valid running : Bool) → Bool × Bool
start_driver test_mode enabled valid running =
    if test_mode
    then (false, running)
    else if not enabled
    then (false, running)
    else if running
    then (true, running)
    else (valid, valid)

unfoldable pub stop_driver : (running : Bool) → Bool
stop_driver running = if running then false else running
