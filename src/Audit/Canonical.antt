-- ===== src/Audit/Canonical.antt =====
-- src/utils/audit-canonical.util.ts: `canonicalize` and `hashPayload`. Texts are compared by their
-- UTF-16 code units, and written as code points. SHA-256 is a parameter.
pub mod Laws
use Prim.Native.String as S
use Prim.Native.Char.{code}
use musanad_contracts_backen.Base.{
  ℕ, ◌+◌, ◌-◌, ◌/◌, ◌%◌, String, Bool, true, false, List, [], ◌∷◌, ◌++◌, ltb, ◌==◌, codes,
  if◌then◌else◌,
}
use musanad_contracts_backen.Js.{
  Runtime, Json, Items, Fields, null, bool, num, str, arr, obj, nil, cons, end, field,
}

-- The code units of a text.
abbrev pub units_of : ℕ → List ℕ → List ℕ
units_of c rest =
    if ltb c 65536
    then c ∷ rest
    else (55296 + (c - 65536) / 1024) ∷ (56320 + (c - 65536) % 1024) ∷ rest

unfoldable pub utf16 : String → List ℕ
utf16 S.[] = []
utf16 (S.◌∷◌ c s) = units_of (code c) (utf16 s)

-- The order of `sort` on texts.
unfoldable pub before : List ℕ → List ℕ → Bool
before [] [] = false
before [] (y ∷ ys) = true
before (x ∷ xs) [] = false
before (x ∷ xs) (y ∷ ys) = let rest = before xs ys in if x == y then rest else ltb x y

-- `JSON.stringify` of a text: one character, and all of them between quotes.
abbrev pub hex_digit : ℕ → ℕ
hex_digit n = if ltb n 10 then 48 + n else 87 + n

abbrev pub escape_char : ℕ → List ℕ
escape_char c =
    if c == 34
    then 92 ∷ 34 ∷ []
    else if c == 92
    then 92 ∷ 92 ∷ []
    else if c == 8
    then 92 ∷ b'b' ∷ []
    else if c == 9
    then 92 ∷ b't' ∷ []
    else if c == 10
    then 92 ∷ b'n' ∷ []
    else if c == 12
    then 92 ∷ b'f' ∷ []
    else if c == 13
    then 92 ∷ b'r' ∷ []
    else if ltb c 32
    then 92 ∷ b'u' ∷ b'0' ∷ b'0' ∷ hex_digit (c / 16) ∷ hex_digit (c % 16) ∷ []
    else c ∷ []

abbrev pub escape_all : List ℕ → List ℕ
escape_all [] = 34 ∷ []
escape_all (c ∷ s) = escape_char c ++ escape_all s

unfoldable pub stringify : String → List ℕ
stringify s = 34 ∷ escape_all (codes s)

-- A member of an object: its key's code units, and its text.
abbrev pub Member : Type 0
Member = List ℕ × List ℕ

unfoldable pub insert : Member → List Member → List Member
insert p [] = p ∷ []
insert p (q ∷ qs) = let rest = insert p qs in if before p.0 q.0 then p ∷ q ∷ qs else q ∷ rest

-- `xs.join(',')`
abbrev pub join_more : List Member → List ℕ
join_more [] = []
join_more (p ∷ ps) = b',' ∷ (p.1 ++ join_more ps)

abbrev pub join_members : List Member → List ℕ
join_members [] = []
join_members (p ∷ ps) = p.1 ++ join_more ps

module _ (R : Runtime) where
  open R use {Num, is_finite, show}

  unfoldable mutual
    pub canonicalize : Json Num → List ℕ
    canonicalize null = codes "null"
    canonicalize (bool b) = if b then codes "true" else codes "false"
    canonicalize (num n) = if is_finite n then codes (show n) else codes "null"
    canonicalize (str s) = stringify s
    canonicalize (arr xs) = b'[' ∷ (items xs ++ b']' ∷ [])
    canonicalize (obj fs) = b'{' ∷ (join_members (members fs) ++ b'}' ∷ [])

    pub items : Items Num → List ℕ
    items nil = []
    items (cons x xs) = canonicalize x ++ more_items xs

    pub more_items : Items Num → List ℕ
    more_items nil = []
    more_items (cons x xs) = b',' ∷ (canonicalize x ++ more_items xs)

    -- `Object.keys(obj).sort().map(…)`: the members in the order of their keys.
    pub members : Fields Num → List Member
    members end = []
    members (field k v fs) = insert (utf16 k, stringify k ++ b':' ∷ canonicalize v) (members fs)

  -- `hashPayload(prevHash, payload)`
  module _ (sha256_hex : List ℕ → List ℕ) where
    unfoldable pub hash_payload : List ℕ → Json Num → List ℕ
    hash_payload prev_hash payload = sha256_hex (prev_hash ++ canonicalize payload)
