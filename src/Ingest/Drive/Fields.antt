-- ===== src/Ingest/Drive/Fields.antt =====
-- src/services/migration-orchestrator.service.ts: the fields of a contract, as the heuristic finds
-- them in the text and as the answer of a model gives them; the confidence in an extraction.
pub mod Laws
use Prim.Native.String as S
use Prim.Native.Char.{code}
use musanad_contracts_backen.Base.{
  ℕ, ◌+◌, ◌*◌, ◌/◌, String, Bool, true, false, not, ◌&&◌, ◌||◌, Option, none, some, List, [], ◌∷◌,
  codes, take, ltb, leb, ◌==◌, ◌=s◌, if◌then◌else◌,
}
use musanad_contracts_backen.Chars.{trim, is_space}
use musanad_contracts_backen.Js.{
  Runtime, Json, null, bool, num, str, arr, obj, Items, Fields, str_includes, includes, any,
  find_field, to_string,
}
use musanad_contracts_backen.Calls.{Units, Outcome, returned, thrown, units}
use musanad_contracts_backen.Ingest.Drive.Session.{Extraction, ExtractedFields}

abbrev pub is_digit : ℕ → Bool
is_digit c = leb b'0' c && leb c b'9'

abbrev pub is_arabic : ℕ → Bool
is_arabic c = leb 1536 c && leb c 1791

abbrev pub is_letter : ℕ → Bool
is_letter c = (leb b'a' c && leb c b'z') || (leb b'A' c && leb c b'Z')

-- `language` in `heuristicExtractFields`
unfoldable pub language : String → String
language text =
    let arabic = any is_arabic (codes text) in
    if arabic && any is_letter (codes text) then "bilingual" else if arabic then "ar" else "en"

-- The tests of `contractType` in `heuristicExtractFields`, in their order: a type, and the words of
-- which one must stand in the text.
abbrev pub type_rules : List (List String × String)
type_rules =
    ("master services" ∷ [], "master_services")
    ∷ ("non-disclosure" ∷ "nda" ∷ [], "nda")
    ∷ ("employment" ∷ [], "employment")
    ∷ ("consultancy" ∷ "consulting" ∷ [], "consultancy")
    ∷ ("statement of work" ∷ " sow " ∷ [], "sow")
    ∷ (" epc " ∷ "engineering procurement construction" ∷ [], "epc")
    ∷ ("gas sales" ∷ "gas spa" ∷ [], "gas_spa")
    ∷ ("concession" ∷ [], "concession")
    ∷ ("vessel" ∷ "charter party" ∷ [], "vessel_charter")
    ∷ ("supply" ∷ [], "supply")
    ∷ []

abbrev pub first_type : List (List String × String) → String → String
first_type [] lower = "services"
first_type ((words, type) ∷ rules) lower =
    let rest = first_type rules lower in if any (str_includes lower) words then type else rest

-- `contractType` in `heuristicExtractFields`, for the text in lower case.
unfoldable pub contract_type_of : String → String
contract_type_of lower = first_type type_rules lower

-- `allowedType`
abbrev pub allowed_types : List String
allowed_types =
    "services" ∷ "epc" ∷ "gas_spa" ∷ "concession" ∷ "term_sale" ∷ "spot_purchase" ∷ "vessel_charter"
    ∷ "master_services" ∷ "employment" ∷ "consultancy" ∷ "advisory" ∷ "nda" ∷ "sow" ∷ "supply" ∷ []

-- `/^\d{4}-\d{2}-\d{2}$/`
abbrev pub is_iso_date : List ℕ → Bool
is_iso_date (a ∷ b ∷ c ∷ d ∷ m ∷ e ∷ f ∷ n ∷ g ∷ h ∷ []) =
    is_digit a
    && is_digit b
    && is_digit c
    && is_digit d
    && m == b'-'
    && is_digit e
    && is_digit f
    && n == b'-'
    && is_digit g
    && is_digit h
is_iso_date _ = false

abbrev pub is_separator : ℕ → Bool
is_separator c = c == b',' || c == b'_' || is_space c

-- `v.replace(/[,_\s]/g, '')`
unfoldable pub without_separators : String → String
without_separators S.[] = ""
without_separators (S.◌∷◌ c s) =
    let rest = without_separators s in if is_separator (code c) then rest else S.◌∷◌ c rest

-- `isoDate`
abbrev pub iso_date : {N : Type 0} → Option (Json N) → Option String
iso_date (some (str s)) = if is_iso_date (codes s) then some s else none
iso_date _ = none

abbrev pub non_empty : Units → Option Units
non_empty [] = none
non_empty (c ∷ s) = some (c ∷ s)

-- `str`
unfoldable pub short_text : {N : Type 0} → Option (Json N) → Option Units
short_text (some (str s)) = elim (non_empty (trim (units s))) [
  | none ↦ none
  | some t ↦ some (take 200 t)
]
short_text _ = none

module _ (R : Runtime) where
  open R use {Num, at_most, is_finite, of_ℕ, read}

  abbrev pub large : Num → Option Num
  large n = if is_finite n && at_most (of_ℕ 1000) n then some n else none

  -- `num`
  unfoldable pub amount : Option (Json Num) → Option Num
  amount (some (num n)) = large n
  amount (some (str s)) = large (read (without_separators s))
  amount _ = none

  -- `parsed['contractType'] ?? ''`
  abbrev pub or_empty : Option (Json Num) → Json Num
  or_empty none = str ""
  or_empty (some null) = str ""
  or_empty (some v) = v

  -- The sanitised answer of `llmExtractFields`, for the fields of the object that was parsed;
  -- `to_lower` is `toLowerCase`.
  unfoldable pub sanitise : (to_lower : String → String) → Fields Num → ExtractedFields Num
  unfolding short_text amount
  sanitise to_lower parsed =
      let type_raw = to_lower (to_string R (or_empty (find_field "contractType" parsed))) in
      record {
        title_en = short_text (find_field "titleEn" parsed);
        contract_type = if includes allowed_types type_raw then some type_raw else none;
        counterparty_name = short_text (find_field "counterpartyName" parsed);
        our_party_name = short_text (find_field "ourPartyName" parsed);
        value_aed = amount (find_field "valueAed" parsed);
        start_date = iso_date (find_field "startDate" parsed);
        end_date = iso_date (find_field "endDate" parsed);
      }

abbrev pub first_some {ℓ} : {A : Type ℓ} → Option A → Option A → Option A
first_some none b = b
first_some (some a) b = some a

-- `fields` in `processSingleFile`: what the model gave, else what the heuristic found.
unfoldable pub merge_fields :
    {N : Type 0} → ExtractedFields N → ExtractedFields N → ExtractedFields N
merge_fields llm heuristic = record {
  title_en = first_some llm.title_en heuristic.title_en;
  contract_type = first_some llm.contract_type heuristic.contract_type;
  counterparty_name = first_some llm.counterparty_name heuristic.counterparty_name;
  our_party_name = llm.our_party_name;
  value_aed = first_some llm.value_aed heuristic.value_aed;
  start_date = first_some llm.start_date heuristic.start_date;
  end_date = first_some llm.end_date heuristic.end_date;
}

abbrev count_one {ℓ} : {A : Type ℓ} → Option A → ℕ
count_one none = 0
count_one (some a) = 1

-- `fieldCount`
unfoldable pub field_count : {N : Type 0} → ExtractedFields N → ℕ
field_count f =
    count_one f.title_en
    + count_one f.counterparty_name
    + count_one f.our_party_name
    + count_one f.value_aed
    + count_one f.start_date
    + count_one f.end_date
    + count_one f.contract_type

abbrev clamp : ℕ → ℕ → ℕ → ℕ
clamp low high n = if ltb n low then low else if ltb high n then high else n

-- `avgConfidence`. A fraction of one stands in ten-thousandths, so that `* 100` is a division by 100,
-- which `Math.round` rounds half up; the quotient of characters and pages is compared by products.
unfoldable pub avg_confidence : (text_len page_count : ℕ) → Bool → Option ℕ → ℕ
avg_confidence text_len page_count true (some avg) = (clamp 4000 9500 avg + 50) / 100
avg_confidence text_len page_count true none = 70
avg_confidence text_len page_count false avg =
    if page_count == 0 || ltb text_len (100 * page_count)
    then 50
    else if ltb (500 * page_count) text_len
    then 92
    else 80

-- `getConfidenceThreshold`, for what its query gives; none: no number stands there.
unfoldable pub confidence_threshold : Outcome (Option ℕ) → ℕ
confidence_threshold (returned (some t)) = t
confidence_threshold (returned none) = 80
confidence_threshold (thrown m) = 80
