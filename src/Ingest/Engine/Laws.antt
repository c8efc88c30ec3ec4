-- ===== src/Ingest/Engine/Laws.antt =====
-- src/utils/extraction-router.util.ts: which types of documents reach which engine.
use musanad_contracts_backen.Base.{
  ℕ, ◌≡◌, refl, sym, ap, ◌∙◌, inl, inr, Bool, true, false, ◌&&◌, ◌||◌, codes, leb, arith,
  Bool-cases,
}
use musanad_contracts_backen.Js.{any}
use musanad_contracts_backen.Chars.{trim}
use musanad_contracts_backen.Calls.Laws.{same_units_eq}
use musanad_contracts_backen.Calls.{Units, same_units}
use musanad_contracts_backen.Ingest.Engine.{is_docx_mime}

abbrev pub is_capital : ℕ → Bool
is_capital c = leb b'A' c && leb c b'Z'

-- The two types of Word documents that are in lower case.
abbrev pub is_lower_docx : Units → Bool
is_lower_docx mime =
    same_units mime
      (codes "application/vnd.openxmlformats-officedocument.wordprocessingml.document")
    || same_units mime (codes "application/msword")

capital_differs :
    (s t : Units) → any is_capital s ≡ false → any is_capital t ≡ true → same_units s t ≡ false
capital_differs s t hs ht = elim (Bool-cases (same_units s t)) [
  | inl e ↦ absurd (cc (sym hs ∙ ap (any is_capital) (same_units_eq s t e) ∙ ht))
  | inr e ↦ e
]

-- No type that `toLowerCase` gives matches the third type of Word documents, which has a capital: where
-- the type in lower case has no capitals, a document counts as Word exactly if it has one of the first
-- two types, and else it never reaches the engine for Word documents.
pub is_docx_mime-lower :
    (to_lower : Units → Units) (file_mime : Units)
    → any is_capital (trim (to_lower file_mime)) ≡ false
    → is_docx_mime to_lower file_mime ≡ is_lower_docx (trim (to_lower file_mime))
unfolding is_docx_mime
is_docx_mime-lower to_lower file_mime h =
    rw
      (capital_differs (trim (to_lower file_mime))
        (codes "application/vnd.ms-word.document.macroEnabled.12") h refl)
      (ground arith)
