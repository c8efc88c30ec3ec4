-- ===== src/Redline/Import.antt =====
-- src/services/contract-redline-import.service.ts: a redline that is imported, and its decided changes
-- made into a new version.
use musanad_contracts_backen.Base.{
  ℕ, suc, Option, none, some, List, [], ◌∷◌, ◌++◌, codes, take, ◌==◌, if◌then◌else◌,
}
use musanad_contracts_backen.Chars.{trim}
use musanad_contracts_backen.Calls.{Units, same_units, Outcome, returned, thrown}
use musanad_contracts_backen.Redline.Clauses.{blank_units, decimal, parse_clauses}
use musanad_contracts_backen.Redline.Diff.{RedlineChange, diff_segments, Decided, build_new_body}
use musanad_contracts_backen.Redline.Align.{parse_theirs}

-- What `fn_contract_get_by_id` gives; a body that is null is empty.
pub record ContractRow : Type 0 where
  pub body_en : Units
  pub current_version : ℕ

-- The parts of `fn_contract_redline_import_get` that are read.
pub record ImportDetail : Type 0 where
  pub filename : Units
  pub status : Units
  pub changes : List Decided

-- The version that is created.
pub record NewVersion : Type 0 where
  pub body : Units
  pub change_note : Units
  pub applied_changes : ℕ

abbrev pub accepted_count : List Decided → ℕ
accepted_count [] = 0
accepted_count (d ∷ changes) =
    let rest = accepted_count changes in if d.is_accepted then suc rest else rest

module _ (fold lower : Units → Units) where
  -- `diffClauses`
  unfoldable pub diff_clauses : (our_body their_text : Units) → List RedlineChange
  unfolding parse_theirs diff_segments
  diff_clauses our_body their_text =
      let our = parse_clauses fold our_body in
      diff_segments our (parse_theirs fold lower their_text our)

  -- The changes that `importRedline` stores, for the contract and the text that was extracted.
  abbrev pub import_redline : Option ContractRow → (text : Units) → Outcome (List RedlineChange)
  import_redline none text = thrown (codes "Contract not found or not accessible")
  import_redline (some contract) text =
      if blank_units (trim text)
      then thrown (codes "Could not extract any text from the uploaded file.")
      else returned (diff_clauses contract.body_en text)

  abbrev pub note_of : ImportDetail → Units
  note_of imp = take 500 (
      codes "Incorporated counterparty redline ("
      ++ (decimal (accepted_count imp.changes) ++ (codes " change(s)) from " ++ imp.filename)))

  abbrev pub version_of : ImportDetail → Option ContractRow → Outcome NewVersion
  version_of imp none = thrown (codes "Contract not found or not accessible")
  version_of imp (some contract) = returned (record {
    body = build_new_body fold contract.body_en imp.changes;
    change_note = note_of imp;
    applied_changes = accepted_count imp.changes;
  })

  -- `applyImport`, up to the creation of the version.
  unfoldable pub apply_import : ImportDetail → Option ContractRow → Outcome NewVersion
  unfolding build_new_body
  apply_import imp contract =
      if same_units imp.status (codes "applied")
      then thrown (codes "This redline import has already been applied.")
      else if accepted_count imp.changes == 0
      then thrown (codes "Accept at least one change before applying.")
      else version_of imp contract
