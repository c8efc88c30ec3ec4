-- ===== src/Workers/Retry/Laws.antt =====
-- src/workers/notification-retry.worker.ts: what a batch reports of its rows.
use musanad_contracts_backen.Base.{
  ℕ, ◌*◌, ◌≤◌, ◌≡◌, refl, ap, ◌∙◌, inl, inr, String, Bool, true, false, Option, none, some, List,
  [], ◌∷◌, ◌++◌, map, arith, ◌=s◌, Bool-cases, Option-cases, if◌then◌else◌,
}
use musanad_contracts_backen.Workers.Retry.{
  get_backoff_seconds, RetryDueRow, Update, Mail, Act, sent, updated, mail_of, retry_mail,
  retry_notification, retry_all, due, process_batch,
}

-- The updates among the acts, and the mails.
abbrev pub updates : List Act → List Update
updates [] = []
updates (sent m ∷ l) = updates l
updates (updated u ∷ l) = u ∷ updates l

updates-append : (a b : List Act) → updates (a ++ b) ≡ updates a ++ updates b
updates-append [] b = refl
updates-append (sent m ∷ a) b = updates-append a b
updates-append (updated u ∷ a) b = ap (λ l. u ∷ l) (updates-append a b)

-- The verdict on a row, said apart from the order of the calls: a capture channel is delivered; a
-- mail without an address is not; one with an address is if the transport takes it.
abbrev pub delivered :
    String
    → (Mail → Option String)
    → (String → String)
    → RetryDueRow
    → Option String
    → Option String
delivered from_address send shorten row none = some "no_recipient_address"
delivered from_address send shorten row (some to) =
    if to =s ""
    then some "no_recipient_address"
    else elim (send (mail_of from_address send shorten row to)) [
      | none ↦ none
      | some message ↦ some (shorten message)
    ]

abbrev is_none : Option String → Bool
is_none none = true
is_none (some s) = false

abbrev pub verdict : String → (Mail → Option String) → (String → String) → RetryDueRow → Update
verdict from_address send shorten row =
    let error =
      if row.channel =s "email"
      then delivered from_address send shorten row row.recipient_address
      else none in
    record { id = row.id; success = is_none error; error = error; tenant_id = row.tenant_id }

module _ (from_address : String) (send : Mail → Option String) (shorten : String → String) where
  mail-verdict :
      (row : RetryDueRow) (o : Option String)
      → updates (retry_mail from_address send shorten row o)
        ≡ record {
          id = row.id;
          success = is_none (delivered from_address send shorten row o);
          error = delivered from_address send shorten row o;
          tenant_id = row.tenant_id;
        }
          ∷ []
  mail-verdict row none = refl
  mail-verdict row (some to) = elim (Bool-cases (to =s "")) [
    | inl e ↦ rw e
    | inr e ↦ elim (Option-cases (send (mail_of from_address send shorten row to))) [
      | inl n ↦ rw (e, n)
      | inr (m, n) ↦ rw (e, n)
    ]
  ]

  row-verdict :
      (row : RetryDueRow)
      → updates (retry_notification from_address send shorten row)
        ≡ verdict from_address send shorten row ∷ []
  unfolding retry_notification
  row-verdict row = elim (Bool-cases (row.channel =s "email")) [
    | inl e ↦ rw e (mail-verdict row row.recipient_address)
    | inr e ↦ rw e
  ]

  -- A batch updates every row that is due exactly once, in order, with the row's own tenant: as a
  -- success if its channel is no mail or the transport takes the mail, else as a failure with the
  -- reason.
  pub process_batch-updates :
      (rows : List RetryDueRow)
      → updates (process_batch from_address send shorten (due (some rows)))
        ≡ map (verdict from_address send shorten) rows
  unfolding process_batch retry_all
  process_batch-updates [] = refl
  process_batch-updates (row ∷ rows) =
      updates-append (retry_notification from_address send shorten row)
        (retry_all from_address send shorten rows)
      ∙ ap (λ l. l ++ updates (retry_all from_address send shorten rows)) (row-verdict row)
      ∙ ap (λ l. verdict from_address send shorten row ∷ l) (process_batch-updates rows)

-- The backoff never falls as the retries go on, lies between one second and eight hours, and is
-- sixty times as long in minutes as in seconds.
pub get_backoff_seconds-monotone :
    (b : Bool) (m n : ℕ)
    → m ≤ n
    → (get_backoff_seconds b m ≤ get_backoff_seconds b n)
      × (1 ≤ get_backoff_seconds b m)
      × (get_backoff_seconds b n ≤ 28800)
      × (get_backoff_seconds false m ≡ 60 * get_backoff_seconds true m)
unfolding get_backoff_seconds
get_backoff_seconds-monotone b m n h = ground arith
