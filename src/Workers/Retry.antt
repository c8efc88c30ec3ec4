-- ===== src/Workers/Retry.antt =====
-- src/workers/notification-retry.worker.ts: the retry of notifications that are due. The calls of the
-- database that write are kept in order; what the mail transport and the database answer are
-- parameters. Two rows run at a time at most; they share nothing, and are taken one by one here.
pub mod Laws
use Prim.Native.String as S
use Prim.Native.Char.{code}
use musanad_contracts_backen.Base.{
  ℕ, zero, suc, ◌+◌, ◌*◌, String, Bool, true, false, not, Option, none, some, List, [], ◌∷◌, ◌++◌,
  ◌=s◌, leb, ◌==◌, if◌then◌else◌,
}

abbrev pub batch_size : ℕ
batch_size = 25

-- `scale[idx] ?? 1` for both scales, which have the same numbers.
abbrev pub scale : List ℕ
scale = 1 ∷ 5 ∷ 30 ∷ 120 ∷ 480 ∷ []

abbrev pub nth_or_one : List ℕ → ℕ → ℕ
nth_or_one [] i = 1
nth_or_one (x ∷ xs) zero = x
nth_or_one (x ∷ xs) (suc i) = nth_or_one xs i

-- `getBackoffSeconds`, for whether the scale is that of seconds.
unfoldable pub get_backoff_seconds : (use_seconds : Bool) → ℕ → ℕ
get_backoff_seconds use_seconds retry_count =
    nth_or_one scale (if leb retry_count 4 then retry_count else 4)
    * (if use_seconds then 1 else 60)

pub record RetryDueRow : Type 0 where
  pub id : ℕ
  pub channel : String
  pub recipient_address : Option String
  pub subject : Option String
  pub body_rendered : String
  pub retry_count : ℕ
  pub tenant_id : String

-- A call of `fn_notification_dispatch_update_retry_outcome`.
pub record Update : Type 0 where
  pub id : ℕ
  pub success : Bool
  pub error : Option String
  pub tenant_id : String

-- A mail as it is handed to the transport.
pub record Mail : Type 0 where
  pub from : String
  pub to : String
  pub subject : String
  pub html : String
  pub text : String

-- `body.replace(/\n/g, '</p><p>')`
unfoldable pub paragraphs : String → String
paragraphs S.[] = ""
paragraphs (S.◌∷◌ c s) =
    let rest = paragraphs s in if code c == 10 then S.◌++◌ "</p><p>" rest else S.◌∷◌ c rest

-- What a retry does, in order; whether a call succeeds changes nothing that follows, since an
-- update is the last call and an exception of it is caught.
pub data Act : Type 0 where
  sent : Mail → Act  -- handed to the transport, whether or not it takes it
  updated : Update → Act

-- `send` is all that is done with the transport for one mail, from its creation to its close: the
-- message of what it throws, or none. `from_address` is the sender's, of the environment. `shorten`
-- is `slice(0, 500)`.
module _ (from_address : String) (send : Mail → Option String) (shorten : String → String) where
  abbrev pub mail_of : RetryDueRow → String → Mail
  mail_of row to = record {
    from = S.◌++◌ "\"ADNOC Contracts Hub\" <" (S.◌++◌ from_address ">");
    to = to;
    subject = elim row.subject [ none ↦ "ADNOC Advisory Notice" | some s ↦ s ];
    html = S.◌++◌ "<p>" (S.◌++◌ (paragraphs row.body_rendered) "</p>");
    text = row.body_rendered;
  }

  abbrev pub outcome : RetryDueRow → Bool → Option String → Act
  outcome row success error =
      updated (record { id = row.id; success = success; error = error; tenant_id = row.tenant_id })

  abbrev pub after_send : RetryDueRow → Mail → Option String → List Act
  after_send row mail none = sent mail ∷ outcome row true none ∷ []
  after_send row mail (some message) = sent mail ∷ outcome row false (some (shorten message)) ∷ []

  abbrev pub retry_mail : RetryDueRow → Option String → List Act
  retry_mail row none = outcome row false (some "no_recipient_address") ∷ []
  retry_mail row (some to) =
      if to =s ""
      then outcome row false (some "no_recipient_address") ∷ []
      else after_send row (mail_of row to) (send (mail_of row to))

  unfoldable pub retry_notification : RetryDueRow → List Act
  retry_notification row =
      if row.channel =s "email"
      then retry_mail row row.recipient_address
      else outcome row true none ∷ []

  unfoldable pub retry_all : List RetryDueRow → List Act
  unfolding retry_notification
  retry_all [] = []
  retry_all (row ∷ rows) = retry_notification row ++ retry_all rows

  -- What the call for due rows gives: it throws, or a result whose `data` may be null.
  pub data Due : Type 0 where
    failed : Due
    due : Option (List RetryDueRow) → Due

  unfoldable pub process_batch : Due → List Act
  unfolding retry_all
  process_batch failed = []
  process_batch (due none) = []
  process_batch (due (some rows)) = retry_all rows

-- `startNotificationRetryWorker` and `stopNotificationRetryWorker`, for the two environment
-- variables; the state is whether the task runs.
unfoldable pub start_notification_retry_worker : (test_mode switched_on running : Bool) → Bool
start_notification_retry_worker test_mode switched_on running =
    if test_mode then running else if not switched_on then running else true

unfoldable pub stop_notification_retry_worker : (running : Bool) → Bool
stop_notification_retry_worker running = if running then false else running
