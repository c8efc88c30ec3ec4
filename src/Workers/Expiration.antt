-- ===== src/Workers/Expiration.antt =====
-- src/services/signature-expiration.cron.service.ts and src/services/approval-escalation.cron.service.ts:
-- the sweeps over invitations and approval steps that are due, and their drivers.
pub mod Laws
use musanad_contracts_backen.Base.{
  ℕ, zero, suc, ◌+◌, Bool, true, false, not, Option, none, some, List, [], ◌∷◌, ltb, if◌then◌else◌,
}
use musanad_contracts_backen.Calls.{Units, Outcome, returned, thrown, start_driver, stop_driver}

abbrev pub expiration_batch_size : ℕ
expiration_batch_size = 100

abbrev pub max_expiration_batches : ℕ
max_expiration_batches = 50

-- A result of `expireInvitationsBatch`.
pub record Expired : Type 0 where
  pub expired_invitations : ℕ
  pub contracts_halted : ℕ

pub record ExpirationStats : Type 0 where
  pub batches : ℕ
  pub total_expired : ℕ
  pub total_halted : ℕ

-- One round's end: break, or go on with the counters. An exception and a null result break alike.
abbrev pub after_batch : Outcome (Option Expired) → ExpirationStats → ExpirationStats × Bool
after_batch (thrown m) st = (st, false)
after_batch (returned none) st = (st, false)
after_batch (returned (some r)) st = (
  record {
    batches = st.batches + 1;
    total_expired = st.total_expired + r.expired_invitations;
    total_halted = st.total_halted + r.contracts_halted;
  },
  not (ltb r.expired_invitations expiration_batch_size),
)

-- The loop; `left` is the cap less the batches so far.
unfoldable pub expiration_loop :
    (answer : ℕ → Outcome (Option Expired)) (left : ℕ) → ExpirationStats → ExpirationStats
expiration_loop answer zero st = st
expiration_loop answer (suc left) st =
    let (st', on) = after_batch (answer st.batches) st in
    let rest = expiration_loop answer left st' in if on then rest else st'

-- `answer n` is what the call made after `n` batches gives.
unfoldable pub run_expiration_sweep : (ℕ → Outcome (Option Expired)) → ExpirationStats
unfolding expiration_loop
run_expiration_sweep answer =
    expiration_loop answer max_expiration_batches
      (record { batches = 0; total_expired = 0; total_halted = 0 })

-- The escalation of one step, for what its call throws, and the rest of the sweep.
abbrev pub push_processed : ℕ → Option Units → List ℕ → List ℕ
push_processed step none rest = step ∷ rest
push_processed step (some message) rest = rest

-- The loop of `runEscalationSweep` over the ids of the steps; `escalate` sees the steps before, the
-- newest first.
unfoldable pub escalate_all :
    (escalate : List ℕ → ℕ → Option Units) (before : List ℕ) → List ℕ → List ℕ
escalate_all escalate before [] = []
escalate_all escalate before (step ∷ steps) =
    push_processed step (escalate before step) (escalate_all escalate (step ∷ before) steps)

unfoldable pub run_escalation_sweep :
    (escalate : List ℕ → ℕ → Option Units) → Outcome (List ℕ) → List ℕ
unfolding escalate_all
run_escalation_sweep escalate (thrown m) = []
run_escalation_sweep escalate (returned steps) = escalate_all escalate [] steps

unfoldable pub start_signature_expiration_cron : (test_mode valid running : Bool) → Bool × Bool
unfolding start_driver
start_signature_expiration_cron test_mode valid running = start_driver test_mode true valid running

unfoldable pub stop_signature_expiration_cron : (running : Bool) → Bool
unfolding stop_driver
stop_signature_expiration_cron running = stop_driver running

unfoldable pub start_approval_escalation_cron : (test_mode valid running : Bool) → Bool × Bool
unfolding start_driver
start_approval_escalation_cron test_mode valid running = start_driver test_mode true valid running

unfoldable pub stop_approval_escalation_cron : (running : Bool) → Bool
unfolding stop_driver
stop_approval_escalation_cron running = stop_driver running
