-- ===== src/Workers/Expiration/Laws.antt =====
-- src/services/signature-expiration.cron.service.ts: a sweep over a table.
use musanad_contracts_backen.Base.{ℕ, zero, suc, ◌+◌, ◌-◌, ◌*◌, ◌≡◌, ◌∙◌, Option, some, arith}
use musanad_contracts_backen.Calls.{Outcome, returned}
use musanad_contracts_backen.Workers.Eviction.Laws.{least}
use musanad_contracts_backen.Workers.Expiration.{
  Expired, ExpirationStats, expiration_loop, run_expiration_sweep,
}

-- The answers of a table with `n` invitations that are due, of which each call expires 100 at most;
-- `halted i` contracts are halted by the call after `i` others.
abbrev pub FromInvitations : ℕ → (ℕ → ℕ) → (ℕ → Outcome (Option Expired)) → Type 0
FromInvitations n halted answer =
    (i : ℕ)
    → answer i
      ≡ returned (
          some
            (record { expired_invitations = least 100 (n - 100 * i); contracts_halted = halted i }))

expiration_loop-drains :
    (n left : ℕ) (halted : ℕ → ℕ) (answer : ℕ → Outcome (Option Expired)) (st : ExpirationStats)
    → FromInvitations n halted answer
    → (expiration_loop answer left st).total_expired
      ≡ st.total_expired + least (100 * left) (n - 100 * st.batches)
unfolding expiration_loop
expiration_loop-drains n zero halted answer st h = ground arith
expiration_loop-drains n (suc left) halted answer st h =
    rw (expiration_loop, h st.batches)
      (ground (
        arith,
        expiration_loop-drains n left halted answer
            (record {
              batches = st.batches + 1;
              total_expired = st.total_expired + least 100 (n - 100 * st.batches);
              total_halted = st.total_halted + halted st.batches;
            })
            h,
      ))

-- Where `n` invitations are due and each call expires 100 at most, a sweep expires all of them, up to
-- 5000.
pub run_expiration_sweep-drains :
    (n : ℕ) (halted : ℕ → ℕ) (answer : ℕ → Outcome (Option Expired))
    → FromInvitations n halted answer
    → (run_expiration_sweep answer).total_expired ≡ least 5000 n
unfolding run_expiration_sweep
run_expiration_sweep-drains n halted answer h =
    expiration_loop-drains n 50 halted answer
      (record { batches = 0; total_expired = 0; total_halted = 0 }) h
    ∙ ground arith
