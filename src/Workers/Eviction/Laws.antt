-- ===== src/Workers/Eviction/Laws.antt =====
-- src/services/ai-insight-eviction.cron.service.ts: what a sweep evicts.
use mathlib.Core.Path.{subst}
use musanad_contracts_backen.Base.{
  ℕ, zero, suc, ◌+◌, ◌-◌, ◌*◌, ◌≤◌, ◌<◌, ◌≡◌, refl, ap, ◌∙◌, ◌⊎◌, inl, inr, Option, none, some,
  arith, ltb, leb, Bool-cases, Option-cases, if◌then◌else◌,
}
use musanad_contracts_backen.Workers.Eviction.{
  batch_size, Answer, bare, wrapped, result_of, count_or_zero, SweepStats, sweep_loop,
  run_eviction_sweep,
}

-- What the `k` answers from the `i`-th on report as evicted.
abbrev pub reported : (ℕ → Answer) → ℕ → ℕ → ℕ
reported answer i zero = 0
reported answer i (suc k) =
    elim (result_of (answer i)) [ none ↦ 0 | some c ↦ count_or_zero c ] + reported answer (i + 1) k

-- The answer makes the sweep go on.
abbrev pub IsFull : Answer → Type 0
IsFull a = (c : Option ℕ) × (result_of a ≡ some c) × (500 ≤ count_or_zero c)

-- The answer ends the sweep: there is no result, or fewer rows than a batch.
abbrev pub Ends : Answer → Type 0
Ends a = (result_of a ≡ none) ⊎ ((c : Option ℕ) × (result_of a ≡ some c) × (count_or_zero c < 500))

-- Why the loop stops after `k` rounds from the `i`-th answer, with `left` allowed.
abbrev pub Reason : (ℕ → Answer) → ℕ → ℕ → ℕ → Type 0
Reason answer i k left =
    (k ≡ left)
    ⊎ (result_of (answer (i + k)) ≡ none)
    ⊎ ((j : ℕ) × (c : Option ℕ) × (k ≡ suc j)
        × (result_of (answer (i + j)) ≡ some c)
        × (count_or_zero c < 500))

abbrev Run : (ℕ → Answer) → ℕ → SweepStats → SweepStats → Type 0
Run answer left st st' =
    (k : ℕ) × (st'.batches ≡ st.batches + k)
    × (k ≤ left)
    × (st'.total_evicted ≡ st.total_evicted + reported answer st.batches k)
    × ((j : ℕ) → suc j < k → IsFull (answer (st.batches + j)))
    × Reason answer st.batches k left

abbrev counted : SweepStats → Option ℕ → SweepStats
counted st c = record {
  batches = st.batches + 1;
  total_evicted = st.total_evicted + count_or_zero c;
}

fulls-next :
    (answer : ℕ → Answer) (i k : ℕ)
    → IsFull (answer i)
    → ((j : ℕ) → suc j < k → IsFull (answer (i + 1 + j)))
    → (j : ℕ) → suc j < suc k
    → IsFull (answer (i + j))
fulls-next answer i k h fulls zero lt = subst (λ n. IsFull (answer n)) (omega arith) h
fulls-next answer i k h fulls (suc j) lt =
    subst (λ n. IsFull (answer n)) (omega arith) (fulls j (omega arith))

Reason-next :
    (answer : ℕ → Answer) (i k left : ℕ)
    → Reason answer (i + 1) k left
    → Reason answer i (suc k) (suc left)
Reason-next answer i k left (inl e) = inl (omega (arith, e))
Reason-next answer i k left (inr (inl e)) =
    inr (inl (subst (λ n. result_of (answer n) ≡ none) (omega arith) e))
Reason-next answer i k left (inr (inr (j, c, e, r, short))) = inr (
    inr (
      suc j,
      c,
      omega (arith, e),
      subst (λ n. result_of (answer n) ≡ some c) (omega arith) r,
      short,
    ))

Run-next :
    (answer : ℕ → Answer) (left : ℕ) (st st' : SweepStats) (c : Option ℕ)
    → result_of (answer st.batches) ≡ some c
    → 500 ≤ count_or_zero c
    → Run answer left (counted st c) st'
    → Run answer (suc left) st st'
Run-next answer left st st' c e full (k, b, le, t, fulls, why) = (
  suc k,
  omega (arith, b),
  omega (arith, le),
  t ∙ rw e (omega arith),
  fulls-next answer st.batches k (c, e, full) fulls,
  Reason-next answer st.batches k left why,
)

Run-last :
    (answer : ℕ → Answer) (left : ℕ) (st : SweepStats) (c : Option ℕ)
    → result_of (answer st.batches) ≡ some c
    → count_or_zero c < 500
    → Run answer (suc left) st (counted st c)
Run-last answer left st c e short = (
  1,
  refl,
  omega arith,
  rw e (omega arith),
  λ j lt. absurd (omega (arith, lt)),
  inr (inr (0, c, refl, subst (λ n. result_of (answer n) ≡ some c) (omega arith) e, short)),
)

Run-stop :
    (answer : ℕ → Answer) (left : ℕ) (st : SweepStats)
    → (0 ≡ left) ⊎ (result_of (answer st.batches) ≡ none)
    → Run answer left st st
Run-stop answer left st h = (
  0,
  omega arith,
  omega arith,
  omega arith,
  λ j lt. absurd (omega (arith, lt)),
  elim h [
    | inl e ↦ inl e
    | inr e ↦ inr (inl (subst (λ n. result_of (answer n) ≡ none) (omega arith) e))
  ],
)

sweep_loop-Run :
    (answer : ℕ → Answer) (left : ℕ) (st : SweepStats)
    → Run answer left st (sweep_loop answer left st)
unfolding sweep_loop
sweep_loop-Run answer zero st = Run-stop answer 0 st (inl refl)
sweep_loop-Run answer (suc left) st = elim (Option-cases (result_of (answer st.batches))) [
  | inl e ↦ rw (sweep_loop, e) (Run-stop answer (suc left) st (inr e))
  | inr (c, e) ↦ elim (Bool-cases (ltb (count_or_zero c) batch_size)) [
    | inl l ↦ rw (sweep_loop, e) (rw (sweep_loop, l) (Run-last answer left st c e (ground arith)))
    | inr l ↦
        rw (sweep_loop, e)
          (rw (sweep_loop, l)
            (Run-next answer left st _ c e (ground arith)
              (sweep_loop-Run answer left (counted st c))))
  ]
]

-- A sweep makes at most 50 batches and counts what their answers report; all batches but the last
-- were full, and it stops for one of three reasons: the cap, an answer without a result (or an
-- exception), or a last batch that was not full.
pub run_eviction_sweep-counts :
    (answer : ℕ → Answer)
    → let st = run_eviction_sweep answer in
      (st.batches ≤ 50)
      × (st.total_evicted ≡ reported answer 0 st.batches)
      × ((j : ℕ) → suc j < st.batches → IsFull (answer j))
      × Reason answer 0 st.batches 50
unfolding run_eviction_sweep
run_eviction_sweep-counts answer =
    let (k, b, le, t, fulls, why) =
      sweep_loop-Run answer 50 (record { batches = 0; total_evicted = 0 }) in
    let e : (sweep_loop answer 50 (record { batches = 0; total_evicted = 0 })).batches ≡ k =
      omega (arith, b) in
    (
      rw e le,
      rw e (omega (arith, t)),
      rw e (λ j lt. subst (λ n. IsFull (answer n)) (omega arith) (fulls j lt)),
      rw e why,
    )

abbrev pub least : ℕ → ℕ → ℕ
least a b = if leb a b then a else b

-- The answer reports `k` rows, in either of the two shapes.
abbrev pub Reports : ℕ → Answer → Type 0
Reports k answer = (answer ≡ wrapped (some (some k))) ⊎ (answer ≡ bare (some k))

Reports-result_of : (k : ℕ) (a : Answer) → Reports k a → result_of a ≡ some (some k)
Reports-result_of k a (inl e) = ap result_of e
Reports-result_of k a (inr e) = ap result_of e

-- The answers of a table with `n` rows that are due, of which each call evicts 500, or what is left.
abbrev pub FromTable : ℕ → (ℕ → Answer) → Type 0
FromTable n answer = (i : ℕ) → Reports (least 500 (n - 500 * i)) (answer i)

sweep_loop-drains :
    (n left : ℕ) (answer : ℕ → Answer) (st : SweepStats)
    → FromTable n answer
    → (sweep_loop answer left st).total_evicted
      ≡ st.total_evicted + least (500 * left) (n - 500 * st.batches)
unfolding sweep_loop
sweep_loop-drains n zero answer st h = ground arith
sweep_loop-drains n (suc left) answer st h =
    rw (sweep_loop, Reports-result_of _ (answer st.batches) (h st.batches))
      (ground (
        arith,
        sweep_loop-drains n left answer (counted st (some (least 500 (n - 500 * st.batches)))) h,
      ))

-- Where the table has `n` rows that are due, each call evicts 500 of them, or all that are left where
-- those are fewer, and reports their number in either of the two shapes, a sweep evicts all of them, up
-- to 25000.
pub run_eviction_sweep-drains :
    (n : ℕ) (answer : ℕ → Answer)
    → FromTable n answer
    → (run_eviction_sweep answer).total_evicted ≡ least 25000 n
unfolding run_eviction_sweep
run_eviction_sweep-drains n answer h =
    sweep_loop-drains n 50 answer (record { batches = 0; total_evicted = 0 }) h ∙ ground arith
