-- ===== src/Indexer/Progress.antt =====
-- A runner catches up with the chain when nothing fails.
use compliance_data_platform.Prelude.{
  ℕ, zero, suc, ◌+◌, ◌≤◌, ◌<◌, ◌≡◌, refl, ap, Bool, true, false, none, some, List, ◌∷◌, ◌==◌,
  length, if◌then◌else◌, not, arith, All, Bool-cases, inl, inr, ==_iff, sym, All-weaken,
}
use compliance_data_platform.Indexer.{
  IndexerRun, Settings, Env, State, finished, scheduled, find_last_run, from_block, to_block,
  should_use_archive_node, new_run, index_batch, execute, execute_until_done,
}
use compliance_data_platform.Indexer.Tiling.{
  own, next_block, Dated, Inv, from_block-next_block, new_run-Inv, own-new_run,
}

-- Nothing fails, and the chain has this height.
pub record IsUp {Log Tables : Type 0} (env : Env Log Tables) (current : ℕ) : Type 0 where
  pub height : env.get_block_number ≡ some current
  pub fetches :
      (archive : Bool) (from to : ℕ)
      → (logs : List Log) × (env.get_logs archive from to ≡ some logs)
  pub prepares : (logs : List Log) → (f : Tables → Tables) × (env.prepare_updates logs ≡ some f)
  pub commits : env.transaction_succeeds ≡ true

next_block-new_run :
    (c : Settings) (now from to n : ℕ) (runs : List IndexerRun)
    → next_block c.origin_block (own c (new_run c now from to n ∷ runs)) ≡ to + 1
unfolding new_run
next_block-new_run c now from to n runs = rw (own-new_run c now from to n runs) refl

-- A batch that does not reach the chain's height still goes forward.
to_block-progress :
    (c : Settings) (current from : ℕ)
    → 1 ≤ c.batch_block_size
    → from ≤ current + 1
    → (current == to_block c current from) ≡ false
    → (from < to_block c current from + 1) × (to_block c current from ≤ current)
unfolding to_block
to_block-progress c current from batch high more = ground arith

module _ {Log Tables : Type 0} (c : Settings) (env : Env Log Tables) (current : ℕ)
    (up : IsUp env current) where
  index_batch-up :
      (now : ℕ) (s : State Tables)
      → let from = from_block c (find_last_run c s.runs) in
        let to = to_block c current from in
        (tables : Tables) × (n : ℕ) × (index_batch c env now s
          ≡ some (tables, new_run c now from to n, not (current == to)))
  unfolding index_batch
  index_batch-up now s =
      let from = from_block c (find_last_run c s.runs) in
      let to = to_block c current from in
      let (logs, fetched) = up.fetches (should_use_archive_node c current from) from to in
      let (f, prepared) = up.prepares (env.sort logs) in
      let cleaned : Tables = elim (find_last_run c s.runs) [
        | none ↦ env.prepare_cleanup s.tables
        | some _ ↦ s.tables
      ] in
      (f cleaned, length logs, rw (up.height, fetched, prepared, up.commits) refl)

  execute-stored :
      (now : ℕ) (s : State Tables) {tables : Tables} {run : IndexerRun} {keep : Bool}
      → s.is_running ≡ false
      → index_batch c env now s ≡ some (tables, run, keep)
      → execute c env now s ≡ (
        record { is_running = false; runs = run ∷ s.runs; tables = tables },
        if keep then scheduled else finished,
      )
  unfolding execute
  execute-stored now s idle done = simp (idle, done)

  -- The step: an idle runner stores the batch at its next block.
  execute-up :
      (now : ℕ) (s : State Tables)
      → s.is_running ≡ false
      → Dated (own c s.runs)
      → let from = next_block c.origin_block (own c s.runs) in
        let to = to_block c current from in
        (tables : Tables) × (n : ℕ) × (execute c env now s ≡ (
          record { is_running = false; runs = new_run c now from to n ∷ s.runs; tables = tables },
          if not (current == to) then scheduled else finished,
        ))
  execute-up now s idle dated =
      let (tables, n, done) = index_batch-up now s in
      (tables, n, rw (← from_block-next_block c s.runs dated) (execute-stored now s idle done))

  module _ (clock : ℕ → ℕ) (ticks : (k : ℕ) → clock k < clock (suc k))
      (batch : 1 ≤ c.batch_block_size) where
    AtMoment : ℕ → State Tables → Type 0
    AtMoment k s =
        (s.is_running ≡ false)
        × Inv c s.runs
        × All (λ q. q.date < clock k) (own c s.runs)
        × (next_block c.origin_block (own c s.runs) ≤ current + 1)

    advance :
        (k : ℕ) (s : State Tables) (tables : Tables) (n : ℕ)
        → AtMoment k s
        → let from = next_block c.origin_block (own c s.runs) in
          let to = to_block c current from in
          (current == to) ≡ false
          → execute c env (clock k) s ≡ (
            record {
              is_running = false;
              runs = new_run c (clock k) from to n ∷ s.runs;
              tables = tables;
            },
            if not (current == to) then scheduled else finished,
          )
          → AtMoment (suc k) (execute c env (clock k) s).0
    unfolding AtMoment
    advance k s tables n (idle, inv, before, high) more done =
        let from = next_block c.origin_block (own c s.runs) in
        let to = to_block c current from in
        let stored = ap (λ r. r.0.runs) done in
        let next = own-new_run c (clock k) from to n s.runs in
        (
          ap (λ r. r.0.is_running) done,
          rw stored (new_run-Inv c s.runs (clock k) current n batch before high inv),
          rw (stored, next)
              (unfold new_run in
                (ticks k, All-weaken _ _ (λ q lt. omega (arith, ticks k)) (own c s.runs) before)),
          rw (stored, next_block-new_run c (clock k) from to n s.runs)
              (omega (arith, (to_block-progress c current from batch high more).1)),
        )

    catches_up :
        (fuel k : ℕ) (s : State Tables)
        → AtMoment k s
        → current + 1 < fuel + next_block c.origin_block (own c s.runs)
        → let (t, outcome) = execute_until_done c env fuel clock k s in
          (outcome ≡ finished) × (next_block c.origin_block (own c t.runs) ≡ current + 1)
    unfolding execute_until_done AtMoment
    catches_up zero k s h m = absurd (omega arith)
    catches_up (suc fuel) k s (idle, inv, before, high) m =
        let from = next_block c.origin_block (own c s.runs) in
        let to = to_block c current from in
        let (tables, n, done) = execute-up (clock k) s idle inv.dated in
        elim (Bool-cases (current == to)) [
          | inl last ↦
              rw (done, execute_until_done, last)
                (
                  refl,
                  rw (ap (λ r. r.0.runs) done, next_block-new_run c (clock k) from to n s.runs)
                      (ap (λ b. b + 1) (sym ((==_iff current to).0 last))),
                )
          | inr more ↦
              rw (done, execute_until_done, more)
                (catches_up fuel (suc k) (execute c env (clock k) s).0
                  (advance k s tables n (idle, inv, before, high) more done)
                  (rw (ap (λ r. r.0.runs) done, next_block-new_run c (clock k) from to n s.runs)
                    (omega (arith, (to_block-progress c current from batch high more).0))))
        ]

-- When nothing fails, the clock goes forward and the chain keeps its height, an idle runner with
-- rows as its executions leave them catches up: given more executions than blocks are missing, it
-- finishes, and the next block is the one above the chain's height.
pub execute_until_done-finishes :
    {Log Tables : Type 0} (c : Settings) (env : Env Log Tables) (current : ℕ) (clock : ℕ → ℕ)
    (fuel : ℕ) (s : State Tables)
    → IsUp env current
    → ((k : ℕ) → clock k < clock (suc k))
    → 1 ≤ c.batch_block_size
    → s.is_running ≡ false
    → Inv c s.runs
    → All (λ q. q.date < clock 0) (own c s.runs)
    → next_block c.origin_block (own c s.runs) ≤ current + 1
    → current + 1 < fuel + next_block c.origin_block (own c s.runs)
    → let (t, outcome) = execute_until_done c env fuel clock 0 s in
      (outcome ≡ finished) × (next_block c.origin_block (own c t.runs) ≡ current + 1)
execute_until_done-finishes c env current clock fuel s up ticks batch idle inv before high enough =
    catches_up c env current up clock ticks batch fuel 0 s
      (unfold AtMoment in (idle, inv, before, high)) enough
