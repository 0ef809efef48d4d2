-- ===== src/Indexer/Tiling.antt =====
-- The block ranges of the rows that a runner's executions store.
use compliance_data_platform.Prelude.{
  ℕ, suc, ◌+◌, ◌≤◌, ◌<◌, ◌≡◌, refl, ap, subst, Bool, true, false, ◌&&◌, none, some, List, [], ◌∷◌,
  ◌==◌, ltb, leb, length, if◌then◌else◌, filter, filter-cons_true, filter-cons_false, not, arith,
  >>=-eq-some, ◌⊎◌, inl, inr, All, Bool-cases, Option-cases, eq_refl, ==_refl,
}
use compliance_data_platform.Indexer.{
  IndexerRun, Settings, Env, State, finished, scheduled, is_own, later_of, latest, find_last_run,
  from_block, to_block, should_use_archive_node, transaction, new_run, index_batch, execute,
}

-- The first block that the rows, the latest first, leave to be indexed.
abbrev pub next_block : ℕ → List IndexerRun → ℕ
next_block origin [] = origin
next_block origin (r ∷ rs) = r.block_end + 1

-- Each row begins at the block behind the row before it, the first one at the origin.
abbrev pub Tiled : ℕ → List IndexerRun → Type 0
Tiled origin [] = Unit
Tiled origin (r ∷ rs) =
    (r.block_start ≡ next_block origin rs) × (r.block_start ≤ r.block_end + 1) × Tiled origin rs

-- The rows' dates fall.
abbrev pub Dated : List IndexerRun → Type 0
Dated [] = Unit
Dated (r ∷ rs) = All (λ q. q.date < r.date) rs × Dated rs

latest-cons :
    (r : IndexerRun) (rs : List IndexerRun) → latest (r ∷ rs) ≡ some (later_of r (latest rs))
unfolding latest
latest-cons r rs = refl

latest-head : (r : IndexerRun) (rs : List IndexerRun) → Dated (r ∷ rs) → latest (r ∷ rs) ≡ some r
unfolding later_of
latest-head r [] h = unfold latest in refl
latest-head r (q ∷ rs) ((lt, _), h) =
    rw (latest-cons r (q ∷ rs)) (rw (latest-head q rs h) (ground arith))

module _ (c : Settings) where
  abbrev pub own : List IndexerRun → List IndexerRun
  own = filter (is_own c)

  pub record Inv (runs : List IndexerRun) : Type 0 where
    pub tiled : Tiled c.origin_block (own runs)
    pub dated : Dated (own runs)

  -- Under the invariant an execution begins at the next block.
  pub from_block-next_block :
      (runs : List IndexerRun)
      → Dated (own runs)
      → from_block c (find_last_run c runs) ≡ next_block c.origin_block (own runs)
  unfolding from_block find_last_run
  from_block-next_block runs h = go (own runs) h
    where
      go : (l : List IndexerRun) → Dated l → from_block c (latest l) ≡ next_block c.origin_block l
      go [] h = unfold latest in refl
      go (r ∷ rs) h = rw (latest-head r rs h) refl

  module _ {Log Tables : Type 0} (env : Env Log Tables) (now : ℕ) (s : State Tables) where
    -- What a batch that goes through has done.
    pub record Batch (tables : Tables) (run : IndexerRun) (keep_running : Bool) : Type 0 where
      pub current : ℕ
      pub logs : List Log
      pub updates : Tables → Tables
      pub height : env.get_block_number ≡ some current
      pub fetched :
          env.get_logs
            (should_use_archive_node c current run.block_start)
            run.block_start
            run.block_end
          ≡ some logs
      pub prepared : env.prepare_updates (env.sort logs) ≡ some updates
      pub applied :
          tables
          ≡ updates (elim (find_last_run c s.runs) [
            | none ↦ env.prepare_cleanup s.tables
            | some _ ↦ s.tables
          ])
      pub stored :
          let from = from_block c (find_last_run c s.runs) in
          run ≡ new_run c now from (to_block c current from) (length logs)
      pub keep : keep_running ≡ not (current == run.block_end)

    pub index_batch-Batch :
        {tables : Tables} {run : IndexerRun} {keep_running : Bool}
        → index_batch c env now s ≡ some (tables, run, keep_running)
        → Batch tables run keep_running
    unfolding index_batch
    index_batch-Batch {tables} {run} {keep_running} h =
        let from = from_block c (find_last_run c s.runs) in
        let (current, height, h₁) = >>=-eq-some env.get_block_number _ h in
        let to = to_block c current from in
        let (logs, fetched, h₂) =
          >>=-eq-some (env.get_logs (should_use_archive_node c current from) from to) _ h₁ in
        let (updates, prepared, h₃) = >>=-eq-some (env.prepare_updates (env.sort logs)) _ h₂ in
        let (_, committed, h₄) = >>=-eq-some (transaction env.transaction_succeeds) _ h₃ in
        let stored : run ≡ new_run c now from to (length logs) = cc in
        record {
          current = current;
          logs = logs;
          updates = updates;
          height = height;
          fetched = rw stored (unfold new_run in fetched);
          prepared = prepared;
          applied = cc;
          stored = stored;
          keep = rw stored (unfold new_run in cc);
        }

    -- An execution leaves rows and tables alone, or stores one batch.
    pub execute-cases :
        ((execute c env now s).0.runs ≡ s.runs) × ((execute c env now s).0.tables ≡ s.tables)
        ⊎ ((tables : Tables) × (run : IndexerRun) × (keep_running : Bool) × Batch tables run
              keep_running
            × (execute c env now s ≡ (
              record { is_running = false; runs = run ∷ s.runs; tables = tables },
              if keep_running then scheduled else finished,
            )))
    unfolding execute index_batch
    execute-cases = elim (Bool-cases s.is_running) [
      | inl busy ↦ inl (rw (busy, execute) (refl, refl))
      | inr idle ↦ elim (Option-cases (index_batch c env now s)) [
        | inl stopped ↦ inl (rw (idle, execute, stopped) (refl, refl))
        | inr ((tables, run, keep), done) ↦
            inr (tables, run, keep, index_batch-Batch done, rw (idle, execute, done))
      ]
    ]

  pub new_run-is_own : (now from to n : ℕ) → is_own c (new_run c now from to n) ≡ true
  unfolding is_own new_run
  new_run-is_own now from to n = rw (==_refl c.chain_id, eq_refl c.name, ==_refl c.version) refl

  pub own-new_run :
      (now from to n : ℕ) (runs : List IndexerRun)
      → own (new_run c now from to n ∷ runs) ≡ new_run c now from to n ∷ own runs
  own-new_run now from to n runs = filter-cons_true (is_own c) _ runs (new_run-is_own now from to n)

  -- A row of the batch at the next block keeps the invariant.
  pub new_run-Inv :
      (runs : List IndexerRun) (now current n : ℕ)
      → 1 ≤ c.batch_block_size
      → All (λ q. q.date < now) (own runs)
      → next_block c.origin_block (own runs) ≤ current + 1
      → Inv runs
      → let from = next_block c.origin_block (own runs) in
        Inv (new_run c now from (to_block c current from) n ∷ runs)
  unfolding to_block
  new_run-Inv runs now current n batch before high inv =
      let from = next_block c.origin_block (own runs) in
      let to = to_block c current from in
      record {
        tiled =
            rw (own-new_run now from to n runs) (unfold new_run in (refl, ground arith, inv.tiled));
        dated = rw (own-new_run now from to n runs) (unfold new_run in (before, inv.dated));
      }

-- An execution in an environment where the clock is past the runner's own rows and the chain is not
-- shorter than what they cover; or a row of another runner, which shares the table.
pub data Step (Log : Type 0) {Tables : Type 0} (c : Settings)
    : State Tables → State Tables → Type 1 where
  execution :
      (env : Env Log Tables) (now : ℕ) (s : State Tables)
      → All (λ q. q.date < now) (own c s.runs)
      → ((current : ℕ)
          → env.get_block_number ≡ some current
          → next_block c.origin_block (own c s.runs) ≤ current + 1)
      → Step Log c s (execute c env now s).0
  another :
      (run : IndexerRun) (s : State Tables)
      → is_own c run ≡ false
      → Step Log c s (record s { runs = run ∷ s.runs })

pub data Reach (Log : Type 0) {Tables : Type 0} (c : Settings) (tables : Tables)
    : State Tables → Type 1 where
  here : Reach Log c tables (record { is_running = false; runs = []; tables = tables })
  next : {s t : State Tables} → Reach Log c tables s → Step Log c s t → Reach Log c tables t

Step-Inv :
    {Log Tables : Type 0} (c : Settings) {s t : State Tables}
    → 1 ≤ c.batch_block_size
    → Step Log c s t
    → Inv c s.runs
    → Inv c t.runs
Step-Inv c batch (another run s foreign) inv =
    let same = filter-cons_false (is_own c) run s.runs foreign in
    record { tiled = rw same inv.tiled; dated = rw same inv.dated }
Step-Inv c batch (execution env now s before high) inv = elim (execute-cases c env now s) [
  | inl (same, _) ↦ rw same inv
  | inr (tables, run, keep, b, done) ↦
      rw (ap (λ r. r.0.runs) done, b.stored, from_block-next_block c s.runs inv.dated)
        (new_run-Inv c s.runs now b.current _ batch before (high b.current b.height) inv)
]

Reach-Inv :
    {Log Tables : Type 0} (c : Settings) {tables : Tables} {s : State Tables}
    → 1 ≤ c.batch_block_size
    → Reach Log c tables s
    → Inv c s.runs
Reach-Inv c batch here = record { tiled = tt; dated = tt }
Reach-Inv c batch (next r st) = Step-Inv c batch st (Reach-Inv c batch r)

-- How many of the rows' block ranges hold a block.
abbrev pub times_indexed : ℕ → List IndexerRun → ℕ
times_indexed b [] = 0
times_indexed b (r ∷ rs) =
    let rest = times_indexed b rs in
    if leb r.block_start b && leb b r.block_end then suc rest else rest

Tiled-next_block :
    (origin : ℕ) (l : List IndexerRun) → Tiled origin l → origin ≤ next_block origin l
Tiled-next_block origin [] h = omega arith
Tiled-next_block origin (r ∷ l) h = omega (arith, Tiled-next_block origin l h.2)

-- A range that begins where [o, s) ends.
extend_range :
    (o b s e : ℕ)
    → o ≤ s
    → s ≤ e + 1
    → (if leb s b && leb b e
        then suc (if leb o b && ltb b s then 1 else 0)
        else (if leb o b && ltb b s then 1 else 0))
      ≡ (if leb o b && ltb b (e + 1) then 1 else 0)
extend_range o b s e h k = ground arith

Tiled-times_indexed :
    (origin b : ℕ) (l : List IndexerRun)
    → Tiled origin l
    → times_indexed b l ≡ (if leb origin b && ltb b (next_block origin l) then 1 else 0)
Tiled-times_indexed origin b [] h = ground arith
Tiled-times_indexed origin b (r ∷ l) h = rw (Tiled-times_indexed origin b l h.2) (
    subst
      (λ t.
        (if leb r.block_start b && leb b r.block_end
          then suc (if leb origin b && ltb b t then 1 else 0)
          else (if leb origin b && ltb b t then 1 else 0))
        ≡ (if leb origin b && ltb b (r.block_end + 1) then 1 else 0))
      h.0
      (extend_range origin b r.block_start r.block_end
        (omega (arith, Tiled-next_block origin l h.2)) h.1))

-- In every reachable state the rows of a runner hold each block between its origin and its last
-- indexed block exactly once, and no other block: no gap and no overlap, through failures, restarts
-- and rows of other runners. The batch size is at least 1, the clock goes forward, and the chain
-- does not become shorter than what is indexed.
pub Reach-times_indexed :
    {Log Tables : Type 0} (c : Settings) {tables : Tables} {s : State Tables} (b : ℕ)
    → 1 ≤ c.batch_block_size
    → Reach Log c tables s
    → times_indexed b (own c s.runs)
      ≡ (if leb c.origin_block b && ltb b (next_block c.origin_block (own c s.runs)) then 1 else 0)
Reach-times_indexed c {s} b batch r =
    Tiled-times_indexed c.origin_block b (own c s.runs) (Reach-Inv c batch r).tiled
