-- ===== src/Indexer.antt =====
-- src/po-rep-indexer/runners/abstract-po-rep-indexer.runner.ts: one execution of an indexer. Block
-- heights and dates are natural numbers; the tests on differences are written with sums, which is
-- the same for the source's signed integers.
pub mod Tiling
pub mod Progress
use compliance_data_platform.Prelude.{
  ℕ, zero, suc, ◌+◌, ◌-◌, Bool, true, false, ◌&&◌, Option, none, some, List, [], ◌∷◌, String, ◌==◌,
  str_eq, ltb, leb, length, if◌then◌else◌, filter, ◌>>=◌, not,
}

-- A row of the table `po_rep_indexer_run`.
pub record IndexerRun : Type 0 where
  pub date : ℕ
  pub chain_id : ℕ
  pub runner : String
  pub version : ℕ
  pub block_start : ℕ
  pub block_end : ℕ
  pub events_count : ℕ

-- What a runner's class and the configuration fix.
pub record Settings : Type 0 where
  pub chain_id : ℕ
  pub name : String
  pub version : ℕ
  pub origin_block : ℕ
  pub batch_block_size : ℕ
  pub archive_node_threshold : ℕ

-- The default of `getArchiveNodeThreshold`.
abbrev pub default_archive_node_threshold : ℕ
default_archive_node_threshold = 1920

-- The node clients, the order that `logs.sort` leaves, the database operations that the runner's
-- class prepares, and whether the database carries the transaction out. `none` is a rejection. The
-- first argument of `get_logs` says whether the archive node is asked.
pub record Env (Log Tables : Type 0) : Type 0 where
  pub get_block_number : Option ℕ
  pub get_logs : Bool → ℕ → ℕ → Option (List Log)
  pub sort : List Log → List Log
  pub prepare_cleanup : Tables → Tables
  pub prepare_updates : List Log → Option (Tables → Tables)
  pub transaction_succeeds : Bool

-- `runs` has the latest row first; `tables` are the runner's own tables.
pub record State (Tables : Type 0) : Type 0 where
  pub is_running : Bool
  pub runs : List IndexerRun
  pub tables : Tables

-- `skipped`: another execution is under way; `failed`: an error was caught; `scheduled`: the method
-- calls itself again.
pub data Outcome : Type 0 where
  skipped failed finished scheduled : Outcome

unfoldable pub later_of : IndexerRun → Option IndexerRun → IndexerRun
later_of r none = r
later_of r (some q) = if ltb r.date q.date then q else r

unfoldable pub latest : List IndexerRun → Option IndexerRun
latest [] = none
latest (r ∷ rs) = some (later_of r (latest rs))

-- `await prismaService.$transaction(...)`
abbrev pub transaction : Bool → Option (Unit {0})
transaction true = some tt
transaction false = none

module _ (c : Settings) where
  -- The `where` of `findFirst`.
  unfoldable pub is_own : IndexerRun → Bool
  is_own r = r.chain_id == c.chain_id && str_eq r.runner c.name && r.version == c.version

  -- `findFirst` with `orderBy: { date: 'desc' }`
  unfoldable pub find_last_run : List IndexerRun → Option IndexerRun
  find_last_run runs = latest (filter is_own runs)

  unfoldable pub from_block : Option IndexerRun → ℕ
  from_block none = c.origin_block
  from_block (some last_run) = last_run.block_end + 1

  unfoldable pub to_block : ℕ → ℕ → ℕ
  to_block current from =
      if leb (from + c.batch_block_size) current then from + c.batch_block_size - 1 else current

  unfoldable pub should_use_archive_node : ℕ → ℕ → Bool
  should_use_archive_node current from = leb (from + c.archive_node_threshold) current

  unfoldable pub new_run : ℕ → ℕ → ℕ → ℕ → IndexerRun
  new_run now from to count = record {
    date = now;
    chain_id = c.chain_id;
    runner = c.name;
    version = c.version;
    block_start = from;
    block_end = to;
    events_count = count;
  }

  module _ {Log Tables : Type 0} (env : Env Log Tables) where
    -- The `try` block as far as it may throw: the new tables and row, and whether to go on.
    unfoldable pub index_batch : ℕ → State Tables → Option (Tables × IndexerRun × Bool)
    index_batch now s = do
      current ← env.get_block_number
      let last_run = find_last_run s.runs
      let from = from_block last_run
      let to = to_block current from
      logs ← env.get_logs (should_use_archive_node current from) from to
      updates ← env.prepare_updates (env.sort logs)
      _ ← transaction env.transaction_succeeds
      let cleaned : Tables = elim last_run [
        | none ↦ env.prepare_cleanup s.tables
        | some _ ↦ s.tables
      ]
      some (updates cleaned, new_run now from to (length logs), not (current == to))

    unfoldable pub execute : ℕ → State Tables → State Tables × Outcome
    execute now s = if s.is_running then (s, skipped) else elim (index_batch now s) [
      | none ↦ (record s { is_running = false }, failed)
      | some (tables, run, keep_running) ↦ (
        record { is_running = false; runs = run ∷ s.runs; tables = tables },
        if keep_running then scheduled else finished,
      )
    ]

    -- `execute` calls itself as long as it has not caught up; `clock` gives the time of each call. On
    -- fuel: the result `scheduled` means that it ran out.
    unfoldable pub execute_until_done : ℕ → (ℕ → ℕ) → ℕ → State Tables → State Tables × Outcome
    execute_until_done zero clock k s = (s, scheduled)
    execute_until_done (suc fuel) clock k s =
        let (t, outcome) = execute (clock k) s in
        elim outcome [
          | scheduled ↦ execute_until_done fuel clock (suc k) t
          | skipped ↦ (t, skipped)
          | failed ↦ (t, failed)
          | finished ↦ (t, finished)
        ]
