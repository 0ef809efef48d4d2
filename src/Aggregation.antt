-- ===== src/Aggregation.antt =====
-- src/aggregation/aggregation-tasks.service.ts: the hourly job that runs the aggregation runners in
-- dependency order. A runner object is known by a number, its reference; its methods are functions
-- of that number. The world that the runners read and write, and their `run`, are parameters.
pub mod Table
pub mod Job
pub mod Retries
pub mod Rounds
pub mod Order
pub mod Termination
pub mod Registered
use compliance_data_platform.Prelude.{
  ℕ, zero, suc, ◌+◌, Bool, true, false, ◌&&◌, Option, none, some, List, [], ◌∷◌, ◌++◌, String, ◌==◌,
  all, any, length, if◌then◌else◌,
}
use Table.{AggregationTable, value}

-- What is thrown: `lastErr` starts as null.
pub data Err : Type 0 where
  null : Err
  error : String → Err
  -- `Error running NAME: …`, with its cause
  error_running : String → Err → Err

pub record Runners (World : Type 0) : Type 0 where
  pub name : ℕ → String
  pub get_filled_tables : ℕ → List AggregationTable
  pub get_depending_tables : ℕ → List AggregationTable
  pub run : ℕ → World → World × Option Err
  pub sleep : ℕ → World → World

-- `filledTables.includes(p)`
unfoldable pub includes : List AggregationTable → AggregationTable → Bool
includes filled p = any (λ t. value t == value p) filled

-- `pending.indexOf(runner) > -1`
unfoldable pub is_pending : ℕ → List ℕ → Bool
is_pending r pending = any (λ q. q == r) pending

-- `pending.splice(pending.indexOf(runner), 1)`
unfoldable pub remove : ℕ → List ℕ → List ℕ
remove r [] = []
remove r (q ∷ qs) = if q == r then qs else q ∷ remove r qs

-- `finished` holds the runners of the "Finished aggregation" lines, the latest first.
pub record LoopState (World : Type 0) : Type 0 where
  pub world : World
  pub filled_tables : List AggregationTable
  pub pending : List ℕ
  pub finished : List ℕ
  pub executed_runners : ℕ

-- `completed`: the loop's test failed; `impossible`: the `break`; `thrown`: a runner's error.
pub data Outcome : Type 0 where
  completed impossible out_of_fuel : Outcome
  thrown : Err → Outcome

-- `Object.assign([], this.aggregationRunners)`: the pending list is a copy of the runners.
unfoldable pub initial_state : {World : Type 0} → List ℕ → World → LoopState World
initial_state runners w = record {
  world = w;
  filled_tables = [];
  pending = runners;
  finished = [];
  executed_runners = 0;
}

module _ {World : Type 0} (rs : Runners World) where
  -- The loop of `executeWithRetries`, on the tries left; `none` is a success.
  unfoldable pub retry_loop : ℕ → (World → World × Option Err) → Err → World → World × Option Err
  retry_loop zero fn last_err w = (w, some last_err)
  retry_loop (suc left) fn last_err w = elim ((fn w).1) [
    | none ↦ ((fn w).0, none)
    | some e ↦
        retry_loop left fn e (elim left [ zero ↦ (fn w).0 | suc _ ↦ rs.sleep 90000 (fn w).0 ])
  ]

  unfoldable pub execute_with_retries :
      ℕ → (World → World × Option Err) → World → World × Option Err
  execute_with_retries max_tries fn w = retry_loop max_tries fn null w

  unfoldable pub can_run : ℕ → LoopState World → Bool
  can_run r s = is_pending r s.pending && all (includes s.filled_tables) (rs.get_depending_tables r)

  -- The body of the `for` loop for a runner that can run.
  unfoldable pub execute_runner : ℕ → LoopState World → LoopState World × Option Err
  execute_runner r s =
      let (w, failed) = execute_with_retries 3 (rs.run r) s.world in
      elim failed [
        | some e ↦ (record s { world = w }, some (error_running (rs.name r) e))
        | none ↦ (
          record {
            world = w;
            filled_tables = s.filled_tables ++ rs.get_filled_tables r;
            pending = remove r s.pending;
            finished = r ∷ s.finished;
            executed_runners = suc s.executed_runners;
          },
          none,
        )
      ]

  unfoldable pub for_loop : List ℕ → LoopState World → LoopState World × Option Err
  for_loop [] s = (s, none)
  for_loop (r ∷ rest) s = elim (can_run r s) [
    | false ↦ for_loop rest s
    | true ↦ elim ((execute_runner r s).1) [
      | some e ↦ ((execute_runner r s).0, some e)
      | none ↦ for_loop rest (execute_runner r s).0
    ]
  ]

  unfoldable pub while_loop : ℕ → List ℕ → LoopState World → LoopState World × Outcome
  while_loop zero runners s = (s, out_of_fuel)
  while_loop (suc fuel) runners s = elim s.pending [
    | [] ↦ (s, completed)
    | _ ∷ _ ↦
        let (s', failed) = for_loop runners (record s { executed_runners = 0 }) in
        elim failed [
          | some e ↦ (s', thrown e)
          | none ↦ elim s'.executed_runners [
            | zero ↦ (s', impossible)
            | suc _ ↦ while_loop fuel runners s'
          ]
        ]
  ]

  -- A round removes a pending runner or ends the loop, so one round for each and one more suffice.
  unfoldable pub run_aggregations : List ℕ → World → LoopState World × Outcome
  run_aggregations runners w = while_loop (suc (length runners)) runners (initial_state runners w)
