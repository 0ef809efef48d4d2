-- ===== src/Tests/AggregationTests.antt =====
-- Two runners, listed in the wrong order: the first waits for a table that the second fills, and the
-- second fails once before it succeeds. The world counts the calls.
use compliance_data_platform.Prelude.{
  ℕ, suc, ◌+◌, ◌≤◌, ◌≡◌, ◌≢◌, ◌↔◌, refl, true, false, Option, some, none, List, [], ◌∷◌, arith,
  if◌then◌else◌, ◌==◌,
}
use compliance_data_platform.Aggregation.Table.{value, client, client_claims_hourly}
use compliance_data_platform.Aggregation.{
  Err, error, Runners, completed, impossible, out_of_fuel, includes, is_pending, remove, retry_loop,
  execute_with_retries, can_run, execute_runner, for_loop, while_loop, initial_state,
  run_aggregations,
}
use compliance_data_platform.Aggregation.Job.{
  System, new_service, start_job, end_job, get_health, rejection, health_after, Reach, here, next,
  tick, Reach-IsExclusive, run_then_health,
}
use compliance_data_platform.Aggregation.Retries.{Calls, execute_with_retries-Calls}
use compliance_data_platform.Aggregation.Rounds.{Justified, tables_of, count}
use compliance_data_platform.Aggregation.Termination.{
  run_aggregations-ne-out_of_fuel, run_aggregations-Justified, run_aggregations-conserves,
}
use compliance_data_platform.Aggregation.Order.{run_aggregations-ne-impossible}

abbrev run : ℕ → ℕ → ℕ × Option Err
run r calls = (suc calls, if calls == 0 then some (error "timeout") else none)

abbrev runners : Runners ℕ
runners = record {
  name = λ r. if r == 0 then "ClientRunner" else "ClientClaimsHourlyRunner";
  get_filled_tables = λ r. if r == 0 then client ∷ [] else client_claims_hourly ∷ [];
  get_depending_tables = λ r. if r == 0 then client_claims_hourly ∷ [] else [];
  run = run;
  sleep = λ ms calls. calls;
}

-- The first of them alone can never run.
abbrev listed : List ℕ
listed = 0 ∷ 1 ∷ []

abbrev alone : List ℕ
alone = 0 ∷ []

aggregation : Unit {0}
unfolding run_aggregations initial_state while_loop for_loop execute_runner can_run
    execute_with_retries retry_loop remove is_pending includes value
aggregation = tt

both_completed : (run_aggregations runners listed 0).1 ≡ completed
unfolding aggregation
both_completed = refl

three_calls : (run_aggregations runners listed 0).0.world ≡ 3
unfolding aggregation
three_calls = refl

alone_impossible : (run_aggregations runners alone 0).1 ≡ impossible
unfolding aggregation
alone_impossible = refl

execute_with_retries-Calls_example :
    Calls runners
      (run 1)
      3
      0
      (execute_with_retries runners 3 (run 1) 0).0
      (execute_with_retries runners 3 (run 1) 0).1
execute_with_retries-Calls_example = execute_with_retries-Calls runners (run 1) 2 0

run_aggregations-ne-out_of_fuel_example : (run_aggregations runners listed 0).1 ≢ out_of_fuel
run_aggregations-ne-out_of_fuel_example = run_aggregations-ne-out_of_fuel runners listed 0

run_aggregations-Justified_example :
    let s = (run_aggregations runners listed 0).0 in
    Justified runners s.finished × (s.filled_tables ≡ tables_of runners s.finished)
run_aggregations-Justified_example = run_aggregations-Justified runners listed 0

run_aggregations-conserves_example :
    let s = (run_aggregations runners listed 0).0 in count 1 s.finished + count 1 s.pending ≡ 1
run_aggregations-conserves_example = run_aggregations-conserves runners listed 0 1

run_aggregations-ne-impossible_example : (run_aggregations runners listed 0).1 ≢ impossible
unfolding aggregation tables_of
run_aggregations-ne-impossible_example =
    run_aggregations-ne-impossible runners listed (0 ∷ 1 ∷ []) 0 (ground arith) (omega arith)
      (omega arith)

abbrev idle : System
idle = record { service = new_service; under_way = 0 }

started : Reach (record { service = (start_job 7 new_service).0; under_way = 1 })
unfolding start_job
started = next here (tick idle 7)

Reach-IsExclusive_example :
    (1 ≤ 1) × (((start_job 7 new_service).0.job_in_progress ≡ true) ↔ (◌≡◌ {A = ℕ} 1 1))
Reach-IsExclusive_example = Reach-IsExclusive started

run_then_health_example :
    let s' = end_job 9 (rejection completed) (start_job 7 new_service).0 in
    (s'.job_in_progress ≡ false) × (get_health s' ≡ health_after 7 9 none new_service)
run_then_health_example = run_then_health 7 9 completed new_service refl
