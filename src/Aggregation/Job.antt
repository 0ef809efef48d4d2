-- ===== src/Aggregation/Job.antt =====
-- `runAggregationJob` and `getHealth` of src/aggregation/aggregation-tasks.service.ts. The job awaits
-- its aggregations, and the timer may fire meanwhile: its start and its end are separate steps.
use compliance_data_platform.Prelude.{
  ℕ, suc, ◌≤◌, ◌≡◌, refl, Bool, true, false, Option, none, some, if◌then◌else◌, arith, ◌↔◌,
}
use compliance_data_platform.Aggregation.{Err, Outcome, completed, impossible, out_of_fuel, thrown}

-- Dates are milliseconds. `unhealthy_reason` is the error whose message the source keeps.
pub record Service : Type 0 where
  pub job_in_progress : Bool
  pub healthy : Bool
  pub unhealthy_reason : Option Err
  pub last_success : Option ℕ
  pub last_run : Option ℕ

abbrev pub new_service : Service
new_service = record {
  job_in_progress = false;
  healthy = true;
  unhealthy_reason = none;
  last_success = none;
  last_run = none;
}

-- Up to the `await`; the result says whether aggregations were started.
unfoldable pub start_job : ℕ → Service → Service × Bool
start_job now s =
    if s.job_in_progress
    then (s, false)
    else (record s { job_in_progress = true; last_run = some now; healthy = true }, true)

-- From the `await` on: the `try` branch or the `catch`, then the `finally`.
unfoldable pub end_job : ℕ → Option Err → Service → Service
end_job now none s = record s { last_success = some now; job_in_progress = false }
end_job now (some e) s = record s {
  healthy = false;
  unhealthy_reason = some e;
  job_in_progress = false;
}

-- `runAggregations` throws only what a runner threw; `break` returns normally.
abbrev pub rejection : Outcome → Option Err
rejection (thrown e) = some e
rejection completed = none
rejection impossible = none
rejection out_of_fuel = none

pub data Health : Type 0 where
  up : (last_success last_run : Option ℕ) → Health
  down : (last_success last_run : Option ℕ) → Option Err → Health

unfoldable pub get_health : Service → Health
get_health s =
    if s.healthy
    then up s.last_success s.last_run
    else down s.last_success s.last_run s.unhealthy_reason

-- The service beside the aggregations that are under way. The timer fires at any time; an
-- aggregation under way ends with or without an error.
pub record System : Type 0 where
  pub service : Service
  pub under_way : ℕ

pub data Step : System → System → Type 0 where
  tick :
      (t : System) (now : ℕ)
      → Step t (record {
        service = (start_job now t.service).0;
        under_way = if (start_job now t.service).1 then suc t.under_way else t.under_way;
      })
  finish :
      (t : System) (now n : ℕ) (failed : Option Err)
      → t.under_way ≡ suc n
      → Step t (record { service = end_job now failed t.service; under_way = n })

pub data Reach : System → Type 0 where
  here : Reach (record { service = new_service; under_way = 0 })
  next : {t u : System} → Reach t → Step t u → Reach u

abbrev pub IsExclusive : System → Type 0
IsExclusive t = t.under_way ≡ (if t.service.job_in_progress then 1 else 0)

Step-IsExclusive : {t u : System} → Step t u → IsExclusive t → IsExclusive u
unfolding start_job end_job
Step-IsExclusive (tick t now) h = ground arith
Step-IsExclusive (finish t now n none e) h = ground arith
Step-IsExclusive (finish t now n (some x) e) h = ground arith

-- In every reachable state at most one aggregation is under way, and the flag `jobInProgress` is
-- set exactly when one is.
pub Reach-IsExclusive :
    {t : System}
    → Reach t
    → (t.under_way ≤ 1) × ((t.service.job_in_progress ≡ true) ↔ (t.under_way ≡ 1))
Reach-IsExclusive r = ground (arith, exclusive r)
  where
    exclusive : {t : System} → Reach t → IsExclusive t
    exclusive here = refl
    exclusive (next r st) = Step-IsExclusive st (exclusive r)

-- What the health check answers after a run that began and ended at these times.
abbrev pub health_after : (began ended : ℕ) → Option Err → Service → Health
health_after began ended none s = up (some ended) (some began)
health_after began ended (some e) s = down s.last_success (some began) (some e)

-- A run from an idle service leaves the flag clear. If it threw nothing, the health check is then
-- up, with the end of this run as its last success; if it threw, the check is down with that error
-- as its reason and with the last success of before.
pub run_then_health :
    (began ended : ℕ) (o : Outcome) (s : Service)
    → s.job_in_progress ≡ false
    → let s' = end_job ended (rejection o) (start_job began s).0 in
      (s'.job_in_progress ≡ false) × (get_health s' ≡ health_after began ended (rejection o) s)
unfolding end_job start_job get_health
run_then_health began ended (thrown e) s idle = ground arith
run_then_health began ended _ s idle = ground arith
