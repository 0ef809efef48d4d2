-- ===== src/Reports/Jobs.antt =====
-- The jobs of src/jobs/client-report-generator-job and src/jobs/allocator-report-generator-job: a report
-- for each client of the bookkeeping and for each address of the registry, the failures counted, and the
-- health check. Pauses and metrics are left out; the generation of one report is a parameter, of a world
-- that it changes.
use compliance_data_platform.Prelude.{
  ℕ, ◌+◌, Bool, true, false, Option, none, some, List, [], ◌∷◌, String, str_eq, length,
  if◌then◌else◌,
}
use compliance_data_platform.ClientChecks.{includes}

-- `generateReport`: null, a report, or a rejection.
pub data Generation : Type 0 where
  nothing found rejected : Generation

-- `generateClientReport` and `generateAllocatorReport` throw on null.
abbrev pub is_fail : Generation → Bool
is_fail nothing = true
is_fail found = false
is_fail rejected = true

pub record Run (World : Type 0) : Type 0 where
  pub world : World
  pub reports : ℕ
  pub fails : ℕ

-- `[...new Set(addresses)]`: each address once, where it first stands; `seen` are those before.
unfoldable pub distinct_from : List String → List String → List String
distinct_from seen [] = []
distinct_from seen (a ∷ addresses) =
    let rest = distinct_from (a ∷ seen) addresses in if includes seen a then rest else a ∷ rest

module _ {World : Type 0} (generate_report : String → World → World × Generation) where
  -- An application without an id, null or empty, throws before anything is generated.
  unfoldable pub generate_client_report : Option String → World → World × Generation
  generate_client_report none w = (w, rejected)
  generate_client_report (some id) w = if str_eq id "" then (w, rejected) else generate_report id w

  -- The loop over the applications; the state is the world and `fails`.
  unfoldable pub generate_client_reports : List (Option String) → World → ℕ → World × ℕ
  generate_client_reports [] w fails = (w, fails)
  generate_client_reports (client_id ∷ ids) w fails =
      let (w', g) = generate_client_report client_id w in
      generate_client_reports ids w' (if is_fail g then fails + 1 else fails)

  unfoldable pub run_client_report_generation : List (Option String) → World → Run World
  run_client_report_generation applications w =
      let (w', fails) = generate_client_reports applications w 0 in
      record { world = w'; reports = length applications; fails = fails }

  unfoldable pub generate_allocator_reports : List String → World → ℕ → World × ℕ
  generate_allocator_reports [] w fails = (w, fails)
  generate_allocator_reports (address ∷ addresses) w fails =
      let (w', g) = generate_report address w in
      generate_allocator_reports addresses w' (if is_fail g then fails + 1 else fails)

  unfoldable pub run_allocator_report_generation : List String → World → Run World
  run_allocator_report_generation registry w =
      let addresses = distinct_from [] registry in
      let (w', fails) = generate_allocator_reports addresses w 0 in
      record { world = w'; reports = length addresses; fails = fails }

pub record GeneratorJob : Type 0 where
  pub last_run : Option ℕ
  pub last_run_reports : Option ℕ
  pub last_run_fails : Option ℕ
  pub healthy : Bool

unfoldable pub start_generation : ℕ → GeneratorJob → GeneratorJob
start_generation now job = record job { last_run = some now; healthy = true }

-- The result of the generation, or `none` when the list of what to generate cannot be fetched.
unfoldable pub end_generation : Option (ℕ × ℕ) → GeneratorJob → GeneratorJob
end_generation none job = record job { healthy = false }
end_generation (some (reports, fails)) job = record job {
  last_run_reports = some reports;
  last_run_fails = some fails;
}
