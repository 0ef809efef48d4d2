-- ===== src/AllocatorChecks/Store/Kinds.antt =====
-- The rows that the checks of an allocator report create,
-- src/service/allocator-report-checks/allocator-report-checks.service.ts.
use compliance_data_platform.Prelude.{
  ℕ, Bool, true, not, ◌&&◌, ◌||◌, ◌≡◌, inl, inr, Option, none, some, List, [], ◌∷◌, ◌==◌, map,
  String, str_eq, any, All, arith, length, Bool-cases, Option-cases,
}
use compliance_data_platform.ClientChecks.{filter_option}
use compliance_data_platform.Numbers.{Double}
use compliance_data_platform.ClientReport.{Db, Value, CheckResult, ClientReportCheck}
use compliance_data_platform.AllocatorChecks.{
  AllocatorReport, AllocatorCheckResult, AllocatorReportCheck, store_check, allocator_check_index,
  check_index, client_multiple_allocators, client_not_enough_copies, manual_allocation_schedule,
}
use compliance_data_platform.AllocatorChecks.Clients.{
  store_client_multiple_allocators, store_client_not_enough_copies, has_not_enough_copies,
}
use compliance_data_platform.AllocatorChecks.FromClients.{
  store_allocator_checks_based_on_client_report_checks, checks_in_use, row_from_clients,
  is_deprecated, grouped_checks,
}
use compliance_data_platform.AllocatorChecks.Schedule.{
  Registry, store_allocator_tranche_schedule_check, schedule_row, allocations_to_check,
}
use compliance_data_platform.AllocatorChecks.Store.{store_in_order, store_report_checks}

-- No number stands twice in the list.
abbrev pub is_distinct : List ℕ → Bool
is_distinct [] = true
is_distinct (n ∷ ns) = not (any (λ m. m == n) ns) && is_distinct ns

module _ (F : Double) where
  abbrev pub indices : List (AllocatorCheckResult F) → List ℕ
  indices rows = map (λ r. allocator_check_index r.check) rows

  -- What a check gives that throws, creates nothing, or creates one row of the report.
  data OneRow (id : String) (check : AllocatorReportCheck)
      : Option (List (AllocatorCheckResult F)) → Type 0 where
    threw : OneRow id check none
    skipped : OneRow id check (some [])
    created :
        (check_name check_description : String) (result : Bool) (metadata : List (String × Value F))
        → OneRow id check
            (some (store_check F id check check_name check_description result metadata ∷ []))

  copies-OneRow :
      (read : String → Option F.carrier) (limit : Option F.carrier) (report : AllocatorReport F)
      → OneRow report.id client_not_enough_copies
          (store_client_not_enough_copies F read limit report)
  unfolding store_client_not_enough_copies
  copies-OneRow read none report = skipped
  copies-OneRow read (some limit) report = elim (Option-cases report.required_copies) [
    | inl e ↦ rw e (created _ _ _ _)
    | inr (required, e) ↦ elim (Bool-cases (str_eq required "")) [
      | inl empty ↦ rw (e, empty) (created _ _ _ _)
      | inr given ↦
          elim (Option-cases
            (filter_option (has_not_enough_copies F read limit required) report.clients)) [
              | inl thrown ↦ rw (e, given, thrown) threw
              | inr (clients, found) ↦ rw (e, given, found) (created _ _ _ _)
            ]
    ]
  ]

  schedule-OneRow :
      (registry : Registry) (report : AllocatorReport F)
      → OneRow report.id manual_allocation_schedule
          (store_allocator_tranche_schedule_check registry F report)
  unfolding store_allocator_tranche_schedule_check schedule_row
  schedule-OneRow registry report =
      elim (Bool-cases (
        not (registry.is_validated report.allocator)
        || (length (allocations_to_check registry report.client_allocations) == 0))) [
          | inl skip ↦ rw skip skipped
          | inr due ↦ rw due (created _ _ _ _)
        ]

  abbrev pub AreDistinct : String → List (AllocatorCheckResult F) → Type 0
  AreDistinct id rows =
      (is_distinct (indices rows) ≡ true) × All (λ r. r.allocator_report_id ≡ id) rows

  -- The rows of the checks on clients stand between what the second and the last check create.
  abbrev rows_between :
      (id : String) (group : ClientReportCheck → List (CheckResult F)) (n d : String) (b : Bool)
      (meta : List (String × Value F)) (second last : Option (List (AllocatorCheckResult F)))
      → List (AllocatorCheckResult F)
  rows_between id group n d b meta second last =
      (store_in_order F (
        some (store_check F id client_multiple_allocators n d b meta ∷ [])
        ∷ second
        ∷ some (map (λ check. row_from_clients F id (group check) check) checks_in_use)
        ∷ last
        ∷ [])).0

  rows_between-AreDistinct :
      (id : String) (group : ClientReportCheck → List (CheckResult F)) (n d : String) (b : Bool)
      (meta : List (String × Value F)) {second last : Option (List (AllocatorCheckResult F))}
      → OneRow id client_not_enough_copies second
      → OneRow id manual_allocation_schedule last
      → AreDistinct id (rows_between id group n d b meta second last)
  unfolding store_in_order checks_in_use is_deprecated row_from_clients check_index
      allocator_check_index
  rows_between-AreDistinct id group n d b meta threw l = ground arith
  rows_between-AreDistinct id group n d b meta skipped threw = ground arith
  rows_between-AreDistinct id group n d b meta skipped skipped = ground arith
  rows_between-AreDistinct id group n d b meta skipped (created _ _ _ _) = ground arith
  rows_between-AreDistinct id group n d b meta (created _ _ _ _) threw = ground arith
  rows_between-AreDistinct id group n d b meta (created _ _ _ _) skipped = ground arith
  rows_between-AreDistinct id group n d b meta (created _ _ _ _) (created _ _ _ _) = ground arith

  -- The rows that one run creates are all of this report, and no two are of the same check, as the
  -- unique key of the table asks.
  pub store_report_checks-AreDistinct :
      (read : String → Option F.carrier) (registry : Registry) (cutoff : ℕ)
      (limit : Option F.carrier) (db : Db F) (report : AllocatorReport F)
      → AreDistinct report.id (store_report_checks F read registry cutoff limit db report).0
  unfolding store_report_checks store_client_multiple_allocators
      store_allocator_checks_based_on_client_report_checks
  store_report_checks-AreDistinct read registry cutoff limit db report =
      rows_between-AreDistinct report.id (grouped_checks F cutoff db report.clients) _ _ _ _
        (copies-OneRow read limit report) (schedule-OneRow registry report)
