-- ===== src/AllocatorChecks/Store.antt =====
-- `storeReportChecks` of src/service/allocator-report-checks/allocator-report-checks.service.ts: the
-- checks of an allocator report, one after the other. The first that throws ends it; the rows that
-- were created before stay.
pub mod Kinds
pub mod Verdicts
pub mod Activity
use compliance_data_platform.Prelude.{
  ℕ, Bool, true, false, Option, none, some, List, [], ◌∷◌, ◌++◌, String,
}
use compliance_data_platform.Numbers.{Double}
use compliance_data_platform.ClientReport.{Db}
use compliance_data_platform.AllocatorChecks.{AllocatorReport, AllocatorCheckResult}
use compliance_data_platform.AllocatorChecks.Clients.{
  store_client_multiple_allocators, store_client_not_enough_copies,
}
use compliance_data_platform.AllocatorChecks.FromClients.{
  store_allocator_checks_based_on_client_report_checks,
}
use compliance_data_platform.AllocatorChecks.Schedule.{
  Registry, store_allocator_tranche_schedule_check,
}

module _ (F : Double) where
  -- The rows created, and whether all checks ran to their end.
  unfoldable pub store_in_order :
      List (Option (List (AllocatorCheckResult F))) → List (AllocatorCheckResult F) × Bool
  store_in_order [] = ([], true)
  store_in_order (none ∷ checks) = ([], false)
  store_in_order (some rows ∷ checks) =
      (rows ++ (store_in_order checks).0, (store_in_order checks).1)

  -- `cutoff` is sixty days before now, `limit` the greatest percentage of data with too few copies.
  unfoldable pub store_report_checks :
      (read : String → Option F.carrier)
      → Registry
      → (cutoff : ℕ) → (limit : Option F.carrier) → Db F
      → AllocatorReport F
      → List (AllocatorCheckResult F) × Bool
  store_report_checks read registry cutoff limit db report = store_in_order (
      store_client_multiple_allocators F report
      ∷ store_client_not_enough_copies F read limit report
      ∷ store_allocator_checks_based_on_client_report_checks F cutoff db report
      ∷ store_allocator_tranche_schedule_check registry F report
      ∷ [])
