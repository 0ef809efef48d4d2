-- ===== src/ClientChecks/Store.antt =====
-- `storeReportChecks` of src/service/client-report-checks/client-report-checks.service.ts: the checks of
-- a client report, one after the other. The first that throws ends it; rows stored before stay.
use compliance_data_platform.Prelude.{
  Bool, true, false, ℕ, Option, none, some, List, [], ◌∷◌, ◌++◌, String,
}
use compliance_data_platform.Numbers.{Double}
use compliance_data_platform.ClientReport.{Db}
use compliance_data_platform.ClientChecks.{Limits, Check}
use compliance_data_platform.ClientChecks.Providers.{
  store_providers_exceeding_provider_deal, store_providers_exceeding_max_duplication_percentage,
  store_providers_with_unknown_location, store_providers_in_same_location,
}
use compliance_data_platform.ClientChecks.Retrievability.{
  store_providers_ipni_misreporting, store_providers_ipni_not_reporting,
  store_providers_url_finder_retrievability,
}
use compliance_data_platform.ClientChecks.Declared.{
  store_providers_declared_not_used, store_providers_not_declared,
}
use compliance_data_platform.ClientChecks.Replicas.{
  store_deal_data_not_enough_copies, store_deal_data_low_replica, store_deal_data_high_replica,
}
use compliance_data_platform.ClientChecks.Client.{
  store_multiple_allocators, store_inactivity,
  store_deal_data_shared_with_other_clients_cid_sharing, store_unique_data_set_size,
}

-- The parts that are not in the repository: luxon's difference in days, the reading of a number, and
-- the database's sum.
pub record Outside (F : Double) : Type 0 where
  pub days_since : Option ℕ → F.carrier
  pub read : String → Option F.carrier
  pub sum : List F.carrier → F.carrier

module _ (F : Double) where
  -- The result says whether all checks ran to their end.
  unfoldable pub run_check : Check F → ℕ → Db F → Db F × Bool
  run_check check report_id db = elim (check report_id db) [
    | none ↦ (db, false)
    | some rows ↦ (record db { check_results = db.check_results ++ rows }, true)
  ]

  unfoldable pub run_checks : List (Check F) → ℕ → Db F → Db F × Bool
  run_checks [] report_id db = (db, true)
  run_checks (check ∷ checks) report_id db = elim ((run_check check report_id db).1) [
    | false ↦ ((run_check check report_id db).0, false)
    | true ↦ run_checks checks report_id (run_check check report_id db).0
  ]

  module _ (limits : Limits F) (outside : Outside F) where
    abbrev pub storage_provider_distribution_checks : List (Check F)
    storage_provider_distribution_checks =
        store_providers_exceeding_provider_deal F limits
        ∷ store_providers_exceeding_max_duplication_percentage F limits
        ∷ store_providers_with_unknown_location F
        ∷ store_providers_in_same_location F
        ∷ store_providers_url_finder_retrievability F
        ∷ store_providers_ipni_misreporting F
        ∷ store_providers_ipni_not_reporting F
        ∷ store_providers_declared_not_used F
        ∷ store_providers_not_declared F limits
        ∷ []

    abbrev pub deal_data_replication_checks : List (Check F)
    deal_data_replication_checks =
        store_deal_data_low_replica F outside.sum limits
        ∷ store_deal_data_high_replica F outside.sum limits
        ∷ store_deal_data_not_enough_copies F outside.read limits
        ∷ []

    abbrev pub deal_data_shared_with_other_clients_checks : List (Check F)
    deal_data_shared_with_other_clients_checks =
        store_deal_data_shared_with_other_clients_cid_sharing F ∷ []

    abbrev pub unique_data_set_size_checks : List (Check F)
    unique_data_set_size_checks = store_unique_data_set_size F limits ∷ []

    abbrev pub report_checks : List (Check F)
    report_checks =
        store_multiple_allocators F
          ∷ store_inactivity F outside.days_since
          ∷ storage_provider_distribution_checks
        ++ deal_data_replication_checks
        ++ deal_data_shared_with_other_clients_checks
        ++ unique_data_set_size_checks

    unfoldable pub store_report_checks : ℕ → Db F → Db F × Bool
    store_report_checks report_id db = run_checks report_checks report_id db
