-- ===== src/AllocatorChecks/FromClients.antt =====
-- `storeAllocatorChecksBasedOnClientReportChecks` of
-- src/service/allocator-report-checks/allocator-report-checks.service.ts.
use compliance_data_platform.Prelude.{
  ℕ, Bool, true, false, not, ◌&&◌, Option, none, some, List, [], ◌∷◌, ◌++◌, ◌==◌, map, String,
  str_eq, ltb, leb, length, filter, if◌then◌else◌,
}
use compliance_data_platform.Numbers.{Double, of_ℕ}
use compliance_data_platform.ClientReport.{
  lit, fixed, text, ClientReport, CheckResult, Db, ClientReportCheck, inactivity,
  storage_provider_distribution_providers_retrievability_75,
  storage_provider_distribution_providers_retrievability_zero,
}
use compliance_data_platform.AllocatorChecks.{
  ReportClient, AllocatorReport, AllocatorCheckResult, store_check, from_client_report, check_index,
  client_report_checks,
}
use compliance_data_platform.AllocatorChecks.Texts.{
  get_client_report_check_fail_message, get_client_report_check_name,
  get_client_report_check_description,
}

unfoldable pub same_check : ClientReportCheck → ClientReportCheck → Bool
same_check a b = check_index a == check_index b

-- `DEPRECATED_CLIENT_REPORT_CHECKS`
unfoldable pub is_deprecated : ClientReportCheck → Bool
is_deprecated storage_provider_distribution_providers_retrievability_75 = true
is_deprecated storage_provider_distribution_providers_retrievability_zero = true
is_deprecated _ = false

unfoldable pub checks_in_use : List ClientReportCheck
checks_in_use = filter (λ check. not (is_deprecated check)) client_report_checks

-- `last_datacap_spent: { gte: date }`, which no null satisfies
unfoldable pub is_since : ℕ → Option ℕ → Bool
is_since date none = false
is_since date (some spent) = leb date spent

module _ (F : Double) where
  abbrev pub newer_of : ClientReport F → Option (ClientReport F) → ClientReport F
  newer_of r none = r
  newer_of r (some q) = if ltb r.create_date q.create_date then q else r

  -- `findFirst` with `orderBy: { create_date: 'desc' }`
  unfoldable pub newest : List (ClientReport F) → Option (ClientReport F)
  newest [] = none
  newest (r ∷ rs) = some (newer_of r (newest rs))

  -- `include: { check_results: { where: … } }`; no report has no results (`x?.check_results || []`).
  unfoldable pub results_in :
      Db F → (ClientReportCheck → Bool) → Option (ClientReport F) → List (CheckResult F)
  results_in db chosen none = []
  results_in db chosen (some r) =
      filter (λ x. x.client_report_id == r.id && chosen x.check) db.check_results

  -- The newest report among those of a client that spent datacap since `cutoff`.
  unfoldable pub active_report : ℕ → Db F → String → Option (ClientReport F)
  active_report cutoff db client = newest (
      filter (λ r. str_eq r.client client && is_since cutoff r.last_datacap_spent) db.client_report)

  unfoldable pub newest_report : Db F → String → Option (ClientReport F)
  newest_report db client = newest (filter (λ r. str_eq r.client client) db.client_report)

  unfoldable pub active_results : ℕ → Db F → List (ReportClient F) → List (CheckResult F)
  active_results cutoff db [] = []
  active_results cutoff db (c ∷ cs) =
      results_in db (λ k. not (same_check k inactivity)) (active_report cutoff db c.client_id)
      ++ active_results cutoff db cs

  unfoldable pub inactivity_results : Db F → List (ReportClient F) → List (CheckResult F)
  inactivity_results db [] = []
  inactivity_results db (c ∷ cs) =
      results_in db (λ k. same_check k inactivity) (newest_report db c.client_id)
      ++ inactivity_results db cs

  -- `groupedClientsChecks[check]`, where no group counts as the empty one
  unfoldable pub grouped_checks :
      ℕ → Db F → List (ReportClient F) → ClientReportCheck → List (CheckResult F)
  grouped_checks cutoff db clients check =
      filter (λ x. same_check x.check check)
        (active_results cutoff db clients ++ inactivity_results db clients)

  unfoldable pub failed_checks_percentage : List (CheckResult F) → F.carrier
  failed_checks_percentage [] = of_ℕ F 0
  failed_checks_percentage (x ∷ xs) =
      F.mul
        (F.div (of_ℕ F (length (filter (λ y. not y.result) (x ∷ xs)))) (of_ℕ F (length (x ∷ xs))))
        (of_ℕ F 100)

  unfoldable pub row_from_clients :
      String → List (CheckResult F) → ClientReportCheck → AllocatorCheckResult F
  row_from_clients report_id group check =
      let percentage = failed_checks_percentage group in
      store_check F report_id (from_client_report check) (get_client_report_check_name check)
        (get_client_report_check_description check) (F.le percentage (of_ℕ F 50))
        ((
          "msg",
          text
              (fixed percentage ∷ lit "% " ∷ lit (get_client_report_check_fail_message check) ∷ []),
        )
          ∷ [])

  -- `cutoff` is sixty days before now. The rows are created at once; here in the checks' order.
  unfoldable pub store_allocator_checks_based_on_client_report_checks :
      ℕ → Db F → AllocatorReport F → Option (List (AllocatorCheckResult F))
  store_allocator_checks_based_on_client_report_checks cutoff db report = some (
      map
        (λ check. row_from_clients report.id (grouped_checks cutoff db report.clients check) check)
        checks_in_use)
