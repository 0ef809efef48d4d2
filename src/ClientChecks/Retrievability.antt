-- ===== src/ClientChecks/Retrievability.antt =====
-- The checks of a client report on IPNI reporting and retrievability of the storage providers, of
-- src/service/client-report-checks/client-report-checks.service.ts.
use compliance_data_platform.Prelude.{
  ℕ, Bool, true, false, Option, none, some, List, [], ◌∷◌, ◌++◌, map, ◌==◌, String, length,
  if◌then◌else◌, filter,
}
use compliance_data_platform.Numbers.{Double, pos, of_ℕ, hundredths}
use compliance_data_platform.ClientReport.{
  lit, count, text, ids, ProviderDistribution, CheckResult, misreporting, not_reporting,
  IpniReportingStatus,
}
use compliance_data_platform.ClientChecks.{
  Check, provider_distribution_of, row, message, storage_providers,
}
use compliance_data_platform.ClientReport.{
  storage_provider_distribution_providers_ipni_misreporting,
  storage_provider_distribution_providers_ipni_not_reporting,
  storage_provider_url_finder_retrievability_zero, storage_provider_url_finder_retrievability_75,
}

abbrev is_misreporting : Option IpniReportingStatus → Bool
is_misreporting (some misreporting) = true
is_misreporting _ = false

abbrev is_not_reporting : Option IpniReportingStatus → Bool
is_not_reporting (some not_reporting) = true
is_not_reporting _ = false

module _ (F : Double) where
  unfoldable pub store_providers_ipni_misreporting : Check F
  store_providers_ipni_misreporting report_id db =
      let violating =
        map (λ p. p.provider)
          (filter (λ p. is_misreporting p.ipni_reporting_status)
            (provider_distribution_of F report_id db)) in
      let check_passed = length violating == 0 in
      some (
        row F report_id storage_provider_distribution_providers_ipni_misreporting check_passed (
          ("violating_ids", ids violating)
          ∷ ("max_misreporting_providers", count 0)
          ∷ (
            "msg",
            if check_passed
                then message F "Storage providers IPNI reporting looks healthy (1/2)"
                else text (
                    storage_providers F (length violating)
                    ++ lit " have misreported their data to IPNI" ∷ []),
          )
          ∷ []))

  unfoldable pub store_providers_ipni_not_reporting : Check F
  store_providers_ipni_not_reporting report_id db =
      let violating =
        map (λ p. p.provider)
          (filter (λ p. is_not_reporting p.ipni_reporting_status)
            (provider_distribution_of F report_id db)) in
      let check_passed = length violating == 0 in
      some (
        row F report_id storage_provider_distribution_providers_ipni_not_reporting check_passed (
          ("violating_ids", ids violating)
          ∷ ("max_not_reporting_providers", count 0)
          ∷ (
            "msg",
            if check_passed
                then message F "Storage providers IPNI reporting looks healthy (2/2)"
                else text (
                    storage_providers F (length violating)
                    ++ lit " have not reported their data to IPNI" ∷ []),
          )
          ∷ []))

  -- `!p.retrievability_success_rate_url_finder`
  unfoldable pub has_zero_retrievability : ProviderDistribution F → Bool
  has_zero_retrievability p = elim p.retrievability_success_rate_url_finder [
    | none ↦ true
    | some rate ↦ F.is_zero rate
  ]

  -- `(p.retrievability_success_rate_url_finder ?? 0) < 0.75`
  unfoldable pub has_retrievability_below_75 : ProviderDistribution F → Bool
  has_retrievability_below_75 p = elim p.retrievability_success_rate_url_finder [
    | none ↦ F.lt (of_ℕ F 0) (hundredths F (pos 75))
    | some rate ↦ F.lt rate (hundredths F (pos 75))
  ]

  abbrev pub zero_retrievability_row : ℕ → List String → List (CheckResult F)
  zero_retrievability_row report_id violating =
      let check_passed = length violating == 0 in
      row F report_id storage_provider_url_finder_retrievability_zero check_passed (
        ("violating_ids", ids violating)
        ∷ ("max_zero_retrievability_providers", count 0)
        ∷ (
          "msg",
          if check_passed
              then message F "Storage provider RPA retrievability looks healthy (1/2)"
              else text (
                  storage_providers F (length violating)
                  ++ lit " have RPA retrieval success rate equal to zero" ∷ []),
        )
        ∷ [])

  abbrev pub retrievability_75_row : ℕ → List String → List (CheckResult F)
  retrievability_75_row report_id violating =
      let check_passed = length violating == 0 in
      row F report_id storage_provider_url_finder_retrievability_75 check_passed (
        ("violating_ids", ids violating)
        ∷ ("max_less_than_75_retrievability_providers", count 0)
        ∷ (
          "msg",
          if check_passed
              then message F "Storage provider RPA retrievability looks healthy (2/2)"
              else text (
                  storage_providers F (length violating)
                  ++ lit " have RPA retrieval success rate less than 75%" ∷ []),
        )
        ∷ [])

  unfoldable pub store_providers_url_finder_retrievability : Check F
  store_providers_url_finder_retrievability report_id db =
      let distribution = provider_distribution_of F report_id db in
      some (
        zero_retrievability_row report_id
          (map (λ p. p.provider) (filter has_zero_retrievability distribution))
        ++ retrievability_75_row report_id
            (map (λ p. p.provider) (filter has_retrievability_below_75 distribution)))
