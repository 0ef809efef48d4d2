-- ===== src/ClientChecks/Declared.antt =====
-- The checks of a client report on the storage providers that its application declares, of
-- src/service/client-report-checks/client-report-checks.service.ts.
use compliance_data_platform.Prelude.{
  ℕ, not, none, some, List, [], ◌∷◌, ◌++◌, map, ◌==◌, String, length, ◌>>=◌, if◌then◌else◌, filter,
}
use compliance_data_platform.Numbers.{Double, of_ℕ}
use compliance_data_platform.ClientReport.{lit, fixed, count, number, text, ids, Db}
use compliance_data_platform.ClientChecks.{
  Limits, includes, Check, find_report, provider_distribution_of, row, message,
  storage_providers_are,
}
use compliance_data_platform.ClientReport.{
  storage_provider_distribution_providers_declared_not_used,
  storage_provider_distribution_providers_not_declared,
}

module _ (F : Double) where
  abbrev pub actual_storage_providers : ℕ → Db F → List String
  actual_storage_providers report_id db =
      map (λ p. p.provider) (provider_distribution_of F report_id db)

  unfoldable pub store_providers_declared_not_used : Check F
  store_providers_declared_not_used report_id db = do
    report ← find_report F report_id db
    let actual = actual_storage_providers report_id db
    let violating = filter (λ p. not (includes actual p)) report.storage_provider_ids_declared
    let check_passed = length violating == 0
    some (
        row F report_id storage_provider_distribution_providers_declared_not_used check_passed (
          ("max_declared_not_used_providers", count 0)
          ∷ ("violating_ids", ids violating)
          ∷ (
            "msg",
            if check_passed
                then message F "All declared storage providers match actual providers"
                else text (
                    storage_providers_are F (length violating)
                    ++ lit " declared in application file but not actually used" ∷ []),
          )
          ∷ []))

  -- `(part / whole) * 100`, 0 for an empty whole.
  unfoldable pub percentage_of : ℕ → ℕ → F.carrier
  percentage_of part whole =
      if whole == 0 then of_ℕ F 0 else F.mul (F.div (of_ℕ F part) (of_ℕ F whole)) (of_ℕ F 100)

  unfoldable pub store_providers_not_declared : Limits F → Check F
  store_providers_not_declared limits report_id db =
      elim limits.max_percentage_not_declared_providers [
        | none ↦ some []
        | some limit ↦ (do
          report ← find_report F report_id db
          let actual = actual_storage_providers report_id db
          let violating = filter (λ p. not (includes report.storage_provider_ids_declared p)) actual
          let percentage = percentage_of (length violating) (length actual)
          some (
              row F report_id storage_provider_distribution_providers_not_declared
                (F.le percentage limit)
                (("max_percentage_of_not_declared_providers", number limit)
                  ∷ ("percentage_of_not_declared_providers", text (fixed percentage ∷ []))
                  ∷ ("violating_ids", ids violating)
                  ∷ (
                    "msg",
                    if length violating == 0
                        then message F
                            "All actual storage providers are declared in application file"
                        else text (
                            storage_providers_are F (length violating)
                            ++ lit " not declared in application file" ∷ []),
                  )
                  ∷ [])))
      ]
