-- ===== src/ClientChecks/Providers.antt =====
-- The checks of a client report on deal sizes, duplication and locations of the storage providers,
-- of src/service/client-report-checks/client-report-checks.service.ts.
use compliance_data_platform.Prelude.{
  ℕ, ◌+◌, ◌*◌, Bool, true, false, Option, none, some, List, [], ◌∷◌, ◌++◌, map, ◌==◌, String,
  str_eq, str_append, ltb, length, ◌>>=◌, if◌then◌else◌, filter,
}
use compliance_data_platform.Numbers.{Double, pos, sub_ℕ, scale_ℤ, big_int_div}
use compliance_data_platform.ClientReport.{
  lit, shown_number, count, number, text, ids, ProviderDistribution,
}
use compliance_data_platform.ClientChecks.{
  Limits, includes, filter_option, Check, provider_distribution_of, row, message, storage_providers,
}
use compliance_data_platform.ClientReport.{
  storage_provider_distribution_providers_exceed_provider_deal,
  storage_provider_distribution_providers_exceed_max_duplication,
  storage_provider_distribution_providers_unknown_location,
  storage_provider_distribution_all_located_in_the_same_region,
}

module _ (F : Double) where
  abbrev pub total_deal_size : List (ProviderDistribution F) → ℕ
  total_deal_size [] = 0
  total_deal_size (p ∷ ps) = p.total_deal_size + total_deal_size ps

  -- `bigIntDiv(provider.total_deal_size * 100n, totalDealSize) > limit`
  unfoldable pub exceeds_provider_deal : F.carrier → ℕ → ProviderDistribution F → Option Bool
  exceeds_provider_deal limit total p = do
    percentage ← big_int_div F (pos (p.total_deal_size * 100)) total
    some (F.lt limit percentage)

  unfoldable pub providers_exceeding_provider_deal :
      F.carrier → List (ProviderDistribution F) → Option (List String)
  providers_exceeding_provider_deal limit distribution =
      let total = total_deal_size distribution in
      if total == 0 then some [] else (do
        exceeding ← filter_option (exceeds_provider_deal limit total) distribution
        some (map (λ p. p.provider) exceeding))

  unfoldable pub store_providers_exceeding_provider_deal : Limits F → Check F
  store_providers_exceeding_provider_deal limits report_id db =
      elim limits.max_provider_deal_percentage [
        | none ↦ some []
        | some limit ↦ (do
          exceeding ←
              providers_exceeding_provider_deal limit (provider_distribution_of F report_id db)
          let check_passed = length exceeding == 0
          some (
              row F report_id storage_provider_distribution_providers_exceed_provider_deal
                check_passed
                (("violating_ids", ids exceeding)
                  ∷ ("max_providers_exceeding_provider_deal", count 0)
                  ∷ (
                    "msg",
                    if check_passed
                        then message F "Storage provider distribution looks healthy"
                        else text (
                            storage_providers F (length exceeding)
                            ++ lit " sealed more than "
                              ∷ shown_number limit
                              ∷ lit "% of total datacap"
                              ∷ []),
                  )
                  ∷ [])))
      ]

  -- `provider.total_deal_size && bigIntDiv((total - unique) * 100n, total) > limit`
  unfoldable pub exceeds_max_duplication : F.carrier → ProviderDistribution F → Option Bool
  exceeds_max_duplication limit p = if p.total_deal_size == 0 then some false else (do
    percentage ←
        big_int_div F (scale_ℤ (sub_ℕ p.total_deal_size p.unique_data_size) 100) p.total_deal_size
    some (F.lt limit percentage))

  unfoldable pub store_providers_exceeding_max_duplication_percentage : Limits F → Check F
  store_providers_exceeding_max_duplication_percentage limits report_id db =
      elim limits.max_duplication_percentage [
        | none ↦ some []
        | some limit ↦ (do
          exceeding ←
              filter_option (exceeds_max_duplication limit)
                (provider_distribution_of F report_id db)
          let violating = map (λ p. p.provider) exceeding
          let check_passed = length violating == 0
          some (
              row F report_id storage_provider_distribution_providers_exceed_max_duplication
                check_passed
                (("violating_ids", ids violating)
                  ∷ ("max_duplication_percentage", number limit)
                  ∷ ("max_providers_exceeding_max_duplication", count 0)
                  ∷ (
                    "msg",
                    if check_passed
                        then message F "Storage provider duplication looks healthy"
                        else text (
                            storage_providers F (length violating)
                            ++ lit " sealed too much duplicate data" ∷ []),
                  )
                  ∷ [])))
      ]

  -- `!provider.location?.country`: null or the empty text.
  unfoldable pub has_unknown_location : ProviderDistribution F → Bool
  has_unknown_location p = elim p.location [ none ↦ true | some l ↦ str_eq l.country "" ]

  unfoldable pub store_providers_with_unknown_location : Check F
  store_providers_with_unknown_location report_id db =
      let violating =
        map (λ p. p.provider)
          (filter has_unknown_location (provider_distribution_of F report_id db)) in
      let check_passed = length violating == 0 in
      some (
        row F report_id storage_provider_distribution_providers_unknown_location check_passed (
          ("violating_ids", ids violating)
          ∷ ("max_providers_with_unknown_location", count 0)
          ∷ (
            "msg",
            if check_passed
                then message F "Storage provider locations looks healthy"
                else text (
                    storage_providers F (length violating) ++ lit " have unknown IP location" ∷ []),
          )
          ∷ []))

  -- The template literal of country, region and city, where a missing location reads "undefined".
  unfoldable pub location_text : ProviderDistribution F → String
  location_text p = elim p.location [
    | none ↦ "undefined undefined undefined"
    | some l ↦ str_append l.country (str_append " " (str_append l.region (str_append " " l.city)))
  ]

  -- `new Set(...)`
  unfoldable pub set_of : List String → List String
  set_of [] = []
  set_of (s ∷ ss) = let rest = set_of ss in if includes rest s then rest else s ∷ rest

  unfoldable pub store_providers_in_same_location : Check F
  store_providers_in_same_location report_id db =
      let location_set = set_of (map location_text (provider_distribution_of F report_id db)) in
      let check_passed = ltb 1 (length location_set) in
      some (
        row F report_id storage_provider_distribution_all_located_in_the_same_region check_passed (
          (
            "msg",
            if check_passed
                then message F "Storage providers are located in different regions"
                else message F "All storage providers are located in the same region",
          )
          ∷ []))
