-- ===== src/AllocatorScoring/Providers.antt =====
-- The scores of an allocator's providers, of src/service/allocator-scoring/allocator-scoring.service.ts.
use compliance_data_platform.Prelude.{ℕ, ◌+◌, Option, none, some, List, [], ◌∷◌, map, filter, ◌>>=◌}
use compliance_data_platform.Numbers.{ℤ, pos, sub_ℕ, Double, of_ℕ}
use compliance_data_platform.Numbers.Signed.{◌+ℤ◌, ◌*ℤ◌}
use compliance_data_platform.AllocatorScoring.Report.{
  ProviderShare, AllocatorReport, Maths, Queries, filesize, text, percent, fixed_percent,
  ipni_reporting, url_finder_retrievability, duplicated_data,
}
use compliance_data_platform.AllocatorScoring.Statistics.{
  ratio_or_zero, array_average, sort_numbers, number_or_zero, given_or_zero,
  calculate_nth_percentile,
}
use compliance_data_platform.AllocatorScoring.Bands.{
  ipni_score, ipni_ranges, duplicated_score, duplicated_ranges, retrievability_score,
  retrievability_ranges,
}
use compliance_data_platform.AllocatorScoring.Results.{Score}

-- `_sum: { total_deal_size }`; the sum of no rows, null, counts as 0.
abbrev pub sum_deal_size : List ProviderShare → ℕ
sum_deal_size [] = 0
sum_deal_size (p ∷ ps) = p.total_deal_size + sum_deal_size ps

abbrev pub duplicated_from : List ProviderShare → ℤ
duplicated_from [] = pos 0
duplicated_from (p ∷ ps) = sub_ℕ p.total_deal_size p.unique_data_size +ℤ duplicated_from ps

module _ (F : Double) where
  unfoldable pub ipni_reporting_score : AllocatorReport F → Option (Score F)
  ipni_reporting_score report = do
    let providers = report.storage_provider_distribution
    let ok_datacap = pos (sum_deal_size (filter (λ p. p.is_ipni_ok) providers))
    let total_datacap = pos (sum_deal_size providers)
    percentage ← ratio_or_zero F (ok_datacap *ℤ pos 100) total_datacap
    some (record {
      metric = ipni_reporting;
      metric_value = percentage;
      metric_value_max = some (of_ℕ F 100);
      score = ipni_score F percentage;
      open_data_score_weight = 3;
      enterprise_score_weight = 0;
      metric_name = "IPNI reporting";
      metric_description = "Measures if data is correctly reported and indexed in IPNI";
      metric_unit = some "%";
      metric_average = none;
      score_ranges = ipni_ranges F;
      metadata =
          ("IPNI OK Datacap", filesize ok_datacap)
          ∷ ("Total Datacap", filesize total_datacap)
          ∷ ("Percentage of IPNI OK datacap", percent percentage)
          ∷ ("Percentage of IPNI OK datacap > 55", text "3 points")
          ∷ ("Percentage of IPNI OK datacap >= 50", text "1 point")
          ∷ ("Percentage of IPNI OK datacap < 50", text "0 points")
          ∷ [];
    })

  unfoldable pub duplicated_data_score : AllocatorReport F → Option (Score F)
  duplicated_data_score report = do
    let providers = report.storage_provider_distribution
    let total_datacap = pos (sum_deal_size providers)
    let duplicated_datacap = duplicated_from providers
    percentage ← ratio_or_zero F (duplicated_datacap *ℤ pos 100) total_datacap
    some (record {
      metric = duplicated_data;
      metric_value = percentage;
      metric_value_max = some (of_ℕ F 100);
      score = duplicated_score F percentage;
      open_data_score_weight = 2;
      enterprise_score_weight = 2;
      metric_name = "Duplicated data";
      metric_description = "Measures if this is the same car file that is sealed on the same SP";
      metric_unit = some "%";
      metric_average = none;
      score_ranges = duplicated_ranges F;
      metadata =
          ("Total datacap", filesize total_datacap)
          ∷ ("Duplicated datacap", filesize duplicated_datacap)
          ∷ ("Percentage of duplicated datacap", fixed_percent percentage)
          ∷ ("Percentage of duplicated datacap <= 0.25", text "2 points")
          ∷ ("Percentage of duplicated datacap <= 5", text "1 point")
          ∷ ("Percentage of duplicated datacap > 5", text "0 points")
          ∷ [];
    })

  module _ (M : Maths F) (Q : Queries F) where
    abbrev pub as_percentage : Option F.carrier → F.carrier
    as_percentage x = F.mul (given_or_zero F x) (of_ℕ F 100)

    -- Without any report there is no average, and its `toFixed` throws.
    unfoldable pub url_finder_retrievability_score : AllocatorReport F → Option (Score F)
    url_finder_retrievability_score report = do
      let sorted = sort_numbers F (map (number_or_zero F) Q.success_rates)
      median ← calculate_nth_percentile F M sorted 50
      quartile ← calculate_nth_percentile F M sorted 25
      average ← array_average F M sorted
      rounded ← M.read (M.to_fixed 4 average)
      let p50 = as_percentage median
      let p25 = as_percentage quartile
      let v = as_percentage report.avg_retrievability_success_rate_url_finder
      some (record {
        metric = url_finder_retrievability;
        metric_value = v;
        metric_value_max = some (of_ℕ F 100);
        score = retrievability_score F p25 p50 v;
        open_data_score_weight = 5;
        enterprise_score_weight = 0;
        metric_name = "RPA retrievability";
        metric_description = "Verifies real retrievability but from known actors";
        metric_unit = some "%";
        metric_average = some (F.mul rounded (of_ℕ F 100));
        score_ranges = retrievability_ranges F p25 p50;
        metadata =
            ("Allocator RPA retrievability", fixed_percent v)
            ∷ ("25th Percentile of all allocators RPA retrievabilities", fixed_percent p25)
            ∷ ("50th Percentile of all allocators RPA retrievabilities", fixed_percent p50)
            ∷ ("Allocator RPA retrievability > 50th Percentile", text "3 points")
            ∷ ("Allocator RPA retrievability > 25th Percentile", text "1 point")
            ∷ ("Allocator RPA retrievability <= 25th Percentile", text "0 points")
            ∷ [];
      })
