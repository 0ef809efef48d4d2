-- ===== src/Tests/AllocatorScoringTests.antt =====
-- The scores of an allocator with one provider and one client, with fractions as numbers.
use compliance_data_platform.Prelude.{
  ◌+◌, ◌*◌, ◌/◌, ◌≡◌, ◌⊎◌, refl, true, not, none, some, List, [], ◌∷◌, ◌++◌, map, ◌==◌, In, arith,
  if◌then◌else◌,
}
use compliance_data_platform.Tests.Rationals.{Fraction, rationals}
use compliance_data_platform.AllocatorScoring.Report.{
  open_data, enterprise, AllocatorReport, Maths, Queries, ScoringResult, ScoringMetric,
  ipni_reporting, filesize, percent, text,
}
use compliance_data_platform.Numbers.{pos, of_ℕ, big_int_div, big_int_to_number}
use compliance_data_platform.Numbers.Signed.{◌*ℤ◌, ◌+ℤ◌}
use compliance_data_platform.AllocatorScoring.Bands.{ipni_ranges}
use compliance_data_platform.AllocatorScoring.Results.{Score, result_row, store_score}
use compliance_data_platform.AllocatorScoring.Statistics.{
  signed_big_int_div, ratio_or_zero, big_int_mul, compute_client_weight, standard_deviation,
  array_average, calculate_nth_percentile, sort_numbers,
}
use compliance_data_platform.AllocatorScoring.Providers.{
  ipni_reporting_score, url_finder_retrievability_score, duplicated_data_score,
}
use compliance_data_platform.AllocatorScoring.Clients.{
  collect, weighted, shared_by, cid_sharing_score, unique_data_set_size_score,
  equality_of_datacap_distribution_score, client_diversity_score,
  client_previous_applications_score,
}
use compliance_data_platform.AllocatorScoring.Store.{store_scoring, run_scores}
use compliance_data_platform.AllocatorScoring.Ranges.{IsOrdered, agrees}
use compliance_data_platform.AllocatorScoring.Agreement.{store_scoring-agrees}
use compliance_data_platform.AllocatorScoring.Entries.{weighed_metrics, all_entries}
use compliance_data_platform.AllocatorScoring.Metrics.{store_scoring_metrics}

-- Numbers without roots and exponentials, which the report does not need: those of 0 and 1 do.
abbrev maths : Maths rationals
maths = record {
  sub = λ x y. record {
    plus = x.plus * y.den + y.minus * x.den;
    minus = x.minus * y.den + y.plus * x.den;
    den = x.den * y.den;
  };
  square = λ x. record {
    plus = x.plus * x.plus + x.minus * x.minus;
    minus = x.plus * x.minus + x.minus * x.plus;
    den = x.den * x.den;
  };
  sqrt = λ x. x;
  exp = λ x. record { plus = 1; minus = 0; den = 1 };
  max = λ x y. if rationals.le x y then y else x;
  round = λ x. record { plus = x.plus / x.den; minus = x.minus / x.den; den = 1 };
  eq = λ x y. x.plus * y.den + y.minus * x.den == y.plus * x.den + x.minus * y.den;
  is_finite = λ x. not (x.den == 0);
  to_fixed = λ n x. "0.5000";
  read = λ s. some (record { plus = 1; minus = 0; den = 2 });
}

maths-IsOrdered : IsOrdered rationals maths
maths-IsOrdered = record {
  lt_le = λ a b h. ground arith;
  not_lt = λ a b f g h. ground arith;
  not_le = λ a b f g h. ground arith;
  eq_le = λ a b h. ground arith;
  le_lt = λ a b h k. ground arith;
}

abbrev queries : Queries rationals
queries = record {
  now = 1000;
  metric_average = λ m. none;
  metric_max = λ m. none;
  success_rates = record { plus = 1; minus = 0; den = 2 } ∷ [];
  months_of_operation = some (record { plus = 2; minus = 0; den = 1 });
}

abbrev report : AllocatorReport rationals
report = record {
  clients =
      record {
        allocations_number = 2;
        total_allocations = 100;
        expected_size_of_single_dataset = some 50;
        total_uniq_data_set_size = some 55;
        last_datacap_spent = some 900;
        cid_sharing = 1 ∷ [];
      }
      ∷ [];
  clients_number = 1;
  storage_provider_distribution =
      record { total_deal_size = 100; unique_data_size = 98; is_ipni_ok = true } ∷ [];
  avg_retrievability_success_rate_url_finder = some (record { plus = 3; minus = 0; den = 4 });
}

-- All of the provider's data is reported, which gives 3 points with a weight of 3.
abbrev all_of_it : Fraction
all_of_it = record { plus = 10000; minus = 0; den = 100 }

abbrev ipni : Score rationals
ipni = record {
  metric = ipni_reporting;
  metric_value = all_of_it;
  metric_value_max = some (of_ℕ rationals 100);
  score = 3;
  open_data_score_weight = 3;
  enterprise_score_weight = 0;
  metric_name = "IPNI reporting";
  metric_description = "Measures if data is correctly reported and indexed in IPNI";
  metric_unit = some "%";
  metric_average = none;
  score_ranges = ipni_ranges rationals;
  metadata =
      ("IPNI OK Datacap", filesize (pos 100))
      ∷ ("Total Datacap", filesize (pos 100))
      ∷ ("Percentage of IPNI OK datacap", percent all_of_it)
      ∷ ("Percentage of IPNI OK datacap > 55", text "3 points")
      ∷ ("Percentage of IPNI OK datacap >= 50", text "1 point")
      ∷ ("Percentage of IPNI OK datacap < 50", text "0 points")
      ∷ [];
}

abbrev ipni_row : ScoringResult rationals
ipni_row = result_row rationals maths queries open_data ipni

computed : ipni_reporting_score rationals report ≡ some ipni
unfolding ipni_reporting_score ratio_or_zero signed_big_int_div big_int_div big_int_to_number ◌*ℤ◌
computed = refl

stored : In ipni_row (store_scoring rationals maths queries (some open_data) report).stored
unfolding store_scoring run_scores store_score ipni_reporting_score url_finder_retrievability_score
    cid_sharing_score duplicated_data_score unique_data_set_size_score
    equality_of_datacap_distribution_score client_diversity_score client_previous_applications_score
    ratio_or_zero signed_big_int_div big_int_div big_int_to_number ◌*ℤ◌ ◌+ℤ◌ big_int_mul collect
    weighted shared_by compute_client_weight standard_deviation array_average
    calculate_nth_percentile sort_numbers
stored = (0, refl)

store_scoring-agrees_example : agrees rationals ipni_row.ranges all_of_it 9 ≡ true
store_scoring-agrees_example =
    store_scoring-agrees rationals maths queries maths-IsOrdered report (some open_data) ipni_row
      stored refl ((refl, refl), ((refl, refl), ((refl, refl), tt))) refl refl

store_scoring_metrics_example :
    (later : List ScoringMetric) × (map
          (λ r. r.metric)
          (store_scoring rationals maths queries (some enterprise) report).stored
        ++ later
      ≡ weighed_metrics enterprise all_entries)
    × (((store_scoring rationals maths queries (some enterprise) report).thrown ≡ true)
        ⊎ (later ≡ []))
store_scoring_metrics_example = store_scoring_metrics rationals maths queries report enterprise
