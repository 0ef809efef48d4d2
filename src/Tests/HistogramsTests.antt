-- ===== src/Tests/HistogramsTests.antt =====
-- Two weeks of a query, each without some of the buckets up to 20.
use compliance_data_platform.Prelude.{
  ℕ, ◌≡◌, refl, true, false, none, some, List, [], ◌∷◌, All, arith,
}
use compliance_data_platform.Numbers.{pos, sub_ℕ}
use compliance_data_platform.Tables.{is_key_in, distinct_from}
use compliance_data_platform.Histograms.{
  HistogramTotalDatacap, HistogramWeekFlat, HistogramWeekResults, sum_of_counts, results_of_week,
  histograms_by_week, all_buckets, max_top_value, get_max_min_span, top_values,
  get_all_buckets_top_values, has_top_value, insert_bucket, sort_buckets, empty_bucket, fill_week,
  with_missing_buckets, insert_week, sorted, without_current_week, get_weekly_histogram_result,
}
use compliance_data_platform.Histograms.Buckets.{IsComplete}
use compliance_data_platform.Histograms.Weeks.{
  get_weekly_histogram_result-IsComplete, get_weekly_histogram_result-ends,
}

abbrev flat_row : ℕ → ℕ → HistogramWeekFlat
flat_row week top = record {
  week = week;
  bucket = record {
    value_from_exclusive = sub_ℕ top 5;
    value_to_inclusive = top;
    count = 2;
    total_datacap = 9;
  };
}

abbrev flat : List HistogramWeekFlat
flat = flat_row 1700000000000 15 ∷ flat_row 1700000000000 5 ∷ flat_row 1600000000000 0 ∷ []

histograms : Unit {0}
unfolding sum_of_counts results_of_week histograms_by_week all_buckets max_top_value
    get_max_min_span top_values get_all_buckets_top_values has_top_value insert_bucket sort_buckets
    empty_bucket fill_week with_missing_buckets insert_week sorted without_current_week
    get_weekly_histogram_result is_key_in distinct_from
histograms = tt

abbrev bucket : ℕ → ℕ → ℕ → HistogramTotalDatacap
bucket top n d = record {
  value_from_exclusive = sub_ℕ top 5;
  value_to_inclusive = top;
  count = n;
  total_datacap = d;
}

-- The second week is not over.
abbrev first_week : List HistogramWeekResults
first_week =
    record {
      week = 1600000000000;
      total = 2;
      results = bucket 0 2 9 ∷ bucket 5 0 0 ∷ bucket 10 0 0 ∷ bucket 15 0 0 ∷ bucket 20 0 0 ∷ [];
    }
    ∷ []

filled_weeks : get_weekly_histogram_result 21 1700000000001 flat (some 20) 0 false ≡ some first_week
unfolding histograms
filled_weeks = refl

endless : top_values 100 (pos 0) 0 20 ≡ none
unfolding histograms
endless = refl

span_of_flat : get_max_min_span (histograms_by_week flat) ≡ pos 5
unfolding histograms
span_of_flat = refl

get_weekly_histogram_result-IsComplete_example :
    (values : List ℕ) × (get_all_buckets_top_values 21 (histograms_by_week flat) (some 20) 0
      ≡ some values)
    × All (IsComplete values) first_week
get_weekly_histogram_result-IsComplete_example =
    get_weekly_histogram_result-IsComplete 21 1700000000001 flat (some 20) 0 false first_week
      filled_weeks

get_weekly_histogram_result-ends_example :
    (weeks : List HistogramWeekResults) × (get_weekly_histogram_result 21 1700000000001 flat
        (some 20)
        0
        true
      ≡ some weeks)
get_weekly_histogram_result-ends_example =
    get_weekly_histogram_result-ends 21 1700000000001 4 flat (some 20) 0 true span_of_flat
      (omega arith)
