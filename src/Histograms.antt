-- ===== src/Histograms.antt =====
-- src/service/histogram-helper/histogram-helper.service.ts: the weekly histograms, made of the rows of a
-- query, with the buckets that a week lacks filled in. Weeks are milliseconds; the upper bounds of
-- buckets are natural numbers, as the queries of prisma/sql compute them, the lower ones integers.
pub mod Buckets
pub mod Weeks
use compliance_data_platform.Prelude.{
  ℕ, zero, suc, ◌+◌, ◌-◌, Bool, true, false, not, Option, none, some, List, [], ◌∷◌, ◌++◌, map,
  filter, find, any, ltb, leb, ◌==◌, ◌>>=◌, if◌then◌else◌,
}
use compliance_data_platform.Numbers.{ℤ, pos, negsuc, sub_ℕ}
use compliance_data_platform.Tables.{distinct_from}

pub record HistogramTotalDatacap : Type 0 where
  pub value_from_exclusive : ℤ
  pub value_to_inclusive : ℕ
  pub count : ℕ
  pub total_datacap : ℕ

pub record HistogramWeekFlat : Type 0 where
  pub week : ℕ
  pub bucket : HistogramTotalDatacap

pub record HistogramWeekResults : Type 0 where
  pub week : ℕ
  pub total : ℕ
  pub results : List HistogramTotalDatacap

unfoldable pub sum_of_counts : List HistogramTotalDatacap → ℕ
sum_of_counts [] = 0
sum_of_counts (b ∷ bs) = b.count + sum_of_counts bs

-- The groups of `groupBy`, by the first row of each, and their results.
unfoldable pub results_of_week : List HistogramWeekFlat → ℕ → HistogramWeekResults
results_of_week flat week =
    let week_results : List HistogramTotalDatacap =
      map (λ (r : HistogramWeekFlat). r.bucket)
        (filter (λ (r : HistogramWeekFlat). r.week == week) flat) in
    record { week = week; total = sum_of_counts week_results; results = week_results }

unfoldable pub histograms_by_week : List HistogramWeekFlat → List HistogramWeekResults
histograms_by_week flat =
    map (results_of_week flat) (distinct_from [] (map (λ (r : HistogramWeekFlat). r.week) flat))

unfoldable pub all_buckets : List HistogramWeekResults → List HistogramTotalDatacap
all_buckets [] = []
all_buckets (w ∷ weeks) = w.results ++ all_buckets weeks

-- `Math.max` of the upper bounds; a week is never without a bucket.
unfoldable pub max_top_value : List HistogramTotalDatacap → ℕ
max_top_value [] = 0
max_top_value (b ∷ bs) =
    let rest = max_top_value bs in
    if ltb rest b.value_to_inclusive then b.value_to_inclusive else rest

-- `a - b`, of a natural number and an integer.
abbrev pub minus : ℕ → ℤ → ℤ
minus a (pos b) = sub_ℕ a b
minus a (negsuc b) = pos (a + suc b)

-- The difference of the bounds of the first bucket with the largest upper bound.
unfoldable pub get_max_min_span : List HistogramWeekResults → ℤ
get_max_min_span weeks =
    let buckets = all_buckets weeks in
    elim (find (λ (b : HistogramTotalDatacap). b.value_to_inclusive == max_top_value buckets)
      buckets) [ none ↦ pos 0 | some b ↦ minus b.value_to_inclusive b.value_from_exclusive ]

-- `i -= maxMinSpan`; a value below 0 ends the loop as 0 does, since the lower bound is no less than 0.
abbrev pub next_top_value : ℕ → ℤ → ℕ
next_top_value i (pos span) = i - span
next_top_value i (negsuc span) = i + suc span

-- `for (let i = max; i > min; i -= maxMinSpan)`, on fuel; `none` is a loop that goes on.
unfoldable pub top_values : (fuel : ℕ) → ℤ → (min i : ℕ) → Option (List ℕ)
top_values zero span min i = none
top_values (suc fuel) span min i =
    let rest = top_values fuel span min (next_top_value i span) in
    if ltb min i then (do values ← rest; some (i ∷ values)) else some []

unfoldable pub get_all_buckets_top_values :
    (fuel : ℕ) → List HistogramWeekResults → Option ℕ → ℕ → Option (List ℕ)
get_all_buckets_top_values fuel [] max min = some []
get_all_buckets_top_values fuel (w ∷ weeks) max min =
    top_values fuel (get_max_min_span (w ∷ weeks)) min
      (elim max [ none ↦ max_top_value (all_buckets (w ∷ weeks)) | some given ↦ given ])

-- `results.some((p) => p.valueToInclusive === topValue)`
unfoldable pub has_top_value : List HistogramTotalDatacap → ℕ → Bool
has_top_value results v = any (λ (p : HistogramTotalDatacap). p.value_to_inclusive == v) results

unfoldable pub insert_bucket :
    HistogramTotalDatacap → List HistogramTotalDatacap → List HistogramTotalDatacap
insert_bucket b [] = b ∷ []
insert_bucket b (x ∷ xs) =
    let rest = insert_bucket b xs in
    if leb b.value_to_inclusive x.value_to_inclusive then b ∷ x ∷ xs else x ∷ rest

unfoldable pub sort_buckets : List HistogramTotalDatacap → List HistogramTotalDatacap
sort_buckets [] = []
sort_buckets (b ∷ bs) = insert_bucket b (sort_buckets bs)

unfoldable pub empty_bucket : ℤ → ℕ → HistogramTotalDatacap
empty_bucket span v = record {
  value_from_exclusive = minus v span;
  value_to_inclusive = v;
  count = 0;
  total_datacap = 0;
}

-- A week with its missing buckets; it is sorted only when there are any.
unfoldable pub fill_week : ℤ → List ℕ → HistogramWeekResults → HistogramWeekResults
fill_week span values w = elim (filter (λ (v : ℕ). not (has_top_value w.results v)) values) [
  | [] ↦ w
  | v ∷ missing ↦ record w {
    results = sort_buckets (w.results ++ map (empty_bucket span) (v ∷ missing));
  }
]

unfoldable pub with_missing_buckets :
    (fuel : ℕ) → List HistogramWeekResults → Option ℕ → ℕ → Option (List HistogramWeekResults)
with_missing_buckets fuel weeks max min = do
  values ← get_all_buckets_top_values fuel weeks max min
  some (map (fill_week (get_max_min_span weeks) values) weeks)

unfoldable pub insert_week :
    HistogramWeekResults → List HistogramWeekResults → List HistogramWeekResults
insert_week w [] = w ∷ []
insert_week w (x ∷ xs) =
    let rest = insert_week w xs in if leb w.week x.week then w ∷ x ∷ xs else x ∷ rest

unfoldable pub sorted : List HistogramWeekResults → List HistogramWeekResults
sorted [] = []
sorted (w ∷ weeks) = insert_week w (sorted weeks)

-- The last week goes while it is not over.
unfoldable pub without_current_week :
    (now : ℕ) → List HistogramWeekResults → List HistogramWeekResults
without_current_week now [] = []
without_current_week now (w ∷ []) = if ltb now (w.week + 604800000) then [] else w ∷ []
without_current_week now (w ∷ x ∷ weeks) = w ∷ without_current_week now (x ∷ weeks)

unfoldable pub get_weekly_histogram_result :
    (fuel now : ℕ)
    → List HistogramWeekFlat
    → Option ℕ
    → ℕ
    → (include_current_week : Bool) → Option (List HistogramWeekResults)
get_weekly_histogram_result fuel now flat max min include_current_week = do
  weeks ← with_missing_buckets fuel (histograms_by_week flat) max min
  some (if include_current_week then sorted weeks else without_current_week now (sorted weeks))
