-- ===== src/Histograms/Weeks.antt =====
-- The result of `getWeeklyHistogramResult`.
use compliance_data_platform.Prelude.{
  ℕ, suc, ◌+◌, ◌<◌, ◌≡◌, refl, subst, Bool, true, false, Option, none, some, List, [], ◌∷◌, map,
  ltb, leb, >>=-eq-some, All, arith, if◌then◌else◌,
}
use compliance_data_platform.Numbers.{ℤ, pos}
use compliance_data_platform.Tables.{distinct_from}
use compliance_data_platform.Histograms.{
  HistogramWeekFlat, HistogramWeekResults, sum_of_counts, results_of_week, histograms_by_week,
  all_buckets, max_top_value, get_max_min_span, get_all_buckets_top_values, fill_week,
  with_missing_buckets, insert_week, sorted, without_current_week, get_weekly_histogram_result,
}
use compliance_data_platform.Histograms.Buckets.{IsComplete, top_values-ends, fill_week-IsComplete}

groups-total :
    (flat : List HistogramWeekFlat) (weeks : List ℕ)
    → All
        (λ (w : HistogramWeekResults). w.total ≡ sum_of_counts w.results)
        (map (results_of_week flat) weeks)
unfolding results_of_week
groups-total flat [] = tt
groups-total flat (w ∷ weeks) = (refl, groups-total flat weeks)

histograms-total :
    (flat : List HistogramWeekFlat)
    → All
        (λ (w : HistogramWeekResults). w.total ≡ sum_of_counts w.results)
        (histograms_by_week flat)
unfolding histograms_by_week
histograms-total flat =
    groups-total flat (distinct_from [] (map (λ (r : HistogramWeekFlat). r.week) flat))

some-inj {ℓ} : {A : Type ℓ} {a b : A} → some a ≡ some b → a ≡ b
some-inj h = cc

fill-All :
    (span : ℤ) (values : List ℕ) (weeks : List HistogramWeekResults)
    → All (λ (w : HistogramWeekResults). w.total ≡ sum_of_counts w.results) weeks
    → All (IsComplete values) (map (fill_week span values) weeks)
fill-All span values [] h = tt
fill-All span values (w ∷ weeks) (e, h) =
    (fill_week-IsComplete span values w e, fill-All span values weeks h)

module _ (P : HistogramWeekResults → Type 0) where
  insert_week-All :
      (w : HistogramWeekResults) (weeks : List HistogramWeekResults)
      → P w
      → All P weeks
      → All P (insert_week w weeks)
  unfolding insert_week
  insert_week-All w [] p h = (p, tt)
  insert_week-All w (x ∷ xs) p (q, h) = go (leb w.week x.week) (insert_week-All w xs p h)
    where
      go :
          (b : Bool)
          → All P (insert_week w xs)
          → All P (if b then w ∷ x ∷ xs else x ∷ insert_week w xs)
      go true rest = (p, (q, h))
      go false rest = (q, rest)

  sorted-All : (weeks : List HistogramWeekResults) → All P weeks → All P (sorted weeks)
  unfolding sorted
  sorted-All [] h = tt
  sorted-All (w ∷ weeks) (p, h) = insert_week-All w (sorted weeks) p (sorted-All weeks h)

  without_current_week-All :
      (now : ℕ) (weeks : List HistogramWeekResults)
      → All P weeks
      → All P (without_current_week now weeks)
  unfolding without_current_week
  without_current_week-All now [] h = tt
  without_current_week-All now (w ∷ []) (p, h) = go (ltb now (w.week + 604800000))
    where
      go : (b : Bool) → All P (if b then [] else w ∷ [])
      go true = tt
      go false = (p, tt)
  without_current_week-All now (w ∷ x ∷ weeks) (p, h) =
      (p, without_current_week-All now (x ∷ weeks) h)

-- In a result, every week has a bucket for each of the top values, whether the query had a row for it or
-- not, and the total of the week is still the sum of the counts of its buckets.
pub get_weekly_histogram_result-IsComplete :
    (fuel now : ℕ) (flat : List HistogramWeekFlat) (max : Option ℕ) (min : ℕ)
    (include_current_week : Bool) (weeks : List HistogramWeekResults)
    → get_weekly_histogram_result fuel now flat max min include_current_week ≡ some weeks
    → (values : List ℕ) × (get_all_buckets_top_values fuel (histograms_by_week flat) max min
        ≡ some values)
      × All (IsComplete values) weeks
unfolding get_weekly_histogram_result with_missing_buckets
get_weekly_histogram_result-IsComplete fuel now flat max min include_current_week weeks h =
    let (full, e, f) =
      >>=-eq-some (with_missing_buckets fuel (histograms_by_week flat) max min)
        (λ l. some (if include_current_week then sorted l else without_current_week now (sorted l)))
        h in
    let (values, e1, f1) =
      >>=-eq-some (get_all_buckets_top_values fuel (histograms_by_week flat) max min)
        (λ l. some (
          map (fill_week (get_max_min_span (histograms_by_week flat)) l) (histograms_by_week flat)))
        e in
    let complete =
      fill-All (get_max_min_span (histograms_by_week flat)) values _ (histograms-total flat) in
    let all_full : All (IsComplete values) full =
      subst (All (IsComplete values)) (some-inj f1) complete in
    (
      values,
      e1,
      subst (All (IsComplete values)) (some-inj f) (go values include_current_week full all_full),
    )
  where
    go :
        (values : List ℕ) (b : Bool) (l : List HistogramWeekResults)
        → All (IsComplete values) l
        → All (IsComplete values) (if b then sorted l else without_current_week now (sorted l))
    go values true l k = sorted-All (IsComplete values) l k
    go values false l k =
        without_current_week-All (IsComplete values) now (sorted l)
          (sorted-All (IsComplete values) l k)

-- The top value that the loop starts from.
abbrev pub first_top_value : List HistogramWeekResults → Option ℕ → ℕ
first_top_value weeks none = max_top_value (all_buckets weeks)
first_top_value weeks (some max) = max

top_values_of-ends :
    (fuel span : ℕ) (weeks : List HistogramWeekResults) (max : Option ℕ) (min : ℕ)
    → get_max_min_span weeks ≡ pos (suc span)
    → first_top_value weeks max < fuel
    → (values : List ℕ) × (get_all_buckets_top_values fuel weeks max min ≡ some values)
unfolding get_all_buckets_top_values
top_values_of-ends fuel span [] max min p h = ([], refl)
top_values_of-ends fuel span (w ∷ weeks) none min p h =
    rw p (
      top_values-ends fuel (suc span) min (max_top_value (all_buckets (w ∷ weeks))) (omega arith) h)
top_values_of-ends fuel span (w ∷ weeks) (some given) min p h =
    rw p (top_values-ends fuel (suc span) min given (omega arith) h)

-- The result is given, with fuel above the largest top value, when the span is above 0: the loop over
-- the top values ends.
pub get_weekly_histogram_result-ends :
    (fuel now span : ℕ) (flat : List HistogramWeekFlat) (max : Option ℕ) (min : ℕ)
    (include_current_week : Bool)
    → get_max_min_span (histograms_by_week flat) ≡ pos (suc span)
    → first_top_value (histograms_by_week flat) max < fuel
    → (weeks : List HistogramWeekResults) × (get_weekly_histogram_result fuel now flat max min
          include_current_week
        ≡ some weeks)
unfolding get_weekly_histogram_result with_missing_buckets
get_weekly_histogram_result-ends fuel now span flat max min include_current_week positive enough =
    let (values, e) =
      top_values_of-ends fuel span (histograms_by_week flat) max min positive enough in
    let full : List HistogramWeekResults =
      map (fill_week (get_max_min_span (histograms_by_week flat)) values)
        (histograms_by_week flat) in
    (
      (if include_current_week then sorted full else without_current_week now (sorted full)),
      rw (get_weekly_histogram_result, with_missing_buckets, e) refl,
    )
