-- ===== src/AllocatorScoring/Agreement.antt =====
-- Every stored result against its ranges, of src/service/allocator-scoring/allocator-scoring.service.ts.
use compliance_data_platform.Prelude.{
  ℕ, ◌*◌, ◌≡◌, ap, subst, inl, inr, true, Option, none, some, List, [], ◌∷◌, ◌++◌, map, ◌==◌, ◌>>=◌,
  All, All-append, Bool-cases, Option-cases, arith, In, zero, suc, ==_iff,
}
use compliance_data_platform.Numbers.{Double, of_ℕ}
use compliance_data_platform.AllocatorScoring.Report.{
  DataType, AllocatorReport, Maths, Queries, ScoreRange, ScoringResult,
}
use compliance_data_platform.AllocatorScoring.Statistics.{
  ratio_or_zero, array_average, calculate_nth_percentile,
}
use compliance_data_platform.AllocatorScoring.Results.{
  Score, store_score, result_row, value_max, score_weight, scale_range,
}
use compliance_data_platform.AllocatorScoring.Providers.{
  ipni_reporting_score, url_finder_retrievability_score, duplicated_data_score,
}
use compliance_data_platform.AllocatorScoring.Clients.{
  collect, cid_sharing_score, unique_data_set_size_score, equality_of_datacap_distribution_score,
  client_diversity_score, client_previous_applications_score,
}
use compliance_data_platform.AllocatorScoring.Store.{scores, run_scores, store_scoring}
use compliance_data_platform.AllocatorScoring.Ranges.{
  IsOrdered, agrees, HasFiniteEnds, ipni-agrees, duplicated-agrees, retrievability-agrees,
  unique-agrees, equality-agrees, diversity-agrees, returning-agrees, cid_sharing-agrees,
}

-- A score that is computed, if it is, has the property.
abbrev pub Holds : {A : Type 0} → (A → Type 0) → Option A → Type 0
Holds P none = Unit
Holds P (some a) = P a

pub Holds-bind :
    {A B : Type 0} (P : B → Type 0) (o : Option A) (f : A → Option B)
    → ((a : A) → Holds P (f a))
    → Holds P (o >>= f)
Holds-bind P none f h = tt
Holds-bind P (some a) f h = h a

pub All-In : {A : Type 0} (P : A → Type 0) (xs : List A) (x : A) → All P xs → In x xs → P x
All-In P [] x all (i, at) = absurd cc
All-In P (y ∷ xs) x (here, all) (zero, at) = subst P (some_inj at) here
  where
    some_inj : some y ≡ some x → y ≡ x
    some_inj e = cc
All-In P (y ∷ xs) x (here, all) (suc i, at) = All-In P xs x all (i, at)

module _ (F : Double) (M : Maths F) where
  scale-HasFiniteEnds :
      (w : ℕ) (ranges : List (ScoreRange F))
      → HasFiniteEnds F M (map (scale_range F w) ranges)
      → HasFiniteEnds F M ranges
  scale-HasFiniteEnds w [] h = tt
  scale-HasFiniteEnds w (r ∷ ranges) (here, h) = (here, scale-HasFiniteEnds w ranges h)

  same_product : (a b w : ℕ) → (a == b) ≡ true → (a * w == b * w) ≡ true
  same_product a b w h = (==_iff (a * w) (b * w)).1 (ap (λ n. n * w) ((==_iff a b).0 h))

  scale-agrees :
      (w : ℕ) (ranges : List (ScoreRange F)) (v : F.carrier) (score : ℕ)
      → agrees F ranges v score ≡ true
      → agrees F (map (scale_range F w) ranges) v (score * w) ≡ true
  scale-agrees w [] v score h = h
  scale-agrees w (r ∷ ranges) v score h =
      ground (arith, same_product r.score score w, scale-agrees w ranges v score)

  module _ (Q : Queries F) where
    -- The value of a score is finite and between the least and the largest, and its ranges have it.
    abbrev Agrees : Score F → Type 0
    Agrees s =
        M.is_finite s.metric_value ≡ true
        → HasFiniteEnds F M s.score_ranges
        → F.le (of_ℕ F 0) s.metric_value ≡ true
        → F.le s.metric_value (value_max F M Q s) ≡ true
        → agrees F s.score_ranges s.metric_value s.score ≡ true

    abbrev RowAgrees : ScoringResult F → Type 0
    RowAgrees row =
        M.is_finite row.metric_value ≡ true
        → HasFiniteEnds F M row.ranges
        → F.le row.metric_value_min row.metric_value ≡ true
        → F.le row.metric_value row.metric_value_max ≡ true
        → agrees F row.ranges row.metric_value row.score ≡ true

    result_row-RowAgrees :
        (data_type : DataType) (s : Score F) → Agrees s → RowAgrees (result_row F M Q data_type s)
    result_row-RowAgrees data_type s h finite ends least most =
        scale-agrees (score_weight F s data_type) s.score_ranges s.metric_value s.score (
          h finite (scale-HasFiniteEnds (score_weight F s data_type) s.score_ranges ends) least
            most)

    store_score-RowAgrees :
        (data_type : DataType) (s : Score F)
        → Agrees s
        → All RowAgrees (store_score F M Q data_type s)
    unfolding store_score
    store_score-RowAgrees data_type s h = elim (Bool-cases (score_weight F s data_type == 0)) [
      | inl e ↦ rw e tt
      | inr e ↦ rw e (result_row-RowAgrees data_type s h, tt)
    ]

    run_scores-RowAgrees :
        (data_type : DataType) (report : AllocatorReport F)
        → (ss : List (AllocatorReport F → Option (Score F))) → All (λ s. Holds Agrees (s report)) ss
        → (rows : List (ScoringResult F)) → All RowAgrees rows
        → All RowAgrees (run_scores F M Q data_type report ss rows).stored
    unfolding run_scores
    run_scores-RowAgrees data_type report [] h rows so_far = so_far
    run_scores-RowAgrees data_type report (s ∷ ss) (here, h) rows so_far =
        elim (Option-cases (s report)) [
          | inl e ↦ rw (e, run_scores) so_far
          | inr (score, e) ↦
              rw (e, run_scores)
                (run_scores-RowAgrees data_type report ss h
                  (rows ++ store_score F M Q data_type score)
                  (All-append RowAgrees rows (store_score F M Q data_type score) so_far
                    (store_score-RowAgrees data_type score (rw e at here))))
        ]

    module _ (ordered : IsOrdered F M) (report : AllocatorReport F) where
      ipni-Agrees : Holds Agrees (ipni_reporting_score F report)
      unfolding ipni_reporting_score
      ipni-Agrees = Holds-bind Agrees (ratio_or_zero F _ _) _ (λ v. ipni-agrees F M ordered v)

      duplicated-Agrees : Holds Agrees (duplicated_data_score F report)
      unfolding duplicated_data_score
      duplicated-Agrees =
          Holds-bind Agrees (ratio_or_zero F _ _) _ (λ v. duplicated-agrees F M ordered v)

      retrievability-Agrees : Holds Agrees (url_finder_retrievability_score F M Q report)
      unfolding url_finder_retrievability_score
      retrievability-Agrees = Holds-bind Agrees (calculate_nth_percentile F M _ 50) _ (λ median.
          Holds-bind Agrees (calculate_nth_percentile F M _ 25) _ (λ quartile.
            Holds-bind Agrees (array_average F M _) _ (λ average.
              Holds-bind Agrees (M.read (M.to_fixed 4 average)) _
                (λ rounded finite. retrievability-agrees F M ordered _ finite _ _))))

      cid_sharing-Agrees : Holds Agrees (cid_sharing_score F M Q report)
      unfolding cid_sharing_score
      cid_sharing-Agrees = Holds-bind Agrees (collect _ report.clients) _ (λ allocations.
          Holds-bind Agrees (collect _ report.clients) _ (λ shared.
            Holds-bind Agrees (ratio_or_zero F _ _) _ (λ v. cid_sharing-agrees F M ordered v)))

      unique-Agrees : Holds Agrees (unique_data_set_size_score F M Q report)
      unfolding unique_data_set_size_score
      unique-Agrees = Holds-bind Agrees (collect _ report.clients) _ (λ expected.
          Holds-bind Agrees (collect _ report.clients) _ (λ unique.
            Holds-bind Agrees (ratio_or_zero F _ _) _
              (λ v finite ends least most. unique-agrees F M ordered v finite ends least)))

      equality-Agrees : Holds Agrees (equality_of_datacap_distribution_score F M Q report)
      unfolding equality_of_datacap_distribution_score
      equality-Agrees = Holds-bind Agrees (collect _ report.clients) _ (λ allocations.
          Holds-bind Agrees (collect _ allocations) _
            (λ ratios finite ends least most. equality-agrees F M ordered _ finite ends least))

      diversity-Agrees : Holds Agrees (client_diversity_score F M Q report)
      unfolding client_diversity_score
      diversity-Agrees finite ends least most = diversity-agrees F M ordered _ finite ends least

      returning-Agrees : Holds Agrees (client_previous_applications_score F report)
      unfolding client_previous_applications_score
      returning-Agrees = returning-agrees F M ordered _

      scores-Agrees : All (λ s. Holds Agrees (s report)) (scores F M Q)
      scores-Agrees = (
        ipni-Agrees,
        (
          retrievability-Agrees,
          (
            cid_sharing-Agrees,
            (
              duplicated-Agrees,
              (unique-Agrees, (equality-Agrees, (diversity-Agrees, (returning-Agrees, tt)))),
            ),
          ),
        ),
      )

      stored-RowAgrees :
          (data_type : Option DataType)
          → All RowAgrees (store_scoring F M Q data_type report).stored
      unfolding store_scoring
      stored-RowAgrees none = tt
      stored-RowAgrees (some data_type) =
          run_scores-RowAgrees data_type report (scores F M Q) scores-Agrees [] tt

      -- When the comparisons of finite numbers are those of an order: whatever is stored for a report,
      -- and even if the run throws, each result whose value is finite and between the least and the
      -- largest value of the result has, if the ends of its ranges are finite, a range that the value
      -- lies in and that has the score of the result.
      pub store_scoring-agrees :
          (data_type : Option DataType) (row : ScoringResult F)
          → In row (store_scoring F M Q data_type report).stored
          → M.is_finite row.metric_value ≡ true
          → HasFiniteEnds F M row.ranges
          → F.le row.metric_value_min row.metric_value ≡ true
          → F.le row.metric_value row.metric_value_max ≡ true
          → agrees F row.ranges row.metric_value row.score ≡ true
      store_scoring-agrees data_type row stored =
          All-In RowAgrees (store_scoring F M Q data_type report).stored row
            (stored-RowAgrees data_type) stored
