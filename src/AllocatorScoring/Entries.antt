-- ===== src/AllocatorScoring/Entries.antt =====
-- The metrics with their weights, and the scores of src/service/allocator-scoring/allocator-scoring.service.ts
-- against them.
use compliance_data_platform.Prelude.{
  ℕ, ◌+◌, ◌*◌, ◌≤◌, ◌≡◌, refl, Option, List, [], ◌∷◌, ◌==◌, arith, if◌then◌else◌,
}
use compliance_data_platform.Numbers.{Double}
use compliance_data_platform.AllocatorScoring.Report.{
  DataType, open_data, enterprise, AllocatorReport, Maths, Queries, ScoringMetric, ipni_reporting,
  url_finder_retrievability, cid_sharing, duplicated_data, unique_data_set_size,
  equality_of_datacap_distribution, client_diversity, client_previous_applications,
}
use compliance_data_platform.AllocatorScoring.Statistics.{
  ratio_or_zero, array_average, calculate_nth_percentile,
}
use compliance_data_platform.AllocatorScoring.Results.{Score}
use compliance_data_platform.AllocatorScoring.Providers.{
  ipni_reporting_score, url_finder_retrievability_score, duplicated_data_score,
}
use compliance_data_platform.AllocatorScoring.Clients.{
  collect, cid_sharing_score, unique_data_set_size_score, equality_of_datacap_distribution_score,
  client_diversity_score, client_previous_applications_score,
}
use compliance_data_platform.AllocatorScoring.Store.{scores}
use compliance_data_platform.AllocatorScoring.Agreement.{Holds, Holds-bind}

-- A metric with its weights, and the most points that it gives before they are weighed.
pub record Entry : Type 0 where
  pub metric : ScoringMetric
  pub open_data_weight : ℕ
  pub enterprise_weight : ℕ
  pub most : ℕ

abbrev pub entry : ScoringMetric → (open_data_weight enterprise_weight most : ℕ) → Entry
entry m o e most = record { metric = m; open_data_weight = o; enterprise_weight = e; most = most }

-- The metrics in the order in which they are stored.
abbrev pub all_entries : List Entry
all_entries =
    entry ipni_reporting 3 0 3
    ∷ entry url_finder_retrievability 5 0 3
    ∷ entry cid_sharing 3 3 2
    ∷ entry duplicated_data 2 2 2
    ∷ entry unique_data_set_size 1 1 2
    ∷ entry equality_of_datacap_distribution 2 2 3
    ∷ entry client_diversity 2 2 2
    ∷ entry client_previous_applications 1 1 2
    ∷ []

abbrev pub weight : Entry → DataType → ℕ
weight e open_data = e.open_data_weight
weight e enterprise = e.enterprise_weight

abbrev pub weighed_metrics : DataType → List Entry → List ScoringMetric
weighed_metrics data_type [] = []
weighed_metrics data_type (e ∷ es) =
    if weight e data_type == 0
    then weighed_metrics data_type es
    else e.metric ∷ weighed_metrics data_type es

abbrev pub most_points : DataType → List Entry → ℕ
most_points data_type [] = 0
most_points data_type (e ∷ es) = e.most * weight e data_type + most_points data_type es

module _ (F : Double) where
  -- The score is one of the entry.
  abbrev pub IsOf : Entry → Score F → Type 0
  IsOf e s =
      (s.metric ≡ e.metric)
      × (s.open_data_score_weight ≡ e.open_data_weight)
      × (s.enterprise_score_weight ≡ e.enterprise_weight)
      × (s.score ≤ e.most)

  module _ (M : Maths F) (Q : Queries F) where
    -- Each score function gives a score of its entry, if it gives one.
    abbrev pub Match :
        AllocatorReport F → List Entry → List (AllocatorReport F → Option (Score F)) → Type 0
    Match report [] [] = Unit
    Match report (e ∷ es) (s ∷ ss) = Holds (IsOf e) (s report) × Match report es ss
    Match report [] (s ∷ ss) = ⊥
    Match report (e ∷ es) [] = ⊥

    module _ (report : AllocatorReport F) where
      ipni-IsOf : Holds (IsOf (entry ipni_reporting 3 0 3)) (ipni_reporting_score F report)
      unfolding ipni_reporting_score
      ipni-IsOf =
          Holds-bind (IsOf (entry ipni_reporting 3 0 3)) (ratio_or_zero F _ _) _
            (λ v. (refl, refl, refl, ground arith))

      retrievability-IsOf :
          Holds
            (IsOf (entry url_finder_retrievability 5 0 3))
            (url_finder_retrievability_score F M Q report)
      unfolding url_finder_retrievability_score
      retrievability-IsOf =
          Holds-bind (IsOf (entry url_finder_retrievability 5 0 3))
            (calculate_nth_percentile F M _ 50) _
            (λ median.
              Holds-bind (IsOf (entry url_finder_retrievability 5 0 3))
                (calculate_nth_percentile F M _ 25) _
                (λ quartile.
                  Holds-bind (IsOf (entry url_finder_retrievability 5 0 3)) (array_average F M _) _
                    (λ average.
                      Holds-bind (IsOf (entry url_finder_retrievability 5 0 3))
                        (M.read (M.to_fixed 4 average)) _
                        (λ rounded. (refl, refl, refl, ground arith)))))

      cid_sharing-IsOf : Holds (IsOf (entry cid_sharing 3 3 2)) (cid_sharing_score F M Q report)
      unfolding cid_sharing_score
      cid_sharing-IsOf =
          Holds-bind (IsOf (entry cid_sharing 3 3 2)) (collect _ report.clients) _ (λ allocations.
            Holds-bind (IsOf (entry cid_sharing 3 3 2)) (collect _ report.clients) _ (λ shared.
              Holds-bind (IsOf (entry cid_sharing 3 3 2)) (ratio_or_zero F _ _) _
                (λ v. (refl, refl, refl, ground arith))))

      duplicated-IsOf : Holds (IsOf (entry duplicated_data 2 2 2)) (duplicated_data_score F report)
      unfolding duplicated_data_score
      duplicated-IsOf =
          Holds-bind (IsOf (entry duplicated_data 2 2 2)) (ratio_or_zero F _ _) _
            (λ v. (refl, refl, refl, ground arith))

      unique-IsOf :
          Holds (IsOf (entry unique_data_set_size 1 1 2)) (unique_data_set_size_score F M Q report)
      unfolding unique_data_set_size_score
      unique-IsOf =
          Holds-bind (IsOf (entry unique_data_set_size 1 1 2)) (collect _ report.clients) _
            (λ expected.
              Holds-bind (IsOf (entry unique_data_set_size 1 1 2)) (collect _ report.clients) _
                (λ unique.
                  Holds-bind (IsOf (entry unique_data_set_size 1 1 2)) (ratio_or_zero F _ _) _
                    (λ v. (refl, refl, refl, ground arith))))

      equality-IsOf :
          Holds
            (IsOf (entry equality_of_datacap_distribution 2 2 3))
            (equality_of_datacap_distribution_score F M Q report)
      unfolding equality_of_datacap_distribution_score
      equality-IsOf =
          Holds-bind (IsOf (entry equality_of_datacap_distribution 2 2 3))
            (collect _ report.clients) _
            (λ allocations.
              Holds-bind (IsOf (entry equality_of_datacap_distribution 2 2 3))
                (collect _ allocations) _ (λ ratios. (refl, refl, refl, ground arith)))

      diversity-IsOf :
          Holds (IsOf (entry client_diversity 2 2 2)) (client_diversity_score F M Q report)
      unfolding client_diversity_score
      diversity-IsOf = (refl, refl, refl, ground arith)

      returning-IsOf :
          Holds
            (IsOf (entry client_previous_applications 1 1 2))
            (client_previous_applications_score F report)
      unfolding client_previous_applications_score
      returning-IsOf = (refl, refl, refl, ground arith)

      pub scores-Match : Match report all_entries (scores F M Q)
      scores-Match = (
        ipni-IsOf,
        (
          retrievability-IsOf,
          (
            cid_sharing-IsOf,
            (
              duplicated-IsOf,
              (unique-IsOf, (equality-IsOf, (diversity-IsOf, (returning-IsOf, tt)))),
            ),
          ),
        ),
      )
