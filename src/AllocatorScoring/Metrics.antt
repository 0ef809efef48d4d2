-- ===== src/AllocatorScoring/Metrics.antt =====
-- Which metrics are stored, and how much they can score, of
-- src/service/allocator-scoring/allocator-scoring.service.ts.
use compliance_data_platform.Prelude.{
  ℕ, ◌+◌, ◌*◌, ◌≤◌, ◌≡◌, ◌⊎◌, refl, ap, sym, ◌∙◌, inl, inr, true, Option, some, List, [], ◌∷◌, ◌++◌,
  map, ◌==◌, Bool-cases, Option-cases, arith, append_assoc, map-append,
}
use native.Mathlib.Nat.{mul-le-mul_right}
use compliance_data_platform.Numbers.{Double}
use compliance_data_platform.AllocatorScoring.Report.{
  DataType, open_data, enterprise, AllocatorReport, Maths, Queries, ScoringResult, ScoringMetric,
}
use compliance_data_platform.AllocatorScoring.Results.{Score, store_score, score_weight}
use compliance_data_platform.AllocatorScoring.Store.{scores, run_scores, store_scoring}
use compliance_data_platform.AllocatorScoring.Entries.{
  Entry, all_entries, weight, weighed_metrics, most_points, IsOf, Match, scores-Match,
}

module _ (F : Double) where
  abbrev pub total_score : List (ScoringResult F) → ℕ
  total_score [] = 0
  total_score (r ∷ rs) = r.score + total_score rs

  total_score-append :
      (xs ys : List (ScoringResult F)) → total_score (xs ++ ys) ≡ total_score xs + total_score ys
  total_score-append [] ys = omega arith
  total_score-append (x ∷ xs) ys = omega (arith, total_score-append xs ys)

  same_weight :
      (e : Entry) (s : Score F) (data_type : DataType)
      → IsOf F e s
      → score_weight F s data_type ≡ weight e data_type
  same_weight e s open_data h = h.1
  same_weight e s enterprise h = h.2

  module _ (M : Maths F) (Q : Queries F) where
    -- What a score stores, by its entry.
    stored_metrics :
        (e : Entry) (s : Score F) (data_type : DataType)
        → IsOf F e s
        → map (λ r. r.metric) (store_score F M Q data_type s) ≡ weighed_metrics data_type (e ∷ [])
    unfolding store_score
    stored_metrics e s data_type h =
        rw (same_weight e s data_type h) (elim (Bool-cases (weight e data_type == 0)) [
          | inl z ↦ rw z refl
          | inr z ↦ rw z (ap (λ m. m ∷ []) h.0)
        ])

    stored_points :
        (e : Entry) (s : Score F) (data_type : DataType)
        → IsOf F e s
        → total_score (store_score F M Q data_type s) ≤ e.most * weight e data_type
    unfolding store_score
    stored_points e s data_type h =
        rw (same_weight e s data_type h) (elim (Bool-cases (weight e data_type == 0)) [
          | inl z ↦ rw z (omega arith)
          | inr z ↦ rw z (product (mul-le-mul_right (weight e data_type) h.3))
        ])
      where
        product : {n m : ℕ} → n ≤ m → n + 0 ≤ m
        product h = omega arith

    weighed_metrics-cons :
        (data_type : DataType) (e : Entry) (es : List Entry)
        → weighed_metrics data_type (e ∷ es)
          ≡ weighed_metrics data_type (e ∷ []) ++ weighed_metrics data_type es
    weighed_metrics-cons data_type e es = elim (Bool-cases (weight e data_type == 0)) [
      | inl z ↦ rw z refl
      | inr z ↦ rw z refl
    ]

    run_scores-metrics :
        (data_type : DataType) (report : AllocatorReport F) (es : List Entry)
        → (ss : List (AllocatorReport F → Option (Score F))) → Match F M Q report es ss
        → (rows : List (ScoringResult F))
        → (later : List ScoringMetric) × (map
                (λ r. r.metric)
                (run_scores F M Q data_type report ss rows).stored
              ++ later
            ≡ map (λ r. r.metric) rows ++ weighed_metrics data_type es)
          × (((run_scores F M Q data_type report ss rows).thrown ≡ true) ⊎ (later ≡ []))
    unfolding run_scores
    run_scores-metrics data_type report [] [] h rows = ([], refl, inr refl)
    run_scores-metrics data_type report [] (s ∷ ss) h rows = elim h [ ]
    run_scores-metrics data_type report (e ∷ es) [] h rows = elim h [ ]
    run_scores-metrics data_type report (e ∷ es) (s ∷ ss) (here, h) rows =
        elim (Option-cases (s report)) [
          | inl z ↦ (
            weighed_metrics data_type (e ∷ es),
            rw (z, run_scores) refl,
            inl (rw (z, run_scores) refl),
          )
          | inr (score, z) ↦
              let added = store_score F M Q data_type score in
              let (later, metrics, done) =
                run_scores-metrics data_type report es ss h (rows ++ added) in
              (
                later,
                rw (z, run_scores)
                    (metrics
                      ∙ ap (λ l. l ++ weighed_metrics data_type es)
                          (map-append (λ r. r.metric) rows added)
                      ∙ append_assoc (map (λ r. r.metric) rows) (map (λ r. r.metric) added)
                          (weighed_metrics data_type es)
                      ∙ ap (λ l. map (λ r. r.metric) rows ++ (l ++ weighed_metrics data_type es))
                          (stored_metrics e score data_type (rw z at here))
                      ∙ ap (λ l. map (λ r. r.metric) rows ++ l)
                          (sym (weighed_metrics-cons data_type e es))),
                rw (z, run_scores) done,
              )
        ]

    run_scores-points :
        (data_type : DataType) (report : AllocatorReport F) (es : List Entry)
        → (ss : List (AllocatorReport F → Option (Score F))) → Match F M Q report es ss
        → (rows : List (ScoringResult F))
        → total_score (run_scores F M Q data_type report ss rows).stored
          ≤ total_score rows + most_points data_type es
    unfolding run_scores
    run_scores-points data_type report [] [] h rows = omega arith
    run_scores-points data_type report [] (s ∷ ss) h rows = elim h [ ]
    run_scores-points data_type report (e ∷ es) [] h rows = elim h [ ]
    run_scores-points data_type report (e ∷ es) (s ∷ ss) (here, h) rows =
        elim (Option-cases (s report)) [
          | inl z ↦ rw (z, run_scores) (omega arith)
          | inr (score, z) ↦
              let added = store_score F M Q data_type score in
              let bound = run_scores-points data_type report es ss h (rows ++ added) in
              let few = stored_points e score data_type (rw z at here) in
              rw (z, run_scores) (omega (arith, bound, few, total_score-append rows added))
        ]

    module _ (report : AllocatorReport F) where
      -- The results stored for an allocator are, in the order of the metrics, those of the metrics that
      -- have a weight for its type of data: each once, and all of them unless the run throws, in which
      -- case they are the first of them. That is eight for open data and six for an enterprise.
      pub store_scoring_metrics :
          (data_type : DataType)
          → (later : List ScoringMetric) × (map
                  (λ r. r.metric)
                  (store_scoring F M Q (some data_type) report).stored
                ++ later
              ≡ weighed_metrics data_type all_entries)
            × (((store_scoring F M Q (some data_type) report).thrown ≡ true) ⊎ (later ≡ []))
      unfolding store_scoring
      store_scoring_metrics data_type =
          run_scores-metrics data_type report all_entries (scores F M Q) (scores-Match F M Q report)
            []

      -- The stored scores of a report add up to at most 48 for open data, and at most 24 for an
      -- enterprise.
      pub store_scoring_total_le :
          (total_score (store_scoring F M Q (some open_data) report).stored ≤ 48)
          × (total_score (store_scoring F M Q (some enterprise) report).stored ≤ 24)
      unfolding store_scoring
      store_scoring_total_le = (
        run_scores-points open_data report all_entries (scores F M Q) (scores-Match F M Q report)
            [],
        run_scores-points enterprise report all_entries (scores F M Q) (scores-Match F M Q report)
            [],
      )
