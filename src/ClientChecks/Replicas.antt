-- ===== src/ClientChecks/Replicas.antt =====
-- The checks of a client report on replicas, of
-- src/service/client-report-checks/client-report-checks.service.ts.
use compliance_data_platform.Prelude.{
  Bool, true, Option, none, some, List, [], ◌∷◌, map, String, str_eq, ltb, ◌>>=◌, if◌then◌else◌,
  filter,
}
use compliance_data_platform.Numbers.{Double, of_ℕ, string_to_number}
use compliance_data_platform.ClientReport.{lit, fixed, number, text, ReplicaDistribution}
use compliance_data_platform.ClientChecks.{
  Limits, filter_option, Check, find_report, replica_distribution_of, row, message,
}
use compliance_data_platform.ClientReport.{
  deal_data_replication_low_replica, deal_data_replication_high_replica, not_enough_copies,
}

module _ (F : Double) where
  -- `reduce((total, d) => total + d.percentage, 0)`
  abbrev pub sum_percentage : F.carrier → List (ReplicaDistribution F) → F.carrier
  sum_percentage total [] = total
  sum_percentage total (d ∷ ds) = sum_percentage (F.add total d.percentage) ds

  module _ (read : String → Option F.carrier) where
    -- `distribution.num_of_replicas < stringToNumber(requiredCopiesCount)`, where null counts as 0.
    unfoldable pub has_few_replicas : String → ReplicaDistribution F → Option Bool
    has_few_replicas required d = do
      n ← string_to_number F read required
      some (F.lt (of_ℕ F d.num_of_replicas) (elim n [ none ↦ of_ℕ F 0 | some x ↦ x ]))

    -- `!requiredCopiesCount` is null or the empty text.
    unfoldable pub store_deal_data_not_enough_copies : Limits F → Check F
    store_deal_data_not_enough_copies limits report_id db =
        elim limits.max_percentage_for_required_copies [
          | none ↦ some []
          | some limit ↦ (do
            report ← find_report F report_id db
            elim report.allocator_required_copies [
              | none ↦ some (
                  row F report_id not_enough_copies true
                    (("msg", message F "Allocator did not define required replicas") ∷ []))
              | some required ↦
                  if str_eq required ""
                  then some (
                      row F report_id not_enough_copies true
                        (("msg", message F "Allocator did not define required replicas") ∷ []))
                  else (do
                    few ←
                        filter_option (has_few_replicas required)
                          (replica_distribution_of F report_id db)
                    let percentage = sum_percentage (of_ℕ F 0) few
                    some (
                        row F report_id not_enough_copies (F.le percentage limit) (
                          ("max_percentage_for_required_copies", number limit)
                          ∷ (
                            "msg",
                            text (
                                fixed percentage
                                ∷ lit "% of data have less than allocator-defined "
                                ∷ lit required
                                ∷ lit "+ replicas"
                                ∷ []),
                          )
                          ∷ [])))
            ])
        ]

  -- The database adds the percentages up; `_sum` of no rows is null, which counts as 0. `sum` is the
  -- database's sum of doubles.
  module _ (sum : List F.carrier → F.carrier) where
    unfoldable pub aggregate_percentage : List (ReplicaDistribution F) → F.carrier
    aggregate_percentage [] = of_ℕ F 0
    aggregate_percentage (d ∷ ds) = sum (map (λ r. r.percentage) (d ∷ ds))

    unfoldable pub store_deal_data_low_replica : Limits F → Check F
    store_deal_data_low_replica limits report_id db = elim limits.max_percentage_for_low_replica [
      | none ↦ some []
      | some limit ↦ (do
        report ← find_report F report_id db
        elim report.low_replica_threshold [
          | none ↦ some []
          | some threshold ↦
              let percentage = aggregate_percentage (
                filter (λ d. ltb d.num_of_replicas threshold)
                  (replica_distribution_of F report_id db)) in
              some (
                row F report_id deal_data_replication_low_replica (F.le percentage limit) (
                  ("max_percentage_for_low_replica", number limit)
                  ∷ (
                    "msg",
                    text (lit "Low replica percentage is " ∷ fixed percentage ∷ lit "%" ∷ []),
                  )
                  ∷ []))
        ])
    ]

    unfoldable pub store_deal_data_high_replica : Limits F → Check F
    store_deal_data_high_replica limits report_id db = elim limits.max_percentage_for_high_replica [
      | none ↦ some []
      | some limit ↦ (do
        report ← find_report F report_id db
        elim report.high_replica_threshold [
          | none ↦ some []
          | some threshold ↦
              let percentage = aggregate_percentage (
                filter (λ d. ltb threshold d.num_of_replicas)
                  (replica_distribution_of F report_id db)) in
              some (
                row F report_id deal_data_replication_high_replica (F.le percentage limit) (
                  ("max_percentage_for_replica", number limit)
                  ∷ (
                    "msg",
                    text (lit "High replica percentage is " ∷ fixed percentage ∷ lit "%" ∷ []),
                  )
                  ∷ []))
        ])
    ]
