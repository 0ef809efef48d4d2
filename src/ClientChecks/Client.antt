-- ===== src/ClientChecks/Client.antt =====
-- The checks of a client report on the client itself, of
-- src/service/client-report-checks/client-report-checks.service.ts and src/utils/constants.ts.
use compliance_data_platform.Prelude.{
  ℕ, ◌+◌, Bool, true, false, not, ◌||◌, Option, none, some, List, [], ◌∷◌, ◌==◌, String, str_eq,
  ltb, leb, length, ◌>>=◌, if◌then◌else◌, filter,
}
use compliance_data_platform.Numbers.{Double, ℤ, pos_part, neg_part, scale_ℤ, div_ℤ, of_ℕ}
use compliance_data_platform.ClientReport.{shown, fixed, null, count, text, ClientReport}
use compliance_data_platform.ClientChecks.{Limits, Check, find_report, row, message}
use compliance_data_platform.ClientReport.{
  multiple_allocators, inactivity, deal_data_replication_cid_sharing,
  uniq_data_set_size_to_declared,
}

abbrev pub glif_auto_verified_allocator_id : String
glif_auto_verified_allocator_id = "f0121877"

-- A falsy `bigint | null`.
abbrev pub is_falsy : Option ℕ → Bool
is_falsy none = true
is_falsy (some n) = n == 0

abbrev pub or_zero : Option ℕ → ℕ
or_zero none = 0
or_zero (some n) = n

module _ (F : Double) where
  unfoldable pub counted_allocators : List String → List String
  counted_allocators allocators =
      filter (λ a. not (str_eq a glif_auto_verified_allocator_id)) allocators

  unfoldable pub store_multiple_allocators : Check F
  store_multiple_allocators report_id db = do
    report ← find_report F report_id db
    let allocators = counted_allocators report.allocators
    let check_passed = leb (length allocators) 1
    some (
        row F report_id multiple_allocators check_passed (
          ("allocators_count", count (length allocators))
          ∷ ("max_allocators_count", count 1)
          ∷ (
            "msg",
            if check_passed
                then message F "Client receiving datacap from one allocator"
                else message F "Client receiving datacap from more than one allocator",
          )
          ∷ []))

  -- `days_since` is luxon's difference in days between now and a date, which may be null.
  module _ (days_since : Option ℕ → F.carrier) where
    unfoldable pub is_active : ClientReport F → Bool
    is_active report =
        F.lt (days_since report.last_datacap_received) (of_ℕ F 60)
        || is_falsy report.available_datacap
        || F.lt (days_since report.last_datacap_spent) (of_ℕ F 60)

    unfoldable pub store_inactivity : Check F
    store_inactivity report_id db = do
      report ← find_report F report_id db
      let check_passed = is_active report
      some (
          row F report_id inactivity check_passed (
            ("inactivity_period_days", text (fixed (days_since report.last_datacap_spent) ∷ []))
            ∷ (
              "available_datacap",
              elim report.available_datacap [ none ↦ null | some n ↦ text (shown n ∷ []) ],
            )
            ∷ (
              "time_since_last_datacap_days",
              text (fixed (days_since report.last_datacap_received) ∷ []),
            )
            ∷ (
              "msg",
              if check_passed
                  then message F "Client was active in last 60 days or spent all its DataCap"
                  else message F
                      "Client has unspent DataCap and was inactive for more than a 2 months",
            )
            ∷ []))

  unfoldable pub store_deal_data_shared_with_other_clients_cid_sharing : Check F
  store_deal_data_shared_with_other_clients_cid_sharing report_id db =
      let cid_sharing_count =
        length (filter (λ s. s.client_report_id == report_id) db.cid_sharing) in
      let check_passed = cid_sharing_count == 0 in
      some (
        row F report_id deal_data_replication_cid_sharing check_passed (
          ("count", count cid_sharing_count)
          ∷ (
            "msg",
            if check_passed
                then message F "No CID sharing has been observed"
                else message F "CID sharing has been observed",
          )
          ∷ []))

  -- `uniq < expected + (expected * allowed) / 100n`; a null size counts as 0.
  unfoldable pub is_below_threshold : ℕ → ℕ → ℤ → Bool
  is_below_threshold uniq expected allowed =
      let threshold = div_ℤ (scale_ℤ allowed expected) 100 in
      ltb (uniq + neg_part threshold) (expected + pos_part threshold)

  unfoldable pub store_unique_data_set_size : Limits F → Check F
  store_unique_data_set_size limits report_id db =
      elim limits.total_uniq_data_set_size_allow_exceeds_percentage [
        | none ↦ some []
        | some limit ↦ (do
          report ← find_report F report_id db
          if is_falsy report.expected_size_of_single_dataset
              then some (
                  row F report_id uniq_data_set_size_to_declared false (
                    (
                      "msg",
                      message F
                          "Single Size Dataset field is not set correctly in the client application JSON",
                    )
                    ∷ []))
              else (do
                allowed ← F.to_big_int limit
                let check_passed =
                    is_below_threshold (or_zero report.total_uniq_data_set_size)
                      (or_zero report.expected_size_of_single_dataset) allowed
                some (
                    row F report_id uniq_data_set_size_to_declared check_passed (
                      (
                        "msg",
                        if check_passed
                            then message F "Unique data set size looks healthy"
                            else message F "Unique data set size exceeds declared",
                      )
                      ∷ []))))
      ]
