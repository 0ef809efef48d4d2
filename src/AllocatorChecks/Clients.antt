-- ===== src/AllocatorChecks/Clients.antt =====
-- The allocator checks on each client, of
-- src/service/allocator-report-checks/allocator-report-checks.service.ts.
use compliance_data_platform.Prelude.{
  Bool, true, not, Option, none, some, List, [], ◌∷◌, ◌++◌, ◌==◌, map, String, str_eq, ltb, leb,
  length, ◌>>=◌, if◌then◌else◌, filter,
}
use compliance_data_platform.Numbers.{Double, of_ℕ, string_to_number}
use compliance_data_platform.ClientReport.{lit, count, number, text, ids}
use compliance_data_platform.ClientChecks.{filter_option, message}
use compliance_data_platform.ClientChecks.Client.{glif_auto_verified_allocator_id}
use compliance_data_platform.AllocatorChecks.{
  ClientReplicas, ReportClient, AllocatorReport, AllocatorCheckResult, store_check, clients_text,
  client_multiple_allocators, client_not_enough_copies,
}

module _ (F : Double) where
  unfoldable pub has_multiple_allocators : ReportClient F → Bool
  has_multiple_allocators client =
      ltb 1
        (length (filter (λ a. not (str_eq a glif_auto_verified_allocator_id)) client.allocators))

  unfoldable pub clients_using_multiple_allocators : AllocatorReport F → List String
  clients_using_multiple_allocators report =
      map (λ c. c.client_id) (filter has_multiple_allocators report.clients)

  unfoldable pub store_client_multiple_allocators :
      AllocatorReport F → Option (List (AllocatorCheckResult F))
  store_client_multiple_allocators report =
      let clients = clients_using_multiple_allocators report in
      let check_passed = length clients == 0 in
      some (
        store_check F report.id client_multiple_allocators "Client multiple allocators"
          "Check that clients receive datacap from only one allocator" check_passed
          (("max_clients_using_multiple_allocators_count", count 0)
            ∷ ("violating_ids", ids clients)
            ∷ (
              "msg",
              if check_passed
                  then message F "All clients receiving datacap from one allocator"
                  else text (
                      clients_text F (length clients)
                      ++ lit " receiving datacap from more than one allocator" ∷ []),
            )
            ∷ [])
        ∷ [])

  abbrev pub sum_of_percentages : F.carrier → List (ClientReplicas F) → F.carrier
  sum_of_percentages total [] = total
  sum_of_percentages total (d ∷ ds) = sum_of_percentages (F.add total d.percentage) ds

  module _ (read : String → Option F.carrier) where
    unfoldable pub has_fewer_copies : String → ClientReplicas F → Option Bool
    has_fewer_copies required d = do
      n ← string_to_number F read required
      some (F.lt (of_ℕ F d.num_of_replicas) (elim n [ none ↦ of_ℕ F 0 | some x ↦ x ]))

    unfoldable pub has_not_enough_copies : F.carrier → String → ReportClient F → Option Bool
    has_not_enough_copies limit required client = do
      few ← filter_option (has_fewer_copies required) client.replica_distribution
      some (F.lt limit (sum_of_percentages (of_ℕ F 0) few))

    abbrev pub required_row : String → F.carrier → String → List String → AllocatorCheckResult F
    required_row report_id limit required clients =
        let check_passed = leb (length clients) 0 in
        store_check F report_id client_not_enough_copies "Client not enough copies"
          "Check that clients store data with the required number of copies" check_passed
          (("violating_ids", ids clients)
            ∷ ("max_clients_with_not_enough_copies", count 0)
            ∷ ("max_percentage_for_required_copies", number limit)
            ∷ (
              "msg",
              if check_passed
                  then text (
                      lit "All clients meet the " ∷ lit required ∷ lit " replicas requirement" ∷ [])
                  else text (
                      clients_text F (length clients)
                      ++ lit " do not meet the " ∷ lit required ∷ lit " replicas requirement" ∷ []),
            )
            ∷ [])

    abbrev pub not_required_row : String → AllocatorCheckResult F
    not_required_row report_id =
        store_check F report_id client_not_enough_copies "Client not enough copies"
          "Check that clients store data with the required number of copies" true
          (("msg", message F "Allocator did not define required replicas") ∷ [])

    -- A limit that is not set is `none`; `!report.required_copies` is null or the empty text.
    unfoldable pub store_client_not_enough_copies :
        Option F.carrier → AllocatorReport F → Option (List (AllocatorCheckResult F))
    store_client_not_enough_copies none report = some []
    store_client_not_enough_copies (some limit) report = elim report.required_copies [
      | none ↦ some (not_required_row report.id ∷ [])
      | some required ↦ if str_eq required "" then some (not_required_row report.id ∷ []) else (do
        clients ← filter_option (has_not_enough_copies limit required) report.clients
        some (required_row report.id limit required (map (λ c. c.client_id) clients) ∷ []))
    ]
