-- ===== src/AllocatorChecks/Schedule.antt =====
-- `storeAllocatorTrancheScheduleCheck` of
-- src/service/allocator-report-checks/allocator-report-checks.service.ts.
use compliance_data_platform.Prelude.{
  ℕ, Bool, true, false, not, ◌||◌, Option, some, List, [], ◌∷◌, ◌==◌, map, String, str_eq, leb,
  length, filter, if◌then◌else◌,
}
use compliance_data_platform.Numbers.{Double, of_ℕ}
use compliance_data_platform.ClientReport.{lit, fixed, text, count, ids}
use compliance_data_platform.ClientChecks.{includes}
use compliance_data_platform.ClientChecks.Client.{or_zero}
use compliance_data_platform.Tranche.{Allocation, ClientAllocations, validate_allocations}
use compliance_data_platform.Editions.{edition_6_start}
use compliance_data_platform.AllocatorChecks.{
  AllocatorReport, AllocatorCheckResult, store_check, manual_allocation_schedule,
}

-- What stands outside: the raw query that finds an allocator that is no metaallocator and uses the
-- standard tranche schedule, the database's `orderBy`, and the amount that a client requested
-- according to its bookkeeping, which may be missing.
pub record Registry : Type 0 where
  pub is_validated : String → Bool
  pub order : List Allocation → List Allocation
  pub total_requested_amount : String → Option ℕ

unfoldable pub allocations_of : String → List Allocation → List Allocation
allocations_of client allocations = filter (λ a. str_eq a.client_id client) allocations

-- The keys of an object in the order of their first assignment; `seen` are assigned already.
unfoldable pub keys_from : List String → List String → List String
keys_from seen [] = []
keys_from seen (k ∷ ks) = elim (includes seen k) [
  | true ↦ keys_from seen ks
  | false ↦ k ∷ keys_from (k ∷ seen) ks
]

-- `Object.keys(groupBy(allocations, (a) => a.client_id))`
unfoldable pub clients_of : List Allocation → List String
clients_of allocations = keys_from [] (map (λ a. a.client_id) allocations)

module _ (registry : Registry) where
  -- The allocations from edition 6 on, in the order that they were given.
  unfoldable pub allocations_to_check : List Allocation → List Allocation
  allocations_to_check l = registry.order (filter (λ a. leb edition_6_start a.timestamp) l)

  unfoldable pub client_allocation_to_verify : List Allocation → String → ClientAllocations
  client_allocation_to_verify allocations client = record {
    client_id = client;
    allocations = allocations_of client allocations;
    total_requested_amount = or_zero (registry.total_requested_amount client);
  }

  unfoldable pub is_valid_client : List Allocation → String → Bool
  is_valid_client allocations client =
      validate_allocations (client_allocation_to_verify allocations client)

  unfoldable pub invalid_clients : List Allocation → List String
  invalid_clients allocations =
      filter (λ client. not (is_valid_client allocations client)) (clients_of allocations)

  module _ (F : Double) where
    unfoldable pub schedule_row : String → List Allocation → AllocatorCheckResult F
    schedule_row report_id allocations =
        let invalid = invalid_clients allocations in
        store_check F report_id manual_allocation_schedule "Manual allocation tranche schedule"
          "Check that client allocations follow the manual tranche schedule rules"
          (length invalid == 0)
          (("max_clients_with_invalid_allocations", count 0)
            ∷ ("violating_ids", ids invalid)
            ∷ (
              "msg",
              text (
                  fixed (
                    F.mul
                      (F.div (of_ℕ F (length invalid)) (of_ℕ F (length (clients_of allocations))))
                      (of_ℕ F 100))
                  ∷ lit
                      "% of active clients did not receive allocations according to the tranche schedule"
                  ∷ []),
            )
            ∷ [])

    unfoldable pub store_allocator_tranche_schedule_check :
        AllocatorReport F → Option (List (AllocatorCheckResult F))
    store_allocator_tranche_schedule_check report =
        let allocations = allocations_to_check report.client_allocations in
        if not (registry.is_validated report.allocator) || (length allocations == 0)
        then some []
        else some (schedule_row report.id allocations ∷ [])
