-- ===== src/AllocatorChecks.antt =====
-- `storeReportChecks` of src/service/allocator-report-checks/allocator-report-checks.service.ts: the
-- checks of an allocator report. A check gives the rows that it creates, or `none` where it throws.
pub mod Texts
pub mod Clients
pub mod FromClients
pub mod Schedule
pub mod Store
use compliance_data_platform.Prelude.{ℕ, Bool, Option, List, [], ◌∷◌, String, ◌==◌, if◌then◌else◌}
use compliance_data_platform.Numbers.{Double}
use compliance_data_platform.Tranche.{Allocation}
use compliance_data_platform.ClientReport.{
  Piece, lit, shown, Value, text, ClientReportCheck,
  storage_provider_distribution_all_located_in_the_same_region,
  storage_provider_distribution_providers_exceed_provider_deal,
  storage_provider_distribution_providers_exceed_max_duplication,
  storage_provider_distribution_providers_unknown_location,
  storage_provider_distribution_providers_retrievability_zero,
  storage_provider_distribution_providers_retrievability_75,
  storage_provider_url_finder_retrievability_zero, storage_provider_url_finder_retrievability_75,
  storage_provider_distribution_providers_ipni_misreporting,
  storage_provider_distribution_providers_ipni_not_reporting,
  storage_provider_distribution_providers_declared_not_used,
  storage_provider_distribution_providers_not_declared, deal_data_replication_low_replica,
  deal_data_replication_high_replica, deal_data_replication_cid_sharing, multiple_allocators,
  not_enough_copies, inactivity, uniq_data_set_size_to_declared,
}

-- The enumerators after the third have the names of those of `ClientReportCheck`.
pub data AllocatorReportCheck : Type 0 where
  client_multiple_allocators client_not_enough_copies manual_allocation_schedule :
      AllocatorReportCheck
  from_client_report : ClientReportCheck → AllocatorReportCheck

-- The position in the enumeration: its values are distinct texts.
unfoldable pub check_index : ClientReportCheck → ℕ
check_index storage_provider_distribution_all_located_in_the_same_region = 0
check_index storage_provider_distribution_providers_exceed_provider_deal = 1
check_index storage_provider_distribution_providers_exceed_max_duplication = 2
check_index storage_provider_distribution_providers_unknown_location = 3
check_index storage_provider_distribution_providers_retrievability_zero = 4
check_index storage_provider_distribution_providers_retrievability_75 = 5
check_index storage_provider_url_finder_retrievability_zero = 6
check_index storage_provider_url_finder_retrievability_75 = 7
check_index storage_provider_distribution_providers_ipni_misreporting = 8
check_index storage_provider_distribution_providers_ipni_not_reporting = 9
check_index storage_provider_distribution_providers_declared_not_used = 10
check_index storage_provider_distribution_providers_not_declared = 11
check_index deal_data_replication_low_replica = 12
check_index deal_data_replication_high_replica = 13
check_index deal_data_replication_cid_sharing = 14
check_index multiple_allocators = 15
check_index not_enough_copies = 16
check_index inactivity = 17
check_index uniq_data_set_size_to_declared = 18

unfoldable pub allocator_check_index : AllocatorReportCheck → ℕ
allocator_check_index client_multiple_allocators = 100
allocator_check_index client_not_enough_copies = 101
allocator_check_index manual_allocation_schedule = 102
allocator_check_index (from_client_report check) = check_index check

-- `Object.entries(ClientReportCheck)`
abbrev pub client_report_checks : List ClientReportCheck
client_report_checks =
    storage_provider_distribution_all_located_in_the_same_region
    ∷ storage_provider_distribution_providers_exceed_provider_deal
    ∷ storage_provider_distribution_providers_exceed_max_duplication
    ∷ storage_provider_distribution_providers_unknown_location
    ∷ storage_provider_distribution_providers_retrievability_zero
    ∷ storage_provider_distribution_providers_retrievability_75
    ∷ storage_provider_url_finder_retrievability_zero
    ∷ storage_provider_url_finder_retrievability_75
    ∷ storage_provider_distribution_providers_ipni_misreporting
    ∷ storage_provider_distribution_providers_ipni_not_reporting
    ∷ storage_provider_distribution_providers_declared_not_used
    ∷ storage_provider_distribution_providers_not_declared ∷ deal_data_replication_low_replica
    ∷ deal_data_replication_high_replica ∷ deal_data_replication_cid_sharing ∷ multiple_allocators
    ∷ not_enough_copies ∷ inactivity ∷ uniq_data_set_size_to_declared ∷ []

module _ (F : Double) where
  -- A row of `allocator_report_client_replica_distribution`.
  pub record ClientReplicas : Type 0 where
    pub num_of_replicas : ℕ
    pub percentage : F.carrier

  -- A row of `allocator_report_client`.
  pub record ReportClient : Type 0 where
    pub client_id : String
    pub allocators : List String
    pub replica_distribution : List ClientReplicas

  pub record AllocatorReport : Type 0 where
    pub id : String
    pub allocator : String
    pub required_copies : Option String
    pub clients : List ReportClient
    pub client_allocations : List Allocation

  -- A row of `allocator_report_check_result`.
  pub record AllocatorCheckResult : Type 0 where
    pub allocator_report_id : String
    pub check : AllocatorReportCheck
    pub check_name : String
    pub check_description : String
    pub result : Bool
    pub metadata : List (String × Value F)

  -- `storeCheck`
  abbrev pub store_check :
      String
      → AllocatorReportCheck
      → String
      → String
      → Bool
      → List (String × Value F)
      → AllocatorCheckResult
  store_check report_id check check_name check_description result metadata = record {
    allocator_report_id = report_id;
    check = check;
    check_name = check_name;
    check_description = check_description;
    result = result;
    metadata = metadata;
  }

  -- `_clients`
  abbrev pub clients_text : ℕ → List (Piece F)
  clients_text n =
      if n == 0
      then lit "No clients" ∷ []
      else if n == 1
      then lit "1 client" ∷ []
      else shown n ∷ lit " clients" ∷ []
