-- ===== src/ClientReport.antt =====
-- The tables that the checks of a client report read and write: `client_report`, its storage provider
-- and replica distributions, its CID sharing and its check results (prisma/schema.prisma). A location
-- stands in the row that it belongs to. Columns that no check reads are left out.
use compliance_data_platform.Prelude.{ℕ, Bool, Option, List, String}
use compliance_data_platform.Numbers.{Double}

pub data ClientReportCheck : Type 0 where
  storage_provider_distribution_all_located_in_the_same_region : ClientReportCheck
  storage_provider_distribution_providers_exceed_provider_deal : ClientReportCheck
  storage_provider_distribution_providers_exceed_max_duplication : ClientReportCheck
  storage_provider_distribution_providers_unknown_location : ClientReportCheck
  storage_provider_distribution_providers_retrievability_zero : ClientReportCheck
  storage_provider_distribution_providers_retrievability_75 : ClientReportCheck
  storage_provider_url_finder_retrievability_zero : ClientReportCheck
  storage_provider_url_finder_retrievability_75 : ClientReportCheck
  storage_provider_distribution_providers_ipni_misreporting : ClientReportCheck
  storage_provider_distribution_providers_ipni_not_reporting : ClientReportCheck
  storage_provider_distribution_providers_declared_not_used : ClientReportCheck
  storage_provider_distribution_providers_not_declared : ClientReportCheck
  deal_data_replication_low_replica : ClientReportCheck
  deal_data_replication_high_replica : ClientReportCheck
  deal_data_replication_cid_sharing : ClientReportCheck
  multiple_allocators : ClientReportCheck
  not_enough_copies : ClientReportCheck
  inactivity : ClientReportCheck
  uniq_data_set_size_to_declared : ClientReportCheck

pub data IpniReportingStatus : Type 0 where
  misreporting not_reporting ok : IpniReportingStatus

pub record Location : Type 0 where
  pub country : String
  pub region : String
  pub city : String

-- A part of a template literal, and a value of a row's metadata.
module _ (F : Double) where
  pub data Piece : Type 0 where
    lit : String → Piece
    shown : ℕ → Piece
    shown_number : F.carrier → Piece
    fixed : F.carrier → Piece

  pub data Value : Type 0 where
    null : Value
    count : ℕ → Value
    number : F.carrier → Value
    text : List Piece → Value
    ids : List String → Value

  pub record ClientReport : Type 0 where
    pub id : ℕ
    pub create_date : ℕ
    pub client : String
    pub client_address : String
    pub allocators : List String
    pub allocator_required_copies : Option String
    pub storage_provider_ids_declared : List String
    pub available_datacap : Option ℕ
    pub last_datacap_spent : Option ℕ
    pub last_datacap_received : Option ℕ
    pub low_replica_threshold : Option ℕ
    pub high_replica_threshold : Option ℕ
    pub expected_size_of_single_dataset : Option ℕ
    pub total_uniq_data_set_size : Option ℕ

  pub record ProviderDistribution : Type 0 where
    pub client_report_id : ℕ
    pub provider : String
    pub total_deal_size : ℕ
    pub unique_data_size : ℕ
    pub location : Option Location
    pub ipni_reporting_status : Option IpniReportingStatus
    pub retrievability_success_rate_url_finder : Option F.carrier

  pub record ReplicaDistribution : Type 0 where
    pub client_report_id : ℕ
    pub num_of_replicas : ℕ
    pub percentage : F.carrier

  pub record CidSharing : Type 0 where
    pub client_report_id : ℕ

  pub record CheckResult : Type 0 where
    pub client_report_id : ℕ
    pub check : ClientReportCheck
    pub result : Bool
    pub metadata : List (String × Value)

  pub record Db : Type 0 where
    pub client_report : List ClientReport
    pub provider_distribution : List ProviderDistribution
    pub replica_distribution : List ReplicaDistribution
    pub cid_sharing : List CidSharing
    pub check_results : List CheckResult
