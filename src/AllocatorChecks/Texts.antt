-- ===== src/AllocatorChecks/Texts.antt =====
-- The texts of the allocator checks that rest on client checks, of
-- src/service/allocator-report-checks/allocator-report-checks.service.ts: a record of the source is a
-- function by clauses.
use compliance_data_platform.Prelude.{String}
use compliance_data_platform.ClientReport.{
  ClientReportCheck, deal_data_replication_cid_sharing, deal_data_replication_high_replica,
  deal_data_replication_low_replica, inactivity, multiple_allocators, not_enough_copies,
  storage_provider_distribution_all_located_in_the_same_region,
  storage_provider_distribution_providers_declared_not_used,
  storage_provider_distribution_providers_exceed_max_duplication,
  storage_provider_distribution_providers_exceed_provider_deal,
  storage_provider_distribution_providers_ipni_misreporting,
  storage_provider_distribution_providers_ipni_not_reporting,
  storage_provider_distribution_providers_not_declared,
  storage_provider_distribution_providers_retrievability_75,
  storage_provider_distribution_providers_retrievability_zero,
  storage_provider_distribution_providers_unknown_location,
  storage_provider_url_finder_retrievability_75, storage_provider_url_finder_retrievability_zero,
  uniq_data_set_size_to_declared,
}

abbrev pub get_client_report_check_fail_message : ClientReportCheck → String
get_client_report_check_fail_message deal_data_replication_cid_sharing =
    "of active clients demonstrate CID sharing"
get_client_report_check_fail_message deal_data_replication_high_replica =
    "of active clients have a high replica percentage"
get_client_report_check_fail_message deal_data_replication_low_replica =
    "of active clients have a low replica percentage"
get_client_report_check_fail_message inactivity =
    "of clients have unspent DataCap and were inactive for over 60 days"
get_client_report_check_fail_message multiple_allocators =
    "of active clients received DataCap from more than one allocator"
get_client_report_check_fail_message not_enough_copies =
    "of active clients store data with fewer replicas than required"
get_client_report_check_fail_message storage_provider_distribution_all_located_in_the_same_region =
    "of active clients missed the SP location diversity requirement"
get_client_report_check_fail_message storage_provider_distribution_providers_declared_not_used =
    "of active clients declared SPs in applications that were not actually used"
get_client_report_check_fail_message
      storage_provider_distribution_providers_exceed_max_duplication =
    "of active clients stored excessive duplicate data"
get_client_report_check_fail_message storage_provider_distribution_providers_exceed_provider_deal =
    "of active clients have unhealthy SP distribution"
get_client_report_check_fail_message storage_provider_distribution_providers_ipni_misreporting =
    "of active clients used SPs that misreported data to IPNI"
get_client_report_check_fail_message storage_provider_distribution_providers_ipni_not_reporting =
    "of active clients used SPs that did not report data to IPNI"
get_client_report_check_fail_message storage_provider_distribution_providers_not_declared =
    "of active clients used undeclared storage providers"
get_client_report_check_fail_message storage_provider_distribution_providers_retrievability_75 =
    "of active clients used SPs with a HTTP retrieval success rate below 75%"
get_client_report_check_fail_message storage_provider_distribution_providers_retrievability_zero =
    "of active clients used SPs with a HTTP retrieval success rate of 0%"
get_client_report_check_fail_message storage_provider_url_finder_retrievability_75 =
    "of active clients used SPs with a RPA retrieval success rate below 75%"
get_client_report_check_fail_message storage_provider_url_finder_retrievability_zero =
    "of active clients used SPs with a RPA retrieval success rate of 0%"
get_client_report_check_fail_message storage_provider_distribution_providers_unknown_location =
    "of active clients used SPs that have an unknown IP location"
get_client_report_check_fail_message uniq_data_set_size_to_declared =
    "of active clients stored unique datasets larger than declared"

abbrev pub get_client_report_check_name : ClientReportCheck → String
get_client_report_check_name deal_data_replication_cid_sharing = "Client CID sharing"
get_client_report_check_name deal_data_replication_high_replica = "Client high replica"
get_client_report_check_name deal_data_replication_low_replica = "Client low replica"
get_client_report_check_name inactivity = "Client inactivity"
get_client_report_check_name multiple_allocators = "Client multiple allocators"
get_client_report_check_name not_enough_copies = "Client not enough copies"
get_client_report_check_name storage_provider_distribution_all_located_in_the_same_region =
    "Storage Providers location diversity"
get_client_report_check_name storage_provider_distribution_providers_declared_not_used =
    "Storage Providers declared, not used"
get_client_report_check_name storage_provider_distribution_providers_exceed_max_duplication =
    "Excessive duplicate data"
get_client_report_check_name storage_provider_distribution_providers_exceed_provider_deal =
    "Unhealthy Storage Provider distribution"
get_client_report_check_name storage_provider_distribution_providers_ipni_misreporting =
    "Storage Providers IPNI misreporting"
get_client_report_check_name storage_provider_distribution_providers_ipni_not_reporting =
    "Storage Providers not reporting to IPNI"
get_client_report_check_name storage_provider_distribution_providers_not_declared =
    "Storage Providers not declared"
get_client_report_check_name storage_provider_distribution_providers_retrievability_75 =
    "Storage Providers HTTP retrievability < 75%"
get_client_report_check_name storage_provider_distribution_providers_retrievability_zero =
    "Storage Providers HTTP retrievability = 0%"
get_client_report_check_name storage_provider_url_finder_retrievability_75 =
    "Storage Providers RPA retrievability < 75%"
get_client_report_check_name storage_provider_url_finder_retrievability_zero =
    "Storage Providers RPA retrievability = 0%"
get_client_report_check_name storage_provider_distribution_providers_unknown_location =
    "Storage Providers unknown location"
get_client_report_check_name uniq_data_set_size_to_declared =
    "Client unique dataset size to declared"

abbrev pub get_client_report_check_description : ClientReportCheck → String
get_client_report_check_description deal_data_replication_cid_sharing =
    "Check that clients do not demonstrate CID sharing"
get_client_report_check_description deal_data_replication_high_replica =
    "Check that clients do not have a high replica percentage"
get_client_report_check_description deal_data_replication_low_replica =
    "Check that clients do not have a low replica percentage"
get_client_report_check_description inactivity =
    "Check that clients with unspent DataCap were inactive for over 60 days"
get_client_report_check_description multiple_allocators =
    "Check that clients receive datacap from only one allocator"
get_client_report_check_description not_enough_copies =
    "Check that clients store data with the required number of copies"
get_client_report_check_description storage_provider_distribution_all_located_in_the_same_region =
    "Check that clients meet the SP location diversity requirement"
get_client_report_check_description storage_provider_distribution_providers_declared_not_used =
    "Check that clients declared SPs in applications that were actually used"
get_client_report_check_description storage_provider_distribution_providers_exceed_max_duplication =
    "Check that clients do not store excessive duplicate data"
get_client_report_check_description storage_provider_distribution_providers_exceed_provider_deal =
    "Check that clients have a healthy Storage Provider distribution"
get_client_report_check_description storage_provider_distribution_providers_ipni_misreporting =
    "Check that clients do not use Storage Providers that misreported data to IPNI"
get_client_report_check_description storage_provider_distribution_providers_ipni_not_reporting =
    "Check that clients do not use Storage Providers that did not report data to IPNI"
get_client_report_check_description storage_provider_distribution_providers_not_declared =
    "Check that clients do not use undeclared Storage Providers"
get_client_report_check_description storage_provider_distribution_providers_retrievability_75 =
    "Check that clients do not use Storage Providers with a HTTP retrieval success rate below 75%"
get_client_report_check_description storage_provider_distribution_providers_retrievability_zero =
    "Check that clients do not use Storage Providers with a HTTP retrieval success rate of 0%"
get_client_report_check_description storage_provider_url_finder_retrievability_75 =
    "Check that clients do not use Storage Providers with a RPA retrieval success rate below 75%"
get_client_report_check_description storage_provider_url_finder_retrievability_zero =
    "Check that clients do not use Storage Providers with a RPA retrieval success rate of 0%"
get_client_report_check_description storage_provider_distribution_providers_unknown_location =
    "Check that clients do not use Storage Providers that have an unknown IP location"
get_client_report_check_description uniq_data_set_size_to_declared =
    "Check that clients do not store datasets larger than declared"
