-- ===== src/Aggregation/Table.antt =====
-- src/aggregation/aggregation-table.ts: the tables that the runners fill. A TypeScript enum is
-- numbered from 0 in the order of its members, and `includes` compares these numbers.
use compliance_data_platform.Prelude.{ℕ}

pub data AggregationTable : Type 0 where
  allocator_client_bookkeeping : AggregationTable
  allocator_registry : AggregationTable
  allocators_weekly_acc : AggregationTable
  cid_sharing : AggregationTable
  client : AggregationTable
  client_allocator_distribution_weekly : AggregationTable
  client_allocator_distribution_weekly_acc : AggregationTable
  client_claims_hourly : AggregationTable
  client_provider_distribution : AggregationTable
  client_provider_distribution_weekly : AggregationTable
  client_provider_distribution_weekly_acc : AggregationTable
  client_replica_distribution : AggregationTable
  ipni_reporting_daily : AggregationTable
  old_datacap_balance_nv22 : AggregationTable
  old_datacap_balance_weekly : AggregationTable
  old_datacap_client_balance_nv22 : AggregationTable
  old_datacap_client_balance_weekly : AggregationTable
  provider_first_client : AggregationTable
  provider_ip_info : AggregationTable
  provider_retrievability_daily : AggregationTable
  providers_weekly : AggregationTable
  providers_weekly_acc : AggregationTable
  unified_verified_deal_hourly : AggregationTable
  allocator : AggregationTable
  provider : AggregationTable
  provider_url_finder_retrievability_daily : AggregationTable
  storage_provider_url_finder_daily_snapshot : AggregationTable
  storage_provider_url_finder_deal_daily_snapshot : AggregationTable
  client_datacap_allocation : AggregationTable
  allocator_registry_archive : AggregationTable
  allocators_client_stats_daily : AggregationTable
  clients_stats_daily : AggregationTable

unfoldable pub value : AggregationTable → ℕ
value allocator_client_bookkeeping = 0
value allocator_registry = 1
value allocators_weekly_acc = 2
value cid_sharing = 3
value client = 4
value client_allocator_distribution_weekly = 5
value client_allocator_distribution_weekly_acc = 6
value client_claims_hourly = 7
value client_provider_distribution = 8
value client_provider_distribution_weekly = 9
value client_provider_distribution_weekly_acc = 10
value client_replica_distribution = 11
value ipni_reporting_daily = 12
value old_datacap_balance_nv22 = 13
value old_datacap_balance_weekly = 14
value old_datacap_client_balance_nv22 = 15
value old_datacap_client_balance_weekly = 16
value provider_first_client = 17
value provider_ip_info = 18
value provider_retrievability_daily = 19
value providers_weekly = 20
value providers_weekly_acc = 21
value unified_verified_deal_hourly = 22
value allocator = 23
value provider = 24
value provider_url_finder_retrievability_daily = 25
value storage_provider_url_finder_daily_snapshot = 26
value storage_provider_url_finder_deal_daily_snapshot = 27
value client_datacap_allocation = 28
value allocator_registry_archive = 29
value allocators_client_stats_daily = 30
value clients_stats_daily = 31
