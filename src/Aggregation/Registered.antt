-- ===== src/Aggregation/Registered.antt =====
-- src/aggregation/runners and the list `aggregationRunners` of src/app.module.ts: the tables that
-- each runner of the application fills and waits for. A runner's reference is its place in the list.
use compliance_data_platform.Prelude.{ℕ, zero, suc, ◌≢◌, Option, List, [], ◌∷◌, String, arith}
use compliance_data_platform.Aggregation.Table.{
  AggregationTable, value, allocator, allocator_client_bookkeeping, allocator_registry,
  allocator_registry_archive, allocators_client_stats_daily, allocators_weekly_acc, cid_sharing,
  client, client_allocator_distribution_weekly, client_allocator_distribution_weekly_acc,
  client_claims_hourly, client_datacap_allocation, client_provider_distribution,
  client_provider_distribution_weekly, client_provider_distribution_weekly_acc,
  client_replica_distribution, clients_stats_daily, ipni_reporting_daily, old_datacap_balance_nv22,
  old_datacap_balance_weekly, old_datacap_client_balance_nv22, old_datacap_client_balance_weekly,
  provider, provider_first_client, provider_ip_info, provider_url_finder_retrievability_daily,
  providers_weekly, providers_weekly_acc, storage_provider_url_finder_deal_daily_snapshot,
  unified_verified_deal_hourly,
}
use compliance_data_platform.Aggregation.{Err, Runners, includes, impossible, run_aggregations}
use compliance_data_platform.Aggregation.Rounds.{tables_of}
use compliance_data_platform.Aggregation.Order.{run_aggregations-ne-impossible}

-- `getFilledTables` and `getDependingTables` of a runner's class.
pub record RunnerTables : Type 0 where
  pub filled : List AggregationTable
  pub depending : List AggregationTable

abbrev client_datacap_allocation_runner : RunnerTables
client_datacap_allocation_runner = record {
  filled = client_datacap_allocation ∷ [];
  depending = [];
}

abbrev provider_url_finder_retrievability_daily_runner : RunnerTables
provider_url_finder_retrievability_daily_runner = record {
  filled = provider_url_finder_retrievability_daily ∷ [];
  depending = provider ∷ [];
}

abbrev allocator_client_bookkeeping_runner : RunnerTables
allocator_client_bookkeeping_runner = record {
  filled = allocator_client_bookkeeping ∷ [];
  depending = allocator_registry ∷ [];
}

abbrev allocator_registry_runner : RunnerTables
allocator_registry_runner = record { filled = allocator_registry ∷ []; depending = [] }

abbrev allocator_registry_archive_runner : RunnerTables
allocator_registry_archive_runner = record {
  filled = allocator_registry_archive ∷ [];
  depending = [];
}

abbrev allocator_runner : RunnerTables
allocator_runner = record { filled = allocator ∷ []; depending = [] }

abbrev provider_runner : RunnerTables
provider_runner = record { filled = provider ∷ []; depending = [] }

abbrev allocators_weekly_acc_runner : RunnerTables
allocators_weekly_acc_runner = record {
  filled = allocators_weekly_acc ∷ [];
  depending =
      client_provider_distribution_weekly_acc ∷ providers_weekly
      ∷ client_allocator_distribution_weekly_acc ∷ [];
}

abbrev cid_sharing_runner : RunnerTables
cid_sharing_runner = record { filled = cid_sharing ∷ []; depending = [] }

abbrev client_allocator_distribution_weekly_runner : RunnerTables
client_allocator_distribution_weekly_runner = record {
  filled = client_allocator_distribution_weekly ∷ [];
  depending = [];
}

abbrev client_allocator_distribution_weekly_acc_runner : RunnerTables
client_allocator_distribution_weekly_acc_runner = record {
  filled = client_allocator_distribution_weekly_acc ∷ [];
  depending = [];
}

abbrev client_claims_hourly_runner : RunnerTables
client_claims_hourly_runner = record {
  filled = client_claims_hourly ∷ [];
  depending = unified_verified_deal_hourly ∷ [];
}

abbrev client_provider_distribution_runner : RunnerTables
client_provider_distribution_runner = record {
  filled = client_provider_distribution ∷ [];
  depending = [];
}

abbrev client_provider_distribution_weekly_runner : RunnerTables
client_provider_distribution_weekly_runner = record {
  filled = client_provider_distribution_weekly ∷ [];
  depending = [];
}

abbrev client_provider_distribution_weekly_acc_runner : RunnerTables
client_provider_distribution_weekly_acc_runner = record {
  filled = client_provider_distribution_weekly_acc ∷ [];
  depending = [];
}

abbrev client_replica_distribution_runner : RunnerTables
client_replica_distribution_runner = record {
  filled = client_replica_distribution ∷ [];
  depending = [];
}

abbrev ipni_reporting_daily_runner : RunnerTables
ipni_reporting_daily_runner = record {
  filled = ipni_reporting_daily ∷ [];
  depending = client_provider_distribution ∷ [];
}

abbrev old_datacap_balance_nv22_runner : RunnerTables
old_datacap_balance_nv22_runner = record { filled = old_datacap_balance_nv22 ∷ []; depending = [] }

abbrev old_datacap_balance_weekly_runner : RunnerTables
old_datacap_balance_weekly_runner = record {
  filled = old_datacap_balance_weekly ∷ [];
  depending = allocators_weekly_acc ∷ old_datacap_balance_nv22 ∷ [];
}

abbrev old_datacap_client_balance_nv22_runner : RunnerTables
old_datacap_client_balance_nv22_runner = record {
  filled = old_datacap_client_balance_nv22 ∷ [];
  depending = [];
}

abbrev old_datacap_client_balance_weekly_runner : RunnerTables
old_datacap_client_balance_weekly_runner = record {
  filled = old_datacap_client_balance_weekly ∷ [];
  depending =
      client_allocator_distribution_weekly ∷ old_datacap_balance_nv22
      ∷ old_datacap_client_balance_nv22 ∷ [];
}

abbrev provider_first_client_runner : RunnerTables
provider_first_client_runner = record {
  filled = provider_first_client ∷ [];
  depending = unified_verified_deal_hourly ∷ [];
}

abbrev provider_ip_info_runner : RunnerTables
provider_ip_info_runner = record {
  filled = provider_ip_info ∷ [];
  depending = providers_weekly ∷ [];
}

abbrev provider_url_finder_deal_daily_snapshot_runner : RunnerTables
provider_url_finder_deal_daily_snapshot_runner = record {
  filled = storage_provider_url_finder_deal_daily_snapshot ∷ [];
  depending = [];
}

abbrev providers_weekly_runner : RunnerTables
providers_weekly_runner = record {
  filled = providers_weekly ∷ [];
  depending = client_provider_distribution_weekly ∷ provider_url_finder_retrievability_daily ∷ [];
}

abbrev providers_weekly_acc_runner : RunnerTables
providers_weekly_acc_runner = record {
  filled = providers_weekly_acc ∷ [];
  depending =
      client_provider_distribution_weekly_acc ∷ provider_url_finder_retrievability_daily ∷ [];
}

abbrev unified_verified_deal_hourly_runner : RunnerTables
unified_verified_deal_hourly_runner = record {
  filled = unified_verified_deal_hourly ∷ [];
  depending = [];
}

abbrev allocators_client_stats_daily_runner : RunnerTables
allocators_client_stats_daily_runner = record {
  filled = allocators_client_stats_daily ∷ [];
  depending =
      allocator ∷ allocator_registry ∷ allocator_registry_archive ∷ client_datacap_allocation
      ∷ unified_verified_deal_hourly ∷ [];
}

abbrev client_runner : RunnerTables
client_runner = record { filled = client ∷ []; depending = client_claims_hourly ∷ [] }

abbrev clients_stats_daily_runner : RunnerTables
clients_stats_daily_runner = record { filled = clients_stats_daily ∷ []; depending = client ∷ [] }

abbrev pub aggregation_runners : List RunnerTables
aggregation_runners =
    client_datacap_allocation_runner ∷ provider_url_finder_retrievability_daily_runner
    ∷ allocator_client_bookkeeping_runner ∷ allocator_registry_runner
    ∷ allocator_registry_archive_runner ∷ allocator_runner ∷ provider_runner
    ∷ allocators_weekly_acc_runner ∷ cid_sharing_runner
    ∷ client_allocator_distribution_weekly_runner ∷ client_allocator_distribution_weekly_acc_runner
    ∷ client_claims_hourly_runner ∷ client_provider_distribution_runner
    ∷ client_provider_distribution_weekly_runner ∷ client_provider_distribution_weekly_acc_runner
    ∷ client_replica_distribution_runner ∷ ipni_reporting_daily_runner
    ∷ old_datacap_balance_nv22_runner ∷ old_datacap_balance_weekly_runner
    ∷ old_datacap_client_balance_nv22_runner ∷ old_datacap_client_balance_weekly_runner
    ∷ provider_first_client_runner ∷ provider_ip_info_runner
    ∷ provider_url_finder_deal_daily_snapshot_runner ∷ providers_weekly_runner
    ∷ providers_weekly_acc_runner ∷ unified_verified_deal_hourly_runner
    ∷ allocators_client_stats_daily_runner ∷ client_runner ∷ clients_stats_daily_runner ∷ []

abbrev pub tables_at : List RunnerTables → ℕ → RunnerTables
tables_at [] r = record { filled = []; depending = [] }
tables_at (t ∷ ts) zero = t
tables_at (t ∷ ts) (suc r) = tables_at ts r

-- The references of the runners, in the order in which the application lists them.
abbrev pub references : List ℕ
references =
    0 ∷ 1 ∷ 2 ∷ 3 ∷ 4 ∷ 5 ∷ 6 ∷ 7 ∷ 8 ∷ 9 ∷ 10 ∷ 11 ∷ 12 ∷ 13 ∷ 14 ∷ 15 ∷ 16 ∷ 17 ∷ 18 ∷ 19 ∷ 20
    ∷ 21 ∷ 22 ∷ 23 ∷ 24 ∷ 25 ∷ 26 ∷ 27 ∷ 28 ∷ 29 ∷ []

-- An order that respects the dependencies, the latest first.
abbrev dependency_order : List ℕ
dependency_order =
    22 ∷ 18 ∷ 7 ∷ 29 ∷ 28 ∷ 25 ∷ 24 ∷ 21 ∷ 11 ∷ 2 ∷ 1 ∷ 27 ∷ 26 ∷ 23 ∷ 20 ∷ 19 ∷ 17 ∷ 16 ∷ 15 ∷ 14
    ∷ 13 ∷ 12 ∷ 10 ∷ 9 ∷ 8 ∷ 6 ∷ 5 ∷ 4 ∷ 3 ∷ 0 ∷ []

module _ {World : Type 0} (run : ℕ → World → World × Option Err) (sleep : ℕ → World → World) where
  -- The application's runners, whatever they do and whatever a pause does to the world.
  abbrev pub application : (ℕ → String) → Runners World
  application name = record {
    name = name;
    get_filled_tables = λ r. (tables_at aggregation_runners r).filled;
    get_depending_tables = λ r. (tables_at aggregation_runners r).depending;
    run = run;
    sleep = sleep;
  }

  -- The dependencies that the application's runners declare can be met: `runAggregations` never
  -- gives up with impossible dependencies, whatever the runners do.
  pub application-ne-impossible :
      (name : ℕ → String) (w : World)
      → (run_aggregations (application name) references w).1 ≢ impossible
  unfolding includes value tables_of
  application-ne-impossible name w =
      run_aggregations-ne-impossible (application name) references dependency_order w (ground arith)
        (omega arith) (omega arith)
