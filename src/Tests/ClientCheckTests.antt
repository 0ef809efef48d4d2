-- ===== src/Tests/ClientCheckTests.antt =====
-- A report of two storage providers, one of which holds three quarters of the deals.
use compliance_data_platform.Prelude.{
  ℕ, ◌+◌, ◌*◌, ◌≤◌, ◌≡◌, refl, true, some, none, List, [], ◌∷◌, ◌++◌, arith, String, length,
}
use compliance_data_platform.Numbers.{pos, hundredths, big_int_div, big_int_to_number}
use compliance_data_platform.ClientReport.{
  ClientReport, ProviderDistribution, Db, CheckResult,
  storage_provider_distribution_all_located_in_the_same_region,
  storage_provider_distribution_providers_exceed_provider_deal,
  storage_provider_distribution_providers_exceed_max_duplication,
  storage_provider_distribution_providers_unknown_location,
  storage_provider_url_finder_retrievability_zero, storage_provider_url_finder_retrievability_75,
  storage_provider_distribution_providers_ipni_misreporting,
  storage_provider_distribution_providers_ipni_not_reporting,
  storage_provider_distribution_providers_declared_not_used,
  storage_provider_distribution_providers_not_declared, deal_data_replication_low_replica,
  deal_data_replication_high_replica, deal_data_replication_cid_sharing, multiple_allocators,
  not_enough_copies, inactivity, uniq_data_set_size_to_declared,
}
use compliance_data_platform.ClientChecks.{
  Limits, find_report, filter_option, includes, provider_distribution_of, replica_distribution_of,
  storage_providers, storage_providers_are,
}
use compliance_data_platform.ClientChecks.Providers.{
  exceeds_provider_deal, providers_exceeding_provider_deal, exceeds_max_duplication,
  store_providers_exceeding_provider_deal, store_providers_exceeding_max_duplication_percentage,
  store_providers_with_unknown_location, store_providers_in_same_location,
}
use compliance_data_platform.ClientChecks.Retrievability.{
  store_providers_ipni_misreporting, store_providers_ipni_not_reporting,
  store_providers_url_finder_retrievability,
}
use compliance_data_platform.ClientChecks.Declared.{
  store_providers_declared_not_used, store_providers_not_declared,
}
use compliance_data_platform.ClientChecks.Replicas.{
  store_deal_data_not_enough_copies, store_deal_data_low_replica, store_deal_data_high_replica,
}
use compliance_data_platform.ClientChecks.Client.{
  store_multiple_allocators, store_inactivity,
  store_deal_data_shared_with_other_clients_cid_sharing, store_unique_data_set_size,
}
use compliance_data_platform.ClientChecks.Shapes.{kinds_of}
use compliance_data_platform.ClientChecks.Store.{
  Outside, run_check, run_checks, store_report_checks,
}
use compliance_data_platform.ClientChecks.Coverage.{
  Stored, AreSet, report_specs, store_report_checks-Stored, store_report_checks_complete,
}
use compliance_data_platform.ClientChecks.DealShares.{
  large_providers, providers_exceeding_provider_deal_lem,
}
use compliance_data_platform.Tests.Rationals.{rationals, rationals-IsFaithful}

abbrev report : ClientReport rationals
report = record {
  id = 1;
  create_date = 1;
  client = "f01";
  client_address = "f01";
  allocators = "f02" ∷ [];
  allocator_required_copies = some "2";
  storage_provider_ids_declared = "f03" ∷ [];
  available_datacap = some 0;
  last_datacap_spent = some 5;
  last_datacap_received = none;
  low_replica_threshold = some 2;
  high_replica_threshold = some 9;
  expected_size_of_single_dataset = some 100;
  total_uniq_data_set_size = some 90;
}

abbrev provider : String → ℕ → ProviderDistribution rationals
provider name size = record {
  client_report_id = 1;
  provider = name;
  total_deal_size = size;
  unique_data_size = size;
  location = none;
  ipni_reporting_status = none;
  retrievability_success_rate_url_finder = none;
}

abbrev providers : List (ProviderDistribution rationals)
providers = provider "f03" 75 ∷ provider "f04" 25 ∷ []

abbrev db : Db rationals
db = record {
  client_report = report ∷ [];
  provider_distribution = providers;
  replica_distribution = [];
  cid_sharing = [];
  check_results = [];
}

-- All limits are 30 %.
abbrev pub limits : Limits rationals
limits = record {
  max_provider_deal_percentage = some (hundredths rationals (pos 3000));
  max_duplication_percentage = some (hundredths rationals (pos 3000));
  max_percentage_for_low_replica = some (hundredths rationals (pos 3000));
  max_percentage_for_high_replica = some (hundredths rationals (pos 3000));
  max_percentage_for_required_copies = some (hundredths rationals (pos 3000));
  max_percentage_not_declared_providers = some (hundredths rationals (pos 3000));
  total_uniq_data_set_size_allow_exceeds_percentage = some (hundredths rationals (pos 3000));
}

abbrev pub outside : Outside rationals
outside = record {
  days_since = λ d. hundredths rationals (pos 1000);
  read = λ s. some (hundredths rationals (pos 200));
  sum = λ l. hundredths rationals (pos 0);
}

reported :
    providers_exceeding_provider_deal rationals (hundredths rationals (pos 3000)) providers
    ≡ some ("f03" ∷ [])
unfolding providers_exceeding_provider_deal exceeds_provider_deal filter_option big_int_div
    big_int_to_number
reported = refl

providers_exceeding_provider_deal_lem_example :
    (providers_exceeding_provider_deal rationals (hundredths rationals (pos 3000)) providers
      ≡ some (large_providers rationals 3000 providers))
    × (length (large_providers rationals 3000 providers) * (3000 + 1) ≤ 10000)
providers_exceeding_provider_deal_lem_example =
    providers_exceeding_provider_deal_lem rationals 3000 providers rationals-IsFaithful
      (omega arith)

store_report_checks-Stored_example :
    Stored rationals 1 db
      (report_specs rationals limits 1 db)
      []
      (store_report_checks rationals limits outside 1 db)
store_report_checks-Stored_example = store_report_checks-Stored rationals limits outside 1 db

pub limits-AreSet : AreSet limits
limits-AreSet = record {
  deal = λ e. cc;
  duplication = λ e. cc;
  low = λ e. cc;
  high = λ e. cc;
  copies = λ e. cc;
  declared = λ e. cc;
  unique = λ e. cc;
}

unfoldable pub client_checks : Unit {0}
unfolding store_report_checks run_checks run_check find_report filter_option includes
    provider_distribution_of replica_distribution_of storage_providers storage_providers_are
    exceeds_provider_deal providers_exceeding_provider_deal store_providers_exceeding_provider_deal
    exceeds_max_duplication store_providers_exceeding_max_duplication_percentage
    store_providers_with_unknown_location store_providers_in_same_location
    store_providers_ipni_misreporting store_providers_ipni_not_reporting
    store_providers_url_finder_retrievability store_providers_declared_not_used
    store_providers_not_declared store_deal_data_not_enough_copies store_deal_data_low_replica
    store_deal_data_high_replica store_multiple_allocators store_inactivity
    store_deal_data_shared_with_other_clients_cid_sharing store_unique_data_set_size big_int_div
    big_int_to_number
client_checks = tt

report_ends : (store_report_checks rationals limits outside 1 db).1 ≡ true
unfolding client_checks
report_ends = refl

report_found : find_report rationals 1 db ≡ some report
unfolding client_checks
report_found = refl

store_report_checks_complete_example :
    (rows : List (CheckResult rationals)) × ((store_report_checks rationals limits outside 1
        db).0.check_results
      ≡ [] ++ rows)
    × (kinds_of rationals rows
        ≡ multiple_allocators ∷ inactivity
          ∷ storage_provider_distribution_providers_exceed_provider_deal
          ∷ storage_provider_distribution_providers_exceed_max_duplication
          ∷ storage_provider_distribution_providers_unknown_location
          ∷ storage_provider_distribution_all_located_in_the_same_region
          ∷ storage_provider_url_finder_retrievability_zero
          ∷ storage_provider_url_finder_retrievability_75
          ∷ storage_provider_distribution_providers_ipni_misreporting
          ∷ storage_provider_distribution_providers_ipni_not_reporting
          ∷ storage_provider_distribution_providers_declared_not_used
          ∷ storage_provider_distribution_providers_not_declared ∷ deal_data_replication_low_replica
          ∷ deal_data_replication_high_replica ∷ not_enough_copies
          ∷ deal_data_replication_cid_sharing ∷ uniq_data_set_size_to_declared ∷ [])
store_report_checks_complete_example =
    store_report_checks_complete rationals limits outside 1 db report limits-AreSet report_found
      (λ e. cc) (λ e. cc) report_ends

two_providers : provider_distribution_of rationals 1 db ≡ providers
unfolding client_checks
two_providers = refl
