-- ===== src/Tests/ReportsTests.antt =====
-- A client with one application of May 2024 and two rows, and the jobs over some clients and allocators.
use compliance_data_platform.Prelude.{
  ◌*◌, ◌<◌, ℕ, ◌≡◌, ◌≢◌, ◌≤◌, ◌+◌, ◌⊎◌, refl, true, false, none, some, List, [], ◌∷◌, ◌++◌, map,
  String, str_eq, any, if◌then◌else◌,
}
use compliance_data_platform.Numbers.{big_int_div, big_int_to_number, string_to_number}
use compliance_data_platform.ClientChecks.Replicas.{has_few_replicas}
use compliance_data_platform.ClientReport.{Db, ClientReport, CheckResult}
use compliance_data_platform.ClientChecks.{find_report, includes}
use compliance_data_platform.ClientChecks.Shapes.{kinds_of}
use compliance_data_platform.Editions.{
  FilPlusEdition, edition_5, covers, in_milliseconds, get_fil_plus_edition_by_timestamp,
  get_fil_plus_edition_by_id,
}
use compliance_data_platform.Editions.Ranges.{IsDated, get_fil_plus_edition_by_timestamp-IsDated}
use compliance_data_platform.Misreporting.{
  Answers, AggregatedStatus, status_of, checked_number, get_provider_actual_claims_count,
  get_provider_ipni_reported_claims_count_by_peer_id, get_provider_reporting_status,
  get_aggregated_providers_reporting_status,
}
use compliance_data_platform.Misreporting.Totals.{
  fails_twice, get_aggregated_providers_reporting_status-counts,
}
use compliance_data_platform.Reports.{
  get_client_application_url, properties, ClientAllowanceItem, ClientWithAllowance,
  main_allocator_id, get_client_name, first_named,
}
use compliance_data_platform.Reports.Distributions.{
  ReplicaRow, all_settled, share_of, get_replication_distribution, storage_provider_of,
  get_storage_provider_distribution, total_of_replicas,
}
use compliance_data_platform.Reports.OfClients.{
  ClientServices, report, application_timestamp, edition_of_application, unique_size_of,
  provider_row, await_all, report_row, rows_of, create_report, store_report, get_report,
  generate_report,
}
use compliance_data_platform.Reports.Jobs.{
  Generation, nothing, found, rejected, run_allocator_report_generation,
}
use compliance_data_platform.Reports.Shares.{
  with_share, sum_of_shares, get_replication_distribution-shares,
}
use compliance_data_platform.Reports.Generated.{
  HasEdition, kinds_of_checks, generate_report-checked,
}
use compliance_data_platform.Reports.Counts.{
  Runs, AreDifferent, run_allocator_report_generation-Runs,
}
use compliance_data_platform.Reports.Applications.{
  GrantedDatacap, get_granted_datacap_in_clients, granted_item, granted_items, all_granted,
  sort_granted, insert_granted, application_url_in_client_report,
}
use compliance_data_platform.Reports.Granted.{
  IsSorted, total_granted, total_allowance, get_granted_datacap_in_clients-total,
}
use compliance_data_platform.Tests.Rationals.{rationals, rationals-IsFaithful}
use compliance_data_platform.Tests.ClientCheckTests.{limits, outside, limits-AreSet, client_checks}

abbrev item : ℕ → ℕ → ClientAllowanceItem
item allowance time = record {
  verifier_address_id = "f02";
  allowance = some allowance;
  audit_trail = some "https://github.com/x/1";
  issue_create_timestamp = some 1715000000;
  create_message_timestamp = time;
}

abbrev client : ClientWithAllowance
client = record {
  address_id = "f01";
  address = "f1a";
  name = "";
  org_name = " Org ";
  verifier_address_id = "f03018491";
  allowance_array = some (item 7 30 ∷ item 5 20 ∷ item 0 10 ∷ []);
}

abbrev other : ClientWithAllowance
other = record client { verifier_address_id = "f02"; allowance_array = some [] }

abbrev answers : Answers
answers = record {
  get_miner_peer_id = λ attempt id. if str_eq id "f09" then none else some (some "peer");
  claims_count_sum = λ attempt id. some (some 10);
  has_advertisement = λ attempt peer. some true;
  entries_number_sum = λ attempt peer. some (some 4);
}

abbrev replica_rows : List ReplicaRow
replica_rows =
    record { num_of_replicas = 3; total_deal_size = 75; unique_data_size = 25 }
    ∷ record { num_of_replicas = 1; total_deal_size = 25; unique_data_size = 25 }
    ∷ []

abbrev services : ClientServices rationals
services = record {
  get_client_data = λ a. if str_eq a "f01" then some (client ∷ other ∷ []) else some [];
  provider_services = record {
    rows =
        λ c. some (record { provider = "f03"; total_deal_size = 100; unique_data_size = 100 } ∷ []);
    get_miner_info = λ p. some (record { peer_id = some "peer"; multiaddrs = [] });
    answers = answers;
    get_location = λ m. some none;
    retrievability_success_rate = λ p. some none;
  };
  replica_rows = λ c. some replica_rows;
  cid_sharing_rows = λ c. some [];
  get_allocator_registry_info = λ a. some (some (record { required_replicas = some "2" }));
  get_client_bookkeeping_info = λ c. some none;
  get_client_datacap = λ c. some (some 0);
  get_last_datacap_spent = λ c. some (some 5);
  get_last_datacap_received = λ c. some none;
  other_columns = λ c. some [];
}

abbrev empty : Db rationals
empty = record {
  client_report = [];
  provider_distribution = [];
  replica_distribution = [];
  cid_sharing = [];
  check_results = [];
}

generation : Unit {0}
unfolding client_checks generate_report store_report get_report create_report rows_of report_row
    await_all provider_row unique_size_of edition_of_application application_timestamp
    get_fil_plus_edition_by_timestamp covers in_milliseconds get_storage_provider_distribution
    storage_provider_of get_replication_distribution share_of all_settled
    get_provider_reporting_status get_provider_ipni_reported_claims_count_by_peer_id
    get_provider_actual_claims_count checked_number status_of main_allocator_id big_int_div
    big_int_to_number has_few_replicas string_to_number
generation = tt

is_edition_5 : edition_of_application client ≡ some edition_5
unfolding generation
is_edition_5 = refl

abbrev generated : ClientReport rationals
generated = record {
  id = 8;
  create_date = 9;
  client = "f01";
  client_address = "f1a";
  allocators = "f03018491" ∷ "f02" ∷ [];
  allocator_required_copies = some "2";
  storage_provider_ids_declared = [];
  available_datacap = some 0;
  last_datacap_spent = some 5;
  last_datacap_received = none;
  low_replica_threshold = some 4;
  high_replica_threshold = some 10;
  expected_size_of_single_dataset = none;
  total_uniq_data_set_size = some 50;
}

is_generated :
    (generate_report rationals services limits outside 8 9 "f01" empty).1 ≡ report generated
unfolding generation
is_generated = refl

generate_report-checked_example :
    (results : List (CheckResult rationals)) × ((generate_report rationals services limits outside 8
        9 "f01" empty).0.check_results
      ≡ [] ++ results)
    × (kinds_of rationals results ≡ kinds_of_checks)
    × (find_report rationals 8 (generate_report rationals services limits outside 8 9 "f01" empty).0
        ≡ some generated)
    × HasEdition rationals services 8 edition_5 client (other ∷ []) generated
generate_report-checked_example =
    generate_report-checked rationals services limits outside 8 9 "f01" empty client (other ∷ [])
      edition_5 generated limits-AreSet refl is_edition_5 is_generated

application_name :
    get_client_name (λ s. if str_eq s " Org " then "Org" else s) none (client ∷ []) ≡ some "Org"
unfolding get_client_name first_named
application_name = refl

application_url : application_url_in_client_report client ≡ some "https://github.com/x/1"
unfolding application_url_in_client_report get_client_application_url properties
application_url = refl

abbrev granted : List GrantedDatacap
granted =
    record { address_id = "f01"; allocation = 5; allocation_timestamp = 20 }
    ∷ record { address_id = "f01"; allocation = 7; allocation_timestamp = 30 }
    ∷ []

is_granted : get_granted_datacap_in_clients (client ∷ other ∷ []) ≡ some granted
unfolding get_granted_datacap_in_clients all_granted granted_items granted_item sort_granted
    insert_granted
is_granted = refl

get_granted_datacap_in_clients-total_example :
    IsSorted granted
    × ((id : String) → total_granted id granted ≡ total_allowance id (client ∷ other ∷ []))
get_granted_datacap_in_clients-total_example =
    get_granted_datacap_in_clients-total (client ∷ other ∷ []) granted is_granted

get_replication_distribution-shares_example :
    ((replica_rows ≢ [])
      × (total_of_replicas replica_rows ≡ 0)
      × (get_replication_distribution rationals replica_rows ≡ none))
    ⊎ (((replica_rows ≡ []) ⊎ (0 < 100))
        × (get_replication_distribution rationals replica_rows
            ≡ some (map (with_share rationals 100) replica_rows))
        × (sum_of_shares 100 replica_rows ≤ 10000))
get_replication_distribution-shares_example =
    get_replication_distribution-shares rationals rationals-IsFaithful replica_rows

-- The world counts the calls, and two of the ids fail.
abbrev generate : String → ℕ → ℕ × Generation
generate id n =
    (n + 1, if str_eq id "f03" then nothing else if str_eq id "f04" then rejected else found)

run_allocator_report_generation-Runs_example :
    (addresses : List String) × AreDifferent addresses
    × ((a : String) → includes addresses a ≡ includes ("f05" ∷ "f04" ∷ "f05" ∷ []) a)
    × Runs generate addresses 0
        (run_allocator_report_generation generate ("f05" ∷ "f04" ∷ "f05" ∷ []) 0)
run_allocator_report_generation-Runs_example =
    run_allocator_report_generation-Runs generate ("f05" ∷ "f04" ∷ "f05" ∷ []) 0

get_fil_plus_edition_by_timestamp-IsDated_example :
    (ms : ℕ) × (((1715000000 < 100000000000) × (ms ≡ 1715000000 * 1000))
      ⊎ ((100000000000 ≤ 1715000000) × (ms ≡ 1715000000)))
    × (e : FilPlusEdition) × (get_fil_plus_edition_by_timestamp 1715000000 ≡ some e)
    × IsDated ms e
get_fil_plus_edition_by_timestamp-IsDated_example =
    get_fil_plus_edition_by_timestamp-IsDated 1715000000

by_id : get_fil_plus_edition_by_id 5 ≡ some edition_5
unfolding get_fil_plus_edition_by_id
by_id = refl

get_aggregated_providers_reporting_status-counts_example :
    ((any (fails_twice rationals answers) ("f03" ∷ "f09" ∷ []) ≡ true)
      × (get_aggregated_providers_reporting_status rationals answers ("f03" ∷ "f09" ∷ []) ≡ none))
    ⊎ ((any (fails_twice rationals answers) ("f03" ∷ "f09" ∷ []) ≡ false)
        × (a : AggregatedStatus) × (get_aggregated_providers_reporting_status rationals answers
              ("f03" ∷ "f09" ∷ [])
            ≡ some a)
        × (a.total ≡ 2)
        × (a.misreporting + a.not_reporting + a.ok ≡ a.total))
get_aggregated_providers_reporting_status-counts_example =
    get_aggregated_providers_reporting_status-counts rationals answers ("f03" ∷ "f09" ∷ [])
