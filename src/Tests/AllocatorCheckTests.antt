-- ===== src/Tests/AllocatorCheckTests.antt =====
-- An allocator report of two clients, one of which has two allocators beside the automatic one.
use compliance_data_platform.Prelude.{
  List, ℕ, ◌≡◌, ◌≢◌, ◌↔◌, refl, true, false, some, none, [], ◌∷◌, String, length, arith, ap,
}
use compliance_data_platform.ClientReport.{Db}
use compliance_data_platform.Tranche.{FollowsSchedule}
use compliance_data_platform.AllocatorChecks.{ReportClient, AllocatorReport, AllocatorCheckResult}
use compliance_data_platform.AllocatorChecks.Clients.{
  clients_using_multiple_allocators, has_multiple_allocators,
}
use compliance_data_platform.AllocatorChecks.Schedule.{
  Registry, allocations_to_check, allocations_of, store_allocator_tranche_schedule_check,
}
use compliance_data_platform.AllocatorChecks.{check_index}
use compliance_data_platform.ClientReport.{
  ClientReport, CheckResult, multiple_allocators, inactivity,
}
use compliance_data_platform.AllocatorChecks.FromClients.{
  grouped_checks, active_results, inactivity_results, results_in, active_report, newest_report,
  newest, is_since, same_check,
}
use compliance_data_platform.AllocatorChecks.Store.{store_report_checks}
use compliance_data_platform.AllocatorChecks.Store.Kinds.{
  AreDistinct, store_report_checks-AreDistinct,
}
use compliance_data_platform.AllocatorChecks.Store.Verdicts.{tranche_schedule_check_iff}
use compliance_data_platform.Tests.Rationals.{rationals}

abbrev registry : Registry
registry = record {
  is_validated = λ a. true;
  order = λ l. l;
  total_requested_amount = λ c. some 100;
}

abbrev granting : AllocatorReport rationals
granting = record {
  id = "r";
  allocator = "f09";
  required_copies = some "2";
  clients =
      record { client_id = "f01"; allocators = "f0121877" ∷ "f09" ∷ []; replica_distribution = [] }
      ∷ record {
        client_id = "f02";
        allocators = "f08" ∷ "f0121877" ∷ "f09" ∷ [];
        replica_distribution =
            record { num_of_replicas = 1; percentage = record { plus = 30; minus = 0; den = 1 } }
            ∷ [];
      }
      ∷ [];
  client_allocations =
      record { client_id = "f01"; allocation = 90; timestamp = 1 }
      ∷ record { client_id = "f01"; allocation = 5; timestamp = 1752192000001 }
      ∷ record { client_id = "f01"; allocation = 12; timestamp = 1752192000002 }
      ∷ [];
}

abbrev no_rows : Db rationals
no_rows = record {
  client_report = [];
  provider_distribution = [];
  replica_distribution = [];
  cid_sharing = [];
  check_results = [];
}

only_f02 : clients_using_multiple_allocators rationals granting ≡ "f02" ∷ []
unfolding clients_using_multiple_allocators has_multiple_allocators
only_f02 = refl

two_left : length (allocations_to_check registry granting.client_allocations) ≡ 2
unfolding allocations_to_check
two_left = refl

some_left : allocations_to_check registry granting.client_allocations ≢ []
some_left e = omega (arith, two_left, ap length e)

store_report_checks-AreDistinct_example :
    AreDistinct rationals "r"
      (store_report_checks rationals
        (λ s. some (record { plus = 2; minus = 0; den = 1 }))
        registry
        0
        (some (record { plus = 20; minus = 0; den = 1 }))
        no_rows
        granting).0
store_report_checks-AreDistinct_example =
    store_report_checks-AreDistinct rationals (λ s. some (record { plus = 2; minus = 0; den = 1 }))
      registry 0 (some (record { plus = 20; minus = 0; den = 1 })) no_rows granting

tranche_schedule_check_iff_example :
    (row : AllocatorCheckResult rationals) × (store_allocator_tranche_schedule_check registry
        rationals granting
      ≡ some (row ∷ []))
    × ((clients : List (ReportClient rationals))
        → store_allocator_tranche_schedule_check registry rationals
            (record granting { clients = clients })
          ≡ some (row ∷ []))
    × (row.allocator_report_id ≡ "r")
    × ((row.result ≡ true) ↔ (
        (client : String)
        → FollowsSchedule 100 0 none
            (allocations_of client (allocations_to_check registry granting.client_allocations))))
tranche_schedule_check_iff_example =
    tranche_schedule_check_iff rationals registry granting refl some_left

-- The client f01 spent datacap at 50, the client f02 at 5; both reports fail the check on allocators.
abbrev report_of : ℕ → String → ℕ → ClientReport rationals
report_of id client spent = record {
  id = id;
  create_date = 60;
  client = client;
  client_address = client;
  allocators = [];
  allocator_required_copies = none;
  storage_provider_ids_declared = [];
  available_datacap = none;
  last_datacap_spent = some spent;
  last_datacap_received = none;
  low_replica_threshold = none;
  high_replica_threshold = none;
  expected_size_of_single_dataset = none;
  total_uniq_data_set_size = none;
}

abbrev failed : ℕ → CheckResult rationals
failed id = record {
  client_report_id = id;
  check = multiple_allocators;
  result = false;
  metadata = [];
}

abbrev two_reports : Db rationals
two_reports = record {
  client_report = report_of 1 "f01" 50 ∷ report_of 2 "f02" 5 ∷ [];
  provider_distribution = [];
  replica_distribution = [];
  cid_sharing = [];
  check_results = failed 1 ∷ failed 2 ∷ [];
}

one_counts :
    grouped_checks rationals 10 two_reports granting.clients multiple_allocators ≡ failed 1 ∷ []
unfolding grouped_checks active_results inactivity_results results_in active_report newest_report
    newest is_since same_check check_index
one_counts = refl

other_check : same_check multiple_allocators inactivity ≡ false
unfolding same_check check_index
other_check = refl
