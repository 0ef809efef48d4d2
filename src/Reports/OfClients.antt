-- ===== src/Reports/OfClients.antt =====
-- `generateReport` of src/service/client-report/client-report.service.ts: the rows that it creates, and
-- the checks that it runs on them.
use compliance_data_platform.Prelude.{
  ℕ, zero, suc, ◌+◌, Option, none, some, List, [], ◌∷◌, ◌++◌, map, String, str_eq, find, ◌==◌, ◌&&◌,
  ◌||◌, ◌>>=◌, if◌then◌else◌,
}
use compliance_data_platform.Numbers.{Double}
use compliance_data_platform.ClientReport.{
  Db, ClientReport, ProviderDistribution, ReplicaDistribution, CidSharing,
}
use compliance_data_platform.ClientChecks.{Limits}
use compliance_data_platform.ClientChecks.Store.{Outside, store_report_checks}
use compliance_data_platform.Editions.{FilPlusEdition, get_fil_plus_edition_by_timestamp}
use compliance_data_platform.Reports.{ClientWithAllowance, first, main_allocator_id}
use compliance_data_platform.Reports.Distributions.{
  ReplicaRow, StorageProvider, ProviderServices, get_replication_distribution,
  get_storage_provider_distribution,
}

-- The fields of the bookkeeping information that the checks' columns come from.
pub record ClientBookkeepingInfo : Type 0 where
  pub storage_provider_ids_declared : List String
  pub expected_size_of_single_dataset : Option ℕ

pub record RegistryApplication : Type 0 where
  pub required_replicas : Option String

-- `return null`, the report that is found again by its id, or a rejection.
pub data Generated (F : Double) : Type 0 where
  not_found failed : Generated F
  report : ClientReport F → Generated F

-- What the databases and the other services answer; `none` is a rejection. `other_columns` are the
-- calls for columns that no check reads, together.
pub record ClientServices (F : Double) : Type 0 where
  pub get_client_data : String → Option (List ClientWithAllowance)
  pub provider_services : ProviderServices F
  pub replica_rows : String → Option (List ReplicaRow)
  pub cid_sharing_rows : String → Option (List String)
  pub get_allocator_registry_info : Option String → Option (Option RegistryApplication)
  pub get_client_bookkeeping_info : String → Option (Option ClientBookkeepingInfo)
  pub get_client_datacap : String → Option (Option ℕ)
  pub get_last_datacap_spent : String → Option (Option ℕ)
  pub get_last_datacap_received : String → Option (Option ℕ)
  pub other_columns : List ClientWithAllowance → Option (List String)

-- `clientData[0].allowanceArray?.[0]?.issueCreateTimestamp`
unfoldable pub application_timestamp : ClientWithAllowance → Option ℕ
application_timestamp client = elim client.allowance_array [
  | none ↦ none
  | some items ↦ elim (first items) [ none ↦ none | some item ↦ item.issue_create_timestamp ]
]

-- A timestamp of 0 counts as none.
unfoldable pub edition_of_application : ClientWithAllowance → Option FilPlusEdition
edition_of_application client = elim (application_timestamp client) [
  | none ↦ none
  | some zero ↦ none
  | some (suc n) ↦ get_fil_plus_edition_by_timestamp (suc n)
]

unfoldable pub unique_size_of : List ReplicaRow → ℕ
unique_size_of [] = 0
unique_size_of (r ∷ rows) = r.unique_data_size + unique_size_of rows

module _ (F : Double) (services : ClientServices F) where
  -- The rows of one `create`, with the id that the database gives and the current time.
  pub record Rows : Type 0 where
    pub client_report : ClientReport F
    pub provider_distribution : List (ProviderDistribution F)
    pub replica_distribution : List (ReplicaDistribution F)
    pub cid_sharing : List (CidSharing F)

  unfoldable pub provider_row : ℕ → StorageProvider F → ProviderDistribution F
  provider_row id p = record {
    client_report_id = id;
    provider = p.provider;
    total_deal_size = p.total_deal_size;
    unique_data_size = p.unique_data_size;
    location = p.location;
    ipni_reporting_status = some p.ipni_reporting_status;
    retrievability_success_rate_url_finder = p.retrievability_success_rate_url_finder;
  }

  -- What is awaited before the `create`.
  pub record Awaited : Type 0 where
    pub providers : List (StorageProvider F)
    pub replicas : List ReplicaRow
    pub distribution : List (ReplicaRow × F.carrier)
    pub sharing : List String
    pub registry : Option RegistryApplication
    pub bookkeeping : Option ClientBookkeepingInfo
    pub datacap : Option ℕ
    pub spent : Option ℕ
    pub received : Option ℕ

  abbrev pub allocators_of : List ClientWithAllowance → List String
  allocators_of clients = map (λ (c : ClientWithAllowance). c.verifier_address_id) clients

  unfoldable pub await_all : ClientWithAllowance → List ClientWithAllowance → Option Awaited
  await_all client others = do
    providers ← get_storage_provider_distribution F services.provider_services client.address_id
    replicas ← services.replica_rows client.address_id
    distribution ← get_replication_distribution F replicas
    sharing ← services.cid_sharing_rows client.address_id
    registry ←
        services.get_allocator_registry_info (main_allocator_id (allocators_of (client ∷ others)))
    bookkeeping ← services.get_client_bookkeeping_info client.address_id
    datacap ← services.get_client_datacap client.address_id
    spent ← services.get_last_datacap_spent client.address_id
    received ← services.get_last_datacap_received client.address_id
    columns ← services.other_columns (client ∷ others)
    some (record {
      providers = providers;
      replicas = replicas;
      distribution = distribution;
      sharing = sharing;
      registry = registry;
      bookkeeping = bookkeeping;
      datacap = datacap;
      spent = spent;
      received = received;
    })

  -- Declared ids that are missing are stored as no ids.
  unfoldable pub report_row :
      (id now : ℕ) → ClientWithAllowance → List ClientWithAllowance → Awaited → ClientReport F
  report_row id now client others a = record {
    id = id;
    create_date = now;
    client = client.address_id;
    client_address = client.address;
    allocators = allocators_of (client ∷ others);
    allocator_required_copies = elim a.registry [
      | none ↦ none
      | some application ↦ application.required_replicas
    ];
    storage_provider_ids_declared = elim a.bookkeeping [
      | none ↦ []
      | some info ↦ info.storage_provider_ids_declared
    ];
    available_datacap = a.datacap;
    last_datacap_spent = a.spent;
    last_datacap_received = a.received;
    low_replica_threshold = elim (edition_of_application client) [
      | none ↦ none
      | some e ↦ some e.low_replica_threshold
    ];
    high_replica_threshold = elim (edition_of_application client) [
      | none ↦ none
      | some e ↦ some e.high_replica_threshold
    ];
    expected_size_of_single_dataset = elim a.bookkeeping [
      | none ↦ none
      | some info ↦ info.expected_size_of_single_dataset
    ];
    total_uniq_data_set_size = some (unique_size_of a.replicas);
  }

  unfoldable pub rows_of :
      (id now : ℕ) → ClientWithAllowance → List ClientWithAllowance → Awaited → Rows
  rows_of id now client others a = record {
    client_report = report_row id now client others a;
    provider_distribution = map (provider_row id) a.providers;
    replica_distribution =
        map
          (λ (r : ReplicaRow × F.carrier). record {
            client_report_id = id;
            num_of_replicas = r.0.num_of_replicas;
            percentage = r.1;
          })
          a.distribution;
    cid_sharing = map (λ (c : String). record { client_report_id = id }) a.sharing;
  }

  unfoldable pub create_report : Rows → Db F → Db F
  create_report rows db = record db {
    client_report = rows.client_report ∷ db.client_report;
    provider_distribution = rows.provider_distribution ++ db.provider_distribution;
    replica_distribution = rows.replica_distribution ++ db.replica_distribution;
    cid_sharing = rows.cid_sharing ++ db.cid_sharing;
  }

  -- `getReport` with an id: ids are unique, so that the order by date has no effect.
  unfoldable pub get_report : String → ℕ → Db F → Option (ClientReport F)
  get_report client_id_or_address id db =
      find
        (λ (r : ClientReport F).
          r.id == id
          && (str_eq r.client client_id_or_address || str_eq r.client_address client_id_or_address))
        db.client_report

  -- `findFirst` answers null where there is no such row.
  abbrev pub found_report : Option (ClientReport F) → Generated F
  found_report none = not_found
  found_report (some r) = report r

  module _ (limits : Limits F) (outside : Outside F) where
    -- `create`, `storeReportChecks`, and `getReport` with the client and the id of the new row.
    unfoldable pub store_report : Rows → Db F → Db F × Generated F
    store_report rows db =
        let (checked, ended) =
          store_report_checks F limits outside rows.client_report.id (create_report rows db) in
        let found = get_report rows.client_report.client rows.client_report.id checked in
        (checked, if ended then found_report found else failed)

    unfoldable pub generate_report : (id now : ℕ) → String → Db F → Db F × Generated F
    generate_report id now client_id_or_address db =
        elim (services.get_client_data client_id_or_address) [
          | none ↦ (db, failed)
          | some [] ↦ (db, not_found)
          | some (client ∷ others) ↦ elim (await_all client others) [
            | none ↦ (db, failed)
            | some a ↦ store_report (rows_of id now client others a) db
          ]
        ]
