-- ===== src/Reports/Distributions.antt =====
-- The distributions of a report: the replicas of a client with their shares, of
-- src/service/client/client.service.ts, the storage providers of a client, of
-- src/service/storage-provider-report/storage-provider-report.service.ts, and those of an allocator's
-- clients with their shares, of src/service/allocator-report/allocator-report.service.ts.
use compliance_data_platform.Prelude.{ℕ, ◌+◌, ◌*◌, Option, some, List, [], ◌∷◌, ◌++◌, String, ◌>>=◌}
use compliance_data_platform.Numbers.{Double, pos, big_int_div}
use compliance_data_platform.ClientReport.{IpniReportingStatus, Location}
use compliance_data_platform.Misreporting.{Answers, get_provider_reporting_status}

-- A row of `client_replica_distribution`.
pub record ReplicaRow : Type 0 where
  pub num_of_replicas : ℕ
  pub total_deal_size : ℕ
  pub unique_data_size : ℕ

-- A row of `client_provider_distribution`.
pub record ClientProviderRow : Type 0 where
  pub provider : String
  pub total_deal_size : ℕ
  pub unique_data_size : ℕ

-- What Lotus answers for a storage provider.
pub record MinerInfo : Type 0 where
  pub peer_id : Option String
  pub multiaddrs : List String

-- All calls of a list, or none if one is rejected.
unfoldable pub all_settled {ℓ κ} :
    {A : Type ℓ} {B : Type κ} → (A → Option B) → List A → Option (List B)
all_settled f [] = some []
all_settled f (x ∷ xs) = do y ← f x; ys ← all_settled f xs; some (y ∷ ys)

abbrev pub total_of_replicas : List ReplicaRow → ℕ
total_of_replicas [] = 0
total_of_replicas (r ∷ rows) = r.total_deal_size + total_of_replicas rows

module _ (F : Double) where
  -- `total_deal_size * 100n` of the total, with two places; the total is that of the rows.
  unfoldable pub share_of : ℕ → ℕ → Option F.carrier
  share_of total size = big_int_div F (pos (size * 100)) total

  unfoldable pub get_replication_distribution :
      List ReplicaRow → Option (List (ReplicaRow × F.carrier))
  get_replication_distribution distribution =
      all_settled
        (λ (r : ReplicaRow). do
          percentage ← share_of (total_of_replicas distribution) r.total_deal_size
          some (r, percentage))
        distribution

  pub record StorageProvider : Type 0 where
    pub provider : String
    pub total_deal_size : ℕ
    pub unique_data_size : ℕ
    pub ipni_reporting_status : IpniReportingStatus
    pub retrievability_success_rate_url_finder : Option F.carrier
    pub location : Option Location

  -- The services that are asked about a storage provider; `none` is a rejection.
  pub record ProviderServices : Type 0 where
    pub rows : String → Option (List ClientProviderRow)
    pub get_miner_info : String → Option MinerInfo
    pub answers : Answers
    pub get_location : List String → Option (Option Location)
    pub retrievability_success_rate : String → Option (Option F.carrier)

  module _ (services : ProviderServices) where
    unfoldable pub storage_provider_of : ClientProviderRow → Option StorageProvider
    storage_provider_of row = do
      miner_info ← services.get_miner_info row.provider
      reporting ←
          get_provider_reporting_status F services.answers 0 row.provider (some miner_info.peer_id)
      location ← services.get_location miner_info.multiaddrs
      rate ← services.retrievability_success_rate row.provider
      some (record {
        provider = row.provider;
        total_deal_size = row.total_deal_size;
        unique_data_size = row.unique_data_size;
        ipni_reporting_status = reporting.status;
        retrievability_success_rate_url_finder = rate;
        location = location;
      })

    unfoldable pub get_storage_provider_distribution : String → Option (List StorageProvider)
    get_storage_provider_distribution client_id = do
      rows ← services.rows client_id
      all_settled storage_provider_of rows

    -- The loop of the allocator report over its clients.
    unfoldable pub providers_of_clients : List String → Option (List StorageProvider)
    providers_of_clients [] = some []
    providers_of_clients (client_id ∷ client_ids) = do
      providers ← get_storage_provider_distribution client_id
      others ← providers_of_clients client_ids
      some (providers ++ others)

    abbrev pub total_datacap : List StorageProvider → ℕ
    total_datacap [] = 0
    total_datacap (p ∷ providers) = p.total_deal_size + total_datacap providers

    -- Each provider with its `perc_of_total_datacap`.
    unfoldable pub get_allocator_storage_provider_distribution :
        List String → Option (List (StorageProvider × F.carrier))
    get_allocator_storage_provider_distribution client_ids = do
      providers ← providers_of_clients client_ids
      all_settled
          (λ (p : StorageProvider). do
            perc ← share_of (total_datacap providers) p.total_deal_size
            some (p, perc))
          providers
