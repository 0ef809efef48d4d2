-- ===== src/ProvidersAndDeals/Logs.antt =====
-- The logs that src/po-rep-indexer/runners/po-rep-providers-and-deals.runner.ts indexes, decoded.
use compliance_data_platform.Prelude.{ℕ, Bool, Option, List, String}

-- `capabilities` of a provider, and `requirements` of a deal.
pub record Capabilities : Type 0 where
  pub retrievability_bps : ℕ
  pub bandwidth_mbps : ℕ
  pub latency_ms : ℕ
  pub indexing_pct : ℕ

-- `spRegistryEvents`, each with its arguments but the provider.
pub data RegistryEvent : Type 0 where
  provider_registered : (organization : String) → RegistryEvent
  capabilities_updated : Capabilities → RegistryEvent
  available_space_updated : (available_bytes : ℕ) → RegistryEvent
  capacity_committed : (committed_bytes : ℕ) → RegistryEvent
  capacity_released : (released_bytes : ℕ) → RegistryEvent
  price_updated : (new_price : ℕ) → RegistryEvent
  pending_capacity_reserved : (size_bytes : ℕ) → RegistryEvent
  pending_capacity_released : (size_bytes : ℕ) → RegistryEvent
  provider_blocked provider_unblocked provider_paused provider_unpaused : RegistryEvent
  payee_updated : (new_payee : String) → RegistryEvent
  deal_duration_limits_updated : (min_deal_duration_days max_deal_duration_days : ℕ) → RegistryEvent

pub record Proposal : Type 0 where
  pub provider : ℕ
  pub client : String
  pub manifest_location : String
  pub total_deal_size : ℕ
  pub proposed_at_block : ℕ
  pub requirements : Capabilities

-- `poRepMarketEvents`, each with its arguments but the deal's id.
pub data MarketEvent : Type 0 where
  deal_proposal_created : Proposal → MarketEvent
  deal_accepted deal_completed deal_terminated deal_rejected : MarketEvent
  rail_id_updated : (rail_id : ℕ) → MarketEvent
  manifest_location_updated : (new_manifest_location : String) → MarketEvent

pub record RegistryLog : Type 0 where
  pub address : String
  pub block_number : ℕ
  pub provider : ℕ
  pub event : RegistryEvent

pub record MarketLog : Type 0 where
  pub address : String
  pub block_number : ℕ
  pub deal_id : ℕ
  pub event : MarketEvent

pub data Log : Type 0 where
  registry : RegistryLog → Log
  market : MarketLog → Log

-- A deal of the contract's `getDeals`.
pub record DealTerms : Type 0 where
  pub deal_id : ℕ
  pub deal_size_bytes : ℕ
  pub price_per_sector_per_month : ℕ
  pub duration_days : ℕ

-- The configured addresses, viem's `isAddressEqual`, and what the node answers to `getDeals`.
pub record Chain : Type 0 where
  pub sp_registry : String
  pub po_rep_market : String
  pub is_address_equal : String → String → Bool
  pub get_deals : Option (List DealTerms)
