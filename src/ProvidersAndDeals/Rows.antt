-- ===== src/ProvidersAndDeals/Rows.antt =====
-- The rows of providers and deals in the database (prisma/schema.prisma), and what an update writes.
use compliance_data_platform.Tables.{or_kept}
use compliance_data_platform.Prelude.{ℕ, Bool, false, Option, none, some, String}
use compliance_data_platform.Numbers.{ℤ, pos}
use compliance_data_platform.FieldUpdates.{Update, undefined, value, operations, Operations}
use compliance_data_platform.ProvidersAndDeals.Logs.{Capabilities, Proposal}
use compliance_data_platform.ProvidersAndDeals.Providers.{ProviderUpdate}
use compliance_data_platform.ProvidersAndDeals.Deals.{DealState, DealUpdate, proposed}

pub record Provider : Type 0 where
  pub organization : String
  pub payee : String
  pub paused : Bool
  pub blocked : Bool
  pub available_bytes : ℤ
  pub committed_bytes : ℤ
  pub pending_bytes : ℤ
  pub price_per_sector_per_month : ℕ
  pub min_deal_duration_days : ℕ
  pub max_deal_duration_days : ℕ
  pub registered_at_block : ℕ

pub record Deal : Type 0 where
  pub provider_id : ℕ
  pub client : String
  pub state : DealState
  pub manifest_location : String
  pub total_deal_size : ℕ
  pub proposed_at_block : ℕ
  pub rail_id : Option ℕ

abbrev pub zero_address : String
zero_address = "0x0000000000000000000000000000000000000000"

-- A row of `po_rep_storage_provider` with its defaults.
abbrev pub new_provider : (organization : String) (registered_at_block : ℕ) → Provider
new_provider organization registered_at_block = record {
  organization = organization;
  payee = zero_address;
  paused = false;
  blocked = false;
  available_bytes = pos 0;
  committed_bytes = pos 0;
  pending_bytes = pos 0;
  price_per_sector_per_month = 0;
  min_deal_duration_days = 0;
  max_deal_duration_days = 0;
  registered_at_block = registered_at_block;
}

-- A row of `po_rep_storage_provider_capabilities` with its defaults.
abbrev pub new_capabilities : Capabilities
new_capabilities = record {
  retrievability_bps = 0;
  bandwidth_mbps = 0;
  latency_ms = 0;
  indexing_pct = 0;
}

abbrev pub new_deal : Proposal → Deal
new_deal p = record {
  provider_id = p.provider;
  client = p.client;
  state = proposed;
  manifest_location = p.manifest_location;
  total_deal_size = p.total_deal_size;
  proposed_at_block = p.proposed_at_block;
  rail_id = none;
}

-- The update of a row leaves the fields that are not set. `column` is what the database does with
-- operations on a bigint column.
module _ (column : Operations → ℤ → ℤ) where
  abbrev pub write_field : Update → ℤ → ℤ
  write_field undefined x = x
  write_field (value v) x = v
  write_field (operations o) x = column o x

  unfoldable pub write_provider : ProviderUpdate → Provider → Provider
  write_provider u p = record p {
    payee = or_kept u.payee p.payee;
    paused = or_kept u.paused p.paused;
    blocked = or_kept u.blocked p.blocked;
    available_bytes = elim u.available_bytes [ none ↦ p.available_bytes | some n ↦ pos n ];
    committed_bytes = write_field u.committed_bytes p.committed_bytes;
    pending_bytes = write_field u.pending_bytes p.pending_bytes;
    price_per_sector_per_month = or_kept u.price_per_sector_per_month p.price_per_sector_per_month;
    min_deal_duration_days = or_kept u.min_deal_duration_days p.min_deal_duration_days;
    max_deal_duration_days = or_kept u.max_deal_duration_days p.max_deal_duration_days;
  }

unfoldable pub write_deal : DealUpdate → Deal → Deal
write_deal u d = record d {
  state = or_kept u.state d.state;
  manifest_location = or_kept u.manifest_location d.manifest_location;
  rail_id = elim u.rail_id [ none ↦ d.rail_id | some r ↦ some r ];
}
