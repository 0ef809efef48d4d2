-- ===== src/ProvidersAndDeals/Providers.antt =====
-- The updates of providers, of src/po-rep-indexer/runners/po-rep-providers-and-deals.runner.ts.
use compliance_data_platform.Prelude.{
  ℕ, Bool, true, false, Option, none, some, List, [], ◌∷◌, String, ◌>>=◌,
}
use compliance_data_platform.Numbers.{pos}
use compliance_data_platform.FieldUpdates.{
  Update, undefined, increments, decrements, merge_big_int_field_update,
}
use compliance_data_platform.ProvidersAndDeals.Logs.{
  RegistryEvent, available_space_updated, capacity_committed, capacity_released, price_updated,
  pending_capacity_reserved, pending_capacity_released, provider_blocked, provider_unblocked,
  provider_paused, provider_unpaused, payee_updated, deal_duration_limits_updated,
  provider_registered, capabilities_updated,
}

-- `po_rep_storage_providerUpdateInput`: a field that is not set is `none`.
pub record ProviderUpdate : Type 0 where
  pub payee : Option String
  pub paused : Option Bool
  pub blocked : Option Bool
  pub available_bytes : Option ℕ
  pub committed_bytes : Update
  pub pending_bytes : Update
  pub price_per_sector_per_month : Option ℕ
  pub min_deal_duration_days : Option ℕ
  pub max_deal_duration_days : Option ℕ

-- `{}`
abbrev pub no_update : ProviderUpdate
no_update = record {
  payee = none;
  paused = none;
  blocked = none;
  available_bytes = none;
  committed_bytes = undefined;
  pending_bytes = undefined;
  price_per_sector_per_month = none;
  min_deal_duration_days = none;
  max_deal_duration_days = none;
}

unfoldable pub log_to_provider_update_input : ProviderUpdate → RegistryEvent → Option ProviderUpdate
log_to_provider_update_input u (available_space_updated n) =
    some (record u { available_bytes = some n })
log_to_provider_update_input u (capacity_committed n) = do
  committed ← merge_big_int_field_update u.committed_bytes (increments (some (pos n)))
  some (record u { committed_bytes = committed })
log_to_provider_update_input u (capacity_released n) = do
  committed ← merge_big_int_field_update u.committed_bytes (decrements (some (pos n)))
  some (record u { committed_bytes = committed })
log_to_provider_update_input u (price_updated n) =
    some (record u { price_per_sector_per_month = some n })
log_to_provider_update_input u (pending_capacity_reserved n) = do
  pending ← merge_big_int_field_update u.pending_bytes (increments (some (pos n)))
  some (record u { pending_bytes = pending })
log_to_provider_update_input u (pending_capacity_released n) = do
  pending ← merge_big_int_field_update u.pending_bytes (decrements (some (pos n)))
  some (record u { pending_bytes = pending })
log_to_provider_update_input u provider_blocked = some (record u { blocked = some true })
log_to_provider_update_input u provider_unblocked = some (record u { blocked = some false })
log_to_provider_update_input u provider_paused = some (record u { paused = some true })
log_to_provider_update_input u provider_unpaused = some (record u { paused = some false })
log_to_provider_update_input u (payee_updated p) = some (record u { payee = some p })
log_to_provider_update_input u (deal_duration_limits_updated least most) =
    some (record u { min_deal_duration_days = some least; max_deal_duration_days = some most })
log_to_provider_update_input u (provider_registered organization) = some u
log_to_provider_update_input u (capabilities_updated capabilities) = some u

-- `logsForProvider.reduce(this.logToProviderUpdateInput, {})`
unfoldable pub reduce_provider_logs : ProviderUpdate → List RegistryEvent → Option ProviderUpdate
reduce_provider_logs u [] = some u
reduce_provider_logs u (e ∷ es) = do
  u' ← log_to_provider_update_input u e
  reduce_provider_logs u' es
