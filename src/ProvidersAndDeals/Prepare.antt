-- ===== src/ProvidersAndDeals/Prepare.antt =====
-- `prepareUpdates` of src/po-rep-indexer/runners/po-rep-providers-and-deals.runner.ts: the database
-- operations for a batch of logs, in their order.
use compliance_data_platform.Prelude.{
  ℕ, Option, none, some, List, [], ◌∷◌, ◌++◌, map, filter, ◌>>=◌, if◌then◌else◌, String,
}
use compliance_data_platform.Tables.{unless_empty, filter_map, entries, is_key_in}
use compliance_data_platform.ProvidersAndDeals.Logs.{
  Log, registry, market, RegistryLog, MarketLog, Proposal, Capabilities, DealTerms, Chain,
  provider_registered, capabilities_updated, deal_proposal_created,
}
use compliance_data_platform.ProvidersAndDeals.Providers.{
  ProviderUpdate, no_update, reduce_provider_logs,
}
use compliance_data_platform.ProvidersAndDeals.Deals.{
  DealUpdate, StateChange, reduce_deal_logs, event_name_to_deal_state, no_update as no_deal_update,
}

-- A `PrismaPromise` of the list, by its table and method.
pub data DbOperation : Type 0 where
  create_providers : List (ℕ × String × ℕ) → DbOperation
  create_capabilities : List ℕ → DbOperation
  update_provider : ℕ → ProviderUpdate → DbOperation
  update_capabilities : ℕ → Capabilities → DbOperation
  create_deals : List (ℕ × Proposal) → DbOperation
  create_requirements : List (ℕ × Capabilities) → DbOperation
  create_terms : List DealTerms → DbOperation
  update_deal : ℕ → DealUpdate → DbOperation
  create_state_changes : List StateChange → DbOperation

-- `last(logs)` of logs that are not empty
unfoldable pub last_of : {A : Type 0} → A → List A → A
last_of x [] = x
last_of x (y ∷ ys) = last_of y ys

abbrev pub registration : RegistryLog → Option (ℕ × String × ℕ)
registration l = elim l.event [
  | provider_registered organization ↦ some (l.provider, organization, l.block_number)
  | _ ↦ none
]

abbrev pub capabilities_update : RegistryLog → Option (ℕ × Capabilities)
capabilities_update l = elim l.event [
  | capabilities_updated capabilities ↦ some (l.provider, capabilities)
  | _ ↦ none
]

abbrev pub proposal : MarketLog → Option (ℕ × Proposal)
proposal l = elim l.event [ deal_proposal_created p ↦ some (l.deal_id, p) | _ ↦ none ]

unfoldable pub update_each_provider : List (ℕ × List RegistryLog) → Option (List DbOperation)
update_each_provider [] = some []
update_each_provider ((id, logs) ∷ groups) = do
  u ← reduce_provider_logs no_update (map (λ l. l.event) logs)
  rest ← update_each_provider groups
  some (update_provider id u ∷ rest)

unfoldable pub update_each_capabilities : List (ℕ × List (ℕ × Capabilities)) → List DbOperation
update_each_capabilities [] = []
update_each_capabilities ((id, []) ∷ groups) = update_each_capabilities groups
update_each_capabilities ((id, u ∷ us) ∷ groups) =
    update_capabilities id ((last_of u us).1) ∷ update_each_capabilities groups

abbrev pub state_change : MarketLog → Option StateChange
state_change l = elim (event_name_to_deal_state l.event) [
  | none ↦ none
  | some s ↦ some (record { deal_id = l.deal_id; state = s; changed_at_block = l.block_number })
]

module _ (chain : Chain) where
  -- The log comes from the registry, and its event is one of the registry's.
  abbrev pub registry_log : Log → Option RegistryLog
  registry_log (registry l) =
      if chain.is_address_equal l.address chain.sp_registry then some l else none
  registry_log (market l) = none

  abbrev pub market_log : Log → Option MarketLog
  market_log (registry l) = none
  market_log (market l) =
      if chain.is_address_equal l.address chain.po_rep_market then some l else none

  unfoldable pub registry_logs : List Log → List RegistryLog
  registry_logs logs = filter_map registry_log logs

  unfoldable pub market_logs : List Log → List MarketLog
  market_logs logs = filter_map market_log logs

  unfoldable pub prepare_providers_creations : List Log → List DbOperation
  prepare_providers_creations logs =
      let registered = filter_map registration (registry_logs logs) in
      unless_empty registered
        (create_providers registered ∷ create_capabilities (map (λ r. r.0) registered) ∷ [])

  unfoldable pub prepare_providers_updates : List Log → Option (List DbOperation)
  prepare_providers_updates logs =
      update_each_provider (entries (λ l. l.provider) (registry_logs logs))

  unfoldable pub prepare_providers_capabilities_updates : List Log → List DbOperation
  prepare_providers_capabilities_updates logs =
      update_each_capabilities
        (entries (λ u. u.0) (filter_map capabilities_update (registry_logs logs)))

  unfoldable pub prepare_deals_creations : List Log → Option (List DbOperation)
  prepare_deals_creations logs = elim (filter_map proposal (market_logs logs)) [
    | [] ↦ some []
    | p ∷ ps ↦ (do
      all_deals ← chain.get_deals
      let new_deal_ids = map (λ q. q.0) (p ∷ ps)
      some (
          create_deals (p ∷ ps)
          ∷ create_requirements (map (λ q. (q.0, q.1.requirements)) (p ∷ ps))
          ∷ create_terms (filter (λ d. is_key_in d.deal_id new_deal_ids) all_deals)
          ∷ []))
  ]

  unfoldable pub prepare_deals_updates : List Log → List DbOperation
  prepare_deals_updates logs =
      map (λ g. update_deal g.0 (reduce_deal_logs no_deal_update (map (λ l. l.event) g.1)))
        (entries (λ l. l.deal_id) (market_logs logs))

  unfoldable pub prepare_deal_state_change_creations : List Log → List DbOperation
  prepare_deal_state_change_creations logs =
      let changes = filter_map state_change (market_logs logs) in
      unless_empty changes (create_state_changes changes ∷ [])

  unfoldable pub prepare_updates : List Log → Option (List DbOperation)
  prepare_updates logs = do
    deals_creations ← prepare_deals_creations logs
    providers_updates ← prepare_providers_updates logs
    some (
        prepare_providers_creations logs
        ++ providers_updates
        ++ prepare_providers_capabilities_updates logs
        ++ deals_creations
        ++ prepare_deals_updates logs
        ++ prepare_deal_state_change_creations logs)
