-- ===== src/Tests/ProvidersAndDealsTests.antt =====
-- A provider that is registered, commits, releases and is paused, and a deal that is accepted.
use compliance_data_platform.Prelude.{
  ℕ, ◌≤◌, map, arith, ◌≡◌, ◌≢◌, refl, true, none, some, List, [], ◌∷◌, All,
}
use compliance_data_platform.Numbers.{ℤ, pos}
use compliance_data_platform.Numbers.Signed.{◌+ℤ◌, ◌-ℤ◌}
use compliance_data_platform.FieldUpdates.{
  Operations, multiplies, divides, merge_big_int_field_update,
}
use compliance_data_platform.FieldUpdates.Merge.{merge_factors_zero}
use compliance_data_platform.Tables.{lookup, or_else, filter_map, Table, put}
use compliance_data_platform.Tables.Updates.{map_option}
use compliance_data_platform.ProvidersAndDeals.Logs.{
  Log, registry, market, Chain, capacity_committed, provider_registered, capacity_released,
  provider_paused, deal_accepted, deal_proposal_created, deal_completed, rail_id_updated,
}
use compliance_data_platform.ProvidersAndDeals.Deals.{proposed}
use compliance_data_platform.ProvidersAndDeals.Rows.{new_capabilities, Provider, Deal, new_provider}
use compliance_data_platform.ProvidersAndDeals.Prepare.{
  prepare_updates, DbOperation, registry_logs, market_logs,
}
use compliance_data_platform.ProvidersAndDeals.ProviderFold.{IsColumn, provider_steps}
use compliance_data_platform.ProvidersAndDeals.DealFold.{deal_steps, last_state}
use compliance_data_platform.ProvidersAndDeals.Batches.{
  run_on_providers, run_on_deals, provider_events, deal_events,
}
use compliance_data_platform.Tables.Keys.{count_key}
use compliance_data_platform.ProvidersAndDeals.WholeBatch.{
  new_providers, prepare_updates-provider_steps,
}
use compliance_data_platform.ProvidersAndDeals.WholeDeals.{new_deals, prepare_updates-deal_steps}

abbrev column : Operations → ℤ → ℤ
column o x = elim o.increment [
  | some n ↦ x +ℤ n
  | none ↦ elim o.decrement [ some n ↦ x -ℤ n | none ↦ x ]
]

column-IsColumn : IsColumn column
column-IsColumn = record { increment = λ n x. refl; decrement = λ n x. refl }

abbrev chain : Chain
chain = record {
  sp_registry = "registry";
  po_rep_market = "market";
  is_address_equal = λ a b. true;
  get_deals = none;
}

abbrev committed : Log
committed = registry (record {
  address = "registry";
  block_number = 7;
  provider = 1000;
  event = capacity_committed 10;
})

abbrev released : Log
released = registry (record {
  address = "registry";
  block_number = 8;
  provider = 1000;
  event = capacity_released 4;
})

abbrev paused : Log
paused =
    registry
      (record { address = "registry"; block_number = 9; provider = 1000; event = provider_paused })

abbrev providers : Table Provider
providers = put 1000 (new_provider "organization" 5) (λ k. none)

there :
    All
      (λ l. providers l.provider ≢ none)
      (registry_logs chain (committed ∷ released ∷ paused ∷ []))
unfolding registry_logs filter_map
there = ((λ e. cc), ((λ e. cc), ((λ e. cc), tt)))

merge_factors_zero_example :
    (merge_big_int_field_update (multiplies (some (pos 2))) (multiplies (some (pos 3)))
      ≡ some (multiplies (some (pos 0))))
    × (merge_big_int_field_update (divides (some (pos 2))) (divides (some (pos 3)))
        ≡ some (divides (some (pos 0))))
merge_factors_zero_example = merge_factors_zero (pos 2) (pos 3)

abbrev deal : Deal
deal = record {
  provider_id = 1000;
  client = "client";
  state = proposed;
  manifest_location = "manifest";
  total_deal_size = 32;
  proposed_at_block = 5;
  rail_id = none;
}

abbrev deals : Table Deal
deals = put 3 deal (λ k. none)

abbrev accepted_log : Log
accepted_log =
    market (record { address = "market"; block_number = 8; deal_id = 3; event = deal_accepted })

abbrev completed_log : Log
completed_log =
    market (record { address = "market"; block_number = 9; deal_id = 3; event = deal_completed })

abbrev rail_log : Log
rail_log =
    market
      (record { address = "market"; block_number = 10; deal_id = 3; event = rail_id_updated 77 })

abbrev deal_logs : List Log
deal_logs = accepted_log ∷ completed_log ∷ rail_log ∷ []

abbrev answering : Chain
answering = record chain { get_deals = some [] }

abbrev registered : Log
registered = registry (record {
  address = "registry";
  block_number = 6;
  provider = 2000;
  event = provider_registered "organization";
})

abbrev committed_there : Log
committed_there = registry (record {
  address = "registry";
  block_number = 7;
  provider = 2000;
  event = capacity_committed 10;
})

abbrev new_logs : List Log
new_logs = registered ∷ committed_there ∷ paused ∷ []

answers : answering.get_deals ≢ none
answers e = cc

once : (k : ℕ) → count_key k (map (λ r. r.0) (new_providers answering new_logs)) ≤ 1
unfolding registry_logs filter_map
once k = ground arith

free : All (λ r. providers r.0 ≡ none) (new_providers answering new_logs)
unfolding registry_logs filter_map
free = (refl, tt)

known :
    All
      (λ l.
        or_else (lookup l.provider (new_providers answering new_logs)) (providers l.provider)
        ≢ none)
      (registry_logs answering new_logs)
unfolding registry_logs filter_map lookup
known = ((λ e. cc), ((λ e. cc), ((λ e. cc), tt)))

prepare_updates-provider_steps_example :
    (ops : List DbOperation) × (prepare_updates answering new_logs ≡ some ops)
    × (t' : Table Provider) × (run_on_providers column ops providers ≡ some t')
    × ((k : ℕ)
        → t' k
          ≡ map_option
              (provider_steps (provider_events k (registry_logs answering new_logs)))
              (or_else (lookup k (new_providers answering new_logs)) (providers k)))
prepare_updates-provider_steps_example =
    prepare_updates-provider_steps column column-IsColumn answering new_logs providers answers once
      free known

abbrev proposed_log : Log
proposed_log = market (record {
  address = "market";
  block_number = 8;
  deal_id = 4;
  event = deal_proposal_created (record {
    provider = 1000;
    client = "client";
    manifest_location = "manifest";
    total_deal_size = 64;
    proposed_at_block = 8;
    requirements = new_capabilities;
  });
})

abbrev accepted_new : Log
accepted_new =
    market (record { address = "market"; block_number = 9; deal_id = 4; event = deal_accepted })

abbrev new_deal_logs : List Log
new_deal_logs = proposed_log ∷ accepted_new ∷ accepted_log ∷ completed_log ∷ rail_log ∷ []

deals_once : (k : ℕ) → count_key k (map (λ r. r.0) (new_deals answering new_deal_logs)) ≤ 1
unfolding market_logs filter_map
deals_once k = ground arith

deals_free : All (λ r. deals r.0 ≡ none) (new_deals answering new_deal_logs)
unfolding market_logs filter_map
deals_free = (refl, tt)

deals_known :
    All
      (λ l. or_else (lookup l.deal_id (new_deals answering new_deal_logs)) (deals l.deal_id) ≢ none)
      (market_logs answering new_deal_logs)
unfolding market_logs filter_map lookup
deals_known = ((λ e. cc), ((λ e. cc), ((λ e. cc), ((λ e. cc), ((λ e. cc), tt)))))

prepare_updates-deal_steps_example :
    (ops : List DbOperation) × (prepare_updates answering new_deal_logs ≡ some ops)
    × (t' : Table Deal) × (run_on_deals ops deals ≡ some t')
    × ((k : ℕ)
        → t' k
          ≡ map_option
              (deal_steps (deal_events k (market_logs answering new_deal_logs)))
              (or_else (lookup k (new_deals answering new_deal_logs)) (deals k)))
    × ((k : ℕ)
        → map_option (λ d. d.state) (t' k)
          ≡ map_option
              (λ d. last_state (deal_events k (market_logs answering new_deal_logs)) d.state)
              (or_else (lookup k (new_deals answering new_deal_logs)) (deals k)))
prepare_updates-deal_steps_example =
    prepare_updates-deal_steps answering new_deal_logs deals answers deals_once deals_free
      deals_known
