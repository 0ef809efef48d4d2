-- ===== src/ProvidersAndDeals/Deals.antt =====
-- The updates of deals and the changes of their states, of
-- src/po-rep-indexer/runners/po-rep-providers-and-deals.runner.ts.
use compliance_data_platform.Prelude.{ℕ, Option, none, some, List, [], ◌∷◌, String}
use compliance_data_platform.ProvidersAndDeals.Logs.{
  MarketEvent, deal_proposal_created, deal_accepted, deal_completed, deal_terminated, deal_rejected,
  rail_id_updated, manifest_location_updated,
}

-- `PoRepDealState`
pub data DealState : Type 0 where
  proposed accepted completed rejected terminated : DealState

-- `po_rep_dealUpdateInput`
pub record DealUpdate : Type 0 where
  pub state : Option DealState
  pub manifest_location : Option String
  pub rail_id : Option ℕ

abbrev pub no_update : DealUpdate
no_update = record { state = none; manifest_location = none; rail_id = none }

unfoldable pub log_to_deal_update_input : DealUpdate → MarketEvent → DealUpdate
log_to_deal_update_input u deal_accepted = record u { state = some accepted }
log_to_deal_update_input u (rail_id_updated id) = record u { rail_id = some id }
log_to_deal_update_input u deal_completed = record u { state = some completed }
log_to_deal_update_input u deal_rejected = record u { state = some rejected }
log_to_deal_update_input u deal_terminated = record u { state = some terminated }
log_to_deal_update_input u (manifest_location_updated l) = record u { manifest_location = some l }
log_to_deal_update_input u (deal_proposal_created p) = u

-- `logsForDeal.reduce(this.logToDealUpdateInput, {})`
unfoldable pub reduce_deal_logs : DealUpdate → List MarketEvent → DealUpdate
reduce_deal_logs u [] = u
reduce_deal_logs u (e ∷ es) = reduce_deal_logs (log_to_deal_update_input u e) es

unfoldable pub event_name_to_deal_state : MarketEvent → Option DealState
event_name_to_deal_state deal_rejected = some rejected
event_name_to_deal_state deal_accepted = some accepted
event_name_to_deal_state deal_completed = some completed
event_name_to_deal_state deal_terminated = some terminated
event_name_to_deal_state (rail_id_updated _) = none
event_name_to_deal_state (manifest_location_updated _) = none
event_name_to_deal_state (deal_proposal_created _) = none

-- A row of `po_rep_deal_state_change`.
pub record StateChange : Type 0 where
  pub deal_id : ℕ
  pub state : DealState
  pub changed_at_block : ℕ
