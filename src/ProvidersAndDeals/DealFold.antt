-- ===== src/ProvidersAndDeals/DealFold.antt =====
-- One update of a deal for all its logs in a batch, against its logs one after the other, of
-- src/po-rep-indexer/runners/po-rep-providers-and-deals.runner.ts.
use compliance_data_platform.Tables.{or_kept}
use compliance_data_platform.Prelude.{◌≡◌, refl, ap, ◌∙◌, some, List, [], ◌∷◌}
use compliance_data_platform.ProvidersAndDeals.Logs.{
  MarketEvent, deal_proposal_created, deal_accepted, deal_completed, deal_terminated, deal_rejected,
  rail_id_updated, manifest_location_updated,
}
use compliance_data_platform.ProvidersAndDeals.Deals.{
  DealState, accepted, completed, rejected, terminated, DealUpdate, no_update,
  log_to_deal_update_input, reduce_deal_logs, event_name_to_deal_state,
}
use compliance_data_platform.ProvidersAndDeals.Rows.{Deal, write_deal}

-- What a log means for the deal that it is of.
unfoldable pub deal_step : MarketEvent → Deal → Deal
deal_step deal_accepted d = record d { state = accepted }
deal_step deal_completed d = record d { state = completed }
deal_step deal_rejected d = record d { state = rejected }
deal_step deal_terminated d = record d { state = terminated }
deal_step (rail_id_updated id) d = record d { rail_id = some id }
deal_step (manifest_location_updated l) d = record d { manifest_location = l }
deal_step (deal_proposal_created p) d = d

unfoldable pub deal_steps : List MarketEvent → Deal → Deal
deal_steps [] d = d
deal_steps (e ∷ es) d = deal_steps es (deal_step e d)

log-step :
    (u : DealUpdate) (e : MarketEvent) (d : Deal)
    → write_deal (log_to_deal_update_input u e) d ≡ deal_step e (write_deal u d)
unfolding write_deal log_to_deal_update_input deal_step
log-step u deal_accepted d = refl
log-step u e d = refl

reduce-steps :
    (u : DealUpdate) (es : List MarketEvent) (d : Deal)
    → write_deal (reduce_deal_logs u es) d ≡ deal_steps es (write_deal u d)
unfolding reduce_deal_logs deal_steps
reduce-steps u [] d = refl
reduce-steps u (e ∷ es) d =
    reduce-steps (log_to_deal_update_input u e) es d ∙ ap (deal_steps es) (log-step u e d)

-- Writing the update that is made of a deal's logs is the same as the effect of each log on the row,
-- in their order.
pub reduce_deal_logs-steps :
    (es : List MarketEvent) (d : Deal)
    → write_deal (reduce_deal_logs no_update es) d ≡ deal_steps es d
unfolding write_deal
reduce_deal_logs-steps es d = reduce-steps no_update es d

-- The state after the logs: that of the last log which is a change of state.
abbrev pub last_state : List MarketEvent → DealState → DealState
last_state [] s = s
last_state (e ∷ es) s = last_state es (or_kept (event_name_to_deal_state e) s)

pub deal_steps-last_state :
    (es : List MarketEvent) (d : Deal) → (deal_steps es d).state ≡ last_state es d.state
unfolding deal_steps deal_step event_name_to_deal_state
deal_steps-last_state [] d = refl
deal_steps-last_state (deal_accepted ∷ es) d = deal_steps-last_state es _
deal_steps-last_state (e ∷ es) d = deal_steps-last_state es _
