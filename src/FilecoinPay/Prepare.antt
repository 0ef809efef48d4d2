-- ===== src/FilecoinPay/Prepare.antt =====
-- `prepareUpdates` of src/po-rep-indexer/runners/filecoin-pay-indexer.runner.ts: the database operations
-- for a batch of logs, in their order.
use compliance_data_platform.Prelude.{
  ℕ, Bool, true, false, Option, none, some, List, [], ◌∷◌, ◌++◌, map, filter,
}
use compliance_data_platform.Tables.{unless_empty, filter_map, entries}
use compliance_data_platform.FilecoinPay.Logs.{
  Log, Contract, RailEvent, rail_created, rail_one_time_payment_processed, rail_settled,
}
use compliance_data_platform.FilecoinPay.Rails.{
  Rail, new_rail, RailUpdate, no_update, reduce_rail_logs, total_paid,
}

-- A row of `filecoin_pay_payment`, but for the random id that the database gives it.
pub record Payment : Type 0 where
  pub rail_id : ℕ
  pub total_amount : ℕ
  pub net_payee_amount : ℕ
  pub network_fee : ℕ
  pub operator_commission : ℕ
  pub one_time : Bool
  pub created_at_block : ℕ

-- A `PrismaPromise` of the list, by its table and method.
pub data DbOperation : Type 0 where
  create_rails : List (ℕ × Rail) → DbOperation
  update_rails : (rail_id : ℕ) → RailUpdate → DbOperation
  create_payments : List Payment → DbOperation

abbrev pub created_rail : Log → Option (ℕ × Rail)
created_rail l = elim l.event [
  | rail_created c ↦ some (l.rail_id, new_rail c l.block_number)
  | _ ↦ none
]

abbrev pub new_rails : List Log → List (ℕ × Rail)
new_rails logs = filter_map created_rail logs

unfoldable pub prepare_rails_creations : List Log → List DbOperation
prepare_rails_creations logs = unless_empty (new_rails logs) (create_rails (new_rails logs) ∷ [])

abbrev pub at_block : Log → ℕ × RailEvent
at_block l = (l.block_number, l.event)

unfoldable pub filecoin_pay_logs : Contract → List Log → List Log
filecoin_pay_logs contract logs =
    filter (λ l. contract.is_address_equal l.address contract.filecoin_pay) logs

unfoldable pub prepare_rail_updates : Contract → List Log → List DbOperation
prepare_rail_updates contract logs =
    map (λ g. update_rails g.0 (reduce_rail_logs no_update (map at_block g.1)))
      (entries (λ l. l.rail_id) (filecoin_pay_logs contract logs))

abbrev pub one_time_payment : Log → Option Payment
one_time_payment l = elim l.event [
  | rail_one_time_payment_processed p ↦ some (record {
    rail_id = l.rail_id;
    total_amount = total_paid p;
    net_payee_amount = p.net_payee_amount;
    network_fee = p.network_fee;
    operator_commission = p.operator_commission;
    one_time = true;
    created_at_block = l.block_number;
  })
  | _ ↦ none
]

abbrev pub settlement : Log → Option Payment
settlement l = elim l.event [
  | rail_settled s ↦ some (record {
    rail_id = l.rail_id;
    total_amount = s.total_settled_amount;
    net_payee_amount = s.total_net_payee_amount;
    network_fee = s.network_fee;
    operator_commission = s.operator_commission;
    one_time = false;
    created_at_block = l.block_number;
  })
  | _ ↦ none
]

abbrev pub payments : List Log → List Payment
payments logs = filter_map one_time_payment logs ++ filter_map settlement logs

unfoldable pub prepare_payments_creations : List Log → List DbOperation
prepare_payments_creations logs = unless_empty logs (create_payments (payments logs) ∷ [])

unfoldable pub prepare_updates : Contract → List Log → List DbOperation
prepare_updates contract logs =
    prepare_rails_creations logs
    ++ prepare_rail_updates contract logs
    ++ prepare_payments_creations logs
