-- ===== src/FilecoinPay/Rails.antt =====
-- The rows of rails (prisma/schema.prisma) and their updates, of
-- src/po-rep-indexer/runners/filecoin-pay-indexer.runner.ts.
use compliance_data_platform.Tables.{or_kept}
use compliance_data_platform.Prelude.{
  ℕ, ◌+◌, Bool, true, false, ◌&&◌, Option, none, some, List, [], ◌∷◌, String, ◌==◌, ltb,
}
use compliance_data_platform.Numbers.{ℤ, pos}
use compliance_data_platform.FilecoinPay.Logs.{
  RailEvent, Creation, OneTimePayment, rail_created, rail_lockup_modified,
  rail_one_time_payment_processed, rail_rate_modified, rail_settled, rail_terminated,
  rail_finalized,
}

pub record Rail : Type 0 where
  pub token : String
  pub from : String
  pub to : String
  pub operator : String
  pub validator : String
  pub payment_rate : ℕ
  pub lockup_period : ℕ
  pub lockup_fixed : ℤ
  pub settled_up_to : ℕ
  pub end_epoch : ℕ
  pub commission_rate_bps : ℕ
  pub service_fee_recipient : String
  pub finalized : Bool
  pub created_at_block : ℕ
  pub activated_at_block : ℕ

-- A row of `filecoin_pay_rail` as it is created, with its defaults.
unfoldable pub new_rail : Creation → (block_number : ℕ) → Rail
new_rail c block_number = record {
  token = c.token;
  from = c.payer;
  to = c.payee;
  operator = c.operator;
  validator = c.validator;
  payment_rate = 0;
  lockup_period = 0;
  lockup_fixed = pos 0;
  settled_up_to = block_number;
  end_epoch = 0;
  commission_rate_bps = c.commission_rate_bps;
  service_fee_recipient = c.service_fee_recipient;
  finalized = false;
  created_at_block = block_number;
  activated_at_block = 0;
}

-- An update of the decimal column `lockupFixed`: not set, a value, or `{ decrement }`.
pub data FixedUpdate : Type 0 where
  undefined : FixedUpdate
  value decrement : ℕ → FixedUpdate

-- `filecoin_pay_railUpdateManyMutationInput`: a field that is not set is `none`.
pub record RailUpdate : Type 0 where
  pub payment_rate : Option ℕ
  pub lockup_period : Option ℕ
  pub lockup_fixed : FixedUpdate
  pub settled_up_to : Option ℕ
  pub end_epoch : Option ℕ
  pub finalized : Option Bool
  pub activated_at_block : Option ℕ

-- `{}`
abbrev pub no_update : RailUpdate
no_update = record {
  payment_rate = none;
  lockup_period = none;
  lockup_fixed = undefined;
  settled_up_to = none;
  end_epoch = none;
  finalized = none;
  activated_at_block = none;
}

abbrev pub total_paid : OneTimePayment → ℕ
total_paid p = p.net_payee_amount + p.network_fee + p.operator_commission

-- The rate was 0 and is not any more.
abbrev pub activates : (old_rate new_rate : ℕ) → Bool
activates old_rate new_rate = (old_rate == 0) && ltb 0 new_rate

abbrev pub if_activated : Bool → ℕ → Option ℕ → Option ℕ
if_activated true block_number previous = some block_number
if_activated false block_number previous = previous

-- `logToRailUpdateInput` on a log of the block
unfoldable pub log_to_rail_update_input : RailUpdate → (block_number : ℕ) → RailEvent → RailUpdate
log_to_rail_update_input u block_number (rail_lockup_modified period fixed) = record u {
  lockup_period = some period;
  lockup_fixed = value fixed;
}
log_to_rail_update_input u block_number (rail_rate_modified old_rate new_rate) = record u {
  payment_rate = some new_rate;
  activated_at_block = if_activated (activates old_rate new_rate) block_number u.activated_at_block;
  settled_up_to = if_activated (activates old_rate new_rate) block_number u.settled_up_to;
}
log_to_rail_update_input u block_number (rail_settled s) = record u {
  settled_up_to = some s.settled_up_to;
}
log_to_rail_update_input u block_number (rail_terminated epoch) = record u {
  end_epoch = some epoch;
}
log_to_rail_update_input u block_number rail_finalized = record u {
  lockup_fixed = value 0;
  finalized = some true;
}
log_to_rail_update_input u block_number (rail_one_time_payment_processed p) = record u {
  lockup_fixed = decrement (total_paid p);
}
log_to_rail_update_input u block_number (rail_created c) = u

-- `logsForRail.reduce(this.logToRailUpdateInput, {})`
unfoldable pub reduce_rail_logs : RailUpdate → List (ℕ × RailEvent) → RailUpdate
reduce_rail_logs u [] = u
reduce_rail_logs u ((block_number, e) ∷ es) =
    reduce_rail_logs (log_to_rail_update_input u block_number e) es

-- The update of a row leaves the fields that are not set. `lower` is what the database does with a
-- decrement of a decimal column.
module _ (lower : ℕ → ℤ → ℤ) where
  abbrev pub write_fixed : FixedUpdate → ℤ → ℤ
  write_fixed undefined x = x
  write_fixed (value n) x = pos n
  write_fixed (decrement n) x = lower n x

  unfoldable pub write_rail : RailUpdate → Rail → Rail
  write_rail u r = record r {
    payment_rate = or_kept u.payment_rate r.payment_rate;
    lockup_period = or_kept u.lockup_period r.lockup_period;
    lockup_fixed = write_fixed u.lockup_fixed r.lockup_fixed;
    settled_up_to = or_kept u.settled_up_to r.settled_up_to;
    end_epoch = or_kept u.end_epoch r.end_epoch;
    finalized = or_kept u.finalized r.finalized;
    activated_at_block = or_kept u.activated_at_block r.activated_at_block;
  }
