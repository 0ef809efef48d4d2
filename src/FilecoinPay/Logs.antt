-- ===== src/FilecoinPay/Logs.antt =====
-- The logs that src/po-rep-indexer/runners/filecoin-pay-indexer.runner.ts indexes, decoded.
use compliance_data_platform.Prelude.{ℕ, String, Bool}

pub record Creation : Type 0 where
  pub token : String
  pub payer : String
  pub payee : String
  pub operator : String
  pub validator : String
  pub commission_rate_bps : ℕ
  pub service_fee_recipient : String

pub record OneTimePayment : Type 0 where
  pub net_payee_amount : ℕ
  pub network_fee : ℕ
  pub operator_commission : ℕ

pub record Settlement : Type 0 where
  pub total_settled_amount : ℕ
  pub total_net_payee_amount : ℕ
  pub network_fee : ℕ
  pub operator_commission : ℕ
  pub settled_up_to : ℕ

-- `events`, each with its arguments but the rail.
pub data RailEvent : Type 0 where
  rail_created : Creation → RailEvent
  rail_lockup_modified : (new_lockup_period new_lockup_fixed : ℕ) → RailEvent
  rail_one_time_payment_processed : OneTimePayment → RailEvent
  rail_rate_modified : (old_rate new_rate : ℕ) → RailEvent
  rail_settled : Settlement → RailEvent
  rail_terminated : (end_epoch : ℕ) → RailEvent
  rail_finalized : RailEvent

pub record Log : Type 0 where
  pub address : String
  pub block_number : ℕ
  pub rail_id : ℕ
  pub event : RailEvent

-- viem's `isAddressEqual` and the configured address
pub record Contract : Type 0 where
  pub is_address_equal : String → String → Bool
  pub filecoin_pay : String
