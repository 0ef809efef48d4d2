-- ===== src/Tests/FilecoinPayTests.antt =====
-- A rail that is created, locked up and given a rate in a batch, and one that is paid twice.
use compliance_data_platform.Prelude.{
  Bool, filter, ℕ, ◌≡◌, ◌≤◌, refl, true, false, none, some, List, [], ◌∷◌, ◌++◌, map, All, arith,
  ◌==◌,
}
use compliance_data_platform.Numbers.{ℤ, pos}
use compliance_data_platform.Numbers.Signed.{◌-ℤ◌}
use compliance_data_platform.Tables.{Table, lookup, or_else, filter_map}
use compliance_data_platform.Tables.Keys.{count_key}
use compliance_data_platform.Tables.Updates.{map_option}
use compliance_data_platform.FilecoinPay.Logs.{
  Log, Contract, Creation, RailEvent, OneTimePayment, rail_created, rail_lockup_modified,
  rail_rate_modified, rail_one_time_payment_processed,
}
use compliance_data_platform.FilecoinPay.Rails.{
  Rail, new_rail, no_update, reduce_rail_logs, write_rail, total_paid,
}
use compliance_data_platform.FilecoinPay.Prepare.{
  at_block, new_rails, filecoin_pay_logs, prepare_updates, prepare_payments_creations,
}
use compliance_data_platform.FilecoinPay.RailFold.{rail_steps, pays_first, last_payment_forgets}
use compliance_data_platform.FilecoinPay.Batches.{
  rail_events, run_on_rails, prepare_updates-rail_steps,
}
use compliance_data_platform.FilecoinPay.Payments.{
  paid_in_rows, paid_in_logs, created_payments, prepare_payments_creations_total,
}

abbrev lower : ℕ → ℤ → ℤ
lower n x = x -ℤ pos n

lowers : (n : ℕ) (x : ℤ) → lower n x ≡ x -ℤ pos n
lowers n x = refl

abbrev contract : Contract
contract = record { is_address_equal = λ a b. true; filecoin_pay = "pay" }

abbrev creation : Creation
creation = record {
  token = "token";
  payer = "payer";
  payee = "payee";
  operator = "operator";
  validator = "validator";
  commission_rate_bps = 50;
  service_fee_recipient = "recipient";
}

abbrev log_of : ℕ → RailEvent → Log
log_of n e = record { address = "pay"; block_number = n; rail_id = 7; event = e }

abbrev payment : OneTimePayment
payment = record { net_payee_amount = 90; network_fee = 1; operator_commission = 9 }

abbrev paying : Log
paying = log_of 11 (rail_one_time_payment_processed payment)

abbrev logs : List Log
logs =
    log_of 10 (rail_created creation)
    ∷ paying
    ∷ log_of 12 (rail_lockup_modified 30 500)
    ∷ log_of 13 (rail_rate_modified 0 4)
    ∷ []

abbrev no_rails : Table Rail
no_rails k = none

once : (k : ℕ) → count_key k (map (λ r. r.0) (new_rails logs)) ≤ 1
unfolding filter_map
once k = ground arith

free : All (λ r. no_rails r.0 ≡ none) (new_rails logs)
unfolding filter_map
free = (refl, tt)

of_test : (b : Bool) → pays_first false (map at_block (filter (λ l. b) logs)) ≡ true
unfolding pays_first
of_test true = refl
of_test false = refl

first : (k : ℕ) → pays_first false (rail_events k (filecoin_pay_logs contract logs)) ≡ true
unfolding filecoin_pay_logs
first k = of_test (7 == k)

prepare_updates-rail_steps_example :
    (t' : Table Rail) × (run_on_rails lower (prepare_updates contract logs) no_rails ≡ some t')
    × ((k : ℕ)
        → t' k
          ≡ map_option
              (rail_steps (rail_events k (filecoin_pay_logs contract logs)))
              (or_else (lookup k (new_rails logs)) (no_rails k)))
prepare_updates-rail_steps_example =
    prepare_updates-rail_steps lower lowers contract logs no_rails once free first

abbrev rail : Rail
rail = new_rail creation 10

last_payment_forgets_example :
    ((write_rail lower
        (reduce_rail_logs no_update (
          ((11, rail_one_time_payment_processed payment) ∷ [])
          ++ ((12, rail_one_time_payment_processed payment) ∷ [])))
        rail).lockup_fixed
      ≡ rail.lockup_fixed -ℤ pos (total_paid payment))
    × ((rail_steps
          (((11, rail_one_time_payment_processed payment) ∷ [])
            ++ ((12, rail_one_time_payment_processed payment) ∷ []))
          rail).lockup_fixed
        ≡ (rail_steps ((11, rail_one_time_payment_processed payment) ∷ []) rail).lockup_fixed
          -ℤ pos (total_paid payment))
last_payment_forgets_example =
    last_payment_forgets lower lowers ((11, rail_one_time_payment_processed payment) ∷ []) 12
      payment rail

prepare_payments_creations_total_example :
    paid_in_rows 7 (created_payments (prepare_payments_creations logs)) ≡ paid_in_logs 7 logs
prepare_payments_creations_total_example = prepare_payments_creations_total 7 logs
