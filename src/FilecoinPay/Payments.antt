-- ===== src/FilecoinPay/Payments.antt =====
-- The payments of a batch of logs, of src/po-rep-indexer/runners/filecoin-pay-indexer.runner.ts.
use compliance_data_platform.Prelude.{
  ℕ, ◌+◌, ◌≡◌, refl, ap, ◌∙◌, List, [], ◌∷◌, ◌++◌, ◌==◌, append-nil, arith, if◌then◌else◌,
}
use compliance_data_platform.Tables.{filter_map}
use compliance_data_platform.FilecoinPay.Logs.{
  Log, RailEvent, rail_one_time_payment_processed, rail_settled,
}
use compliance_data_platform.FilecoinPay.Rails.{total_paid}
use compliance_data_platform.FilecoinPay.Prepare.{
  Payment, DbOperation, create_payments, payments, one_time_payment, settlement,
  prepare_payments_creations,
}

-- What a log says was paid on a rail.
abbrev pub paid : ℕ → Log → ℕ
paid k l = elim l.event [
  | rail_one_time_payment_processed p ↦ if l.rail_id == k then total_paid p else 0
  | rail_settled s ↦ if l.rail_id == k then s.total_settled_amount else 0
  | _ ↦ 0
]

abbrev pub paid_in_logs : ℕ → List Log → ℕ
paid_in_logs k [] = 0
paid_in_logs k (l ∷ logs) = paid k l + paid_in_logs k logs

abbrev pub paid_in_rows : ℕ → List Payment → ℕ
paid_in_rows k [] = 0
paid_in_rows k (p ∷ ps) = (if p.rail_id == k then p.total_amount else 0) + paid_in_rows k ps

abbrev pub created_payments : List DbOperation → List Payment
created_payments [] = []
created_payments (create_payments ps ∷ os) = ps ++ created_payments os
created_payments (o ∷ os) = created_payments os

paid_in_rows-append :
    (k : ℕ) (xs ys : List Payment)
    → paid_in_rows k (xs ++ ys) ≡ paid_in_rows k xs + paid_in_rows k ys
paid_in_rows-append k [] ys = omega arith
paid_in_rows-append k (x ∷ xs) ys = omega (arith, paid_in_rows-append k xs ys)

by_kind : ℕ → List Log → ℕ
by_kind k logs =
    paid_in_rows k (filter_map one_time_payment logs) + paid_in_rows k (filter_map settlement logs)

by_kind-event :
    (k : ℕ) (logs : List Log) (l : Log) (e : RailEvent)
    → by_kind k (record l { event = e } ∷ logs) ≡ paid k (record l { event = e }) + by_kind k logs
unfolding by_kind filter_map
by_kind-event k logs l (rail_one_time_payment_processed p) = omega arith
by_kind-event k logs l (rail_settled s) = omega arith
by_kind-event k logs l e = omega arith

by_kind-paid : (k : ℕ) (logs : List Log) → by_kind k logs ≡ paid_in_logs k logs
unfolding by_kind filter_map
by_kind-paid k [] = omega arith
by_kind-paid k (l ∷ logs) =
    by_kind-event k logs l l.event ∙ ap (λ n. paid k l + n) (by_kind-paid k logs)

-- What a batch's payments add up to for a rail is what its logs say was paid on the rail, by one-time
-- payments and by settlements. For a one-time payment that is the amount of the payee with both fees.
pub prepare_payments_creations_total :
    (k : ℕ) (logs : List Log)
    → paid_in_rows k (created_payments (prepare_payments_creations logs)) ≡ paid_in_logs k logs
unfolding prepare_payments_creations by_kind
prepare_payments_creations_total k [] = refl
prepare_payments_creations_total k (l ∷ logs) =
    ap (paid_in_rows k) (append-nil (payments (l ∷ logs)))
    ∙ paid_in_rows-append k (filter_map one_time_payment (l ∷ logs))
        (filter_map settlement (l ∷ logs))
    ∙ by_kind-paid k (l ∷ logs)
