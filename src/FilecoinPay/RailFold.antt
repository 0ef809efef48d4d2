-- ===== src/FilecoinPay/RailFold.antt =====
-- One update of a rail for all its logs in a batch, against its logs one after the other, of
-- src/po-rep-indexer/runners/filecoin-pay-indexer.runner.ts.
use compliance_data_platform.Prelude.{
  ℕ, ◌≡◌, refl, ap, ◌∙◌, Bool, true, false, not, ◌&&◌, List, [], ◌∷◌, ◌++◌, false≢true, Bool-cases,
  inl, inr, if◌then◌else◌,
}
use compliance_data_platform.Numbers.{ℤ, pos}
use compliance_data_platform.Numbers.Signed.{◌-ℤ◌}
use compliance_data_platform.FilecoinPay.Logs.{
  RailEvent, OneTimePayment, rail_created, rail_lockup_modified, rail_one_time_payment_processed,
  rail_rate_modified, rail_settled, rail_terminated, rail_finalized,
}
use compliance_data_platform.FilecoinPay.Rails.{
  Rail, RailUpdate, no_update, undefined, total_paid, activates, log_to_rail_update_input,
  reduce_rail_logs, write_rail,
}

-- What a log of a block means for the rail that it is of.
unfoldable pub rail_step : (block_number : ℕ) → RailEvent → Rail → Rail
rail_step block_number (rail_created c) r = r
rail_step block_number (rail_lockup_modified period fixed) r = record r {
  lockup_period = period;
  lockup_fixed = pos fixed;
}
rail_step block_number (rail_one_time_payment_processed p) r = record r {
  lockup_fixed = r.lockup_fixed -ℤ pos (total_paid p);
}
rail_step block_number (rail_rate_modified old_rate new_rate) r =
    if activates old_rate new_rate
    then record r {
      payment_rate = new_rate;
      activated_at_block = block_number;
      settled_up_to = block_number;
    }
    else record r { payment_rate = new_rate }
rail_step block_number (rail_settled s) r = record r { settled_up_to = s.settled_up_to }
rail_step block_number (rail_terminated epoch) r = record r { end_epoch = epoch }
rail_step block_number rail_finalized r = record r { lockup_fixed = pos 0; finalized = true }

unfoldable pub rail_steps : List (ℕ × RailEvent) → Rail → Rail
rail_steps [] r = r
rail_steps ((n, e) ∷ es) r = rail_steps es (rail_step n e r)

-- No one-time payment comes after a log that changes the fixed lockup, another payment included.
unfoldable pub pays_first : (touched : Bool) → List (ℕ × RailEvent) → Bool
pays_first touched [] = true
pays_first touched ((n, rail_one_time_payment_processed p) ∷ es) = not touched && pays_first true es
pays_first touched ((n, rail_lockup_modified period fixed) ∷ es) = pays_first true es
pays_first touched ((n, rail_finalized) ∷ es) = pays_first true es
pays_first touched ((n, e) ∷ es) = pays_first touched es

module _ (lower : ℕ → ℤ → ℤ) (lowers : (n : ℕ) (x : ℤ) → lower n x ≡ x -ℤ pos n) where
  write_rate :
      (u : RailUpdate) (n old_rate new_rate : ℕ) (r : Rail)
      → write_rail lower (log_to_rail_update_input u n (rail_rate_modified old_rate new_rate)) r
        ≡ rail_step n (rail_rate_modified old_rate new_rate) (write_rail lower u r)
  unfolding write_rail log_to_rail_update_input rail_step
  write_rate u n old_rate new_rate r = elim (Bool-cases (activates old_rate new_rate)) [
    | inl e ↦ rw e refl
    | inr e ↦ rw e refl
  ]

  payment :
      (u : RailUpdate) (n : ℕ) (p : OneTimePayment) (r : Rail)
      → u.lockup_fixed ≡ undefined
      → write_rail lower (log_to_rail_update_input u n (rail_one_time_payment_processed p)) r
        ≡ rail_step n (rail_one_time_payment_processed p) (write_rail lower u r)
  unfolding write_rail log_to_rail_update_input rail_step
  payment u n p r kept = rw kept (
      ap (λ z. record (write_rail lower u r) { lockup_fixed = z })
        (lowers (total_paid p) r.lockup_fixed))

  reduce-steps :
      (touched : Bool) (es : List (ℕ × RailEvent)) (u : RailUpdate)
      → pays_first touched es ≡ true
      → (touched ≡ false → u.lockup_fixed ≡ undefined)
      → (r : Rail)
      → write_rail lower (reduce_rail_logs u es) r ≡ rail_steps es (write_rail lower u r)
  unfolding reduce_rail_logs rail_steps pays_first write_rail log_to_rail_update_input rail_step
  reduce-steps touched [] u first kept r = refl
  reduce-steps true ((n, rail_one_time_payment_processed p) ∷ es) u first kept r =
      absurd (false≢true first)
  reduce-steps false ((n, rail_one_time_payment_processed p) ∷ es) u first kept r =
      reduce-steps true es _ first (λ h. cc) r ∙ ap (rail_steps es) (payment u n p r (kept refl))
  reduce-steps touched ((n, rail_lockup_modified period fixed) ∷ es) u first kept r =
      reduce-steps true es _ first (λ h. cc) r
  reduce-steps touched ((n, rail_finalized) ∷ es) u first kept r =
      reduce-steps true es _ first (λ h. cc) r
  reduce-steps touched ((n, rail_rate_modified old_rate new_rate) ∷ es) u first kept r =
      reduce-steps touched es _ first kept r
      ∙ ap (rail_steps es) (write_rate u n old_rate new_rate r)
  reduce-steps touched ((n, rail_created c) ∷ es) u first kept r =
      reduce-steps touched es _ first kept r
  reduce-steps touched ((n, rail_settled s) ∷ es) u first kept r =
      reduce-steps touched es _ first kept r
  reduce-steps touched ((n, rail_terminated epoch) ∷ es) u first kept r =
      reduce-steps touched es _ first kept r

  -- Writing the update that is made of a rail's logs is the same as the effect of each log on the row,
  -- in their order, when no one-time payment comes after a log that changes the fixed lockup.
  pub reduce_rail_logs-steps :
      (es : List (ℕ × RailEvent))
      → pays_first false es ≡ true
      → (r : Rail) → write_rail lower (reduce_rail_logs no_update es) r ≡ rail_steps es r
  unfolding write_rail
  reduce_rail_logs-steps es first r = reduce-steps false es no_update first (λ h. refl) r

  reduce_rail_logs-append :
      (u : RailUpdate) (es ds : List (ℕ × RailEvent))
      → reduce_rail_logs u (es ++ ds) ≡ reduce_rail_logs (reduce_rail_logs u es) ds
  unfolding reduce_rail_logs
  reduce_rail_logs-append u [] ds = refl
  reduce_rail_logs-append u ((n, e) ∷ es) ds =
      reduce_rail_logs-append (log_to_rail_update_input u n e) es ds

  rail_steps-append :
      (es ds : List (ℕ × RailEvent)) (r : Rail)
      → rail_steps (es ++ ds) r ≡ rail_steps ds (rail_steps es r)
  unfolding rail_steps
  rail_steps-append [] ds r = refl
  rail_steps-append ((n, e) ∷ es) ds r = rail_steps-append es ds (rail_step n e r)

  -- When a one-time payment is the last log of a rail in a batch, and a decrement of a column
  -- subtracts: the update takes the payment off the fixed lockup that the rail had before the batch,
  -- while the logs one by one take it off the lockup that the other logs of the batch leave.
  pub last_payment_forgets :
      (es : List (ℕ × RailEvent)) (n : ℕ) (p : OneTimePayment) (r : Rail)
      → ((write_rail lower
            (reduce_rail_logs no_update (es ++ ((n, rail_one_time_payment_processed p) ∷ [])))
            r).lockup_fixed
          ≡ r.lockup_fixed -ℤ pos (total_paid p))
        × ((rail_steps (es ++ ((n, rail_one_time_payment_processed p) ∷ [])) r).lockup_fixed
            ≡ (rail_steps es r).lockup_fixed -ℤ pos (total_paid p))
  unfolding reduce_rail_logs rail_steps write_rail log_to_rail_update_input rail_step
  last_payment_forgets es n p r = (
    rw (reduce_rail_logs-append no_update es ((n, rail_one_time_payment_processed p) ∷ []))
        (lowers (total_paid p) r.lockup_fixed),
    rw (rail_steps-append es ((n, rail_one_time_payment_processed p) ∷ []) r) refl,
  )
