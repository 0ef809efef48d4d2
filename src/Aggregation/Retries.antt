-- ===== src/Aggregation/Retries.antt =====
-- `executeWithRetries`: how often the function is called, and with which result.
use compliance_data_platform.Prelude.{ℕ, zero, suc, ◌≡◌, Option, none, some, inl, inr, Option-cases}
use compliance_data_platform.Aggregation.{Err, Runners, null, retry_loop, execute_with_retries}

module _ {World : Type 0} (rs : Runners World) (fn : World → World × Option Err) where
  -- A run of the calls, derived from their results alone: `Calls k w w' r` says that the function
  -- was called on `w` and its successors, at most `k` times, until the first success or the last try,
  -- with a pause of 90 s after each failure but the last, and ended in `w'` with result `r`.
  pub data Calls : ℕ → World → World → Option Err → Type 0 where
    success : (left : ℕ) (w : World) → (fn w).1 ≡ none → Calls (suc left) w (fn w).0 none
    last_failure : (w : World) (e : Err) → (fn w).1 ≡ some e → Calls 1 w (fn w).0 (some e)
    again :
        (left : ℕ) (w w' : World) (e : Err) (r : Option Err)
        → (fn w).1 ≡ some e
        → Calls (suc left) (rs.sleep 90000 (fn w).0) w' r
        → Calls (suc (suc left)) w w' r

  retry_loop-Calls :
      (left : ℕ) (last : Err) (w : World)
      → Calls
          (suc left)
          w
          (retry_loop rs (suc left) fn last w).0
          (retry_loop rs (suc left) fn last w).1
  unfolding retry_loop
  retry_loop-Calls zero last w = elim (Option-cases (fn w).1) [
    | inl ok ↦ rw (ok, retry_loop) (success zero w ok)
    | inr (e, failed) ↦ rw (failed, retry_loop) (last_failure w e failed)
  ]
  retry_loop-Calls (suc left) last w = elim (Option-cases (fn w).1) [
    | inl ok ↦ rw (ok, retry_loop) (success (suc left) w ok)
    | inr (e, failed) ↦
        rw (failed, retry_loop)
          (again left w _ e _ failed (retry_loop-Calls left e (rs.sleep 90000 (fn w).0)))
  ]

-- With at least one try, `executeWithRetries` makes exactly the calls of `Calls`: it stops at the
-- first success, else gives up after its last try with the error of that try, and sleeps 90 s
-- after each failure but that one.
pub execute_with_retries-Calls :
    {World : Type 0} (rs : Runners World) (fn : World → World × Option Err) (left : ℕ) (w : World)
    → Calls rs fn
        (suc left)
        w
        (execute_with_retries rs (suc left) fn w).0
        (execute_with_retries rs (suc left) fn w).1
unfolding execute_with_retries
execute_with_retries-Calls rs fn left w = retry_loop-Calls rs fn left null w
