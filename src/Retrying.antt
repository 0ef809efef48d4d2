-- ===== src/Retrying.antt =====
-- src/utils/retryable.ts: a method under `@Retryable()`. Its attempts are a function of the number of
-- the attempt; the pause between two attempts and the log line, which is switched off, are left out.
pub mod Attempts
use compliance_data_platform.Prelude.{ℕ, zero, suc, ◌+◌, Option, none, some}

module _ (V E : Type 0) where
  -- An attempt, and the decorated call, resolves with a value or rejects with an error.
  pub data Attempt : Type 0 where
    resolved : V → Attempt
    rejected : E → Attempt

  -- `do { … } while (retries-- > 0)`, after `calls` calls of the method: what is returned or thrown, and
  -- the number of calls.
  unfoldable pub retry_loop : (ℕ → Attempt) → (calls retries : ℕ) → Attempt × ℕ
  retry_loop method calls zero = (method calls, calls + 1)
  retry_loop method calls (suc retries) = elim (method calls) [
    | resolved v ↦ (resolved v, calls + 1)
    | rejected e ↦ retry_loop method (calls + 1) retries
  ]

  abbrev pub retries_or_default : Option ℕ → ℕ
  retries_or_default none = 3
  retries_or_default (some n) = n

  unfoldable pub retryable : (retries : Option ℕ) → (ℕ → Attempt) → Attempt × ℕ
  retryable retries method = retry_loop method 0 (retries_or_default retries)
