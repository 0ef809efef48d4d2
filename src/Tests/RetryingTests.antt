-- ===== src/Tests/RetryingTests.antt =====
-- A method that is rejected twice and then resolved.
use compliance_data_platform.Prelude.{ℕ, ◌≡◌, refl, none, ltb, if◌then◌else◌}
use compliance_data_platform.Retrying.{Attempt, resolved, rejected, retryable, retry_loop}

abbrev method : ℕ → Attempt ℕ ℕ
method n = if ltb n 2 then rejected n else resolved 7

three_calls : retryable ℕ ℕ none method ≡ (resolved 7, 3)
unfolding retryable retry_loop
three_calls = refl
