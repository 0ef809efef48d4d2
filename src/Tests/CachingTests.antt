-- ===== src/Tests/CachingTests.antt =====
-- Calls 5 and 6 of a method, the first of which has the mutex, and three calls that overlap.
use compliance_data_platform.Prelude.{ℕ, ◌≡◌, ◌≢◌, refl, false, ◌==◌, arith}
use compliance_data_platform.Caching.{
  State, start, computing, enter, acquire_mutex, call, acquire, Reach, here, after,
}
use compliance_data_platform.Caching.Exclusion.{reachable_calls_exclude, three_calls_overlap}

abbrev locked : State ℕ
locked = acquire_mutex ℕ 5 0 (enter ℕ 6 (enter ℕ 5 (start ℕ)))

locked_reached : Reach ℕ locked
unfolding enter
locked_reached = after (after (after here (call 5 refl)) (call 6 refl)) (acquire 5 0 refl refl)

abbrev first_call : ℕ
first_call = 5

reachable_calls_exclude_example : first_call ≡ first_call
unfolding enter acquire_mutex
reachable_calls_exclude_example =
    reachable_calls_exclude ℕ locked_reached first_call first_call 0 refl refl

distinct : (a b : ℕ) → (a == b) ≡ false → a ≢ b
distinct a b h e = ground arith

three_calls_overlap_example :
    (s : State ℕ) × Reach ℕ s × (s.phase 2 ≡ computing 0) × (s.phase 3 ≡ computing 1)
three_calls_overlap_example =
    three_calls_overlap ℕ 1 2 3 (distinct 1 2 refl) (distinct 1 3 refl) (distinct 2 3 refl)
