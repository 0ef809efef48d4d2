-- ===== src/Retrying/Attempts.antt =====
-- How often a method under `@Retryable()` of src/utils/retryable.ts is called, and what is returned.
use compliance_data_platform.Prelude.{
  ℕ, zero, suc, ◌+◌, ◌≤◌, ◌≡◌, ◌⊎◌, refl, subst, inl, inr, Bool, true, false, ◌&&◌, Option, arith,
}
use compliance_data_platform.Retrying.{
  Attempt, resolved, rejected, retry_loop, retryable, retries_or_default,
}

module _ (V E : Type 0) where
  abbrev pub is_rejected : Attempt V E → Bool
  is_rejected (resolved v) = false
  is_rejected (rejected e) = true

  -- The attempts before a number are all rejected.
  abbrev pub all_rejected : (ℕ → Attempt V E) → ℕ → Bool
  all_rejected method zero = true
  all_rejected method (suc k) = is_rejected (method k) && all_rejected method k

  Attempt-cases : (a : Attempt V E) → ((v : V) × (a ≡ resolved v)) ⊎ ((e : E) × (a ≡ rejected e))
  Attempt-cases (resolved v) = inl (v, refl)
  Attempt-cases (rejected e) = inr (e, refl)

  loop-attempts :
      (method : ℕ → Attempt V E) (calls retries : ℕ)
      → all_rejected method calls ≡ true
      → (k : ℕ) × (k ≤ calls + retries)
        × ((retry_loop V E method calls retries).0 ≡ method k)
        × ((retry_loop V E method calls retries).1 ≡ suc k)
        × (all_rejected method k ≡ true)
        × ((is_rejected (method k) ≡ false) ⊎ (k ≡ calls + retries))
  unfolding retry_loop
  loop-attempts method calls zero before =
      (calls, omega arith, refl, omega arith, before, inr (omega arith))
  loop-attempts method calls (suc retries) before = elim (Attempt-cases (method calls)) [
    | inl (v, e) ↦ (
      calls,
      omega arith,
      rw (e, retry_loop) refl,
      rw (e, retry_loop) (omega arith),
      before,
      inl (rw e refl),
    )
    | inr (x, e) ↦
        let (k, few, result, count, failed, why) =
          loop-attempts method (calls + 1) retries
            (subst (λ n. all_rejected method n ≡ true) (next calls) (rw (e, before) refl)) in
        (k, omega arith, rw (e, retry_loop) result, rw (e, retry_loop) count, failed, last_one why)
  ]
    where
      next : (n : ℕ) → suc n ≡ n + 1
      next n = omega arith

      last_one :
          {k : ℕ}
          → (is_rejected (method k) ≡ false) ⊎ (k ≡ calls + 1 + retries)
          → (is_rejected (method k) ≡ false) ⊎ (k ≡ calls + suc retries)
      last_one (inl h) = inl h
      last_one (inr h) = inr (omega arith)

  -- A decorated call ends with the outcome of one of the attempts, after which the method is not called
  -- again: all attempts before it are rejected, and it is itself resolved, or the last of as many
  -- attempts as there are retries and one.
  pub retryable-attempts :
      (retries : Option ℕ) (method : ℕ → Attempt V E)
      → (k : ℕ) × (k ≤ retries_or_default V E retries)
        × ((retryable V E retries method).0 ≡ method k)
        × ((retryable V E retries method).1 ≡ suc k)
        × (all_rejected method k ≡ true)
        × ((is_rejected (method k) ≡ false) ⊎ (k ≡ retries_or_default V E retries))
  unfolding retryable
  retryable-attempts retries method =
      let (k, few, result, count, failed, why) =
        loop-attempts method 0 (retries_or_default V E retries) refl in
      (k, omega arith, result, count, failed, from_zero why)
    where
      from_zero :
          {k : ℕ}
          → (is_rejected (method k) ≡ false) ⊎ (k ≡ 0 + retries_or_default V E retries)
          → (is_rejected (method k) ≡ false) ⊎ (k ≡ retries_or_default V E retries)
      from_zero (inl h) = inl h
      from_zero (inr h) = inr (omega arith)
