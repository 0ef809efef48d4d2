-- ===== src/Caching/Exclusion.antt =====
-- Which calls under `@Cacheable()` of src/utils/cacheable.ts exclude each other.
use compliance_data_platform.Prelude.{
  subst, false≢true, ℕ, ◌≡◌, ◌≢◌, refl, sym, ap, ◌∙◌, inl, inr, Bool, true, false, none, some, ◌==◌,
  arith, Option-cases, Bool-cases, ==_iff, ==_refl,
}
use compliance_data_platform.Caching.{
  Outcome, value, nullish, error, resolve_nullish, fail, Phase, idle, waiting, checking, computing,
  ended, State, enter, acquire_mutex, begin_method, leave, set_cache, Step, call, acquire, hit,
  miss, resolve, reject, expire, Reach, here, after,
}

module _ (V : Type 0) where
  -- The call has the mutex.
  abbrev pub has_mutex : Phase V → ℕ → Bool
  has_mutex idle m = false
  has_mutex (waiting n) m = false
  has_mutex (checking n) m = n == m
  has_mutex (computing n) m = n == m
  has_mutex (ended outcome) m = false

  abbrev IsHeld : State V → Type 0
  IsHeld s = (j n : ℕ) → has_mutex (s.phase j) n ≡ true → s.holder n ≡ some j

  leave-IsHeld :
      (s : State V) (i m : ℕ) (outcome : Outcome V)
      → has_mutex (s.phase i) m ≡ true
      → IsHeld s
      → IsHeld (leave V i m outcome s)
  unfolding leave
  leave-IsHeld s i m outcome has held j n h = elim (Bool-cases (j == i)) [
    | inl same ↦ absurd (false≢true (rw same at h))
    | inr other ↦
        let before : s.holder n ≡ some j = held j n (rw other at h) in
        elim (Bool-cases (n == m)) [
          | inl e ↦ absurd (
              not_both other (subst (λ k. s.holder k ≡ some j) ((==_iff n m).0 e) before)
                (held i m has))
          | inr e ↦ rw e before
        ]
  ]
    where
      not_both : (j == i) ≡ false → s.holder m ≡ some j → s.holder m ≡ some i → ⊥
      not_both other a b = false≢true (sym other ∙ (==_iff j i).1 (some_inj (sym a ∙ b)))
        where
          some_inj : {a b : ℕ} → some a ≡ some b → a ≡ b
          some_inj e = cc

  call-IsHeld : (s : State V) (i : ℕ) → IsHeld s → IsHeld (enter V i s)
  unfolding enter
  call-IsHeld s i held j n h = elim (Option-cases s.current) [
    | inl e ↦
        rw (e, enter)
          (elim (Bool-cases (j == i)) [
            | inl same ↦ absurd (false≢true (rw (e, enter, same) at h))
            | inr other ↦ held j n (rw (e, enter, other) at h)
          ])
    | inr (m, e) ↦
        rw (e, enter)
          (elim (Bool-cases (j == i)) [
            | inl same ↦ absurd (false≢true (rw (e, enter, same) at h))
            | inr other ↦ held j n (rw (e, enter, other) at h)
          ])
  ]

  acquire-IsHeld :
      (s : State V) (i m : ℕ) → s.holder m ≡ none → IsHeld s → IsHeld (acquire_mutex V i m s)
  unfolding acquire_mutex
  acquire-IsHeld s i m free held j n h = elim (Bool-cases (j == i)) [
    | inl same ↦
        let own : (m == n) ≡ true = rw same at h in
        rw (sym ((==_iff m n).0 own), ==_refl m) (ap some (sym ((==_iff j i).0 same)))
    | inr other ↦
        let before : s.holder n ≡ some j = held j n (rw other at h) in
        elim (Bool-cases (n == m)) [
          | inl e ↦ absurd (taken (subst (λ k. s.holder k ≡ some j) ((==_iff n m).0 e) before))
          | inr e ↦ rw e before
        ]
  ]
    where
      taken : {j : ℕ} → s.holder m ≡ some j → ⊥
      taken a = cc

  begin-IsHeld :
      (s : State V) (i m : ℕ) → s.phase i ≡ checking m → IsHeld s → IsHeld (begin_method V i m s)
  unfolding begin_method
  begin-IsHeld s i m e held j n h = elim (Bool-cases (j == i)) [
    | inl same ↦
        let own : (m == n) ≡ true = rw same at h in
        subst (λ k. s.holder n ≡ some k) (sym ((==_iff j i).0 same)) (held i n (rw e own))
    | inr other ↦ held j n (rw other at h)
  ]

  Step-IsHeld : {s t : State V} → Step V s t → IsHeld s → IsHeld t
  unfolding set_cache
  Step-IsHeld (call {s} i e) held = call-IsHeld s i held
  Step-IsHeld (acquire {s} i m e free) held = acquire-IsHeld s i m free held
  Step-IsHeld (hit {s} i m v e c) held = leave-IsHeld s i m (value v) (rw (e, ==_refl m) refl) held
  Step-IsHeld (fail {s} i m e) held = leave-IsHeld s i m error (rw (e, ==_refl m) refl) held
  Step-IsHeld (miss {s} i m e c) held = begin-IsHeld s i m e held
  Step-IsHeld (resolve {s} i m v e) held =
      leave-IsHeld (set_cache V (some v) s) i m (value v) (rw (e, ==_refl m) refl) held
  Step-IsHeld (resolve_nullish {s} i m e) held =
      leave-IsHeld (set_cache V none s) i m nullish (rw (e, ==_refl m) refl) held
  Step-IsHeld (reject {s} i m e) held = leave-IsHeld s i m error (rw (e, ==_refl m) refl) held
  Step-IsHeld expire held = held

  Reach-IsHeld : {s : State V} → Reach V s → IsHeld s
  Reach-IsHeld here = λ j n h. absurd (false≢true h)
  Reach-IsHeld (after r step) = Step-IsHeld step (Reach-IsHeld r)

  -- In every reachable state, two calls that have the same mutex, before or in the method, are the same.
  pub reachable_calls_exclude :
      {s : State V}
      → Reach V s
      → (i j m : ℕ) → has_mutex (s.phase i) m ≡ true
      → has_mutex (s.phase j) m ≡ true
      → i ≡ j
  reachable_calls_exclude {s} r i j m a b = same (Reach-IsHeld r i m a) (Reach-IsHeld r j m b)
    where
      same : s.holder m ≡ some i → s.holder m ≡ some j → i ≡ j
      same a b = cc

  -- Calls with the same key need not have the same mutex. Of any three calls, when the method rejects
  -- in the first while the second waits, the second and the third can be in the method at once.
  pub three_calls_overlap :
      (i j k : ℕ)
      → i ≢ j
      → i ≢ k
      → j ≢ k
      → (s : State V) × Reach V s × (s.phase j ≡ computing 0) × (s.phase k ≡ computing 1)
  unfolding enter acquire_mutex begin_method leave
  three_calls_overlap i j k ij ik jk =
      let r1 = after here (call i refl) in
      let r2 = after r1 (acquire i 0 (ground arith) refl) in
      let r3 = after r2 (call j (ground arith)) in
      let r4 = after r3 (miss i 0 (ground arith) refl) in
      let r5 = after r4 (reject i 0 (ground arith)) in
      let r6 = after r5 (acquire j 0 (ground arith) refl) in
      let r7 = after r6 (miss j 0 (ground arith) refl) in
      let r8 = after r7 (call k (ground arith)) in
      let r9 = after r8 (acquire k 1 (ground arith) refl) in
      let r10 = after r9 (miss k 1 (ground arith) refl) in (_, r10, ground arith, ground arith)
