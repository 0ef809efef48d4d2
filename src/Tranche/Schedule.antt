-- ===== src/Tranche/Schedule.antt =====
-- `validateAllocations` decides the tranche schedule, and what the schedule bounds.
use compliance_data_platform.Prelude.{
  ℕ, zero, suc, ◌+◌, ◌*◌, ◌/◌, ◌≤◌, ◌≡◌, ◌↔◌, refl, sym, subst, true, false, Option, none, some,
  List, [], ◌∷◌, ltb, arith, length,
}
use compliance_data_platform.Tranche.{
  Allocation, ClientAllocations, max_percent_for_allocation, scheduled_percent, validate_from,
  validate_allocations, FollowsSchedule,
}

-- A quotient bounds as the product does.
share-le : (a n : ℕ) → ltb (n / 100) a ≡ false → a * 100 ≤ n
share-le a n h = ground arith

le-share : (a n : ℕ) → a * 100 ≤ n → ltb (n / 100) a ≡ false
le-share a n h = ground arith

percent_is_scheduled : (i : ℕ) → max_percent_for_allocation i ≡ scheduled_percent i
percent_is_scheduled zero = refl
percent_is_scheduled (suc zero) = refl
percent_is_scheduled (suc (suc zero)) = refl
percent_is_scheduled (suc (suc (suc zero))) = refl
percent_is_scheduled (suc (suc (suc (suc i)))) = ground arith

module _ (requested : ℕ) where
  -- The test of one round of the loop.
  abbrev Fits : ℕ → Option ℕ → Allocation → Type 0
  Fits i prev a =
      (a.allocation * 100 ≤ requested * scheduled_percent i)
      × ((p : ℕ) → prev ≡ some p → a.allocation ≤ p * 2)

  scheduled :
      (i : ℕ) (a : Allocation)
      → a.allocation * 100 ≤ requested * max_percent_for_allocation i
      → a.allocation * 100 ≤ requested * scheduled_percent i
  scheduled i a h = subst (λ p. a.allocation * 100 ≤ requested * p) (percent_is_scheduled i) h

  fitting :
      (i : ℕ) (a : Allocation)
      → a.allocation * 100 ≤ requested * scheduled_percent i
      → ltb (requested * max_percent_for_allocation i / 100) a.allocation ≡ false
  fitting i a s =
      le-share a.allocation _
        (subst (λ p. a.allocation * 100 ≤ requested * p) (sym (percent_is_scheduled i)) s)

  validate_from-cons :
      (i : ℕ) (prev : Option ℕ) (a : Allocation) (rest : List Allocation)
      → validate_from requested i prev (a ∷ rest) ≡ true
      → Fits i prev a × (validate_from requested (suc i) (some a.allocation) rest ≡ true)
  unfolding validate_from
  validate_from-cons i none a rest h =
      ((scheduled i a (share-le a.allocation _ (ground arith)), λ p e. cc), ground arith)
  validate_from-cons i (some q) a rest h =
      ((scheduled i a (share-le a.allocation _ (ground arith)), λ p e. ground arith), ground arith)

  cons-validate_from :
      (i : ℕ) (prev : Option ℕ) (a : Allocation) (rest : List Allocation)
      → Fits i prev a
      → validate_from requested (suc i) (some a.allocation) rest ≡ true
      → validate_from requested i prev (a ∷ rest) ≡ true
  unfolding validate_from
  cons-validate_from i none a rest (s, d) h = rw (fitting i a s) h
  cons-validate_from i (some q) a rest (s, d) h = rw (fitting i a s) (ground (arith, d q refl))

  FollowsSchedule-tail :
      (i : ℕ) (prev : Option ℕ) (a : Allocation) (rest : List Allocation)
      → FollowsSchedule requested i prev (a ∷ rest)
      → FollowsSchedule requested (suc i) (some a.allocation) rest
  FollowsSchedule-tail i prev a rest f = record {
    share = λ k b e.
        subst (λ j. b.allocation * 100 ≤ requested * scheduled_percent j) (omega arith)
          (f.share (suc k) b e);
    doubling = λ k b c e g. f.doubling (suc k) b c e g;
    first = λ p b e g. let same : p ≡ a.allocation = cc in rw same (f.doubling 0 a b refl g);
  }

  validate_from_sound :
      (i : ℕ) (prev : Option ℕ) (l : List Allocation)
      → validate_from requested i prev l ≡ true
      → FollowsSchedule requested i prev l
  validate_from_sound i prev [] h = record {
    share = λ k a e. cc;
    doubling = λ k a b e g. cc;
    first = λ p a e g. cc;
  }
  validate_from_sound i prev (a ∷ rest) h =
      let ((s, d), h') = validate_from-cons i prev a rest h in
      let ih = validate_from_sound (suc i) (some a.allocation) rest h' in
      record {
        share = elim [
          | zero ↦
              λ b e. let same : b ≡ a = cc in let at : i ≡ i + 0 = omega arith in rw (same, ← at) s
          | suc k ↦ λ b e.
              subst (λ j. b.allocation * 100 ≤ requested * scheduled_percent j) (omega arith)
                (ih.share k b e)
        ];
        doubling = elim [
          | zero ↦ λ b c e g. let same : b ≡ a = cc in rw same (ih.first a.allocation c refl g)
          | suc k ↦ λ b c e g. ih.doubling k b c e g
        ];
        first = λ p b e g. let same : b ≡ a = cc in rw same (d p e);
      }

  validate_from_complete :
      (i : ℕ) (prev : Option ℕ) (l : List Allocation)
      → FollowsSchedule requested i prev l
      → validate_from requested i prev l ≡ true
  validate_from_complete i prev [] f = unfold validate_from in refl
  validate_from_complete i prev (a ∷ rest) f =
      cons-validate_from i prev a rest
        (
          subst (λ j. a.allocation * 100 ≤ requested * scheduled_percent j) (omega arith)
              (f.share 0 a refl),
          λ p e. f.first p a e refl,
        )
        (validate_from_complete (suc i) (some a.allocation) rest
          (FollowsSchedule-tail i prev a rest f))

-- The loop accepts a client's allocations exactly when they follow the tranche schedule: the first
-- takes at most 5 % of the requested amount, the second 10 %, then 15 %, 20 % and 25 % each, and none
-- is more than twice the one before it.
pub validate_allocations_iff :
    (c : ClientAllocations)
    → (validate_allocations c ≡ true)
      ↔ FollowsSchedule c.total_requested_amount 0 none c.allocations
unfolding validate_allocations
validate_allocations_iff c = (
  validate_from_sound c.total_requested_amount 0 none c.allocations,
  validate_from_complete c.total_requested_amount 0 none c.allocations,
)

abbrev pub total_allocation : List Allocation → ℕ
total_allocation [] = 0
total_allocation (a ∷ l) = a.allocation + total_allocation l

-- The shares of n allocations from the i-th on, in percent.
abbrev pub total_percent : ℕ → ℕ → ℕ
total_percent i zero = 0
total_percent i (suc n) = scheduled_percent i + total_percent (suc i) n

total_allocation-le :
    (requested i : ℕ) (prev : Option ℕ) (l : List Allocation)
    → validate_from requested i prev l ≡ true
    → total_allocation l * 100 ≤ requested * total_percent i (length l)
total_allocation-le requested i prev [] h = omega arith
total_allocation-le requested i prev (a ∷ l) h =
    let ((s, d), h') = validate_from-cons requested i prev a l h in
    omega (arith, total_allocation-le requested (suc i) (some a.allocation) l h')

six_shares : (n : ℕ) → n ≤ 6 → total_percent 0 n ≤ 100
six_shares zero h = omega arith
six_shares (suc zero) h = omega arith
six_shares (suc (suc zero)) h = omega arith
six_shares (suc (suc (suc zero))) h = omega arith
six_shares (suc (suc (suc (suc zero)))) h = omega arith
six_shares (suc (suc (suc (suc (suc zero))))) h = omega arith
six_shares (suc (suc (suc (suc (suc (suc zero)))))) h = omega arith
six_shares (suc (suc (suc (suc (suc (suc (suc n))))))) h = absurd (omega arith)

-- Accepted allocations, at most six of them, add up to no more than the client requested.
pub validated-total-le :
    (c : ClientAllocations)
    → validate_allocations c ≡ true
    → length c.allocations ≤ 6
    → total_allocation c.allocations ≤ c.total_requested_amount
unfolding validate_allocations
validated-total-le c h n = grind (
  arith,
  total_allocation-le c.total_requested_amount 0 none c.allocations h,
  six_shares (length c.allocations) n,
)
