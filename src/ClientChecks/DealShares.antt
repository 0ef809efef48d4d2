-- ===== src/ClientChecks/DealShares.antt =====
-- The check on the share of a storage provider in a client's deals: which providers it reports.
use compliance_data_platform.Prelude.{
  ℕ, ◌+◌, ◌*◌, ◌/◌, ◌^◌, ◌≤◌, ◌<◌, ◌≡◌, refl, Bool, true, false, inl, inr, Option, some, List, [],
  ◌∷◌, map, ltb, ◌==◌, if◌then◌else◌, filter, filter-cons_true, filter-cons_false, arith,
  Bool-cases, length, String, All, All-weaken, ℕ-cases, length-map,
}
use native.Mathlib.Nat.{div-le_of_le-mul, le-div_iff_mul-le, le_of_mul-le-mul_right}
use compliance_data_platform.Numbers.{
  Double, pos, scale_ℤ, hundredths, big_int_div, big_int_to_number, IsFaithful,
}
use compliance_data_platform.ClientReport.{ProviderDistribution}
use compliance_data_platform.ClientChecks.{filter_option}
use compliance_data_platform.ClientChecks.Providers.{
  total_deal_size, exceeds_provider_deal, providers_exceeding_provider_deal,
}

filter_option-filter :
    {A : Type 0} (p : A → Option Bool) (q : A → Bool) (l : List A)
    → All (λ a. p a ≡ some (q a)) l
    → filter_option p l ≡ some (filter q l)
unfolding filter_option
filter_option-filter p q [] h = refl
filter_option-filter p q (a ∷ l) (e, h) = ground (arith, filter_option-filter p q l h)

pub scale-pos : (a k : ℕ) → scale_ℤ (pos a) k ≡ pos (a * k)
scale-pos a k = ground arith

ltb→le : (a b : ℕ) → ltb a b ≡ true → a + 1 ≤ b
ltb→le a b h = ground arith

pub nonzero-test : (n : ℕ) → 0 < n → (n == 0) ≡ false
nonzero-test n h = ground arith

module _ (F : Double) (faithful : IsFaithful F) (limit : ℕ) (limit_small : limit < 2 ^ 50) where
  -- A provider's share in hundredths of a percent, rounded down, is above the limit.
  abbrev pub has_large_share : ℕ → ProviderDistribution F → Bool
  has_large_share total p = ltb limit (p.total_deal_size * 100 * 100 / total)

  exceeds_provider_deal_lem :
      (total : ℕ) (p : ProviderDistribution F)
      → 0 < total
      → p.total_deal_size ≤ total
      → exceeds_provider_deal F (hundredths F (pos limit)) total p ≡ some (has_large_share total p)
  unfolding exceeds_provider_deal big_int_div big_int_to_number
  exceeds_provider_deal_lem total p nonzero part =
      let share = p.total_deal_size * 100 * 100 / total in
      let small : share ≤ 10000 = div-le_of_le-mul total (omega arith) in
      rw
        (
          exceeds_provider_deal,
          big_int_div,
          nonzero-test total nonzero,
          scale-pos (p.total_deal_size * 100) 100,
        )
        (rw (big_int_to_number, faithful.exact share (omega arith))
          (rw (faithful.lt_hundredths limit share limit_small (omega arith)) refl))

  -- Every provider's deals are part of the total.
  parts-le :
      (l : List (ProviderDistribution F)) (total : ℕ)
      → total_deal_size F l ≤ total
      → All (λ p. p.total_deal_size ≤ total) l
  parts-le [] total h = tt
  parts-le (p ∷ l) total h = (omega arith, parts-le l total (omega arith))

  -- Providers above the limit take so much of the total each.
  large_shares-le :
      (total : ℕ) (l : List (ProviderDistribution F))
      → 0 < total
      → length (filter (has_large_share total) l) * ((limit + 1) * total)
        ≤ total_deal_size F l * 10000
  large_shares-le total [] h = omega arith
  large_shares-le total (p ∷ l) h = elim (Bool-cases (has_large_share total p)) [
    | inr small ↦
        rw (filter-cons_false (has_large_share total) p l small)
          (omega (arith, large_shares-le total l h))
    | inl large ↦
        let above : (limit + 1) * total ≤ p.total_deal_size * 100 * 100 =
          (le-div_iff_mul-le h).0 (ltb→le limit _ large) in
        rw (filter-cons_true (has_large_share total) p l large)
          (omega (arith, large_shares-le total l h))
  ]

  cancel_total : (n k total : ℕ) → 0 < total → n * (k * total) ≤ total * 10000 → n * k ≤ 10000
  cancel_total n k total h e = le_of_mul-le-mul_right {k = total} (omega arith) h

  shares-bounded :
      (l : List (ProviderDistribution F))
      → 0 < total_deal_size F l
      → length (filter (has_large_share (total_deal_size F l)) l) * (limit + 1) ≤ 10000
  shares-bounded l h =
      cancel_total _ (limit + 1) (total_deal_size F l) h (large_shares-le (total_deal_size F l) l h)

  decided :
      (total : ℕ) (l : List (ProviderDistribution F))
      → 0 < total
      → All (λ p. p.total_deal_size ≤ total) l
      → All
          (λ p.
            exceeds_provider_deal F (hundredths F (pos limit)) total p
            ≡ some (has_large_share total p))
          l
  decided total l h = All-weaken _ _ (λ p part. exceeds_provider_deal_lem total p h part) l

-- The providers above the limit, by exact arithmetic.
abbrev pub large_providers : (F : Double) → ℕ → List (ProviderDistribution F) → List String
large_providers F limit l =
    if total_deal_size F l == 0
    then []
    else map (λ p. p.provider)
        (filter (λ p. ltb limit (p.total_deal_size * 100 * 100 / total_deal_size F l)) l)

-- With a limit of so many hundredths of a percent, below 2^50, the check on provider deals does not
-- throw: it reports exactly the providers whose share of all deals, in hundredths of a percent
-- rounded down, is above the limit, and at most 10000 / (limit + 1) of them.
pub providers_exceeding_provider_deal_lem :
    (F : Double) (limit : ℕ) (l : List (ProviderDistribution F))
    → IsFaithful F
    → limit < 2 ^ 50
    → (providers_exceeding_provider_deal F (hundredths F (pos limit)) l
        ≡ some (large_providers F limit l))
      × (length (large_providers F limit l) * (limit + 1) ≤ 10000)
unfolding providers_exceeding_provider_deal
providers_exceeding_provider_deal_lem F limit l faithful small =
    elim (ℕ-cases (total_deal_size F l)) [
      | inl empty ↦ rw (empty, providers_exceeding_provider_deal) (refl, omega arith)
      | inr (n, more) ↦
          let total = total_deal_size F l in
          let positive : 0 < total = rw more (omega arith) in
          rw (nonzero-test total positive, providers_exceeding_provider_deal)
            (
              rw
                  (filter_option-filter _ (has_large_share F faithful limit small total) l (
                    decided F faithful limit small total l positive
                      (parts-le F faithful limit small l total (omega arith))))
                  refl,
              rw
                  (length-map (λ p. p.provider)
                    (filter (has_large_share F faithful limit small total) l))
                  (shares-bounded F faithful limit small l positive),
            )
    ]
