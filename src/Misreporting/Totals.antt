-- ===== src/Misreporting/Totals.antt =====
-- The counts of src/service/ipni-misreporting-checker/ipni-misreporting-checker.service.ts.
use compliance_data_platform.Prelude.{
  ℕ, zero, suc, ◌+◌, ◌*◌, ◌<◌, ◌≤◌, ◌≡◌, ◌⊎◌, inl, inr, refl, ap, Bool, true, false, ◌&&◌, Option,
  none, some, List, [], ◌∷◌, String, ltb, length, any, filter, arith, Option-cases, Bool-cases,
  if◌then◌else◌,
}
use compliance_data_platform.Numbers.{Double}
use compliance_data_platform.ClientReport.{IpniReportingStatus, misreporting, not_reporting, ok}
use compliance_data_platform.Misreporting.{
  ProviderIpniReportingStatus, AggregatedStatus, Answers, same_status, status_of, count_of,
  status_or_retry, get_provider_reporting_status, reporting_statuses,
  get_aggregated_providers_reporting_status,
}

count_of-cons :
    (s : IpniReportingStatus) (x : ProviderIpniReportingStatus)
    (xs : List ProviderIpniReportingStatus)
    → count_of s (x ∷ xs) ≡ (if same_status x.status s then 1 else 0) + count_of s xs
unfolding count_of
count_of-cons s x xs = go (same_status x.status s)
  where
    kept : List ProviderIpniReportingStatus
    kept = filter (λ (y : ProviderIpniReportingStatus). same_status y.status s) xs

    go :
        (b : Bool)
        → length (elim b [ true ↦ x ∷ kept | false ↦ kept ]) ≡ (if b then 1 else 0) + length kept
    go true = omega arith
    go false = omega arith

one_of_three :
    (s : IpniReportingStatus)
    → (if same_status s misreporting then 1 else 0)
        + (if same_status s not_reporting then 1 else 0)
        + (if same_status s ok then 1 else 0)
      ≡ 1
one_of_three misreporting = omega arith
one_of_three not_reporting = omega arith
one_of_three ok = omega arith

counts-total :
    (result : List ProviderIpniReportingStatus)
    → count_of misreporting result + count_of not_reporting result + count_of ok result
      ≡ length result
unfolding count_of
counts-total [] = omega arith
counts-total (x ∷ xs) = omega (
  arith,
  count_of-cons misreporting x xs,
  count_of-cons not_reporting x xs,
  count_of-cons ok x xs,
  one_of_three x.status,
  counts-total xs,
)

abbrev pub number_or_0 : Option ℕ → ℕ
number_or_0 none = 0
number_or_0 (some n) = n

-- A provider's status is what it reports beside what it claims: not reporting exactly when nothing or
-- 0 is reported, and otherwise misreporting exactly when twice the reported count is below the claimed
-- one, a missing one counting 0, and ok exactly when it is not.
pub status_of_iff :
    (reported actual : Option ℕ)
    → ((status_of reported actual ≡ not_reporting) × (number_or_0 reported ≡ 0))
      ⊎ ((status_of reported actual ≡ misreporting)
          × (1 ≤ number_or_0 reported)
          × (number_or_0 reported * 2 < number_or_0 actual))
      ⊎ ((status_of reported actual ≡ ok)
          × (1 ≤ number_or_0 reported)
          × (number_or_0 actual ≤ number_or_0 reported * 2))
unfolding status_of
status_of_iff none actual = inl (refl, refl)
status_of_iff (some zero) actual = inl (refl, refl)
status_of_iff (some (suc n)) none = inr (inr (refl, omega arith, omega arith))
status_of_iff (some (suc n)) (some a) = elim (Bool-cases (ltb (suc n * 2) a)) [
  | inl h ↦ inr (inl (rw h refl, omega arith, ground arith))
  | inr h ↦ inr (inr (rw h refl, omega arith, ground arith))
]

module _ (F : Double) (answers : Answers) where
  abbrev pub is_none : {A : Type 0} → Option A → Bool
  is_none none = true
  is_none (some a) = false

  abbrev pub fails_twice : String → Bool
  fails_twice id =
      is_none (get_provider_reporting_status F answers 0 id none)
      && is_none (get_provider_reporting_status F answers 1 id none)

  retry-fails_twice :
      (id : String)
      → ((fails_twice id ≡ true) × (status_or_retry F answers id ≡ none))
        ⊎ ((fails_twice id ≡ false)
            × (s : ProviderIpniReportingStatus) × (status_or_retry F answers id ≡ some s))
  unfolding status_or_retry
  retry-fails_twice id = elim (Option-cases (get_provider_reporting_status F answers 0 id none)) [
    | inr (s, e) ↦ inr (rw e refl, s, rw (status_or_retry, e) refl)
    | inl e ↦ elim (Option-cases (get_provider_reporting_status F answers 1 id none)) [
      | inr (s, f) ↦ inr (rw (e, f) refl, s, rw (status_or_retry, e, f) refl)
      | inl f ↦ inl (rw (e, f) refl, rw (status_or_retry, e, f) refl)
    ]
  ]

  statuses-all :
      (ids : List String)
      → ((any fails_twice ids ≡ true) × (reporting_statuses F answers ids ≡ none))
        ⊎ ((any fails_twice ids ≡ false)
            × (l : List ProviderIpniReportingStatus) × (reporting_statuses F answers ids ≡ some l)
            × (length l ≡ length ids))
  unfolding reporting_statuses
  statuses-all [] = inr (refl, [], refl, refl)
  statuses-all (id ∷ ids) = elim (retry-fails_twice id) [
    | inl (fails, e) ↦ inl (rw fails refl, rw (reporting_statuses, e) refl)
    | inr (works, s, e) ↦ elim (statuses-all ids) [
      | inl (fails, f) ↦ inl (rw (works, fails) refl, rw (reporting_statuses, e, f) refl)
      | inr (work, l, f, same) ↦
          inr (rw (works, work) refl, s ∷ l, rw (reporting_statuses, e, f) refl, ap suc same)
    ]
  ]

  -- The aggregated status is an error exactly when the calls for some provider fail both times, in
  -- parallel and in the retry. Otherwise every provider is counted, once: the total is the number of
  -- providers, and the misreporting, not reporting and ok ones add up to it.
  pub get_aggregated_providers_reporting_status-counts :
      (ids : List String)
      → ((any fails_twice ids ≡ true)
          × (get_aggregated_providers_reporting_status F answers ids ≡ none))
        ⊎ ((any fails_twice ids ≡ false)
            × (a : AggregatedStatus) × (get_aggregated_providers_reporting_status F answers ids
                ≡ some a)
            × (a.total ≡ length ids)
            × (a.misreporting + a.not_reporting + a.ok ≡ a.total))
  unfolding get_aggregated_providers_reporting_status
  get_aggregated_providers_reporting_status-counts ids = elim (statuses-all ids) [
    | inl (fails, e) ↦ inl (fails, rw (get_aggregated_providers_reporting_status, e) refl)
    | inr (work, l, e, same) ↦
        inr (work, _, rw (get_aggregated_providers_reporting_status, e) refl, same, counts-total l)
  ]
