-- ===== src/ClientChecks/Locations.antt =====
-- The check that providers are not all in one place, of
-- src/service/client-report-checks/client-report-checks.service.ts.
use compliance_data_platform.Prelude.{
  ℕ, ◌≡◌, ◌↔◌, ◌≤◌, refl, sym, ap, subst, ◌∙◌, inl, inr, true, false, ◌||◌, false≢true, some, List,
  [], ◌∷◌, String, str_eq, eq_iff, map, length, ltb, All, All-weaken, arith, Bool-cases,
}
use compliance_data_platform.Numbers.{Double}
use compliance_data_platform.ClientReport.{ProviderDistribution, CheckResult, Db}
use compliance_data_platform.ClientChecks.{includes, provider_distribution_of}
use compliance_data_platform.ClientChecks.Providers.{
  location_text, set_of, store_providers_in_same_location,
}

set_of-old :
    (F : Double) (s : String) (l : List String)
    → includes (set_of F l) s ≡ true
    → set_of F (s ∷ l) ≡ set_of F l
unfolding set_of
set_of-old F s l h = rw (h, set_of) refl

set_of-new :
    (F : Double) (s : String) (l : List String)
    → includes (set_of F l) s ≡ false
    → set_of F (s ∷ l) ≡ s ∷ set_of F l
unfolding set_of
set_of-new F s l h = rw (h, set_of) refl

-- A set has the elements of its list.
includes-set_of :
    (F : Double) (l : List String) (x : String) → includes (set_of F l) x ≡ includes l x
unfolding includes
includes-set_of F [] x = unfold set_of in refl
includes-set_of F (s ∷ l) x = elim (Bool-cases (includes (set_of F l) s)) [
  | inl old ↦ rw (set_of-old F s l old) (elim (Bool-cases (str_eq s x)) [
    | inl same ↦ rw same (subst (λ y. includes (set_of F l) y ≡ true) ((eq_iff s x).0 same) old)
    | inr other ↦ rw other (includes-set_of F l x)
  ])
  | inr new ↦ rw (set_of-new F s l new) (ap (λ b. str_eq s x || b) (includes-set_of F l x))
]

All-same :
    (s : String) (l : List String) (x : String) → All (λ t. t ≡ s) l → includes l x ≡ true → x ≡ s
unfolding includes
All-same s [] x all h = absurd (false≢true h)
All-same s (t ∷ l) x (e, all) h = elim (Bool-cases (str_eq t x)) [
  | inl same ↦ sym ((eq_iff t x).0 same) ∙ e
  | inr other ↦ All-same s l x all (rw other at h)
]

includes-head : (s t : String) (l : List String) → t ≡ s → includes (t ∷ l) s ≡ true
unfolding includes
includes-head s t l e = rw ((eq_iff t s).1 e) refl

includes-length : (l : List String) (x : String) → includes l x ≡ true → 1 ≤ length l
unfolding includes
includes-length [] x h = absurd (false≢true h)
includes-length (s ∷ l) x h = omega arith

-- A set has at most one element exactly when the list's other elements are the first.
set_of-one_to :
    (F : Double) (s : String) (l : List String) → length (set_of F (s ∷ l)) ≤ 1 → All (λ t. t ≡ s) l
set_of-one_to F s [] h = tt
set_of-one_to F s (t ∷ l) h = elim (Bool-cases (includes (set_of F (t ∷ l)) s)) [
  | inl old ↦
      let rest = set_of-one_to F t l (subst (λ k. length k ≤ 1) (set_of-old F s (t ∷ l) old) h) in
      let found : includes (t ∷ l) s ≡ true = sym (includes-set_of F (t ∷ l) s) ∙ old in
      let e : s ≡ t = All-same t (t ∷ l) s (refl, rest) found in
      (sym e, All-weaken _ _ (λ x k. k ∙ sym e) l rest)
  | inr new ↦
      let one : length (s ∷ set_of F (t ∷ l)) ≤ 1 =
        subst (λ k. length k ≤ 1) (set_of-new F s (t ∷ l) new) h in
      let some_left : 1 ≤ length (set_of F (t ∷ l)) =
        includes-length (set_of F (t ∷ l)) t
          (includes-set_of F (t ∷ l) t ∙ includes-head t t l refl) in
      absurd (omega (arith, one, some_left))
]

set_of-one_from :
    (F : Double) (s : String) (l : List String) → All (λ t. t ≡ s) l → length (set_of F (s ∷ l)) ≤ 1
set_of-one_from F s [] all = unfold set_of includes in omega arith
set_of-one_from F s (t ∷ l) (e, all) =
    let old : includes (set_of F (t ∷ l)) s ≡ true =
      includes-set_of F (t ∷ l) s ∙ includes-head s t l e in
    subst (λ k. length k ≤ 1) (sym (set_of-old F s (t ∷ l) old))
      (set_of-one_from F t l (All-weaken _ _ (λ x k. k ∙ sym e) l all))

not_ltb_iff : (n : ℕ) → (ltb 1 n ≡ false) ↔ (n ≤ 1)
not_ltb_iff n = ground arith

-- The check on locations creates one row. It fails exactly when all providers, at least one, have
-- the location of the first: the same country, region and city as its text shows them, where all
-- missing locations are the same.
pub same_location_check_iff :
    (F : Double) (report_id : ℕ) (db : Db F) (p : ProviderDistribution F)
    (ps : List (ProviderDistribution F))
    → provider_distribution_of F report_id db ≡ p ∷ ps
    → (row : CheckResult F) × (store_providers_in_same_location F report_id db ≡ some (row ∷ []))
      × ((row.result ≡ false) ↔ All (λ t. t ≡ location_text F p) (map (location_text F) ps))
unfolding store_providers_in_same_location
same_location_check_iff F report_id db p ps e =
    let texts = map (location_text F) ps in
    let size : length (set_of F (map (location_text F) (provider_distribution_of F report_id db)))
        ≡ length (set_of F (location_text F p ∷ texts)) =
      ap (λ l. length (set_of F (map (location_text F) l))) e in
    let at_most = not_ltb_iff (length (set_of F (location_text F p ∷ texts))) in
    (
      _,
      refl,
      (
        λ h. set_of-one_to F _ texts (at_most.0 (subst (λ n. ltb 1 n ≡ false) size h)),
        λ h. subst (λ n. ltb 1 n ≡ false) (sym size) (at_most.1 (set_of-one_from F _ texts h)),
      ),
    )
