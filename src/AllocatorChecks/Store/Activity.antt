-- ===== src/AllocatorChecks/Store/Activity.antt =====
-- Which clients count for which check of an allocator report,
-- src/service/allocator-report-checks/allocator-report-checks.service.ts.
use compliance_data_platform.Prelude.{
  ℕ, ◌≡◌, refl, sym, ap, ◌∙◌, inl, inr, Bool, true, false, not, ◌&&◌, Option, none, some, List, [],
  ◌∷◌, ◌++◌, ◌==◌, filter, filter-cons_true, filter-cons_false, All, All-append, arith, Bool-cases,
  Option-cases,
}
use compliance_data_platform.Numbers.{Double}
use compliance_data_platform.ClientReport.{
  ClientReport, CheckResult, ClientReportCheck, Db, inactivity,
}
use compliance_data_platform.AllocatorChecks.{ReportClient}
use compliance_data_platform.AllocatorChecks.FromClients.{
  same_check, results_in, active_report, newest_report, active_results, inactivity_results,
  grouped_checks,
}

filter_append :
    {A : Type 0} (p : A → Bool) (xs ys : List A) → filter p (xs ++ ys) ≡ filter p xs ++ filter p ys
filter_append p [] ys = refl
filter_append p (x ∷ xs) ys = ground (arith, filter_append p xs ys)

filter_none :
    {A : Type 0} (p : A → Bool) (xs : List A) → All (λ x. p x ≡ false) xs → filter p xs ≡ []
filter_none p [] h = refl
filter_none p (x ∷ xs) (h, hs) = rw (filter-cons_false p x xs h) (filter_none p xs hs)

filter_All :
    {A : Type 0} {P : A → Type 0} (p : A → Bool)
    → ((x : A) → p x ≡ true → P x)
    → (xs : List A) → All P (filter p xs)
filter_All p f [] = tt
filter_All p f (x ∷ xs) = elim (Bool-cases (p x)) [
  | inl e ↦ rw (filter-cons_true p x xs e) (f x e, filter_All p f xs)
  | inr e ↦ rw (filter-cons_false p x xs e) (filter_All p f xs)
]

same_check_trans :
    (a b c : ClientReportCheck)
    → same_check a c ≡ true
    → same_check b c ≡ false
    → same_check a b ≡ false
unfolding same_check
same_check_trans a b c h k = ground arith

and_right : (a b : Bool) → (a && b) ≡ true → b ≡ true
and_right a b h = ground arith

module _ (F : Double) where
  abbrev pub is_active_client : ℕ → Db F → ReportClient F → Bool
  is_active_client cutoff db c = elim (active_report F cutoff db c.client_id) [
    | none ↦ false
    | some r ↦ true
  ]

  results_in-All :
      (db : Db F) (check : ClientReportCheck) (report : Option (ClientReport F))
      → same_check check inactivity ≡ false
      → All
          (λ x. same_check x.check check ≡ false)
          (results_in F db (λ k. same_check k inactivity) report)
  unfolding results_in
  results_in-All db check none other = tt
  results_in-All db check (some r) other =
      filter_All (λ x. x.client_report_id == r.id && same_check x.check inactivity)
        (λ x h. same_check_trans x.check check inactivity (and_right _ _ h) other) db.check_results

  -- No result of the second kind is of another check.
  inactivity_results-All :
      (db : Db F) (clients : List (ReportClient F)) (check : ClientReportCheck)
      → same_check check inactivity ≡ false
      → All (λ x. same_check x.check check ≡ false) (inactivity_results F db clients)
  unfolding inactivity_results
  inactivity_results-All db [] check other = tt
  inactivity_results-All db (c ∷ cs) check other =
      All-append _ _ _ (results_in-All db check (newest_report F db c.client_id) other)
        (inactivity_results-All db cs check other)

  active_results-filter :
      (cutoff : ℕ) (db : Db F) (clients : List (ReportClient F))
      → active_results F cutoff db (filter (is_active_client cutoff db) clients)
        ≡ active_results F cutoff db clients
  unfolding active_results results_in
  active_results-filter cutoff db [] = refl
  active_results-filter cutoff db (c ∷ cs) =
      elim (Option-cases (active_report F cutoff db c.client_id)) [
        | inl e ↦
            rw
              (
                filter-cons_false (is_active_client cutoff db) c cs (rw (e, is_active_client) refl),
                e,
              )
              (active_results-filter cutoff db cs)
        | inr (r, e) ↦
            rw (filter-cons_true (is_active_client cutoff db) c cs (rw (e, is_active_client) refl))
              (ap
                (λ l.
                  results_in F db (λ k. not (same_check k inactivity))
                    (active_report F cutoff db c.client_id)
                  ++ l)
                (active_results-filter cutoff db cs))
      ]

  -- For every check but inactivity, only the clients that spent datacap since the cutoff count: without
  -- the others the results of the check are the same.
  pub grouped_checks-is_active_client :
      (cutoff : ℕ) (db : Db F) (clients : List (ReportClient F)) (check : ClientReportCheck)
      → same_check check inactivity ≡ false
      → grouped_checks F cutoff db clients check
        ≡ grouped_checks F cutoff db (filter (is_active_client cutoff db) clients) check
  unfolding grouped_checks
  grouped_checks-is_active_client cutoff db clients check other =
      let p = λ (x : CheckResult F). same_check x.check check in
      let only = λ (cs : List (ReportClient F)).
        filter_append p (active_results F cutoff db cs) (inactivity_results F db cs)
        ∙ ap (λ l. filter p (active_results F cutoff db cs) ++ l)
            (filter_none p (inactivity_results F db cs)
              (inactivity_results-All db cs check other)) in
      only clients
      ∙ ap (λ l. filter p l ++ []) (sym (active_results-filter cutoff db clients))
      ∙ sym (only (filter (is_active_client cutoff db) clients))
