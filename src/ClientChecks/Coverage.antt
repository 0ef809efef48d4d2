-- ===== src/ClientChecks/Coverage.antt =====
-- Which rows `storeReportChecks` stores, in which order.
use compliance_data_platform.Prelude.{
  false≢true, ℕ, ◌≡◌, ◌≢◌, refl, sym, ap, ◌∙◌, subst, Bool, true, false, inl, inr, Option, none,
  some, List, [], ◌∷◌, ◌++◌, All, All-append, Option-cases, append-nil, map-append, append_assoc,
  arith,
}
use compliance_data_platform.Numbers.{Double}
use compliance_data_platform.ClientReport.{
  ClientReportCheck, CheckResult, Db, ClientReport,
  storage_provider_distribution_all_located_in_the_same_region,
  storage_provider_distribution_providers_exceed_provider_deal,
  storage_provider_distribution_providers_exceed_max_duplication,
  storage_provider_distribution_providers_unknown_location,
  storage_provider_url_finder_retrievability_zero, storage_provider_url_finder_retrievability_75,
  storage_provider_distribution_providers_ipni_misreporting,
  storage_provider_distribution_providers_ipni_not_reporting,
  storage_provider_distribution_providers_declared_not_used,
  storage_provider_distribution_providers_not_declared, deal_data_replication_low_replica,
  deal_data_replication_high_replica, deal_data_replication_cid_sharing, multiple_allocators,
  not_enough_copies, inactivity, uniq_data_set_size_to_declared,
}
use compliance_data_platform.ClientChecks.{Limits, Check, find_report}
use compliance_data_platform.ClientChecks.Store.{
  Outside, run_check, run_checks, report_checks, store_report_checks,
}
use compliance_data_platform.ClientChecks.Shapes.{
  Kinds, kinds_of, Shape, Unset, multiple_allocators-Shape, inactivity-Shape,
  exceeding_provider_deal-Shape, exceeding_max_duplication-Shape, unknown_location-Shape,
  same_location-Shape, url_finder_retrievability-Shape, ipni_misreporting-Shape,
  ipni_not_reporting-Shape, declared_not_used-Shape, not_declared-Shape, low_replica-Shape,
  high_replica-Shape, not_enough_copies-Shape, cid_sharing-Shape, unique_data_set_size-Shape,
}

-- The kinds of rows of a check, with the reason for which it may create none.
pub record Spec : Type 1 where
  pub kinds : Kinds
  pub Skip : Type 0

-- The kinds of the rows that checks of these descriptions create in turn, up to a check that throws:
-- the Boolean says that none did.
pub data Covers : List Spec → Bool → Kinds → Type 1 where
  stopped : (specs : List Spec) → Covers specs false []
  done : Covers [] true []
  kept :
      (k : Kinds) (S : Type 0) (specs : List Spec) (b : Bool) (ks all : Kinds)
      → all ≡ k ++ ks
      → Covers specs b ks
      → Covers (record { kinds = k; Skip = S } ∷ specs) b all
  skipped :
      (k : Kinds) (S : Type 0) (specs : List Spec) (b : Bool) (ks : Kinds)
      → S
      → Covers specs b ks
      → Covers (record { kinds = k; Skip = S } ∷ specs) b ks

module _ (F : Double) (report_id : ℕ) (db : Db F) where
  abbrev with_results : List (CheckResult F) → Db F
  with_results results = record db { check_results = results }

  abbrev Shaped : List Spec → List (Check F) → Type 0
  Shaped [] [] = Unit
  Shaped (s ∷ specs) (c ∷ checks) =
      ((results : List (CheckResult F))
        → Shape F s.kinds s.Skip report_id (c report_id (with_results results)))
      × Shaped specs checks
  Shaped _ _ = ⊥

  -- What a sequence of checks leaves: the tables with more rows of this report.
  pub record Stored (specs : List Spec) (results : List (CheckResult F)) (end : Db F × Bool)
      : Type 1 where
    pub rows : List (CheckResult F)
    pub tables : end.0 ≡ with_results (results ++ rows)
    pub covers : Covers specs end.1 (kinds_of F rows)
    pub own : All (λ r. r.client_report_id ≡ report_id) rows

  run_checks-thrown :
      (c : Check F) (checks : List (Check F)) (t : Db F)
      → c report_id t ≡ none
      → run_checks F (c ∷ checks) report_id t ≡ (t, false)
  unfolding run_checks run_check
  run_checks-thrown c checks t e = ground arith

  run_checks-created :
      (c : Check F) (checks : List (Check F)) (t : Db F) {rows : List (CheckResult F)}
      → c report_id t ≡ some rows
      → run_checks F (c ∷ checks) report_id t
        ≡ run_checks F checks report_id (record t { check_results = t.check_results ++ rows })
  unfolding run_checks run_check
  run_checks-created c checks t e = ground arith

  run_checks-Stored :
      (specs : List Spec) (checks : List (Check F)) (results : List (CheckResult F))
      → Shaped specs checks
      → Stored specs results (run_checks F checks report_id (with_results results))
  run_checks-Stored [] [] results h =
      unfold run_checks in record { rows = []; tables = rw append-nil; covers = done; own = tt }
  run_checks-Stored (s ∷ specs) (c ∷ checks) results (h, hs) =
      elim (Option-cases (c report_id (with_results results))) [
        | inl thrown ↦
            rw (run_checks-thrown c checks (with_results results) thrown)
              (record { rows = []; tables = rw append-nil; covers = stopped _; own = tt })
        | inr (rows, created) ↦
            let (kinds, own) = rw created at (h results) in
            let rest = run_checks-Stored specs checks (results ++ rows) hs in
            rw (run_checks-created c checks (with_results results) created) (record {
              rows = rows ++ rest.rows;
              tables = rest.tables ∙ ap with_results (append_assoc results rows rest.rows);
              covers = rw (map-append (λ r. r.check) rows rest.rows) (elim kinds [
                | inl eq ↦ kept s.kinds s.Skip specs _ (kinds_of F rest.rows) _ (rw eq) rest.covers
                | inr (empty, skip) ↦
                    subst (Covers (s ∷ specs) _)
                      (ap (λ l. kinds_of F l ++ kinds_of F rest.rows) (sym empty))
                      (skipped s.kinds s.Skip specs _ _ skip rest.covers)
              ]);
              own = All-append _ rows rest.rows own rest.own;
            })
      ]
  run_checks-Stored [] (c ∷ checks) results h = elim h [ ]
  run_checks-Stored (s ∷ specs) [] results h = elim h [ ]

-- The checks in their order, with what they store and when they store nothing.
module _ (F : Double) (limits : Limits F) (report_id : ℕ) (db : Db F) where
  abbrev unless_set : ClientReportCheck → Option F.carrier → Spec
  unless_set kind limit = record { kinds = kind ∷ []; Skip = limit ≡ none }

  abbrev always : ClientReportCheck → Spec
  always kind = record { kinds = kind ∷ []; Skip = ⊥ }

  abbrev pub report_specs : List Spec
  report_specs =
      always multiple_allocators
      ∷ always inactivity
      ∷ unless_set storage_provider_distribution_providers_exceed_provider_deal
          limits.max_provider_deal_percentage
      ∷ unless_set storage_provider_distribution_providers_exceed_max_duplication
          limits.max_duplication_percentage
      ∷ always storage_provider_distribution_providers_unknown_location
      ∷ always storage_provider_distribution_all_located_in_the_same_region
      ∷ record {
        kinds =
            storage_provider_url_finder_retrievability_zero
            ∷ storage_provider_url_finder_retrievability_75 ∷ [];
        Skip = ⊥;
      }
      ∷ always storage_provider_distribution_providers_ipni_misreporting
      ∷ always storage_provider_distribution_providers_ipni_not_reporting
      ∷ always storage_provider_distribution_providers_declared_not_used
      ∷ unless_set storage_provider_distribution_providers_not_declared
          limits.max_percentage_not_declared_providers
      ∷ record {
        kinds = deal_data_replication_low_replica ∷ [];
        Skip =
            Unset F report_id db limits limits.max_percentage_for_low_replica
              (λ r. r.low_replica_threshold);
      }
      ∷ record {
        kinds = deal_data_replication_high_replica ∷ [];
        Skip =
            Unset F report_id db limits limits.max_percentage_for_high_replica
              (λ r. r.high_replica_threshold);
      }
      ∷ unless_set not_enough_copies limits.max_percentage_for_required_copies
      ∷ always deal_data_replication_cid_sharing
      ∷ unless_set uniq_data_set_size_to_declared
          limits.total_uniq_data_set_size_allow_exceeds_percentage
      ∷ []

-- `storeReportChecks` changes no table but the check results, and appends to these rows of the report
-- alone. Their kinds are those of the checks in order; a check stores nothing only if its limit (or,
-- for the replica checks, the report's threshold) is not set, and checks are missing at the end only
-- if one has thrown.
pub store_report_checks-Stored :
    (F : Double) (limits : Limits F) (outside : Outside F) (report_id : ℕ) (db : Db F)
    → Stored F report_id db
        (report_specs F limits report_id db)
        db.check_results
        (store_report_checks F limits outside report_id db)
unfolding store_report_checks find_report
store_report_checks-Stored F limits outside report_id db =
    let at = with_results F report_id db in
    run_checks-Stored F report_id db (report_specs F limits report_id db)
      (report_checks F limits outside) db.check_results
      (
        (λ r. multiple_allocators-Shape F report_id (at r)),
        (
          (λ r. inactivity-Shape F report_id (at r) outside.days_since),
          (
            (λ r. exceeding_provider_deal-Shape F report_id (at r) limits),
            (
              (λ r. exceeding_max_duplication-Shape F report_id (at r) limits),
              (
                (λ r. unknown_location-Shape F report_id (at r)),
                (
                  (λ r. same_location-Shape F report_id (at r)),
                  (
                    (λ r. url_finder_retrievability-Shape F report_id (at r)),
                    (
                      (λ r. ipni_misreporting-Shape F report_id (at r)),
                      (
                        (λ r. ipni_not_reporting-Shape F report_id (at r)),
                        (
                          (λ r. declared_not_used-Shape F report_id (at r)),
                          (
                            (λ r. not_declared-Shape F report_id (at r) limits),
                            (
                              (λ r. low_replica-Shape F report_id (at r) limits outside.sum),
                              (
                                (λ r. high_replica-Shape F report_id (at r) limits outside.sum),
                                (
                                  (λ r.
                                      not_enough_copies-Shape F report_id (at r) limits
                                        outside.read),
                                  (
                                    (λ r. cid_sharing-Shape F report_id (at r)),
                                    (
                                      (λ r. unique_data_set_size-Shape F report_id (at r) limits),
                                      tt,
                                    ),
                                  ),
                                ),
                              ),
                            ),
                          ),
                        ),
                      ),
                    ),
                  ),
                ),
              ),
            ),
          ),
        ),
      )

abbrev NoSkip : List Spec → Type 0
NoSkip [] = Unit
NoSkip (s ∷ specs) = ¬ s.Skip × NoSkip specs

abbrev all_kinds : List Spec → Kinds
all_kinds [] = []
all_kinds (s ∷ specs) = s.kinds ++ all_kinds specs

Covers-all_kinds :
    {specs : List Spec} {b : Bool} {ks : Kinds}
    → Covers specs b ks
    → b ≡ true
    → NoSkip specs
    → ks ≡ all_kinds specs
Covers-all_kinds (stopped specs) e n = absurd (false≢true e)
Covers-all_kinds done e n = refl
Covers-all_kinds (kept k S specs b ks all eq c) e (n, ns) =
    eq ∙ ap (λ l. k ++ l) (Covers-all_kinds c e ns)
Covers-all_kinds (skipped k S specs b ks s c) e (n, ns) = absurd (n s)

-- The limits are all set.
pub record AreSet {F : Double} (limits : Limits F) : Type 0 where
  pub deal : limits.max_provider_deal_percentage ≢ none
  pub duplication : limits.max_duplication_percentage ≢ none
  pub low : limits.max_percentage_for_low_replica ≢ none
  pub high : limits.max_percentage_for_high_replica ≢ none
  pub copies : limits.max_percentage_for_required_copies ≢ none
  pub declared : limits.max_percentage_not_declared_providers ≢ none
  pub unique : limits.total_uniq_data_set_size_allow_exceeds_percentage ≢ none

not-Unset :
    (F : Double) (limits : Limits F) (report_id : ℕ) (db : Db F) (report : ClientReport F)
    → find_report F report_id db ≡ some report
    → (limit : Option F.carrier) (threshold : ClientReport F → Option ℕ) → limit ≢ none
    → threshold report ≢ none
    → ¬ Unset F report_id db limits limit threshold
not-Unset F limits report_id db report found limit threshold set given (inl e) = set e
not-Unset F limits report_id db report found limit threshold set given (inr (r, f, e)) =
    let same : report ≡ r = cc in given (rw same e)

-- With all limits set, and both replica thresholds set in the report, a run in which no check throws
-- stores one row of each of these seventeen kinds, in this order.
pub store_report_checks_complete :
    (F : Double) (limits : Limits F) (outside : Outside F) (report_id : ℕ) (db : Db F)
    (report : ClientReport F)
    → AreSet limits
    → find_report F report_id db ≡ some report
    → report.low_replica_threshold ≢ none
    → report.high_replica_threshold ≢ none
    → (store_report_checks F limits outside report_id db).1 ≡ true
    → (rows : List (CheckResult F)) × ((store_report_checks F limits outside report_id
          db).0.check_results
        ≡ db.check_results ++ rows)
      × (kinds_of F rows
          ≡ multiple_allocators ∷ inactivity
            ∷ storage_provider_distribution_providers_exceed_provider_deal
            ∷ storage_provider_distribution_providers_exceed_max_duplication
            ∷ storage_provider_distribution_providers_unknown_location
            ∷ storage_provider_distribution_all_located_in_the_same_region
            ∷ storage_provider_url_finder_retrievability_zero
            ∷ storage_provider_url_finder_retrievability_75
            ∷ storage_provider_distribution_providers_ipni_misreporting
            ∷ storage_provider_distribution_providers_ipni_not_reporting
            ∷ storage_provider_distribution_providers_declared_not_used
            ∷ storage_provider_distribution_providers_not_declared
            ∷ deal_data_replication_low_replica ∷ deal_data_replication_high_replica
            ∷ not_enough_copies ∷ deal_data_replication_cid_sharing ∷ uniq_data_set_size_to_declared
            ∷ [])
store_report_checks_complete F limits outside report_id db report set found low high ended =
    let s = store_report_checks-Stored F limits outside report_id db in
    let deal_data = not-Unset F limits report_id db report found in
    (
      s.rows,
      ap (λ t. t.check_results) s.tables,
      Covers-all_kinds s.covers ended (
        (λ x. x),
        (
          (λ x. x),
          (
            set.deal,
            (
              set.duplication,
              (
                (λ x. x),
                (
                  (λ x. x),
                  (
                    (λ x. x),
                    (
                      (λ x. x),
                      (
                        (λ x. x),
                        (
                          (λ x. x),
                          (
                            set.declared,
                            (
                              deal_data _ _ set.low low,
                              (
                                deal_data _ _ set.high high,
                                (set.copies, ((λ x. x), (set.unique, tt))),
                              ),
                            ),
                          ),
                        ),
                      ),
                    ),
                  ),
                ),
              ),
            ),
          ),
        ),
      ),
    )
