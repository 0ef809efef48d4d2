-- ===== src/Reports/Generated.antt =====
-- What `generateReport` of src/service/client-report/client-report.service.ts leaves in the database.
use compliance_data_platform.Prelude.{
  ℕ, ◌≡◌, ◌≢◌, refl, sym, ap, ◌∙◌, Bool, true, false, inl, inr, Option, none, some, List, [], ◌∷◌,
  ◌++◌, map, String, find, ◌==◌, Option-cases, ==_refl, eq_refl, if◌then◌else◌,
}
use compliance_data_platform.Numbers.{Double}
use compliance_data_platform.ClientReport.{
  Db, ClientReport, ClientReportCheck, CheckResult,
  storage_provider_distribution_all_located_in_the_same_region,
  storage_provider_distribution_providers_exceed_provider_deal,
  storage_provider_distribution_providers_exceed_max_duplication,
  storage_provider_distribution_providers_unknown_location,
  storage_provider_url_finder_retrievability_zero, storage_provider_url_finder_retrievability_75,
  storage_provider_distribution_providers_ipni_misreporting,
  storage_provider_distribution_providers_ipni_not_reporting,
  storage_provider_distribution_providers_declared_not_used,
  storage_provider_distribution_providers_not_declared, deal_data_replication_low_replica,
  deal_data_replication_high_replica, deal_data_replication_cid_sharing, multiple_allocators,
  not_enough_copies, inactivity, uniq_data_set_size_to_declared,
}
use compliance_data_platform.ClientChecks.{Limits, find_report}
use compliance_data_platform.ClientChecks.Shapes.{kinds_of}
use compliance_data_platform.ClientChecks.Store.{Outside, store_report_checks}
use compliance_data_platform.ClientChecks.Coverage.{
  AreSet, store_report_checks-Stored, store_report_checks_complete,
}
use compliance_data_platform.Editions.{FilPlusEdition}
use compliance_data_platform.Reports.{ClientWithAllowance}
use compliance_data_platform.Reports.OfClients.{
  ClientServices, Generated, report, failed, Rows, Awaited, edition_of_application, await_all,
  rows_of, report_row, create_report, get_report, found_report, store_report, generate_report,
}

-- The kinds of the check results of a report, in their order.
abbrev pub kinds_of_checks : List ClientReportCheck
kinds_of_checks =
    multiple_allocators ∷ inactivity ∷ storage_provider_distribution_providers_exceed_provider_deal
    ∷ storage_provider_distribution_providers_exceed_max_duplication
    ∷ storage_provider_distribution_providers_unknown_location
    ∷ storage_provider_distribution_all_located_in_the_same_region
    ∷ storage_provider_url_finder_retrievability_zero
    ∷ storage_provider_url_finder_retrievability_75
    ∷ storage_provider_distribution_providers_ipni_misreporting
    ∷ storage_provider_distribution_providers_ipni_not_reporting
    ∷ storage_provider_distribution_providers_declared_not_used
    ∷ storage_provider_distribution_providers_not_declared ∷ deal_data_replication_low_replica
    ∷ deal_data_replication_high_replica ∷ not_enough_copies ∷ deal_data_replication_cid_sharing
    ∷ uniq_data_set_size_to_declared ∷ []

threshold_low : Option FilPlusEdition → Option ℕ
threshold_low none = none
threshold_low (some e) = some e.low_replica_threshold

threshold_high : Option FilPlusEdition → Option ℕ
threshold_high none = none
threshold_high (some e) = some e.high_replica_threshold

module _ (F : Double) (services : ClientServices F) where
  -- A new report has the thresholds of an edition, its id and the allocators of the client.
  abbrev pub HasEdition :
      ℕ → FilPlusEdition → ClientWithAllowance → List ClientWithAllowance → ClientReport F → Type 0
  HasEdition id e client others r =
      (r.id ≡ id)
      × (r.client ≡ client.address_id)
      × (r.allocators ≡ map (λ (c : ClientWithAllowance). c.verifier_address_id) (client ∷ others))
      × (r.low_replica_threshold ≡ some e.low_replica_threshold)
      × (r.high_replica_threshold ≡ some e.high_replica_threshold)

  rows_of-HasEdition :
      (id now : ℕ) (e : FilPlusEdition) (client : ClientWithAllowance)
      (others : List ClientWithAllowance) (a : Awaited F services)
      → edition_of_application client ≡ some e
      → HasEdition id e client others (report_row F services id now client others a)
  unfolding report_row threshold_low threshold_high
  rows_of-HasEdition id now e client others a edition =
      (refl, refl, refl, ap threshold_low edition, ap threshold_high edition)

  find-created :
      (rows : Rows F services) (db : Db F)
      → find_report F rows.client_report.id (create_report F services rows db)
        ≡ some rows.client_report
  unfolding find_report create_report
  find-created rows db =
      ap
        (λ b. elim b [
          | true ↦ some rows.client_report
          | false ↦ find (λ (r : ClientReport F). r.id == rows.client_report.id) db.client_report
        ])
        (==_refl rows.client_report.id)

  get_report-created :
      (rows : Rows F services) (db : Db F)
      → get_report F services rows.client_report.client rows.client_report.id
          (create_report F services rows db)
        ≡ some rows.client_report
  unfolding get_report create_report
  get_report-created rows db =
      rw (find, ==_refl rows.client_report.id, eq_refl rows.client_report.client) refl

  module _ (limits : Limits F) (outside : Outside F) where
    get_report-stored :
        (rows : Rows F services) (db : Db F)
        → get_report F services rows.client_report.client rows.client_report.id
            (store_report_checks F limits outside rows.client_report.id
              (create_report F services rows db)).0
          ≡ some rows.client_report
    unfolding get_report create_report
    get_report-stored rows db =
        let s =
          store_report_checks-Stored F limits outside rows.client_report.id
            (create_report F services rows db) in
        rw s.tables (get_report-created rows db)

    -- The report is returned only when no check throws.
    store_report-inv :
        (rows : Rows F services) (db : Db F) (r : ClientReport F)
        → (store_report F services limits outside rows db).1 ≡ report r
        → ((store_report_checks F limits outside rows.client_report.id
              (create_report F services rows db)).1
            ≡ true)
          × (r ≡ rows.client_report)
    unfolding store_report
    store_report-inv rows db r h = go _ h refl
      where
        go :
            (ended : Bool)
            → (if ended
                then found_report F services (
                    get_report F services rows.client_report.client rows.client_report.id
                      (store_report_checks F limits outside rows.client_report.id
                        (create_report F services rows db)).0)
                else failed)
              ≡ report r
            → (store_report_checks F limits outside rows.client_report.id
                (create_report F services rows db)).1
              ≡ ended
            → ((store_report_checks F limits outside rows.client_report.id
                  (create_report F services rows db)).1
                ≡ true)
              × (r ≡ rows.client_report)
        go true h e =
            let same : report rows.client_report ≡ report r =
              sym (ap (found_report F services) (get_report-stored rows db)) ∙ h in
            (e, cc)
        go false h e = cc

    generate_report-inv :
        (id now : ℕ) (address : String) (db : Db F) (client : ClientWithAllowance)
        (others : List ClientWithAllowance) (r : ClientReport F)
        → services.get_client_data address ≡ some (client ∷ others)
        → (generate_report F services limits outside id now address db).1 ≡ report r
        → (a : Awaited F services) × (generate_report F services limits outside id now address db
            ≡ store_report F services limits outside (rows_of F services id now client others a) db)
    unfolding generate_report
    generate_report-inv id now address db client others r known h =
        elim (Option-cases (await_all F services client others)) [
          | inl e ↦ cc (rw (generate_report, known, e) at h)
          | inr (a, e) ↦ (a, rw (generate_report, known, e) refl)
        ]

    given : {o : Option ℕ} {n : ℕ} → o ≡ some n → o ≢ none
    given h e = cc

    find-after :
        (rows : Rows F services) (t : Db F)
        → find_report F rows.client_report.id t ≡ some rows.client_report
        → find_report F rows.client_report.id
            (store_report_checks F limits outside rows.client_report.id t).0
          ≡ some rows.client_report
    unfolding find_report
    find-after rows t h =
        let s = store_report_checks-Stored F limits outside rows.client_report.id t in rw s.tables h

    -- When a report is generated for a client whose application has an edition, with all limits set, the
    -- report that is returned is in the database: it is the one that its id finds, and it has the
    -- allocators of all rows of the client and the replica thresholds of the edition. One check result
    -- of each of seventeen kinds is stored after those that were there.
    pub generate_report-checked :
        (id now : ℕ) (address : String) (db : Db F) (client : ClientWithAllowance)
        (others : List ClientWithAllowance) (e : FilPlusEdition) (r : ClientReport F)
        → AreSet limits
        → services.get_client_data address ≡ some (client ∷ others)
        → edition_of_application client ≡ some e
        → (generate_report F services limits outside id now address db).1 ≡ report r
        → (results : List (CheckResult F)) × ((generate_report F services limits outside id now
              address db).0.check_results
            ≡ db.check_results ++ results)
          × (kinds_of F results ≡ kinds_of_checks)
          × (find_report F id (generate_report F services limits outside id now address db).0
              ≡ some r)
          × HasEdition id e client others r
    unfolding store_report rows_of report_row create_report
    generate_report-checked id now address db client others e r set known edition h =
        let (a, run) = generate_report-inv id now address db client others r known h in
        let rows : Rows F services = rows_of F services id now client others a in
        let (ended, same) =
          store_report-inv rows db r (sym (ap (λ (x : Db F × Generated F). x.1) run) ∙ h) in
        let (is_id, is_client, all, low, high) =
          rows_of-HasEdition id now e client others a edition in
        let t : Db F = create_report F services rows db in
        let checked : (generate_report F services limits outside id now address db).0
            ≡ (store_report_checks F limits outside rows.client_report.id t).0 =
          ap (λ (x : Db F × Generated F). x.0) run in
        let there = find-created rows db in
        let (results, added, kinds) =
          store_report_checks_complete F limits outside rows.client_report.id t rows.client_report
            set there (given low) (given high) ended in
        (
          results,
          ap (λ (x : Db F). x.check_results) checked ∙ added,
          kinds,
          rw (checked, sym is_id, same) (find-after rows t there),
          rw same (is_id, is_client, all, low, high),
        )
