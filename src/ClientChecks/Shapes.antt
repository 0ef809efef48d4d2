-- ===== src/ClientChecks/Shapes.antt =====
-- What each check of a client report creates: rows of the report, of which kinds, and when none.
use compliance_data_platform.Prelude.{
  ℕ, ◌≡◌, refl, Bool, true, false, ◌⊎◌, inl, inr, Option, none, some, List, [], ◌∷◌, map, ◌>>=◌,
  All, String, if◌then◌else◌, str_eq,
}
use compliance_data_platform.Numbers.{Double}
use compliance_data_platform.ClientReport.{
  ClientReportCheck, CheckResult, Db, ClientReport, ProviderDistribution,
  storage_provider_distribution_all_located_in_the_same_region,
  storage_provider_distribution_providers_exceed_provider_deal,
  storage_provider_distribution_providers_exceed_max_duplication,
  storage_provider_distribution_providers_unknown_location,
  storage_provider_url_finder_retrievability_zero, storage_provider_url_finder_retrievability_75,
  storage_provider_distribution_providers_ipni_misreporting,
  storage_provider_distribution_providers_ipni_not_reporting,
  storage_provider_distribution_providers_declared_not_used,
  storage_provider_distribution_providers_not_declared, deal_data_replication_low_replica,
  deal_data_replication_high_replica, deal_data_replication_cid_sharing, multiple_allocators,
  not_enough_copies, inactivity, uniq_data_set_size_to_declared,
}
use compliance_data_platform.ClientChecks.{
  Limits, find_report, filter_option, provider_distribution_of, replica_distribution_of,
}
use compliance_data_platform.ClientChecks.Providers.{
  providers_exceeding_provider_deal, exceeds_max_duplication,
  store_providers_exceeding_provider_deal, store_providers_exceeding_max_duplication_percentage,
  store_providers_with_unknown_location, store_providers_in_same_location,
}
use compliance_data_platform.ClientChecks.Retrievability.{
  store_providers_ipni_misreporting, store_providers_ipni_not_reporting,
  store_providers_url_finder_retrievability,
}
use compliance_data_platform.ClientChecks.Declared.{
  store_providers_declared_not_used, store_providers_not_declared,
}
use compliance_data_platform.ClientChecks.Replicas.{
  has_few_replicas, store_deal_data_not_enough_copies, store_deal_data_low_replica,
  store_deal_data_high_replica,
}
use compliance_data_platform.ClientChecks.Client.{
  is_falsy, store_multiple_allocators, store_inactivity,
  store_deal_data_shared_with_other_clients_cid_sharing, store_unique_data_set_size,
}

abbrev pub Kinds : Type 0
Kinds = List ClientReportCheck

module _ (F : Double) where
  abbrev pub kinds_of : List (CheckResult F) → Kinds
  kinds_of rows = map (λ r. r.check) rows

  -- If the check does not throw, its rows are of these kinds, or there are none for this reason.
  abbrev pub Shape : Kinds → Type 0 → ℕ → Option (List (CheckResult F)) → Type 0
  Shape kinds Skip report_id none = Unit
  Shape kinds Skip report_id (some rows) =
      ((kinds_of rows ≡ kinds) ⊎ ((rows ≡ []) × Skip))
      × All (λ r. r.client_report_id ≡ report_id) rows

  -- A chain of steps has a shape if its end has.
  bind-Shape :
      {A : Type 0} (kinds : Kinds) (Skip : Type 0) (report_id : ℕ) (m : Option A)
      (f : A → Option (List (CheckResult F)))
      → ((a : A) → m ≡ some a → Shape kinds Skip report_id (f a))
      → Shape kinds Skip report_id (m >>= f)
  bind-Shape kinds Skip report_id none f h = tt
  bind-Shape kinds Skip report_id (some a) f h = h a refl

  if-Shape :
      (kinds : Kinds) (Skip : Type 0) (report_id : ℕ) (b : Bool)
      (x y : Option (List (CheckResult F)))
      → Shape kinds Skip report_id x
      → Shape kinds Skip report_id y
      → Shape kinds Skip report_id (if b then x else y)
  if-Shape kinds Skip report_id true x y h k = h
  if-Shape kinds Skip report_id false x y h k = k

  -- A check that creates nothing where an option is not set.
  option-Shape :
      {A : Type 0} (kinds : Kinds) (Skip : Type 0) (report_id : ℕ) (l : Option A)
      (f : A → Option (List (CheckResult F)))
      → (l ≡ none → Skip)
      → ((a : A) → l ≡ some a → Shape kinds Skip report_id (f a))
      → Shape kinds Skip report_id (elim l [ none ↦ some [] | some a ↦ f a ])
  option-Shape kinds Skip report_id none f skip h = (inr (refl, skip refl), tt)
  option-Shape kinds Skip report_id (some a) f skip h = h a refl

  either-Shape :
      {A : Type 0} (kinds : Kinds) (Skip : Type 0) (report_id : ℕ) (l : Option A)
      (x : Option (List (CheckResult F))) (f : A → Option (List (CheckResult F)))
      → Shape kinds Skip report_id x
      → ((a : A) → Shape kinds Skip report_id (f a))
      → Shape kinds Skip report_id (elim l [ none ↦ x | some a ↦ f a ])
  either-Shape kinds Skip report_id none x f h k = h
  either-Shape kinds Skip report_id (some a) x f h k = k a

  module _ (report_id : ℕ) (db : Db F) where
    distribution : List (ProviderDistribution F)
    distribution = provider_distribution_of F report_id db

    pub multiple_allocators-Shape :
        Shape (multiple_allocators ∷ []) ⊥ report_id (store_multiple_allocators F report_id db)
    unfolding store_multiple_allocators
    multiple_allocators-Shape =
        bind-Shape _ _ report_id (find_report F report_id db) _ (λ r e. (inl refl, (refl, tt)))

    pub inactivity-Shape :
        (days_since : Option ℕ → F.carrier)
        → Shape (inactivity ∷ []) ⊥ report_id (store_inactivity F days_since report_id db)
    unfolding store_inactivity
    inactivity-Shape days_since =
        bind-Shape _ _ report_id (find_report F report_id db) _ (λ r e. (inl refl, (refl, tt)))

    pub unknown_location-Shape :
        Shape
          (storage_provider_distribution_providers_unknown_location ∷ [])
          ⊥
          report_id
          (store_providers_with_unknown_location F report_id db)
    unfolding store_providers_with_unknown_location
    unknown_location-Shape = (inl refl, (refl, tt))

    pub same_location-Shape :
        Shape
          (storage_provider_distribution_all_located_in_the_same_region ∷ [])
          ⊥
          report_id
          (store_providers_in_same_location F report_id db)
    unfolding store_providers_in_same_location
    same_location-Shape = (inl refl, (refl, tt))

    pub url_finder_retrievability-Shape :
        Shape
          (storage_provider_url_finder_retrievability_zero
            ∷ storage_provider_url_finder_retrievability_75 ∷ [])
          ⊥
          report_id
          (store_providers_url_finder_retrievability F report_id db)
    unfolding store_providers_url_finder_retrievability
    url_finder_retrievability-Shape = (inl refl, (refl, (refl, tt)))

    pub ipni_misreporting-Shape :
        Shape
          (storage_provider_distribution_providers_ipni_misreporting ∷ [])
          ⊥
          report_id
          (store_providers_ipni_misreporting F report_id db)
    unfolding store_providers_ipni_misreporting
    ipni_misreporting-Shape = (inl refl, (refl, tt))

    pub ipni_not_reporting-Shape :
        Shape
          (storage_provider_distribution_providers_ipni_not_reporting ∷ [])
          ⊥
          report_id
          (store_providers_ipni_not_reporting F report_id db)
    unfolding store_providers_ipni_not_reporting
    ipni_not_reporting-Shape = (inl refl, (refl, tt))

    pub declared_not_used-Shape :
        Shape
          (storage_provider_distribution_providers_declared_not_used ∷ [])
          ⊥
          report_id
          (store_providers_declared_not_used F report_id db)
    unfolding store_providers_declared_not_used
    declared_not_used-Shape =
        bind-Shape _ _ report_id (find_report F report_id db) _ (λ r e. (inl refl, (refl, tt)))

    pub cid_sharing-Shape :
        Shape
          (deal_data_replication_cid_sharing ∷ [])
          ⊥
          report_id
          (store_deal_data_shared_with_other_clients_cid_sharing F report_id db)
    unfolding store_deal_data_shared_with_other_clients_cid_sharing
    cid_sharing-Shape = (inl refl, (refl, tt))

    module _ (limits : Limits F) where
      pub exceeding_provider_deal-Shape :
          Shape
            (storage_provider_distribution_providers_exceed_provider_deal ∷ [])
            (limits.max_provider_deal_percentage ≡ none)
            report_id
            (store_providers_exceeding_provider_deal F limits report_id db)
      unfolding store_providers_exceeding_provider_deal distribution
      exceeding_provider_deal-Shape =
          option-Shape _ _ report_id limits.max_provider_deal_percentage _ (λ e. e)
            (λ limit set.
              bind-Shape _ _ report_id (providers_exceeding_provider_deal F limit distribution) _
                (λ r e. (inl refl, (refl, tt))))

      pub exceeding_max_duplication-Shape :
          Shape
            (storage_provider_distribution_providers_exceed_max_duplication ∷ [])
            (limits.max_duplication_percentage ≡ none)
            report_id
            (store_providers_exceeding_max_duplication_percentage F limits report_id db)
      unfolding store_providers_exceeding_max_duplication_percentage distribution
      exceeding_max_duplication-Shape =
          option-Shape _ _ report_id limits.max_duplication_percentage _ (λ e. e)
            (λ limit set.
              bind-Shape _ _ report_id
                (filter_option (exceeds_max_duplication F limit) distribution) _
                (λ r e. (inl refl, (refl, tt))))

      pub not_declared-Shape :
          Shape
            (storage_provider_distribution_providers_not_declared ∷ [])
            (limits.max_percentage_not_declared_providers ≡ none)
            report_id
            (store_providers_not_declared F limits report_id db)
      unfolding store_providers_not_declared
      not_declared-Shape =
          option-Shape _ _ report_id limits.max_percentage_not_declared_providers _ (λ e. e)
            (λ limit set.
              bind-Shape _ _ report_id (find_report F report_id db) _
                (λ r e. (inl refl, (refl, tt))))

      pub not_enough_copies-Shape :
          (read : String → Option F.carrier)
          → Shape
              (not_enough_copies ∷ [])
              (limits.max_percentage_for_required_copies ≡ none)
              report_id
              (store_deal_data_not_enough_copies F read limits report_id db)
      unfolding store_deal_data_not_enough_copies
      not_enough_copies-Shape read =
          option-Shape _ _ report_id limits.max_percentage_for_required_copies _ (λ e. e)
            (λ limit set. bind-Shape _ _ report_id (find_report F report_id db) _ (λ r e.
              either-Shape _ _ report_id r.allocator_required_copies _ _ (inl refl, (refl, tt))
                (λ required.
                  if-Shape _ _ report_id (str_eq required "") _ _ (inl refl, (refl, tt))
                    (bind-Shape _ _ report_id
                      (filter_option (has_few_replicas F read required)
                        (replica_distribution_of F report_id db))
                      _ (λ few e. (inl refl, (refl, tt)))))))

      -- Why a check of a replica threshold creates nothing.
      abbrev pub Unset : Option F.carrier → (ClientReport F → Option ℕ) → Type 0
      Unset limit threshold =
          (limit ≡ none)
          ⊎ ((r : ClientReport F) × (find_report F report_id db ≡ some r) × (threshold r ≡ none))

      pub low_replica-Shape :
          (sum : List F.carrier → F.carrier)
          → Shape
              (deal_data_replication_low_replica ∷ [])
              (Unset limits.max_percentage_for_low_replica (λ r. r.low_replica_threshold))
              report_id
              (store_deal_data_low_replica F sum limits report_id db)
      unfolding store_deal_data_low_replica
      low_replica-Shape sum =
          option-Shape _ _ report_id limits.max_percentage_for_low_replica _ inl (λ limit set.
            bind-Shape _ _ report_id (find_report F report_id db) _ (λ r found.
              option-Shape _ _ report_id r.low_replica_threshold _ (λ e. inr (r, found, e))
                (λ t e. (inl refl, (refl, tt)))))

      pub high_replica-Shape :
          (sum : List F.carrier → F.carrier)
          → Shape
              (deal_data_replication_high_replica ∷ [])
              (Unset limits.max_percentage_for_high_replica (λ r. r.high_replica_threshold))
              report_id
              (store_deal_data_high_replica F sum limits report_id db)
      unfolding store_deal_data_high_replica
      high_replica-Shape sum =
          option-Shape _ _ report_id limits.max_percentage_for_high_replica _ inl (λ limit set.
            bind-Shape _ _ report_id (find_report F report_id db) _ (λ r found.
              option-Shape _ _ report_id r.high_replica_threshold _ (λ e. inr (r, found, e))
                (λ t e. (inl refl, (refl, tt)))))

      pub unique_data_set_size-Shape :
          Shape
            (uniq_data_set_size_to_declared ∷ [])
            (limits.total_uniq_data_set_size_allow_exceeds_percentage ≡ none)
            report_id
            (store_unique_data_set_size F limits report_id db)
      unfolding store_unique_data_set_size
      unique_data_set_size-Shape =
          option-Shape _ _ report_id limits.total_uniq_data_set_size_allow_exceeds_percentage _
            (λ e. e)
            (λ limit set. bind-Shape _ _ report_id (find_report F report_id db) _ (λ r found.
              if-Shape _ _ report_id (is_falsy r.expected_size_of_single_dataset) _ _
                (inl refl, (refl, tt))
                (bind-Shape _ _ report_id (F.to_big_int limit) _ (λ a e. (inl refl, (refl, tt))))))
