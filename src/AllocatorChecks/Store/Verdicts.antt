-- ===== src/AllocatorChecks/Store/Verdicts.antt =====
-- When the checks of an allocator report pass,
-- src/service/allocator-report-checks/allocator-report-checks.service.ts.
use compliance_data_platform.Prelude.{
  ℕ, Bool, true, false, not, ◌≡◌, ◌≢◌, ◌↔◌, inl, inr, refl, sym, ap, subst, ◌∙◌, false≢true, none,
  some, List, [], ◌∷◌, ◌==◌, map, String, str_eq, eq_iff, ==_iff, All, arith, length, Bool-cases,
  filter, filter-cons_true, filter-cons_false, length-map, ltb, leb,
}
use compliance_data_platform.Numbers.{Double}
use compliance_data_platform.ClientChecks.{includes}
use compliance_data_platform.ClientChecks.Client.{or_zero, counted_allocators}
use compliance_data_platform.Tranche.{
  Allocation, FollowsSchedule, validate_allocations, validate_from,
}
use compliance_data_platform.Tranche.Schedule.{validate_allocations_iff}
use compliance_data_platform.AllocatorChecks.{AllocatorReport, AllocatorCheckResult, ReportClient}
use compliance_data_platform.AllocatorChecks.Clients.{
  has_multiple_allocators, clients_using_multiple_allocators, store_client_multiple_allocators,
}
use compliance_data_platform.AllocatorChecks.Schedule.{
  Registry, store_allocator_tranche_schedule_check, schedule_row, allocations_to_check,
  allocations_of, keys_from, clients_of, is_valid_client, invalid_clients,
  client_allocation_to_verify,
}

keys_from-seen :
    (seen l : List String) (a : String)
    → includes seen a ≡ true
    → keys_from seen (a ∷ l) ≡ keys_from seen l
unfolding keys_from
keys_from-seen seen l a h = rw (h, keys_from) refl

keys_from-fresh :
    (seen l : List String) (a : String)
    → includes seen a ≡ false
    → keys_from seen (a ∷ l) ≡ a ∷ keys_from (a ∷ seen) l
unfolding keys_from
keys_from-fresh seen l a h = rw (h, keys_from) refl

-- A property of all keys is one of all texts in the list.
keys_from-All :
    (P : String → Type 0) (seen l : List String) (id : String)
    → All P (keys_from seen l)
    → includes seen id ≡ false
    → includes l id ≡ true
    → P id
unfolding keys_from includes
keys_from-All P seen [] id all new found = absurd (false≢true found)
keys_from-All P seen (a ∷ l) id all new found = elim (Bool-cases (includes seen a)) [
  | inl old ↦ elim (Bool-cases (str_eq a id)) [
    | inl same ↦
        let e : a ≡ id = (eq_iff a id).0 same in
        absurd (false≢true (sym new ∙ ap (includes seen) (sym e) ∙ old))
    | inr other ↦
        keys_from-All P seen l id (subst (All P) (keys_from-seen seen l a old) all) new
          (rw other at found)
  ]
  | inr fresh ↦ elim (Bool-cases (str_eq a id)) [
    | inl same ↦
        let e : a ≡ id = (eq_iff a id).0 same in
        let (here, _) = subst (All P) (keys_from-fresh seen l a fresh) all in subst P e here
    | inr other ↦
        let (_, later) = subst (All P) (keys_from-fresh seen l a fresh) all in
        keys_from-All P (a ∷ seen) l id later (rw other new) (rw other at found)
  ]
]

-- No element is left by the filter of a negated test exactly when all pass it.
none_fail_iff :
    {A : Type 0} (p : A → Bool) (l : List A)
    → ((length (filter (λ x. not (p x)) l) == 0) ≡ true) ↔ All (λ x. p x ≡ true) l
none_fail_iff p [] = (λ h. tt, λ h. refl)
none_fail_iff p (x ∷ l) = elim (Bool-cases (p x)) [
  | inl e ↦
      rw (filter-cons_false (λ y. not (p y)) x l (ap not e))
        (λ h. (e, (none_fail_iff p l).0 h), λ h. (none_fail_iff p l).1 h.1)
  | inr e ↦
      rw (filter-cons_true (λ y. not (p y)) x l (ap not e))
        (λ h. absurd (omega (arith, (==_iff _ 0).0 h)), λ h. absurd (false≢true (sym e ∙ h.0)))
]

allocations_of-nil :
    (id : String) (l : List Allocation)
    → includes (map (λ a. a.client_id) l) id ≡ false
    → allocations_of id l ≡ []
unfolding includes allocations_of
allocations_of-nil id [] h = refl
allocations_of-nil id (a ∷ l) h = ground (arith, allocations_of-nil id l)

is_valid_client_iff :
    (registry : Registry) (allocations : List Allocation) (client : String)
    → (is_valid_client registry allocations client ≡ true)
      ↔ FollowsSchedule
          (or_zero (registry.total_requested_amount client))
          0
          none
          (allocations_of client allocations)
unfolding is_valid_client client_allocation_to_verify
is_valid_client_iff registry allocations client =
    validate_allocations_iff (client_allocation_to_verify registry allocations client)

no_allocations_valid :
    (registry : Registry) (allocations : List Allocation) (client : String)
    → allocations_of client allocations ≡ []
    → is_valid_client registry allocations client ≡ true
unfolding is_valid_client client_allocation_to_verify validate_allocations validate_from
no_allocations_valid registry allocations client e = rw e refl

All_of : {P : String → Type 0} → ((s : String) → P s) → (l : List String) → All P l
All_of f [] = tt
All_of f (s ∷ l) = (f s, All_of f l)

-- A client without allocations is valid, so all clients are when those with allocations are.
all_valid :
    (registry : Registry) (allocations : List Allocation)
    → All (λ client. is_valid_client registry allocations client ≡ true) (clients_of allocations)
    → (client : String) → is_valid_client registry allocations client ≡ true
unfolding clients_of
all_valid registry allocations all client =
    elim (Bool-cases (includes (map (λ a. a.client_id) allocations) client)) [
      | inl listed ↦
          keys_from-All (λ c. is_valid_client registry allocations c ≡ true) []
            (map (λ a. a.client_id) allocations) client all (unfold includes in refl) listed
      | inr absent ↦
          no_allocations_valid registry allocations client
            (allocations_of-nil client allocations absent)
    ]

schedule_row-result_iff :
    (F : Double) (registry : Registry) (id : String) (allocations : List Allocation)
    → ((schedule_row registry F id allocations).result ≡ true)
      ↔ All (λ client. is_valid_client registry allocations client ≡ true) (clients_of allocations)
unfolding schedule_row invalid_clients
schedule_row-result_iff F registry id allocations =
    none_fail_iff (is_valid_client registry allocations) (clients_of allocations)

length-ne-zero : (l : List Allocation) → l ≢ [] → (length l == 0) ≡ false
length-ne-zero [] h = absurd (h refl)
length-ne-zero (a ∷ l) h = ground arith

-- The check of an allocator on the standard tranche schedule, when it has allocations since edition 6,
-- creates one row, of this report. It passes exactly when the allocations of every client follow the
-- schedule with the amount that the client requested, whether or not the client spent datacap lately:
-- the report's clients do not change the row, though the query keeps the active ones of them only and
-- the row's message speaks of active clients.
pub tranche_schedule_check_iff :
    (F : Double) (registry : Registry) (report : AllocatorReport F)
    → registry.is_validated report.allocator ≡ true
    → allocations_to_check registry report.client_allocations ≢ []
    → (row : AllocatorCheckResult F) × (store_allocator_tranche_schedule_check registry F report
        ≡ some (row ∷ []))
      × ((clients : List (ReportClient F))
          → store_allocator_tranche_schedule_check registry F (record report { clients = clients })
            ≡ some (row ∷ []))
      × (row.allocator_report_id ≡ report.id)
      × ((row.result ≡ true) ↔ (
          (client : String)
          → FollowsSchedule
              (or_zero (registry.total_requested_amount client))
              0
              none
              (allocations_of client (allocations_to_check registry report.client_allocations))))
unfolding store_allocator_tranche_schedule_check schedule_row
tranche_schedule_check_iff F registry report valid some_left =
    let allocations = allocations_to_check registry report.client_allocations in
    let met = schedule_row-result_iff F registry report.id allocations in
    (
      schedule_row registry F report.id allocations,
      rw (valid, length-ne-zero allocations some_left) refl,
      λ (clients : List (ReportClient F)). rw (valid, length-ne-zero allocations some_left) refl,
      refl,
      (
        λ h client.
            (is_valid_client_iff registry allocations client).0
              (all_valid registry allocations (met.0 h) client),
        λ h. met.1 (
            All_of (λ client. (is_valid_client_iff registry allocations client).1 (h client))
              (clients_of allocations)),
      ),
    )

filter_ext :
    {A : Type 0} (p q : A → Bool) → ((x : A) → p x ≡ q x) → (l : List A) → filter p l ≡ filter q l
filter_ext p q same [] = refl
filter_ext p q same (x ∷ l) = ground (arith, same x, filter_ext p q same l)

clients_using_multiple_allocators-eq :
    (F : Double) (report : AllocatorReport F)
    → clients_using_multiple_allocators F report
      ≡ map
          (λ c. c.client_id)
          (filter (λ c. not (leb (length (counted_allocators F c.allocators)) 1)) report.clients)
unfolding clients_using_multiple_allocators has_multiple_allocators counted_allocators
clients_using_multiple_allocators-eq F report =
    ap (map (λ c. c.client_id))
      (filter_ext (has_multiple_allocators F) _ (λ c. over _) report.clients)
  where
    over : (n : ℕ) → ltb 1 n ≡ not (leb n 1)
    over n = ground arith

-- The allocator check on multiple allocators always creates one row. It names exactly the clients,
-- in order, whose allocators the client check of the same name rejects, and passes when there are none.
pub multiple_allocators_agrees :
    (F : Double) (report : AllocatorReport F)
    → (row : AllocatorCheckResult F) × (store_client_multiple_allocators F report ≡ some (row ∷ []))
      × (clients_using_multiple_allocators F report
          ≡ map
              (λ c. c.client_id)
              (filter
                (λ c. not (leb (length (counted_allocators F c.allocators)) 1))
                report.clients))
      × ((row.result ≡ true)
          ↔ All (λ c. leb (length (counted_allocators F c.allocators)) 1 ≡ true) report.clients)
unfolding store_client_multiple_allocators
multiple_allocators_agrees F report =
    let p = λ (c : ReportClient F). leb (length (counted_allocators F c.allocators)) 1 in
    let named = clients_using_multiple_allocators-eq F report in
    let (to, from) = none_fail_iff p report.clients in
    let size : length (clients_using_multiple_allocators F report)
        ≡ length (filter (λ c. not (p c)) report.clients) =
      ap length named ∙ length-map (λ c. c.client_id) (filter (λ c. not (p c)) report.clients) in
    (
      _,
      refl,
      named,
      (
        λ h. to (subst (λ n. (n == 0) ≡ true) size h),
        λ h. subst (λ n. (n == 0) ≡ true) (sym size) (from h),
      ),
    )
