-- ===== src/ProvidersAndDeals/WholeDeals.antt =====
-- All operations for a batch of logs on the table of deals, of
-- src/po-rep-indexer/runners/po-rep-providers-and-deals.runner.ts.
use compliance_data_platform.Prelude.{
  ℕ, ◌≡◌, ◌≢◌, ◌≤◌, refl, ap, sym, ◌∙◌, inl, inr, none, some, List, [], ◌∷◌, ◌++◌, map, All,
  All-weaken, Option-cases, List-cases,
}
use compliance_data_platform.Numbers.{ℤ}
use compliance_data_platform.Numbers.Signed.{◌+ℤ◌, ◌-ℤ◌}
use compliance_data_platform.FieldUpdates.{Operations}
use compliance_data_platform.ProvidersAndDeals.ProviderFold.{IsColumn, reduce_provider_logs-steps}
use compliance_data_platform.Tables.{Table, lookup, or_else, unless_empty, filter_map}
use compliance_data_platform.Tables.Keys.{count_key}
use compliance_data_platform.Tables.Updates.{map_option}
use compliance_data_platform.Tables.Creations.{create_rows_lem}
use compliance_data_platform.ProvidersAndDeals.Logs.{Log, Chain, RegistryLog, Capabilities}
use compliance_data_platform.ProvidersAndDeals.Prepare.{
  DbOperation, create_providers, create_capabilities, create_deals, create_requirements,
  create_terms, update_provider, update_capabilities, update_deal, create_state_changes,
  registration, proposal, state_change, registry_logs, market_logs, prepare_providers_creations,
  prepare_providers_updates, prepare_providers_capabilities_updates, prepare_deals_creations,
  prepare_deals_updates, prepare_deal_state_change_creations, prepare_updates, update_each_provider,
  update_each_capabilities,
}
use compliance_data_platform.ProvidersAndDeals.Rows.{Deal, new_deal}
use compliance_data_platform.ProvidersAndDeals.DealFold.{deal_steps, last_state}
use compliance_data_platform.ProvidersAndDeals.Batches.{
  on_deals, run_on_deals, deal_events, prepare_deals_updates-deal_steps,
}
use compliance_data_platform.ProvidersAndDeals.WholeBatch.{of_proposals}

-- The rows of the deals that a batch proposes.
abbrev pub new_deals : Chain → List Log → List (ℕ × Deal)
new_deals chain logs = map (λ r. (r.0, new_deal r.1)) (filter_map proposal (market_logs chain logs))

-- An operation on another table than that of deals.
abbrev IsElsewhere : DbOperation → Type 0
IsElsewhere (create_deals rows) = ⊥
IsElsewhere (update_deal k u) = ⊥
IsElsewhere _ = Unit

run_on_deals-append :
    (xs ys : List DbOperation) (t t' : Table Deal)
    → run_on_deals xs t ≡ some t'
    → run_on_deals (xs ++ ys) t ≡ run_on_deals ys t'
unfolding run_on_deals
run_on_deals-append [] ys t t' done = ap (run_on_deals ys) (some_inj done)
  where
    some_inj : some t ≡ some t' → t ≡ t'
    some_inj e = cc
run_on_deals-append (o ∷ xs) ys t t' done = elim (Option-cases (on_deals o t)) [
  | inl e ↦ absurd (none_some (rw e at done))
  | inr (t1, e) ↦ rw e (run_on_deals-append xs ys t1 t' (rw e at done))
]
  where
    none_some : none ≡ some t' → ⊥
    none_some h = cc

elsewhere :
    (ops : List DbOperation) (t : Table Deal) → All IsElsewhere ops → run_on_deals ops t ≡ some t
unfolding run_on_deals on_deals
elsewhere [] t h = refl
elsewhere (create_deals rows ∷ ops) t (here, h) = absurd here
elsewhere (update_deal k u ∷ ops) t (here, h) = absurd here
elsewhere (create_capabilities ids ∷ ops) t (here, h) = elsewhere ops t h
elsewhere (update_capabilities k c ∷ ops) t (here, h) = elsewhere ops t h
elsewhere (create_providers rows ∷ ops) t (here, h) = elsewhere ops t h
elsewhere (create_requirements rows ∷ ops) t (here, h) = elsewhere ops t h
elsewhere (create_terms rows ∷ ops) t (here, h) = elsewhere ops t h
elsewhere (update_provider k u ∷ ops) t (here, h) = elsewhere ops t h
elsewhere (create_state_changes rows ∷ ops) t (here, h) = elsewhere ops t h

after :
    (xs ys : List DbOperation) (t t' : Table Deal)
    → run_on_deals xs t ≡ some t'
    → All IsElsewhere ys
    → run_on_deals (xs ++ ys) t ≡ some t'
after xs ys t t' done h = run_on_deals-append xs ys t t' done ∙ elsewhere ys t' h

unless_empty-IsElsewhere :
    {A : Type 0} (l : List A) (ops : List DbOperation)
    → All IsElsewhere ops
    → All IsElsewhere (unless_empty l ops)
unless_empty-IsElsewhere [] ops h = tt
unless_empty-IsElsewhere (x ∷ l) ops h = h

registrations-IsElsewhere :
    (chain : Chain) (logs : List Log) → All IsElsewhere (prepare_providers_creations chain logs)
unfolding prepare_providers_creations
registrations-IsElsewhere chain logs =
    unless_empty-IsElsewhere (filter_map registration (registry_logs chain logs))
      (create_providers (filter_map registration (registry_logs chain logs))
        ∷ create_capabilities (map (λ r. r.0) (filter_map registration (registry_logs chain logs)))
        ∷ [])
      (tt, (tt, tt))

each_capabilities-IsElsewhere :
    (groups : List (ℕ × List (ℕ × Capabilities)))
    → All IsElsewhere (update_each_capabilities groups)
unfolding update_each_capabilities
each_capabilities-IsElsewhere [] = tt
each_capabilities-IsElsewhere ((id, []) ∷ groups) = each_capabilities-IsElsewhere groups
each_capabilities-IsElsewhere ((id, u ∷ us) ∷ groups) = (tt, each_capabilities-IsElsewhere groups)

capabilities-IsElsewhere :
    (chain : Chain) (logs : List Log)
    → All IsElsewhere (prepare_providers_capabilities_updates chain logs)
unfolding prepare_providers_capabilities_updates
capabilities-IsElsewhere chain logs = each_capabilities-IsElsewhere _

state_changes-IsElsewhere :
    (chain : Chain) (logs : List Log)
    → All IsElsewhere (prepare_deal_state_change_creations chain logs)
unfolding prepare_deal_state_change_creations
state_changes-IsElsewhere chain logs =
    unless_empty-IsElsewhere (filter_map state_change (market_logs chain logs))
      (create_state_changes (filter_map state_change (market_logs chain logs)) ∷ []) (tt, tt)

-- A column that adds and subtracts, for which the updates of providers are made.
abbrev adding : Operations → ℤ → ℤ
adding o x = elim o.increment [
  | some n ↦ x +ℤ n
  | none ↦ elim o.decrement [ some n ↦ x -ℤ n | none ↦ x ]
]

adding-IsColumn : IsColumn adding
adding-IsColumn = record { increment = λ n x. refl; decrement = λ n x. refl }

each_provider-IsElsewhere :
    (groups : List (ℕ × List RegistryLog))
    → (ops : List DbOperation) × (update_each_provider groups ≡ some ops) × All IsElsewhere ops
unfolding update_each_provider
each_provider-IsElsewhere [] = ([], refl, tt)
each_provider-IsElsewhere ((id, logs) ∷ groups) =
    let (u, reduced, writes) =
      reduce_provider_logs-steps adding adding-IsColumn (map (λ l. l.event) logs) in
    let (ops, prepared, h) = each_provider-IsElsewhere groups in
    (update_provider id u ∷ ops, rw (reduced, prepared) refl, (tt, h))

providers_updates-IsElsewhere :
    (chain : Chain) (logs : List Log)
    → (ops : List DbOperation) × (prepare_providers_updates chain logs ≡ some ops)
      × All IsElsewhere ops
unfolding prepare_providers_updates
providers_updates-IsElsewhere chain logs = each_provider-IsElsewhere _

deals_creations :
    (chain : Chain) (logs : List Log)
    → chain.get_deals ≢ none
    → (t : Table Deal) → ((k : ℕ) → count_key k (map (λ r. r.0) (new_deals chain logs)) ≤ 1)
    → All (λ r. t r.0 ≡ none) (new_deals chain logs)
    → (ops : List DbOperation) × (prepare_deals_creations chain logs ≡ some ops)
      × (t' : Table Deal) × (run_on_deals ops t ≡ some t')
      × ((k : ℕ) → t' k ≡ or_else (lookup k (new_deals chain logs)) (t k))
unfolding prepare_deals_creations run_on_deals on_deals lookup
deals_creations chain logs answers t once free =
    elim (List-cases (filter_map proposal (market_logs chain logs))) [
      | inl e ↦ ([], rw (e, prepare_deals_creations) refl, t, refl, λ k. rw e refl)
      | inr (p, ps, e) ↦ elim (Option-cases chain.get_deals) [
        | inl z ↦ absurd (answers z)
        | inr (deals, z) ↦
            let (t', made, at) = create_rows_lem (new_deals chain logs) t once free in
            (
              of_proposals (p ∷ ps) deals,
              rw (e, prepare_deals_creations, z) refl,
              t',
              ap (λ rows. run_on_deals (of_proposals rows deals) t) (sym e) ∙ rw made refl,
              at,
            )
      ]
    ]

-- When the node answers with the deals, the deals that a batch proposes are distinct and not there yet,
-- and the deals of all logs of the market are proposed, in the batch or before: the operations for the
-- batch are prepared and run on the deals without an error, and leave each deal, new or not, as the
-- effects of its logs, one after the other, leave it. A deal's last change of state is its state then.
pub prepare_updates-deal_steps :
    (chain : Chain) (logs : List Log) (t : Table Deal)
    → chain.get_deals ≢ none
    → ((k : ℕ) → count_key k (map (λ r. r.0) (new_deals chain logs)) ≤ 1)
    → All (λ r. t r.0 ≡ none) (new_deals chain logs)
    → All
        (λ l. or_else (lookup l.deal_id (new_deals chain logs)) (t l.deal_id) ≢ none)
        (market_logs chain logs)
    → (ops : List DbOperation) × (prepare_updates chain logs ≡ some ops)
      × (t' : Table Deal) × (run_on_deals ops t ≡ some t')
      × ((k : ℕ)
          → t' k
            ≡ map_option
                (deal_steps (deal_events k (market_logs chain logs)))
                (or_else (lookup k (new_deals chain logs)) (t k)))
      × ((k : ℕ)
          → map_option (λ d. d.state) (t' k)
            ≡ map_option
                (λ d. last_state (deal_events k (market_logs chain logs)) d.state)
                (or_else (lookup k (new_deals chain logs)) (t k)))
unfolding prepare_updates
prepare_updates-deal_steps chain logs t answers once free proposed =
    let (updates, prepared, h) = providers_updates-IsElsewhere chain logs in
    let (deals, prepared_deals, t1, made, at1) = deals_creations chain logs answers t once free in
    let there : All (λ l. t1 l.deal_id ≢ none) (market_logs chain logs) =
      All-weaken (λ l. or_else (lookup l.deal_id (new_deals chain logs)) (t l.deal_id) ≢ none)
        (λ l. t1 l.deal_id ≢ none) (λ l g e. g (sym (at1 l.deal_id) ∙ e)) (market_logs chain logs)
        proposed in
    let (t2, run, at2, states) = prepare_deals_updates-deal_steps chain logs t1 there in
    let a = prepare_providers_creations chain logs in
    let c = prepare_providers_capabilities_updates chain logs in
    let e = prepare_deals_updates chain logs in
    let f = prepare_deal_state_change_creations chain logs in
    let before : run_on_deals (a ++ updates ++ c) t ≡ some t =
      after (a ++ updates) c t t
        (after a updates t t (elsewhere a t (registrations-IsElsewhere chain logs)) h)
        (capabilities-IsElsewhere chain logs) in
    (
      a ++ updates ++ c ++ deals ++ e ++ f,
      rw (prepared_deals, prepared) refl,
      t2,
      after (a ++ updates ++ c ++ deals ++ e) f t t2
          (run_on_deals-append (a ++ updates ++ c ++ deals) e t t1
              (run_on_deals-append (a ++ updates ++ c) deals t t before ∙ made)
            ∙ run)
          (state_changes-IsElsewhere chain logs),
      λ k. at2 k ∙ ap (map_option (deal_steps (deal_events k (market_logs chain logs)))) (at1 k),
      λ k.
          states k
          ∙ ap (map_option (λ d. last_state (deal_events k (market_logs chain logs)) d.state))
              (at1 k),
    )
