-- ===== src/ProvidersAndDeals/WholeBatch.antt =====
-- All operations for a batch of logs on the tables of providers and deals, of
-- src/po-rep-indexer/runners/po-rep-providers-and-deals.runner.ts.
use compliance_data_platform.Prelude.{
  ℕ, ◌≡◌, ◌≢◌, ◌≤◌, refl, ap, sym, ◌∙◌, inl, inr, none, some, List, [], ◌∷◌, ◌++◌, map, filter, All,
  All-weaken, Option-cases, List-cases, String,
}
use compliance_data_platform.Numbers.{ℤ}
use compliance_data_platform.FieldUpdates.{Operations}
use compliance_data_platform.Tables.{Table, lookup, or_else, unless_empty, filter_map, is_key_in}
use compliance_data_platform.Tables.Keys.{count_key}
use compliance_data_platform.Tables.Updates.{map_option}
use compliance_data_platform.Tables.Creations.{create_rows_lem}
use compliance_data_platform.ProvidersAndDeals.Logs.{
  Proposal, DealTerms, Capabilities, MarketLog, Log, Chain,
}
use compliance_data_platform.ProvidersAndDeals.Prepare.{
  DbOperation, create_providers, create_capabilities, create_deals, create_requirements,
  create_terms, update_provider, update_capabilities, update_deal, create_state_changes,
  registration, proposal, state_change, registry_logs, market_logs, prepare_providers_creations,
  prepare_providers_capabilities_updates, prepare_deals_creations, prepare_deals_updates,
  prepare_deal_state_change_creations, prepare_updates, update_each_capabilities,
}
use compliance_data_platform.ProvidersAndDeals.Deals.{StateChange, reduce_deal_logs, no_update}
use compliance_data_platform.ProvidersAndDeals.Rows.{Provider, new_provider}
use compliance_data_platform.ProvidersAndDeals.ProviderFold.{IsColumn, provider_steps}
use compliance_data_platform.ProvidersAndDeals.Batches.{
  on_providers, run_on_providers, provider_events, prepare_providers_updates-provider_steps,
}

abbrev pub rows_of : List (ℕ × String × ℕ) → List (ℕ × Provider)
rows_of rs = map (λ r. (r.0, new_provider r.1 r.2)) rs

-- The rows of the providers that a batch registers.
abbrev pub new_providers : Chain → List Log → List (ℕ × Provider)
new_providers chain logs = rows_of (filter_map registration (registry_logs chain logs))

-- An operation on another table than that of providers.
abbrev IsElsewhere : DbOperation → Type 0
IsElsewhere (create_providers rows) = ⊥
IsElsewhere (update_provider k u) = ⊥
IsElsewhere _ = Unit

each_capabilities-IsElsewhere :
    (groups : List (ℕ × List (ℕ × Capabilities)))
    → All IsElsewhere (update_each_capabilities groups)
unfolding update_each_capabilities
each_capabilities-IsElsewhere [] = tt
each_capabilities-IsElsewhere ((id, []) ∷ groups) = each_capabilities-IsElsewhere groups
each_capabilities-IsElsewhere ((id, u ∷ us) ∷ groups) = (tt, each_capabilities-IsElsewhere groups)

capabilities-IsElsewhere :
    (chain : Chain) (logs : List Log)
    → All IsElsewhere (prepare_providers_capabilities_updates chain logs)
unfolding prepare_providers_capabilities_updates
capabilities-IsElsewhere chain logs = each_capabilities-IsElsewhere _

deals_updates-IsElsewhere :
    (chain : Chain) (logs : List Log) → All IsElsewhere (prepare_deals_updates chain logs)
unfolding prepare_deals_updates
deals_updates-IsElsewhere chain logs = each_group _
  where
    each_group :
        (groups : List (ℕ × List MarketLog))
        → All IsElsewhere (
            map (λ g. update_deal g.0 (reduce_deal_logs no_update (map (λ l. l.event) g.1))) groups)
    each_group [] = tt
    each_group (g ∷ groups) = (tt, each_group groups)

state_changes-IsElsewhere :
    (chain : Chain) (logs : List Log)
    → All IsElsewhere (prepare_deal_state_change_creations chain logs)
unfolding prepare_deal_state_change_creations
state_changes-IsElsewhere chain logs = of_changes (filter_map state_change (market_logs chain logs))
  where
    of_changes :
        (changes : List StateChange)
        → All IsElsewhere (unless_empty changes (create_state_changes changes ∷ []))
    of_changes [] = tt
    of_changes (c ∷ changes) = (tt, tt)

abbrev pub of_proposals : List (ℕ × Proposal) → List DealTerms → List DbOperation
of_proposals ps deals =
    create_deals ps
    ∷ create_requirements (map (λ q. (q.0, q.1.requirements)) ps)
    ∷ create_terms (filter (λ d. is_key_in d.deal_id (map (λ q. q.0) ps)) deals)
    ∷ []

-- Without a proposal the node is not asked.
deals_creations-IsElsewhere :
    (chain : Chain) (logs : List Log)
    → chain.get_deals ≢ none
    → (ops : List DbOperation) × (prepare_deals_creations chain logs ≡ some ops)
      × All IsElsewhere ops
unfolding prepare_deals_creations
deals_creations-IsElsewhere chain logs answers =
    elim (List-cases (filter_map proposal (market_logs chain logs))) [
      | inl e ↦ ([], rw (e, prepare_deals_creations) refl, tt)
      | inr (p, ps, e) ↦ elim (Option-cases chain.get_deals) [
        | inl z ↦ absurd (answers z)
        | inr (deals, z) ↦ (
          of_proposals (p ∷ ps) deals,
          rw (e, prepare_deals_creations, z) refl,
          (tt, (tt, (tt, tt))),
        )
      ]
    ]

module _ (column : Operations → ℤ → ℤ) where
  run_on_providers-append :
      (xs ys : List DbOperation) (t t' : Table Provider)
      → run_on_providers column xs t ≡ some t'
      → run_on_providers column (xs ++ ys) t ≡ run_on_providers column ys t'
  unfolding run_on_providers
  run_on_providers-append [] ys t t' done = ap (run_on_providers column ys) (some_inj done)
    where
      some_inj : some t ≡ some t' → t ≡ t'
      some_inj e = cc
  run_on_providers-append (o ∷ xs) ys t t' done = elim (Option-cases (on_providers column o t)) [
    | inl e ↦ absurd (none_some (rw e at done))
    | inr (t1, e) ↦ rw e (run_on_providers-append xs ys t1 t' (rw e at done))
  ]
    where
      none_some : none ≡ some t' → ⊥
      none_some h = cc

  elsewhere :
      (ops : List DbOperation) (t : Table Provider)
      → All IsElsewhere ops
      → run_on_providers column ops t ≡ some t
  unfolding run_on_providers on_providers
  elsewhere [] t h = refl
  elsewhere (create_providers rows ∷ ops) t (here, h) = absurd here
  elsewhere (update_provider k u ∷ ops) t (here, h) = absurd here
  elsewhere (create_capabilities ids ∷ ops) t (here, h) = elsewhere ops t h
  elsewhere (update_capabilities k c ∷ ops) t (here, h) = elsewhere ops t h
  elsewhere (create_deals rows ∷ ops) t (here, h) = elsewhere ops t h
  elsewhere (create_requirements rows ∷ ops) t (here, h) = elsewhere ops t h
  elsewhere (create_terms rows ∷ ops) t (here, h) = elsewhere ops t h
  elsewhere (update_deal k u ∷ ops) t (here, h) = elsewhere ops t h
  elsewhere (create_state_changes rows ∷ ops) t (here, h) = elsewhere ops t h

  after :
      (xs ys : List DbOperation) (t t' : Table Provider)
      → run_on_providers column xs t ≡ some t'
      → All IsElsewhere ys
      → run_on_providers column (xs ++ ys) t ≡ some t'
  after xs ys t t' done h = run_on_providers-append xs ys t t' done ∙ elsewhere ys t' h

  create_unless_empty :
      (rs : List (ℕ × String × ℕ)) (t : Table Provider)
      → ((k : ℕ) → count_key k (map (λ r. r.0) (rows_of rs)) ≤ 1)
      → All (λ r. t r.0 ≡ none) (rows_of rs)
      → (t' : Table Provider) × (run_on_providers column
            (unless_empty rs (create_providers rs ∷ create_capabilities (map (λ r. r.0) rs) ∷ []))
            t
          ≡ some t')
        × ((k : ℕ) → t' k ≡ or_else (lookup k (rows_of rs)) (t k))
  unfolding run_on_providers on_providers lookup
  create_unless_empty [] t once free = (t, refl, λ k. refl)
  create_unless_empty (r ∷ rs) t once free =
      let (t', done, at) = create_rows_lem (rows_of (r ∷ rs)) t once free in (t', rw done refl, at)

  -- When the node answers with the deals; the providers that a batch registers are distinct and not
  -- there yet; the providers of all logs of the registry are registered, in the batch or before; and an
  -- increment and a decrement of a column add and subtract: the operations for the batch are prepared
  -- and run on the providers without an error, and leave each provider, new or not, as the effects of
  -- its logs, one after the other, leave it.
  pub prepare_updates-provider_steps :
      (is_column : IsColumn column) (chain : Chain) (logs : List Log) (t : Table Provider)
      → chain.get_deals ≢ none
      → ((k : ℕ) → count_key k (map (λ r. r.0) (new_providers chain logs)) ≤ 1)
      → All (λ r. t r.0 ≡ none) (new_providers chain logs)
      → All
          (λ l. or_else (lookup l.provider (new_providers chain logs)) (t l.provider) ≢ none)
          (registry_logs chain logs)
      → (ops : List DbOperation) × (prepare_updates chain logs ≡ some ops)
        × (t' : Table Provider) × (run_on_providers column ops t ≡ some t')
        × ((k : ℕ)
            → t' k
              ≡ map_option
                  (provider_steps (provider_events k (registry_logs chain logs)))
                  (or_else (lookup k (new_providers chain logs)) (t k)))
  unfolding prepare_updates prepare_providers_creations
  prepare_updates-provider_steps is_column chain logs t answers once free registered =
      let (deals, prepared_deals, deals_elsewhere) =
        deals_creations-IsElsewhere chain logs answers in
      let (t1, made, at1) =
        create_unless_empty (filter_map registration (registry_logs chain logs)) t once free in
      let there : All (λ l. t1 l.provider ≢ none) (registry_logs chain logs) =
        All-weaken
          (λ l. or_else (lookup l.provider (new_providers chain logs)) (t l.provider) ≢ none)
          (λ l. t1 l.provider ≢ none) (λ l h e. h (sym (at1 l.provider) ∙ e))
          (registry_logs chain logs) registered in
      let (updates, prepared, t2, run, at2) =
        prepare_providers_updates-provider_steps column is_column chain logs t1 there in
      let a = prepare_providers_creations chain logs in
      let c = prepare_providers_capabilities_updates chain logs in
      let e = prepare_deals_updates chain logs in
      let f = prepare_deal_state_change_creations chain logs in
      (
        a ++ updates ++ c ++ deals ++ e ++ f,
        rw (prepared_deals, prepared) refl,
        t2,
        after (a ++ updates ++ c ++ deals ++ e) f t t2
            (after (a ++ updates ++ c ++ deals) e t t2
              (after (a ++ updates ++ c) deals t t2
                (after (a ++ updates) c t t2 (run_on_providers-append a updates t t1 made ∙ run)
                  (capabilities-IsElsewhere chain logs))
                deals_elsewhere)
              (deals_updates-IsElsewhere chain logs))
            (state_changes-IsElsewhere chain logs),
        λ k.
            at2 k
            ∙ ap (map_option (provider_steps (provider_events k (registry_logs chain logs))))
                (at1 k),
      )
