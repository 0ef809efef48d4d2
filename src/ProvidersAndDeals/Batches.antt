-- ===== src/ProvidersAndDeals/Batches.antt =====
-- A batch of logs on the tables of providers and deals, of
-- src/po-rep-indexer/runners/po-rep-providers-and-deals.runner.ts.
use compliance_data_platform.Prelude.{
  ℕ, ◌<◌, ◌≡◌, ◌≢◌, refl, ap, subst, ◌∙◌, inl, inr, true, false, Option, none, some, List, [], ◌∷◌,
  ◌==◌, ◌>>=◌, false≢true, map, filter, All, Bool-cases, Option-cases, arith, ==_refl, ==_iff,
}
use compliance_data_platform.Numbers.{ℤ}
use compliance_data_platform.FieldUpdates.{Operations}
use compliance_data_platform.Tables.{
  Table, put, update_row, update_rows, create_rows, entries, object_keys, is_key_in,
}
use compliance_data_platform.Tables.Keys.{count_key, count_key-object_keys}
use compliance_data_platform.Tables.Updates.{
  map-map, map_option_unchanged, filter_absent, map_option, update_rows_lem,
}
use compliance_data_platform.ProvidersAndDeals.Logs.{
  Log, RegistryLog, MarketLog, RegistryEvent, MarketEvent, Chain,
}
use compliance_data_platform.ProvidersAndDeals.Providers.{ProviderUpdate}
use compliance_data_platform.ProvidersAndDeals.Deals.{reduce_deal_logs, no_update as no_deal_update}
use compliance_data_platform.ProvidersAndDeals.Prepare.{
  DbOperation, create_providers, update_provider, create_deals, update_deal, registry_logs,
  market_logs, update_each_provider, prepare_providers_updates, prepare_deals_updates,
}
use compliance_data_platform.ProvidersAndDeals.Rows.{
  Provider, Deal, write_provider, write_deal, new_provider, new_deal,
}
use compliance_data_platform.ProvidersAndDeals.ProviderFold.{
  IsColumn, provider_steps, reduce_provider_logs-steps,
}
use compliance_data_platform.ProvidersAndDeals.DealFold.{
  deal_steps, last_state, deal_steps-last_state, reduce_deal_logs-steps,
}

-- What an operation does to the providers: the operations on other tables leave them.
unfoldable pub on_providers :
    (Operations → ℤ → ℤ) → DbOperation → Table Provider → Option (Table Provider)
on_providers column (create_providers rows) t =
    create_rows (map (λ r. (r.0, new_provider r.1 r.2)) rows) t
on_providers column (update_provider id u) t = update_row id (write_provider column u) t
on_providers column _ t = some t

unfoldable pub run_on_providers :
    (Operations → ℤ → ℤ) → List DbOperation → Table Provider → Option (Table Provider)
run_on_providers column [] t = some t
run_on_providers column (o ∷ os) t = do t' ← on_providers column o t; run_on_providers column os t'

unfoldable pub on_deals : DbOperation → Table Deal → Option (Table Deal)
on_deals (create_deals rows) t = create_rows (map (λ r. (r.0, new_deal r.1)) rows) t
on_deals (update_deal id u) t = update_row id (write_deal u) t
on_deals _ t = some t

unfoldable pub run_on_deals : List DbOperation → Table Deal → Option (Table Deal)
run_on_deals [] t = some t
run_on_deals (o ∷ os) t = do t' ← on_deals o t; run_on_deals os t'

-- The events of one provider, or of one deal.
abbrev pub provider_events : ℕ → List RegistryLog → List RegistryEvent
provider_events k logs = map (λ l. l.event) (filter (λ l. l.provider == k) logs)

abbrev pub deal_events : ℕ → List MarketLog → List MarketEvent
deal_events k logs = map (λ l. l.event) (filter (λ l. l.deal_id == k) logs)

update_row_ext :
    {A : Type 0} (k : ℕ) (f g : A → A) (t : Table A)
    → ((a : A) → f a ≡ g a)
    → update_row k f t ≡ update_row k g t
unfolding update_row
update_row_ext k f g t same = elim (Option-cases (t k)) [
  | inl e ↦ rw (e, update_row) refl
  | inr (a, e) ↦ rw (e, update_row) (ap (λ b. some (put k b t)) (same a))
]

All_of_count : (P : ℕ → Type 0) (l : List ℕ) → ((k : ℕ) → 0 < count_key k l → P k) → All P l
All_of_count P [] h = tt
All_of_count P (x ∷ l) h =
    (h x (ground (arith, ==_refl x)), All_of_count P l (λ k e. h k (ground arith)))

is_key_in-All :
    {A : Type 0} (P : ℕ → Type 0) (key : A → ℕ) (k : ℕ) (l : List A)
    → All (λ a. P (key a)) l
    → is_key_in k (map key l) ≡ true
    → P k
unfolding is_key_in
is_key_in-All P key k [] all h = absurd (false≢true h)
is_key_in-All P key k (a ∷ l) (here, all) h = elim (Bool-cases (key a == k)) [
  | inl same ↦ subst P ((==_iff (key a) k).0 same) here
  | inr other ↦ is_key_in-All P key k l all (rw other at h)
]

-- The keys of a group are those of its list.
object_keys-All :
    {A : Type 0} (P : ℕ → Type 0) (key : A → ℕ) (l : List A)
    → All (λ a. P (key a)) l
    → All P (object_keys (map key l))
object_keys-All P key l all =
    All_of_count P (object_keys (map key l))
      (λ k h. is_key_in-All P key k l all (ground (arith, count_key-object_keys k (map key l))))

-- Updates of the rows of all the groups change each row of the table by its group.
pub update_rows-object_keys :
    {A R : Type 0} (key : A → ℕ) (logs : List A) (f : ℕ → R → R)
    → ((k : ℕ) → is_key_in k (map key logs) ≡ false → (r : R) → f k r ≡ r)
    → (t : Table R) → All (λ a. t (key a) ≢ none) logs
    → (t' : Table R) × (update_rows f (object_keys (map key logs)) t ≡ some t')
      × ((k : ℕ) → t' k ≡ map_option (f k) (t k))
update_rows-object_keys key logs f kept t there =
    let keys = object_keys (map key logs) in
    let (t', done, at) =
      update_rows_lem f keys t (λ k. ground (arith, count_key-object_keys k (map key logs)))
        (object_keys-All (λ k. t k ≢ none) key logs there) in
    (
      t',
      done,
      λ k. elim (Bool-cases (is_key_in k (map key logs))) [
        | inl e ↦ at k ∙ rw (count_key-object_keys k (map key logs), e) refl
        | inr e ↦
            at k
            ∙ rw (count_key-object_keys k (map key logs), e)
                (map_option_unchanged (f k) (kept k e) (t k))
      ],
    )

no_events :
    {A E : Type 0} (key : A → ℕ) (event : A → E) (k : ℕ) (logs : List A)
    → is_key_in k (map key logs) ≡ false
    → map event (filter (λ a. key a == k) logs) ≡ []
no_events key event k logs e = ap (map event) (filter_absent key k logs e)

module _ (column : Operations → ℤ → ℤ) (is_column : IsColumn column) where
  first_provider :
      (k : ℕ) (keys : List ℕ) (f : ℕ → Provider → Provider) (t : Table Provider)
      (u : ProviderUpdate)
      → ((p : Provider) → write_provider column u p ≡ f k p)
      → (ops : List DbOperation)
      → ((t : Table Provider) → run_on_providers column ops t ≡ update_rows f keys t)
      → run_on_providers column (update_provider k u ∷ ops) t ≡ update_rows f (k ∷ keys) t
  unfolding run_on_providers update_rows on_providers
  first_provider k keys f t u writes ops runs =
      rw (update_row_ext k (write_provider column u) (f k) t writes)
        (elim (Option-cases (update_row k (f k) t)) [
          | inl e ↦ rw e refl
          | inr (t', e) ↦ rw e (runs t')
        ])

  -- The operation of each group is there, and running them updates each row by its own events.
  each_provider :
      (logs : List RegistryLog) (keys : List ℕ)
      → (ops : List DbOperation) × (update_each_provider
            (map (λ k. (k, filter (λ l. l.provider == k) logs)) keys)
          ≡ some ops)
        × ((t : Table Provider)
            → run_on_providers column ops t
              ≡ update_rows (λ k. provider_steps (provider_events k logs)) keys t)
  unfolding update_each_provider run_on_providers update_rows
  each_provider logs [] = ([], refl, λ t. refl)
  each_provider logs (k ∷ keys) =
      let (u, reduced, writes) =
        reduce_provider_logs-steps column is_column (provider_events k logs) in
      let (ops, prepared, runs) = each_provider logs keys in
      (
        update_provider k u ∷ ops,
        rw (reduced, prepared) refl,
        λ t.
            first_provider k keys (λ n. provider_steps (provider_events n logs)) t u writes ops
              runs,
      )

  -- When the providers of all logs of the registry in a batch have a row, and an increment and a
  -- decrement of a column add and subtract: the updates of providers are prepared without an error, run
  -- without an error, and leave each provider as the effects of its logs, one after the other in the
  -- order of the batch, leave it.
  pub prepare_providers_updates-provider_steps :
      (chain : Chain) (logs : List Log) (t : Table Provider)
      → All (λ l. t l.provider ≢ none) (registry_logs chain logs)
      → (ops : List DbOperation) × (prepare_providers_updates chain logs ≡ some ops)
        × (t' : Table Provider) × (run_on_providers column ops t ≡ some t')
        × ((k : ℕ)
            → t' k
              ≡ map_option (provider_steps (provider_events k (registry_logs chain logs))) (t k))
  unfolding prepare_providers_updates entries provider_steps
  prepare_providers_updates-provider_steps chain logs t there =
      let ls = registry_logs chain logs in
      let f = λ (k : ℕ). provider_steps (provider_events k ls) in
      let (ops, prepared, runs) = each_provider ls (object_keys (map (λ l. l.provider) ls)) in
      let (t', done, at) =
        update_rows-object_keys (λ l. l.provider) ls f
          (λ k e p. rw (no_events (λ l. l.provider) (λ l. l.event) k ls e) refl) t there in
      (ops, prepared, t', runs t ∙ done, at)

each_deal :
    (logs : List MarketLog) (keys : List ℕ) (t : Table Deal)
    → run_on_deals
        (map (λ k. update_deal k (reduce_deal_logs no_deal_update (deal_events k logs))) keys)
        t
      ≡ update_rows (λ k. deal_steps (deal_events k logs)) keys t
unfolding run_on_deals update_rows on_deals
each_deal logs [] t = refl
each_deal logs (k ∷ keys) t =
    rw
      (update_row_ext k (write_deal (reduce_deal_logs no_deal_update (deal_events k logs)))
        (deal_steps (deal_events k logs)) t (reduce_deal_logs-steps (deal_events k logs)))
      (elim (Option-cases (update_row k (deal_steps (deal_events k logs)) t)) [
        | inl e ↦ rw e refl
        | inr (t', e) ↦ rw e (each_deal logs keys t')
      ])

-- When the deals of all logs of the market in a batch have a row, the updates of deals run without an
-- error and leave each deal as the effects of its logs, one after the other, leave it. Its state is
-- that of its last log which is a change of state.
pub prepare_deals_updates-deal_steps :
    (chain : Chain) (logs : List Log) (t : Table Deal)
    → All (λ l. t l.deal_id ≢ none) (market_logs chain logs)
    → (t' : Table Deal) × (run_on_deals (prepare_deals_updates chain logs) t ≡ some t')
      × ((k : ℕ) → t' k ≡ map_option (deal_steps (deal_events k (market_logs chain logs))) (t k))
      × ((k : ℕ)
          → map_option (λ d. d.state) (t' k)
            ≡ map_option (λ d. last_state (deal_events k (market_logs chain logs)) d.state) (t k))
unfolding prepare_deals_updates entries deal_steps
prepare_deals_updates-deal_steps chain logs t there =
    let ls = market_logs chain logs in
    let keys = object_keys (map (λ l. l.deal_id) ls) in
    let f = λ (k : ℕ). deal_steps (deal_events k ls) in
    let (t', done, at) =
      update_rows-object_keys (λ l. l.deal_id) ls f
        (λ k e d. rw (no_events (λ l. l.deal_id) (λ l. l.event) k ls e) refl) t there in
    (
      t',
      rw
          (map-map (λ (k : ℕ). (k, filter (λ l. l.deal_id == k) ls))
            (λ (g : ℕ × List MarketLog).
              update_deal g.0 (reduce_deal_logs no_deal_update (map (λ l. l.event) g.1)))
            keys)
          (each_deal ls keys t ∙ done),
      at,
      λ k. ap (map_option (λ d. d.state)) (at k) ∙ states (deal_events k ls) (t k),
    )
  where
    states :
        (es : List MarketEvent) (o : Option Deal)
        → map_option (λ d. d.state) (map_option (deal_steps es) o)
          ≡ map_option (λ d. last_state es d.state) o
    states es none = refl
    states es (some d) = ap some (deal_steps-last_state es d)
