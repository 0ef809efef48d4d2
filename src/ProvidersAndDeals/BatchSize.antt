-- ===== src/ProvidersAndDeals/BatchSize.antt =====
-- Batches of logs of different sizes, of
-- src/po-rep-indexer/runners/po-rep-providers-and-deals.runner.ts.
use compliance_data_platform.Prelude.{
  ℕ, ◌≡◌, ◌≢◌, refl, ap, sym, subst, ◌∙◌, inl, inr, Bool, Option, none, some, List, [], ◌∷◌, ◌++◌,
  ◌==◌, map, filter, All, All-weaken, Option-cases, arith, map-append, ◌>>=◌,
}
use compliance_data_platform.Numbers.{ℤ}
use compliance_data_platform.FieldUpdates.{Operations}
use compliance_data_platform.Tables.{filter_map, Table}
use compliance_data_platform.Tables.Updates.{map_option}
use compliance_data_platform.ProvidersAndDeals.Logs.{Log, RegistryLog, RegistryEvent, Chain}
use compliance_data_platform.ProvidersAndDeals.Prepare.{
  DbOperation, registry_logs, registry_log, prepare_providers_updates,
}
use compliance_data_platform.ProvidersAndDeals.Rows.{Provider}
use compliance_data_platform.ProvidersAndDeals.ProviderFold.{
  IsColumn, provider_step, provider_steps,
}
use compliance_data_platform.ProvidersAndDeals.Batches.{
  run_on_providers, provider_events, prepare_providers_updates-provider_steps,
}

provider_steps-append :
    (xs ys : List RegistryEvent) (p : Provider)
    → provider_steps (xs ++ ys) p ≡ provider_steps ys (provider_steps xs p)
unfolding provider_steps
provider_steps-append [] ys p = refl
provider_steps-append (x ∷ xs) ys p = provider_steps-append xs ys (provider_step x p)

filter_map-append :
    {A B : Type 0} (f : A → Option B) (xs ys : List A)
    → filter_map f (xs ++ ys) ≡ filter_map f xs ++ filter_map f ys
unfolding filter_map
filter_map-append f [] ys = refl
filter_map-append f (x ∷ xs) ys = elim (Option-cases (f x)) [
  | inl e ↦ rw (e, filter_map) (filter_map-append f xs ys)
  | inr (b, e) ↦ rw (e, filter_map) (ap (λ l. b ∷ l) (filter_map-append f xs ys))
]

filter-append :
    {A : Type 0} (p : A → Bool) (xs ys : List A) → filter p (xs ++ ys) ≡ filter p xs ++ filter p ys
filter-append p [] ys = refl
filter-append p (x ∷ xs) ys = ground (arith, filter-append p xs ys)

provider_events-append :
    (k : ℕ) (xs ys : List RegistryLog)
    → provider_events k (xs ++ ys) ≡ provider_events k xs ++ provider_events k ys
provider_events-append k xs ys =
    ap (map (λ l. l.event)) (filter-append (λ l. l.provider == k) xs ys)
    ∙ map-append (λ l. l.event) (filter (λ l. l.provider == k) xs)
        (filter (λ l. l.provider == k) ys)

All-split : {A : Type 0} (P : A → Type 0) (xs ys : List A) → All P (xs ++ ys) → All P xs × All P ys
All-split P [] ys h = (tt, h)
All-split P (x ∷ xs) ys (here, h) = let (left, right) = All-split P xs ys h in ((here, left), right)

map_option-none : {A B : Type 0} (f : A → B) (o : Option A) → o ≢ none → map_option f o ≢ none
map_option-none f none h e = h refl
map_option-none f (some a) h e = cc

map_option_twice :
    (xs ys : List RegistryEvent) (o : Option Provider)
    → map_option (provider_steps (xs ++ ys)) o
      ≡ map_option (provider_steps ys) (map_option (provider_steps xs) o)
map_option_twice xs ys none = refl
map_option_twice xs ys (some p) = ap some (provider_steps-append xs ys p)

module _ (column : Operations → ℤ → ℤ) (is_column : IsColumn column) where
  -- Under the conditions of the updates of one batch: the updates of providers of two batches, one
  -- after the other, and those of the two batches as one, run without an error and leave the same rows.
  pub prepare_providers_updates-append :
      (chain : Chain) (logs more : List Log) (t : Table Provider)
      → All (λ l. t l.provider ≢ none) (registry_logs chain (logs ++ more))
      → (ops : List DbOperation) × (prepare_providers_updates chain (logs ++ more) ≡ some ops)
        × (ops1 : List DbOperation) × (prepare_providers_updates chain logs ≡ some ops1)
        × (ops2 : List DbOperation) × (prepare_providers_updates chain more ≡ some ops2)
        × (t' : Table Provider) × (run_on_providers column ops t ≡ some t')
        × (t'' : Table Provider) × ((do
          t1 ← run_on_providers column ops1 t
          run_on_providers column ops2 t1)
            ≡ some t'')
        × ((k : ℕ) → t' k ≡ t'' k)
  unfolding registry_logs
  prepare_providers_updates-append chain logs more t there =
      let xs = registry_logs chain logs in
      let ys = registry_logs chain more in
      let split = filter_map-append (registry_log chain) logs more in
      let (left, right) =
        All-split (λ l. t l.provider ≢ none) xs ys
          (subst (All (λ l. t l.provider ≢ none)) split there) in
      let (ops, prepared, t', run, at) =
        prepare_providers_updates-provider_steps column is_column chain (logs ++ more) t there in
      let (ops1, prepared1, t1, run1, at1) =
        prepare_providers_updates-provider_steps column is_column chain logs t left in
      let still : All (λ l. t1 l.provider ≢ none) ys =
        All-weaken (λ l. t l.provider ≢ none) (λ l. t1 l.provider ≢ none)
          (λ l h e. map_option-none _ (t l.provider) h (sym (at1 l.provider) ∙ e)) ys right in
      let (ops2, prepared2, t2, run2, at2) =
        prepare_providers_updates-provider_steps column is_column chain more t1 still in
      (
        ops,
        prepared,
        ops1,
        prepared1,
        ops2,
        prepared2,
        t',
        run,
        t2,
        rw run1 run2,
        λ k.
            at k
            ∙ ap (λ l. map_option (provider_steps (provider_events k l)) (t k)) split
            ∙ ap (λ es. map_option (provider_steps es) (t k)) (provider_events-append k xs ys)
            ∙ map_option_twice (provider_events k xs) (provider_events k ys) (t k)
            ∙ ap (map_option (provider_steps (provider_events k ys))) (sym (at1 k))
            ∙ sym (at2 k),
      )
