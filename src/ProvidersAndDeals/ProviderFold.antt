-- ===== src/ProvidersAndDeals/ProviderFold.antt =====
-- One update of a provider for all its logs in a batch, against its logs one after the other, of
-- src/po-rep-indexer/runners/po-rep-providers-and-deals.runner.ts.
use compliance_data_platform.Prelude.{◌≡◌, refl, ap, sym, ◌∙◌, true, false, some, List, [], ◌∷◌}
use compliance_data_platform.Numbers.{ℤ, pos}
use compliance_data_platform.Numbers.Signed.{◌+ℤ◌, ◌-ℤ◌, negate, int_laws}
use compliance_data_platform.FieldUpdates.{
  Operations, Update, no_operations, merge_big_int_field_update,
}
use compliance_data_platform.FieldUpdates.Merge.{
  Adds, nothing, up, down, plus, minus, merge-Adds, Relative, update_of, amount,
}
use compliance_data_platform.ProvidersAndDeals.Logs.{
  RegistryEvent, available_space_updated, capacity_committed, capacity_released, price_updated,
  pending_capacity_reserved, pending_capacity_released, provider_blocked, provider_unblocked,
  provider_paused, provider_unpaused, payee_updated, deal_duration_limits_updated,
  provider_registered, capabilities_updated,
}
use compliance_data_platform.ProvidersAndDeals.Providers.{
  ProviderUpdate, no_update, log_to_provider_update_input, reduce_provider_logs,
}
use compliance_data_platform.ProvidersAndDeals.Rows.{Provider, write_provider, write_field}

-- What a log means for the provider that it is of.
unfoldable pub provider_step : RegistryEvent → Provider → Provider
provider_step (available_space_updated n) p = record p { available_bytes = pos n }
provider_step (capacity_committed n) p = record p { committed_bytes = p.committed_bytes +ℤ pos n }
provider_step (capacity_released n) p = record p { committed_bytes = p.committed_bytes -ℤ pos n }
provider_step (price_updated n) p = record p { price_per_sector_per_month = n }
provider_step (pending_capacity_reserved n) p = record p {
  pending_bytes = p.pending_bytes +ℤ pos n;
}
provider_step (pending_capacity_released n) p = record p {
  pending_bytes = p.pending_bytes -ℤ pos n;
}
provider_step provider_blocked p = record p { blocked = true }
provider_step provider_unblocked p = record p { blocked = false }
provider_step provider_paused p = record p { paused = true }
provider_step provider_unpaused p = record p { paused = false }
provider_step (payee_updated a) p = record p { payee = a }
provider_step (deal_duration_limits_updated least most) p = record p {
  min_deal_duration_days = least;
  max_deal_duration_days = most;
}
provider_step (provider_registered organization) p = p
provider_step (capabilities_updated capabilities) p = p

unfoldable pub provider_steps : List RegistryEvent → Provider → Provider
provider_steps [] p = p
provider_steps (e ∷ es) p = provider_steps es (provider_step e p)

-- What the database does with an increment and a decrement of a bigint column.
pub record IsColumn (column : Operations → ℤ → ℤ) : Type 0 where
  pub increment : (n x : ℤ) → column (record no_operations { increment = some n }) x ≡ x +ℤ n
  pub decrement : (n x : ℤ) → column (record no_operations { decrement = some n }) x ≡ x -ℤ n

pub record Sums (u : ProviderUpdate) : Type 0 where
  pub committed : ℤ
  pub pending : ℤ
  pub adds_committed : Adds u.committed_bytes committed
  pub adds_pending : Adds u.pending_bytes pending

module _ (column : Operations → ℤ → ℤ) (is_column : IsColumn column) where
  write-Adds : {u : Update} {a : ℤ} → Adds u a → (x : ℤ) → write_field column u x ≡ x +ℤ a
  write-Adds nothing x = omega int_laws
  write-Adds (up n) x = is_column.increment n x
  write-Adds (down n) x = is_column.decrement n x ∙ omega int_laws

  merge-write :
      {u : Update} {a : ℤ}
      → Adds u a
      → (r : Relative)
      → (u' : Update) × (merge_big_int_field_update u (update_of r) ≡ some u')
        × Adds u' (a +ℤ amount r)
        × ((x : ℤ) → write_field column u' x ≡ write_field column u x +ℤ amount r)
  merge-write {u} {a} adds r =
      let (u', merged, adds') = merge-Adds adds r in
      (
        u',
        merged,
        adds',
        λ x.
            write-Adds adds' x
            ∙ regroup x a (amount r)
            ∙ ap (λ z. z +ℤ amount r) (sym (write-Adds adds x)),
      )
    where
      regroup : (x a b : ℤ) → x +ℤ (a +ℤ b) ≡ x +ℤ a +ℤ b
      regroup x a b = omega int_laws

  committed-step :
      (u : ProviderUpdate)
      → Sums u
      → (r : Relative)
      → (c : Update) × (merge_big_int_field_update u.committed_bytes (update_of r) ≡ some c)
        × Sums (record u { committed_bytes = c })
        × ((p : Provider)
            → write_provider column (record u { committed_bytes = c }) p ≡ (
                let q = write_provider column u p in
                record q { committed_bytes = q.committed_bytes +ℤ amount r }))
  unfolding write_provider
  committed-step u s r =
      let (c, merged, adds, at) = merge-write s.adds_committed r in
      (
        c,
        merged,
        record { committed = _; pending = _; adds_committed = adds; adds_pending = s.adds_pending },
        λ p.
            ap (λ z. record (write_provider column u p) { committed_bytes = z })
              (at p.committed_bytes),
      )

  pending-step :
      (u : ProviderUpdate)
      → Sums u
      → (r : Relative)
      → (c : Update) × (merge_big_int_field_update u.pending_bytes (update_of r) ≡ some c)
        × Sums (record u { pending_bytes = c })
        × ((p : Provider)
            → write_provider column (record u { pending_bytes = c }) p ≡ (
                let q = write_provider column u p in
                record q { pending_bytes = q.pending_bytes +ℤ amount r }))
  unfolding write_provider
  pending-step u s r =
      let (c, merged, adds, at) = merge-write s.adds_pending r in
      (
        c,
        merged,
        record {
          committed = _;
          pending = _;
          adds_committed = s.adds_committed;
          adds_pending = adds;
        },
        λ p.
            ap (λ z. record (write_provider column u p) { pending_bytes = z }) (at p.pending_bytes),
      )

  add_negated : (x a : ℤ) → x +ℤ negate a ≡ x -ℤ a
  add_negated x a = omega int_laws

  -- Taking a log into the update and writing it is writing the update, and then the log's own effect.
  log-step :
      (u : ProviderUpdate)
      → Sums u
      → (e : RegistryEvent)
      → (u' : ProviderUpdate) × (log_to_provider_update_input u e ≡ some u')
        × Sums u'
        × ((p : Provider)
            → write_provider column u' p ≡ provider_step e (write_provider column u p))
  unfolding log_to_provider_update_input write_provider provider_step
  log-step u s (capacity_committed n) =
      let (c, merged, s', at) = committed-step u s (plus (pos n)) in (_, rw merged refl, s', at)
  log-step u s (capacity_released n) =
      let (c, merged, s', at) = committed-step u s (minus (pos n)) in
      (
        _,
        rw merged refl,
        s',
        λ p.
            at p
            ∙ ap (λ z. record (write_provider column u p) { committed_bytes = z })
                (add_negated _ (pos n)),
      )
  log-step u s (pending_capacity_reserved n) =
      let (c, merged, s', at) = pending-step u s (plus (pos n)) in (_, rw merged refl, s', at)
  log-step u s (pending_capacity_released n) =
      let (c, merged, s', at) = pending-step u s (minus (pos n)) in
      (
        _,
        rw merged refl,
        s',
        λ p.
            at p
            ∙ ap (λ z. record (write_provider column u p) { pending_bytes = z })
                (add_negated _ (pos n)),
      )
  log-step u s e = (
    _,
    refl,
    record {
      committed = s.committed;
      pending = s.pending;
      adds_committed = s.adds_committed;
      adds_pending = s.adds_pending;
    },
    λ p. refl,
  )

  reduce-steps :
      (u : ProviderUpdate)
      → Sums u
      → (es : List RegistryEvent)
      → (u' : ProviderUpdate) × (reduce_provider_logs u es ≡ some u')
        × ((p : Provider)
            → write_provider column u' p ≡ provider_steps es (write_provider column u p))
  unfolding reduce_provider_logs provider_steps
  reduce-steps u s [] = (u, refl, λ p. refl)
  reduce-steps u s (e ∷ es) =
      let (u1, taken, s1, at1) = log-step u s e in
      let (u', done, at) = reduce-steps u1 s1 es in
      (u', rw taken done, λ p. at p ∙ ap (provider_steps es) (at1 p))

  -- The update that is made of a provider's logs never throws, and writing it to the row is the same
  -- as the effect of each log on the row, in their order.
  pub reduce_provider_logs-steps :
      (es : List RegistryEvent)
      → (u : ProviderUpdate) × (reduce_provider_logs no_update es ≡ some u)
        × ((p : Provider) → write_provider column u p ≡ provider_steps es p)
  unfolding write_provider
  reduce_provider_logs-steps es =
      reduce-steps no_update
        (record { committed = _; pending = _; adds_committed = nothing; adds_pending = nothing }) es
