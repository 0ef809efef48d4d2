-- ===== src/FilecoinPay/Batches.antt =====
-- A batch of logs on the table of rails, of src/po-rep-indexer/runners/filecoin-pay-indexer.runner.ts.
use compliance_data_platform.Prelude.{
  ℕ, ◌≡◌, ◌≤◌, refl, ap, ◌∙◌, inl, inr, true, false, Option, none, some, List, [], ◌∷◌, ◌++◌, ◌==◌,
  ◌>>=◌, map, filter, All, Option-cases,
}
use compliance_data_platform.Numbers.{ℤ, pos}
use compliance_data_platform.Numbers.Signed.{◌-ℤ◌}
use compliance_data_platform.Tables.{
  Table, put, update_many, update_each, create_rows, lookup, or_else, entries, object_keys,
  unless_empty,
}
use compliance_data_platform.Tables.Keys.{count_key}
use compliance_data_platform.Tables.Updates.{map-map, map_option, filter_absent}
use compliance_data_platform.Tables.Many.{update_each-object_keys}
use compliance_data_platform.Tables.Creations.{create_rows_lem}
use compliance_data_platform.FilecoinPay.Logs.{Log, Contract, RailEvent}
use compliance_data_platform.FilecoinPay.Rails.{Rail, no_update, reduce_rail_logs, write_rail}
use compliance_data_platform.FilecoinPay.Prepare.{
  DbOperation, create_rails, update_rails, create_payments, at_block, new_rails, filecoin_pay_logs,
  prepare_rails_creations, prepare_rail_updates, prepare_payments_creations, prepare_updates,
}
use compliance_data_platform.FilecoinPay.RailFold.{rail_steps, pays_first, reduce_rail_logs-steps}

-- The logs of one rail, as the fold reads them.
abbrev pub rail_events : ℕ → List Log → List (ℕ × RailEvent)
rail_events k logs = map at_block (filter (λ l. l.rail_id == k) logs)

-- What an operation does to the rails: the creation of payments leaves them.
unfoldable pub on_rails : (ℕ → ℤ → ℤ) → DbOperation → Table Rail → Option (Table Rail)
on_rails lower (create_rails rows) t = create_rows rows t
on_rails lower (update_rails k u) t = some (update_many k (write_rail lower u) t)
on_rails lower (create_payments rows) t = some t

unfoldable pub run_on_rails : (ℕ → ℤ → ℤ) → List DbOperation → Table Rail → Option (Table Rail)
run_on_rails lower [] t = some t
run_on_rails lower (o ∷ os) t = do t' ← on_rails lower o t; run_on_rails lower os t'

run_on_rails-append :
    (lower : ℕ → ℤ → ℤ) (xs ys : List DbOperation) (t t' : Table Rail)
    → run_on_rails lower xs t ≡ some t'
    → run_on_rails lower (xs ++ ys) t ≡ run_on_rails lower ys t'
unfolding run_on_rails
run_on_rails-append lower [] ys t t' done = ap (run_on_rails lower ys) (some_inj done)
  where
    from : Option (Table Rail) → Table Rail
    from none = t
    from (some x) = x

    some_inj : some t ≡ some t' → t ≡ t'
    some_inj e = ap from e
run_on_rails-append lower (o ∷ xs) ys t t' done = elim (Option-cases (on_rails lower o t)) [
  | inl e ↦ absurd (none_some (rw e at done))
  | inr (t1, e) ↦ rw e (run_on_rails-append lower xs ys t1 t' (rw e at done))
]
  where
    none_some : none ≡ some t' → ⊥
    none_some h = cc

update_many_ext :
    {A : Type 0} (k : ℕ) (f g : A → A) (t : Table A)
    → ((a : A) → f a ≡ g a)
    → update_many k f t ≡ update_many k g t
unfolding update_many
update_many_ext k f g t same = elim (Option-cases (t k)) [
  | inl e ↦ rw (e, update_many) refl
  | inr (a, e) ↦ rw (e, update_many) (ap (λ b. put k b t) (same a))
]

create_unless_empty :
    (lower : ℕ → ℤ → ℤ) (rows : List (ℕ × Rail)) (t : Table Rail)
    → ((k : ℕ) → count_key k (map (λ r. r.0) rows) ≤ 1)
    → All (λ r. t r.0 ≡ none) rows
    → (t' : Table Rail) × (run_on_rails lower (unless_empty rows (create_rails rows ∷ [])) t
        ≡ some t')
      × ((k : ℕ) → t' k ≡ or_else (lookup k rows) (t k))
unfolding run_on_rails on_rails lookup
create_unless_empty lower [] t once free = (t, refl, λ k. refl)
create_unless_empty lower (r ∷ rows) t once free =
    let (t', done, at) = create_rows_lem (r ∷ rows) t once free in (t', rw done refl, at)

payments_leave :
    (lower : ℕ → ℤ → ℤ) (logs : List Log) (t : Table Rail)
    → run_on_rails lower (prepare_payments_creations logs) t ≡ some t
unfolding run_on_rails on_rails prepare_payments_creations
payments_leave lower [] t = refl
payments_leave lower (l ∷ logs) t = refl

module _ (lower : ℕ → ℤ → ℤ) (lowers : (n : ℕ) (x : ℤ) → lower n x ≡ x -ℤ pos n) where
  each_rail :
      (logs : List Log)
      → ((k : ℕ) → pays_first false (rail_events k logs) ≡ true)
      → (keys : List ℕ) (t : Table Rail)
      → run_on_rails lower
          (map (λ k. update_rails k (reduce_rail_logs no_update (rail_events k logs))) keys)
          t
        ≡ some (update_each (λ k. rail_steps (rail_events k logs)) keys t)
  unfolding run_on_rails on_rails update_each
  each_rail logs first [] t = refl
  each_rail logs first (k ∷ keys) t =
      each_rail logs first keys _
      ∙ ap (λ z. some (update_each (λ k. rail_steps (rail_events k logs)) keys z))
          (update_many_ext k (write_rail lower (reduce_rail_logs no_update (rail_events k logs)))
            (rail_steps (rail_events k logs)) t
            (reduce_rail_logs-steps lower lowers (rail_events k logs) (first k)))

  each_group :
      (contract : Contract) (logs : List Log)
      → ((k : ℕ) → pays_first false (rail_events k (filecoin_pay_logs contract logs)) ≡ true)
      → (t : Table Rail)
      → (t' : Table Rail) × (run_on_rails lower (prepare_rail_updates contract logs) t ≡ some t')
        × ((k : ℕ)
            → t' k
              ≡ map_option (rail_steps (rail_events k (filecoin_pay_logs contract logs))) (t k))
  unfolding prepare_rail_updates entries rail_steps
  each_group contract logs first t =
      let ls = filecoin_pay_logs contract logs in
      let keys = object_keys (map (λ l. l.rail_id) ls) in
      let f = λ (k : ℕ). rail_steps (rail_events k ls) in
      (
        update_each f keys t,
        rw
            (map-map (λ (k : ℕ). (k, filter (λ l. l.rail_id == k) ls))
              (λ (g : ℕ × List Log).
                update_rails g.0 (reduce_rail_logs no_update (map at_block g.1)))
              keys)
            (each_rail ls first keys t),
        λ k.
            update_each-object_keys (λ l. l.rail_id) ls f
              (λ n e r. rw (ap (map at_block) (filter_absent (λ l. l.rail_id) n ls e)) refl) t k,
      )

  -- When the rails that a batch creates are distinct and not there yet, a decrement of a column
  -- subtracts, and no log of a rail which changes its fixed lockup is followed in the batch by a
  -- one-time payment of it: the operations for the batch run without an error and leave each rail, new
  -- or not, as the effects of its logs, one after the other, leave it. Rails that are not there stay so.
  pub prepare_updates-rail_steps :
      (contract : Contract) (logs : List Log) (t : Table Rail)
      → ((k : ℕ) → count_key k (map (λ r. r.0) (new_rails logs)) ≤ 1)
      → All (λ r. t r.0 ≡ none) (new_rails logs)
      → ((k : ℕ) → pays_first false (rail_events k (filecoin_pay_logs contract logs)) ≡ true)
      → (t' : Table Rail) × (run_on_rails lower (prepare_updates contract logs) t ≡ some t')
        × ((k : ℕ)
            → t' k
              ≡ map_option
                  (rail_steps (rail_events k (filecoin_pay_logs contract logs)))
                  (or_else (lookup k (new_rails logs)) (t k)))
  unfolding prepare_updates prepare_rails_creations
  prepare_updates-rail_steps contract logs t once free first =
      let (t1, created, at1) = create_unless_empty lower (new_rails logs) t once free in
      let (t2, updated, at2) = each_group contract logs first t1 in
      (
        t2,
        run_on_rails-append lower
              (prepare_rails_creations logs ++ prepare_rail_updates contract logs)
              (prepare_payments_creations logs) t t2
              (run_on_rails-append lower (prepare_rails_creations logs)
                  (prepare_rail_updates contract logs) t t1 created
                ∙ updated)
            ∙ payments_leave lower logs t2,
        λ k.
            at2 k
            ∙ ap (map_option (rail_steps (rail_events k (filecoin_pay_logs contract logs))))
                (at1 k),
      )
