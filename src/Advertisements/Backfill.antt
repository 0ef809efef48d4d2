-- ===== src/Advertisements/Backfill.antt =====
-- Which advertisements one process stores.
use compliance_data_platform.Prelude.{
  ℕ, zero, suc, ◌≤◌, ◌≡◌, ◌≢◌, ◌⊎◌, refl, sym, ap, subst, inl, inr, true, false, Option, none, some,
  List, [], ◌∷◌, ◌++◌, String, length, arith, Bool-cases, Option-cases,
}
use compliance_data_platform.Advertisements.{
  Advertisement, Row, CidContactService, Ending, already_stored, chain_ends, limit_reached, failed,
  Turn, returned, current, is_taken, row_of, link, previous_advertisement, store_advertisement,
  run_advertisement_backfill_process,
}

-- The first row is put first.
abbrev pub put_all : List Row → List Row → List Row
put_all [] table = table
put_all (r ∷ rows) table = put_all rows (r ∷ table)

pub put_all-append :
    (xs ys table : List Row) → put_all (xs ++ ys) table ≡ put_all ys (put_all xs table)
put_all-append [] ys table = refl
put_all-append (x ∷ xs) ys table = put_all-append xs ys (x ∷ table)

module _ (service : CidContactService) (base_url : String) where
  -- The publisher answers with the second advertisement for the link of the first.
  abbrev pub Precedes : Advertisement → Advertisement → Type 0
  Precedes ad previous =
      (id : String) × (link ad.previous_id ≡ some id)
      × (service.get_ipni_publisher_advertisement base_url (some id) ≡ some (some previous))

  -- A row is that of an advertisement with the number of its entries.
  abbrev pub Describes : Row → Advertisement → Type 0
  Describes r ad =
      (n : ℕ) × (service.get_ipni_publisher_advertisement_entries_number base_url ad ≡ some n)
      × (r ≡ row_of ad n)

  -- The rows that a process adds to a table from an advertisement on, the first added first, and how it
  -- ends.
  pub data Stores : Advertisement → List Row → List Row → Ending → Type 0 where
    no_entries :
        (ad : Advertisement) (table : List Row)
        → service.get_ipni_publisher_advertisement_entries_number base_url ad ≡ none
        → Stores ad table [] failed
    taken :
        (ad : Advertisement) (table : List Row) (r : Row)
        → Describes r ad
        → is_taken r table ≡ true
        → Stores ad table [] already_stored
    unreachable :
        (ad : Advertisement) (table : List Row) (r : Row) (id : String)
        → Describes r ad
        → is_taken r table ≡ false
        → link ad.previous_id ≡ some id
        → service.get_ipni_publisher_advertisement base_url (some id) ≡ none
        → Stores ad table (r ∷ []) failed
    oldest :
        (ad : Advertisement) (table : List Row) (r : Row)
        → Describes r ad
        → is_taken r table ≡ false
        → (link ad.previous_id ≡ none)
          ⊎ (service.get_ipni_publisher_advertisement base_url (link ad.previous_id) ≡ some none)
        → Stores ad table (r ∷ []) chain_ends
    cut_off :
        (ad previous : Advertisement) (table : List Row) (r : Row)
        → Describes r ad
        → is_taken r table ≡ false
        → Precedes ad previous
        → Stores ad table (r ∷ []) limit_reached
    followed :
        (ad previous : Advertisement) (table : List Row) (r : Row) (rows : List Row) (e : Ending)
        → Describes r ad
        → is_taken r table ≡ false
        → Precedes ad previous
        → Stores previous (r ∷ table) rows e
        → Stores ad table (r ∷ rows) e

  -- What a turn of the loop has done when it does not return to the loop's test, or does.
  abbrev pub TurnStores : Advertisement → List Row → Turn → Type 0
  TurnStores ad table (returned t e) =
      (rows : List Row) × (t ≡ put_all rows table)
      × Stores ad table rows e
      × (length rows ≤ 1)
      × (e ≢ limit_reached)
  TurnStores ad table (current t previous) =
      (r : Row) × (t ≡ r ∷ table)
      × Describes r ad
      × (is_taken r table ≡ false)
      × Precedes ad previous

  chain_ends≢limit_reached : chain_ends ≢ limit_reached
  chain_ends≢limit_reached h = cc

  failed≢limit_reached : failed ≢ limit_reached
  failed≢limit_reached h = cc

  already_stored≢limit_reached : already_stored ≢ limit_reached
  already_stored≢limit_reached h = cc

  turn_is :
      (ad : Advertisement) (table : List Row) (u : Turn) {t : Turn}
      → t ≡ u
      → TurnStores ad table u
      → TurnStores ad table t
  turn_is ad table u e h = subst (λ t. TurnStores ad table t) (sym e) h

  fetched :
      (ad : Advertisement) (table : List Row) (r : Row) (id : String)
      → Describes r ad
      → is_taken r table ≡ false
      → link ad.previous_id ≡ some id
      → (answer : Option (Option Advertisement))
      → service.get_ipni_publisher_advertisement base_url (some id) ≡ answer
      → TurnStores ad table (previous_advertisement service base_url ad (r ∷ table))
  unfolding previous_advertisement
  fetched ad table r id d free e none h =
      turn_is ad table (returned (r ∷ table) failed) (rw (previous_advertisement, e, h) refl)
        (r ∷ [], refl, unreachable ad table r id d free e h, omega arith, failed≢limit_reached)
  fetched ad table r id d free e (some none) h =
      turn_is ad table (returned (r ∷ table) chain_ends) (rw (previous_advertisement, e, h) refl) (
        r ∷ [],
        refl,
        oldest ad table r d free (inr (rw e h)),
        omega arith,
        chain_ends≢limit_reached,
      )
  fetched ad table r id d free e (some (some previous)) h =
      turn_is ad table (current (r ∷ table) previous) (rw (previous_advertisement, e, h) refl)
        (r, refl, d, free, (id, e, h))

  previous-TurnStores :
      (ad : Advertisement) (table : List Row) (r : Row)
      → Describes r ad
      → is_taken r table ≡ false
      → TurnStores ad table (previous_advertisement service base_url ad (r ∷ table))
  unfolding previous_advertisement
  previous-TurnStores ad table r d free = elim (Option-cases (link ad.previous_id)) [
    | inl e ↦
        turn_is ad table (returned (r ∷ table) chain_ends) (rw (previous_advertisement, e) refl)
          (r ∷ [], refl, oldest ad table r d free (inl e), omega arith, chain_ends≢limit_reached)
    | inr (id, e) ↦ fetched ad table r id d free e _ refl
  ]

  turn-TurnStores :
      (ad : Advertisement) (table : List Row)
      → TurnStores ad table (store_advertisement service base_url ad table)
  unfolding store_advertisement
  turn-TurnStores ad table =
      elim (Option-cases (service.get_ipni_publisher_advertisement_entries_number base_url ad)) [
        | inl e ↦
            turn_is ad table (returned table failed) (rw (store_advertisement, e) refl)
              ([], refl, no_entries ad table e, omega arith, failed≢limit_reached)
        | inr (n, e) ↦ elim (Bool-cases (is_taken (row_of ad n) table)) [
          | inl h ↦
              turn_is ad table (returned table already_stored) (rw (store_advertisement, e, h) refl)
                (
                  [],
                  refl,
                  taken ad table (row_of ad n) (n, e, refl) h,
                  omega arith,
                  already_stored≢limit_reached,
                )
          | inr h ↦
              turn_is ad table (previous_advertisement service base_url ad (row_of ad n ∷ table))
                (rw (store_advertisement, e, h) refl)
                (previous-TurnStores ad table (row_of ad n) (n, e, refl) h)
        ]
      ]

  -- What a process does, with its limit.
  abbrev pub ProcessStores : ℕ → Advertisement → List Row → List Row × Ending → Type 0
  ProcessStores limit ad table result =
      (rows : List Row) × (result.0 ≡ put_all rows table)
      × Stores ad table rows result.1
      × (length rows ≤ suc limit)
      × ((result.1 ≢ limit_reached) ⊎ (length rows ≡ suc limit))

  one_more :
      {e : Ending} {n limit : ℕ}
      → (e ≢ limit_reached) ⊎ (n ≡ suc limit)
      → (e ≢ limit_reached) ⊎ (suc n ≡ suc (suc limit))
  one_more (inl h) = inl h
  one_more (inr h) = inr (ap suc h)

  -- A process that runs from an advertisement with a limit adds rows for it and for the advertisements
  -- before it, link by link, one row each with the number of its entries: up to the first of which a key
  -- is taken, or whose entries cannot be fetched, or that cannot be fetched or has no link, and at most
  -- one row more than the limit. It ends by the limit only with that number of rows.
  pub run_advertisement_backfill_process-Stores :
      (limit : ℕ) (ad : Advertisement) (table : List Row)
      → ProcessStores limit ad table
          (run_advertisement_backfill_process service base_url limit ad table)
  unfolding run_advertisement_backfill_process
  run_advertisement_backfill_process-Stores zero ad table =
      go (store_advertisement service base_url ad table) (turn-TurnStores ad table)
    where
      go :
          (t : Turn)
          → TurnStores ad table t
          → ProcessStores 0 ad table
              (elim t [ returned t e ↦ (t, e) | current t previous ↦ (t, limit_reached) ])
      go (returned t e) (rows, same, stores, few, other) = (rows, same, stores, few, inl other)
      go (current t previous) (r, same, d, free, before) =
          (r ∷ [], same, cut_off ad previous table r d free before, omega arith, inr (omega arith))
  run_advertisement_backfill_process-Stores (suc limit) ad table =
      go (store_advertisement service base_url ad table) (turn-TurnStores ad table)
        (λ (previous : Advertisement) (t : List Row).
          run_advertisement_backfill_process-Stores limit previous t)
    where
      go :
          (t : Turn)
          → TurnStores ad table t
          → ((previous : Advertisement) (t : List Row)
              → ProcessStores limit previous t
                  (run_advertisement_backfill_process service base_url limit previous t))
          → ProcessStores (suc limit) ad table (elim t [
            | returned t e ↦ (t, e)
            | current t previous ↦
                run_advertisement_backfill_process service base_url limit previous t
          ])
      go (returned t e) (rows, same, stores, few, other) rest =
          (rows, same, stores, omega (arith, few), inl other)
      go (current t previous) (r, same, d, free, before) rest =
          let (rows, all, stores, few, why) =
            subst
              (λ u.
                ProcessStores limit previous u
                  (run_advertisement_backfill_process service base_url limit previous t))
              same (rest previous t) in
          (
            r ∷ rows,
            all,
            followed ad previous table r rows _ d free before stores,
            omega (arith, few),
            one_more why,
          )
