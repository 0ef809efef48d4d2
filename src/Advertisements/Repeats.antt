-- ===== src/Advertisements/Repeats.antt =====
-- A second run of the job of src/jobs/ipni-advertisement-fetcher-job, with the same answers.
use compliance_data_platform.Prelude.{
  ℕ, zero, suc, ◌≡◌, inl, inr, refl, sym, ap, subst, ◌∙◌, Bool, true, false, ◌||◌, none, List, [],
  ◌∷◌, ◌++◌, String, str_eq, eq_refl,
}
use compliance_data_platform.Advertisements.{
  Advertisement, Row, Provider, CidContactService, Ending, returned, failed, already_stored,
  is_taken, row_of, same_previous, store_advertisement, run_advertisement_backfill_process,
}
use compliance_data_platform.Advertisements.Job.{
  fetch_and_store_advertisements_by_provider, run_providers,
}
use compliance_data_platform.Advertisements.Backfill.{
  Stores, no_entries, taken, unreachable, oldest, cut_off, followed, put_all, put_all-append,
  Describes, run_advertisement_backfill_process-Stores,
}
use compliance_data_platform.Advertisements.Keys.{fetch_and_store-Visits, fetch_and_store-puts}

or_true : (b : Bool) → (b || true) ≡ true
or_true true = refl
or_true false = refl

put_all-is_taken :
    (r : Row) (rows table : List Row)
    → is_taken r table ≡ true
    → is_taken r (put_all rows table) ≡ true
unfolding is_taken
put_all-is_taken r [] table h = h
put_all-is_taken r (x ∷ rows) table h =
    put_all-is_taken r rows (x ∷ table)
      (rw h (or_true (str_eq x.id r.id || same_previous x.previous_id r.previous_id)))

is_taken-itself : (r : Row) (table : List Row) → is_taken r (r ∷ table) ≡ true
unfolding is_taken
is_taken-itself r table = rw (eq_refl r.id) refl

module _ (service : CidContactService) where
  run-returned :
      (base_url : String) (limit : ℕ) (ad : Advertisement) (table : List Row) (e : Ending)
      → store_advertisement service base_url ad table ≡ returned table e
      → (run_advertisement_backfill_process service base_url limit ad table).0 ≡ table
  unfolding run_advertisement_backfill_process
  run-returned base_url zero ad table e h = rw (run_advertisement_backfill_process, h) refl
  run-returned base_url (suc limit) ad table e h = rw (run_advertisement_backfill_process, h) refl

  run-taken :
      (base_url : String) (limit : ℕ) (ad : Advertisement) (r : Row) (table : List Row)
      → Describes service base_url r ad
      → is_taken r table ≡ true
      → (run_advertisement_backfill_process service base_url limit ad table).0 ≡ table
  unfolding store_advertisement
  run-taken base_url limit ad r table (n, e, same) h =
      let key : is_taken (row_of ad n) table ≡ true = subst (λ x. is_taken x table ≡ true) same h in
      run-returned base_url limit ad table already_stored (rw (store_advertisement, e, key) refl)

  run-no_entries :
      (base_url : String) (limit : ℕ) (ad : Advertisement) (table : List Row)
      → service.get_ipni_publisher_advertisement_entries_number base_url ad ≡ none
      → (run_advertisement_backfill_process service base_url limit ad table).0 ≡ table
  unfolding store_advertisement
  run-no_entries base_url limit ad table e =
      run-returned base_url limit ad table failed (rw (store_advertisement, e) refl)

  run-stored :
      (base_url : String) (limit : ℕ) (ad : Advertisement) (r : Row) (table rows more : List Row)
      → Describes service base_url r ad
      → (run_advertisement_backfill_process service base_url limit ad
          (put_all more (put_all rows (r ∷ table)))).0
        ≡ put_all more (put_all rows (r ∷ table))
  run-stored base_url limit ad r table rows more d =
      run-taken base_url limit ad r _ d
        (put_all-is_taken r more _ (put_all-is_taken r rows _ (is_taken-itself r table)))

  run_again :
      (base_url : String) (limit : ℕ) (ad : Advertisement) (table rows more : List Row) (e : Ending)
      → Stores service base_url ad table rows e
      → (run_advertisement_backfill_process service base_url limit ad
          (put_all more (put_all rows table))).0
        ≡ put_all more (put_all rows table)
  run_again base_url limit ad table rows more e (no_entries _ _ h) =
      run-no_entries base_url limit ad _ h
  run_again base_url limit ad table rows more e (taken _ _ r d h) =
      run-taken base_url limit ad r _ d (put_all-is_taken r more table h)
  run_again base_url limit ad table rows more e (unreachable _ _ r _ d _ _ _) =
      run-stored base_url limit ad r table [] more d
  run_again base_url limit ad table rows more e (oldest _ _ r d _ _) =
      run-stored base_url limit ad r table [] more d
  run_again base_url limit ad table rows more e (cut_off _ _ _ r d _ _) =
      run-stored base_url limit ad r table [] more d
  run_again base_url limit ad table rows more e (followed _ _ _ r rest _ d _ _ _) =
      run-stored base_url limit ad r table rest more d

  visit_again :
      (p : Provider) (table more : List Row)
      → let later = put_all more (fetch_and_store_advertisements_by_provider service p table).0 in
        (fetch_and_store_advertisements_by_provider service p later).0 ≡ later
  visit_again p table more = elim (fetch_and_store-Visits service p) [
    | inl (e, same) ↦ ap (λ r. r.0) (same _)
    | inr (base_url, ad, _, same) ↦
        let (rows, puts, stores, few, why) =
          run_advertisement_backfill_process-Stores service base_url 10 ad table in
        rw (same table, puts)
          (ap (λ r. r.0) (same (put_all more (put_all rows table)))
            ∙ run_again base_url 10 ad table rows more _ stores)
  ]

  run_providers-puts :
      (ps : List Provider) (table : List Row)
      → (rows : List Row) × (run_providers service ps table ≡ put_all rows table)
  unfolding run_providers
  run_providers-puts [] table = ([], refl)
  run_providers-puts (p ∷ ps) table =
      let (xs, first, _, _) = fetch_and_store-puts service p ps table in
      let (ys, rest) =
        run_providers-puts ps (fetch_and_store_advertisements_by_provider service p table).0 in
      (xs ++ ys, rest ∙ ap (put_all ys) first ∙ sym (put_all-append xs ys table))

  again_after :
      (ps : List Provider) (table more : List Row)
      → run_providers service ps (put_all more (run_providers service ps table))
        ≡ put_all more (run_providers service ps table)
  unfolding run_providers
  again_after [] table more = refl
  again_after (p ∷ ps) table more =
      let next : List Row = (fetch_and_store_advertisements_by_provider service p table).0 in
      let (ys, rest) = run_providers-puts ps next in
      let settled : (fetch_and_store_advertisements_by_provider service p
            (put_all more (run_providers service ps next))).0
          ≡ put_all more (run_providers service ps next) =
        rw (rest, sym (put_all-append ys more next)) (visit_again p table (ys ++ more)) in
      ap (run_providers service ps) settled ∙ again_after ps next more

  -- A second run over the same providers, in which the publishers answer as in the first one, changes
  -- nothing: the table after it is the table before it.
  pub run_providers-again :
      (ps : List Provider) (table : List Row)
      → run_providers service ps (run_providers service ps table) ≡ run_providers service ps table
  run_providers-again ps table = again_after ps table []
