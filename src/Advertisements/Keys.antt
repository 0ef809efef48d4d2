-- ===== src/Advertisements/Keys.antt =====
-- What the whole job adds to the table of advertisements, and its keys.
use compliance_data_platform.Prelude.{
  ◌≡◌, ◌≢◌, ◌⊎◌, inl, inr, refl, sym, ap, subst, ◌∙◌, Bool, true, false, false≢true, ◌||◌, Option,
  none, some, List, [], ◌∷◌, ◌++◌, String, str_eq, eq_iff, All, All-append, All-weaken,
}
use compliance_data_platform.Advertisements.{
  Advertisement, Row, Provider, CidContactService, Ending, failed, is_taken, same_previous,
  run_advertisement_backfill_process,
}
use compliance_data_platform.Advertisements.Job.{
  fetch_and_store_advertisements_by_provider, run_providers,
}
use compliance_data_platform.Advertisements.Backfill.{
  Stores, no_entries, taken, unreachable, oldest, cut_off, followed, put_all, put_all-append,
  Precedes, Describes, run_advertisement_backfill_process-Stores,
}

-- Two previous ids, where both are there, differ.
abbrev pub DifferentPrevious : Option String → Option String → Type 0
DifferentPrevious (some a) (some b) = a ≢ b
DifferentPrevious a b = Unit

abbrev pub DifferentKeys : Row → Row → Type 0
DifferentKeys r s = (s.id ≢ r.id) × DifferentPrevious s.previous_id r.previous_id

-- No two rows have the same id, nor the same previous id.
abbrev pub AreUnique : List Row → Type 0
AreUnique [] = Unit
AreUnique (r ∷ table) = All (DifferentKeys r) table × AreUnique table

different : (a b : String) → str_eq a b ≡ false → a ≢ b
different a b e h = false≢true (sym e ∙ (eq_iff a b).1 h)

different_previous : (a b : Option String) → same_previous a b ≡ false → DifferentPrevious a b
different_previous none b e = tt
different_previous (some a) none e = tt
different_previous (some a) (some b) e = different a b e

or_false : (a b : Bool) → (a || b) ≡ false → (a ≡ false) × (b ≡ false)
or_false true b h = absurd (false≢true (sym h))
or_false false b h = (refl, h)

not_taken : (r : Row) (table : List Row) → is_taken r table ≡ false → All (DifferentKeys r) table
unfolding is_taken
not_taken r [] h = tt
not_taken r (s ∷ table) h =
    let (here, later) =
      or_false (str_eq s.id r.id || same_previous s.previous_id r.previous_id) (is_taken r table)
        h in
    let (id, previous) =
      or_false (str_eq s.id r.id) (same_previous s.previous_id r.previous_id) here in
    (
      (different s.id r.id id, different_previous s.previous_id r.previous_id previous),
      not_taken r table later,
    )

module _ (service : CidContactService) where
  Stores-AreUnique :
      (base_url : String) (ad : Advertisement) (table rows : List Row) (e : Ending)
      → Stores service base_url ad table rows e
      → AreUnique table
      → AreUnique (put_all rows table)
  Stores-AreUnique base_url ad table rows e (no_entries _ _ _) u = u
  Stores-AreUnique base_url ad table rows e (taken _ _ _ _ _) u = u
  Stores-AreUnique base_url ad table rows e (unreachable _ _ r id d free _ _) u =
      (not_taken r table free, u)
  Stores-AreUnique base_url ad table rows e (oldest _ _ r d free _) u = (not_taken r table free, u)
  Stores-AreUnique base_url ad table rows e (cut_off _ _ _ r d free _) u =
      (not_taken r table free, u)
  Stores-AreUnique base_url ad table rows e (followed _ previous _ r rest _ d free _ stores) u =
      Stores-AreUnique base_url previous (r ∷ table) rest e stores (not_taken r table free, u)

  -- The advertisements of a provider: its last one, and from one to the one that its link names.
  pub data Advertises : Provider → String → Advertisement → Type 0 where
    last :
        (p : Provider) (base_url : String) (ad : Advertisement)
        → service.extract_multiaddr_and_build_publisher_base_url p.publisher_address ≡ some base_url
        → service.get_ipni_publisher_advertisement base_url p.last_advertisement ≡ some (some ad)
        → Advertises p base_url ad
    earlier :
        (p : Provider) (base_url : String) (ad previous : Advertisement)
        → Advertises p base_url ad
        → Precedes service base_url ad previous
        → Advertises p base_url previous

  -- The row is that of an advertisement of one of the providers.
  abbrev pub IsAdvertised : List Provider → Row → Type 0
  IsAdvertised [] r = ⊥
  IsAdvertised (p ∷ ps) r =
      ((base_url : String) × (ad : Advertisement) × Advertises p base_url ad
        × Describes service base_url r ad)
      ⊎ IsAdvertised ps r

  Stores-IsAdvertised :
      (p : Provider) (ps : List Provider) (base_url : String) (ad : Advertisement)
      (table rows : List Row) (e : Ending)
      → Stores service base_url ad table rows e
      → Advertises p base_url ad
      → All (IsAdvertised (p ∷ ps)) rows
  Stores-IsAdvertised p ps base_url ad table rows e (no_entries _ _ _) a = tt
  Stores-IsAdvertised p ps base_url ad table rows e (taken _ _ _ _ _) a = tt
  Stores-IsAdvertised p ps base_url ad table rows e (unreachable _ _ r id d free _ _) a =
      (inl (base_url, ad, a, d), tt)
  Stores-IsAdvertised p ps base_url ad table rows e (oldest _ _ r d free _) a =
      (inl (base_url, ad, a, d), tt)
  Stores-IsAdvertised p ps base_url ad table rows e (cut_off _ _ _ r d free _) a =
      (inl (base_url, ad, a, d), tt)
  Stores-IsAdvertised p ps base_url ad table rows e
        (followed _ previous _ r rest _ d free link stores) a =
      (
        inl (base_url, ad, a, d),
        Stores-IsAdvertised p ps base_url previous (r ∷ table) rest e stores
            (earlier p base_url ad previous a link),
      )

  -- What a provider's turn does to any table: nothing, or a process from its newest advertisement.
  abbrev pub Visits : Provider → Type 0
  Visits p =
      ((e : Ending) × ((table : List Row)
          → fetch_and_store_advertisements_by_provider service p table ≡ (table, e)))
      ⊎ ((base_url : String) × (ad : Advertisement) × Advertises p base_url ad
          × ((table : List Row)
              → fetch_and_store_advertisements_by_provider service p table
                ≡ run_advertisement_backfill_process service base_url 10 ad table))

  newest-Visits :
      (p : Provider) (base_url : String)
      → service.extract_multiaddr_and_build_publisher_base_url p.publisher_address ≡ some base_url
      → (answer : Option (Option Advertisement))
      → service.get_ipni_publisher_advertisement base_url p.last_advertisement ≡ answer
      → Visits p
  unfolding fetch_and_store_advertisements_by_provider
  newest-Visits p base_url e none h =
      inl (failed, λ (table : List Row). rw (fetch_and_store_advertisements_by_provider, e, h) refl)
  newest-Visits p base_url e (some none) h =
      inl (failed, λ (table : List Row). rw (fetch_and_store_advertisements_by_provider, e, h) refl)
  newest-Visits p base_url e (some (some ad)) h = inr (
    base_url,
    ad,
    last p base_url ad e h,
    λ (table : List Row). rw (fetch_and_store_advertisements_by_provider, e, h) refl,
  )

  address-Visits :
      (p : Provider) (address : Option String)
      → service.extract_multiaddr_and_build_publisher_base_url p.publisher_address ≡ address
      → Visits p
  unfolding fetch_and_store_advertisements_by_provider
  address-Visits p none e =
      inl (failed, λ (table : List Row). rw (fetch_and_store_advertisements_by_provider, e) refl)
  address-Visits p (some base_url) e = newest-Visits p base_url e _ refl

  pub fetch_and_store-Visits : (p : Provider) → Visits p
  fetch_and_store-Visits p = address-Visits p _ refl

  -- A provider's turn puts rows of its advertisements before the table, whose keys stay unique.
  pub fetch_and_store-puts :
      (p : Provider) (ps : List Provider) (table : List Row)
      → (rows : List Row) × ((fetch_and_store_advertisements_by_provider service p table).0
          ≡ put_all rows table)
        × All (IsAdvertised (p ∷ ps)) rows
        × (AreUnique table → AreUnique (put_all rows table))
  fetch_and_store-puts p ps table = elim (fetch_and_store-Visits p) [
    | inl (e, same) ↦ ([], ap (λ r. r.0) (same table), tt, λ u. u)
    | inr (base_url, ad, a, same) ↦
        let (rows, puts, stores, few, why) =
          run_advertisement_backfill_process-Stores service base_url 10 ad table in
        (
          rows,
          ap (λ r. r.0) (same table) ∙ puts,
          Stores-IsAdvertised p ps base_url ad table rows _ stores a,
          λ u. Stores-AreUnique base_url ad table rows _ stores u,
        )
  ]

  -- The job only adds rows to the table, whatever the publishers answer and whichever of the processes
  -- fail. Each of them is the row of an advertisement that one of the providers has: its last one, or
  -- one that the links lead to from there. If no two rows have the same id or the same previous id
  -- before, then no two have afterwards.
  pub run_providers-adds :
      (ps : List Provider) (table : List Row)
      → AreUnique table
      → (rows : List Row) × (run_providers service ps table ≡ put_all rows table)
        × All (IsAdvertised ps) rows
        × AreUnique (run_providers service ps table)
  unfolding run_providers
  run_providers-adds [] table u = ([], refl, tt, u)
  run_providers-adds (p ∷ ps) table u =
      let (xs, first, of_first, kept) = fetch_and_store-puts p ps table in
      let next : List Row = (fetch_and_store_advertisements_by_provider service p table).0 in
      let (ys, rest, of_rest, unique) =
        run_providers-adds ps next (subst AreUnique (sym first) (kept u)) in
      (
        xs ++ ys,
        rest ∙ ap (put_all ys) first ∙ sym (put_all-append xs ys table),
        All-append (IsAdvertised (p ∷ ps)) xs ys of_first
            (All-weaken (IsAdvertised ps) (IsAdvertised (p ∷ ps)) (λ r h. inr h) ys of_rest),
        unique,
      )
