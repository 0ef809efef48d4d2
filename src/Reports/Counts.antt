-- ===== src/Reports/Counts.antt =====
-- The counts of the jobs of src/jobs/client-report-generator-job and
-- src/jobs/allocator-report-generator-job.
use compliance_data_platform.Prelude.{
  ℕ, suc, ◌+◌, ◌≤◌, ◌≡◌, ◌⊎◌, inl, inr, refl, ap, ◌∙◌, Bool, true, false, Option, List, [], ◌∷◌,
  not, ◌&&◌, ◌||◌, String, str_eq, length, arith, Bool-cases, eq_iff, eq_refl, subst, if◌then◌else◌,
}
use compliance_data_platform.ClientChecks.{includes}
use compliance_data_platform.Reports.Jobs.{
  Generation, is_fail, Run, generate_client_report, generate_client_reports,
  run_client_report_generation, generate_allocator_reports, distinct_from,
  run_allocator_report_generation,
}

abbrev pub count_fails : List Generation → ℕ
count_fails [] = 0
count_fails (g ∷ gs) = (if is_fail g then 1 else 0) + count_fails gs

count_fails-le : (gs : List Generation) → count_fails gs ≤ length gs
count_fails-le [] = omega arith
count_fails-le (g ∷ gs) = ground (arith, count_fails-le gs)

one_fail_more :
    (b : Bool) (n m k : ℕ) → n ≡ (if b then m + 1 else m) + k → n ≡ m + ((if b then 1 else 0) + k)
one_fail_more b n m k h = ground (arith, h)

-- Each text of a list stands there once.
abbrev pub AreDifferent : List String → Type 0
AreDifferent [] = Unit
AreDifferent (a ∷ l) = (includes l a ≡ false) × AreDifferent l

distinct_from-old :
    (seen : List String) (a : String) (l : List String)
    → includes seen a ≡ true
    → distinct_from seen (a ∷ l) ≡ distinct_from (a ∷ seen) l
unfolding distinct_from
distinct_from-old seen a l h = rw (h, distinct_from) refl

distinct_from-new :
    (seen : List String) (a : String) (l : List String)
    → includes seen a ≡ false
    → distinct_from seen (a ∷ l) ≡ a ∷ distinct_from (a ∷ seen) l
unfolding distinct_from
distinct_from-new seen a l h = rw (h, distinct_from) refl

-- `same` says whether the element at the head is the one that is looked for.
old_head :
    (same l seen : Bool)
    → (same ≡ false) ⊎ (seen ≡ true)
    → (l && not (same || seen)) ≡ ((same || l) && not seen)
old_head same l seen h = ground (arith, h)

new_head :
    (same l seen : Bool)
    → (same ≡ false) ⊎ (seen ≡ false)
    → (same || (l && not (same || seen))) ≡ ((same || l) && not seen)
new_head same l seen h = ground (arith, h)

seen_as :
    (seen : List String) (a x : String) (b : Bool)
    → includes seen a ≡ b
    → (str_eq a x ≡ false) ⊎ (includes seen x ≡ b)
seen_as seen a x b h = elim (Bool-cases (str_eq a x)) [
  | inl same ↦ inr (subst (λ y. includes seen y ≡ b) ((eq_iff a x).0 same) h)
  | inr other ↦ inl other
]

includes-distinct_from :
    (seen l : List String) (x : String)
    → includes (distinct_from seen l) x ≡ (includes l x && not (includes seen x))
unfolding includes
includes-distinct_from seen [] x = unfold distinct_from in refl
includes-distinct_from seen (a ∷ l) x = elim (Bool-cases (includes seen a)) [
  | inl old ↦
      ap (λ d. includes d x) (distinct_from-old seen a l old)
      ∙ includes-distinct_from (a ∷ seen) l x
      ∙ old_head (str_eq a x) (includes l x) (includes seen x) (seen_as seen a x true old)
  | inr new ↦
      ap (λ d. includes d x) (distinct_from-new seen a l new)
      ∙ ap (λ b. str_eq a x || b) (includes-distinct_from (a ∷ seen) l x)
      ∙ new_head (str_eq a x) (includes l x) (includes seen x) (seen_as seen a x false new)
]

includes-of_registry :
    (l : List String) (x : String) → includes (distinct_from [] l) x ≡ includes l x
unfolding includes
includes-of_registry l x = includes-distinct_from [] l x ∙ and_true (includes l x)
  where
    and_true : (b : Bool) → (b && true) ≡ b
    and_true true = refl
    and_true false = refl

distinct_from-AreDifferent : (seen l : List String) → AreDifferent (distinct_from seen l)
unfolding includes
distinct_from-AreDifferent seen [] = unfold distinct_from in tt
distinct_from-AreDifferent seen (a ∷ l) = elim (Bool-cases (includes seen a)) [
  | inl old ↦ rw (distinct_from-old seen a l old) (distinct_from-AreDifferent (a ∷ seen) l)
  | inr new ↦ rw (distinct_from-new seen a l new) (
    includes-distinct_from (a ∷ seen) l a ∙ head_seen (includes l a) _ _ (eq_refl a),
    distinct_from-AreDifferent (a ∷ seen) l,
  )
]
  where
    head_seen : (b same rest : Bool) → same ≡ true → (b && not (same || rest)) ≡ false
    head_seen b same rest h = ground (arith, h)

module _ {World : Type 0} where
  -- A generation for each key of a list, one after the other, each in the world that the one before left.
  pub data Trace {K : Type 0} (generate : K → World → World × Generation)
      : List K → World → List Generation → World → Type 0 where
    done : (w : World) → Trace generate [] w [] w
    step :
        (k : K) (keys : List K) (w : World) (gs : List Generation) (end : World)
        → Trace generate keys (generate k w).0 gs end
        → Trace generate (k ∷ keys) w ((generate k w).1 ∷ gs) end

  Trace-length :
      {K : Type 0} {generate : K → World → World × Generation} {keys : List K} {w end : World}
      {gs : List Generation}
      → Trace generate keys w gs end
      → length gs ≡ length keys
  Trace-length (done w) = refl
  Trace-length (step k keys w gs end t) = ap suc (Trace-length t)

  -- A run made the generations for a list of keys, and says how many there were and failed.
  abbrev pub Runs :
      {K : Type 0} → (K → World → World × Generation) → List K → World → Run World → Type 0
  Runs generate keys w run =
      (gs : List Generation) × Trace generate keys w gs run.world
      × (run.reports ≡ length keys)
      × (run.fails ≡ count_fails gs)
      × (run.fails ≤ run.reports)

  module _ (generate_report : String → World → World × Generation) where
    clients-Trace :
        (ids : List (Option String)) (w : World) (fails : ℕ)
        → (gs : List Generation) × Trace
            (generate_client_report generate_report)
            ids
            w
            gs
            (generate_client_reports generate_report ids w fails).0
          × ((generate_client_reports generate_report ids w fails).1 ≡ fails + count_fails gs)
    unfolding generate_client_reports
    clients-Trace [] w fails = ([], done w, omega arith)
    clients-Trace (id ∷ ids) w fails =
        let g : World × Generation = generate_client_report generate_report id w in
        let (gs, t, n) = clients-Trace ids g.0 (if is_fail g.1 then fails + 1 else fails) in
        (g.1 ∷ gs, step id ids w gs _ t, one_fail_more (is_fail g.1) _ fails (count_fails gs) n)

    -- The job of the clients generates for every application of the bookkeeping, in their order, once
    -- each, whichever of them fail. It reports the number of applications, and as fails those without an
    -- id, without a client, or whose generation was rejected; so the fails are no more than the reports.
    pub run_client_report_generation-Runs :
        (applications : List (Option String)) (w : World)
        → Runs
            (generate_client_report generate_report)
            applications
            w
            (run_client_report_generation generate_report applications w)
    unfolding run_client_report_generation
    run_client_report_generation-Runs applications w =
        let (gs, t, n) = clients-Trace applications w 0 in
        (gs, t, refl, omega (arith, n), omega (arith, n, count_fails-le gs, Trace-length t))

    allocators-Trace :
        (addresses : List String) (w : World) (fails : ℕ)
        → (gs : List Generation) × Trace generate_report addresses w gs
            (generate_allocator_reports generate_report addresses w fails).0
          × ((generate_allocator_reports generate_report addresses w fails).1
              ≡ fails + count_fails gs)
    unfolding generate_allocator_reports
    allocators-Trace [] w fails = ([], done w, omega arith)
    allocators-Trace (a ∷ addresses) w fails =
        let g : World × Generation = generate_report a w in
        let (gs, t, n) =
          allocators-Trace addresses g.0 (if is_fail g.1 then fails + 1 else fails) in
        (
          g.1 ∷ gs,
          step a addresses w gs _ t,
          one_fail_more (is_fail g.1) _ fails (count_fails gs) n,
        )

    -- The job of the allocators generates once for each address of the registry, whichever of them fail:
    -- the addresses that it generates for are all different, and they are those that the registry has. It
    -- reports their number and how many of the generations failed.
    pub run_allocator_report_generation-Runs :
        (registry : List String) (w : World)
        → (addresses : List String) × AreDifferent addresses
          × ((a : String) → includes addresses a ≡ includes registry a)
          × Runs generate_report addresses w
              (run_allocator_report_generation generate_report registry w)
    unfolding run_allocator_report_generation
    run_allocator_report_generation-Runs registry w =
        let (gs, t, n) = allocators-Trace (distinct_from [] registry) w 0 in
        (
          distinct_from [] registry,
          distinct_from-AreDifferent [] registry,
          includes-of_registry registry,
          (gs, t, refl, omega (arith, n), omega (arith, n, count_fails-le gs, Trace-length t)),
        )
