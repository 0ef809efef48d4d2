-- ===== src/Aggregation/Order.antt =====
-- When the runners' dependencies can be put in order, `runAggregations` is never stuck.
use compliance_data_platform.Prelude.{
  ℕ, ◌+◌, ◌<◌, ◌≡◌, ◌≢◌, refl, Bool, true, false, ◌||◌, List, [], ◌∷◌, ◌++◌, arith, inl, inr, All,
  all, Bool-cases, List-cases, ◌==◌, ==_iff, ==_refl, subst,
}
use compliance_data_platform.Aggregation.Table.{AggregationTable}
use compliance_data_platform.Aggregation.{
  Runners, LoopState, impossible, is_pending, includes, can_run, run_aggregations,
}
use compliance_data_platform.Aggregation.Rounds.{Justified, count, tables_of}
use compliance_data_platform.Aggregation.Termination.{
  run_aggregations-Justified, run_aggregations-conserves, impossible-blocks_all,
}

includes-append :
    (xs ys : List AggregationTable) (t : AggregationTable)
    → includes (xs ++ ys) t ≡ (includes xs t || includes ys t)
unfolding includes
includes-append [] ys t = refl
includes-append (x ∷ xs) ys t = ground (arith, includes-append xs ys t)

pub pending-count : (r : ℕ) (l : List ℕ) → 0 < count r l → is_pending r l ≡ true
unfolding is_pending
pending-count r [] h = absurd (omega arith)
pending-count r (q ∷ l) h = ground (arith, pending-count r l)

pub count-pending : (r : ℕ) (l : List ℕ) → is_pending r l ≡ true → 0 < count r l
unfolding is_pending
count-pending r [] h = cc
count-pending r (q ∷ l) h = ground (arith, count-pending r l)

all_mono :
    {A : Type 0} (p q : A → Bool) (l : List A)
    → ((a : A) → p a ≡ true → q a ≡ true)
    → all p l ≡ true
    → all q l ≡ true
all_mono p q [] h e = refl
all_mono p q (x ∷ l) h e = ground (arith, h x, all_mono p q l h)

module _ {World : Type 0} (rs : Runners World) where
  includes_of_finished :
      (r : ℕ) (t : AggregationTable) (finished : List ℕ)
      → 0 < count r finished
      → includes (rs.get_filled_tables r) t ≡ true
      → includes (tables_of rs finished) t ≡ true
  unfolding tables_of
  includes_of_finished r t [] h e = absurd (omega arith)
  includes_of_finished r t (q ∷ finished) h e = ground (
    arith,
    includes-append (tables_of rs finished) (rs.get_filled_tables q) t,
    includes_of_finished r t finished,
  )

  includes_of_order :
      (t : AggregationTable) (order finished pending : List ℕ)
      → All (λ r. (0 < count r finished) × (count r pending ≡ 0)) order
      → includes (tables_of rs order) t ≡ true
      → includes (tables_of rs finished) t ≡ true
  unfolding tables_of
  includes_of_order t [] finished pending h e = unfold includes in cc
  includes_of_order t (q ∷ order) finished pending (h, hs) e = ground (
    arith,
    includes-append (tables_of rs order) (rs.get_filled_tables q) t,
    includes_of_finished q t finished h.0,
    includes_of_order t order finished pending hs,
  )

  -- Along the order, every runner has finished: else the first that has not could run.
  order-finished :
      (s : LoopState World) (order : List ℕ)
      → s.filled_tables ≡ tables_of rs s.finished
      → Justified rs order
      → All (λ r. 0 < count r s.finished + count r s.pending) order
      → All (λ r. can_run rs r s ≡ false) order
      → All (λ r. (0 < count r s.finished) × (count r s.pending ≡ 0)) order
  unfolding can_run
  order-finished s [] tables just known blocked = tt
  order-finished s (r ∷ earlier) tables (deps, just) (known, ks) (blocked, bs) =
      let ih = order-finished s earlier tables just ks bs in
      let ready : all (includes s.filled_tables) (rs.get_depending_tables r) ≡ true = rw tables (
        all_mono _ _ (rs.get_depending_tables r)
          (λ t. includes_of_order t earlier s.finished s.pending ih) deps) in
      let gone : count r s.pending ≡ 0 = ground (arith, pending-count r s.pending) in
      ((omega arith, gone), ih)

All_at_count : (P : ℕ → Type 0) (r : ℕ) (l : List ℕ) → All P l → 0 < count r l → P r
All_at_count P r [] h e = absurd (omega arith)
All_at_count P r (q ∷ l) (h, hs) e = elim (Bool-cases (q == r)) [
  | inl same ↦ subst P ((==_iff q r).0 same) h
  | inr other ↦ All_at_count P r l hs (ground arith)
]

All_of_count : (P : ℕ → Type 0) (l : List ℕ) → ((r : ℕ) → 0 < count r l → P r) → All P l
All_of_count P [] h = tt
All_of_count P (q ∷ l) h =
    (h q (ground (arith, ==_refl q)), All_of_count P l (λ r e. h r (ground arith)))

-- If the listed runners can be put in an order, the latest first, in which each one's depending
-- tables are filled by those before it, then `runAggregations` never gives up with impossible
-- dependencies, whatever its runners do: it completes, or a runner's error ends it.
pub run_aggregations-ne-impossible :
    {World : Type 0} (rs : Runners World) (runners order : List ℕ) (w : World)
    → Justified rs order
    → All (λ r. 0 < count r runners) order
    → All (λ r. 0 < count r order) runners
    → (run_aggregations rs runners w).1 ≢ impossible
run_aggregations-ne-impossible rs runners order w just listed ordered stuck =
    let s = (run_aggregations rs runners w).0 in
    let (pending, blocked) = impossible-blocks_all rs runners w stuck in
    let conserved = run_aggregations-conserves rs runners w in
    let of_order =
      λ (r : ℕ) (e : 0 < count r order). All_at_count (λ q. 0 < count q runners) r order listed e in
    let done =
      order-finished rs s order (run_aggregations-Justified rs runners w).1 just
        (All_of_count _ order (λ r e. omega (arith, conserved r, of_order r e)))
        (All_of_count _ order (λ r e. All_at_count _ r runners blocked (of_order r e))) in
    elim (List-cases s.pending) [
      | inl empty ↦ pending empty
      | inr (q, qs, more) ↦
          let here : 0 < count q s.pending = rw more (ground (arith, ==_refl q)) in
          let known : 0 < count q runners = omega (arith, conserved q) in
          let gone =
            All_at_count (λ r. (0 < count r s.finished) × (count r s.pending ≡ 0)) q order done
              (All_at_count (λ r. 0 < count r order) q runners ordered known) in
          absurd (omega arith)
    ]
