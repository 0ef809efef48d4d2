-- ===== src/Aggregation/Termination.antt =====
-- `runAggregations` ends, and how it ends.
use compliance_data_platform.Prelude.{
  ℕ, zero, suc, ◌+◌, ◌<◌, ◌≡◌, ◌≢◌, refl, ap, false, List, [], arith, inl, inr, length, All,
  Option-cases, List-cases, ℕ-cases,
}
use compliance_data_platform.Aggregation.{
  Runners, LoopState, Outcome, completed, impossible, out_of_fuel, thrown, can_run, for_loop,
  while_loop, initial_state, run_aggregations,
}
use compliance_data_platform.Aggregation.Rounds.{
  Inv, Justified, count, tables_of, for_loop-Inv, for_loop-executed, for_loop-idle,
}

module _ {World : Type 0} (rs : Runners World) (runners : List ℕ) where
  abbrev start : LoopState World → LoopState World
  start s = record s { executed_runners = 0 }

  abbrev EndsWell : LoopState World → Outcome → Type 0
  EndsWell s completed = s.pending ≡ []
  EndsWell s impossible = (s.pending ≢ []) × All (λ r. can_run rs r s ≡ false) runners
  EndsWell s out_of_fuel = ⊥
  EndsWell s (thrown e) = Unit

  restart : (s : LoopState World) → Inv rs runners s → Inv rs runners (start s)
  restart s inv = record {
    tables = inv.tables;
    justified = inv.justified;
    conserved = inv.conserved;
  }

  while_loop-ends :
      (fuel : ℕ) (s : LoopState World)
      → length s.pending < fuel
      → Inv rs runners s
      → Inv rs runners (while_loop rs fuel runners s).0
        × EndsWell (while_loop rs fuel runners s).0 (while_loop rs fuel runners s).1
  unfolding while_loop
  while_loop-ends zero s h inv = absurd (omega arith)
  while_loop-ends (suc fuel) s h inv = elim (List-cases s.pending) [
    | inl empty ↦ rw (empty, while_loop) (inv, empty)
    | inr (q, qs, more) ↦
        let s' = (for_loop rs runners (start s)).0 in
        let inv' : Inv rs runners s' = for_loop-Inv rs runners runners (start s) (restart s inv) in
        elim (Option-cases (for_loop rs runners (start s)).1) [
          | inr (e, failed) ↦ rw (more, while_loop, failed) (inv', tt)
          | inl ok ↦ elim (ℕ-cases s'.executed_runners) [
            | inl idle ↦
                let (none_ready, same) = for_loop-idle rs runners (start s) ok idle in
                rw (more, while_loop, ok, idle) (inv', rw same ((λ e. cc), none_ready))
            | inr (k, busy) ↦
                rw (more, while_loop, ok, busy)
                  (while_loop-ends fuel s'
                    (omega (
                      arith,
                      for_loop-executed rs (length s.pending) runners (start s) (omega arith),
                    ))
                    inv')
          ]
        ]
  ]

initial_state-Inv :
    {World : Type 0} (rs : Runners World) (runners : List ℕ) (w : World)
    → Inv rs runners (initial_state runners w)
unfolding initial_state tables_of
initial_state-Inv rs runners w = record {
  tables = refl;
  justified = tt;
  conserved = λ a. omega arith;
}

run_aggregations-ends :
    {World : Type 0} (rs : Runners World) (runners : List ℕ) (w : World)
    → let (s, o) = run_aggregations rs runners w in Inv rs runners s × EndsWell rs runners s o
unfolding run_aggregations
run_aggregations-ends rs runners w =
    while_loop-ends rs runners (suc (length runners)) (initial_state runners w)
      (unfold initial_state in omega arith) (initial_state-Inv rs runners w)

-- `runAggregations` always ends: its loop never needs more rounds than it has runners, plus one.
pub run_aggregations-ne-out_of_fuel :
    {World : Type 0} (rs : Runners World) (runners : List ℕ) (w : World)
    → (run_aggregations rs runners w).1 ≢ out_of_fuel
run_aggregations-ne-out_of_fuel rs runners w e =
    let (_, well) = run_aggregations-ends rs runners w in rw e at well

-- However it ends, every finished runner had all its depending tables filled by runners that
-- finished before it, and the tables recorded as filled are exactly those of the finished runners.
pub run_aggregations-Justified :
    {World : Type 0} (rs : Runners World) (runners : List ℕ) (w : World)
    → let s = (run_aggregations rs runners w).0 in
      Justified rs s.finished × (s.filled_tables ≡ tables_of rs s.finished)
run_aggregations-Justified rs runners w =
    let (inv, _) = run_aggregations-ends rs runners w in (inv.justified, inv.tables)

-- However it ends, each runner of the list is either finished or pending, as often as it is listed:
-- none is run to success twice and none is lost.
pub run_aggregations-conserves :
    {World : Type 0} (rs : Runners World) (runners : List ℕ) (w : World) (a : ℕ)
    → let s = (run_aggregations rs runners w).0 in
      count a s.finished + count a s.pending ≡ count a runners
run_aggregations-conserves rs runners w a =
    let (inv, _) = run_aggregations-ends rs runners w in inv.conserved a

-- If the loop's test ended it, every runner has finished exactly as often as it is listed.
pub completed-finishes_all :
    {World : Type 0} (rs : Runners World) (runners : List ℕ) (w : World)
    → (run_aggregations rs runners w).1 ≡ completed
    → (a : ℕ) → count a (run_aggregations rs runners w).0.finished ≡ count a runners
completed-finishes_all rs runners w e a =
    let (inv, well) = run_aggregations-ends rs runners w in
    let empty : (run_aggregations rs runners w).0.pending ≡ [] = rw e at well in
    omega (arith, inv.conserved a, ap (count a) empty)

-- The loop is left by its `break` only when runners are pending and no listed runner can run: each
-- is finished or waits for a table that is not filled.
pub impossible-blocks_all :
    {World : Type 0} (rs : Runners World) (runners : List ℕ) (w : World)
    → (run_aggregations rs runners w).1 ≡ impossible
    → let s = (run_aggregations rs runners w).0 in
      (s.pending ≢ []) × All (λ r. can_run rs r s ≡ false) runners
impossible-blocks_all rs runners w e =
    let (_, well) = run_aggregations-ends rs runners w in rw e at well
