-- ===== src/Aggregation/Rounds.antt =====
-- The `for` loop of `runAggregations`, one round over the runners: what a step and a round keep.
use compliance_data_platform.Prelude.{
  ℕ, suc, ◌+◌, ◌≤◌, ◌≡◌, refl, ap, true, false, Option, none, some, List, [], ◌∷◌, ◌++◌, ◌==◌,
  arith, ◌⊎◌, inl, inr, all, length, All, Bool-cases, Option-cases, if◌then◌else◌,
}
use compliance_data_platform.Aggregation.Table.{AggregationTable}
use compliance_data_platform.Aggregation.{
  Err, error_running, Runners, LoopState, is_pending, remove, can_run, execute_with_retries,
  execute_runner, for_loop, includes,
}

-- How often a runner stands in a list.
abbrev pub count : ℕ → List ℕ → ℕ
count r [] = 0
count r (q ∷ qs) = let rest = count r qs in if q == r then suc rest else rest

pub count-remove :
    (a r : ℕ) (l : List ℕ)
    → is_pending r l ≡ true
    → (if r == a then suc (count a (remove r l)) else count a (remove r l)) ≡ count a l
unfolding is_pending remove
count-remove a r [] h = cc
count-remove a r (q ∷ qs) h = ground (arith, count-remove a r qs)

pub length-remove :
    (r : ℕ) (l : List ℕ) → is_pending r l ≡ true → suc (length (remove r l)) ≡ length l
unfolding is_pending remove
length-remove r [] h = cc
length-remove r (q ∷ qs) h = ground (arith, length-remove r qs)

module _ {World : Type 0} (rs : Runners World) where
  -- The tables that the finished runners fill, in the order in which they were pushed.
  unfoldable pub tables_of : List ℕ → List AggregationTable
  tables_of [] = []
  tables_of (r ∷ earlier) = tables_of earlier ++ rs.get_filled_tables r

  -- Each runner's tables to wait for were filled by runners that had finished before it.
  abbrev pub Justified : List ℕ → Type 0
  Justified [] = Unit
  Justified (r ∷ earlier) =
      (all (includes (tables_of earlier)) (rs.get_depending_tables r) ≡ true) × Justified earlier

  -- The loop's invariant over the runners that it was given.
  pub record Inv (runners : List ℕ) (s : LoopState World) : Type 0 where
    pub tables : s.filled_tables ≡ tables_of s.finished
    pub justified : Justified s.finished
    pub conserved : (a : ℕ) → count a s.finished + count a s.pending ≡ count a runners

  -- The state after a runner that finished with the world `w`.
  abbrev pub after : ℕ → LoopState World → World → LoopState World
  after r s w = record {
    world = w;
    filled_tables = s.filled_tables ++ rs.get_filled_tables r;
    pending = remove r s.pending;
    finished = r ∷ s.finished;
    executed_runners = suc s.executed_runners;
  }

  pub execute_runner-cases :
      (r : ℕ) (s : LoopState World)
      → ((w : World) × (execute_runner rs r s ≡ (after r s w, none)))
        ⊎ ((w : World) × (e : Err) × (execute_runner rs r s ≡ (record s { world = w }, some e)))
  unfolding execute_runner
  execute_runner-cases r s = elim (Option-cases (execute_with_retries rs 3 (rs.run r) s.world).1) [
    | inl ok ↦ inl ((execute_with_retries rs 3 (rs.run r) s.world).0, rw (ok, execute_runner))
    | inr (e, failed) ↦ inr (
      (execute_with_retries rs 3 (rs.run r) s.world).0,
      error_running (rs.name r) e,
      rw (failed, execute_runner),
    )
  ]

  execute_runner-Inv :
      (runners : List ℕ) (r : ℕ) (s : LoopState World)
      → can_run rs r s ≡ true
      → Inv runners s
      → Inv runners (execute_runner rs r s).0
  unfolding can_run tables_of
  execute_runner-Inv runners r s ready inv = elim (execute_runner-cases r s) [
    | inl (w, e) ↦ rw e (record {
      tables = rw inv.tables;
      justified = ground (arith, inv.justified);
      conserved = λ a. ground (arith, inv.conserved a, count-remove a r s.pending);
    })
    | inr (w, x, e) ↦
        rw e (record { tables = inv.tables; justified = inv.justified; conserved = inv.conserved })
  ]

  -- What every step keeps, a round keeps.
  pub for_loop_inv :
      (P : LoopState World → Type 0)
      → ((r : ℕ) (s : LoopState World) → can_run rs r s ≡ true → P s → P (execute_runner rs r s).0)
      → (l : List ℕ) (s : LoopState World) → P s
      → P (for_loop rs l s).0
  unfolding for_loop
  for_loop_inv P keep [] s p = p
  for_loop_inv P keep (r ∷ l) s p = elim (Bool-cases (can_run rs r s)) [
    | inr skip ↦ rw (skip, for_loop) (for_loop_inv P keep l s p)
    | inl ready ↦ elim (Option-cases (execute_runner rs r s).1) [
      | inl ok ↦
          rw (ready, for_loop, ok)
            (for_loop_inv P keep l (execute_runner rs r s).0 (keep r s ready p))
      | inr (e, failed) ↦ rw (ready, for_loop, failed) (keep r s ready p)
    ]
  ]

  pub for_loop-Inv :
      (runners l : List ℕ) (s : LoopState World) → Inv runners s → Inv runners (for_loop rs l s).0
  for_loop-Inv runners l s = for_loop_inv (Inv runners) (execute_runner-Inv runners) l s

  -- A round counts the runners that it takes off the pending list.
  pub for_loop-executed :
      (n : ℕ) (l : List ℕ) (s : LoopState World)
      → s.executed_runners + length s.pending ≡ n
      → (for_loop rs l s).0.executed_runners + length (for_loop rs l s).0.pending ≡ n
  unfolding can_run
  for_loop-executed n l s = for_loop_inv (λ t. t.executed_runners + length t.pending ≡ n) step l s
    where
      step :
          (r : ℕ) (t : LoopState World)
          → can_run rs r t ≡ true
          → t.executed_runners + length t.pending ≡ n
          → (execute_runner rs r t).0.executed_runners + length (execute_runner rs r t).0.pending
            ≡ n
      step r t ready h = elim (execute_runner-cases r t) [
        | inl (w, e) ↦ rw e (ground (arith, length-remove r t.pending))
        | inr (w, x, e) ↦ rw e h
      ]

  -- A round that ends without an error and has executed nothing found no runner that can run, and
  -- changed nothing.
  pub for_loop-idle :
      (l : List ℕ) (s : LoopState World)
      → (for_loop rs l s).1 ≡ none
      → (for_loop rs l s).0.executed_runners ≡ 0
      → All (λ r. can_run rs r s ≡ false) l × ((for_loop rs l s).0 ≡ s)
  unfolding for_loop
  for_loop-idle [] s ok idle = (tt, refl)
  for_loop-idle (r ∷ l) s ok idle = elim (Bool-cases (can_run rs r s)) [
    | inr skip ↦
        let (rest, same) =
          for_loop-idle l s (rw (skip, for_loop) at ok) (rw (skip, for_loop) at idle) in
        ((skip, rest), rw (skip, for_loop) same)
    | inl ready ↦ elim (execute_runner-cases r s) [
      | inl (w, e) ↦
          let s' = (execute_runner rs r s).0 in
          let busy : 1 ≤ (for_loop rs l s').0.executed_runners =
            for_loop_inv (λ t. 1 ≤ t.executed_runners) grows l s' (rw e (omega arith)) in
          let idle' : (for_loop rs l s').0.executed_runners ≡ 0 =
            rw (ready, for_loop, ap (λ t. t.1) e) at idle in
          absurd (omega arith)
      | inr (w, x, e) ↦
          let stopped : ◌≡◌ {A = Option Err} (some x) none = rw (ready, for_loop, e) at ok in cc
    ]
  ]
    where
      grows :
          (q : ℕ) (t : LoopState World)
          → can_run rs q t ≡ true
          → 1 ≤ t.executed_runners
          → 1 ≤ (execute_runner rs q t).0.executed_runners
      grows q t ready h = elim (execute_runner-cases q t) [
        | inl (w, e) ↦ rw e (omega arith)
        | inr (w, x, e) ↦ rw e h
      ]
