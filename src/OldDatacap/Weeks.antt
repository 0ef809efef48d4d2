-- ===== src/OldDatacap/Weeks.antt =====
-- The weeks that src/service/old-datacap/old-datacap.service.ts gives.
use compliance_data_platform.Prelude.{
  ℕ, ◌≡◌, ◌⊎◌, inl, inr, refl, sym, ap, subst, ◌∙◌, true, false, ◌||◌, List, [], ◌∷◌, any, map,
  ◌==◌, ==_refl,
}
use compliance_data_platform.Tables.{distinct_from, sort}
use compliance_data_platform.Tables.Ascending.{
  IsAscending, sort-distinct_from-IsAscending, any-sort-distinct_from,
}
use compliance_data_platform.OldDatacap.{BalanceRow, without_first, aggregated_weeks}

-- The later weeks of the table: without its first week, in ascending order.
abbrev pub AreLaterWeeks : List BalanceRow → List ℕ → Type 0
AreLaterWeeks rows later =
    ((rows ≡ []) × (later ≡ []))
    ⊎ ((first : ℕ) × IsAscending (first ∷ later)
        × ((week : ℕ)
            → any (λ w. w == week) (first ∷ later) ≡ any (λ (r : BalanceRow). r.week == week) rows))

has_week :
    (week : ℕ) (rows : List BalanceRow)
    → any (λ w. w == week) (map (λ (r : BalanceRow). r.week) rows)
      ≡ any (λ (r : BalanceRow). r.week == week) rows
has_week week [] = refl
has_week week (r ∷ rows) = ap (λ b. r.week == week || b) (has_week week rows)

without_first-AreLaterWeeks :
    (r : BalanceRow) (rows : List BalanceRow) (l : List ℕ)
    → sort (distinct_from [] (map (λ (r : BalanceRow). r.week) (r ∷ rows))) ≡ l
    → AreLaterWeeks (r ∷ rows) (without_first l)
without_first-AreLaterWeeks r rows [] e =
    let here = any-sort-distinct_from r.week (map (λ (r : BalanceRow). r.week) (r ∷ rows)) in
    let lost : false ≡ true =
      sym (ap (λ l. any (λ w. w == r.week) l) e)
      ∙ here
      ∙ ap (λ b. b || any (λ w. w == r.week) (map (λ (r : BalanceRow). r.week) rows))
          (==_refl r.week) in
    cc
without_first-AreLaterWeeks r rows (first ∷ later) e = inr (
  first,
  subst IsAscending e
      (sort-distinct_from-IsAscending (map (λ (r : BalanceRow). r.week) (r ∷ rows))),
  λ week.
      sym (ap (λ l. any (λ w. w == week) l) e)
      ∙ any-sort-distinct_from week (map (λ (r : BalanceRow). r.week) (r ∷ rows))
      ∙ has_week week (r ∷ rows),
)

pub aggregated_weeks-AreLaterWeeks :
    (rows : List BalanceRow) → AreLaterWeeks rows (aggregated_weeks rows)
unfolding aggregated_weeks distinct_from sort
aggregated_weeks-AreLaterWeeks [] = inl (refl, refl)
aggregated_weeks-AreLaterWeeks (r ∷ rows) = without_first-AreLaterWeeks r rows _ refl
