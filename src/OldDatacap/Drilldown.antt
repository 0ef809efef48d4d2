-- ===== src/OldDatacap/Drilldown.antt =====
-- When src/service/old-datacap/old-datacap.service.ts throws, and what its weeks and their
-- drilldowns add up to.
use compliance_data_platform.Prelude.{
  ℕ, ◌+◌, ◌<◌, ◌≡◌, ◌⊎◌, inl, inr, refl, ap, subst, ◌∙◌, Bool, true, false, ◌||◌, Option, none,
  some, List, [], ◌∷◌, any, map, filter, String, All, All-filter, arith, ◌==◌, ==_refl,
  if◌then◌else◌,
}
use compliance_data_platform.OldDatacap.Weeks.{AreLaterWeeks, aggregated_weeks-AreLaterWeeks}
use compliance_data_platform.OldDatacap.{
  BalanceRow, DrilldownEntry, BalanceWeek, sum_by, count_rows, rows_in_week, has_datacap,
  aggregated_weeks, by_week, trimmed_name, week_with, entries_of, balance_week, balance_weeks,
  get_balance, get_allocator_balance,
}

-- The sum of the rows of a week.
abbrev pub week_sum : (BalanceRow → ℕ) → ℕ → List BalanceRow → ℕ
week_sum f week [] = 0
week_sum f week (r ∷ rows) = (if r.week == week then f r else 0) + week_sum f week rows

abbrev pub old_datacap_in : ℕ → List BalanceRow → ℕ
old_datacap_in week rows = week_sum (λ (r : BalanceRow). r.old_dc_balance) week rows

abbrev pub amount_in : ℕ → List BalanceRow → ℕ
amount_in week rows = week_sum (λ (r : BalanceRow). r.amount) week rows

abbrev pub sum_of_entries : (DrilldownEntry → ℕ) → List DrilldownEntry → ℕ
sum_of_entries f [] = 0
sum_of_entries f (e ∷ entries) = f e + sum_of_entries f entries

-- A week with datacap or allocations, whose totals and drilldown add up to the rows of the week.
abbrev pub AddsUp : List BalanceRow → BalanceWeek → Type 0
AddsUp rows w =
    (0 < old_datacap_in w.week rows + amount_in w.week rows)
    × (w.holders ≡ week_sum (λ (r : BalanceRow). 1) w.week rows)
    × (w.old_datacap ≡ old_datacap_in w.week rows)
    × (w.amount ≡ amount_in w.week rows)
    × (sum_of_entries (λ (e : DrilldownEntry). e.old_datacap) w.drilldown
        ≡ old_datacap_in w.week rows)
    × (sum_of_entries (λ (e : DrilldownEntry). e.amount) w.drilldown ≡ amount_in w.week rows)

sum_by-rows_in_week :
    (f : BalanceRow → ℕ) (week : ℕ) (rows : List BalanceRow)
    → sum_by f (rows_in_week week rows) ≡ week_sum f week rows
sum_by-rows_in_week f week [] = refl
sum_by-rows_in_week f week (r ∷ rows) = ground (arith, sum_by-rows_in_week f week rows)

count_rows-rows_in_week :
    (week : ℕ) (rows : List BalanceRow)
    → count_rows (rows_in_week week rows) ≡ week_sum (λ (r : BalanceRow). 1) week rows
count_rows-rows_in_week week [] = refl
count_rows-rows_in_week week (r ∷ rows) = ground (arith, count_rows-rows_in_week week rows)

filter-has_datacap :
    (rows : List BalanceRow)
    → All (λ (r : BalanceRow). 0 < r.old_dc_balance + r.amount) (filter has_datacap rows)
filter-has_datacap [] = tt
filter-has_datacap (r ∷ rows) = go (has_datacap r) refl (filter-has_datacap rows)
  where
    go :
        (b : Bool)
        → has_datacap r ≡ b
        → All (λ (r : BalanceRow). 0 < r.old_dc_balance + r.amount) (filter has_datacap rows)
        → All
            (λ (r : BalanceRow). 0 < r.old_dc_balance + r.amount)
            (elim b [ true ↦ r ∷ filter has_datacap rows | false ↦ filter has_datacap rows ])
    go true e rest = (ground (arith, e), rest)
    go false e rest = rest

or_true : (b : Bool) → (b || true) ≡ true
or_true true = refl
or_true false = refl

-- Rows without datacap add nothing.
sum-datacap :
    (week : ℕ) (rows : List BalanceRow)
    → (sum_by (λ (r : BalanceRow). r.old_dc_balance) (rows_in_week week (filter has_datacap rows))
        ≡ sum_by (λ (r : BalanceRow). r.old_dc_balance) (rows_in_week week rows))
      × (sum_by (λ (r : BalanceRow). r.amount) (rows_in_week week (filter has_datacap rows))
          ≡ sum_by (λ (r : BalanceRow). r.amount) (rows_in_week week rows))
sum-datacap week [] = (refl, refl)
sum-datacap week (r ∷ rows) =
    let rest = sum-datacap week rows in (ground (arith, rest.0), ground (arith, rest.1))

module _ (name_of : String → Option String) where
  abbrev named : String → Option (Option String)
  named id = some (name_of id)

  entries_of-sums :
      (rows : List BalanceRow)
      → (entries : List DrilldownEntry) × (entries_of named rows ≡ some entries)
        × (sum_of_entries (λ (e : DrilldownEntry). e.old_datacap) entries
            ≡ sum_by (λ (r : BalanceRow). r.old_dc_balance) rows)
        × (sum_of_entries (λ (e : DrilldownEntry). e.amount) entries
            ≡ sum_by (λ (r : BalanceRow). r.amount) rows)
  unfolding entries_of
  entries_of-sums [] = ([], refl, refl, refl)
  entries_of-sums (r ∷ rows) =
      let (entries, e, old, amount) = entries_of-sums rows in
      (
        record {
          holder = r.holder;
          name = name_of r.holder;
          old_datacap = r.old_dc_balance;
          amount = r.amount;
        }
            ∷ entries,
        rw (entries_of, e) refl,
        ap (λ n. r.old_dc_balance + n) old,
        ap (λ n. r.amount + n) amount,
      )

  by_week-cases :
      (week : ℕ) (rows l : List BalanceRow)
      → rows_in_week week (filter has_datacap rows) ≡ l
      → ((l ≡ []) × (by_week week rows ≡ none))
        ⊎ ((0
              < sum_by (λ (r : BalanceRow). r.old_dc_balance) l
                + sum_by (λ (r : BalanceRow). r.amount) l)
            × (by_week week rows ≡ some l))
  by_week-cases week rows [] e = inl (refl, rw (by_week, e) refl)
  by_week-cases week rows (r ∷ rest) e =
      let (positive, more) : All (λ (r : BalanceRow). 0 < r.old_dc_balance + r.amount) (r ∷ rest) =
        subst (All (λ (r : BalanceRow). 0 < r.old_dc_balance + r.amount)) e (
          All-filter (λ (r : BalanceRow). 0 < r.old_dc_balance + r.amount)
            (λ (r : BalanceRow). r.week == week) (filter has_datacap rows)
            (filter-has_datacap rows)) in
      inr (omega (arith, positive), rw (by_week, e) refl)

  balance_week-outcome :
      (rows : List BalanceRow) (week : ℕ)
      → ((old_datacap_in week rows + amount_in week rows ≡ 0)
          × (balance_week named rows week ≡ none))
        ⊎ ((w : BalanceWeek) × (balance_week named rows week ≡ some w)
            × (w.week ≡ week)
            × AddsUp rows w)
  unfolding balance_week
  balance_week-outcome rows week =
      let own = rows_in_week week (filter has_datacap rows) in
      let old_all : sum_by (λ (r : BalanceRow). r.old_dc_balance) own ≡ old_datacap_in week rows =
        (sum-datacap week rows).0
        ∙ sum_by-rows_in_week (λ (r : BalanceRow). r.old_dc_balance) week rows in
      let amount_all : sum_by (λ (r : BalanceRow). r.amount) own ≡ amount_in week rows =
        (sum-datacap week rows).1 ∙ sum_by-rows_in_week (λ (r : BalanceRow). r.amount) week rows in
      elim (by_week-cases week rows own refl) [
        | inl (blank, e) ↦
            let old_none : sum_by (λ (r : BalanceRow). r.old_dc_balance) own ≡ 0 =
              ap (sum_by (λ (r : BalanceRow). r.old_dc_balance)) blank in
            let amount_none : sum_by (λ (r : BalanceRow). r.amount) own ≡ 0 =
              ap (sum_by (λ (r : BalanceRow). r.amount)) blank in
            inl
              (omega (arith, old_all, amount_all, old_none, amount_none), rw (balance_week, e) refl)
        | inr (positive, e) ↦
            let (entries, f, old, amount) = entries_of-sums own in
            inr (
              week_with rows week entries,
              rw (balance_week, e, f) refl,
              refl,
              (
                omega (arith, positive, old_all, amount_all),
                count_rows-rows_in_week week rows,
                sum_by-rows_in_week (λ (r : BalanceRow). r.old_dc_balance) week rows,
                sum_by-rows_in_week (λ (r : BalanceRow). r.amount) week rows,
                old ∙ old_all,
                amount ∙ amount_all,
              ),
            )
      ]

  balance_weeks-outcome :
      (rows : List BalanceRow) (weeks : List ℕ)
      → ((week : ℕ) × (any (λ w. w == week) weeks ≡ true)
          × (old_datacap_in week rows + amount_in week rows ≡ 0)
          × (balance_weeks named rows weeks ≡ none))
        ⊎ ((result : List BalanceWeek) × (balance_weeks named rows weeks ≡ some result)
            × (map (λ (w : BalanceWeek). w.week) result ≡ weeks)
            × All (AddsUp rows) result)
  unfolding balance_weeks
  balance_weeks-outcome rows [] = inr ([], refl, refl, tt)
  balance_weeks-outcome rows (week ∷ weeks) = elim (balance_week-outcome rows week) [
    | inl (blank, e) ↦ inl (week, rw (==_refl week) refl, blank, rw (balance_weeks, e) refl)
    | inr (w, e, at, sums) ↦ elim (balance_weeks-outcome rows weeks) [
      | inl (spent, there, blank, f) ↦
          inl (spent, rw there (or_true (week == spent)), blank, rw (balance_weeks, e, f) refl)
      | inr (result, f, same, rest) ↦
          inr (w ∷ result, rw (balance_weeks, e, f) refl, list_eq at same, (sums, rest))
    ]
  ]
    where
      list_eq : {x y : ℕ} {xs ys : List ℕ} → x ≡ y → xs ≡ ys → (x ∷ xs) ≡ (y ∷ ys)
      list_eq h k = cc

-- The balance of the allocators is about the weeks of the table but the first, in ascending order. It
-- is an error if, in one of these weeks, the rows have neither datacap nor allocations. Otherwise it has
-- each of these weeks, all of them with some: the number of rows and both totals of a week are those of
-- its rows, and its drilldown adds up to them.
pub get_allocator_balance-outcome :
    (trim : String → String) (allocators : List (String × Option String)) (rows : List BalanceRow)
    → (later : List ℕ) × AreLaterWeeks rows later
      × (((week : ℕ) × (any (λ w. w == week) later ≡ true)
            × (old_datacap_in week rows + amount_in week rows ≡ 0)
            × (get_allocator_balance trim allocators rows ≡ none))
          ⊎ ((result : List BalanceWeek) × (get_allocator_balance trim allocators rows
                ≡ some result)
              × (map (λ (w : BalanceWeek). w.week) result ≡ later)
              × All (AddsUp rows) result))
unfolding get_allocator_balance get_balance
get_allocator_balance-outcome trim allocators rows = (
  aggregated_weeks rows,
  aggregated_weeks-AreLaterWeeks rows,
  balance_weeks-outcome (trimmed_name trim allocators) rows (aggregated_weeks rows),
)
