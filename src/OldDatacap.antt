-- ===== src/OldDatacap.antt =====
-- src/service/old-datacap/old-datacap.service.ts: the datacap from before the nv22 upgrade that is left,
-- week by week, with the allocators or clients that hold it. The tables of allocators and of clients have
-- the same shape: a holder with a balance and a second amount, its allocations or its claims. Balances
-- are not negative. Weeks are milliseconds; an exception is `none`.
pub mod Weeks
pub mod Drilldown
use compliance_data_platform.Prelude.{
  ℕ, ◌+◌, Bool, true, false, ◌||◌, Option, none, some, List, [], ◌∷◌, map, filter, find, String,
  str_eq, ltb, ◌==◌, ◌>>=◌, if◌then◌else◌,
}
use compliance_data_platform.Tables.{distinct_from, sort}

pub record BalanceRow : Type 0 where
  pub week : ℕ
  pub holder : String
  pub old_dc_balance : ℕ
  pub amount : ℕ

pub record DrilldownEntry : Type 0 where
  pub holder : String
  pub name : Option String
  pub old_datacap : ℕ
  pub amount : ℕ

pub record BalanceWeek : Type 0 where
  pub week : ℕ
  pub holders : ℕ
  pub old_datacap : ℕ
  pub amount : ℕ
  pub drilldown : List DrilldownEntry

abbrev pub sum_by : (BalanceRow → ℕ) → List BalanceRow → ℕ
sum_by f [] = 0
sum_by f (r ∷ rows) = f r + sum_by f rows

abbrev pub rows_in_week : ℕ → List BalanceRow → List BalanceRow
rows_in_week week rows = filter (λ (r : BalanceRow). r.week == week) rows

-- `where: { OR: [{ old_dc_balance: { gt: 0 } }, { allocations: { gt: 0 } }] }`
abbrev pub has_datacap : BalanceRow → Bool
has_datacap r = ltb 0 r.old_dc_balance || ltb 0 r.amount

-- `skip: 1` of the groups in ascending order of their week.
abbrev pub without_first : List ℕ → List ℕ
without_first [] = []
without_first (w ∷ weeks) = weeks

unfoldable pub aggregated_weeks : List BalanceRow → List ℕ
aggregated_weeks rows =
    without_first (sort (distinct_from [] (map (λ (r : BalanceRow). r.week) rows)))

-- `byWeek[week].map(…) ?? []`: a week that no row with datacap has is undefined, which has no `map`.
abbrev pub by_week : ℕ → List BalanceRow → Option (List BalanceRow)
by_week week rows = elim (rows_in_week week (filter has_datacap rows)) [
  | [] ↦ none
  | r ∷ rest ↦ some (r ∷ rest)
]

abbrev pub count_rows : List BalanceRow → ℕ
count_rows [] = 0
count_rows (r ∷ rows) = 1 + count_rows rows

-- The groups of a week with their count and sums, and the drilldown.
abbrev pub week_with : List BalanceRow → ℕ → List DrilldownEntry → BalanceWeek
week_with rows week drilldown = record {
  week = week;
  holders = count_rows (rows_in_week week rows);
  old_datacap = sum_by (λ (r : BalanceRow). r.old_dc_balance) (rows_in_week week rows);
  amount = sum_by (λ (r : BalanceRow). r.amount) (rows_in_week week rows);
  drilldown = drilldown;
}

module _ (name_of : String → Option (Option String)) where
  unfoldable pub entries_of : List BalanceRow → Option (List DrilldownEntry)
  entries_of [] = some []
  entries_of (r ∷ rows) = do
    name ← name_of r.holder
    rest ← entries_of rows
    some (
        record { holder = r.holder; name = name; old_datacap = r.old_dc_balance; amount = r.amount }
        ∷ rest)

  unfoldable pub balance_week : List BalanceRow → ℕ → Option BalanceWeek
  balance_week rows week = do
    own ← by_week week rows
    drilldown ← entries_of own
    some (week_with rows week drilldown)

  unfoldable pub balance_weeks : List BalanceRow → List ℕ → Option (List BalanceWeek)
  balance_weeks rows [] = some []
  balance_weeks rows (week ∷ weeks) = do
    first ← balance_week rows week
    rest ← balance_weeks rows weeks
    some (first ∷ rest)

  unfoldable pub get_balance : List BalanceRow → Option (List BalanceWeek)
  get_balance rows = balance_weeks rows (aggregated_weeks rows)

-- `name?.trim() || null` of the first row of a holder, from pairs of ids and names.
unfoldable pub trimmed_name :
    (trim : String → String) → List (String × Option String) → String → Option String
trimmed_name trim names id = elim (find (λ (n : String × Option String). str_eq n.0 id) names) [
  | none ↦ none
  | some (_, none) ↦ none
  | some (_, some name) ↦ if str_eq (trim name) "" then none else some (trim name)
]

unfoldable pub get_allocator_balance :
    (String → String) → List (String × Option String) → List BalanceRow → Option (List BalanceWeek)
get_allocator_balance trim allocators rows =
    get_balance (λ (id : String). some (trimmed_name trim allocators id)) rows

-- The name in the bookkeeping comes first. Its reading throws where the bookkeeping has no client.
unfoldable pub get_client_balance :
    (String → String)
    → (String → Option (Option String))
    → List (String × Option String)
    → List BalanceRow
    → Option (List BalanceWeek)
get_client_balance trim bookkeeping_name clients rows =
    get_balance
      (λ (id : String). do
        name ← bookkeeping_name id
        some (elim name [
          | none ↦ trimmed_name trim clients id
          | some n ↦ if str_eq n "" then trimmed_name trim clients id else some n
        ]))
      rows
