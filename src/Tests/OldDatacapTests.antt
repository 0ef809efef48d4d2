-- ===== src/Tests/OldDatacapTests.antt =====
-- Two allocators in three weeks, the last of which has no datacap left in the second table.
use compliance_data_platform.Prelude.{
  ℕ, ◌+◌, ◌==◌, ◌≡◌, ◌⊎◌, refl, true, Option, none, some, List, [], ◌∷◌, any, map, All, String,
}
use compliance_data_platform.Tables.{is_key_in, distinct_from, insert, sort}
use compliance_data_platform.OldDatacap.{
  BalanceRow, BalanceWeek, aggregated_weeks, trimmed_name, entries_of, balance_week, balance_weeks,
  get_balance, get_allocator_balance,
}
use compliance_data_platform.OldDatacap.Weeks.{AreLaterWeeks}
use compliance_data_platform.OldDatacap.Drilldown.{
  old_datacap_in, amount_in, AddsUp, get_allocator_balance-outcome,
}

abbrev balance : ℕ → String → ℕ → ℕ → BalanceRow
balance week holder old amount = record {
  week = week;
  holder = holder;
  old_dc_balance = old;
  amount = amount;
}

abbrev rows : List BalanceRow
rows = balance 3 "f01" 4 0 ∷ balance 2 "f01" 9 1 ∷ balance 1 "f01" 9 0 ∷ balance 3 "f02" 0 0 ∷ []

abbrev names : List (String × Option String)
names = ("f01", some "Name") ∷ []

abbrev weeks : List BalanceWeek
weeks =
    record {
      week = 2;
      holders = 1;
      old_datacap = 9;
      amount = 1;
      drilldown = record { holder = "f01"; name = some "Name"; old_datacap = 9; amount = 1 } ∷ [];
    }
    ∷ record {
      week = 3;
      holders = 2;
      old_datacap = 4;
      amount = 0;
      drilldown = record { holder = "f01"; name = some "Name"; old_datacap = 4; amount = 0 } ∷ [];
    }
    ∷ []

balances : Unit {0}
unfolding is_key_in distinct_from insert sort aggregated_weeks trimmed_name entries_of balance_week
    balance_weeks get_balance get_allocator_balance
balances = tt

two_weeks : get_allocator_balance (λ s. s) names rows ≡ some weeks
unfolding balances
two_weeks = refl

spent_week : get_allocator_balance (λ s. s) names (balance 4 "f02" 0 0 ∷ rows) ≡ none
unfolding balances
spent_week = refl

get_allocator_balance-outcome_example :
    (later : List ℕ) × AreLaterWeeks rows later
    × (((week : ℕ) × (any (λ w. w == week) later ≡ true)
          × (old_datacap_in week rows + amount_in week rows ≡ 0)
          × (get_allocator_balance (λ s. s) names rows ≡ none))
        ⊎ ((result : List BalanceWeek) × (get_allocator_balance (λ s. s) names rows ≡ some result)
            × (map (λ (w : BalanceWeek). w.week) result ≡ later)
            × All (AddsUp rows) result))
get_allocator_balance-outcome_example = get_allocator_balance-outcome (λ s. s) names rows
