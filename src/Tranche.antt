-- ===== src/Tranche.antt =====
-- `validateAllocations` of src/service/allocator-report-checks/allocator-report-checks.service.ts: the
-- tranche schedule of a client's allocations. Amounts are bigints that are not negative.
pub mod Schedule
use compliance_data_platform.Prelude.{
  ℕ, zero, suc, ◌+◌, ◌*◌, ◌/◌, ◌≤◌, ◌≡◌, ◌↔◌, refl, Bool, true, false, Option, none, some, List, [],
  ◌∷◌, ltb, if◌then◌else◌, String, get_elem?, arith,
}

pub record Allocation : Type 0 where
  pub client_id : String
  pub allocation : ℕ
  pub timestamp : ℕ

-- `ClientAllocations`
pub record ClientAllocations : Type 0 where
  pub client_id : String
  pub allocations : List Allocation
  pub total_requested_amount : ℕ

-- `[5n, 10n, 15n, 20n][i] ?? 25n`
abbrev pub max_percent_for_allocation : ℕ → ℕ
max_percent_for_allocation zero = 5
max_percent_for_allocation (suc zero) = 10
max_percent_for_allocation (suc (suc zero)) = 15
max_percent_for_allocation (suc (suc (suc zero))) = 20
max_percent_for_allocation (suc (suc (suc (suc i)))) = 25

-- `prev && allocation > prev.allocation * 2n`
abbrev pub more_than_doubles : ℕ → Option ℕ → Bool
more_than_doubles allocation none = false
more_than_doubles allocation (some prev) = ltb (prev * 2) allocation

-- The loop, from the index `i` on.
unfoldable pub validate_from : ℕ → ℕ → Option ℕ → List Allocation → Bool
validate_from requested i prev [] = true
validate_from requested i prev (a ∷ rest) =
    let later = validate_from requested (suc i) (some a.allocation) rest in
    if ltb (requested * max_percent_for_allocation i / 100) a.allocation
    then false
    else if more_than_doubles a.allocation prev
    then false
    else later

unfoldable pub validate_allocations : ClientAllocations → Bool
validate_allocations c = validate_from c.total_requested_amount 0 none c.allocations

-- The schedule's shares of the requested amount: five percent, and five more each time up to 25.
abbrev pub scheduled_percent : ℕ → ℕ
scheduled_percent i = if ltb i 4 then 5 * suc i else 25

-- The schedule: the i-th allocation takes at most its share of the requested amount, and no
-- allocation is more than twice the one before it.
pub record FollowsSchedule (requested i : ℕ) (prev : Option ℕ) (l : List Allocation) : Type 0 where
  pub share :
      (k : ℕ) (a : Allocation)
      → get_elem? l k ≡ some a
      → a.allocation * 100 ≤ requested * scheduled_percent (i + k)
  pub doubling :
      (k : ℕ) (a b : Allocation)
      → get_elem? l k ≡ some a
      → get_elem? l (suc k) ≡ some b
      → b.allocation ≤ a.allocation * 2
  pub first :
      (p : ℕ) (a : Allocation) → prev ≡ some p → get_elem? l 0 ≡ some a → a.allocation ≤ p * 2
