-- ===== src/FieldUpdates.antt =====
-- src/utils/prisma.ts: updates of a bigint column, and the merge of two of them into one. All values
-- are bigints, as the callers pass; JavaScript numbers are left out. An exception is `none`.
pub mod Merge
use compliance_data_platform.Prelude.{
  Bool, true, false, ◌||◌, Option, none, some, List, [], ◌∷◌, any, all, not, if◌then◌else◌,
}
use compliance_data_platform.Numbers.{ℤ, pos}
use compliance_data_platform.Numbers.Signed.{◌+ℤ◌, ◌*ℤ◌, negate, is_nonneg}

-- `BigIntFieldUpdateOperationsInput`
pub record Operations : Type 0 where
  pub set : Option ℤ
  pub divide : Option ℤ
  pub multiply : Option ℤ
  pub increment : Option ℤ
  pub decrement : Option ℤ

pub data Key : Type 0 where
  set divide multiply increment decrement : Key

pub data Update : Type 0 where
  undefined : Update
  value : ℤ → Update
  operations : Operations → Update

pub data OperationType : Type 0 where
  addition multiplication : OperationType

abbrev pub is_defined : Option ℤ → Bool
is_defined none = false
is_defined (some x) = true

-- `update[operation]`
abbrev pub field : Operations → Key → Option ℤ
field u Key.set = u.set
field u Key.divide = u.divide
field u Key.multiply = u.multiply
field u Key.increment = u.increment
field u Key.decrement = u.decrement

unfoldable pub update_include_operations : Operations → List Key → Bool
update_include_operations update keys = any (λ k. is_defined (field update k)) keys

abbrev pub safe_reverse : Option ℤ → Option ℤ
safe_reverse none = none
safe_reverse (some x) = some (negate x)

abbrev pub or_zero : Option ℤ → ℤ
or_zero none = pos 0
or_zero (some x) = x

abbrev pub combine : OperationType → ℤ → ℤ → ℤ
combine addition a b = a +ℤ b
combine multiplication a b = a *ℤ b

-- `input.reduce(…, 0n)`
abbrev pub reduce : OperationType → ℤ → List (Option ℤ) → ℤ
reduce type result [] = result
reduce type result (item ∷ input) = reduce type (combine type result (or_zero item)) input

unfoldable pub safe_operation : OperationType → List (Option ℤ) → Option ℤ
safe_operation type input =
    if all (λ i. not (is_defined i)) input then none else some (reduce type (pos 0) input)

abbrev pub no_operations : Operations
no_operations = record {
  set = none;
  divide = none;
  multiply = none;
  increment = none;
  decrement = none;
}

abbrev pub increments : Option ℤ → Update
increments n = operations (record no_operations { increment = n })

abbrev pub decrements : Option ℤ → Update
decrements n = operations (record no_operations { decrement = n })

abbrev pub multiplies : Option ℤ → Update
multiplies n = operations (record no_operations { multiply = n })

abbrev pub divides : Option ℤ → Update
divides n = operations (record no_operations { divide = n })

-- `balance >= 0`, which undefined is not
abbrev pub of_balance : Option ℤ → Update
of_balance none = decrements none
of_balance (some balance) =
    if is_nonneg balance then increments (some balance) else decrements (some (negate balance))

unfoldable pub merge_relative : Operations → Operations → Option Update
merge_relative a b =
    if update_include_operations b (Key.set ∷ Key.divide ∷ Key.multiply ∷ [])
      || update_include_operations a (Key.set ∷ Key.divide ∷ Key.multiply ∷ [])
    then none
    else some (
        of_balance (
          safe_operation addition
            (a.increment ∷ b.increment ∷ safe_reverse a.decrement ∷ safe_reverse b.decrement ∷ [])))

unfoldable pub merge_multiply : Operations → Operations → Option Update
merge_multiply a b =
    if update_include_operations b (Key.set ∷ Key.divide ∷ Key.increment ∷ Key.decrement ∷ [])
      || update_include_operations a (Key.set ∷ Key.divide ∷ Key.increment ∷ Key.decrement ∷ [])
    then none
    else some (multiplies (safe_operation multiplication (a.multiply ∷ b.multiply ∷ [])))

unfoldable pub merge_divide : Operations → Operations → Option Update
merge_divide a b =
    if update_include_operations b (Key.set ∷ Key.multiply ∷ Key.increment ∷ Key.decrement ∷ [])
      || update_include_operations a (Key.set ∷ Key.multiply ∷ Key.increment ∷ Key.decrement ∷ [])
    then none
    else some (divides (safe_operation multiplication (a.divide ∷ b.divide ∷ [])))

unfoldable pub merge_operations : Operations → Operations → Option Update
merge_operations a b =
    if is_defined b.increment || is_defined b.decrement
    then merge_relative a b
    else if is_defined b.multiply
    then merge_multiply a b
    else if is_defined b.divide
    then merge_divide a b
    else some (operations b)

-- `mergeBigIntFieldUpdate`
unfoldable pub merge_big_int_field_update : Update → Update → Option Update
merge_big_int_field_update (operations a) (operations b) = merge_operations a b
merge_big_int_field_update _ b = some b
