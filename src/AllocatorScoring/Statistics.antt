-- ===== src/AllocatorScoring/Statistics.antt =====
-- The statistics of src/service/allocator-scoring/allocator-scoring.service.ts, with `bigIntMul`,
-- `bigIntDiv` and `arrayAverage` of src/utils/utils.ts.
use compliance_data_platform.Prelude.{
  ℕ, zero, suc, ◌+◌, ◌-◌, ◌*◌, ◌/◌, ◌%◌, ◌^◌, true, false, Option, none, some, List, [], ◌∷◌, ◌>>=◌,
  ltb, leb, ◌==◌, if◌then◌else◌, length, get_elem?,
}
use compliance_data_platform.Numbers.{ℤ, pos, negsuc, div_ℤ, Double, of_ℕ, hundredths, big_int_div}
use compliance_data_platform.Numbers.Signed.{◌*ℤ◌, negate}
use compliance_data_platform.AllocatorScoring.Report.{Maths}

module _ (F : Double) where
  -- `BigInt(a) / BigInt(b)` for a divisor of either sign.
  unfoldable pub signed_big_int_div : ℤ → ℤ → Option F.carrier
  signed_big_int_div a (pos d) = big_int_div F a d
  signed_big_int_div a (negsuc n) = big_int_div F (negate a) (suc n)

  -- `numerator ? bigIntDiv(…) : 0` on a denominator that may be zero
  unfoldable pub ratio_or_zero : ℤ → ℤ → Option F.carrier
  ratio_or_zero a (pos zero) = some (of_ℕ F 0)
  ratio_or_zero a b = signed_big_int_div a b

  -- `arr?.reduce((acc, val) => acc + val, 0)`
  abbrev pub sum_from : F.carrier → List F.carrier → F.carrier
  sum_from acc [] = acc
  sum_from acc (x ∷ xs) = sum_from (F.add acc x) xs

  -- `sort((a, b) => a - b)`
  abbrev pub insert_number : F.carrier → List F.carrier → List F.carrier
  insert_number x [] = x ∷ []
  insert_number x (y ∷ ys) = elim (F.lt y x) [ true ↦ y ∷ insert_number x ys | false ↦ x ∷ y ∷ ys ]

  unfoldable pub sort_numbers : List F.carrier → List F.carrier
  sort_numbers [] = []
  sort_numbers (x ∷ xs) = insert_number x (sort_numbers xs)

  -- `value || 0`
  abbrev pub number_or_zero : F.carrier → F.carrier
  number_or_zero x = if F.is_zero x then of_ℕ F 0 else x

  -- `value ?? 0`
  abbrev pub given_or_zero : Option F.carrier → F.carrier
  given_or_zero none = of_ℕ F 0
  given_or_zero (some x) = x

  module _ (M : Maths F) where
    -- With the default precision 6.
    unfoldable pub big_int_mul : ℕ → F.carrier → Option ℤ
    big_int_mul a b = do
      n ← F.to_big_int (M.round (F.mul b (of_ℕ F (10 ^ 6))))
      some (div_ℤ (pos a *ℤ n) (10 ^ 6))

    -- The average of no numbers is 0 / 0, which is not finite.
    unfoldable pub array_average : List F.carrier → Option F.carrier
    array_average arr =
        let result = F.div (sum_from (of_ℕ F 0) arr) (of_ℕ F (length arr)) in
        if M.is_finite result then some result else none

    -- For `n` 25 and 50, whose hundredths are exact: the whole part of the index is the quotient by
    -- 100, its fraction the remainder in hundredths.
    unfoldable pub calculate_nth_percentile : List F.carrier → ℕ → Option (Option F.carrier)
    calculate_nth_percentile sorted n =
        let index = n * (length sorted - 1) in
        if ltb 100 n
        then none
        else if length sorted == 0
        then some none
        else if index % 100 == 0
        then some (get_elem? sorted (index / 100))
        else some (do
          lower ← get_elem? sorted (index / 100)
          upper ← get_elem? sorted (index / 100 + 1)
          some (F.add lower (F.mul (M.sub upper lower) (hundredths F (pos (index % 100))))))

    abbrev pub squares_from : F.carrier → F.carrier → List F.carrier → F.carrier
    squares_from average acc [] = acc
    squares_from average acc (x ∷ xs) =
        squares_from average (F.add acc (M.square (M.sub x average))) xs

    -- An average that is not finite is null, which counts as 0 in a subtraction.
    unfoldable pub standard_deviation : List F.carrier → Option F.carrier
    standard_deviation [] = none
    standard_deviation (x ∷ xs) =
        let values = x ∷ xs in
        some (
          M.sqrt (
            F.div (squares_from (given_or_zero (array_average values)) (of_ℕ F 0) values)
              (of_ℕ F (length values))))

    -- A day has 86400000 milliseconds. A date in the future has a weight of 1 as well.
    unfoldable pub compute_client_weight : (now : ℕ) → Option ℕ → F.carrier
    compute_client_weight now none = of_ℕ F 0
    compute_client_weight now (some last_datacap_spent) =
        let days_ago = (now - last_datacap_spent) / 86400000 in
        if leb days_ago 60
        then of_ℕ F 1
        else M.exp (F.div (F.of_ℤ (negate (pos (days_ago - 60)))) (of_ℕ F 120))
