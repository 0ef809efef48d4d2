-- ===== src/Numbers.antt =====
-- The numbers of the program: bigint values as integers, JavaScript numbers as an abstract type of
-- doubles, and `bigIntToNumber`, `bigIntDiv` and `safeDiv` of src/utils/utils.ts. An exception is
-- `none`.
pub mod Signed
use compliance_data_platform.Prelude.{
  ℕ, suc, ◌-◌, ◌*◌, ◌/◌, ◌^◌, ◌<◌, ◌≡◌, Bool, true, Option, none, some, ltb, leb, ◌==◌,
  if◌then◌else◌, ◌>>=◌, String, str_eq,
}

-- `negsuc n` is -(n + 1).
pub data ℤ : Type 0 where
  pos : ℕ → ℤ
  negsuc : ℕ → ℤ

abbrev pub pos_part : ℤ → ℕ
pos_part (pos n) = n
pos_part (negsuc n) = 0

abbrev pub neg_part : ℤ → ℕ
neg_part (pos n) = 0
neg_part (negsuc n) = suc n

-- a - b, as an integer.
abbrev pub sub_ℕ : ℕ → ℕ → ℤ
sub_ℕ a b = if leb b a then pos (a - b) else negsuc (b - a - 1)

-- Division of bigints drops the fraction, towards 0.
abbrev pub div_ℤ : ℤ → ℕ → ℤ
div_ℤ (pos n) d = pos (n / d)
div_ℤ (negsuc n) d = sub_ℕ 0 (suc n / d)

abbrev pub scale_ℤ : ℤ → ℕ → ℤ
scale_ℤ z k = sub_ℕ (pos_part z * k) (neg_part z * k)

-- JavaScript numbers. `of_ℤ` is `Number(bigint)`, rounded; `is_exact` tests `BigInt(Number(v)) === v`;
-- `to_big_int` is `BigInt(number)`, which throws on a fraction; `is_zero` is the test of a falsy number.
pub record Double : Type 1 where
  pub carrier : Type 0
  pub of_ℤ : ℤ → carrier
  pub is_exact : ℤ → Bool
  pub to_big_int : carrier → Option ℤ
  pub add : carrier → carrier → carrier
  pub mul : carrier → carrier → carrier
  pub div : carrier → carrier → carrier
  pub lt : carrier → carrier → Bool
  pub le : carrier → carrier → Bool
  pub is_zero : carrier → Bool

module _ (F : Double) where
  abbrev pub of_ℕ : ℕ → F.carrier
  of_ℕ n = F.of_ℤ (pos n)

  -- A decimal with two places.
  abbrev pub hundredths : ℤ → F.carrier
  hundredths z = F.div (F.of_ℤ z) (of_ℕ 100)

  unfoldable pub big_int_to_number : ℤ → Option F.carrier
  big_int_to_number z = if F.is_exact z then some (F.of_ℤ z) else none

  -- With the default precision 2. `toFixed(2)` prints the decimal with two places and
  -- `stringToNumber` reads the same number back.
  unfoldable pub big_int_div : ℤ → ℕ → Option F.carrier
  big_int_div a b =
      if b == 0
      then none
      else (do n ← big_int_to_number (div_ℤ (scale_ℤ a 100) b); some (F.div n (of_ℕ 100)))

  unfoldable pub safe_div : F.carrier → F.carrier → F.carrier → F.carrier
  safe_div numerator denominator fallback =
      if F.is_zero denominator then fallback else F.div numerator denominator

  -- `read` is `parseFloat` with the comparison of what `toLocaleString` prints; `none` is the error of
  -- an invalid or imprecise text. The empty text gives null.
  unfoldable pub string_to_number : (String → Option F.carrier) → String → Option (Option F.carrier)
  string_to_number read s = if str_eq s "" then some none else (do n ← read s; some (some n))

-- What the properties use of doubles: integers below 2^50 are exact, and decimals with two places
-- below that bound compare as their hundredths do.
pub record IsFaithful (F : Double) : Type 0 where
  pub exact : (n : ℕ) → n < 2 ^ 50 → F.is_exact (pos n) ≡ true
  pub lt_hundredths :
      (a b : ℕ)
      → a < 2 ^ 50
      → b < 2 ^ 50
      → F.lt (hundredths F (pos a)) (hundredths F (pos b)) ≡ ltb a b
