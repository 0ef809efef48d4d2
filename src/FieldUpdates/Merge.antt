-- ===== src/FieldUpdates/Merge.antt =====
-- What a merged update of a bigint column does, src/utils/prisma.ts.
use compliance_data_platform.Prelude.{◌≡◌, refl, ap, subst, ◌∙◌, some}
use compliance_data_platform.Numbers.{ℤ, pos, negsuc, pos_part, neg_part}
use compliance_data_platform.Numbers.Signed.{◌+ℤ◌, ◌*ℤ◌, negate, int_laws, mul-zero_ℤ}
use compliance_data_platform.FieldUpdates.{
  Update, undefined, increments, decrements, multiplies, divides, merge_big_int_field_update,
  merge_operations, merge_relative, merge_multiply, merge_divide, safe_operation,
  update_include_operations, of_balance,
}

-- An update that adds a number to the column: none, an increment, or a decrement.
pub data Adds : Update → ℤ → Type 0 where
  nothing : Adds undefined (pos 0)
  up : (n : ℤ) → Adds (increments (some n)) n
  down : (n : ℤ) → Adds (decrements (some n)) (negate n)

-- The two that are merged into an earlier one.
pub data Relative : Type 0 where
  plus minus : ℤ → Relative

abbrev pub update_of : Relative → Update
update_of (plus n) = increments (some n)
update_of (minus n) = decrements (some n)

abbrev pub amount : Relative → ℤ
amount (plus n) = n
amount (minus n) = negate n

of_balance-Adds : (z a : ℤ) → z ≡ a → Adds (of_balance (some z)) a
of_balance-Adds (pos n) a e = subst (Adds (increments (some (pos n)))) e (up (pos n))
of_balance-Adds (negsuc n) a e =
    let back : negate (negate (negsuc n)) ≡ a = omega (int_laws, ap pos_part e, ap neg_part e) in
    subst (Adds (decrements (some (negate (negsuc n))))) back (down (negate (negsuc n)))

-- Merging a further increment or decrement into an update that adds never throws, and gives an
-- update that adds the sum of the two.
pub merge-Adds :
    {u : Update} {a : ℤ}
    → Adds u a
    → (r : Relative)
    → (u' : Update) × (merge_big_int_field_update u (update_of r) ≡ some u')
      × Adds u' (a +ℤ amount r)
unfolding merge_big_int_field_update merge_operations merge_relative safe_operation
    update_include_operations
merge-Adds nothing (plus n) = (_, refl, subst (Adds _) (omega int_laws) (up n))
merge-Adds nothing (minus n) = (_, refl, subst (Adds _) (omega int_laws) (down n))
merge-Adds (up m) (plus n) = (_, refl, of_balance-Adds _ _ (omega int_laws))
merge-Adds (up m) (minus n) = (_, refl, of_balance-Adds _ _ (omega int_laws))
merge-Adds (down m) (plus n) = (_, refl, of_balance-Adds _ _ (omega int_laws))
merge-Adds (down m) (minus n) = (_, refl, of_balance-Adds _ _ (omega int_laws))

-- Merging two multiplications, or two divisions, gives one by 0, whatever the two factors are.
pub merge_factors_zero :
    (m n : ℤ)
    → (merge_big_int_field_update (multiplies (some m)) (multiplies (some n))
        ≡ some (multiplies (some (pos 0))))
      × (merge_big_int_field_update (divides (some m)) (divides (some n))
          ≡ some (divides (some (pos 0))))
unfolding merge_big_int_field_update merge_operations merge_multiply merge_divide safe_operation
    update_include_operations
merge_factors_zero m n = (
  ap (λ z. some (multiplies (some z))) (zero_factors m n),
  ap (λ z. some (divides (some z))) (zero_factors m n),
)
  where
    zero_factors : (m n : ℤ) → pos 0 *ℤ m *ℤ n ≡ pos 0
    zero_factors m n = ap (λ z. z *ℤ n) (mul-zero_ℤ m) ∙ mul-zero_ℤ n
