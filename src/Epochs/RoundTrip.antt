-- ===== src/Epochs/RoundTrip.antt =====
-- From heights to dates and back, of src/utils/utils.ts.
use compliance_data_platform.Prelude.{
  ℕ, suc, ◌+◌, ◌-◌, ◌*◌, ◌/◌, ◌≤◌, ◌<◌, ◌≡◌, ◌⊎◌, inl, inr, refl, ap, ◌∙◌, none, some, leb,
  Bool-cases, arith,
}
use native.Mathlib.Nat.{mul-div_cancel, div-eq_of_lt-le, div-mul-le_self, lt-mul-div-succ}
use compliance_data_platform.Numbers.{ℤ, pos, negsuc, pos_part, neg_part}
use compliance_data_platform.Numbers.Signed.{◌+ℤ◌, ◌-ℤ◌, ◌*ℤ◌, int_laws, +ℤ_parts}
use compliance_data_platform.Epochs.{
  Config, genesis_unix, floor_div, height_of_milliseconds, milliseconds_of_height, distance,
  new_date, date_to_filecoin_block_height, filecoin_block_height_to_date,
}

pos-mul : (n d : ℕ) → pos n *ℤ pos d ≡ pos (n * d)
unfolding ◌*ℤ◌
pos-mul n d = ground arith

positive-mul : (n d : ℕ) → 0 < d → 0 < suc n * d
positive-mul n d h = omega (arith, expand n d)
  where
    expand : (n d : ℕ) → suc n * d ≡ d + n * d
    expand n d = omega arith

negsuc-mul : (n d : ℕ) → 0 < d → negsuc n *ℤ pos d ≡ negsuc (suc n * d - 1)
unfolding ◌*ℤ◌
negsuc-mul n d h = ground (arith, positive-mul n d h)

floor_div-mul : (x : ℤ) (d : ℕ) → 0 < d → floor_div (x *ℤ pos d) d ≡ x
unfolding floor_div
floor_div-mul (pos n) d h = rw (pos-mul n d) (ap pos (mul-div_cancel n h))
floor_div-mul (negsuc n) d h = rw (negsuc-mul n d h) (
    ap negsuc
      (div-eq_of_lt-le d (omega (arith, positive-mul n d h)) (omega (arith, positive-mul n d h))))

height_of_milliseconds-milliseconds_of_height :
    (block_height : ℤ) (c : Config)
    → 0 < c.block_time_seconds
    → height_of_milliseconds (milliseconds_of_height block_height c) c ≡ block_height
unfolding height_of_milliseconds milliseconds_of_height
height_of_milliseconds-milliseconds_of_height h c positive =
    ap (λ s. floor_div (s -ℤ pos (genesis_unix c)) c.block_time_seconds)
      (floor_div-mul (pos (genesis_unix c) +ℤ h *ℤ pos c.block_time_seconds) 1000 (omega arith))
    ∙ ap (λ s. floor_div s c.block_time_seconds)
        (cancel (genesis_unix c) (h *ℤ pos c.block_time_seconds))
    ∙ floor_div-mul h c.block_time_seconds positive
  where
    cancel : (g : ℕ) (y : ℤ) → pos g +ℤ y -ℤ pos g ≡ y
    cancel g y = omega int_laws

-- On both networks and for every positive block time, a block height whose time is at most 8.64e15
-- milliseconds from 1970 has this time as its date, and the height of the date is the height of the
-- block. Every other height has no valid date, and no height comes back from it.
pub date_to_filecoin_block_height-filecoin_block_height_to_date :
    (block_height : ℤ) (c : Config)
    → 0 < c.block_time_seconds
    → ((distance (milliseconds_of_height block_height c) ≤ 8640000000000000)
        × (filecoin_block_height_to_date block_height c
            ≡ some (milliseconds_of_height block_height c))
        × (date_to_filecoin_block_height (filecoin_block_height_to_date block_height c) c
            ≡ some block_height))
      ⊎ ((8640000000000000 < distance (milliseconds_of_height block_height c))
          × (filecoin_block_height_to_date block_height c ≡ none)
          × (date_to_filecoin_block_height (filecoin_block_height_to_date block_height c) c ≡ none))
unfolding date_to_filecoin_block_height filecoin_block_height_to_date new_date
date_to_filecoin_block_height-filecoin_block_height_to_date h c positive =
    elim (Bool-cases (leb (distance (milliseconds_of_height h c)) 8640000000000000)) [
      | inl e ↦ inl (
        ground arith,
        rw e refl,
        rw (e, e, height_of_milliseconds-milliseconds_of_height h c positive) refl,
      )
      | inr e ↦ inr (ground arith, rw e refl, rw e refl)
    ]

infix 50 ◌≤ℤ◌ ◌<ℤ◌
abbrev pub ◌≤ℤ◌ : ℤ → ℤ → Type 0
a ≤ℤ b = pos_part a + neg_part b ≤ pos_part b + neg_part a

abbrev pub ◌<ℤ◌ : ℤ → ℤ → Type 0
a <ℤ b = pos_part a + neg_part b < pos_part b + neg_part a

mul_parts :
    (a : ℤ) (k : ℕ)
    → pos_part (a *ℤ pos k) + neg_part a * k ≡ neg_part (a *ℤ pos k) + pos_part a * k
unfolding ◌*ℤ◌
mul_parts a k = ground arith

floor_div-bounds :
    (x : ℤ) (d : ℕ) → 0 < d → (floor_div x d *ℤ pos d ≤ℤ x) × (x <ℤ floor_div x d *ℤ pos d +ℤ pos d)
unfolding floor_div
floor_div-bounds (pos n) d h =
    let least : n / d * d ≤ n = div-mul-le_self n d in
    let most = lt-mul-div-succ n h in
    rw (pos-mul (n / d) d) (omega (int_laws, least), omega (int_laws, least, most))
floor_div-bounds (negsuc n) d h =
    let least : n / d * d ≤ n = div-mul-le_self n d in
    let most = lt-mul-div-succ n h in
    let expand : suc (n / d) * d ≡ d + n / d * d = omega arith in
    rw (negsuc-mul (n / d) d h) (
      omega (int_laws, most, expand),
      omega (int_laws, least, expand, +ℤ_parts (negsuc (suc (n / d) * d - 1)) (pos d)),
    )

-- A date lies in the time of its block: it is not before the date of the block, and the block time
-- has not passed since.
height_of_milliseconds-bounds :
    (date : ℤ) (c : Config)
    → 0 < c.block_time_seconds
    → (milliseconds_of_height (height_of_milliseconds date c) c ≤ℤ date)
      × (date
          <ℤ milliseconds_of_height (height_of_milliseconds date c) c
            +ℤ pos (c.block_time_seconds * 1000))
unfolding height_of_milliseconds milliseconds_of_height
height_of_milliseconds-bounds date c positive =
    let s = floor_div date 1000 in
    let g = genesis_unix c in
    let k = c.block_time_seconds in
    let y = floor_div (s -ℤ pos g) k *ℤ pos k in
    let (least, most) = floor_div-bounds date 1000 (omega arith) in
    let (block_least, block_most) = floor_div-bounds (s -ℤ pos g) k positive in
    (
      omega (int_laws, least, block_least, mul_parts s 1000, mul_parts (pos g +ℤ y) 1000),
      omega (int_laws, most, block_most, mul_parts s 1000, mul_parts (pos g +ℤ y) 1000),
    )
