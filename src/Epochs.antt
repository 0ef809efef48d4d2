-- ===== src/Epochs.antt =====
-- `dateToFilecoinBlockHeight` and `filecoinBlockHeightToDate` of src/utils/utils.ts: block heights and
-- dates, in milliseconds since 1970. A date is at most 8.64e15 milliseconds from 1970, which is below
-- 2^53: the numbers of a valid date are exact, and rounding turns no date that is out of range into a
-- valid one.
pub mod RoundTrip
use compliance_data_platform.Prelude.{
  ℕ, ◌+◌, ◌/◌, Bool, true, false, Option, none, some, leb, ◌>>=◌, if◌then◌else◌,
}
use compliance_data_platform.Numbers.{ℤ, pos, negsuc, pos_part, neg_part}
use compliance_data_platform.Numbers.Signed.{◌+ℤ◌, ◌-ℤ◌, ◌*ℤ◌}

-- `FilecoinBlockHeightConversionConfig`, with its defaults.
pub record Config : Type 0 where
  pub block_time_seconds : ℕ
  pub testnet : Bool

abbrev pub default_config : Config
default_config = record { block_time_seconds = 30; testnet = false }

-- `filecoinGenesisBlocks`
abbrev pub genesis_unix : Config → ℕ
genesis_unix c = if c.testnet then 1667326380 else 1598306400

-- `Math.floor(a / d)`: -(n + 1) / d is at least -(n / d + 1).
unfoldable pub floor_div : ℤ → ℕ → ℤ
floor_div (pos n) d = pos (n / d)
floor_div (negsuc n) d = negsuc (n / d)

-- The height of the block at a time in milliseconds.
unfoldable pub height_of_milliseconds : (milliseconds : ℤ) → Config → ℤ
height_of_milliseconds milliseconds c =
    let epoch_seconds = floor_div milliseconds 1000 in
    floor_div (epoch_seconds -ℤ pos (genesis_unix c)) c.block_time_seconds

-- `(genesisUnix + blockHeight * blockTimeSeconds) * 1000`
unfoldable pub milliseconds_of_height : (block_height : ℤ) → Config → ℤ
milliseconds_of_height block_height c =
    (pos (genesis_unix c) +ℤ block_height *ℤ pos c.block_time_seconds) *ℤ pos 1000

-- How far a time is from 1970, in milliseconds.
abbrev pub distance : ℤ → ℕ
distance t = pos_part t + neg_part t

-- `new Date(milliseconds)`: a time of more than 8.64e15 milliseconds before or after 1970 is an
-- `Invalid Date`, which is `none`.
unfoldable pub new_date : (milliseconds : ℤ) → Option ℤ
new_date milliseconds =
    if leb (distance milliseconds) 8640000000000000 then some milliseconds else none

-- The `valueOf` of an invalid date is NaN, and so is the height: both are `none`.
unfoldable pub date_to_filecoin_block_height : (date : Option ℤ) → Config → Option ℤ
date_to_filecoin_block_height date c = do
  milliseconds ← date
  value ← new_date milliseconds
  some (height_of_milliseconds value c)

unfoldable pub filecoin_block_height_to_date : (block_height : ℤ) → Config → Option ℤ
filecoin_block_height_to_date block_height c = new_date (milliseconds_of_height block_height c)
