-- ===== src/Tests/EpochsTests.antt =====
-- Block 5934198 of the main network, where the indexer of Filecoin Pay starts.
use compliance_data_platform.Prelude.{◌≡◌, ◌⊎◌, ◌≤◌, ◌<◌, refl, none, some, arith}
use compliance_data_platform.Numbers.{pos, negsuc}
use compliance_data_platform.Numbers.Signed.{◌+ℤ◌, ◌-ℤ◌, ◌*ℤ◌}
use compliance_data_platform.Epochs.{
  default_config, floor_div, new_date, distance, height_of_milliseconds, milliseconds_of_height,
  date_to_filecoin_block_height, filecoin_block_height_to_date,
}
use compliance_data_platform.Epochs.RoundTrip.{
  date_to_filecoin_block_height-filecoin_block_height_to_date,
}

height_of_date :
    date_to_filecoin_block_height (some (pos 1776332340999)) default_config ≡ some (pos 5934198)
unfolding date_to_filecoin_block_height new_date height_of_milliseconds floor_div ◌-ℤ◌
height_of_date = refl

before_genesis :
    date_to_filecoin_block_height (some (pos 0)) default_config ≡ some (negsuc 53276879)
unfolding date_to_filecoin_block_height new_date height_of_milliseconds floor_div ◌-ℤ◌
before_genesis = refl

beyond_dates : filecoin_block_height_to_date (pos 300000000000) default_config ≡ none
unfolding filecoin_block_height_to_date new_date milliseconds_of_height ◌*ℤ◌ ◌+ℤ◌
beyond_dates = refl

date_to_filecoin_block_height-filecoin_block_height_to_date_example :
    ((distance (milliseconds_of_height (pos 5934198) default_config) ≤ 8640000000000000)
      × (filecoin_block_height_to_date (pos 5934198) default_config
          ≡ some (milliseconds_of_height (pos 5934198) default_config))
      × (date_to_filecoin_block_height
            (filecoin_block_height_to_date (pos 5934198) default_config)
            default_config
          ≡ some (pos 5934198)))
    ⊎ ((8640000000000000 < distance (milliseconds_of_height (pos 5934198) default_config))
        × (filecoin_block_height_to_date (pos 5934198) default_config ≡ none)
        × (date_to_filecoin_block_height
              (filecoin_block_height_to_date (pos 5934198) default_config)
              default_config
            ≡ none))
date_to_filecoin_block_height-filecoin_block_height_to_date_example =
    date_to_filecoin_block_height-filecoin_block_height_to_date (pos 5934198) default_config
      (omega arith)
