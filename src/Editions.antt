-- ===== src/Editions.antt =====
-- src/utils/filplus-edition.ts: the editions of the programme, with their bounds in milliseconds, and
-- the edition of a timestamp or an id.
pub mod Ranges
use compliance_data_platform.Prelude.{
  ℕ, ◌*◌, Bool, true, ◌&&◌, Option, none, some, List, [], ◌∷◌, ltb, leb, ◌==◌, filter, find,
  if◌then◌else◌,
}

pub record FilPlusEdition : Type 0 where
  pub id : ℕ
  pub start_date : Option ℕ
  pub end_date : Option ℕ
  pub low_replica_threshold : ℕ
  pub high_replica_threshold : ℕ

-- 1 March 2024 and 11 July 2025.
abbrev pub edition_5_start : ℕ
edition_5_start = 1709251200000

abbrev pub edition_6_start : ℕ
edition_6_start = 1752192000000

abbrev pub edition_4 : FilPlusEdition
edition_4 = record {
  id = 4;
  start_date = none;
  end_date = some edition_5_start;
  low_replica_threshold = 4;
  high_replica_threshold = 10;
}

abbrev pub edition_5 : FilPlusEdition
edition_5 = record {
  id = 5;
  start_date = some edition_5_start;
  end_date = some edition_6_start;
  low_replica_threshold = 4;
  high_replica_threshold = 10;
}

abbrev pub edition_6 : FilPlusEdition
edition_6 = record {
  id = 6;
  start_date = some edition_6_start;
  end_date = none;
  low_replica_threshold = 4;
  high_replica_threshold = 8;
}

abbrev pub fil_plus_editions : List FilPlusEdition
fil_plus_editions = edition_4 ∷ edition_5 ∷ edition_6 ∷ []

-- The two conditions of the search: a bound that is missing is met.
unfoldable pub covers : ℕ → FilPlusEdition → Bool
covers timestamp edition =
    elim edition.start_date [ none ↦ true | some start ↦ leb start timestamp ]
    && elim edition.end_date [ none ↦ true | some end ↦ ltb timestamp end ]

-- A small timestamp is taken for seconds.
unfoldable pub in_milliseconds : ℕ → ℕ
in_milliseconds timestamp = if ltb timestamp 100000000000 then timestamp * 1000 else timestamp

unfoldable pub get_fil_plus_edition_by_timestamp : ℕ → Option FilPlusEdition
get_fil_plus_edition_by_timestamp timestamp =
    find (covers (in_milliseconds timestamp)) fil_plus_editions

unfoldable pub get_fil_plus_edition_by_id : ℕ → Option FilPlusEdition
get_fil_plus_edition_by_id id = find (λ (e : FilPlusEdition). e.id == id) fil_plus_editions
