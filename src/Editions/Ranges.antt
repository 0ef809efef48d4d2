-- ===== src/Editions/Ranges.antt =====
-- The ranges of the editions of src/utils/filplus-edition.ts.
use compliance_data_platform.Prelude.{
  ℕ, ◌*◌, ◌≤◌, ◌<◌, ◌≡◌, ◌⊎◌, refl, inl, inr, ap, some, ltb, find, if◌then◌else◌, arith, Bool-cases,
}
use compliance_data_platform.Editions.{
  FilPlusEdition, edition_4, edition_5, edition_6, fil_plus_editions, covers, in_milliseconds,
  get_fil_plus_edition_by_timestamp,
}

-- Which edition is in force at a time, in milliseconds, with its thresholds: edition 4 up to 1 March 2024
-- (1709251200000), edition 5 from then up to 11 July 2025 (1752192000000), edition 6 since then.
abbrev pub IsDated : ℕ → FilPlusEdition → Type 0
IsDated ms e =
    ((ms < 1709251200000)
      × (e.id ≡ 4)
      × (e.low_replica_threshold ≡ 4)
      × (e.high_replica_threshold ≡ 10))
    ⊎ ((1709251200000 ≤ ms)
        × (ms < 1752192000000)
        × (e.id ≡ 5)
        × (e.low_replica_threshold ≡ 4)
        × (e.high_replica_threshold ≡ 10))
    ⊎ ((1752192000000 ≤ ms)
        × (e.id ≡ 6)
        × (e.low_replica_threshold ≡ 4)
        × (e.high_replica_threshold ≡ 8))

find-IsDated :
    (ms : ℕ) → (e : FilPlusEdition) × (find (covers ms) fil_plus_editions ≡ some e) × IsDated ms e
unfolding covers
find-IsDated ms = elim (Bool-cases (ltb ms 1709251200000)) [
  | inl h ↦ (edition_4, ground arith, inl (ground arith, refl, refl, refl))
  | inr h ↦ elim (Bool-cases (ltb ms 1752192000000)) [
    | inl k ↦ (edition_5, ground arith, inr (inl (ground arith, ground arith, refl, refl, refl)))
    | inr k ↦ (edition_6, ground arith, inr (inr (ground arith, refl, refl, refl)))
  ]
]

-- Every timestamp has an edition. A timestamp below 100000000000 is a time in seconds and any other one a
-- time in milliseconds; the edition is edition 4, with the replica thresholds 4 and 10, before 1 March
-- 2024, edition 5, with 4 and 10, from its first millisecond until 11 July 2025, and edition 6, with 4
-- and 8, from the first millisecond of that day.
pub get_fil_plus_edition_by_timestamp-IsDated :
    (timestamp : ℕ)
    → (ms : ℕ) × (((timestamp < 100000000000) × (ms ≡ timestamp * 1000))
        ⊎ ((100000000000 ≤ timestamp) × (ms ≡ timestamp)))
      × (e : FilPlusEdition) × (get_fil_plus_edition_by_timestamp timestamp ≡ some e)
      × IsDated ms e
unfolding get_fil_plus_edition_by_timestamp in_milliseconds
get_fil_plus_edition_by_timestamp-IsDated timestamp =
    let (e, found, dated) = find-IsDated (in_milliseconds timestamp) in
    (in_milliseconds timestamp, converted timestamp, e, found, dated)
  where
    converted :
        (t : ℕ)
        → ((t < 100000000000) × ((if ltb t 100000000000 then t * 1000 else t) ≡ t * 1000))
          ⊎ ((100000000000 ≤ t) × ((if ltb t 100000000000 then t * 1000 else t) ≡ t))
    converted t = elim (Bool-cases (ltb t 100000000000)) [
      | inl h ↦ inl (ground arith, rw h refl)
      | inr h ↦ inr (ground arith, rw h refl)
    ]

-- A time since 3 March 1973 has the same edition in seconds as in milliseconds.
pub get_fil_plus_edition_by_timestamp-seconds :
    (seconds : ℕ)
    → 100000000 ≤ seconds
    → seconds < 100000000000
    → get_fil_plus_edition_by_timestamp seconds ≡ get_fil_plus_edition_by_timestamp (seconds * 1000)
unfolding get_fil_plus_edition_by_timestamp in_milliseconds
get_fil_plus_edition_by_timestamp-seconds seconds h k =
    ap (λ t. find (covers t) fil_plus_editions) (same seconds h k)
  where
    same :
        (s : ℕ)
        → 100000000 ≤ s
        → s < 100000000000
        → (if ltb s 100000000000 then s * 1000 else s)
          ≡ (if ltb (s * 1000) 100000000000 then s * 1000 * 1000 else s * 1000)
    same s h k = ground arith
