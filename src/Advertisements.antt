-- ===== src/Advertisements.antt =====
-- src/jobs/ipni-advertisement-fetcher-job: the daily job that stores what the IPNI publishers
-- advertise, and the part of src/service/cid-contact that it calls.
pub mod CidContact
pub mod Job
pub mod Backfill
pub mod Keys
pub mod Repeats
use compliance_data_platform.Prelude.{
  ℕ, zero, suc, Bool, true, false, ◌&&◌, ◌||◌, Option, none, some, List, [], ◌∷◌, String, str_eq,
  any, map, if◌then◌else◌,
}

-- `PreviousID?.['/']` is none for a missing link.
pub record Advertisement : Type 0 where
  pub id : String
  pub previous_id : Option String
  pub publisher_id : String
  pub context_id : String
  pub entries : String
  pub is_rm : Bool

pub record Row : Type 0 where
  pub id : String
  pub previous_id : Option String
  pub publisher_id : String
  pub context_id : String
  pub entries_number : ℕ
  pub is_rm : Bool

pub record Provider : Type 0 where
  pub publisher_address : String
  pub last_advertisement : Option String

-- The methods of the CidContactService that the job awaits; `none` is a rejection. An advertisement
-- that is asked for without an id is `some none`.
pub record CidContactService : Type 0 where
  pub extract_multiaddr_and_build_publisher_base_url : String → Option String
  pub get_ipni_publisher_advertisement : String → Option String → Option (Option Advertisement)
  pub get_ipni_publisher_advertisement_entries_number : String → Advertisement → Option ℕ

-- `@id` and `@unique` of the table; a missing previous id is equal to none.
abbrev pub same_previous : Option String → Option String → Bool
same_previous (some a) (some b) = str_eq a b
same_previous a b = false

unfoldable pub is_taken : Row → List Row → Bool
is_taken r table = any (λ s. str_eq s.id r.id || same_previous s.previous_id r.previous_id) table

unfoldable pub row_of : Advertisement → ℕ → Row
row_of ad n = record {
  id = ad.id;
  previous_id = ad.previous_id;
  publisher_id = ad.publisher_id;
  context_id = ad.context_id;
  entries_number = n;
  is_rm = ad.is_rm;
}

-- How the process returns, or that it throws.
pub data Ending : Type 0 where
  already_stored chain_ends limit_reached failed : Ending

-- One turn of the loop, up to its test.
pub data Turn : Type 0 where
  returned : List Row → Ending → Turn
  current : List Row → Advertisement → Turn

-- `currentAd.PreviousID?.['/'] ? … : undefined`: an empty link is no link.
abbrev pub link : Option String → Option String
link none = none
link (some previous_id) = if str_eq previous_id "" then none else some previous_id

module _ (service : CidContactService) (base_url : String) where
  -- `currentAd = …`, then whether it is there.
  unfoldable pub previous_advertisement : Advertisement → List Row → Turn
  previous_advertisement ad table = elim (link ad.previous_id) [
    | none ↦ returned table chain_ends
    | some id ↦ elim (service.get_ipni_publisher_advertisement base_url (some id)) [
      | none ↦ returned table failed
      | some none ↦ returned table chain_ends
      | some (some previous) ↦ current table previous
    ]
  ]

  -- The `try` with `create`, whose P2002 is a taken key, then the step to the previous advertisement.
  unfoldable pub store_advertisement : Advertisement → List Row → Turn
  store_advertisement ad table =
      elim (service.get_ipni_publisher_advertisement_entries_number base_url ad) [
        | none ↦ returned table failed
        | some n ↦
            if is_taken (row_of ad n) table
            then returned table already_stored
            else previous_advertisement ad (row_of ad n ∷ table)
      ]

  -- `do { … } while (currentAd && adLimit-- > 0)`; the newest row is the first of the table.
  unfoldable pub run_advertisement_backfill_process :
      ℕ → Advertisement → List Row → List Row × Ending
  run_advertisement_backfill_process zero ad table = elim (store_advertisement ad table) [
    | returned t e ↦ (t, e)
    | current t previous ↦ (t, limit_reached)
  ]
  run_advertisement_backfill_process (suc limit) ad table = elim (store_advertisement ad table) [
    | returned t e ↦ (t, e)
    | current t previous ↦ run_advertisement_backfill_process limit previous t
  ]
