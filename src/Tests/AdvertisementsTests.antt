-- ===== src/Tests/AdvertisementsTests.antt =====
-- A publisher whose advertisements 13, 12, … lead back to 1, beside one that does not answer.
use compliance_data_platform.Prelude.{
  ◌≡◌, refl, true, false, Option, none, some, List, [], ◌∷◌, String, str_eq, length, All,
  if◌then◌else◌,
}
use compliance_data_platform.Advertisements.{
  Row, store_advertisement, previous_advertisement, is_taken, Advertisement, Provider,
  CidContactService, row_of, run_advertisement_backfill_process,
}
use compliance_data_platform.Advertisements.CidContact.{
  EntriesPage, Pages, last, further, endpoint_of,
}
use compliance_data_platform.Advertisements.Job.{
  run_providers, fetch_and_store_advertisements_by_provider, start_fetcher_job, finish_fetcher_job,
}
use compliance_data_platform.Advertisements.Backfill.{
  put_all, ProcessStores, run_advertisement_backfill_process-Stores,
}
use compliance_data_platform.Advertisements.Keys.{IsAdvertised, AreUnique, run_providers-adds}
use compliance_data_platform.Advertisements.Repeats.{run_providers-again}

-- The number of an id, and the id before it.
abbrev ids : List (String × String)
ids =
    ("m", "l")
    ∷ ("l", "k")
    ∷ ("k", "j")
    ∷ ("j", "i")
    ∷ ("i", "h")
    ∷ ("h", "g")
    ∷ ("g", "f")
    ∷ ("f", "e")
    ∷ ("e", "d")
    ∷ ("d", "c")
    ∷ ("c", "b")
    ∷ ("b", "a")
    ∷ ("a", "")
    ∷ []

abbrev lookup : String → List (String × String) → Option (Option Advertisement)
lookup id [] = none
lookup id ((a, b) ∷ rest) =
    if str_eq id a
    then some (
        some (record {
          id = a;
          previous_id = some b;
          publisher_id = "peer";
          context_id = "context";
          entries = a;
          is_rm = false;
        }))
    else lookup id rest

abbrev service : CidContactService
service = record {
  extract_multiaddr_and_build_publisher_base_url =
      λ address. if str_eq address "" then none else some address;
  get_ipni_publisher_advertisement = λ _ id. elim id [ none ↦ some none | some a ↦ lookup a ids ];
  get_ipni_publisher_advertisement_entries_number =
      λ _ ad. if str_eq ad.id "b" then none else some 3;
}

abbrev publisher : Provider
publisher = record { publisher_address = "http://a"; last_advertisement = some "m" }

abbrev broken : Provider
broken = record { publisher_address = ""; last_advertisement = some "m" }

abbrev newest_ad : Advertisement
newest_ad = record {
  id = "m";
  previous_id = some "l";
  publisher_id = "peer";
  context_id = "context";
  entries = "m";
  is_rm = false;
}

-- "max 10 newest_ad ads": there are eleven.
eleven_newest : length (run_providers service (broken ∷ publisher ∷ []) []) ≡ 11
unfolding run_providers fetch_and_store_advertisements_by_provider
    run_advertisement_backfill_process store_advertisement previous_advertisement row_of is_taken
eleven_newest = refl

start_twice :
    (start_fetcher_job
      (start_fetcher_job (record { healthy = false; job_in_progress = false })).0).1
    ≡ false
unfolding start_fetcher_job
start_twice = refl

unhealthy :
    (finish_fetcher_job service none
      (record { healthy = true; job_in_progress = true })
      []).0.healthy
    ≡ false
unfolding finish_fetcher_job
unhealthy = refl

run_advertisement_backfill_process-Stores_example :
    ProcessStores service "http://a" 10 newest_ad []
      (run_advertisement_backfill_process service "http://a" 10 newest_ad [])
run_advertisement_backfill_process-Stores_example =
    run_advertisement_backfill_process-Stores service "http://a" 10 newest_ad []

run_providers-adds_example :
    (rows : List Row) × (run_providers service (broken ∷ publisher ∷ []) [] ≡ put_all rows [])
    × All (IsAdvertised service (broken ∷ publisher ∷ [])) rows
    × AreUnique (run_providers service (broken ∷ publisher ∷ []) [])
run_providers-adds_example = run_providers-adds service (broken ∷ publisher ∷ []) [] tt

run_providers-again_example :
    run_providers service
      (broken ∷ publisher ∷ [])
      (run_providers service (broken ∷ publisher ∷ []) [])
    ≡ run_providers service (broken ∷ publisher ∷ []) []
run_providers-again_example = run_providers-again service (broken ∷ publisher ∷ []) []

abbrev first_page : EntriesPage
first_page = record { entries = 5; next = some "p" }

abbrev second_page : EntriesPage
second_page = record { entries = 2; next = none }

abbrev get_entries : String → Option EntriesPage
get_entries endpoint =
    if str_eq endpoint (endpoint_of "http://a" "m")
    then some first_page
    else if str_eq endpoint (endpoint_of "http://a" "p")
    then some second_page
    else none

newest_ad-Pages :
    Pages get_entries "http://a" (endpoint_of "http://a" "m") (first_page ∷ second_page ∷ [])
unfolding endpoint_of
newest_ad-Pages = further _ _ "p" _ refl refl (last _ _ refl refl)
