-- ===== src/Advertisements/Job.antt =====
-- The job itself: the providers one after the other, the flags and the health.
use compliance_data_platform.Prelude.{
  Bool, true, false, Option, none, some, List, [], ◌∷◌, if◌then◌else◌,
}
use compliance_data_platform.Advertisements.{
  Row, Provider, CidContactService, Ending, failed, run_advertisement_backfill_process,
}

module _ (service : CidContactService) where
  -- A missing last advertisement is read as `currentAd.ID` of null, a TypeError.
  unfoldable pub fetch_and_store_advertisements_by_provider :
      Provider → List Row → List Row × Ending
  fetch_and_store_advertisements_by_provider p table =
      elim (service.extract_multiaddr_and_build_publisher_base_url p.publisher_address) [
        | none ↦ (table, failed)
        | some base_url ↦
            elim (service.get_ipni_publisher_advertisement base_url p.last_advertisement) [
              | none ↦ (table, failed)
              | some none ↦ (table, failed)
              | some (some last_ad) ↦
                  run_advertisement_backfill_process service base_url 10 last_ad table
            ]
      ]

  -- The loop over the providers: whatever a provider's process throws is only logged.
  unfoldable pub run_providers : List Provider → List Row → List Row
  run_providers [] table = table
  run_providers (p ∷ ps) table =
      run_providers ps (fetch_and_store_advertisements_by_provider p table).0

pub record JobService : Type 0 where
  pub healthy : Bool
  pub job_in_progress : Bool

-- The job's start, up to the first `await`; the result says whether it goes on.
unfoldable pub start_fetcher_job : JobService → JobService × Bool
start_fetcher_job s =
    if s.job_in_progress
    then (s, false)
    else (record { healthy = true; job_in_progress = true }, true)

-- From the answer to `getIPNIProviders` on; `none` is its rejection, the only one that is caught here.
unfoldable pub finish_fetcher_job :
    CidContactService → Option (List Provider) → JobService → List Row → JobService × List Row
finish_fetcher_job service none s table =
    (record { healthy = false; job_in_progress = false }, table)
finish_fetcher_job service (some providers) s table =
    (record s { job_in_progress = false }, run_providers service providers table)
