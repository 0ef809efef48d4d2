-- ===== src/Misreporting.antt =====
-- src/service/ipni-misreporting-checker/ipni-misreporting-checker.service.ts: what the storage providers
-- report to IPNI beside what they claim. The sums and the first row come from the database, the miner's
-- data from Lotus; `none` is a call that is rejected.
pub mod Totals
use compliance_data_platform.Prelude.{
  ℕ, zero, suc, ◌+◌, ◌*◌, Bool, true, false, Option, none, some, List, [], ◌∷◌, String, str_eq, ltb,
  ◌==◌, length, filter, map, ◌>>=◌, if◌then◌else◌,
}
use compliance_data_platform.Numbers.{Double, pos}
use compliance_data_platform.ClientReport.{IpniReportingStatus, misreporting, not_reporting, ok}

pub record ProviderIpniReportingStatus : Type 0 where
  pub status : IpniReportingStatus
  pub actual_claims_count : Option ℕ
  pub ipni_reported_claims_count : Option ℕ

pub record AggregatedStatus : Type 0 where
  pub misreporting : ℕ
  pub not_reporting : ℕ
  pub ok : ℕ
  pub total : ℕ

-- An answer may depend on the number of the request: the first one is made in parallel, the second
-- one is the retry. A sum over no rows is null.
pub record Answers : Type 0 where
  pub get_miner_peer_id : ℕ → String → Option (Option String)
  pub claims_count_sum : ℕ → String → Option (Option ℕ)
  pub has_advertisement : ℕ → String → Option Bool
  pub entries_number_sum : ℕ → String → Option (Option ℕ)

-- `count < actual * 0.5`, of numbers that are exact, so that the product is exact too; null counts as 0.
unfoldable pub status_of : Option ℕ → Option ℕ → IpniReportingStatus
status_of none actual = not_reporting
status_of (some zero) actual = not_reporting
status_of (some (suc n)) none = ok
status_of (some (suc n)) (some actual) = if ltb (suc n * 2) actual then misreporting else ok

abbrev pub same_status : IpniReportingStatus → IpniReportingStatus → Bool
same_status misreporting misreporting = true
same_status not_reporting not_reporting = true
same_status ok ok = true
same_status a b = false

-- `result.filter((x) => x.status === …).length`
unfoldable pub count_of : IpniReportingStatus → List ProviderIpniReportingStatus → ℕ
count_of s result =
    length (filter (λ (x : ProviderIpniReportingStatus). same_status x.status s) result)

module _ (F : Double) (answers : Answers) where
  -- `bigIntToNumber`, of a count that is kept as a natural number.
  unfoldable pub checked_number : Option ℕ → Option (Option ℕ)
  checked_number none = some none
  checked_number (some n) = if F.is_exact (pos n) then some (some n) else none

  unfoldable pub get_provider_actual_claims_count : ℕ → String → Option (Option ℕ)
  get_provider_actual_claims_count attempt id =
      answers.claims_count_sum attempt id >>= checked_number

  unfoldable pub get_provider_ipni_reported_claims_count_by_peer_id :
      ℕ → Option String → Option (Option ℕ)
  get_provider_ipni_reported_claims_count_by_peer_id attempt none = some none
  get_provider_ipni_reported_claims_count_by_peer_id attempt (some peer_id) =
      if str_eq peer_id "" then some none else (do
        found ← answers.has_advertisement attempt peer_id
        if found
            then (answers.entries_number_sum attempt peer_id >>= checked_number)
            else some none)

  -- `minerInfo ??= …`, of which the peer id is read.
  unfoldable pub get_provider_reporting_status :
      ℕ → String → (miner_info : Option (Option String)) → Option ProviderIpniReportingStatus
  get_provider_reporting_status attempt id miner_info = do
    peer_id ← elim miner_info [
      | none ↦ answers.get_miner_peer_id attempt id
      | some given ↦ some given
    ]
    actual ← get_provider_actual_claims_count attempt id
    reported ← get_provider_ipni_reported_claims_count_by_peer_id attempt peer_id
    some (record {
      status = status_of reported actual;
      actual_claims_count = actual;
      ipni_reported_claims_count = reported;
    })

  -- A provider's turn in the loop: what the parallel call gave, or else the retry.
  unfoldable pub status_or_retry : String → Option ProviderIpniReportingStatus
  status_or_retry id = elim (get_provider_reporting_status 0 id none) [
    | some status ↦ some status
    | none ↦ get_provider_reporting_status 1 id none
  ]

  unfoldable pub reporting_statuses : List String → Option (List ProviderIpniReportingStatus)
  reporting_statuses [] = some []
  reporting_statuses (id ∷ ids) = do
    status ← status_or_retry id
    statuses ← reporting_statuses ids
    some (status ∷ statuses)

  unfoldable pub get_aggregated_providers_reporting_status : List String → Option AggregatedStatus
  get_aggregated_providers_reporting_status storage_providers = do
    result ← reporting_statuses storage_providers
    some (record {
      misreporting = count_of misreporting result;
      not_reporting = count_of not_reporting result;
      ok = count_of ok result;
      total = length result;
    })
