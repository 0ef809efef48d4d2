-- ===== src/ClientChecks.antt =====
-- src/service/client-report-checks/client-report-checks.service.ts: the checks of a client report.
-- A check reads the tables and gives the rows that it creates, or `none` where it throws; a test
-- `envNotSet` is a limit `none`. A check whose limit is not set creates nothing.
pub mod Providers
pub mod Retrievability
pub mod Declared
pub mod Replicas
pub mod Client
pub mod Store
pub mod Shapes
pub mod Coverage
pub mod DealShares
pub mod Locations
use compliance_data_platform.Prelude.{
  ℕ, Bool, true, false, Option, none, some, List, [], ◌∷◌, ◌==◌, String, ◌>>=◌, if◌then◌else◌, ◌++◌,
  filter, find, any, str_eq, not,
}
use compliance_data_platform.Numbers.{Double}
use compliance_data_platform.ClientReport.{
  Piece, lit, shown, Value, null, count, number, text, ids, ClientReport, ProviderDistribution,
  ReplicaDistribution, CidSharing, CheckResult, Db, ClientReportCheck,
}

-- A limit that is unset or blank in the environment is `none`.
pub record Limits (F : Double) : Type 0 where
  pub max_provider_deal_percentage : Option F.carrier
  pub max_duplication_percentage : Option F.carrier
  pub max_percentage_for_low_replica : Option F.carrier
  pub max_percentage_for_high_replica : Option F.carrier
  pub max_percentage_for_required_copies : Option F.carrier
  pub max_percentage_not_declared_providers : Option F.carrier
  pub total_uniq_data_set_size_allow_exceeds_percentage : Option F.carrier

-- `array.includes(value)`
unfoldable pub includes : List String → String → Bool
includes l s = any (λ t. str_eq t s) l

-- `filter` with a test that may throw.
unfoldable pub filter_option {ℓ} : {A : Type ℓ} → (A → Option Bool) → List A → Option (List A)
filter_option p [] = some []
filter_option p (x ∷ xs) = do
  keep ← p x
  rest ← filter_option p xs
  some (if keep then x ∷ rest else rest)

module _ (F : Double) where
  -- A check: the rows that it creates, or `none` where it throws.
  abbrev pub Check : Type 0
  Check = ℕ → Db F → Option (List (CheckResult F))

  -- `findFirst({ where: { id: reportId } })`; the callers read its fields and throw on null.
  unfoldable pub find_report : ℕ → Db F → Option (ClientReport F)
  find_report report_id db = find (λ r. r.id == report_id) db.client_report

  -- `findMany({ where: { client_report_id: reportId } })`
  unfoldable pub provider_distribution_of : ℕ → Db F → List (ProviderDistribution F)
  provider_distribution_of report_id db =
      filter (λ p. p.client_report_id == report_id) db.provider_distribution

  unfoldable pub replica_distribution_of : ℕ → Db F → List (ReplicaDistribution F)
  replica_distribution_of report_id db =
      filter (λ d. d.client_report_id == report_id) db.replica_distribution

  abbrev pub row : ℕ → ClientReportCheck → Bool → List (String × Value F) → List (CheckResult F)
  row report_id check result metadata =
      record { client_report_id = report_id; check = check; result = result; metadata = metadata }
      ∷ []

  abbrev pub message : String → Value F
  message s = text (lit s ∷ [])

  -- `_storageProviders`
  unfoldable pub storage_providers : ℕ → List (Piece F)
  storage_providers n =
      if n == 0
      then lit "No storage providers" ∷ []
      else if n == 1
      then lit "1 storage provider" ∷ []
      else shown n ∷ lit " storage providers" ∷ []

  -- `_storageProvidersAre`
  unfoldable pub storage_providers_are : ℕ → List (Piece F)
  storage_providers_are n =
      storage_providers n ++ lit " " ∷ lit (if n == 1 then "is" else "are") ∷ []
