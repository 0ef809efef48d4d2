-- ===== src/AllocatorScoring/Report.antt =====
-- The report that src/service/allocator-scoring/allocator-scoring.service.ts scores (prisma/schema.prisma),
-- its results, and what the service asks the database and the library of numbers.
use compliance_data_platform.Prelude.{ℕ, Bool, Option, List, String}
use compliance_data_platform.Numbers.{ℤ, Double}

pub data DataType : Type 0 where
  open_data enterprise : DataType

pub data ScoringMetric : Type 0 where
  ipni_reporting : ScoringMetric
  http_retrievability : ScoringMetric
  url_finder_retrievability : ScoringMetric
  cid_sharing : ScoringMetric
  duplicated_data : ScoringMetric
  unique_data_set_size : ScoringMetric
  equality_of_datacap_distribution : ScoringMetric
  client_diversity : ScoringMetric
  client_previous_applications : ScoringMetric

-- A client of the report, with the deal sizes of its CID sharing; times are in milliseconds.
pub record ReportClient : Type 0 where
  pub allocations_number : ℕ
  pub total_allocations : ℕ
  pub expected_size_of_single_dataset : Option ℕ
  pub total_uniq_data_set_size : Option ℕ
  pub last_datacap_spent : Option ℕ
  pub cid_sharing : List ℕ

-- A row of `allocator_report_storage_provider_distribution`; `is_ipni_ok` when its reporting status is OK.
pub record ProviderShare : Type 0 where
  pub total_deal_size : ℕ
  pub unique_data_size : ℕ
  pub is_ipni_ok : Bool

module _ (F : Double) where
  -- Further operations on JavaScript numbers: `-`, `** 2`, `Math.sqrt`, `exp`, `max` and `round`, `===`,
  -- `Number.isFinite`, `toFixed`, and the reading of a text by `stringToNumber`.
  pub record Maths : Type 0 where
    pub sub : F.carrier → F.carrier → F.carrier
    pub square : F.carrier → F.carrier
    pub sqrt : F.carrier → F.carrier
    pub exp : F.carrier → F.carrier
    pub max : F.carrier → F.carrier → F.carrier
    pub round : F.carrier → F.carrier
    pub eq : F.carrier → F.carrier → Bool
    pub is_finite : F.carrier → Bool
    pub to_fixed : ℕ → F.carrier → String
    pub read : String → Option F.carrier

  pub record AllocatorReport : Type 0 where
    pub clients : List ReportClient
    pub clients_number : ℕ
    pub storage_provider_distribution : List ProviderShare
    pub avg_retrievability_success_rate_url_finder : Option F.carrier

  -- What the service asks for: the current time, the raw queries, and the months since the first audit
  -- of the allocator.
  pub record Queries : Type 0 where
    pub now : ℕ
    pub metric_average : ScoringMetric → Option F.carrier
    pub metric_max : ScoringMetric → Option F.carrier
    pub success_rates : List F.carrier
    pub months_of_operation : Option F.carrier

  pub record ScoreRange : Type 0 where
    pub metric_value_min : Option F.carrier
    pub metric_value_max : Option F.carrier
    pub score : ℕ

  -- A value of the metadata, as it is printed: a size, a text, or a number, with a percent sign or
  -- fixed to two places.
  pub data Shown : Type 0 where
    null : Shown
    filesize : ℤ → Shown
    text : String → Shown
    count : ℕ → Shown
    percent : F.carrier → Shown
    fixed : F.carrier → Shown
    fixed_percent : F.carrier → Shown

  -- A row of `allocator_report_scoring_result` with its ranges.
  pub record ScoringResult : Type 0 where
    pub metric : ScoringMetric
    pub metric_value : F.carrier
    pub metric_average : Option F.carrier
    pub metric_value_min : F.carrier
    pub metric_value_max : F.carrier
    pub metric_name : String
    pub metric_description : String
    pub metric_unit : Option String
    pub score : ℕ
    pub ranges : List ScoreRange
    pub metadata : List (String × Shown)
