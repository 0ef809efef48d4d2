-- ===== src/AllocatorScoring/Results.antt =====
-- `storeScore` of src/service/allocator-scoring/allocator-scoring.service.ts.
use compliance_data_platform.Prelude.{
  ℕ, ◌*◌, Option, none, some, List, [], ◌∷◌, ◌++◌, map, ◌==◌, if◌then◌else◌, String,
}
use compliance_data_platform.Numbers.{Double, of_ℕ}
use compliance_data_platform.AllocatorScoring.Report.{
  DataType, open_data, enterprise, ScoringMetric, Maths, Queries, ScoreRange, ScoringResult, Shown,
  count, text,
}
use compliance_data_platform.AllocatorScoring.Statistics.{given_or_zero}

module _ (F : Double) where
  -- What each of the metrics passes to `storeScore`.
  pub record Score : Type 0 where
    pub metric : ScoringMetric
    pub metric_value : F.carrier
    pub metric_value_max : Option F.carrier
    pub score : ℕ
    pub open_data_score_weight : ℕ
    pub enterprise_score_weight : ℕ
    pub metric_name : String
    pub metric_description : String
    pub metric_unit : Option String
    pub metric_average : Option F.carrier
    pub score_ranges : List (ScoreRange F)
    pub metadata : List (String × Shown F)

  abbrev pub score_weight : Score → DataType → ℕ
  score_weight s open_data = s.open_data_score_weight
  score_weight s enterprise = s.enterprise_score_weight

  abbrev pub type_of_allocator : DataType → String
  type_of_allocator open_data = "Open data"
  type_of_allocator enterprise = "Enterprise"

  abbrev pub scale_range : ℕ → ScoreRange F → ScoreRange F
  scale_range weight r = record r { score = r.score * weight }

  abbrev pub given_or : {A : Type 0} → Option A → Option A → Option A
  given_or none other = other
  given_or (some a) other = some a

  module _ (M : Maths F) (Q : Queries F) where
    abbrev pub value_max : Score → F.carrier
    value_max s = elim s.metric_value_max [
      | some most ↦ most
      | none ↦ M.max (given_or_zero F (Q.metric_max s.metric)) s.metric_value
    ]

    -- The row that is created; the smallest value of every metric is 0.
    abbrev pub result_row : DataType → Score → ScoringResult F
    result_row data_type s = record {
      metric = s.metric;
      metric_value = s.metric_value;
      metric_average = given_or s.metric_average (Q.metric_average s.metric);
      metric_value_min = of_ℕ F 0;
      metric_value_max = value_max s;
      metric_name = s.metric_name;
      metric_description = s.metric_description;
      metric_unit = s.metric_unit;
      score = s.score * score_weight s data_type;
      ranges = map (scale_range (score_weight s data_type)) s.score_ranges;
      metadata =
          s.metadata
          ++ (("Open data score weight", count s.open_data_score_weight)
              ∷ ("Enterprise score weight", count s.enterprise_score_weight)
              ∷ ("Type of allocator", text (type_of_allocator data_type))
              ∷ []);
    }

    -- The rows that are created: none if the metric has no weight for the type.
    unfoldable pub store_score : DataType → Score → List (ScoringResult F)
    store_score data_type s =
        if score_weight s data_type == 0 then [] else result_row data_type s ∷ []
