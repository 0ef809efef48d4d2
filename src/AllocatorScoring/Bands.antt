-- ===== src/AllocatorScoring/Bands.antt =====
-- The scores of the metrics by their values, and the ranges that are stored with them, of
-- src/service/allocator-scoring/allocator-scoring.service.ts.
use compliance_data_platform.Prelude.{ℕ, ◌&&◌, ◌||◌, some, none, List, [], ◌∷◌, if◌then◌else◌}
use compliance_data_platform.Numbers.{pos, Double, of_ℕ, hundredths}
use compliance_data_platform.AllocatorScoring.Report.{Maths, ScoreRange}

module _ (F : Double) where
  abbrev pub range : F.carrier → F.carrier → ℕ → ScoreRange F
  range least most score = record {
    metric_value_min = some least;
    metric_value_max = some most;
    score = score;
  }

  -- A range without a largest value.
  abbrev pub range_from : F.carrier → ℕ → ScoreRange F
  range_from least score = record {
    metric_value_min = some least;
    metric_value_max = none;
    score = score;
  }

  abbrev pub tenths : ℕ → F.carrier
  tenths n = F.div (of_ℕ F n) (of_ℕ F 10)

  abbrev pub ipni_score : F.carrier → ℕ
  ipni_score v = if F.lt (of_ℕ F 55) v then 3 else if F.le (of_ℕ F 50) v then 1 else 0

  abbrev pub ipni_ranges : List (ScoreRange F)
  ipni_ranges =
      range (of_ℕ F 0) (of_ℕ F 50) 0
      ∷ range (of_ℕ F 50) (of_ℕ F 55) 1
      ∷ range (of_ℕ F 55) (of_ℕ F 100) 3
      ∷ []

  abbrev pub duplicated_score : F.carrier → ℕ
  duplicated_score v =
      if F.le v (hundredths F (pos 25)) then 2 else if F.le v (of_ℕ F 5) then 1 else 0

  abbrev pub duplicated_ranges : List (ScoreRange F)
  duplicated_ranges =
      range (of_ℕ F 0) (hundredths F (pos 25)) 2
      ∷ range (hundredths F (pos 25)) (of_ℕ F 5) 1
      ∷ range (of_ℕ F 5) (of_ℕ F 100) 0
      ∷ []

  abbrev pub retrievability_score : (p25 p50 v : F.carrier) → ℕ
  retrievability_score p25 p50 v = if F.lt p50 v then 3 else if F.lt p25 v then 1 else 0

  abbrev pub retrievability_ranges : (p25 p50 : F.carrier) → List (ScoreRange F)
  retrievability_ranges p25 p50 =
      range (of_ℕ F 0) p25 0 ∷ range p25 p50 1 ∷ range p50 (of_ℕ F 100) 3 ∷ []

  abbrev pub unique_score : F.carrier → ℕ
  unique_score v = if F.lt v (of_ℕ F 100) then 1 else if F.le v (of_ℕ F 120) then 2 else 0

  abbrev pub unique_ranges : List (ScoreRange F)
  unique_ranges =
      range (of_ℕ F 0) (of_ℕ F 100) 1
      ∷ range (of_ℕ F 100) (of_ℕ F 120) 2
      ∷ range_from (of_ℕ F 120) 0
      ∷ []

  abbrev pub equality_score : F.carrier → ℕ
  equality_score v =
      if F.le (tenths 9) v && F.le v (tenths 11)
      then 3
      else if (F.le (tenths 7) v && F.lt v (tenths 9)) || (F.lt (tenths 11) v && F.le v (tenths 13))
      then 2
      else if (F.le (tenths 5) v && F.lt v (tenths 7)) || (F.lt (tenths 13) v && F.le v (tenths 15))
      then 1
      else 0

  abbrev pub equality_ranges : List (ScoreRange F)
  equality_ranges =
      range (tenths 9) (tenths 11) 3
      ∷ range (tenths 7) (tenths 9) 2
      ∷ range (tenths 11) (tenths 13) 2
      ∷ range (tenths 5) (tenths 7) 1
      ∷ range (tenths 13) (tenths 15) 1
      ∷ range (of_ℕ F 0) (tenths 5) 0
      ∷ range_from (tenths 15) 0
      ∷ []

  abbrev pub diversity_score : F.carrier → ℕ
  diversity_score v = if F.lt (tenths 6) v then 2 else if F.le (tenths 4) v then 1 else 0

  abbrev pub diversity_ranges : List (ScoreRange F)
  diversity_ranges =
      range_from (tenths 6) 2 ∷ range (tenths 4) (tenths 6) 1 ∷ range (of_ℕ F 0) (tenths 4) 0 ∷ []

  abbrev pub returning_score : F.carrier → ℕ
  returning_score v = if F.lt (of_ℕ F 75) v then 2 else if F.le (of_ℕ F 60) v then 1 else 0

  abbrev pub returning_ranges : List (ScoreRange F)
  returning_ranges =
      range (of_ℕ F 75) (of_ℕ F 100) 2
      ∷ range (of_ℕ F 60) (of_ℕ F 75) 1
      ∷ range (of_ℕ F 0) (of_ℕ F 60) 0
      ∷ []

  abbrev pub cid_sharing_ranges : List (ScoreRange F)
  cid_sharing_ranges =
      range (of_ℕ F 0) (of_ℕ F 0) 2
      ∷ range (of_ℕ F 0) (of_ℕ F 2) 1
      ∷ range (of_ℕ F 2) (of_ℕ F 100) 0
      ∷ []

  module _ (M : Maths F) where
    abbrev pub cid_sharing_points : F.carrier → ℕ
    cid_sharing_points v =
        if M.eq v (of_ℕ F 0) then 2 else if F.lt (of_ℕ F 0) v && F.le v (of_ℕ F 2) then 1 else 0
