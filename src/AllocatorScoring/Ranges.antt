-- ===== src/AllocatorScoring/Ranges.antt =====
-- The scores that are stored against the ranges that are stored with them, of
-- src/service/allocator-scoring/allocator-scoring.service.ts.
use compliance_data_platform.Prelude.{
  ℕ, ◌≡◌, Bool, true, false, ◌&&◌, Option, none, some, List, any, ◌==◌, All, arith,
}
use compliance_data_platform.Numbers.{Double, of_ℕ, hundredths, pos}
use compliance_data_platform.AllocatorScoring.Report.{Maths, ScoreRange}
use compliance_data_platform.AllocatorScoring.Bands.{
  tenths, ipni_score, ipni_ranges, duplicated_score, duplicated_ranges, retrievability_score,
  retrievability_ranges, unique_score, unique_ranges, equality_score, equality_ranges,
  diversity_score, diversity_ranges, returning_score, returning_ranges, cid_sharing_points,
  cid_sharing_ranges,
}

-- What the comparisons of finite numbers do.
pub record IsOrdered (F : Double) (M : Maths F) : Type 0 where
  pub lt_le : (a b : F.carrier) → F.lt a b ≡ true → F.le a b ≡ true
  pub not_lt :
      (a b : F.carrier)
      → M.is_finite a ≡ true
      → M.is_finite b ≡ true
      → F.lt a b ≡ false
      → F.le b a ≡ true
  pub not_le :
      (a b : F.carrier)
      → M.is_finite a ≡ true
      → M.is_finite b ≡ true
      → F.le a b ≡ false
      → F.lt b a ≡ true
  pub eq_le : (a b : F.carrier) → M.eq a b ≡ true → F.le a b ≡ true
  pub le_lt : (a b : F.carrier) → F.le b a ≡ true → M.eq a b ≡ false → F.lt b a ≡ true

module _ (F : Double) where
  abbrev pub is_at_least : Option F.carrier → F.carrier → Bool
  is_at_least none v = true
  is_at_least (some least) v = F.le least v

  abbrev pub is_at_most : Option F.carrier → F.carrier → Bool
  is_at_most none v = true
  is_at_most (some most) v = F.le v most

  abbrev pub is_within : ScoreRange F → F.carrier → Bool
  is_within r v = is_at_least r.metric_value_min v && is_at_most r.metric_value_max v

  -- One of the ranges has the value, and its score is the score.
  abbrev pub agrees : List (ScoreRange F) → F.carrier → ℕ → Bool
  agrees ranges v score = any (λ r. is_within r v && (r.score == score)) ranges

  module _ (M : Maths F) where
    abbrev pub is_finite_end : Option F.carrier → Bool
    is_finite_end none = true
    is_finite_end (some x) = M.is_finite x

    abbrev pub HasFiniteEnds : List (ScoreRange F) → Type 0
    HasFiniteEnds ranges =
        All
          (λ r.
            (is_finite_end r.metric_value_min ≡ true) × (is_finite_end r.metric_value_max ≡ true))
          ranges

  module _ (M : Maths F) (ordered : IsOrdered F M) where
    module _ (v : F.carrier) (finite : M.is_finite v ≡ true) where
      -- A value that is not above, or not below, an end.
      not_above : (a : F.carrier) → M.is_finite a ≡ true → F.lt a v ≡ false → F.le v a ≡ true
      not_above a f h = ordered.not_lt a v f finite h

      not_from : (a : F.carrier) → M.is_finite a ≡ true → F.le a v ≡ false → F.lt v a ≡ true
      not_from a f h = ordered.not_le a v f finite h

      not_below : (a : F.carrier) → M.is_finite a ≡ true → F.lt v a ≡ false → F.le a v ≡ true
      not_below a f h = ordered.not_lt v a finite f h

      not_up_to : (a : F.carrier) → M.is_finite a ≡ true → F.le v a ≡ false → F.lt a v ≡ true
      not_up_to a f h = ordered.not_le v a finite f h

      pub ipni-agrees :
          HasFiniteEnds M (ipni_ranges F)
          → F.le (of_ℕ F 0) v ≡ true
          → F.le v (of_ℕ F 100) ≡ true
          → agrees (ipni_ranges F) v (ipni_score F v) ≡ true
      ipni-agrees ((_, f50), ((_, f55), _)) least most = ground (
        arith,
        ordered.lt_le (of_ℕ F 55) v,
        not_above (of_ℕ F 55) f55,
        not_from (of_ℕ F 50) f50,
        ordered.lt_le v (of_ℕ F 50),
      )

      pub duplicated-agrees :
          HasFiniteEnds M (duplicated_ranges F)
          → F.le (of_ℕ F 0) v ≡ true
          → F.le v (of_ℕ F 100) ≡ true
          → agrees (duplicated_ranges F) v (duplicated_score F v) ≡ true
      duplicated-agrees ((_, f25), ((_, f5), _)) least most = ground (
        arith,
        not_up_to (hundredths F (pos 25)) f25,
        not_up_to (of_ℕ F 5) f5,
        ordered.lt_le (hundredths F (pos 25)) v,
        ordered.lt_le (of_ℕ F 5) v,
      )

      pub retrievability-agrees :
          (p25 p50 : F.carrier)
          → HasFiniteEnds M (retrievability_ranges F p25 p50)
          → F.le (of_ℕ F 0) v ≡ true
          → F.le v (of_ℕ F 100) ≡ true
          → agrees (retrievability_ranges F p25 p50) v (retrievability_score F p25 p50 v) ≡ true
      retrievability-agrees p25 p50 ((_, f25), ((_, f50), _)) least most =
          ground
            (arith, not_above p50 f50, not_above p25 f25, ordered.lt_le p25 v, ordered.lt_le p50 v)

      pub unique-agrees :
          HasFiniteEnds M (unique_ranges F)
          → F.le (of_ℕ F 0) v ≡ true
          → agrees (unique_ranges F) v (unique_score F v) ≡ true
      unique-agrees ((_, f100), ((_, f120), _)) least = ground (
        arith,
        not_below (of_ℕ F 100) f100,
        not_up_to (of_ℕ F 120) f120,
        ordered.lt_le v (of_ℕ F 100),
        ordered.lt_le (of_ℕ F 120) v,
      )

      pub equality-agrees :
          HasFiniteEnds M (equality_ranges F)
          → F.le (of_ℕ F 0) v ≡ true
          → agrees (equality_ranges F) v (equality_score F v) ≡ true
      equality-agrees ((f9, f11), ((f7, _), ((_, f13), ((f5, _), ((_, f15), _))))) least = ground (
        arith,
        not_from (tenths F 5) f5,
        not_below (tenths F 7) f7,
        not_below (tenths F 9) f9,
        not_up_to (tenths F 11) f11,
        not_up_to (tenths F 13) f13,
        not_up_to (tenths F 15) f15,
        ordered.lt_le v (tenths F 5),
        ordered.lt_le v (tenths F 7),
        ordered.lt_le v (tenths F 9),
        ordered.lt_le (tenths F 11) v,
        ordered.lt_le (tenths F 13) v,
        ordered.lt_le (tenths F 15) v,
      )

      pub diversity-agrees :
          HasFiniteEnds M (diversity_ranges F)
          → F.le (of_ℕ F 0) v ≡ true
          → agrees (diversity_ranges F) v (diversity_score F v) ≡ true
      diversity-agrees ((f6, _), ((f4, _), _)) least = ground (
        arith,
        ordered.lt_le (tenths F 6) v,
        not_above (tenths F 6) f6,
        not_from (tenths F 4) f4,
        ordered.lt_le v (tenths F 4),
      )

      pub returning-agrees :
          HasFiniteEnds M (returning_ranges F)
          → F.le (of_ℕ F 0) v ≡ true
          → F.le v (of_ℕ F 100) ≡ true
          → agrees (returning_ranges F) v (returning_score F v) ≡ true
      returning-agrees ((f75, _), ((f60, _), _)) least most = ground (
        arith,
        ordered.lt_le (of_ℕ F 75) v,
        not_above (of_ℕ F 75) f75,
        not_from (of_ℕ F 60) f60,
        ordered.lt_le v (of_ℕ F 60),
      )

      pub cid_sharing-agrees :
          HasFiniteEnds M (cid_sharing_ranges F)
          → F.le (of_ℕ F 0) v ≡ true
          → F.le v (of_ℕ F 100) ≡ true
          → agrees (cid_sharing_ranges F) v (cid_sharing_points F M v) ≡ true
      cid_sharing-agrees (_, ((_, f2), _)) least most = ground (
        arith,
        ordered.eq_le v (of_ℕ F 0),
        ordered.le_lt v (of_ℕ F 0),
        not_up_to (of_ℕ F 2) f2,
        ordered.lt_le (of_ℕ F 2) v,
      )
