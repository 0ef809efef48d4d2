-- ===== src/AllocatorScoring/Store.antt =====
-- `storeScoring` of src/service/allocator-scoring/allocator-scoring.service.ts.
use compliance_data_platform.Prelude.{Bool, Option, none, some, List, [], ◌∷◌, ◌++◌}
use compliance_data_platform.Numbers.{Double}
use compliance_data_platform.AllocatorScoring.Report.{
  DataType, AllocatorReport, Maths, Queries, ScoringResult,
}
use compliance_data_platform.AllocatorScoring.Results.{Score, store_score}
use compliance_data_platform.AllocatorScoring.Providers.{
  ipni_reporting_score, url_finder_retrievability_score, duplicated_data_score,
}
use compliance_data_platform.AllocatorScoring.Clients.{
  cid_sharing_score, unique_data_set_size_score, equality_of_datacap_distribution_score,
  client_diversity_score, client_previous_applications_score,
}

module _ (F : Double) (M : Maths F) (Q : Queries F) where
  -- The scores in their order, each computed when the one before is stored.
  abbrev pub scores : List (AllocatorReport F → Option (Score F))
  scores =
      ipni_reporting_score F
      ∷ url_finder_retrievability_score F M Q
      ∷ cid_sharing_score F M Q
      ∷ duplicated_data_score F
      ∷ unique_data_set_size_score F M Q
      ∷ equality_of_datacap_distribution_score F M Q
      ∷ client_diversity_score F M Q
      ∷ client_previous_applications_score F
      ∷ []

  -- The table of results: rows are only added. An exception ends the run, and leaves the rows so far.
  pub record Outcome : Type 0 where
    pub stored : List (ScoringResult F)
    pub thrown : Bool

  unfoldable pub run_scores :
      DataType
      → AllocatorReport F
      → List (AllocatorReport F → Option (Score F))
      → List (ScoringResult F)
      → Outcome
  run_scores data_type report [] rows = record { stored = rows; thrown = Bool.false }
  run_scores data_type report (s ∷ ss) rows = elim (s report) [
    | none ↦ record { stored = rows; thrown = Bool.true }
    | some score ↦ run_scores data_type report ss (rows ++ store_score F M Q data_type score)
  ]

  -- An allocator without a type of data is skipped.
  unfoldable pub store_scoring : Option DataType → AllocatorReport F → Outcome
  store_scoring none report = record { stored = []; thrown = Bool.false }
  store_scoring (some data_type) report = run_scores data_type report scores []
