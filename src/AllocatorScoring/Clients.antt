-- ===== src/AllocatorScoring/Clients.antt =====
-- The scores of an allocator's clients, of src/service/allocator-scoring/allocator-scoring.service.ts.
use compliance_data_platform.Prelude.{
  ℕ, Option, none, some, List, [], ◌∷◌, filter, ltb, ◌==◌, ◌>>=◌, if◌then◌else◌, length,
}
use compliance_data_platform.Numbers.{ℤ, pos, Double, of_ℕ}
use compliance_data_platform.Numbers.Signed.{◌+ℤ◌, ◌*ℤ◌}
use compliance_data_platform.AllocatorScoring.Report.{
  ReportClient, AllocatorReport, Maths, Queries, Shown, null, filesize, text, count, fixed,
  fixed_percent, cid_sharing, unique_data_set_size, equality_of_datacap_distribution,
  client_diversity, client_previous_applications,
}
use compliance_data_platform.AllocatorScoring.Statistics.{
  ratio_or_zero, big_int_mul, compute_client_weight, standard_deviation, given_or_zero,
}
use compliance_data_platform.AllocatorScoring.Results.{Score}
use compliance_data_platform.AllocatorScoring.Bands.{
  unique_score, unique_ranges, equality_score, equality_ranges, diversity_score, diversity_ranges,
  returning_score, returning_ranges, cid_sharing_points, cid_sharing_ranges,
}

-- `value ?? 0n`
abbrev pub size_or_zero : Option ℕ → ℕ
size_or_zero none = 0
size_or_zero (some n) = n

abbrev pub big_int_sum : List ℤ → ℤ
big_int_sum [] = pos 0
big_int_sum (x ∷ xs) = x +ℤ big_int_sum xs

-- The results of a list, unless one of them is an error.
unfoldable pub collect : {A B : Type 0} → (A → Option B) → List A → Option (List B)
collect f [] = some []
collect f (x ∷ xs) = do y ← f x; ys ← collect f xs; some (y ∷ ys)

module _ (F : Double) where
  -- `totalClients ? (returningClients / totalClients) * 100 : 0`
  abbrev pub returning_percentage : (returning_clients total_clients : ℕ) → F.carrier
  returning_percentage returning_clients total_clients =
      if total_clients == 0
      then of_ℕ F 0
      else F.mul (F.div (of_ℕ F returning_clients) (of_ℕ F total_clients)) (of_ℕ F 100)

  unfoldable pub client_previous_applications_score : AllocatorReport F → Option (Score F)
  client_previous_applications_score report = do
    let returning_clients = length (filter (λ c. ltb 1 c.allocations_number) report.clients)
    let total_clients = length report.clients
    let percentage = returning_percentage returning_clients total_clients
    some (record {
      metric = client_previous_applications;
      metric_value = percentage;
      metric_value_max = some (of_ℕ F 100);
      score = returning_score F percentage;
      open_data_score_weight = 1;
      enterprise_score_weight = 1;
      metric_name = "Client previous applications";
      metric_description = "Measures number of clients that are returning customers";
      metric_unit = some "%";
      metric_average = none;
      score_ranges = returning_ranges F;
      metadata =
          ("Number of returning clients", count returning_clients)
          ∷ ("Total number of clients", count total_clients)
          ∷ ("Percentage of returning clients", fixed_percent percentage)
          ∷ ("Percentage of returning clients > 75", text "2 points")
          ∷ ("Percentage of returning clients >= 60", text "1 point")
          ∷ ("Percentage of returning clients < 60", text "0 points")
          ∷ [];
    })

  module _ (M : Maths F) (Q : Queries F) where
    -- `bigIntMul(size, this.computeClientWeight(client.last_datacap_spent))`
    unfoldable pub weighted : ReportClient → ℕ → Option ℤ
    weighted c size = big_int_mul F M size (compute_client_weight F M Q.now c.last_datacap_spent)

    unfoldable pub shared_by : ReportClient → Option ℤ
    shared_by c = do sizes ← collect (weighted c) c.cid_sharing; some (big_int_sum sizes)

    unfoldable pub cid_sharing_score : AllocatorReport F → Option (Score F)
    cid_sharing_score report = do
      allocations ← collect (λ c. weighted c c.total_allocations) report.clients
      shared ← collect shared_by report.clients
      percentage ← ratio_or_zero F (big_int_sum shared *ℤ pos 100) (big_int_sum allocations)
      some (record {
        metric = cid_sharing;
        metric_value = percentage;
        metric_value_max = some (of_ℕ F 100);
        score = cid_sharing_points F M percentage;
        open_data_score_weight = 3;
        enterprise_score_weight = 3;
        metric_name = "CID sharing";
        metric_description = "Measures the same CID shared between different clients";
        metric_unit = some "%";
        metric_average = none;
        score_ranges = cid_sharing_ranges F;
        metadata =
            ("Total allocations (weighted)", filesize (big_int_sum allocations))
            ∷ ("Allocations with CID sharing (weighted)", filesize (big_int_sum shared))
            ∷ ("Percentage of allocations with CID sharing", fixed_percent percentage)
            ∷ ("Percentage of allocations with CID sharing = 0", text "2 points")
            ∷ ("Percentage of allocations with CID sharing > 0 and <= 2", text "1 point")
            ∷ ("Percentage of allocations with CID sharing > 2", text "0 points")
            ∷ [];
      })

    unfoldable pub unique_data_set_size_score : AllocatorReport F → Option (Score F)
    unique_data_set_size_score report = do
      expected ←
          collect (λ c. weighted c (size_or_zero c.expected_size_of_single_dataset)) report.clients
      unique ← collect (λ c. weighted c (size_or_zero c.total_uniq_data_set_size)) report.clients
      ratio ← ratio_or_zero F (big_int_sum unique *ℤ pos 100) (big_int_sum expected)
      some (record {
        metric = unique_data_set_size;
        metric_value = ratio;
        metric_value_max = none;
        score = unique_score F ratio;
        open_data_score_weight = 1;
        enterprise_score_weight = 1;
        metric_name = "Unique dataset size";
        metric_description =
            "Compares the actual unique data to what was declared by the client in their application (size of the one copy of the data set)";
        metric_unit = none;
        metric_average = none;
        score_ranges = unique_ranges F;
        metadata =
            ("Total expected size of single data set (weighted)", filesize (big_int_sum expected))
            ∷ ("Total unique data set size (weighted)", filesize (big_int_sum unique))
            ∷ ("Ratio of unique data set size to expected size of single data set", fixed ratio)
            ∷ ("Ratio >= 100 and < 120", text "2 points")
            ∷ ("Ratio < 100", text "1 point")
            ∷ ("Ratio > 120", text "0 points")
            ∷ [];
      })

    unfoldable pub equality_of_datacap_distribution_score : AllocatorReport F → Option (Score F)
    equality_of_datacap_distribution_score report = do
      allocations ← collect (λ c. weighted c c.total_allocations) report.clients
      let total = big_int_sum allocations
      ratios ← collect (λ a. ratio_or_zero F (a *ℤ pos (length report.clients)) total) allocations
      let deviation = given_or_zero F (standard_deviation F M ratios)
      some (record {
        metric = equality_of_datacap_distribution;
        metric_value = deviation;
        metric_value_max = none;
        score = equality_score F deviation;
        open_data_score_weight = 2;
        enterprise_score_weight = 2;
        metric_name = "Equality of datacap distribution";
        metric_description = "Measures how is the allocator allocating datacap to clients";
        metric_unit = none;
        metric_average = none;
        score_ranges = equality_ranges F;
        metadata =
            ("Total allocations (weighted)", filesize total)
            ∷ ("Number of clients", count (length report.clients))
            ∷ ("Standard deviation of equality ratio", fixed deviation)
            ∷ ("Standard deviation >= 0.9 and <= 1.1", text "3 points")
            ∷ ("Standard deviation (>= 0.7 and < 0.9) or (> 1.1 and <= 1.3)", text "2 points")
            ∷ ("Standard deviation (>= 0.5 and < 0.7) or (> 1.3 and <= 1.5)", text "1 point")
            ∷ ("Standard deviation < 0.5 or > 1.5", text "0 points")
            ∷ [];
      })

    -- `monthsOfOperation ? report.clients_number / monthsOfOperation : 0`
    abbrev pub diversity_ratio : Option F.carrier → ℕ → F.carrier
    diversity_ratio none clients_number = of_ℕ F 0
    diversity_ratio (some months) clients_number =
        if F.is_zero months then of_ℕ F 0 else F.div (of_ℕ F clients_number) months

    abbrev pub shown_months : Option F.carrier → Shown F
    shown_months none = null
    shown_months (some months) = fixed months

    unfoldable pub client_diversity_score : AllocatorReport F → Option (Score F)
    client_diversity_score report = do
      let ratio = diversity_ratio Q.months_of_operation report.clients_number
      some (record {
        metric = client_diversity;
        metric_value = ratio;
        metric_value_max = none;
        score = diversity_score F ratio;
        open_data_score_weight = 2;
        enterprise_score_weight = 2;
        metric_name = "Client diversity";
        metric_description =
            "Measures how many clients is an allocator working with, based on the number of months the allocator has been operating";
        metric_unit = none;
        metric_average = none;
        score_ranges = diversity_ranges F;
        metadata =
            ("Number of clients", count report.clients_number)
            ∷ ("Months of operation", shown_months Q.months_of_operation)
            ∷ ("Client diversity ratio (clients / months)", fixed ratio)
            ∷ ("Client diversity ratio > 0.6", text "2 points")
            ∷ ("Client diversity ratio >= 0.4", text "1 point")
            ∷ ("Client diversity ratio < 0.4", text "0 points")
            ∷ [];
      })
