-- ===== src/Reports/Shares.antt =====
-- The shares of the replica distribution of a client, of src/service/client/client.service.ts.
use compliance_data_platform.Prelude.{
  ℕ, ◌+◌, ◌*◌, ◌/◌, ◌≤◌, ◌<◌, ◌≡◌, ◌≢◌, ◌⊎◌, inl, inr, refl, Option, none, some, List, [], ◌∷◌, map,
  ◌>>=◌, arith, ℕ-cases,
}
use native.Mathlib.Nat.{div-le_of_le-mul, mul-div-le, le_of_mul-le-mul_right}
use compliance_data_platform.Numbers.{
  Double, pos, hundredths, big_int_div, big_int_to_number, IsFaithful,
}
use compliance_data_platform.ClientChecks.DealShares.{nonzero-test, scale-pos}
use compliance_data_platform.Reports.Distributions.{
  ReplicaRow, all_settled, share_of, total_of_replicas, get_replication_distribution,
}

-- A row's share of a total in hundredths of a percent, rounded down.
abbrev pub row_share : ℕ → ReplicaRow → ℕ
row_share total r = r.total_deal_size * 100 * 100 / total

abbrev pub sum_of_shares : ℕ → List ReplicaRow → ℕ
sum_of_shares total [] = 0
sum_of_shares total (r ∷ rows) = row_share total r + sum_of_shares total rows

shares-le :
    (total : ℕ) (rows : List ReplicaRow)
    → sum_of_shares total rows * total ≤ total_of_replicas rows * 10000
shares-le total [] = omega arith
shares-le total (r ∷ rows) =
    grind (arith, mul-div-le (r.total_deal_size * 100 * 100) total, shares-le total rows)

module _ (F : Double) where
  -- A row with the percentage that its share is.
  abbrev pub with_share : ℕ → ReplicaRow → ReplicaRow × F.carrier
  with_share total r = (r, hundredths F (pos (row_share total r)))

  abbrev call_of : ℕ → ReplicaRow → Option (ReplicaRow × F.carrier)
  call_of total r = (do percentage ← share_of F total r.total_deal_size; some (r, percentage))

  share_of-zero : (size : ℕ) → share_of F 0 size ≡ none
  unfolding share_of big_int_div
  share_of-zero size = refl

  module _ (faithful : IsFaithful F) where
    call-with_share :
        (total : ℕ) (r : ReplicaRow)
        → 0 < total
        → r.total_deal_size ≤ total
        → call_of total r ≡ some (with_share total r)
    unfolding share_of big_int_div big_int_to_number
    call-with_share total r nonzero part =
        let small : row_share total r ≤ 10000 = div-le_of_le-mul total (omega arith) in
        rw
          (
            share_of,
            big_int_div,
            nonzero-test total nonzero,
            scale-pos (r.total_deal_size * 100) 100,
          )
          (rw (big_int_to_number, faithful.exact (row_share total r) (omega arith)) refl)

    calls-with_share :
        (total : ℕ) (rows : List ReplicaRow)
        → 0 < total
        → total_of_replicas rows ≤ total
        → all_settled (call_of total) rows ≡ some (map (with_share total) rows)
    unfolding all_settled
    calls-with_share total [] nonzero part = refl
    calls-with_share total (r ∷ rows) nonzero part =
        rw
          (
            all_settled,
            call-with_share total r nonzero (omega (arith, part)),
            calls-with_share total rows nonzero (omega (arith, part)),
          )
          refl

    -- The replica distribution is an error when there are rows and all their sizes are 0, and only then:
    -- when there are no rows or their total is above 0, each row has the percentage that its size is of
    -- the total, rounded down to two places, and the percentages add up to at most 100. This takes
    -- doubles that are exact for integers below 2^50.
    pub get_replication_distribution-shares :
        (rows : List ReplicaRow)
        → ((rows ≢ [])
            × (total_of_replicas rows ≡ 0)
            × (get_replication_distribution F rows ≡ none))
          ⊎ (((rows ≡ []) ⊎ (0 < total_of_replicas rows))
              × (get_replication_distribution F rows
                  ≡ some (map (with_share (total_of_replicas rows)) rows))
              × (sum_of_shares (total_of_replicas rows) rows ≤ 10000))
    unfolding get_replication_distribution all_settled
    get_replication_distribution-shares [] = inr (inl refl, refl, omega arith)
    get_replication_distribution-shares (r ∷ rows) = elim (ℕ-cases (total_of_replicas (r ∷ rows))) [
      | inl e ↦
          inl (not_empty, e, rw (get_replication_distribution, all_settled, e, share_of-zero) refl)
      | inr (m, e) ↦
          let all : List ReplicaRow = r ∷ rows in
          let total : ℕ = total_of_replicas all in
          let nonzero : 0 < total = omega (arith, e) in
          inr (
            inr nonzero,
            calls-with_share total all nonzero (omega arith),
            le_of_mul-le-mul_right {k = total} (omega (arith, shares-le total all)) nonzero,
          )
    ]
      where
        not_empty : (r ∷ rows) ≢ []
        not_empty h = cc
