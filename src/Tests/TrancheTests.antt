-- ===== src/Tests/TrancheTests.antt =====
-- A client of a hundred units that receives 5, 10 and 15 of them.
use compliance_data_platform.Prelude.{◌≡◌, ◌↔◌, refl, true, none, [], ◌∷◌}
use compliance_data_platform.Tranche.{
  ClientAllocations, validate_from, validate_allocations, FollowsSchedule,
}
use compliance_data_platform.Tranche.Schedule.{validate_allocations_iff}

abbrev granted : ClientAllocations
granted = record {
  client_id = "f01";
  allocations =
      record { client_id = "f01"; allocation = 5; timestamp = 1 }
      ∷ record { client_id = "f01"; allocation = 10; timestamp = 2 }
      ∷ record { client_id = "f01"; allocation = 15; timestamp = 3 }
      ∷ [];
  total_requested_amount = 100;
}

granted_valid : validate_allocations granted ≡ true
unfolding validate_allocations validate_from
granted_valid = refl

validate_allocations_iff_example :
    (validate_allocations granted ≡ true) ↔ FollowsSchedule 100 0 none granted.allocations
validate_allocations_iff_example = validate_allocations_iff granted
