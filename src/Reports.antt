-- ===== src/Reports.antt =====
-- The generation of client and allocator reports: src/service/client-report, the parts of
-- src/service/client, src/service/storage-provider-report and src/service/allocator-report that it is
-- made of, and the two jobs of src/jobs that generate all reports.
pub mod Distributions
pub mod OfClients
pub mod Jobs
pub mod Shares
pub mod Generated
pub mod Counts
pub mod Applications
pub mod Granted
use compliance_data_platform.Prelude.{
  ℕ, suc, ◌*◌, Bool, true, false, Option, none, some, List, [], ◌∷◌, ◌++◌, String, str_eq, map,
  filter, find, leb, ◌==◌, if◌then◌else◌,
}
use compliance_data_platform.ClientChecks.Client.{glif_auto_verified_allocator_id}

-- Timestamps are in seconds.
pub record ClientAllowanceItem : Type 0 where
  pub verifier_address_id : String
  pub allowance : Option ℕ
  pub audit_trail : Option String
  pub issue_create_timestamp : Option ℕ
  pub create_message_timestamp : ℕ

pub record ClientWithAllowance : Type 0 where
  pub address_id : String
  pub address : String
  pub name : String
  pub org_name : String
  pub verifier_address_id : String
  pub allowance_array : Option (List ClientAllowanceItem)

-- `clients[0]`
abbrev pub first {ℓ} : {A : Type ℓ} → List A → Option A
first [] = none
first (x ∷ xs) = some x

-- `allocators[0] === GlifAutoVerifiedAllocatorId && allocators.length > 1 ? allocators[1] : allocators[0]`
unfoldable pub main_allocator_id : List String → Option String
main_allocator_id [] = none
main_allocator_id (a ∷ []) = some a
main_allocator_id (a ∷ b ∷ allocators) =
    if str_eq a glif_auto_verified_allocator_id then some b else some a

-- The argument of `getClientApplicationUrl`: its declared type, or the client itself.
pub data AllowanceArgument : Type 0 where
  allowance_array : Option (List ClientAllowanceItem) → AllowanceArgument
  whole_client : ClientWithAllowance → AllowanceArgument

-- The value of a property: an allowance, or one that has no audit trail.
pub data PropertyValue : Type 0 where
  with_trail : ClientAllowanceItem → PropertyValue
  without_trail : PropertyValue

-- The properties by their names. Those of an array are its indices, of which only the first is read.
unfoldable pub properties : AllowanceArgument → List (String × PropertyValue)
properties (allowance_array none) = []
properties (allowance_array (some [])) = []
properties (allowance_array (some (x ∷ items))) = ("0", with_trail x) ∷ []
properties (whole_client client) =
    map (λ (name : String). (name, without_trail))
      ("addressId" ∷ "address" ∷ "name" ∷ "orgName" ∷ "verifierAddressId" ∷ "allowanceArray" ∷ [])

-- `?.auditTrail`
abbrev pub audit_trail_of : PropertyValue → Option String
audit_trail_of (with_trail x) = x.audit_trail
audit_trail_of without_trail = none

-- `allowanceArray?.[0]` is the property of the name `0`.
unfoldable pub get_client_application_url : AllowanceArgument → Option String
get_client_application_url argument =
    elim (find (λ (p : String × PropertyValue). str_eq p.0 "0") (properties argument)) [
      | none ↦ none
      | some p ↦ elim (audit_trail_of p.1) [
        | none ↦ none
        | some trail ↦ if str_eq trail "n/a" then none else some trail
      ]
    ]

-- A text that is neither null nor empty.
abbrev pub or_else : String → Option String → Option String
or_else s other = if str_eq s "" then other else some s

-- The first client with a text that is not empty, and this text trimmed, unless nothing is left.
unfoldable pub first_named :
    (trim : String → String)
    → (ClientWithAllowance → String)
    → List ClientWithAllowance
    → Option String
first_named trim get client_data =
    elim (find (λ (c : ClientWithAllowance). if str_eq (get c) "" then false else true)
      client_data) [ none ↦ none | some c ↦ or_else (trim (get c)) none ]

-- `trim` is a parameter; the name in the bookkeeping may be missing.
unfoldable pub get_client_name :
    (trim : String → String) → Option String → List ClientWithAllowance → Option String
get_client_name trim bookkeeping_name client_data =
    let of_database : Option String =
      elim (first_named trim (λ (c : ClientWithAllowance). c.name) client_data) [
        | some name ↦ some name
        | none ↦ first_named trim (λ (c : ClientWithAllowance). c.org_name) client_data
      ] in
    elim bookkeeping_name [ none ↦ of_database | some name ↦ or_else (trim name) of_database ]
