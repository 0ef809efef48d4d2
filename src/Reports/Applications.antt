-- ===== src/Reports/Applications.antt =====
-- The clients of an allocator report: their allocations, of `getGrantedDatacapInClients` in
-- src/service/allocator-report/allocator-report.service.ts, and the application that a row names.
use compliance_data_platform.Prelude.{
  ℕ, zero, suc, ◌≡◌, refl, Option, none, some, List, [], ◌∷◌, ◌++◌, String, leb, ◌>>=◌,
  if◌then◌else◌,
}
use compliance_data_platform.Reports.{
  ClientAllowanceItem, ClientWithAllowance, allowance_array, whole_client,
  get_client_application_url, properties,
}

-- A row of `allocator_report_client_allocation`, before its timestamp is turned into milliseconds.
pub record GrantedDatacap : Type 0 where
  pub address_id : String
  pub allocation : ℕ
  pub allocation_timestamp : ℕ

-- An allowance that is missing or 0 is logged and dropped.
unfoldable pub granted_item : String → ClientAllowanceItem → List GrantedDatacap
granted_item address_id item = elim item.allowance [
  | none ↦ []
  | some zero ↦ []
  | some (suc n) ↦
      record {
        address_id = address_id;
        allocation = suc n;
        allocation_timestamp = item.create_message_timestamp;
      }
      ∷ []
]

unfoldable pub granted_items : String → List ClientAllowanceItem → List GrantedDatacap
granted_items address_id [] = []
granted_items address_id (item ∷ items) =
    granted_item address_id item ++ granted_items address_id items

-- `sort` by timestamp is stable.
unfoldable pub insert_granted : GrantedDatacap → List GrantedDatacap → List GrantedDatacap
insert_granted g [] = g ∷ []
insert_granted g (x ∷ xs) =
    let rest = insert_granted g xs in
    if leb g.allocation_timestamp x.allocation_timestamp then g ∷ x ∷ xs else x ∷ rest

unfoldable pub sort_granted : List GrantedDatacap → List GrantedDatacap
sort_granted [] = []
sort_granted (g ∷ gs) = insert_granted g (sort_granted gs)

-- `allowanceArray.filter` throws when the array is null: the whole call is `none`.
unfoldable pub all_granted : List ClientWithAllowance → Option (List GrantedDatacap)
all_granted [] = some []
all_granted (c ∷ clients) = do
  items ← c.allowance_array
  rest ← all_granted clients
  some (granted_items c.address_id items ++ rest)

unfoldable pub get_granted_datacap_in_clients :
    List ClientWithAllowance → Option (List GrantedDatacap)
get_granted_datacap_in_clients clients = do
  granted ← all_granted clients
  some (sort_granted granted)

-- The part of a client's row in an allocator report that names its application: the call passes the
-- client where its allowances are meant.
unfoldable pub application_url_in_allocator_report : ClientWithAllowance → Option String
application_url_in_allocator_report client = get_client_application_url (whole_client client)

-- The same part of a client's own report.
unfoldable pub application_url_in_client_report : ClientWithAllowance → Option String
application_url_in_client_report client =
    get_client_application_url (allowance_array client.allowance_array)

-- The row of a client in an allocator report has no application url.
application_url_in_allocator_report-none :
    (client : ClientWithAllowance) → application_url_in_allocator_report client ≡ none
unfolding application_url_in_allocator_report get_client_application_url properties
application_url_in_allocator_report-none client = refl
