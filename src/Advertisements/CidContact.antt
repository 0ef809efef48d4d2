-- ===== src/Advertisements/CidContact.antt =====
-- The methods of src/service/cid-contact/cid-contact.service.ts that fetch advertisements and count
-- their entries. A page without entries counts as a failure. The answers of the publishers, decoded, are parameters, and `none` is a request or a
-- decoding that fails; so is the building of the base url, a chain of replacements in a multiaddr.
use compliance_data_platform.Prelude.{
  ℕ, zero, suc, ◌+◌, ◌≡◌, refl, ap, ◌∙◌, Option, none, some, List, [], ◌∷◌, String, str_eq,
  str_append, length, ◌≤◌, arith, if◌then◌else◌, Bool-cases, inl, inr,
}
use compliance_data_platform.Advertisements.{Advertisement, link}

-- `Entries` of one page, by their number, and `Next?.['/']`.
pub record EntriesPage : Type 0 where
  pub entries : ℕ
  pub next : Option String

pub data Count : Type 0 where
  counted : ℕ → Count
  rejected out_of_fuel : Count

unfoldable pub endpoint_of : String → String → String
endpoint_of base_url id = str_append (str_append base_url "/ipni/v1/ad/") id

module _ (get_advertisement : String → Option Advertisement) where
  -- `{ ...data, ID: advertisementId }`
  unfoldable pub get_ipni_publisher_advertisement :
      String → Option String → Option (Option Advertisement)
  get_ipni_publisher_advertisement base_url advertisement_id = elim (link advertisement_id) [
    | none ↦ some none
    | some id ↦ elim (get_advertisement (endpoint_of base_url id)) [
      | none ↦ none
      | some ad ↦ some (some (record ad { id = id }))
    ]
  ]

abbrev pub sum_of_entries : List EntriesPage → ℕ
sum_of_entries [] = 0
sum_of_entries (page ∷ pages) = page.entries + sum_of_entries pages

module _ (get_entries : String → Option EntriesPage) where
  -- The loop over the pages of entries, on fuel.
  unfoldable pub count_entries : ℕ → String → String → ℕ → Count
  count_entries zero base_url endpoint entries_count = out_of_fuel
  count_entries (suc fuel) base_url endpoint entries_count = elim (get_entries endpoint) [
    | none ↦ rejected
    | some page ↦ elim (link page.next) [
      | none ↦ counted (entries_count + page.entries)
      | some id ↦
          count_entries fuel base_url (endpoint_of base_url id) (entries_count + page.entries)
    ]
  ]

  -- The id is the one for an empty list; another id with its prefix `bafk` is only logged.
  unfoldable pub get_ipni_publisher_advertisement_entries_number :
      ℕ → String → Advertisement → Count
  get_ipni_publisher_advertisement_entries_number fuel base_url ad =
      if str_eq ad.entries "bafkreehdwdcefgh4dqkjv67uzcmw7oje"
      then counted 0
      else count_entries fuel base_url (endpoint_of base_url ad.entries) 0

  -- The pages that an endpoint leads to, each by its `Next` link.
  pub data Pages (base_url : String) : String → List EntriesPage → Type 0 where
    last :
        (endpoint : String) (page : EntriesPage)
        → get_entries endpoint ≡ some page
        → link page.next ≡ none
        → Pages base_url endpoint (page ∷ [])
    further :
        (endpoint : String) (page : EntriesPage) (id : String) (pages : List EntriesPage)
        → get_entries endpoint ≡ some page
        → link page.next ≡ some id
        → Pages base_url (endpoint_of base_url id) pages
        → Pages base_url endpoint (page ∷ pages)

  counts-from :
      (base_url endpoint : String) (pages : List EntriesPage) (n fuel : ℕ)
      → Pages base_url endpoint pages
      → length pages ≤ fuel
      → count_entries fuel base_url endpoint n ≡ counted (n + sum_of_entries pages)
  unfolding count_entries
  counts-from base_url endpoint pages n zero (last e p got ends) h = absurd (omega (arith, h))
  counts-from base_url endpoint pages n zero (further e p id ps got on rest) h =
      absurd (omega (arith, h))
  counts-from base_url endpoint pages n (suc fuel) (last e p got ends) h =
      rw (got, ends, count_entries) (ap counted (omega arith))
  counts-from base_url endpoint pages n (suc fuel) (further e p id ps got on rest) h =
      rw (got, on, count_entries)
        (counts-from base_url (endpoint_of base_url id) ps (n + p.entries) fuel rest
            (omega (arith, h))
          ∙ ap counted (omega arith))

  -- The number of entries of an advertisement is the sum of the entries of the pages that its entries
  -- lead to, when there are pages up to one without a next page and the fuel is at least their number;
  -- entries with the id of an empty list count 0 and are not asked for.
  pub entries_number-sum :
      (fuel : ℕ) (base_url : String) (ad : Advertisement) (pages : List EntriesPage)
      → Pages base_url (endpoint_of base_url ad.entries) pages
      → length pages ≤ fuel
      → get_ipni_publisher_advertisement_entries_number fuel base_url ad
        ≡ counted (
            if str_eq ad.entries "bafkreehdwdcefgh4dqkjv67uzcmw7oje"
            then 0
            else sum_of_entries pages)
  unfolding get_ipni_publisher_advertisement_entries_number
  entries_number-sum fuel base_url ad pages chain h =
      elim (Bool-cases (str_eq ad.entries "bafkreehdwdcefgh4dqkjv67uzcmw7oje")) [
        | inl empty ↦ rw empty refl
        | inr other ↦ rw other (
            counts-from base_url (endpoint_of base_url ad.entries) pages 0 fuel chain h
            ∙ ap counted (omega arith))
      ]
