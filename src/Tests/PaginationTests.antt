-- ===== src/Tests/PaginationTests.antt =====
-- Five items in pages of two.
use compliance_data_platform.Prelude.{ℕ, ◌≡◌, refl, some, none, List, [], ◌∷◌, String, arith}
use compliance_data_platform.Pagination.{
  Reading, whole, take, drop, slice, page_of, pages, paginated, validate_pagination_info,
}
use compliance_data_platform.Pagination.Pages.{first_pages, first_pages-pages}

abbrev five : List ℕ
five = 1 ∷ 2 ∷ 3 ∷ 4 ∷ 5 ∷ []

abbrev reads_two : String → Reading
reads_two s = whole 2

second_page :
    paginated reads_two five (some (record { limit = some "2"; page = some "2" }))
    ≡ some (3 ∷ 4 ∷ [])
unfolding paginated validate_pagination_info page_of slice take drop
second_page = refl

page_without_limit :
    paginated reads_two five (some (record { limit = none; page = some "2" })) ≡ none
unfolding paginated validate_pagination_info
page_without_limit = refl

first_pages-pages_example : (n : ℕ) × (pages 2 5 ≡ some n) × (first_pages 2 n five ≡ five)
first_pages-pages_example = first_pages-pages 2 five (omega arith)
