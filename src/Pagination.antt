-- ===== src/Pagination.antt =====
-- src/controller/base/controller-base.ts: pages of lists and of queries. The numbers of pages and
-- items are integers below 2^53, which JavaScript divides and rounds exactly; a text whose number is
-- a fraction or infinite is left out.
pub mod Pages
use compliance_data_platform.Prelude.{
  ℕ, zero, suc, ◌+◌, ◌-◌, ◌*◌, ◌/◌, Bool, true, false, not, ◌&&◌, ◌||◌, Option, none, some, List,
  [], ◌∷◌, ◌==◌, String, str_eq, ltb, leb, length, ◌>>=◌, if◌then◌else◌,
}

-- What `Number(text)` gives.
pub data Reading : Type 0 where
  nan negative : Reading
  whole : ℕ → Reading

pub record PaginationInfoRequest : Type 0 where
  pub limit : Option String
  pub page : Option String

pub record PaginationInfo : Type 0 where
  pub limit : ℕ
  pub page : ℕ

-- A text that is set and not empty.
abbrev pub is_given : Option String → Bool
is_given none = false
is_given (some s) = not (str_eq s "")

abbrev pub is_positive : Reading → Bool
is_positive nan = false
is_positive negative = false
is_positive (whole n) = ltb 0 n

module _ (number : String → Reading) where
  -- `Number(undefined)` is NaN.
  abbrev pub reading_of : Option String → Reading
  reading_of none = nan
  reading_of (some s) = number s

  -- Both numbers, null if both are NaN, else an error. A text that is given and negative has been
  -- rejected before.
  abbrev pub both_or_none : Reading → Reading → Option (Option PaginationInfo)
  both_or_none nan nan = some none
  both_or_none (whole limit) (whole page) = some (some (record { limit = limit; page = page }))
  both_or_none _ _ = none

  -- `none` is a `BadRequestException`; `some none` is null.
  unfoldable pub validate_pagination_info :
      Option PaginationInfoRequest → Option (Option PaginationInfo)
  validate_pagination_info none = some none
  validate_pagination_info (some request) =
      if is_given request.limit && not (is_positive (reading_of request.limit))
      then none
      else if is_given request.page && not (is_positive (reading_of request.page))
      then none
      else both_or_none (reading_of request.limit) (reading_of request.page)

module _ {ℓ} {A : Type ℓ} where
  unfoldable pub drop : ℕ → List A → List A
  drop zero xs = xs
  drop (suc n) [] = []
  drop (suc n) (x ∷ xs) = drop n xs

  unfoldable pub take : ℕ → List A → List A
  take zero xs = []
  take (suc n) [] = []
  take (suc n) (x ∷ xs) = x ∷ take n xs

  -- `values.slice(start, end)`
  unfoldable pub slice : ℕ → ℕ → List A → List A
  slice start end values = take (end - start) (drop start values)

  -- The page 0 has a start that is not positive and the end 0, so its slice is empty.
  unfoldable pub page_of : PaginationInfo → List A → List A
  page_of info values = elim info.page [
    | zero ↦ []
    | suc before ↦
        let start_index = info.limit * before in
        if leb (length values) start_index
        then []
        else slice start_index
            (if leb (length values) (start_index + info.limit)
              then length values
              else start_index + info.limit)
            values
  ]

  unfoldable pub paginated :
      (String → Reading) → List A → Option PaginationInfoRequest → Option (List A)
  paginated number values request = do
    info ← validate_pagination_info number request
    some (elim info [ none ↦ values | some i ↦ page_of i values ])

-- `pages` of `withPaginationInfo`: rounded up, undefined without a limit.
unfoldable pub pages : ℕ → ℕ → Option ℕ
pages zero total = none
pages (suc limit) total = some ((total + limit) / suc limit)

pub record DatabasePaginationQuery : Type 0 where
  pub take : Option ℕ
  pub skip : Option ℕ

abbrev pub page_or_first : Option ℕ → ℕ
page_or_first (some (suc page)) = suc page
page_or_first _ = 1

unfoldable pub validate_query_pagination : (limit page : Option ℕ) → DatabasePaginationQuery
validate_query_pagination (some (suc limit)) page = record {
  take = some (suc limit);
  skip = some ((page_or_first page - 1) * suc limit);
}
validate_query_pagination _ page = record { take = none; skip = none }
