-- ===== src/Pagination/Pages.antt =====
-- The pages of a list, src/controller/base/controller-base.ts.
use compliance_data_platform.Prelude.{
  ℕ, zero, suc, ◌+◌, ◌-◌, ◌*◌, ◌/◌, ◌≤◌, ◌≡◌, refl, sym, ap, ◌∙◌, inl, inr, some, List, [], ◌∷◌,
  ◌++◌, leb, length, Bool-cases, leb→le, if◌then◌else◌, arith,
}
use native.Mathlib.Nat.{lt-div-mul-add}
use compliance_data_platform.Pagination.{
  drop, take, slice, page_of, pages, validate_query_pagination,
}

module _ {ℓ} {A : Type ℓ} where
  take_all : (n : ℕ) (xs : List A) → length xs ≤ n → take n xs ≡ xs
  unfolding take
  take_all zero [] h = refl
  take_all zero (x ∷ xs) h = absurd (omega (arith, h))
  take_all (suc n) [] h = refl
  take_all (suc n) (x ∷ xs) h = ap (λ l. x ∷ l) (take_all n xs (omega (arith, h)))

  drop_all : (n : ℕ) (xs : List A) → length xs ≤ n → drop n xs ≡ []
  unfolding drop
  drop_all zero [] h = refl
  drop_all zero (x ∷ xs) h = absurd (omega (arith, h))
  drop_all (suc n) [] h = refl
  drop_all (suc n) (x ∷ xs) h = drop_all n xs (omega (arith, h))

  length-drop : (n : ℕ) (xs : List A) → length (drop n xs) ≡ length xs - n
  unfolding drop
  length-drop zero xs = omega arith
  length-drop (suc n) [] = omega arith
  length-drop (suc n) (x ∷ xs) = omega (arith, length-drop n xs)

  take_same : (m n : ℕ) (xs : List A) → m ≡ n → take m xs ≡ take n xs
  take_same m n xs e = ap (λ k. take k xs) e

  take-drop : (m n : ℕ) (xs : List A) → take m xs ++ take n (drop m xs) ≡ take (m + n) xs
  unfolding take drop
  take-drop zero n xs = take_same n (zero + n) xs (omega arith)
  take-drop (suc m) zero [] = sym (take_all (suc m + zero) [] (omega arith))
  take-drop (suc m) (suc n) [] = sym (take_all (suc m + suc n) [] (omega arith))
  take-drop (suc m) n (x ∷ xs) =
      ap (λ l. x ∷ l) (take-drop m n xs)
      ∙ take_same (suc (m + n)) (suc m + n) (x ∷ xs) (omega arith)

  part_of :
      (start limit : ℕ) (values : List A)
      → (if leb (length values) start
          then []
          else slice start
              (if leb (length values) (start + limit) then length values else start + limit)
              values)
        ≡ take limit (drop start values)
  unfolding slice
  part_of start limit values =
      let left = length-drop start values in
      elim (Bool-cases (leb (length values) start)) [
        | inl over ↦
            let none_left = drop_all start values (leb→le _ _ over) in
            rw over (sym (ap (take limit) none_left ∙ take_all limit [] (omega arith)))
        | inr within ↦ elim (Bool-cases (leb (length values) (start + limit))) [
          | inl short ↦
              let few = leb→le _ _ short in
              rw (within, short)
                (take_all (length values - start) (drop start values) (omega (arith, left))
                  ∙ sym (take_all limit (drop start values) (omega (arith, left, few))))
          | inr long ↦ rw (within, long) (ap (λ n. take n (drop start values)) (omega arith))
        ]
      ]

  page_of-take :
      (limit before : ℕ) (values : List A)
      → page_of (record { limit = limit; page = suc before }) values
        ≡ take limit (drop (limit * before) values)
  unfolding page_of
  page_of-take limit before values = part_of (limit * before) limit values

  -- The first pages, one after the other.
  abbrev pub first_pages : (limit count : ℕ) → List A → List A
  first_pages limit zero values = []
  first_pages limit (suc before) values =
      first_pages limit before values
      ++ page_of (record { limit = limit; page = suc before }) values

  first_pages-take :
      (limit count : ℕ) (values : List A)
      → first_pages limit count values ≡ take (limit * count) values
  unfolding take
  first_pages-take limit zero values = take_same 0 (limit * zero) values (omega arith)
  first_pages-take limit (suc before) values =
      ap (λ l. l ++ page_of (record { limit = limit; page = suc before }) values)
        (first_pages-take limit before values)
      ∙ ap (λ l. take (limit * before) values ++ l) (page_of-take limit before values)
      ∙ take-drop (limit * before) limit values
      ∙ take_same (limit * before + limit) (limit * suc before) values (grind arith)

  -- With a limit of at least 1, the pages from 1 to the number of pages that is reported are, one
  -- after the other, the list: no item is left out or shown twice.
  pub first_pages-pages :
      (limit : ℕ) (values : List A)
      → 1 ≤ limit
      → (n : ℕ) × (pages limit (length values) ≡ some n) × (first_pages limit n values ≡ values)
  unfolding pages
  first_pages-pages zero values h = absurd (omega (arith, h))
  first_pages-pages (suc limit) values h =
      let n = (length values + limit) / suc limit in
      let enough : length values ≤ suc limit * n =
        grind (arith, lt-div-mul-add {a = length values + limit} {b = suc limit} (omega arith)) in
      (n, refl, first_pages-take (suc limit) n values ∙ take_all (suc limit * n) values enough)

  -- The page of a list is the part of it that the query of the same limit and page takes: as many
  -- items as `take` says, after as many as `skip` says.
  pub page_of-query :
      (limit page : ℕ) (values : List A)
      → 1 ≤ limit
      → 1 ≤ page
      → (t s : ℕ) × ((validate_query_pagination (some limit) (some page)).take ≡ some t)
        × ((validate_query_pagination (some limit) (some page)).skip ≡ some s)
        × (page_of (record { limit = limit; page = page }) values ≡ take t (drop s values))
  unfolding validate_query_pagination
  page_of-query zero page values h k = absurd (omega (arith, h))
  page_of-query (suc limit) zero values h k = absurd (omega (arith, k))
  page_of-query (suc limit) (suc before) values h k = (
    suc limit,
    (suc before - 1) * suc limit,
    refl,
    refl,
    page_of-take (suc limit) before values
        ∙ ap (λ n. take (suc limit) (drop n values)) (same before limit),
  )
    where
      same : (b l : ℕ) → suc l * b ≡ (suc b - 1) * suc l
      same b l = grind arith
