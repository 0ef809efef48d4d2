-- ===== src/Tables/Ascending.antt =====
-- The distinct keys of a list in ascending order.
use compliance_data_platform.Prelude.{
  ℕ, ◌<◌, ◌≤◌, ◌≡◌, refl, inl, inr, true, false, List, [], ◌∷◌, ◌==◌, ltb, any, All, All-weaken,
  Bool-cases, ◌∙◌, arith, if◌then◌else◌,
}
use compliance_data_platform.Tables.{is_key_in, distinct_from, insert, sort}
use compliance_data_platform.Tables.Keys.{count_key, count_key-sort, count_key-distinct_from}

-- Every number is below all that come after it.
abbrev pub IsAscending : List ℕ → Type 0
IsAscending [] = Unit
IsAscending (x ∷ xs) = All (λ y. x < y) xs × IsAscending xs

insert-above :
    (low k : ℕ) (l : List ℕ) → low < k → All (λ y. low < y) l → All (λ y. low < y) (insert k l)
unfolding insert
insert-above low k [] h hs = (h, tt)
insert-above low k (x ∷ l) h (first, hs) = elim (Bool-cases (ltb x k)) [
  | inl e ↦ rw (insert, e) (first, insert-above low k l h hs)
  | inr e ↦ rw (insert, e) (h, (first, hs))
]

insert-IsAscending :
    (k : ℕ) (l : List ℕ) → count_key k l ≡ 0 → IsAscending l → IsAscending (insert k l)
unfolding insert
insert-IsAscending k [] new a = (tt, tt)
insert-IsAscending k (x ∷ l) new (above, a) = elim (Bool-cases (ltb x k)) [
  | inl e ↦
      let below : x < k = ground arith in
      rw (insert, e) (insert-above x k l below above, insert-IsAscending k l (ground arith) a)
  | inr e ↦
      let below : k < x = ground arith in
      rw (insert, e)
        (
          (below, All-weaken (λ y. x < y) (λ y. k < y) (λ y h. omega (arith, h, below)) l above),
          (above, a),
        )
]

sort-IsAscending : (l : List ℕ) → ((k : ℕ) → count_key k l ≤ 1) → IsAscending (sort l)
unfolding sort
sort-IsAscending [] once = tt
sort-IsAscending (k ∷ l) once =
    let at = once k in
    let new : count_key k l ≡ 0 = ground arith in
    insert-IsAscending k (sort l) (count_key-sort k l ∙ new)
      (sort-IsAscending l (λ j. ground (arith, once j)))

any-count_key :
    (k : ℕ) (l : List ℕ) → any (λ x. x == k) l ≡ (if count_key k l == 0 then false else true)
any-count_key k [] = refl
any-count_key k (x ∷ l) = ground (arith, any-count_key k l)

count_key-distinct :
    (k : ℕ) (l : List ℕ) → count_key k (distinct_from [] l) ≡ (if any (λ x. x == k) l then 1 else 0)
count_key-distinct k l = unfold is_key_in in count_key-distinct_from k [] l

pub sort-distinct_from-IsAscending : (l : List ℕ) → IsAscending (sort (distinct_from [] l))
sort-distinct_from-IsAscending l =
    sort-IsAscending (distinct_from [] l) (λ k. ground (arith, count_key-distinct k l))

-- The sorted keys are those of the list.
pub any-sort-distinct_from :
    (k : ℕ) (l : List ℕ) → any (λ x. x == k) (sort (distinct_from [] l)) ≡ any (λ x. x == k) l
any-sort-distinct_from k l =
    let count = count_key-sort k (distinct_from [] l) ∙ count_key-distinct k l in
    ground (arith, any-count_key k (sort (distinct_from [] l)), count)
