-- ===== src/Tables/Keys.antt =====
-- The keys of a grouped list.
use compliance_data_platform.Prelude.{
  ℕ, ◌+◌, ◌≡◌, refl, ap, ◌∙◌, inl, inr, Bool, true, false, not, ◌||◌, List, [], ◌∷◌, ◌++◌, ◌==◌,
  ltb, filter, Bool-cases, arith, if◌then◌else◌, ==_iff,
}
use compliance_data_platform.Tables.{
  is_key_in, distinct_from, insert, sort, object_keys, is_array_index,
}

abbrev pub count_key : ℕ → List ℕ → ℕ
count_key k [] = 0
count_key k (x ∷ xs) = (if x == k then 1 else 0) + count_key k xs

count_key-append :
    (k : ℕ) (xs ys : List ℕ) → count_key k (xs ++ ys) ≡ count_key k xs + count_key k ys
count_key-append k [] ys = omega arith
count_key-append k (x ∷ xs) ys = omega (arith, count_key-append k xs ys)

pub count_key-insert : (k x : ℕ) (l : List ℕ) → count_key k (insert x l) ≡ count_key k (x ∷ l)
unfolding insert
count_key-insert k x [] = refl
count_key-insert k x (y ∷ l) = elim (Bool-cases (ltb y x)) [
  | inl e ↦ rw (e, insert) (omega (arith, count_key-insert k x l))
  | inr e ↦ rw (e, insert) refl
]

pub count_key-sort : (k : ℕ) (l : List ℕ) → count_key k (sort l) ≡ count_key k l
unfolding sort
count_key-sort k [] = refl
count_key-sort k (x ∷ l) =
    count_key-insert k x (sort l) ∙ ap (λ n. (if x == k then 1 else 0) + n) (count_key-sort k l)

count_key-filters :
    (k : ℕ) (p : ℕ → Bool) (l : List ℕ)
    → count_key k (filter p l) + count_key k (filter (λ x. not (p x)) l) ≡ count_key k l
count_key-filters k p [] = omega arith
count_key-filters k p (x ∷ l) = ground (arith, count_key-filters k p l)

is_key_in-cons : (k x : ℕ) (l : List ℕ) → is_key_in k (x ∷ l) ≡ ((x == k) || is_key_in k l)
unfolding is_key_in
is_key_in-cons k x l = refl

is_key_in-same : (k x : ℕ) (l : List ℕ) → (x == k) ≡ true → is_key_in x l ≡ is_key_in k l
is_key_in-same k x l e = ap (λ n. is_key_in n l) ((==_iff x k).0 e)

distinct_from-old :
    (x : ℕ) (seen l : List ℕ)
    → is_key_in x seen ≡ true
    → distinct_from seen (x ∷ l) ≡ distinct_from seen l
unfolding distinct_from
distinct_from-old x seen l e = rw (e, distinct_from) refl

distinct_from-new :
    (x : ℕ) (seen l : List ℕ)
    → is_key_in x seen ≡ false
    → distinct_from seen (x ∷ l) ≡ x ∷ distinct_from (x ∷ seen) l
unfolding distinct_from
distinct_from-new x seen l e = rw (e, distinct_from) refl

pub count_key-distinct_from :
    (k : ℕ) (seen l : List ℕ)
    → count_key k (distinct_from seen l)
      ≡ (if is_key_in k seen then 0 else if is_key_in k l then 1 else 0)
count_key-distinct_from k seen [] = unfold distinct_from is_key_in in ground arith
count_key-distinct_from k seen (x ∷ l) = elim (Bool-cases (is_key_in x seen)) [
  | inl old ↦ rw (distinct_from-old x seen l old) (
      ground
        (arith, count_key-distinct_from k seen l, is_key_in-cons k x l, is_key_in-same k x seen))
  | inr new ↦ rw (distinct_from-new x seen l new) (
      ground (
        arith,
        count_key-distinct_from k (x ∷ seen) l,
        is_key_in-cons k x l,
        is_key_in-cons k x seen,
        is_key_in-same k x seen,
      ))
]

-- Every key of the list is there once, and no other.
pub count_key-object_keys :
    (k : ℕ) (l : List ℕ) → count_key k (object_keys l) ≡ (if is_key_in k l then 1 else 0)
unfolding object_keys
count_key-object_keys k l =
    let d = distinct_from [] l in
    let small = filter is_array_index d in
    let large = filter (λ x. not (is_array_index x)) d in
    let none_seen : count_key k d ≡ (if is_key_in k l then 1 else 0) =
      unfold is_key_in in count_key-distinct_from k [] l in
    omega (
      arith,
      count_key-append k (sort small) large,
      count_key-sort k small,
      count_key-filters k is_array_index d,
      none_seen,
    )
