-- ===== src/Tables/Updates.antt =====
-- Updates of several rows of a table.
use compliance_data_platform.Prelude.{
  ap, false, sym, map, filter, ℕ, ◌≤◌, ◌≡◌, ◌≢◌, refl, ◌∙◌, inl, inr, Option, none, some, List, [],
  ◌∷◌, ◌==◌, Bool-cases, Option-cases, arith, if◌then◌else◌, ==_iff, All, All-weaken, subst,
}
use compliance_data_platform.Tables.{is_key_in, Table, put, update_row, update_rows}
use compliance_data_platform.Tables.Keys.{count_key}

abbrev pub map_option : {A B : Type 0} → (A → B) → Option A → Option B
map_option f none = none
map_option f (some a) = some (f a)

pub map-map :
    {A B C : Type 0} (f : A → B) (g : B → C) (l : List A) → map g (map f l) ≡ map (λ a. g (f a)) l
map-map f g [] = refl
map-map f g (a ∷ l) = ap (λ r. g (f a) ∷ r) (map-map f g l)

pub map_option_unchanged :
    {R : Type 0} (g : R → R) → ((r : R) → g r ≡ r) → (o : Option R) → o ≡ map_option g o
map_option_unchanged g same none = refl
map_option_unchanged g same (some r) = ap some (sym (same r))

-- A group of a key that no element has is empty.
pub filter_absent :
    {A : Type 0} (key : A → ℕ) (k : ℕ) (l : List A)
    → is_key_in k (map key l) ≡ false
    → filter (λ a. key a == k) l ≡ []
unfolding is_key_in
filter_absent key k [] h = refl
filter_absent key k (a ∷ l) h = ground (arith, filter_absent key k l)

put-ne-none : {A : Type 0} (x k : ℕ) (a : A) (t : Table A) → t k ≢ none → put x a t k ≢ none
put-ne-none x k a t h e = ground (arith, h)

-- A row as the first update and then the others leave it.
updated :
    {A : Type 0} (f : ℕ → A → A) (x k : ℕ) (keys : List ℕ) (t : Table A) {a : A}
    → t x ≡ some a
    → count_key x (x ∷ keys) ≤ 1
    → (if count_key k keys == 0 then put x (f x a) t k else map_option (f k) (put x (f x a) t k))
      ≡ (if count_key k (x ∷ keys) == 0 then t k else map_option (f k) (t k))
updated f x k keys t {a} found once = elim (Bool-cases (x == k)) [
  | inl same ↦
      let e : x ≡ k = (==_iff x k).0 same in
      subst
        (λ n.
          (if count_key n keys == 0
            then put x (f x a) t n
            else map_option (f n) (put x (f x a) t n))
          ≡ (if count_key n (x ∷ keys) == 0 then t n else map_option (f n) (t n)))
        e
        (let none_left : count_key x keys ≡ 0 = ground arith in
          rw (none_left, found) (ground arith))
  | inr other ↦ ground arith
]

-- Updates of distinct rows that are there succeed, and change each of these rows by its update.
pub update_rows_lem :
    {A : Type 0} (f : ℕ → A → A) (keys : List ℕ) (t : Table A)
    → ((k : ℕ) → count_key k keys ≤ 1)
    → All (λ k. t k ≢ none) keys
    → (t' : Table A) × (update_rows f keys t ≡ some t')
      × ((k : ℕ) → t' k ≡ (if count_key k keys == 0 then t k else map_option (f k) (t k)))
unfolding update_rows update_row
update_rows_lem f [] t once there = (t, refl, λ k. refl)
update_rows_lem f (x ∷ keys) t once (here, there) = elim (Option-cases (t x)) [
  | inl missing ↦ absurd (here missing)
  | inr (a, found) ↦
      let t1 = put x (f x a) t in
      let (t', done, at) =
        update_rows_lem f keys t1 (λ k. omega (arith, once k))
          (All-weaken (λ k. t k ≢ none) (λ k. t1 k ≢ none) (λ k h. put-ne-none x k (f x a) t h) keys
            there) in
      (t', rw (found, update_row) done, λ k. at k ∙ updated f x k keys t found (once x))
]
