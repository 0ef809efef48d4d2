-- ===== src/Tables.antt =====
-- Rows by key, the keys of the objects that lodash's `groupBy` gives, and updates of one row after the
-- other. `Object.entries` has the keys that are array indices first, ascending, then the others in the
-- order of their first assignment.
pub mod Keys
pub mod Ascending
pub mod Updates
pub mod Creations
pub mod Many
use compliance_data_platform.Prelude.{
  ℕ, ◌-◌, ◌^◌, Bool, true, false, not, Option, none, some, List, [], ◌∷◌, ◌++◌, ◌==◌, ltb, any,
  filter, map, ◌>>=◌, if◌then◌else◌,
}

unfoldable pub is_key_in : ℕ → List ℕ → Bool
is_key_in k l = any (λ x. x == k) l

unfoldable pub distinct_from : List ℕ → List ℕ → List ℕ
distinct_from seen [] = []
distinct_from seen (k ∷ ks) = elim (is_key_in k seen) [
  | true ↦ distinct_from seen ks
  | false ↦ k ∷ distinct_from (k ∷ seen) ks
]

unfoldable pub insert : ℕ → List ℕ → List ℕ
insert k [] = k ∷ []
insert k (x ∷ xs) = elim (ltb x k) [ true ↦ x ∷ insert k xs | false ↦ k ∷ x ∷ xs ]

unfoldable pub sort : List ℕ → List ℕ
sort [] = []
sort (k ∷ ks) = insert k (sort ks)

abbrev pub is_array_index : ℕ → Bool
is_array_index k = ltb k (2 ^ 32 - 1)

unfoldable pub object_keys : List ℕ → List ℕ
object_keys l =
    sort (filter is_array_index (distinct_from [] l))
    ++ filter (λ k. not (is_array_index k)) (distinct_from [] l)

-- `Object.entries(groupBy(l, key))`
unfoldable pub entries : {A : Type 0} → (A → ℕ) → List A → List (ℕ × List A)
entries key l = map (λ k. (k, filter (λ x. key x == k) l)) (object_keys (map key l))

abbrev pub Table : Type 0 → Type 0
Table A = ℕ → Option A

abbrev pub put : {A : Type 0} → ℕ → A → Table A → Table A
put k a t = λ n. if n == k then some a else t n

-- `update({ data, where: { key } })`, which throws if there is no such row.
unfoldable pub update_row : {A : Type 0} → ℕ → (A → A) → Table A → Option (Table A)
update_row k f t = elim (t k) [ none ↦ none | some a ↦ some (put k (f a) t) ]

unfoldable pub update_rows : {A : Type 0} → (ℕ → A → A) → List ℕ → Table A → Option (Table A)
update_rows f [] t = some t
update_rows f (k ∷ ks) t = do t' ← update_row k (f k) t; update_rows f ks t'

-- `updateMany({ data, where: { key } })`, which changes nothing if there is no such row.
unfoldable pub update_many : {A : Type 0} → ℕ → (A → A) → Table A → Table A
update_many k f t = elim (t k) [ none ↦ t | some a ↦ put k (f a) t ]

unfoldable pub update_each : {A : Type 0} → (ℕ → A → A) → List ℕ → Table A → Table A
update_each f [] t = t
update_each f (k ∷ ks) t = update_each f ks (update_many k (f k) t)

-- The row of a list with the key, if there is one.
unfoldable pub lookup : {A : Type 0} → ℕ → List (ℕ × A) → Option A
lookup k [] = none
lookup k ((x, a) ∷ rows) = if x == k then some a else lookup k rows

abbrev pub or_else : {A : Type 0} → Option A → Option A → Option A
or_else none o = o
or_else (some a) o = some a

-- `createMany({ data })`, which throws if a key is taken.
unfoldable pub create_rows : {A : Type 0} → List (ℕ × A) → Table A → Option (Table A)
create_rows [] t = some t
create_rows ((k, a) ∷ rows) t = elim (t k) [ none ↦ create_rows rows (put k a t) | some _ ↦ none ]

-- A list of operations unless there are no logs for it.
abbrev pub unless_empty : {A B : Type 0} → List A → List B → List B
unless_empty [] operations = []
unless_empty (x ∷ xs) operations = operations

-- `logs.filter(…).filter(…)`, and then the parts of the logs that pass.
unfoldable pub filter_map : {A B : Type 0} → (A → Option B) → List A → List B
filter_map f [] = []
filter_map f (x ∷ xs) = elim (f x) [ none ↦ filter_map f xs | some y ↦ y ∷ filter_map f xs ]

abbrev pub or_kept : {A : Type 0} → Option A → A → A
or_kept none a = a
or_kept (some b) a = b
