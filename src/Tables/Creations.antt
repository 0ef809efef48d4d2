-- ===== src/Tables/Creations.antt =====
-- Creation of several rows at once.
use compliance_data_platform.Prelude.{
  ℕ, ◌≡◌, ◌≤◌, refl, ◌∙◌, inl, inr, none, some, List, [], ◌∷◌, ◌==◌, map, Bool-cases, arith, All,
}
use compliance_data_platform.Tables.{Table, put, create_rows, lookup, or_else}
use compliance_data_platform.Tables.Keys.{count_key}

lookup-none :
    {A : Type 0} (k : ℕ) (rows : List (ℕ × A))
    → count_key k (map (λ r. r.0) rows) ≡ 0
    → lookup k rows ≡ none
unfolding lookup
lookup-none k [] h = refl
lookup-none k ((x, a) ∷ rows) h = ground (arith, lookup-none k rows)

still_free :
    {A : Type 0} (x : ℕ) (a : A) (t : Table A) (rows : List (ℕ × A))
    → count_key x (map (λ r. r.0) rows) ≡ 0
    → All (λ r. t r.0 ≡ none) rows
    → All (λ r. put x a t r.0 ≡ none) rows
still_free x a t [] h free = tt
still_free x a t ((k, b) ∷ rows) h (here, free) =
    (ground arith, still_free x a t rows (ground arith) free)

-- Rows with distinct keys that are not taken are all created, and no other row changes.
pub create_rows_lem :
    {A : Type 0} (rows : List (ℕ × A)) (t : Table A)
    → ((k : ℕ) → count_key k (map (λ r. r.0) rows) ≤ 1)
    → All (λ r. t r.0 ≡ none) rows
    → (t' : Table A) × (create_rows rows t ≡ some t')
      × ((k : ℕ) → t' k ≡ or_else (lookup k rows) (t k))
unfolding create_rows lookup
create_rows_lem [] t once free = (t, refl, λ k. refl)
create_rows_lem ((x, a) ∷ rows) t once (here, free) =
    let left : count_key x (map (λ r. r.0) rows) ≡ 0 = ground (arith, once x) in
    let (t', done, at) =
      create_rows_lem rows (put x a t) (λ k. ground (arith, once k))
        (still_free x a t rows left free) in
    (t', rw (here, create_rows) done, λ k. at k ∙ created x a rows t k (once k))
  where
    created :
        {A : Type 0} (x : ℕ) (a : A) (rows : List (ℕ × A)) (t : Table A) (k : ℕ)
        → count_key k (map (λ r. r.0) ((x, a) ∷ rows)) ≤ 1
        → or_else (lookup k rows) (put x a t k) ≡ or_else (lookup k ((x, a) ∷ rows)) (t k)
    created x a rows t k once = elim (Bool-cases (x == k)) [
      | inl same ↦
          let left : count_key k (map (λ r. r.0) rows) ≡ 0 = ground arith in
          rw (lookup-none k rows left) (ground arith)
      | inr other ↦ ground arith
    ]
