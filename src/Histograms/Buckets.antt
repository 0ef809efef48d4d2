-- ===== src/Histograms/Buckets.antt =====
-- The buckets of the weeks of src/service/histogram-helper/histogram-helper.service.ts.
use compliance_data_platform.Prelude.{
  ℕ, zero, suc, ◌+◌, ◌-◌, ◌<◌, ◌≡◌, refl, ap, ◌∙◌, sym, subst, Bool, true, false, not, ◌||◌, some,
  List, [], ◌∷◌, ◌++◌, map, filter, any, ltb, ◌==◌, All, arith, ==_refl, ==_iff, filter-cons_true,
  filter-cons_false, Bool-cases, inl, inr,
}
use compliance_data_platform.Numbers.{ℤ, pos}
use compliance_data_platform.Histograms.{
  HistogramTotalDatacap, HistogramWeekResults, sum_of_counts, top_values, has_top_value,
  insert_bucket, sort_buckets, empty_bucket, fill_week,
}

-- A loop with a span above 0 ends.
pub top_values-ends :
    (fuel span min i : ℕ)
    → 0 < span
    → i < fuel
    → (values : List ℕ) × (top_values fuel (pos span) min i ≡ some values)
unfolding top_values
top_values-ends zero span min i h k = absurd (omega (arith, k))
top_values-ends (suc fuel) span min i h k = elim (Bool-cases (ltb min i)) [
  | inr done ↦ ([], rw done refl)
  | inl more ↦
      let (values, e) = top_values-ends fuel span min (i - span) h (ground (arith, more, k)) in
      (i ∷ values, rw (more, e) refl)
]

sum-append :
    (xs ys : List HistogramTotalDatacap)
    → sum_of_counts (xs ++ ys) ≡ sum_of_counts xs + sum_of_counts ys
unfolding sum_of_counts
sum-append [] ys = omega arith
sum-append (x ∷ xs) ys = omega (arith, sum-append xs ys)

sum-empty_bucket : (span : ℤ) (values : List ℕ) → sum_of_counts (map (empty_bucket span) values) ≡ 0
unfolding sum_of_counts empty_bucket
sum-empty_bucket span [] = refl
sum-empty_bucket span (v ∷ values) = omega (arith, sum-empty_bucket span values)

sum-insert_bucket :
    (b : HistogramTotalDatacap) (bs : List HistogramTotalDatacap)
    → sum_of_counts (insert_bucket b bs) ≡ b.count + sum_of_counts bs
unfolding sum_of_counts insert_bucket
sum-insert_bucket b [] = refl
sum-insert_bucket b (x ∷ xs) = ground (arith, sum-insert_bucket b xs)

sum-sort_buckets :
    (bs : List HistogramTotalDatacap) → sum_of_counts (sort_buckets bs) ≡ sum_of_counts bs
unfolding sum_of_counts sort_buckets
sum-sort_buckets [] = refl
sum-sort_buckets (b ∷ bs) =
    omega (arith, sum-insert_bucket b (sort_buckets bs), sum-sort_buckets bs)

has-insert_bucket :
    (v : ℕ) (b : HistogramTotalDatacap) (bs : List HistogramTotalDatacap)
    → has_top_value (insert_bucket b bs) v ≡ ((b.value_to_inclusive == v) || has_top_value bs v)
unfolding has_top_value insert_bucket
has-insert_bucket v b [] = refl
has-insert_bucket v b (x ∷ xs) = ground (arith, has-insert_bucket v b xs)

has-sort_buckets :
    (v : ℕ) (bs : List HistogramTotalDatacap)
    → has_top_value (sort_buckets bs) v ≡ has_top_value bs v
unfolding has_top_value sort_buckets
has-sort_buckets v [] = refl
has-sort_buckets v (b ∷ bs) =
    has-insert_bucket v b (sort_buckets bs)
    ∙ ap (λ c. (b.value_to_inclusive == v) || c) (has-sort_buckets v bs)

has-append :
    (v : ℕ) (xs ys : List HistogramTotalDatacap)
    → has_top_value (xs ++ ys) v ≡ (has_top_value xs v || has_top_value ys v)
unfolding has_top_value
has-append v [] ys = refl
has-append v (x ∷ xs) ys = ground (arith, has-append v xs ys)

-- Whether a number stands in a list.
abbrev is_in : List ℕ → ℕ → Bool
is_in values v = any (λ x. x == v) values

All-is_in :
    (P : ℕ → Type 0) (values : List ℕ) → ((v : ℕ) → is_in values v ≡ true → P v) → All P values
All-is_in P [] f = tt
All-is_in P (x ∷ xs) f = (
  f x (ground (arith, ==_refl x)),
  All-is_in P xs (λ (v : ℕ) (h : is_in xs v ≡ true). f v (ground (arith, h))),
)

is_in-filter :
    (p : ℕ → Bool) (values : List ℕ) (v : ℕ)
    → is_in values v ≡ true
    → p v ≡ true
    → is_in (filter p values) v ≡ true
is_in-filter p [] v h k = h
is_in-filter p (x ∷ xs) v h k = elim (Bool-cases (x == v)) [
  | inl e ↦
      let same : p x ≡ true = subst (λ y. p y ≡ true) (sym ((==_iff x v).0 e)) k in
      rw (filter-cons_true p x xs same, e) refl
  | inr e ↦ elim (Bool-cases (p x)) [
    | inl q ↦ rw (filter-cons_true p x xs q, e) (is_in-filter p xs v (rw e at h) k)
    | inr q ↦ rw (filter-cons_false p x xs q) (is_in-filter p xs v (rw e at h) k)
  ]
]

has-empty_bucket :
    (span : ℤ) (values : List ℕ) (v : ℕ)
    → has_top_value (map (empty_bucket span) values) v ≡ is_in values v
unfolding has_top_value empty_bucket
has-empty_bucket span [] v = refl
has-empty_bucket span (x ∷ xs) v = ap (λ b. (x == v) || b) (has-empty_bucket span xs v)

-- A week is complete for some top values when its total is the sum of its counts and it has a bucket
-- for each of the values.
abbrev pub IsComplete : List ℕ → HistogramWeekResults → Type 0
IsComplete values w =
    (w.total ≡ sum_of_counts w.results) × All (λ (v : ℕ). has_top_value w.results v ≡ true) values

filled : ℤ → HistogramWeekResults → List ℕ → HistogramWeekResults
filled span w missing = record w {
  results = sort_buckets (w.results ++ map (empty_bucket span) missing);
}

filled-total :
    (span : ℤ) (w : HistogramWeekResults) (missing : List ℕ)
    → sum_of_counts (filled span w missing).results ≡ sum_of_counts w.results
unfolding filled
filled-total span w missing = omega (
  arith,
  sum-sort_buckets (w.results ++ map (empty_bucket span) missing),
  sum-append w.results (map (empty_bucket span) missing),
  sum-empty_bucket span missing,
)

filled-has :
    (span : ℤ) (w : HistogramWeekResults) (missing : List ℕ) (v : ℕ)
    → has_top_value (filled span w missing).results v
      ≡ (has_top_value w.results v || is_in missing v)
unfolding filled
filled-has span w missing v =
    has-sort_buckets v (w.results ++ map (empty_bucket span) missing)
    ∙ has-append v w.results (map (empty_bucket span) missing)
    ∙ ap (λ b. has_top_value w.results v || b) (has-empty_bucket span missing v)

either_true : (a b : Bool) → (a ≡ false → b ≡ true) → (a || b) ≡ true
either_true true b f = refl
either_true false b f = f refl

-- A value is in the missing ones if it is not in the week.
abbrev missing_of : HistogramWeekResults → List ℕ → List ℕ
missing_of w values = filter (λ (v : ℕ). not (has_top_value w.results v)) values

is_in-missing_of :
    (w : HistogramWeekResults) (values : List ℕ) (v : ℕ)
    → is_in values v ≡ true
    → (has_top_value w.results v || is_in (missing_of w values) v) ≡ true
is_in-missing_of w values v h =
    either_true (has_top_value w.results v) (is_in (missing_of w values) v)
      (λ (e : has_top_value w.results v ≡ false).
        is_in-filter (λ (x : ℕ). not (has_top_value w.results x)) values v h (ap not e))

pub fill_week-IsComplete :
    (span : ℤ) (values : List ℕ) (w : HistogramWeekResults)
    → w.total ≡ sum_of_counts w.results
    → IsComplete values (fill_week span values w)
unfolding fill_week filled
fill_week-IsComplete span values w h =
    go (missing_of w values) (λ (v : ℕ) (k : is_in values v ≡ true). is_in-missing_of w values v k)
  where
    go :
        (missing : List ℕ)
        → ((v : ℕ) → is_in values v ≡ true → (has_top_value w.results v || is_in missing v) ≡ true)
        → IsComplete values (elim missing [
          | [] ↦ w
          | v ∷ missing ↦ record w {
            results = sort_buckets (w.results ++ map (empty_bucket span) (v ∷ missing));
          }
        ])
    go [] f = (h, All-is_in _ values (λ (v : ℕ) (k : is_in values v ≡ true). ground (arith, f v k)))
    go (m ∷ missing) f = (
      h ∙ sym (filled-total span w (m ∷ missing)),
      All-is_in _ values
          (λ (v : ℕ) (k : is_in values v ≡ true). filled-has span w (m ∷ missing) v ∙ f v k),
    )
