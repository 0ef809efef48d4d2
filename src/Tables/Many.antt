-- ===== src/Tables/Many.antt =====
-- Updates of several rows, some of which may not be there.
use compliance_data_platform.Prelude.{
  ℕ, ◌≡◌, ◌≤◌, refl, sym, ap, ◌∙◌, inl, inr, false, List, [], ◌∷◌, ◌==◌, map, Bool-cases,
  Option-cases, arith, if◌then◌else◌, ==_iff, ==_refl, subst,
}
use compliance_data_platform.Tables.{Table, put, update_many, update_each, object_keys, is_key_in}
use compliance_data_platform.Tables.Keys.{count_key, count_key-object_keys}
use compliance_data_platform.Tables.Updates.{map_option, map_option_unchanged}

update_many_at :
    {A : Type 0} (x k : ℕ) (f : A → A) (t : Table A)
    → update_many x f t k ≡ (if x == k then map_option f (t k) else t k)
unfolding update_many
update_many_at x k f t = elim (Option-cases (t x)) [
  | inl e ↦
      rw (e, update_many)
        (elim (Bool-cases (x == k)) [
          | inl same ↦
              rw same (subst (λ n. t n ≡ map_option f (t n)) ((==_iff x k).0 same) (rw e refl))
          | inr other ↦ rw other refl
        ])
  | inr (a, e) ↦
      rw (e, update_many)
        (elim (Bool-cases (x == k)) [
          | inl same ↦
              subst (λ n. put x (f a) t n ≡ (if x == n then map_option f (t n) else t n))
                ((==_iff x k).0 same) (ground (arith, ==_refl x, e))
          | inr other ↦ ground (arith, other)
        ])
]

many_then :
    {A : Type 0} (f : ℕ → A → A) (x k : ℕ) (keys : List ℕ) (t : Table A)
    → count_key k (x ∷ keys) ≤ 1
    → (if count_key k keys == 0
        then update_many x (f x) t k
        else map_option (f k) (update_many x (f x) t k))
      ≡ (if count_key k (x ∷ keys) == 0 then t k else map_option (f k) (t k))
many_then f x k keys t once = elim (Bool-cases (x == k)) [
  | inl same ↦
      let none_left : count_key k keys ≡ 0 = ground arith in
      let at : update_many x (f x) t k ≡ map_option (f k) (t k) =
        update_many_at x k (f x) t
        ∙ rw same (
            subst (λ n. map_option (f n) (t k) ≡ map_option (f k) (t k)) (sym ((==_iff x k).0 same))
              refl) in
      rw (none_left, same) at
  | inr other ↦
      let at : update_many x (f x) t k ≡ t k = update_many_at x k (f x) t ∙ rw other refl in
      let same_count : count_key k keys ≡ count_key k (x ∷ keys) = ground (arith, other) in
      rw at (ap (λ n. if n == 0 then t k else map_option (f k) (t k)) same_count)
]

-- Updates of distinct rows change each row that is there by its update, and no other.
pub update_each_lem :
    {A : Type 0} (f : ℕ → A → A) (keys : List ℕ) (t : Table A) (k : ℕ)
    → count_key k keys ≤ 1
    → update_each f keys t k ≡ (if count_key k keys == 0 then t k else map_option (f k) (t k))
unfolding update_each
update_each_lem f [] t k once = refl
update_each_lem f (x ∷ keys) t k once =
    update_each_lem f keys (update_many x (f x) t) k (ground arith) ∙ many_then f x k keys t once

-- Updates of the rows of all the groups of a list change each row that is there by its group.
pub update_each-object_keys :
    {A R : Type 0} (key : A → ℕ) (logs : List A) (f : ℕ → R → R)
    → ((k : ℕ) → is_key_in k (map key logs) ≡ false → (r : R) → f k r ≡ r)
    → (t : Table R) (k : ℕ)
    → update_each f (object_keys (map key logs)) t k ≡ map_option (f k) (t k)
update_each-object_keys key logs f kept t k =
    let keys = object_keys (map key logs) in
    let at = update_each_lem f keys t k (ground (arith, count_key-object_keys k (map key logs))) in
    elim (Bool-cases (is_key_in k (map key logs))) [
      | inl e ↦ at ∙ rw (count_key-object_keys k (map key logs), e) refl
      | inr e ↦
          at
          ∙ rw (count_key-object_keys k (map key logs), e)
              (map_option_unchanged (f k) (kept k e) (t k))
    ]
