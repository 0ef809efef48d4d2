-- ===== src/Reports/Granted.antt =====
-- The datacap granted to the clients of an allocator report: its order, and what it adds up to.
use compliance_data_platform.Prelude.{
  ℕ, zero, suc, ◌+◌, ◌≤◌, ◌≡◌, refl, ap, sym, ◌∙◌, Bool, true, false, Option, none, some, List, [],
  ◌∷◌, ◌++◌, String, str_eq, leb, arith, All, All-weaken, leb→le, ◌>>=◌, >>=-eq-some, subst,
  if◌then◌else◌,
}
use compliance_data_platform.Reports.{ClientAllowanceItem, ClientWithAllowance}
use compliance_data_platform.Reports.Applications.{
  GrantedDatacap, granted_item, granted_items, insert_granted, sort_granted, all_granted,
  get_granted_datacap_in_clients,
}

-- In ascending order of the timestamps.
abbrev pub IsSorted : List GrantedDatacap → Type 0
IsSorted [] = Unit
IsSorted (g ∷ gs) =
    All (λ (x : GrantedDatacap). g.allocation_timestamp ≤ x.allocation_timestamp) gs × IsSorted gs

-- What a client is granted in all, in a list.
abbrev pub total_granted : String → List GrantedDatacap → ℕ
total_granted id [] = 0
total_granted id (g ∷ gs) =
    (if str_eq g.address_id id then g.allocation else 0) + total_granted id gs

abbrev pub allowances : List ClientAllowanceItem → ℕ
allowances [] = 0
allowances (item ∷ items) = elim item.allowance [ none ↦ 0 | some n ↦ n ] + allowances items

abbrev pub total_allowance : String → List ClientWithAllowance → ℕ
total_allowance id [] = 0
total_allowance id (c ∷ clients) =
    (if str_eq c.address_id id
      then elim c.allowance_array [ none ↦ 0 | some items ↦ allowances items ]
      else 0)
    + total_allowance id clients

some-inj {ℓ} : {A : Type ℓ} {a b : A} → some a ≡ some b → a ≡ b
some-inj h = cc

insert_granted-All :
    (n : ℕ) (g : GrantedDatacap) (gs : List GrantedDatacap)
    → n ≤ g.allocation_timestamp
    → All (λ (x : GrantedDatacap). n ≤ x.allocation_timestamp) gs
    → All (λ (x : GrantedDatacap). n ≤ x.allocation_timestamp) (insert_granted g gs)
unfolding insert_granted
insert_granted-All n g [] h all = (h, tt)
insert_granted-All n g (x ∷ xs) h (k, all) =
    go (leb g.allocation_timestamp x.allocation_timestamp) (insert_granted-All n g xs h all)
  where
    go :
        (b : Bool)
        → All (λ (x : GrantedDatacap). n ≤ x.allocation_timestamp) (insert_granted g xs)
        → All
            (λ (x : GrantedDatacap). n ≤ x.allocation_timestamp)
            (if b then g ∷ x ∷ xs else x ∷ insert_granted g xs)
    go true rest = (h, (k, all))
    go false rest = (k, rest)

insert_granted-IsSorted :
    (g : GrantedDatacap) (gs : List GrantedDatacap) → IsSorted gs → IsSorted (insert_granted g gs)
unfolding insert_granted
insert_granted-IsSorted g [] s = (tt, tt)
insert_granted-IsSorted g (x ∷ xs) (h, s) =
    go (leb g.allocation_timestamp x.allocation_timestamp) refl (insert_granted-IsSorted g xs s)
  where
    go :
        (b : Bool)
        → leb g.allocation_timestamp x.allocation_timestamp ≡ b
        → IsSorted (insert_granted g xs)
        → IsSorted (if b then g ∷ x ∷ xs else x ∷ insert_granted g xs)
    go true e rest = (
      (
        leb→le _ _ e,
        All-weaken _ _
            (λ (y : GrantedDatacap) (k : x.allocation_timestamp ≤ y.allocation_timestamp).
              omega (arith, k, leb→le _ _ e))
            xs h,
      ),
      (h, s),
    )
    go false e rest = (insert_granted-All x.allocation_timestamp g xs (ground (arith, e)) h, rest)

sort_granted-IsSorted : (gs : List GrantedDatacap) → IsSorted (sort_granted gs)
unfolding sort_granted
sort_granted-IsSorted [] = tt
sort_granted-IsSorted (g ∷ gs) =
    insert_granted-IsSorted g (sort_granted gs) (sort_granted-IsSorted gs)

insert_granted-total :
    (id : String) (g : GrantedDatacap) (gs : List GrantedDatacap)
    → total_granted id (insert_granted g gs) ≡ total_granted id (g ∷ gs)
unfolding insert_granted
insert_granted-total id g [] = refl
insert_granted-total id g (x ∷ xs) =
    go (leb g.allocation_timestamp x.allocation_timestamp) (insert_granted-total id g xs)
  where
    go :
        (b : Bool)
        → total_granted id (insert_granted g xs) ≡ total_granted id (g ∷ xs)
        → total_granted id (if b then g ∷ x ∷ xs else x ∷ insert_granted g xs)
          ≡ total_granted id (g ∷ x ∷ xs)
    go true e = refl
    go false e = omega (arith, e)

sort_granted-total :
    (id : String) (gs : List GrantedDatacap)
    → total_granted id (sort_granted gs) ≡ total_granted id gs
unfolding sort_granted
sort_granted-total id [] = refl
sort_granted-total id (g ∷ gs) =
    insert_granted-total id g (sort_granted gs)
    ∙ ap (λ n. (if str_eq g.address_id id then g.allocation else 0) + n) (sort_granted-total id gs)

total_granted-append :
    (id : String) (xs ys : List GrantedDatacap)
    → total_granted id (xs ++ ys) ≡ total_granted id xs + total_granted id ys
total_granted-append id [] ys = omega arith
total_granted-append id (x ∷ xs) ys = omega (arith, total_granted-append id xs ys)

granted_item-total :
    (id address_id : String) (item : ClientAllowanceItem) (allowance : Option ℕ)
    → total_granted id (granted_item address_id (record item { allowance = allowance }))
      ≡ (if str_eq address_id id then elim allowance [ none ↦ 0 | some n ↦ n ] else 0)
unfolding granted_item
granted_item-total id address_id item none = ground arith
granted_item-total id address_id item (some zero) = ground arith
granted_item-total id address_id item (some (suc n)) = ground arith

granted_items-total :
    (id address_id : String) (items : List ClientAllowanceItem)
    → total_granted id (granted_items address_id items)
      ≡ (if str_eq address_id id then allowances items else 0)
unfolding granted_items
granted_items-total id address_id [] = ground arith
granted_items-total id address_id (item ∷ items) = ground (
  arith,
  total_granted-append id (granted_item address_id item) (granted_items address_id items),
  granted_item-total id address_id item item.allowance,
  granted_items-total id address_id items,
)

all_granted-total :
    (id : String) (clients : List ClientWithAllowance) (granted : List GrantedDatacap)
    → all_granted clients ≡ some granted
    → total_granted id granted ≡ total_allowance id clients
unfolding all_granted
all_granted-total id [] granted h = ap (total_granted id) (sym (some-inj h))
all_granted-total id (c ∷ clients) granted h =
    let (items, e, h1) =
      >>=-eq-some c.allowance_array
        (λ items. all_granted clients >>= (λ rest. some (granted_items c.address_id items ++ rest)))
        h in
    let (rest, f, h2) =
      >>=-eq-some (all_granted clients) (λ rest. some (granted_items c.address_id items ++ rest))
        h1 in
    let own = granted_items-total id c.address_id items in
    let others = all_granted-total id clients rest f in
    let split = total_granted-append id (granted_items c.address_id items) rest in
    ap (total_granted id) (sym (some-inj h2)) ∙ rw e (omega (arith, own, others, split))

-- The datacap that an allocator granted to its clients, when it is computed, is in the order of the
-- allocations' timestamps, and for every id adds up to the allowances of the clients with this id.
pub get_granted_datacap_in_clients-total :
    (clients : List ClientWithAllowance) (granted : List GrantedDatacap)
    → get_granted_datacap_in_clients clients ≡ some granted
    → IsSorted granted × ((id : String) → total_granted id granted ≡ total_allowance id clients)
unfolding get_granted_datacap_in_clients
get_granted_datacap_in_clients-total clients granted h =
    let (all, e, f) = >>=-eq-some (all_granted clients) (λ l. some (sort_granted l)) h in
    let same : sort_granted all ≡ granted = some-inj f in
    (
      subst IsSorted same (sort_granted-IsSorted all),
      λ (id : String).
          ap (total_granted id) (sym same)
          ∙ sort_granted-total id all
          ∙ all_granted-total id clients all e,
    )
