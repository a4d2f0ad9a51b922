-- ===== src/Sales/Create/Replay.antt =====
-- What the key of a checkout promises: the replay of `SalesService.create`
-- (src/modules/sales/services/sales.service.ts).
use Prim.Native.String.{String}
use text.Mathlib.TextEquality.{eq_iff}
use erp_fashion_api.Common.{
  ℕ, ◌≡◌, ◌≢◌, refl, sym, ap, true, false, Bool-cases, Option, Option-cases, none, some, List, [],
  ◌∷◌, ◌++◌, inl, inr, Result, Result-cases, ok, throw, >>=-eq-ok, settle, conflict, arith,
}
use erp_fashion_api.Sales.{Sale, Store}
use erp_fashion_api.Sales.Create.{apply_create, after_first, after_lookup, create_sale, write_sale}
use erp_fashion_api.Sales.Checks.{
  SaleCatalog, Asked, CreateSale, Creation, equals, find_by_creation_key, assert_creation_hash,
  checked_replay, find_replay, check_sale, assert_valid_sales_account,
}
use erp_fashion_api.Sales.Create.Outcome.{made, write_sale-eq-ok}

-- What the lookups of a key answer with: the sale of the key, which has the hash and is not deleted.
abbrev Found : ℕ → Creation → List Sale → Sale → Type 0
Found company c sales sale = find_replay company (some c) sales ≡ ok (some sale)

find_by_key-snoc :
    (company : ℕ) (key : String) (sales : List Sale) (sale : Sale)
    → find_by_creation_key company key sales ≡ none
    → sale.company_id ≡ company
    → sale.creation_key ≡ some key
    → find_by_creation_key company key (sales ++ (sale ∷ [])) ≡ some sale
unfolding find_by_creation_key
find_by_key-snoc company key [] sale h same own = ground (arith, eq_iff key key)
find_by_key-snoc company key (x ∷ sales) sale h same own =
    ground (arith, find_by_key-snoc company key sales sale)

-- No sale has the key where the lookup finds none.
none_of_replay :
    (company : ℕ) (c : Creation) (sales : List Sale)
    → find_replay company (some c) sales ≡ ok none
    → find_by_creation_key company c.key sales ≡ none
unfolding find_replay
none_of_replay company c sales h = elim (Option-cases (find_by_creation_key company c.key sales)) [
  | inl e ↦ e
  | inr (sale, e) ↦
      let h' : checked_replay (some sale) c.hash ≡ ok none = rw e at h in
      let (u, _, h'') = >>=-eq-ok (assert_creation_hash sale c.hash) _ h' in absurd (cc h'')
]

Found-along :
    (company : ℕ) (c : Creation) {q sale : Sale} {rows sales : List Sale}
    → q ≡ sale
    → rows ≡ sales
    → Found company c rows q
    → Found company c sales sale
Found-along company c e e' was = rw (← e, ← e') was

equals-eq : (o : Option String) (text : String) → equals o text ≡ true → o ≡ some text
equals-eq none text h = cc
equals-eq (some other) text h = ap some (sym ((eq_iff text other).0 h))

refuses :
    (x : Sale) (hash other : String) (u : Unit {0})
    → other ≢ hash
    → assert_creation_hash x hash ≡ ok u
    → checked_replay (some x) other ≡ throw conflict
refuses x hash other u different own = elim (Bool-cases (equals x.creation_hash hash)) [
  | inr e ↦ absurd (ground arith)
  | inl e ↦ elim (Bool-cases (equals x.creation_hash other)) [
    | inr e' ↦ rw e'
    | inl e' ↦
        let same = equals-eq x.creation_hash hash e in
        let same' = equals-eq x.creation_hash other e' in absurd (different cc)
  ]
]

module _ (catalog : SaleCatalog) (asked : Asked) (dto : CreateSale) (c : Creation) where
  own_sale :
      (t : Store) (sale : Sale)
      → find_by_creation_key asked.company_id c.key t.sales ≡ none
      → sale.company_id ≡ asked.company_id
      → sale.creation_key ≡ some c.key
      → sale.creation_hash ≡ some c.hash
      → sale.deleted ≡ false
      → Found asked.company_id c (t.sales ++ (sale ∷ [])) sale
  unfolding find_replay
  own_sale t sale fresh same key hash there =
      rw (find_by_key-snoc asked.company_id c.key t.sales sale fresh same key, hash, there)
        (ground (arith, eq_iff c.hash c.hash))

  write_answers :
      (t s' : Store) (sale : Sale)
      → find_replay asked.company_id (some c) t.sales ≡ ok none
      → write_sale catalog asked dto (some c) t ≡ ok (sale, s')
      → Found asked.company_id c s'.sales sale
  write_answers t s' sale fresh h =
      let (priced, used, _, _, e, e') = write_sale-eq-ok catalog asked dto (some c) t s' sale h in
      Found-along asked.company_id c e (ap (λ (z : Store). z.sales) e') (
        own_sale t (made catalog asked dto (some c) t priced used.0)
          (none_of_replay asked.company_id c t.sales fresh) refl refl refl refl)

  lookup_answers :
      (t s' : Store) (sale : Sale) (o : Option Sale)
      → find_replay asked.company_id (some c) t.sales ≡ ok o
      → after_lookup catalog asked dto (some c) t o ≡ ok (sale, s')
      → Found asked.company_id c s'.sales sale
  lookup_answers t s' sale none there h = write_answers t s' sale there h
  lookup_answers t s' sale (some x) there h =
      let e : x ≡ sale = cc in
      let e' : t.sales ≡ s'.sales = cc in Found-along asked.company_id c e e' there

  apply_answers :
      (t s' : Store) (sale : Sale)
      → apply_create catalog asked dto (some c) t ≡ ok (sale, s')
      → Found asked.company_id c s'.sales sale
  unfolding apply_create
  apply_answers t s' sale h =
      let (u, _, h1) =
        >>=-eq-ok
          (assert_valid_sales_account catalog dto.sales_account_id asked.company_id asked.user_id) _
          h in
      let (o, there, h2) = >>=-eq-ok (find_replay asked.company_id (some c) t.sales) _ h1 in
      lookup_answers t s' sale o there h2

  transaction_answers :
      (t s' : Store) (sale : Sale)
      → settle (apply_create catalog asked dto (some c) t) t ≡ (ok sale, s')
      → Found asked.company_id c s'.sales sale
  transaction_answers t s' sale h =
      elim (Result-cases (apply_create catalog asked dto (some c) t)) [
        | inr (e, failed) ↦
            let h' : ◌≡◌ {A = Result Sale × Store} (throw e, t) (ok sale, s') = rw failed at h in
            absurd (cc h')
        | inl ((q, r), done) ↦
            let h' : ◌≡◌ {A = Result Sale × Store} (ok q, r) (ok sale, s') = rw done at h in
            let e : q ≡ sale = cc in
            let e' : r ≡ s' = cc in
            Found-along asked.company_id c e (ap (λ (z : Store). z.sales) e')
              (apply_answers t r q done)
      ]

  first_answers :
      (others : Store → Store) (s s' : Store) (sale : Sale) (r : Result (Option Sale))
      → find_replay asked.company_id (some c) s.sales ≡ r
      → after_first catalog asked dto (some c) others s r ≡ (ok sale, s')
      → Found asked.company_id c s'.sales sale
  first_answers others s s' sale (throw e) there h = absurd (cc h)
  first_answers others s s' sale (ok (some x)) there h =
      let e : x ≡ sale = cc in
      let e' : s.sales ≡ s'.sales = cc in Found-along asked.company_id c e e' there
  first_answers others s s' sale (ok none) there h =
      elim (Result-cases (check_sale catalog asked.company_id dto)) [
        | inr (e, bad) ↦
            let h' : ◌≡◌ {A = Result Sale × Store} (throw e, others s) (ok sale, s') =
              rw (bad, after_first) at h in
            absurd (cc h')
        | inl (u, good) ↦
            let h' : settle (apply_create catalog asked dto (some c) (others s)) (others s)
                ≡ (ok sale, s') =
              rw (good, after_first) at h in
            transaction_answers (others s) s' sale h'
      ]

-- A lookup with another hash finds the sale and refuses it.
other_hash :
    (company : ℕ) (c : Creation) (hash : String) (sales : List Sale) (sale : Sale)
    → hash ≢ c.hash
    → Found company c sales sale
    → find_replay company (some (record { key = c.key; hash = hash })) sales ≡ throw conflict
unfolding find_replay
other_hash company c hash sales sale different found =
    elim (Option-cases (find_by_creation_key company c.key sales)) [
      | inl e ↦
          let h : ◌≡◌ {A = Result (Option Sale)} (ok none) (ok (some sale)) = rw e at found in
          absurd (cc h)
      | inr (x, e) ↦
          let h : checked_replay (some x) c.hash ≡ ok (some sale) = rw e at found in
          let (u, own, _) = >>=-eq-ok (assert_creation_hash x c.hash) _ h in
          rw e (refuses x c.hash hash u different own)
    ]

-- Once a checkout with a key has been answered with a sale, a later request of the company with that
-- key and the same hash is answered with the same sale, and one with another hash is a conflict,
-- whatever else they ask and whatever runs beside them; neither changes anything.
pub create_sale_replays :
    (catalog catalog' : SaleCatalog) (asked asked' : Asked) (dto dto' : CreateSale) (c : Creation)
    (others others' : Store → Store) (s s' : Store) (sale : Sale)
    → asked'.company_id ≡ asked.company_id
    → create_sale catalog asked dto (some c) others s ≡ (ok sale, s')
    → (create_sale catalog' asked' dto' (some c) others' s' ≡ (ok sale, s'))
      × ((hash : String)
          → hash ≢ c.hash
          → create_sale catalog' asked' dto' (some (record { key = c.key; hash = hash })) others' s'
            ≡ (throw conflict, s'))
unfolding create_sale
create_sale_replays catalog catalog' asked asked' dto dto' c others others' s s' sale same h =
    let found =
      first_answers catalog asked dto c others s s' sale
        (find_replay asked.company_id (some c) s.sales) refl h in
    (
      rw (same, found, after_first),
      λ hash different.
          rw (same, other_hash asked.company_id c hash s'.sales sale different found, after_first),
    )
