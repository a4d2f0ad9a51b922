-- ===== src/Sales/Table.antt =====
-- The table of sales: what a lookup by primary key finds after each way of writing a row.
use erp_fashion_api.Common.{
  Bool-cases, Option-cases, inl, inr, ◌∙◌, ℕ, ◌≡◌, refl, Bool, Option, none, some, List, [], ◌∷◌,
  ◌==◌, if◌then◌else◌, arith, ◌+◌, ◌-◌, ◌≤◌, ok, is_some,
}
use erp_fashion_api.Sales.{Sale, find_sale, save_sale, update_paid, apply_payment}

-- The row with this primary key, of whatever company, deleted or not.
abbrev pub sale_row : ℕ → List Sale → Option Sale
sale_row id [] = none
sale_row id (sale ∷ sales) = if id == sale.id then some sale else sale_row id sales

-- The ids are a primary key.
abbrev pub IsKeyed : List Sale → Type 0
IsKeyed [] = Unit
IsKeyed (sale ∷ sales) = (sale_row sale.id sales ≡ none) × IsKeyed sales

pub find_sale-id :
    (id company : ℕ) (sales : List Sale) (sale : Sale)
    → find_sale id company sales ≡ some sale
    → (sale.id ≡ id) × (sale.company_id ≡ company)
unfolding find_sale
find_sale-id id company [] sale h = cc
find_sale-id id company (x ∷ sales) sale h = ground (arith, find_sale-id id company sales sale)

-- What is found within a company is the row of the key.
pub sale_row_of_find :
    (id company : ℕ) (sales : List Sale) (sale : Sale)
    → IsKeyed sales
    → find_sale id company sales ≡ some sale
    → sale_row id sales ≡ some sale
unfolding find_sale
sale_row_of_find id company [] sale k h = cc
sale_row_of_find id company (x ∷ sales) sale k h =
    ground (arith, sale_row_of_find id company sales sale k.1, find_sale-id id company sales sale)

-- A save replaces the row of its key, and no other.
pub sale_row-save :
    (entity : Sale) (a : ℕ) (sales : List Sale) (old : Sale)
    → sale_row entity.id sales ≡ some old
    → sale_row a (save_sale entity sales)
      ≡ (if a == entity.id then some entity else sale_row a sales)
unfolding save_sale
sale_row-save entity a [] old h = cc
sale_row-save entity a (x ∷ sales) old h = ground (arith, sale_row-save entity a sales old)

-- The row with a payment applied.
abbrev pub paid_row : ℕ → ℕ → ℕ → Sale → Sale
paid_row paid balance user sale = record sale {
  paid_amount = paid;
  balance_amount = balance;
  updated_by = user;
}

pub sale_row-update_paid :
    (id paid balance user a : ℕ) (sales : List Sale) (old : Sale)
    → sale_row id sales ≡ some old
    → sale_row a (update_paid id paid balance user sales)
      ≡ (if a == id then some (paid_row paid balance user old) else sale_row a sales)
unfolding update_paid
sale_row-update_paid id paid balance user a [] old h = cc
sale_row-update_paid id paid balance user a (x ∷ sales) old h =
    ground (arith, sale_row-update_paid id paid balance user a sales old)

pub is_some-sale_row-update_paid :
    (id paid balance user a : ℕ) (sales : List Sale)
    → is_some (sale_row a (update_paid id paid balance user sales)) ≡ is_some (sale_row a sales)
unfolding update_paid
is_some-sale_row-update_paid id paid balance user a [] = refl
is_some-sale_row-update_paid id paid balance user a (x ∷ sales) =
    ground (arith, is_some-sale_row-update_paid id paid balance user a sales)

none_of_is_some : (o : Option Sale) → is_some o ≡ Bool.false → o ≡ none
none_of_is_some none h = refl
none_of_is_some (some x) h = cc

pub IsKeyed-update_paid :
    (id paid balance user : ℕ) (sales : List Sale)
    → IsKeyed sales
    → IsKeyed (update_paid id paid balance user sales)
unfolding update_paid
IsKeyed-update_paid id paid balance user [] k = tt
IsKeyed-update_paid id paid balance user (x ∷ sales) (fresh, k) = elim (Bool-cases (id == x.id)) [
  | inl e ↦ rw e (fresh, k)
  | inr e ↦ rw e (
    none_of_is_some _ (is_some-sale_row-update_paid id paid balance user x.id sales ∙ rw fresh),
    IsKeyed-update_paid id paid balance user sales k,
  )
]

-- A payment is applied exactly when it leaves no more paid than the grand total.
pub apply_payment-eq-ok :
    (id company amount user : ℕ) (sales sales' : List Sale)
    → IsKeyed sales
    → apply_payment id company amount user sales ≡ ok sales'
    → (old : Sale) × (find_sale id company sales ≡ some old)
      × (old.paid_amount + amount ≤ old.grand_total)
      × (sales'
          ≡ update_paid id
              (old.paid_amount + amount)
              (old.grand_total - (old.paid_amount + amount))
              user
              sales)
unfolding apply_payment
apply_payment-eq-ok id company amount user sales sales' k h =
    elim (Option-cases (find_sale id company sales)) [
      | inl e ↦ absurd (ground arith)
      | inr (old, e) ↦
          let (same, _) = find_sale-id id company sales old e in
          (old, e, ground arith, ground arith)
    ]
