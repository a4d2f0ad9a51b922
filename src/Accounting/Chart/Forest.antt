-- ===== src/Accounting/Chart/Forest.antt =====
-- The hierarchy of the accounts (src/modules/accounting/services/accounts.service.ts).
use mathlib.Core.Path.{subst}
use erp_fashion_api.Common.{
  ℕ, zero, suc, ◌≡◌, ◌⊎◌, refl, sym, ◌∙◌, false, Bool-cases, Option, Option-cases, none, some, List,
  [], ◌∷◌, ◌==◌, ==_iff, ==_refl, if◌then◌else◌, inl, inr, row, row_of_find, IsKeyed, find_row-key,
  update_row, Result-cases, ok, throw_if, validation_error, >>=-eq-ok, arith,
}
use erp_fashion_api.Accounting.Chart.{
  Account, Chart, UpdateAccount, account_key, find_chart_account, parent_of, walk, count_accounts,
  new_parent, updated_account, update_account, assert_valid_parent, assert_no_cycle,
}

-- The way from an account up its parents comes to an end.
pub data EndsAbove (accounts : List Account) : ℕ → Type 0 where
  top : {id : ℕ} → parent_of id accounts ≡ none → EndsAbove accounts id
  below :
      {id : ℕ} (parent : ℕ)
      → parent_of id accounts ≡ some parent
      → EndsAbove accounts parent
      → EndsAbove accounts id

-- No account is among its own ancestors.
abbrev pub IsForest : List Account → Type 0
IsForest accounts = (id : ℕ) → EndsAbove accounts id

-- A save changes the parent of its account, and of no other.
parent_of-save :
    (a : Account) (accounts : List Account) (old : Account) (x : ℕ)
    → row account_key a.id accounts ≡ some old
    → parent_of x (update_row account_key a.id (λ _. a) accounts)
      ≡ (if x == a.id then a.parent_id else parent_of x accounts)
unfolding update_row
parent_of-save a [] old x h = cc
parent_of-save a (y ∷ accounts) old x h = ground (arith, parent_of-save a accounts old x)

module _ (id : ℕ) (old new : List Account)
    (same : (x : ℕ) → x == id ≡ false → parent_of x new ≡ parent_of x old) where
  -- A walk that has not met the account is the same in the new table.
  walk-EndsAbove :
      (steps current : ℕ) → walk steps id (some current) old ≡ ok tt → EndsAbove new current
  unfolding walk
  walk-EndsAbove zero current h = absurd (cc h)
  walk-EndsAbove (suc steps) current h = elim (Bool-cases (current == id)) [
    | inl e ↦ absurd (ground arith)
    | inr e ↦
        let h' : walk steps id (parent_of current old) old ≡ ok tt = rw e at h in
        elim (Option-cases (parent_of current old)) [
          | inl at_top ↦ top (same current e ∙ at_top)
          | inr (parent, above) ↦
              below parent (same current e ∙ above) (walk-EndsAbove steps parent (rw above at h'))
        ]
  ]

  -- Where the account itself still ends, all others do.
  others-EndsAbove : EndsAbove new id → (x : ℕ) → EndsAbove old x → EndsAbove new x
  others-EndsAbove own x (top h) = elim (Bool-cases (x == id)) [
    | inl e ↦ subst (EndsAbove new) (sym ((==_iff x id).0 e)) own
    | inr e ↦ top (same x e ∙ h)
  ]
  others-EndsAbove own x (below parent h r) = elim (Bool-cases (x == id)) [
    | inl e ↦ subst (EndsAbove new) (sym ((==_iff x id).0 e)) own
    | inr e ↦ below parent (same x e ∙ h) (others-EndsAbove own parent r)
  ]

same-EndsAbove :
    (old new : List Account)
    → ((x : ℕ) → parent_of x new ≡ parent_of x old)
    → (x : ℕ) → EndsAbove old x
    → EndsAbove new x
same-EndsAbove old new same x (top h) = top (same x ∙ h)
same-EndsAbove old new same x (below parent h r) =
    below parent (same x ∙ h) (same-EndsAbove old new same parent r)

module _ (id company : ℕ) (accounts : List Account) (account saved : Account) (parent : Option ℕ)
    (there : row account_key id accounts ≡ some account) (same_id : saved.id ≡ id)
    (same_parent : saved.parent_id ≡ parent) where
  abbrev after : List Account
  after = update_row account_key saved.id (λ _. saved) accounts

  parents : (x : ℕ) → parent_of x after ≡ (if x == id then parent else parent_of x accounts)
  parents x =
      let there' : row account_key saved.id accounts ≡ some account = rw same_id there in
      parent_of-save saved accounts account x there' ∙ rw (same_id, same_parent) refl

  others_same : (x : ℕ) → x == id ≡ false → parent_of x after ≡ parent_of x accounts
  others_same x e = parents x ∙ rw e refl

  own_parent : parent_of id after ≡ parent
  own_parent = parents id ∙ rw (==_refl id) refl

  all_same : parent_of id accounts ≡ parent → (x : ℕ) → parent_of x after ≡ parent_of x accounts
  all_same e x = elim (Bool-cases (x == id)) [
    | inl at ↦
        subst (λ y. parent_of y after ≡ parent_of y accounts) (sym ((==_iff x id).0 at))
          (own_parent ∙ sym e)
    | inr e' ↦ others_same x e'
  ]

  -- Whatever the request says of the parent, the account still ends above.
  own-EndsAbove :
      (wanted : Option (Option ℕ))
      → new_parent id company wanted account accounts ≡ ok parent
      → IsForest accounts
      → EndsAbove after id
  unfolding new_parent
  own-EndsAbove none h forest =
      let e : account.parent_id ≡ parent = cc in
      same-EndsAbove accounts after (all_same (rw (there, parent_of) e)) id (forest id)
  own-EndsAbove (some none) h forest = top (own_parent ∙ cc)
  own-EndsAbove (some (some p)) h forest =
      let (_, _, h1) = >>=-eq-ok (throw_if (p == id) validation_error) _ h in
      let (_, _, h2) = >>=-eq-ok (assert_valid_parent p company accounts) _ h1 in
      let (u, walked, h3) = >>=-eq-ok (assert_no_cycle id p company accounts) _ h2 in
      below p (own_parent ∙ cc)
        (walk-EndsAbove id accounts after others_same (count_accounts company accounts) p walked)

-- An update of an account, beside which nothing else runs, keeps the hierarchy free of cycles: from
-- every account the way up its parents comes to an end, whatever parent is asked for.
pub update_account-IsForest :
    (id company : ℕ) (dto : UpdateAccount) (s : Chart)
    → IsKeyed account_key s.accounts
    → IsForest s.accounts
    → IsForest (update_account id company dto (λ c. c) s).1.accounts
unfolding update_account
update_account-IsForest id company dto s keyed forest =
    elim (Option-cases (find_chart_account id company s.accounts)) [
      | inl e ↦ rw e forest
      | inr (account, e) ↦
          let (same, _) =
            find_row-key account_key (λ a. company == a.company_id) id s.accounts account e in
          elim (Result-cases (new_parent id company dto.parent_id account s.accounts)) [
            | inr (c, bad) ↦ rw (e, bad) forest
            | inl (parent, good) ↦
                let there =
                  row_of_find account_key (λ a. company == a.company_id) id s.accounts account keyed
                    e in
                let saved = updated_account dto parent account in
                rw (e, good)
                  (λ x.
                    others-EndsAbove id s.accounts
                      (after id company s.accounts account saved parent there same refl)
                      (others_same id company s.accounts account saved parent there same refl)
                      (own-EndsAbove id company s.accounts account saved parent there same refl
                        dto.parent_id good forest)
                      x (forest x))
          ]
    ]

row-save_other :
    (a : Account) (accounts : List Account) (x : ℕ)
    → x == a.id ≡ false
    → row account_key x (update_row account_key a.id (λ _. a) accounts) ≡ row account_key x accounts
unfolding update_row
row-save_other a [] x h = refl
row-save_other a (y ∷ accounts) x h = ground (arith, row-save_other a accounts x h)

-- Two accounts that are each other's parent are above each other without end.
no_end :
    (accounts : List Account) (a b : ℕ)
    → parent_of a accounts ≡ some b
    → parent_of b accounts ≡ some a
    → (x : ℕ) → (x ≡ a) ⊎ (x ≡ b)
    → ¬ EndsAbove accounts x
no_end accounts a b up down x (inl e) (top h) = cc
no_end accounts a b up down x (inr e) (top h) = cc
no_end accounts a b up down x (inl e) (below parent h r) =
    no_end accounts a b up down parent (inr cc) r
no_end accounts a b up down x (inr e) (below parent h r) =
    no_end accounts a b up down parent (inl cc) r

module _ (a b company : ℕ) (dto dto' : UpdateAccount) (s : Chart) (x y : Account)
    (keyed : IsKeyed account_key s.accounts)
    (found : find_chart_account a company s.accounts ≡ some x)
    (found' : find_chart_account b company s.accounts ≡ some y) (differ : a == b ≡ false)
    (accepted : new_parent a company dto.parent_id x s.accounts ≡ ok (some b))
    (accepted' : new_parent b company dto'.parent_id y s.accounts ≡ ok (some a)) where
  -- Two updates that each put one account below the other, and that both read before either saves,
  -- both succeed, and leave two accounts that are each other's parent: no forest.
  pub updates_may_cycle :
      ((update_account b company dto' (λ d. d) s).0 ≡ ok (updated_account dto' (some a) y))
      × ((update_account a company dto (λ c. (update_account b company dto' (λ d. d) s).1) s).0
          ≡ ok (updated_account dto (some b) x))
      × (¬ IsForest
          (update_account a company dto
            (λ c. (update_account b company dto' (λ d. d) s).1)
            s).1.accounts)
  unfolding update_account
  updates_may_cycle =
      let (same, _) =
        find_row-key account_key (λ z. company == z.company_id) a s.accounts x found in
      let (same', _) =
        find_row-key account_key (λ z. company == z.company_id) b s.accounts y found' in
      let there =
        row_of_find account_key (λ z. company == z.company_id) a s.accounts x keyed found in
      let there' =
        row_of_find account_key (λ z. company == z.company_id) b s.accounts y keyed found' in
      let saved = updated_account dto (some b) x in
      let saved' = updated_account dto' (some a) y in
      let between = after b company s.accounts y saved' (some a) there' same' refl in
      let kept : row account_key a between ≡ some x =
        row-save_other saved' s.accounts a (ground (arith, differ, same')) ∙ there in
      let up = own_parent a company between x saved (some b) kept same refl in
      let down =
        others_same a company between x saved (some b) kept same refl b (ground (arith, differ))
        ∙ own_parent b company s.accounts y saved' (some a) there' same' refl in
      (
        rw (found', accepted') refl,
        rw (found, accepted) refl,
        rw (found, accepted, found', accepted')
            (λ forest.
              no_end (after a company between x saved (some b) kept same refl) a b up down a
                (inl refl) (forest a)),
      )
