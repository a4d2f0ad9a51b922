-- ===== src/Leave/Once.antt =====
-- A decision on a leave request is final.
use erp_fashion_api.Common.{
  ℕ, ◌+◌, ◌≡◌, ◌⊎◌, refl, sym, ap, ◌∙◌, inl, inr, Bool, true, false, ◌&&◌, Bool-cases, Option-cases,
  some, List, [], ◌∷◌, ◌++◌, ◌==◌, arith, ok, throw, conflict, forbidden, run, run_inv,
}
use erp_fashion_api.Leave.{
  LeaveRequest, Employee, LeaveType, CreateLeaveRequest, Store, Decision, approve, reject,
  is_pending, is_own, find_request, find_employee, find_requester, find_leave_type, save_request,
  new_request, decided, cancelled_request, apply_create, apply_transition, transition, apply_cancel,
  cancel,
}
use erp_fashion_api.Leave.Sole.{
  Later, at_once, then_created, then_decided, then_cancelled, IsSole, IsKept, IsSole-append,
  IsSole-save, IsSole-save_self, find_request-sole, find_request-finds,
}

find_request-id :
    (id company : ℕ) (e : LeaveRequest) (xs : List LeaveRequest)
    → find_request id company xs ≡ some e
    → (e.id ≡ id) × (e.company_id ≡ company)
unfolding find_request
find_request-id id company e [] found = absurd (cc found)
find_request-id id company e (x ∷ xs) found =
    elim (Bool-cases (id == x.id && company == x.company_id)) [
      | inl here ↦
          let itself : x ≡ e = ground arith in
          let same : x.id ≡ id = ground arith in
          let same' : x.company_id ≡ company = ground arith in
          (
            ap (λ (y : LeaveRequest). y.id) (sym itself) ∙ same,
            ap (λ (y : LeaveRequest). y.company_id) (sym itself) ∙ same',
          )
      | inr further ↦ find_request-id id company e xs (ground arith)
    ]

decided-id :
    (decision : Decision) (actor now : ℕ) (e : LeaveRequest)
    → (decided decision actor now e).id ≡ e.id
decided-id approve actor now e = refl
decided-id reject actor now e = refl

module _ (employees : List Employee) (r : LeaveRequest)
    (settled : is_pending r.status ≡ false) where
  -- A pending request that is saved is another one.
  other_row :
      (id company : ℕ) (e : LeaveRequest) (xs : List LeaveRequest)
      → IsSole r xs
      → find_request id company xs ≡ some e
      → is_pending e.status ≡ true
      → (r.id == e.id) ≡ false
  other_row id company e xs sole found pending = elim (Bool-cases (r.id == e.id)) [
    | inr differs ↦ differs
    | inl same ↦
        let (own, _) = find_request-id id company e xs found in
        let it : (id == r.id) ≡ true = ground arith in
        let itself = find_request-sole id company r e xs sole found it in
        let undecided : is_pending r.status ≡ true =
          ap (λ (y : LeaveRequest). is_pending y.status) (sym itself) ∙ pending in
        absurd (cc (undecided, settled))
  ]

  saved-IsKept :
      (e e' : LeaveRequest) (s : Store)
      → e'.id ≡ e.id
      → (r.id == e.id) ≡ false
      → IsKept r s
      → IsKept r (record s { requests = save_request e' s.requests })
  saved-IsKept e e' s same other kept =
      let other' : (r.id == e'.id) ≡ false = rw same other in
      record { sole = IsSole-save r e' s.requests other' kept.sole; old = kept.old }

  apply_transition-IsKept :
      (id actor company : ℕ) (decision : Decision) (now : ℕ) (s : Store) (a : LeaveRequest)
      (s' : Store)
      → apply_transition employees id actor company decision now s ≡ ok (a, s')
      → IsKept r s
      → IsKept r s'
  unfolding apply_transition
  apply_transition-IsKept id actor company decision now s a s' h kept =
      elim (Option-cases (find_request id company s.requests)) [
        | inl absent ↦ absurd (ground arith)
        | inr (e, found) ↦
            let pending : is_pending e.status ≡ true = ground arith in
            let same : record s {
              requests = save_request (decided decision actor now e) s.requests;
            }
                ≡ s' =
              ground arith in
            rw (sym same) (
              saved-IsKept e (decided decision actor now e) s (decided-id decision actor now e)
                (other_row id company e s.requests kept.sole found pending) kept)
      ]

  apply_cancel-IsKept :
      (id actor company now : ℕ) (s : Store) (a : LeaveRequest) (s' : Store)
      → apply_cancel employees id actor company now s ≡ ok (a, s')
      → IsKept r s
      → IsKept r s'
  unfolding apply_cancel
  apply_cancel-IsKept id actor company now s a s' h kept =
      elim (Option-cases (find_request id company s.requests)) [
        | inl absent ↦ absurd (ground arith)
        | inr (e, found) ↦
            let pending : is_pending e.status ≡ true = ground arith in
            let same : record s { requests = save_request (cancelled_request now e) s.requests }
                ≡ s' =
              ground arith in
            rw (sym same) (
              saved-IsKept e (cancelled_request now e) s refl
                (other_row id company e s.requests kept.sole found pending) kept)
      ]

  module _ (types : List LeaveType) where
    apply_create-IsKept :
        (actor company : ℕ) (dto : CreateLeaveRequest) (own_only : Bool) (s : Store)
        (a : LeaveRequest) (s' : Store)
        → apply_create employees types actor company dto own_only s ≡ ok (a, s')
        → IsKept r s
        → IsKept r s'
    unfolding apply_create
    apply_create-IsKept actor company dto own_only s a s' h kept =
        elim (Option-cases (find_requester dto.employee_id own_only actor company employees)) [
          | inl absent ↦ absurd (ground arith)
          | inr (employee, is_employee) ↦
              elim (Option-cases (find_leave_type dto.leave_type_id employee.company_id types)) [
                | inl absent ↦ absurd (ground arith)
                | inr (leave_type, is_type) ↦
                    let p = new_request s.next_id employee leave_type dto in
                    let same : record s {
                      requests = s.requests ++ (p ∷ []);
                      next_id = s.next_id + 1;
                    }
                        ≡ s' =
                      ground arith in
                    let old = kept.old in
                    let other : (r.id == s.next_id) ≡ false = ground arith in
                    rw (sym same) (record {
                      sole = IsSole-append r p s.requests other kept.sole;
                      old = omega (arith, old);
                    })
              ]
        ]

    Later-IsKept : {s t : Store} → IsKept r s → Later employees types s t → IsKept r t
    unfolding transition cancel
    Later-IsKept kept at_once = kept
    Later-IsKept kept (then_created {t} actor company dto own_only l) =
        run_inv (IsKept r) (apply_create employees types actor company dto own_only) t
          (Later-IsKept kept l)
          λ a s' done.
            apply_create-IsKept actor company dto own_only t a s' done (Later-IsKept kept l)
    Later-IsKept kept (then_decided {t} id actor company decision now l) =
        run_inv (IsKept r) (apply_transition employees id actor company decision now) t
          (Later-IsKept kept l)
          λ a s' done.
            apply_transition-IsKept id actor company decision now t a s' done (Later-IsKept kept l)
    Later-IsKept kept (then_cancelled {t} id actor company now l) =
        run_inv (IsKept r) (apply_cancel employees id actor company now) t (Later-IsKept kept l)
          λ a s' done. apply_cancel-IsKept id actor company now t a s' done (Later-IsKept kept l)

-- What a decision that goes through makes of the request that it finds.
decision_made :
    (employees : List Employee) (id actor company : ℕ) (decision : Decision) (now : ℕ)
    (s s' : Store) (e r : LeaveRequest)
    → find_request id company s.requests ≡ some e
    → transition employees id actor company decision now s ≡ (ok r, s')
    → (decided decision actor now e ≡ r)
      × (record s { requests = save_request (decided decision actor now e) s.requests } ≡ s')
unfolding transition run apply_transition
decision_made employees id actor company decision now s s' e r found h =
    (ground arith, ground arith)

decision_settles :
    (decision : Decision) (actor now : ℕ) (e : LeaveRequest)
    → is_pending (decided decision actor now e).status ≡ false
decision_settles approve actor now e = refl
decision_settles reject actor now e = refl

decided-company :
    (decision : Decision) (actor now : ℕ) (e : LeaveRequest)
    → (decided decision actor now e).company_id ≡ e.company_id
decided-company approve actor now e = refl
decided-company reject actor now e = refl

-- Where the id of a request occurs once and is older than the next one: a decision on it that goes
-- through is final. Whatever is created, decided or cancelled afterwards, by anyone, the request stays
-- exactly as it was decided, and every further decision on it and every cancellation is refused, as forbidden or as a
-- conflict, and changes nothing.
pub decided_once :
    (employees : List Employee) (types : List LeaveType) (id actor company : ℕ)
    (decision : Decision) (now : ℕ) (s s' t : Store) (e r : LeaveRequest)
    → find_request id company s.requests ≡ some e
    → IsKept e s
    → transition employees id actor company decision now s ≡ (ok r, s')
    → Later employees types s' t
    → (find_request id company t.requests ≡ some r)
      × ((other : ℕ) (again : Decision) (time : ℕ)
          → (transition employees id other company again time t ≡ (throw forbidden, t))
            ⊎ (transition employees id other company again time t ≡ (throw conflict, t)))
      × ((other time : ℕ)
          → (cancel employees id other company time t ≡ (throw forbidden, t))
            ⊎ (cancel employees id other company time t ≡ (throw conflict, t)))
unfolding transition cancel run apply_transition apply_cancel
decided_once employees types id actor company decision now s s' t e r found kept h later =
    let (own_id, own_company) = find_request-id id company e s.requests found in
    let (made, written) = decision_made employees id actor company decision now s s' e r found h in
    let saved = decided decision actor now e in
    let saved_kept : IsKept saved s' = rw (sym written) (record {
      sole = IsSole-save_self e saved s.requests (decided-id decision actor now e) kept.sole;
      old = rw (decided-id decision actor now e) kept.old;
    }) in
    let settled : is_pending r.status ≡ false =
      rw (sym made) (decision_settles decision actor now e) in
    let r_kept : IsKept r s' = rw (sym made) saved_kept in
    let there = Later-IsKept employees r settled types r_kept later in
    let r_id : r.id ≡ id = rw (sym made) (decided-id decision actor now e ∙ own_id) in
    let r_company : r.company_id ≡ company =
      rw (sym made) (decided-company decision actor now e ∙ own_company) in
    let still : find_request id company t.requests ≡ some r =
      rw (sym r_id, sym r_company) (find_request-finds r t.requests there.sole) in
    (
      still,
      λ other again time. elim (Bool-cases (is_own other (find_employee r.employee_id employees))) [
        | inl own ↦ inl (rw (still, own) refl)
        | inr foreign ↦ inr (rw (still, foreign, settled) refl)
      ],
      λ other time. elim (Bool-cases (is_own other (find_employee r.employee_id employees))) [
        | inl own ↦ inr (rw (still, own, settled) refl)
        | inr foreign ↦ inl (rw (still, foreign) refl)
      ],
    )
