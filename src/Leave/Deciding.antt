-- ===== src/Leave/Deciding.antt =====
-- Who decides on a leave request, and how often.
use erp_fashion_api.Common.{
  ℕ, ◌≡◌, refl, sym, inl, inr, Bool, ◌&&◌, Bool-cases, Option-cases, none, some, List, [], ◌∷◌,
  ◌++◌, ◌==◌, arith, All, All-append, ok, run, run_inv,
}
use erp_fashion_api.Leave.{
  LeaveRequest, LeaveRequestStatus, Employee, LeaveType, CreateLeaveRequest, Store, Decision,
  approve, reject, is_own, find_request, find_employee, find_requester, find_leave_type,
  save_request, new_request, decided, cancelled_request, apply_create, apply_transition, transition,
  apply_cancel, cancel,
}

-- What a request of a status records: a decided one names its decider, who is not its employee.
abbrev pub IsProperAt : List Employee → LeaveRequestStatus → LeaveRequest → Type 0
IsProperAt employees LeaveRequestStatus.pending r =
    (r.approved_by_user_id ≡ none) × (r.rejected_by_user_id ≡ none)
IsProperAt employees LeaveRequestStatus.approved r =
    (a : ℕ) × (r.approved_by_user_id ≡ some a)
    × (r.rejected_by_user_id ≡ none)
    × (is_own a (find_employee r.employee_id employees) ≡ Bool.false)
IsProperAt employees LeaveRequestStatus.rejected r =
    (a : ℕ) × (r.rejected_by_user_id ≡ some a)
    × (r.approved_by_user_id ≡ none)
    × (is_own a (find_employee r.employee_id employees) ≡ Bool.false)
IsProperAt employees LeaveRequestStatus.cancelled r =
    (r.approved_by_user_id ≡ none) × (r.rejected_by_user_id ≡ none)

abbrev pub IsProper : List Employee → LeaveRequest → Type 0
IsProper employees r = IsProperAt employees r.status r

abbrev pub empty : Store
empty = record { requests = []; next_id = 0 }

-- The stores that requests to create, approve, reject and cancel lead to, served or refused.
pub data Reach (employees : List Employee) (types : List LeaveType) : Store → Type 0 where
  start : Reach employees types empty
  created :
      {s : Store} (actor company : ℕ) (dto : CreateLeaveRequest) (own_only : Bool)
      → Reach employees types s
      → Reach employees types (run (apply_create employees types actor company dto own_only) s).1
  decided_on :
      {s : Store} (id actor company : ℕ) (decision : Decision) (now : ℕ)
      → Reach employees types s
      → Reach employees types (transition employees id actor company decision now s).1
  cancelled :
      {s : Store} (id actor company now : ℕ)
      → Reach employees types s
      → Reach employees types (cancel employees id actor company now s).1

module _ (P : LeaveRequest → Type 0) where
  find_request-All :
      (id company : ℕ) (rs : List LeaveRequest) {r : LeaveRequest}
      → All P rs
      → find_request id company rs ≡ some r
      → P r
  unfolding find_request
  find_request-All id company [] h found = absurd (ground arith)
  find_request-All id company (x ∷ rs) {r} h found =
      elim (Bool-cases (id == x.id && company == x.company_id)) [
        | inl here ↦ let itself : x ≡ r = ground arith in rw (sym itself) h.0
        | inr there ↦ find_request-All id company rs {r = r} h.1 (ground arith)
      ]

  save_request-All :
      (r : LeaveRequest) (rs : List LeaveRequest) → P r → All P rs → All P (save_request r rs)
  unfolding save_request
  save_request-All r [] p h = tt
  save_request-All r (x ∷ rs) p h = elim (Bool-cases (r.id == x.id)) [
    | inl here ↦ rw here (p, h.1)
    | inr there ↦ rw there (h.0, save_request-All r rs p h.1)
  ]

module _ (employees : List Employee) where
  decided-IsProper :
      (decision : Decision) (actor now : ℕ) (r : LeaveRequest)
      → is_own actor (find_employee r.employee_id employees) ≡ Bool.false
      → IsProper employees (decided decision actor now r)
  decided-IsProper approve actor now r other = (actor, refl, refl, other)
  decided-IsProper reject actor now r other = (actor, refl, refl, other)

  apply_transition-IsProper :
      (id actor company : ℕ) (decision : Decision) (now : ℕ) (s : Store) (r : LeaveRequest)
      (s' : Store)
      → apply_transition employees id actor company decision now s ≡ ok (r, s')
      → All (IsProper employees) s.requests
      → All (IsProper employees) s'.requests
  unfolding apply_transition
  apply_transition-IsProper id actor company decision now s r s' h proper =
      elim (Option-cases (find_request id company s.requests)) [
        | inl absent ↦ absurd (ground arith)
        | inr (entity, found) ↦
            let other : is_own actor (find_employee entity.employee_id employees) ≡ Bool.false =
              ground arith in
            let same : save_request (decided decision actor now entity) s.requests ≡ s'.requests =
              ground arith in
            rw (sym same) (
              save_request-All (IsProper employees) (decided decision actor now entity) s.requests
                (decided-IsProper decision actor now entity other) proper)
      ]

  IsProperAt-pending :
      (r : LeaveRequest) (status : LeaveRequestStatus)
      → status ≡ LeaveRequestStatus.pending
      → IsProperAt employees status r
      → (r.approved_by_user_id ≡ none) × (r.rejected_by_user_id ≡ none)
  IsProperAt-pending r LeaveRequestStatus.pending e h = h
  IsProperAt-pending r LeaveRequestStatus.approved e h = absurd (cc e)
  IsProperAt-pending r LeaveRequestStatus.rejected e h = absurd (cc e)
  IsProperAt-pending r LeaveRequestStatus.cancelled e h = h

  apply_cancel-IsProper :
      (id actor company now : ℕ) (s : Store) (r : LeaveRequest) (s' : Store)
      → apply_cancel employees id actor company now s ≡ ok (r, s')
      → All (IsProper employees) s.requests
      → All (IsProper employees) s'.requests
  unfolding apply_cancel
  apply_cancel-IsProper id actor company now s r s' h proper =
      elim (Option-cases (find_request id company s.requests)) [
        | inl absent ↦ absurd (ground arith)
        | inr (entity, found) ↦
            let pending_now : entity.status ≡ LeaveRequestStatus.pending = ground arith in
            let before =
              IsProperAt-pending entity entity.status pending_now
                (find_request-All (IsProper employees) id company s.requests proper found) in
            let same : save_request (cancelled_request now entity) s.requests ≡ s'.requests =
              ground arith in
            rw (sym same) (
              save_request-All (IsProper employees) (cancelled_request now entity) s.requests before
                proper)
      ]

  apply_create-IsProper :
      (types : List LeaveType) (actor company : ℕ) (dto : CreateLeaveRequest) (own_only : Bool)
      (s : Store) (r : LeaveRequest) (s' : Store)
      → apply_create employees types actor company dto own_only s ≡ ok (r, s')
      → All (IsProper employees) s.requests
      → All (IsProper employees) s'.requests
  unfolding apply_create
  apply_create-IsProper types actor company dto own_only s r s' h proper =
      elim (Option-cases (find_requester dto.employee_id own_only actor company employees)) [
        | inl absent ↦ absurd (ground arith)
        | inr (employee, is_employee) ↦
            elim (Option-cases (find_leave_type dto.leave_type_id employee.company_id types)) [
              | inl absent ↦ absurd (ground arith)
              | inr (leave_type, is_type) ↦
                  let same : s.requests ++ (new_request s.next_id employee leave_type dto ∷ [])
                      ≡ s'.requests =
                    ground arith in
                  rw (sym same)
                    (All-append (IsProper employees) s.requests _ proper ((refl, refl), tt))
            ]
      ]

  -- Whatever is asked, in any order: a request that is approved or rejected names the one user who
  -- did that, that user is not the employee who asked for the leave, and a request that is pending
  -- or cancelled names no decider.
  pub Reach-IsProper :
      {types : List LeaveType} {s : Store}
      → Reach employees types s
      → All (IsProper employees) s.requests
  unfolding transition cancel
  Reach-IsProper start = tt
  Reach-IsProper {types} (created {s} actor company dto own_only r) =
      run_inv (λ s. All (IsProper employees) s.requests)
        (apply_create employees types actor company dto own_only) s (Reach-IsProper r)
        (λ e s' done.
          apply_create-IsProper types actor company dto own_only s e s' done (Reach-IsProper r))
  Reach-IsProper (decided_on {s} id actor company decision now r) =
      run_inv (λ s. All (IsProper employees) s.requests)
        (apply_transition employees id actor company decision now) s (Reach-IsProper r)
        (λ e s' done.
          apply_transition-IsProper id actor company decision now s e s' done (Reach-IsProper r))
  Reach-IsProper (cancelled {s} id actor company now r) =
      run_inv (λ s. All (IsProper employees) s.requests)
        (apply_cancel employees id actor company now) s (Reach-IsProper r)
        (λ e s' done. apply_cancel-IsProper id actor company now s e s' done (Reach-IsProper r))
