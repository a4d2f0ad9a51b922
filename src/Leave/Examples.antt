-- ===== src/Leave/Examples.antt =====
-- Two employees; one asks for leave, the other decides.
use erp_fashion_api.Common.{
  ℕ, ◌≡◌, ◌⊎◌, refl, inl, true, some, none, [], ◌∷◌, All, ok, throw, conflict, forbidden, run,
  arith,
}
use erp_fashion_api.Leave.{
  Employee, LeaveType, LeaveRequest, CreateLeaveRequest, Store, Decision, approve, reject,
  new_request, decided, find_request, transition, cancel, apply_create, apply_transition,
}
use erp_fashion_api.Leave.Deciding.{IsProper, empty, start, created, decided_on, Reach-IsProper}
use erp_fashion_api.Leave.Once.{decided_once}
use erp_fashion_api.Leave.Sole.{IsKept, at_once, then_decided}

abbrev ann : Employee
ann = record { id = 1; user_id = some 11; company_id = 7; branch_id = 2 }

abbrev bob : Employee
bob = record { id = 2; user_id = some 12; company_id = 7; branch_id = 2 }

abbrev yearly : LeaveType
yearly = record { id = 4; company_id = 7; is_active = true }

abbrev week : CreateLeaveRequest
week = record {
  employee_id = 1;
  leave_type_id = 4;
  from_date = 20260803;
  to_date = 20260807;
  reason = none;
}

abbrev leave : LeaveRequest
leave = new_request 0 ann yearly week

abbrev waiting : Store
waiting = record { requests = leave ∷ []; next_id = 1 }

abbrev granted : Store
granted = record { requests = decided approve 12 99 leave ∷ []; next_id = 1 }

Reach-IsProper_example :
    All
      (IsProper (ann ∷ bob ∷ []))
      (transition
        (ann ∷ bob ∷ [])
        0
        12
        7
        approve
        99
        (run (apply_create (ann ∷ bob ∷ []) (yearly ∷ []) 11 7 week true) empty).1).1.requests
Reach-IsProper_example =
    Reach-IsProper (ann ∷ bob ∷ []) (decided_on 0 12 7 approve 99 (created 11 7 week true start))

leave-IsKept : IsKept leave waiting
leave-IsKept = record { sole = inl (refl, tt); old = omega arith }

is_granted :
    transition (ann ∷ bob ∷ []) 0 12 7 approve 99 waiting
    ≡ (ok (decided approve 12 99 leave), granted)
unfolding transition run apply_transition
is_granted = refl

decided_once_example :
    let t = (transition (ann ∷ bob ∷ []) 0 12 7 reject 100 granted).1 in
    (find_request 0 7 t.requests ≡ some (decided approve 12 99 leave))
    × ((other : ℕ) (again : Decision) (time : ℕ)
        → (transition (ann ∷ bob ∷ []) 0 other 7 again time t ≡ (throw forbidden, t))
          ⊎ (transition (ann ∷ bob ∷ []) 0 other 7 again time t ≡ (throw conflict, t)))
    × ((other time : ℕ)
        → (cancel (ann ∷ bob ∷ []) 0 other 7 time t ≡ (throw forbidden, t))
          ⊎ (cancel (ann ∷ bob ∷ []) 0 other 7 time t ≡ (throw conflict, t)))
unfolding find_request
decided_once_example =
    decided_once (ann ∷ bob ∷ []) (yearly ∷ []) 0 12 7 approve 99 waiting granted
      (transition (ann ∷ bob ∷ []) 0 12 7 reject 100 granted).1 leave (decided approve 12 99 leave)
      refl leave-IsKept is_granted (then_decided 0 12 7 reject 100 at_once)
