-- ===== src/Leave.antt =====
-- `LeaveRequestsService` (src/modules/hr/services/leave-requests.service.ts). Dates are numbers
-- YYYYMMDD.
pub mod Deciding
pub mod Sole
pub mod Once
mod Examples
use Prim.Native.String.{String}
use erp_fashion_api.Common.{
  ℕ, ◌+◌, Bool, true, not, ◌&&◌, Option, none, some, List, [], ◌∷◌, ◌++◌, ◌==◌, ltb, if◌then◌else◌,
  Result, ok, ◌>>=◌, ◌>>◌, throw_if, or_throw, run, validation_error, not_found, conflict,
  forbidden,
}

pub data LeaveRequestStatus : Type 0 where
  pending approved rejected cancelled : LeaveRequestStatus

pub record LeaveRequest : Type 0 where
  pub id : ℕ
  pub employee_id : ℕ
  pub company_id : ℕ
  pub branch_id : ℕ
  pub leave_type_id : ℕ
  pub from_date : ℕ
  pub to_date : ℕ
  pub reason : Option String
  pub status : LeaveRequestStatus
  pub approved_by_user_id : Option ℕ
  pub rejected_by_user_id : Option ℕ
  pub decision_at : Option ℕ
  pub cancelled_at : Option ℕ

pub record Employee : Type 0 where
  pub id : ℕ
  pub user_id : Option ℕ
  pub company_id : ℕ
  pub branch_id : ℕ

pub record LeaveType : Type 0 where
  pub id : ℕ
  pub company_id : ℕ
  pub is_active : Bool

pub record CreateLeaveRequest : Type 0 where
  pub employee_id : ℕ
  pub leave_type_id : ℕ
  pub from_date : ℕ
  pub to_date : ℕ
  pub reason : Option String

pub record Store : Type 0 where
  pub requests : List LeaveRequest
  pub next_id : ℕ

abbrev pub is_pending : LeaveRequestStatus → Bool
is_pending LeaveRequestStatus.pending = true
is_pending LeaveRequestStatus.approved = Bool.false
is_pending LeaveRequestStatus.rejected = Bool.false
is_pending LeaveRequestStatus.cancelled = Bool.false

abbrev pub is_user : ℕ → Option ℕ → Bool
is_user user none = Bool.false
is_user user (some u) = u == user

unfoldable pub find_request : ℕ → ℕ → List LeaveRequest → Option LeaveRequest
find_request id company [] = none
find_request id company (r ∷ rs) =
    if id == r.id && company == r.company_id then some r else find_request id company rs

unfoldable pub find_employee : ℕ → List Employee → Option Employee
find_employee id [] = none
find_employee id (e ∷ es) = if id == e.id then some e else find_employee id es

-- `employee?.userId === actorUserId`
abbrev pub is_own : ℕ → Option Employee → Bool
is_own actor none = Bool.false
is_own actor (some e) = is_user actor e.user_id

-- The employee that `create` looks up: the caller's own, or any of the company.
abbrev may_request : Bool → ℕ → ℕ → Employee → Bool
may_request own_only actor company e =
    if own_only then is_user actor e.user_id else e.company_id == company

unfoldable pub find_requester : ℕ → Bool → ℕ → ℕ → List Employee → Option Employee
find_requester id own_only actor company [] = none
find_requester id own_only actor company (e ∷ es) =
    if id == e.id && may_request own_only actor company e
    then some e
    else find_requester id own_only actor company es

unfoldable pub find_leave_type : ℕ → ℕ → List LeaveType → Option LeaveType
find_leave_type id company [] = none
find_leave_type id company (t ∷ ts) =
    if id == t.id && company == t.company_id && t.is_active
    then some t
    else find_leave_type id company ts

abbrev pub new_request : ℕ → Employee → LeaveType → CreateLeaveRequest → LeaveRequest
new_request id employee leave_type dto = record {
  id = id;
  employee_id = employee.id;
  company_id = employee.company_id;
  branch_id = employee.branch_id;
  leave_type_id = leave_type.id;
  from_date = dto.from_date;
  to_date = dto.to_date;
  reason = dto.reason;
  status = LeaveRequestStatus.pending;
  approved_by_user_id = none;
  rejected_by_user_id = none;
  decision_at = none;
  cancelled_at = none;
}

-- `create`; the check of `ownOnly` after the lookup repeats the lookup's own condition.
unfoldable pub apply_create :
    List Employee
    → List LeaveType
    → ℕ
    → ℕ
    → CreateLeaveRequest
    → Bool
    → Store
    → Result (LeaveRequest × Store)
unfolding find_requester find_leave_type
apply_create employees types actor company dto own_only s = do
  throw_if (ltb dto.to_date dto.from_date) validation_error
  employee ←
      or_throw (find_requester dto.employee_id own_only actor company employees) validation_error
  throw_if (own_only && not (is_user actor employee.user_id)) forbidden
  leave_type ←
      or_throw (find_leave_type dto.leave_type_id employee.company_id types) validation_error
  let request = new_request s.next_id employee leave_type dto
  ok (request, record s { requests = s.requests ++ (request ∷ []); next_id = s.next_id + 1 })

-- `manager.save(LeaveRequest, entity)` on a row that exists.
unfoldable pub save_request : LeaveRequest → List LeaveRequest → List LeaveRequest
save_request r [] = []
save_request r (x ∷ xs) = if r.id == x.id then r ∷ xs else x ∷ save_request r xs

pub data Decision : Type 0 where
  approve reject : Decision

abbrev pub decided : Decision → ℕ → ℕ → LeaveRequest → LeaveRequest
decided approve actor now r = record r {
  status = LeaveRequestStatus.approved;
  decision_at = some now;
  cancelled_at = none;
  approved_by_user_id = some actor;
  rejected_by_user_id = none;
}
decided reject actor now r = record r {
  status = LeaveRequestStatus.rejected;
  decision_at = some now;
  cancelled_at = none;
  approved_by_user_id = none;
  rejected_by_user_id = some actor;
}

-- The body of `transition`, for `approve` and `reject`.
unfoldable pub apply_transition :
    List Employee → ℕ → ℕ → ℕ → Decision → ℕ → Store → Result (LeaveRequest × Store)
unfolding find_request find_employee save_request
apply_transition employees id actor company decision now s = do
  entity ← or_throw (find_request id company s.requests) not_found
  throw_if (is_own actor (find_employee entity.employee_id employees)) forbidden
  throw_if (not (is_pending entity.status)) conflict
  let saved = decided decision actor now entity
  ok (saved, record s { requests = save_request saved s.requests })

unfoldable pub transition :
    List Employee → ℕ → ℕ → ℕ → Decision → ℕ → Store → Result LeaveRequest × Store
transition employees id actor company decision now =
    run (apply_transition employees id actor company decision now)

abbrev pub cancelled_request : ℕ → LeaveRequest → LeaveRequest
cancelled_request now r = record r {
  status = LeaveRequestStatus.cancelled;
  cancelled_at = some now;
  decision_at = some now;
}

-- The body of `cancel`.
unfoldable pub apply_cancel : List Employee → ℕ → ℕ → ℕ → ℕ → Store → Result (LeaveRequest × Store)
unfolding find_request find_employee save_request
apply_cancel employees id actor company now s = do
  entity ← or_throw (find_request id company s.requests) not_found
  throw_if (not (is_own actor (find_employee entity.employee_id employees))) forbidden
  throw_if (not (is_pending entity.status)) conflict
  let saved = cancelled_request now entity
  ok (saved, record s { requests = save_request saved s.requests })

unfoldable pub cancel : List Employee → ℕ → ℕ → ℕ → ℕ → Store → Result LeaveRequest × Store
cancel employees id actor company now = run (apply_cancel employees id actor company now)
