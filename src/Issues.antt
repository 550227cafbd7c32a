-- ===== src/Issues.antt =====
-- The status machine and the staff writes on one issue: src/issues/status-machine.ts,
-- status-side-effects.ts and the mutations of issues.service.ts.
pub mod Effect
pub mod Bulk
pub mod Csv
pub mod Lifecycle
pub mod Locking
mod Tests
use cimp.Prelude.{
  ℕ, Bool, true, false, not, List, [], ◌∷◌, ◌++◌, Option, none, some, ◌==◌, if◌then◌else◌, or_else,
  map, holds_id,
}
use cimp.Prelude.Table.{find}
use cimp.Domain.{
  Role, developer, admin, focal_point, IssueStatus, new, in_progress, on_hold, resolved, closed,
  reopened, Priority, same_status, same_priority, includes_status, is_active, staff_actor, Result,
  ok, err, ◌>>=◌, ◌>>◌, require, found, bad_request, forbidden, not_found, conflict, unprocessable,
  issue_not_found, stale_version, already_in_status, cannot_transition, may_not_change_status,
  already_at_priority, assignee_missing, not_developer, Event,
}
use cimp.Authz.{StaffRoleGrant, AuthenticatedStaff, can_access_platform}
use cimp.Store.{Issue, StaffUser, UserPlatformRole, AuditAction, Db, Orm, staff_id}
use cimp.Store.Writes.{find_issue, save_issue, record_audit, emit}

-- STATUS_TRANSITIONS.
pub status_transitions : IssueStatus → List IssueStatus
status_transitions new = in_progress ∷ on_hold ∷ closed ∷ []
status_transitions in_progress = on_hold ∷ resolved ∷ []
status_transitions on_hold = in_progress ∷ closed ∷ []
status_transitions resolved = closed ∷ reopened ∷ []
status_transitions closed = reopened ∷ []
status_transitions reopened = in_progress ∷ []

unfoldable pub can_transition : IssueStatus → IssueStatus → Bool
unfolding status_transitions
can_transition from to = includes_status (status_transitions from) to

-- applyStatusSideEffects, at the time `now`.
unfoldable pub apply_status_side_effects : ℕ → IssueStatus → Issue → Issue
apply_status_side_effects now resolved i = record i { resolved_at = some now }
apply_status_side_effects now closed i = record i { closed_at = some (or_else i.closed_at now) }
apply_status_side_effects now reopened i = record i {
  resolved_at = none;
  closed_at = none;
  duplicate_of = none;
  sla_started_at = now;
  sla_breached_at = none;
}
apply_status_side_effects now _ i = i

-- The request bodies; `version` is the version that the client saw.
pub record UpdateStatusDto : Type 0 where
  pub status : IssueStatus
  pub version : Option ℕ

pub record UpdatePriorityDto : Type 0 where
  pub priority : Priority
  pub version : Option ℕ

pub record UpdateAssignmentDto : Type 0 where
  pub assignee_id : Option ℕ
  pub version : Option ℕ

pub load_for_write : ℕ → Db → Result Issue
load_for_write id db = found (find_issue id db) (not_found issue_not_found)

pub assert_version : Issue → Option ℕ → Result (Unit {0})
assert_version i none = ok tt
assert_version i (some v) = require (v == i.version) (conflict stale_version)

-- AuthService.loadRoles: the grants of one staff user.
unfoldable pub load_roles : ℕ → List UserPlatformRole → List StaffRoleGrant
load_roles id [] = []
load_roles id (r ∷ rs) =
    let rest = load_roles id rs in
    if r.staff_user == id then record { role = r.role; platform_id = r.platform } ∷ rest else rest

-- What every staff write needs: the ORM, the flag `focalPointCanTransition`, the clock and the
-- caller.
pub record Context : Type 0 where
  pub orm : Orm
  pub focal_point_can_transition : Bool
  pub now : ℕ
  pub staff : AuthenticatedStaff

pub transition_roles : Bool → List Role
transition_roles flag = (developer ∷ admin ∷ []) ++ (if flag then focal_point ∷ [] else [])

pub assert_can_transition : Context → ℕ → Result (Unit {0})
assert_can_transition c platform =
    require (can_access_platform c.staff platform (transition_roles c.focal_point_can_transition))
      (forbidden may_not_change_status)

-- The transaction that ends each of the three writes, and the event after it.
pub commit : Context → Issue → Issue → AuditAction → Event → Db → Db
commit c before after action event db = emit event (
    record_audit before.id staff_actor (some c.staff.id) action
      (save_issue c.orm c.now before after db))

unfoldable pub apply_status : Context → Issue → UpdateStatusDto → Db → Result Db
apply_status c issue dto db = do
  assert_version issue dto.version
  assert_can_transition c issue.platform
  require (not (same_status issue.status dto.status)) (unprocessable already_in_status)
  require (can_transition issue.status dto.status) (unprocessable cannot_transition)
  ok (
      commit c issue
        (apply_status_side_effects c.now dto.status (record issue { status = dto.status }))
        (AuditAction.status_changed issue.status dto.status)
        (Event.status_changed issue.id issue.platform issue.status dto.status (some c.staff.id)) db)

-- The new assignee must exist, be active, and hold DEVELOPER globally or on the platform.
pub assert_assignee : Db → ℕ → Option ℕ → Result (Unit {0})
assert_assignee db platform none = ok tt
assert_assignee db platform (some a) = do
  user ← found (find staff_id a db.staff) (bad_request assignee_missing)
  require (is_active user.status) (bad_request assignee_missing)
  require
      (can_access_platform (record { id = user.id; roles = load_roles user.id db.roles }) platform
        (developer ∷ []))
      (bad_request not_developer)

unfoldable pub apply_assignment : Context → Issue → UpdateAssignmentDto → Db → Result Db
apply_assignment c issue dto db = do
  assert_version issue dto.version
  assert_assignee db issue.platform dto.assignee_id
  ok (
      commit c issue (record issue { assignee = dto.assignee_id })
        (AuditAction.assigned issue.assignee dto.assignee_id)
        (Event.assigned issue.id issue.platform dto.assignee_id (some c.staff.id)) db)

unfoldable pub apply_priority : Context → Issue → UpdatePriorityDto → Db → Result Db
apply_priority c issue dto db = do
  assert_version issue dto.version
  require (not (same_priority issue.priority dto.priority)) (unprocessable already_at_priority)
  ok (
      commit c issue (record issue { priority = dto.priority })
        (AuditAction.priority_changed issue.priority dto.priority)
        (Event.priority_changed issue.id issue.platform issue.priority dto.priority
          (some c.staff.id))
        db)

-- The public handlers: load, then apply.
unfoldable pub change_status : Context → ℕ → UpdateStatusDto → Db → Result Db
change_status c id dto db = do issue ← load_for_write id db; apply_status c issue dto db

unfoldable pub change_assignment : Context → ℕ → UpdateAssignmentDto → Db → Result Db
change_assignment c id dto db = do issue ← load_for_write id db; apply_assignment c issue dto db

unfoldable pub change_priority : Context → ℕ → UpdatePriorityDto → Db → Result Db
change_priority c id dto db = do issue ← load_for_write id db; apply_priority c issue dto db
