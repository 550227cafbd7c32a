-- ===== src/Issues/Effect.antt =====
-- What a successful staff write has checked, and what it has written.
use cimp.Prelude.{
  ℕ, true, false, ◌≡◌, some, arith, ◌==◌, ==_iff, inl, inr, Bool-cases, if◌then◌else◌,
}
use mathlib.Core.Path.{subst}
use cimp.Domain.{ok, Event, same_priority}
pub use cimp.Domain.Results.{>>=-eq-ok, Result-cases, found-eq-ok}
use cimp.Store.{Issue, AuditAction, Db}
use cimp.Store.Writes.{
  find_issue, saved, save_issue, emit, record_audit, find-save_issue, find-save_issue_ne,
}
use cimp.Issues.{
  Context, UpdateStatusDto, UpdatePriorityDto, UpdateAssignmentDto, can_transition,
  apply_status_side_effects, assert_version, assert_can_transition, assert_assignee, commit,
  apply_status, apply_priority, apply_assignment,
}

-- The row that a write of `after` over `before` leaves under every key.
pub find-commit :
    (j : ℕ) (c : Context) (before after : Issue) (a : AuditAction) (e : Event) (db : Db)
    → find_issue before.id db ≡ some before
    → after.id ≡ before.id
    → find_issue j (commit c before after a e db)
      ≡ (if before.id == j then some (saved c.orm c.now before after) else find_issue j db)
unfolding commit emit record_audit
find-commit j c before after a e db there same = elim (Bool-cases (before.id == j)) [
  | inl here ↦ rw here (
      rw (← (==_iff before.id j).0 here) (
        subst
          (λ k.
            find_issue k (save_issue c.orm c.now before after db)
            ≡ some (saved c.orm c.now before after))
          same (find-save_issue c.orm c.now before after db (rw same there))))
  | inr other ↦ ground (arith, find-save_issue_ne j c.orm c.now before after db)
]

pub find-commit_ne :
    (j : ℕ) (c : Context) (before after : Issue) (a : AuditAction) (e : Event) (db : Db)
    → find_issue before.id db ≡ some before
    → after.id ≡ before.id
    → (before.id == j) ≡ false
    → find_issue j (commit c before after a e db) ≡ find_issue j db
find-commit_ne j c before after a e db there same other =
    ground (arith, find-commit j c before after a e db there same)

module _ (c : Context) (issue : Issue) (db db' : Db) where
  -- A status write that succeeds has passed every check, and is the commit of the side effects.
  pub apply_status_inv :
      (dto : UpdateStatusDto)
      → apply_status c issue dto db ≡ ok db'
      → (assert_version issue dto.version ≡ ok tt)
        × (assert_can_transition c issue.platform ≡ ok tt)
        × (can_transition issue.status dto.status ≡ true)
        × (db'
            ≡ commit c issue
                (apply_status_side_effects c.now dto.status (record issue { status = dto.status }))
                (AuditAction.status_changed issue.status dto.status)
                (Event.status_changed issue.id issue.platform issue.status dto.status
                  (some c.staff.id))
                db)
  unfolding apply_status
  apply_status_inv dto h = (ground arith, ground arith, ground arith, ground arith)

  -- So has a priority write.
  pub apply_priority_inv :
      (dto : UpdatePriorityDto)
      → apply_priority c issue dto db ≡ ok db'
      → (assert_version issue dto.version ≡ ok tt)
        × (same_priority issue.priority dto.priority ≡ false)
        × (db'
            ≡ commit c issue
                (record issue { priority = dto.priority })
                (AuditAction.priority_changed issue.priority dto.priority)
                (Event.priority_changed issue.id issue.platform issue.priority dto.priority
                  (some c.staff.id))
                db)
  unfolding apply_priority
  apply_priority_inv dto h = (ground arith, ground arith, ground arith)

  -- So has an assignment.
  pub apply_assignment_inv :
      (dto : UpdateAssignmentDto)
      → apply_assignment c issue dto db ≡ ok db'
      → (assert_version issue dto.version ≡ ok tt)
        × (assert_assignee db issue.platform dto.assignee_id ≡ ok tt)
        × (db'
            ≡ commit c issue
                (record issue { assignee = dto.assignee_id })
                (AuditAction.assigned issue.assignee dto.assignee_id)
                (Event.assigned issue.id issue.platform dto.assignee_id (some c.staff.id))
                db)
  unfolding apply_assignment
  apply_assignment_inv dto h = (ground arith, ground arith, ground arith)
