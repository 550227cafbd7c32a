-- ===== src/Automation.antt =====
-- The automation rules: the engine of src/issues/automation.service.ts, which
-- automation.listener.ts runs on a created issue and on a change of status.
pub mod Quiet
pub mod Rules
mod Tests
use text.Mathlib.Text.{◌==◌ as text_eq}
use cimp.Prelude.{
  ℕ, Bool, true, false, not, ◌&&◌, List, [], ◌∷◌, Option, none, some, String, ◌==◌, if◌then◌else◌,
  any, is_some, map, select,
}
use cimp.Prelude.Table.{find}
use cimp.Domain.{
  IssueStatus, Priority, same_status, same_priority, system_actor, Event, Result, ok, err, ◌>>=◌,
  ◌>>◌, require, found, bad_request, server_error, invalid_assignee, invalid_priority, foreign_key,
}
use cimp.Store.{Issue, Label, IssueLabel, AuditAction, Db, Orm}
use cimp.Store.Writes.{find_issue, record_audit, emit}
use cimp.Issues.{assert_assignee}
use cimp.Issues.Bulk.{parse_priority}

pub data AutomationTrigger : Type 0 where
  issue_created status_changed : AutomationTrigger

pub data AutomationAction : Type 0 where
  set_priority assign add_label : AutomationAction

pub record AutomationRule : Type 0 where
  pub id : ℕ
  pub platform : ℕ
  pub name : String
  pub enabled : Bool
  pub trigger : AutomationTrigger
  pub trigger_status : Option IssueStatus
  pub action : AutomationAction
  pub action_value : String
  pub created_by : Option ℕ

-- An UPDATE of the row with the key `id` by the query builder.
pub update_issue : Orm → ℕ → ℕ → (Issue → Issue) → Db → Db
update_issue orm now id change db = record db {
  issues =
      map
        (λ i.
          if i.id == id
          then record (change i) { version = orm.touched_version now i; updated_at = now }
          else i)
        db.issues;
}

-- An INSERT with `orIgnore`: a pair that is there already stays alone.
unfoldable pub attach_label : ℕ → ℕ → Db → Db
attach_label issue label db =
    if any (λ r. r.issue == issue && r.label == label) db.issue_labels
    then db
    else record db { issue_labels = record { issue = issue; label = label } ∷ db.issue_labels }

abbrev pub label_id : Label → ℕ
label_id l = l.id

pub is_created_trigger : AutomationTrigger → Bool
is_created_trigger issue_created = true
is_created_trigger status_changed = false

-- The queries for rules, and the filter by the new status.
pub rules_for_created : ℕ → List AutomationRule → List AutomationRule
rules_for_created platform rules =
    select (λ r. r.platform == platform && (r.enabled && is_created_trigger r.trigger)) rules

pub rules_for_status : ℕ → IssueStatus → List AutomationRule → List AutomationRule
rules_for_status platform to rules =
    select
      (λ r.
        r.platform == platform
        && (r.enabled && not (is_created_trigger r.trigger))
        && elim r.trigger_status [ none ↦ true | some s ↦ same_status s to ])
      rules

-- `as_uuid` reads a text that class-validator's `isUUID` accepts as an id, and `uuid` writes an id as
-- the database does.
module _ (orm : Orm) (as_uuid : String → Option ℕ) (uuid : ℕ → String) (now : ℕ) where
  -- A priority that the column's enumeration does not have makes the database fail.
  pub set_issue_priority : Priority → Issue → Db → Result (Issue × Db)
  set_issue_priority to issue db = ok (
    record issue { priority = to },
    emit (Event.priority_changed issue.id issue.platform issue.priority to none) (
        record_audit issue.id system_actor none (AuditAction.priority_changed issue.priority to)
          (update_issue orm now issue.id (λ i. record i { priority = to }) db)),
  )

  pub assign_issue : String → Issue → Db → Result (Issue × Db)
  assign_issue value issue db = do
    a ← found (as_uuid value) (bad_request invalid_assignee)
    assert_assignee db issue.platform (some a)
    ok (
      record issue { assignee = some a },
      emit (Event.assigned issue.id issue.platform (some a) none) (
          record_audit issue.id system_actor none (AuditAction.assigned issue.assignee (some a))
            (update_issue orm now issue.id (λ i. record i { assignee = some a }) db)),
    )

  -- The insert fails on the foreign key of a label that is not there.
  pub label_issue : String → Issue → Db → Result (Issue × Db)
  label_issue value issue db = do
    l ← found (as_uuid value) (server_error foreign_key)
    require (is_some (find label_id l db.labels)) (server_error foreign_key)
    ok (
      issue,
      record_audit issue.id system_actor none (AuditAction.label_added l)
          (attach_label issue.id l db),
    )

  -- applyAction.
  pub apply_action : AutomationAction → String → Issue → Db → Result (Issue × Db)
  apply_action set_priority value issue db = do
    to ← found (parse_priority value) (server_error invalid_priority)
    if same_priority issue.priority to then ok (issue, db) else set_issue_priority to issue db
  apply_action assign value issue db =
      if elim issue.assignee [ none ↦ false | some a ↦ text_eq (uuid a) value ]
      then ok (issue, db)
      else assign_issue value issue db
  apply_action add_label value issue db = label_issue value issue db

  -- The `try` of the loop: an action that throws changes nothing.
  pub or_same : Issue → Db → Result (Issue × Db) → Issue × Db
  or_same issue db (ok r) = r
  or_same issue db (err e) = (issue, db)

  pub rules_loop : List AutomationRule → Issue × Db → Issue × Db
  rules_loop [] s = s
  rules_loop (r ∷ rs) (issue, db) =
      rules_loop rs (or_same issue db (apply_action r.action r.action_value issue db))

  -- applyRules.
  pub apply_rules : ℕ → List AutomationRule → Db → Db
  apply_rules id [] db = db
  apply_rules id (r ∷ rs) db = elim (find_issue id db) [
    | none ↦ db
    | some issue ↦ (rules_loop (r ∷ rs) (issue, db)).1
  ]

  -- applyForCreated and applyForStatusChanged.
  unfoldable pub apply_for_created : List AutomationRule → ℕ → ℕ → Db → Db
  unfolding apply_rules rules_loop or_same apply_action label_issue assign_issue set_issue_priority
      rules_for_created is_created_trigger attach_label update_issue find parse_priority
      record_audit emit
  apply_for_created rules id platform db = apply_rules id (rules_for_created platform rules) db

  pub apply_for_status_changed : List AutomationRule → ℕ → ℕ → IssueStatus → Db → Db
  apply_for_status_changed rules id platform to db =
      apply_rules id (rules_for_status platform to rules) db
