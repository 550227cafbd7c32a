-- ===== src/Issues/Bulk.antt =====
-- One change to many issues: `bulkUpdate` of src/issues/issues.service.ts.
pub mod Accounting
mod Tests
use cimp.Prelude.{
  ℕ, ◌+◌, Bool, true, false, List, [], ◌∷◌, ◌++◌, Option, none, some, map, is_some, if◌then◌else◌,
  String,
}
use text.Mathlib.Text.{◌==◌ as text_eq}
use cimp.Domain.{
  IssueStatus, new, in_progress, on_hold, resolved, closed, reopened, Priority, low, medium, high,
  critical, Message, HttpError, not_found, bad_request, forbidden, conflict, unprocessable,
  server_error, unauthorized, Result, ok, err, ◌>>=◌, ◌>>◌, require, found, invalid_status,
  invalid_priority, invalid_assignee,
}
use cimp.Authz.{
  AuthenticatedStaff, platforms, staff_write_roles, can_access_platform, scoped_platform_ids,
  PlatformScope,
}
use cimp.Store.{Issue, Db}
use cimp.Issues.{Context, load_for_write, apply_status, apply_priority, apply_assignment}

pub data BulkOp : Type 0 where
  status priority assignee : BulkOp

-- The body; `value` is free text.
pub record BulkUpdateDto : Type 0 where
  pub ids : List ℕ
  pub op : BulkOp
  pub value : String

-- The reason of a skipped id: NOT_VISIBLE_REASON, or the message of the exception.
pub data Reason : Type 0 where
  not_visible : Reason
  message : Message → Reason

pub record BulkResult : Type 0 where
  pub updated : ℕ
  pub skipped : List (ℕ × Reason)

-- `Object.values(IssueStatus).includes(value)`, with the status that the text names.
pub parse_status : String → Option IssueStatus
parse_status s =
    if text_eq s "NEW"
    then some new
    else if text_eq s "IN_PROGRESS"
    then some in_progress
    else if text_eq s "ON_HOLD"
    then some on_hold
    else if text_eq s "RESOLVED"
    then some resolved
    else if text_eq s "CLOSED"
    then some closed
    else if text_eq s "REOPENED"
    then some reopened
    else none

unfoldable pub parse_priority : String → Option Priority
parse_priority s =
    if text_eq s "LOW"
    then some low
    else if text_eq s "MEDIUM"
    then some medium
    else if text_eq s "HIGH"
    then some high
    else if text_eq s "CRITICAL"
    then some critical
    else none

-- The change that the body asks for, once its value is validated.
pub data Change : Type 0 where
  to_status : IssueStatus → Change
  to_priority : Priority → Change
  to_assignee : Option ℕ → Change

pub reason_of : HttpError → Reason
reason_of (not_found m) = not_visible
reason_of (bad_request m) = message m
reason_of (forbidden m) = message m
reason_of (conflict m) = message m
reason_of (unprocessable m) = message m
reason_of (server_error m) = message m
reason_of (unauthorized m) = message m

-- `as_uuid` reads a text that class-validator's `isUUID` accepts as an id.
module _ (as_uuid : String → Option ℕ) where
  pub validate : BulkOp → String → Result Change
  validate status v = do s ← found (parse_status v) (bad_request invalid_status); ok (to_status s)
  validate priority v = do
    p ← found (parse_priority v) (bad_request invalid_priority)
    ok (to_priority p)
  validate assignee v =
      if text_eq v ""
      then ok (to_assignee none)
      else (do a ← found (as_uuid v) (bad_request invalid_assignee); ok (to_assignee (some a)))

-- One of the three writes on a loaded issue, at the version just read.
pub apply_change : Context → Issue → Change → Db → Result Db
apply_change c i (to_status s) db =
    apply_status c i (record { status = s; version = some i.version }) db
apply_change c i (to_priority p) db =
    apply_priority c i (record { priority = p; version = some i.version }) db
apply_change c i (to_assignee a) db =
    apply_assignment c i (record { assignee_id = a; version = some i.version }) db

-- The outcome for one id: the database after the write, or the reason of the skip.
pub data Outcome : Type 0 where
  done : Db → Outcome
  skip : Reason → Outcome

pub outcome_of : Result Db → Outcome
outcome_of (ok db) = done db
outcome_of (err e) = skip (reason_of e)

-- The body of the loop, with its `try`.
pub bulk_one : Context → Change → ℕ → Db → Outcome
bulk_one c change id db = elim (load_for_write id db) [
  | err e ↦ skip (reason_of e)
  | ok i ↦
      if can_access_platform c.staff i.platform staff_write_roles
      then outcome_of (apply_change c i change db)
      else skip not_visible
]

pub bulk_loop : Context → Change → List ℕ → Db → BulkResult × Db
bulk_loop c change [] db = (record { updated = 0; skipped = [] }, db)
bulk_loop c change (id ∷ ids) db = elim (bulk_one c change id db) [
  | done db' ↦
      let (r, last) = bulk_loop c change ids db' in (record r { updated = r.updated + 1 }, last)
  | skip reason ↦
      let (r, last) = bulk_loop c change ids db in
      (record r { skipped = (id, reason) ∷ r.skipped }, last)
]

abbrev is_empty_scope : PlatformScope → Bool
is_empty_scope (platforms []) = true
is_empty_scope _ = false

unfoldable pub bulk_update :
    (String → Option ℕ) → Context → BulkUpdateDto → Db → Result (BulkResult × Db)
bulk_update as_uuid c dto db =
    if is_empty_scope (scoped_platform_ids c.staff)
    then ok (record { updated = 0; skipped = map (λ id. (id, not_visible)) dto.ids }, db)
    else (do change ← validate as_uuid dto.op dto.value; ok (bulk_loop c change dto.ids db))
