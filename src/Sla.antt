-- ===== src/Sla.antt =====
-- Resolution targets: src/issues/sla.ts, and the breach sweep of
-- src/issues/sla-escalation.service.ts. Times are milliseconds. A number of hours is a fraction, so
-- that the comparisons of the source, which multiplies floating-point numbers, are exact here.
pub mod State
pub mod Sweep
mod Tests
use cimp.Prelude.{
  ℕ, ◌+◌, ◌*◌, ◌/◌, Bool, true, false, ◌&&◌, List, [], ◌∷◌, Option, none, some, if◌then◌else◌, ltb,
  leb, ◌==◌, any, is_none,
}
use cimp.Domain.{
  IssueStatus, Priority, low, medium, high, critical, includes_status, open_issue_statuses,
  system_actor, Event,
}
use cimp.Store.{Issue, AuditAction, Db, Orm}
use cimp.Store.Writes.{record_audit, emit}

-- num / den; the denominator is positive. A value that is not positive has the numerator 0.
pub record Fraction : Type 0 where
  pub num : ℕ
  pub den : ℕ

-- `platforms.sla_policy`: the hours of a priority, if the policy holds a number for it.
abbrev pub SlaPolicy : Type 0
SlaPolicy = Priority → Option Fraction

-- What the module reads from the environment: SLA_TARGET_HOURS and SLA_AT_RISK_FRACTION.
pub record Targets : Type 0 where
  pub hours : Priority → Fraction
  pub at_risk : Fraction

pub is_positive : Fraction → Bool
is_positive f = ltb 0 f.num

-- `hoursFromEnv`, given the finite number that the variable holds, if it does.
pub hours_from_env : Option Fraction → ℕ → Fraction
hours_from_env none fallback = record { num = fallback; den = 1 }
hours_from_env (some n) fallback = if is_positive n then n else record { num = fallback; den = 1 }

-- The targets, from the five variables.
pub targets_from_env : (Priority → Option Fraction) → Option Fraction → Targets
targets_from_env env fraction = record {
  hours = elim [
    | low ↦ hours_from_env (env low) 168
    | medium ↦ hours_from_env (env medium) 72
    | high ↦ hours_from_env (env high) 24
    | critical ↦ hours_from_env (env critical) 4
  ];
  at_risk = elim fraction [
    | none ↦ record { num = 4; den = 5 }
    | some n ↦ if is_positive n && ltb n.num n.den then n else record { num = 4; den = 5 }
  ];
}

pub data SlaState : Type 0 where
  on_track at_risk breached : SlaState

abbrev ms_per_hour : ℕ
ms_per_hour = 3600000

-- `slaWindowHours`.
unfoldable pub sla_window_hours : Targets → Priority → Option SlaPolicy → Fraction
sla_window_hours t p none = t.hours p
sla_window_hours t p (some policy) = elim (policy p) [
  | none ↦ t.hours p
  | some override ↦ if is_positive override then override else t.hours p
]

-- `now - baseline >= share * window`, for a share of the window of so many hours.
unfoldable pub has_elapsed : Fraction → Fraction → ℕ → ℕ → Bool
has_elapsed share w baseline now =
    leb (baseline * w.den * share.den + w.num * ms_per_hour * share.num) (now * w.den * share.den)

abbrev pub whole : Fraction
whole = record { num = 1; den = 1 }

-- `computeSla`: the due time, which `Date` cuts to whole milliseconds, and the state, if the issue
-- is live work.
unfoldable pub due_at : Targets → Option SlaPolicy → Issue → ℕ
due_at t policy i =
    let w = sla_window_hours t i.priority policy in i.sla_started_at + w.num * ms_per_hour / w.den

pub live_state : Fraction → Fraction → ℕ → ℕ → SlaState
live_state risk w baseline now =
    if has_elapsed whole w baseline now
    then breached
    else if has_elapsed risk w baseline now
    then at_risk
    else on_track

unfoldable pub sla_state : Targets → Option SlaPolicy → Issue → ℕ → Option SlaState
sla_state t policy i now =
    let w = sla_window_hours t i.priority policy in
    if includes_status open_issue_statuses i.status
    then some (live_state t.at_risk w i.sla_started_at now)
    else none

-- `slaDueSql`: the hours by COALESCE over the CASE, and `now() >= baseline + hours`.
policy_hours : Priority → Option SlaPolicy → Option Fraction
policy_hours p none = none
policy_hours p (some policy) = elim (policy p) [
  | none ↦ none
  | some h ↦ if is_positive h then some h else none
]

coalesce : Option Fraction → Fraction → Fraction
coalesce none d = d
coalesce (some h) d = h

unfoldable pub is_due_sql : Targets → Option SlaPolicy → Issue → ℕ → Bool
unfolding policy_hours coalesce
is_due_sql t policy i now =
    let w = coalesce (policy_hours i.priority policy) (t.hours i.priority) in
    leb (i.sla_started_at * w.den + w.num * ms_per_hour) (now * w.den)

-- The WHERE clause of the sweep, and what it selects.
module _ (t : Targets) (policy_of : ℕ → Option SlaPolicy) (now : ℕ) where
  pub is_pending : Issue → Bool
  is_pending i =
      includes_status open_issue_statuses i.status
      && is_none i.sla_breached_at
      && is_due_sql t (policy_of i.platform) i now

  pub pending : List Issue → List (ℕ × ℕ)
  pending [] = []
  pending (i ∷ is) =
      let rest = pending is in if is_pending i then (i.id, i.platform) ∷ rest else rest

-- UPDATE … WHERE id = … AND sla_breached_at IS NULL: whether it affects a row, and the rows after.
pub is_unmarked : ℕ → Issue → Bool
is_unmarked id i = i.id == id && is_none i.sla_breached_at

pub mark_row : Orm → ℕ → ℕ → Issue → Issue
mark_row orm now id i =
    if is_unmarked id i
    then record i {
      sla_breached_at = some now;
      version = orm.touched_version now i;
      updated_at = now;
    }
    else i

pub mark_rows : Orm → ℕ → ℕ → List Issue → List Issue
mark_rows orm now id [] = []
mark_rows orm now id (i ∷ is) = mark_row orm now id i ∷ mark_rows orm now id is

-- What follows an update that affected a row.
pub escalate : Orm → ℕ → ℕ → ℕ → Db → Db
escalate orm now id platform db = emit (Event.sla_breached id platform) (
    record_audit id system_actor none AuditAction.sla_breached
      (record db { issues = mark_rows orm now id db.issues }))

-- The loop over the selected rows, which the table may have left behind since.
pub sweep_loop : Orm → ℕ → List (ℕ × ℕ) → Db → ℕ × Db
sweep_loop orm now [] db = (0, db)
sweep_loop orm now ((id, platform) ∷ rows) db =
    let skipped = sweep_loop orm now rows db in
    let (n, last) = sweep_loop orm now rows (escalate orm now id platform db) in
    if any (is_unmarked id) db.issues then (n + 1, last) else skipped

-- One run of the sweep, if the flag is on.
unfoldable pub sweep : Orm → Targets → (ℕ → Option SlaPolicy) → Bool → ℕ → Db → ℕ × Db
sweep orm t policy_of enabled now db =
    if enabled then sweep_loop orm now (pending t policy_of now db.issues) db else (0, db)
