-- ===== src/Sla/State.antt =====
-- The SLA state over time, and its two implementations.
use native.Mathlib.Nat.{mul-le-mul_right}
use cimp.Prelude.{
  ℕ, ◌+◌, ◌*◌, ◌≤◌, true, ◌≡◌, ◌↔◌, refl, Option, none, some, arith, leb, Bool-cases, inl, inr,
}
use cimp.Domain.{Priority, includes_status, open_issue_statuses}
use cimp.Store.{Issue}
use cimp.Sla.{
  Fraction, SlaPolicy, Targets, SlaState, on_track, at_risk, breached, sla_window_hours,
  has_elapsed, whole, policy_hours, coalesce, live_state, ms_per_hour, sla_state, is_due_sql,
}

window-twin :
    (t : Targets) (p : Priority) (policy : Option SlaPolicy)
    → sla_window_hours t p policy ≡ coalesce (policy_hours p policy) (t.hours p)
unfolding sla_window_hours policy_hours coalesce
window-twin t p none = refl
window-twin t p (some policy) = ground arith

due_iff :
    (risk w : Fraction) (baseline now : ℕ)
    → (leb (baseline * w.den + w.num * ms_per_hour) (now * w.den) ≡ true)
      ↔ (some (live_state risk w baseline now) ≡ some breached)
unfolding live_state has_elapsed
due_iff risk w baseline now = ground arith

-- The sweep's SQL finds due exactly the live issues that the API reports as breached.
pub is_due_sql_iff :
    (t : Targets) (policy : Option SlaPolicy) (i : Issue) (now : ℕ)
    → includes_status open_issue_statuses i.status ≡ true
    → (is_due_sql t policy i now ≡ true) ↔ (sla_state t policy i now ≡ some breached)
unfolding is_due_sql sla_state
is_due_sql_iff t policy i now live =
    rw (live, ← window-twin t i.priority policy)
      (due_iff t.at_risk (sla_window_hours t i.priority policy) i.sla_started_at now)

-- How far a state has come.
abbrev pub severity : Option SlaState → ℕ
severity none = 0
severity (some on_track) = 0
severity (some at_risk) = 1
severity (some breached) = 2

has_elapsed_mono :
    (share w : Fraction) (baseline now later : ℕ)
    → now ≤ later
    → has_elapsed share w baseline now ≡ true
    → has_elapsed share w baseline later ≡ true
unfolding has_elapsed
has_elapsed_mono share w baseline now later h e =
    let scaled : now * w.den * share.den ≤ later * w.den * share.den =
      mul-le-mul_right share.den (mul-le-mul_right w.den h) in
    ground arith

live_state_mono :
    (risk w : Fraction) (baseline now later : ℕ)
    → now ≤ later
    → severity (some (live_state risk w baseline now))
      ≤ severity (some (live_state risk w baseline later))
unfolding live_state
live_state_mono risk w baseline now later h = ground (
  arith,
  has_elapsed_mono whole w baseline now later h,
  has_elapsed_mono risk w baseline now later h,
)

-- As time passes without a write, the state of an issue never falls back.
pub sla_state_mono :
    (t : Targets) (policy : Option SlaPolicy) (i : Issue) (now later : ℕ)
    → now ≤ later
    → severity (sla_state t policy i now) ≤ severity (sla_state t policy i later)
unfolding sla_state
sla_state_mono t policy i now later h =
    elim (Bool-cases (includes_status open_issue_statuses i.status)) [
      | inl live ↦ rw live (
          live_state_mono t.at_risk (sla_window_hours t i.priority policy) i.sla_started_at now
            later h)
      | inr done ↦ rw done (omega arith)
    ]
