-- ===== src/Sla/Tests.antt =====
-- The targets of the help desk, without overrides: a day for an issue of high priority.
use cimp.Prelude.{ℕ, ◌+◌, true, ◌≡◌, ◌↔◌, refl, none, some, Option, length}
use cimp.Sla.{Targets, SlaPolicy, targets_from_env, breached, sla_state, is_due_sql, sweep}
use cimp.Sla.State.{is_due_sql_iff}
use cimp.Sla.Sweep.{sweep_once}
use cimp.Scenario.{desk, counting, portal_down}

abbrev defaults : Targets
defaults = targets_from_env (λ p. none) none

abbrev no_policy : ℕ → Option SlaPolicy
no_policy p = none

is_due_sql_iff_example :
    (is_due_sql defaults none portal_down 86400100 ≡ true)
    ↔ (sla_state defaults none portal_down 86400100 ≡ some breached)
is_due_sql_iff_example = is_due_sql_iff defaults none portal_down 86400100 refl

sweep_once_example :
    let first = sweep counting defaults no_policy true 86400100 desk in
    (length first.1.events ≡ first.0 + length desk.events)
    × (sweep counting defaults no_policy true 86400100 first.1 ≡ (0, first.1))
sweep_once_example = sweep_once counting defaults no_policy 86400100 desk
