-- ===== src/Automation/Tests.antt =====
-- A rule that raises new issues, at the help desk (src/issues/automation.service.ts).
use cimp.Prelude.{All, some, [], ◌∷◌, ◌≡◌, refl, none, true}
use cimp.Domain.{low, in_progress, Priority, Event}
use cimp.Authz.{can_access_platform}
use cimp.Issues.Bulk.{parse_priority}
use cimp.Scenario.{desk, counting, as_dev}
use cimp.Automation.Rules.{
  CreateAutomationRuleDto, creates, handle, create_rule, new_rule, assert_access,
  assert_action_value,
}
use cimp.Automation.Rules.Applicable.{IsApplicable, handle-IsApplicable}
use cimp.Automation.{
  issue_created, set_priority, AutomationRule, apply_for_created, apply_for_status_changed,
}
use cimp.Automation.Quiet.{IsQuiet, apply_for-IsQuiet}

abbrev lower_new : AutomationRule
lower_new = record {
  id = 1;
  platform = 7;
  name = "Lower";
  enabled = true;
  trigger = issue_created;
  trigger_status = none;
  action = set_priority;
  action_value = "LOW";
  created_by = none;
}

-- The rule tells of the new priority.
lower_new_runs :
    (apply_for_created counting (λ s. none) (λ n. "") 500 (lower_new ∷ []) 2 7 desk).events
    ≡ Event.priority_changed 2 7 Priority.high low none ∷ []
unfolding apply_for_created
lower_new_runs = refl

apply_for-IsQuiet_example :
    IsQuiet desk (apply_for_created counting (λ s. none) (λ n. "") 500 (lower_new ∷ []) 2 7 desk)
    × IsQuiet desk (
        apply_for_status_changed counting
          (λ s. none)
          (λ n. "")
          500
          (lower_new ∷ [])
          2
          7
          in_progress
          desk)
apply_for-IsQuiet_example =
    apply_for-IsQuiet counting (λ s. none) (λ n. "") 500 (lower_new ∷ []) 2 7 in_progress desk

abbrev lower_dto : CreateAutomationRuleDto
lower_dto = record {
  name = "Lower";
  trigger = issue_created;
  trigger_status = none;
  action = set_priority;
  action_value = "LOW";
  enabled = none;
}

abbrev lower_managed : AutomationRule
lower_managed = record lower_new { created_by = some 40 }

handle-IsApplicable_example :
    All (IsApplicable counting (λ s. none) (λ n. "") 500 desk) (lower_managed ∷ [])
unfolding handle create_rule new_rule assert_access assert_action_value parse_priority
    can_access_platform
handle-IsApplicable_example =
    handle-IsApplicable counting (λ s. none) (λ n. "") 500 desk as_dev.staff 7 (creates 1 lower_dto)
      [] (lower_managed ∷ []) tt refl
