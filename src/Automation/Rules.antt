-- ===== src/Automation/Rules.antt =====
-- The management of rules in src/issues/automation.service.ts, with its check of the value.
pub mod Applicable
use cimp.Prelude.{
  ℕ, Bool, true, false, ◌&&◌, ◌||◌, List, [], ◌∷◌, Option, none, some, String, ◌==◌, if◌then◌else◌,
  is_some, or_else,
}
use cimp.Prelude.Table.{find, put, remove}
use cimp.Domain.{
  IssueStatus, Result, ok, err, ◌>>=◌, ◌>>◌, require, found, bad_request, not_found, forbidden,
  invalid_assignee, invalid_priority, invalid_label, label_not_found, rule_not_found,
  no_platform_access,
}
use cimp.Authz.{AuthenticatedStaff, can_access_platform, staff_write_roles}
use cimp.Store.{Label, Db}
use cimp.Issues.{assert_assignee}
use cimp.Issues.Bulk.{parse_priority}
use cimp.Automation.{
  AutomationTrigger, AutomationAction, set_priority, assign, add_label, AutomationRule, label_id,
}

pub record CreateAutomationRuleDto : Type 0 where
  pub name : String
  pub trigger : AutomationTrigger
  pub trigger_status : Option IssueStatus
  pub action : AutomationAction
  pub action_value : String
  pub enabled : Option Bool

-- A field that is compared with `undefined` is none where it is missing, and `some none` for null.
pub record UpdateAutomationRuleDto : Type 0 where
  pub name : Option String
  pub enabled : Option Bool
  pub trigger : Option AutomationTrigger
  pub trigger_status : Option (Option IssueStatus)
  pub action : Option (Option AutomationAction)
  pub action_value : Option (Option String)

abbrev pub rule_id : AutomationRule → ℕ
rule_id r = r.id

-- `value ?? old`, of a value that may be missing or null.
abbrev pub given_or {ℓ} : {A : Type ℓ} → Option (Option A) → A → A
given_or none old = old
given_or (some value) old = or_else value old

pub is_on_platform : ℕ → Option Label → Bool
is_on_platform platform none = false
is_on_platform platform (some l) = l.platform == platform

unfoldable pub assert_access : AuthenticatedStaff → ℕ → Result (Unit {0})
assert_access staff platform =
    require (can_access_platform staff platform staff_write_roles) (forbidden no_platform_access)

pub data Request : Type 0 where
  creates : (fresh : ℕ) (dto : CreateAutomationRuleDto) → Request
  updates : (id : ℕ) (dto : UpdateAutomationRuleDto) → Request
  removes : (id : ℕ) → Request

-- `as_uuid` reads a text that class-validator's `isUUID` accepts as an id.
module _ (as_uuid : String → Option ℕ) (db : Db) where
  -- assertAssignable.
  pub assert_assignable : String → ℕ → Result (Unit {0})
  assert_assignable value platform = do
    a ← found (as_uuid value) (bad_request invalid_assignee)
    assert_assignee db platform (some a)

  unfoldable pub assert_action_value : ℕ → AutomationAction → String → Result (Unit {0})
  assert_action_value platform set_priority value =
      require (is_some (parse_priority value)) (bad_request invalid_priority)
  assert_action_value platform assign value = assert_assignable value platform
  assert_action_value platform add_label value = do
    l ← found (as_uuid value) (bad_request invalid_label)
    require (is_on_platform platform (find label_id l db.labels)) (bad_request label_not_found)

  unfoldable pub new_rule : ℕ → AuthenticatedStaff → ℕ → CreateAutomationRuleDto → AutomationRule
  new_rule fresh staff platform dto = record {
    id = fresh;
    platform = platform;
    name = dto.name;
    enabled = or_else dto.enabled true;
    trigger = dto.trigger;
    trigger_status = dto.trigger_status;
    action = dto.action;
    action_value = dto.action_value;
    created_by = some staff.id;
  }

  unfoldable pub create_rule :
      ℕ
      → AuthenticatedStaff
      → ℕ
      → CreateAutomationRuleDto
      → List AutomationRule
      → Result (List AutomationRule)
  create_rule fresh staff platform dto rules = do
    assert_access staff platform
    assert_action_value platform dto.action dto.action_value
    ok (new_rule fresh staff platform dto ∷ rules)

  -- The rule with an id, if it is the platform's.
  pub owned_rule : ℕ → ℕ → List AutomationRule → Result AutomationRule
  owned_rule platform id rules = do
    r ← found (find rule_id id rules) (not_found rule_not_found)
    require (r.platform == platform) (not_found rule_not_found)
    ok r

  pub changed_rule : UpdateAutomationRuleDto → AutomationRule → AutomationRule
  changed_rule dto r = record r {
    name = or_else dto.name r.name;
    enabled = or_else dto.enabled r.enabled;
    trigger = or_else dto.trigger r.trigger;
    trigger_status = or_else dto.trigger_status r.trigger_status;
    action = given_or dto.action r.action;
    action_value = given_or dto.action_value r.action_value;
  }

  -- The pair that the rule ends up with is checked if one half was sent.
  pub assert_changed : ℕ → UpdateAutomationRuleDto → AutomationRule → Result (Unit {0})
  assert_changed platform dto r =
      if is_some dto.action || is_some dto.action_value
      then assert_action_value platform r.action r.action_value
      else ok tt

  pub update_rule :
      AuthenticatedStaff
      → ℕ
      → ℕ
      → UpdateAutomationRuleDto
      → List AutomationRule
      → Result (List AutomationRule)
  update_rule staff platform id dto rules = do
    assert_access staff platform
    r ← owned_rule platform id rules
    assert_changed platform dto (changed_rule dto r)
    ok (put rule_id (changed_rule dto r) rules)

  pub remove_rule : AuthenticatedStaff → ℕ → ℕ → List AutomationRule → Result (List AutomationRule)
  remove_rule staff platform id rules = do
    assert_access staff platform
    r ← owned_rule platform id rules
    ok (remove rule_id r.id rules)

  -- The routes that write.
  unfoldable pub handle :
      AuthenticatedStaff → ℕ → Request → List AutomationRule → Result (List AutomationRule)
  handle staff platform (creates fresh dto) rules = create_rule fresh staff platform dto rules
  handle staff platform (updates id dto) rules = update_rule staff platform id dto rules
  handle staff platform (removes id) rules = remove_rule staff platform id rules
