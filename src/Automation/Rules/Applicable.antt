-- ===== src/Automation/Rules/Applicable.antt =====
-- The check of src/issues/automation.service.ts makes its engine succeed.
use mathlib.Core.Path.{subst}
use text.Mathlib.Text.{◌==◌ as text_eq}
use cimp.Prelude.{
  ℕ, true, false, ◌||◌, List, ◌≡◌, refl, ◌∙◌, Option, none, some, String, ◌==◌, arith, inl, inr,
  Bool-cases, Option-cases, All, is_some,
}
use cimp.Prelude.Table.{find, find-All}
use cimp.Prelude.Table.Keys.{All-put, All-remove}
use cimp.Domain.{
  same_priority, ok, require, found, bad_request, not_found, invalid_assignee, invalid_label,
  label_not_found, rule_not_found,
}
use cimp.Domain.Results.{
  >>=-eq-ok, >>-eq-ok, >>-eq-ok_first, ok-injective, found-eq-ok, require-eq-ok,
}
use cimp.Authz.{AuthenticatedStaff}
use cimp.Store.{Issue, Label, Db, Orm}
use cimp.Issues.{assert_assignee}
use cimp.Issues.Bulk.{parse_priority}
use cimp.Automation.{
  AutomationAction, set_priority, assign, add_label, AutomationRule, label_id, set_issue_priority,
  assign_issue, label_issue, apply_action,
}
use cimp.Automation.Rules.{
  CreateAutomationRuleDto, UpdateAutomationRuleDto, given_or, rule_id, is_on_platform,
  assert_access, assert_assignable, assert_action_value, new_rule, create_rule, owned_rule,
  changed_rule, assert_changed, update_rule, remove_rule, Request, creates, updates, removes,
  handle,
}

is_on_platform_found :
    (platform : ℕ) (o : Option Label) → is_on_platform platform o ≡ true → is_some o ≡ true
unfolding is_on_platform
is_on_platform_found platform none h = absurd (cc h)
is_on_platform_found platform (some l) h = refl

module _ (orm : Orm) (as_uuid : String → Option ℕ) (uuid : ℕ → String) (now : ℕ) (db : Db) where
  -- The action, with its value, succeeds on every issue of the platform.
  abbrev pub CanApply : ℕ → AutomationAction → String → Type 0
  CanApply platform action value =
      (issue : Issue)
      → issue.platform ≡ platform
      → (out : Issue × Db) × (apply_action orm as_uuid uuid now action value issue db ≡ ok out)

  abbrev pub IsApplicable : AutomationRule → Type 0
  IsApplicable r = CanApply r.platform r.action r.action_value

  assert_action_value-CanApply :
      (platform : ℕ) (action : AutomationAction) (value : String)
      → assert_action_value as_uuid db platform action value ≡ ok tt
      → CanApply platform action value
  unfolding assert_action_value assert_assignable apply_action set_issue_priority assign_issue
      label_issue
  assert_action_value-CanApply platform set_priority value h issue own =
      elim (Option-cases (parse_priority value)) [
        | inl bad ↦ absurd (ground (arith, h, bad))
        | inr (to, good) ↦ elim (Bool-cases (same_priority issue.priority to)) [
          | inl same ↦ rw (good, same) (_, refl)
          | inr other ↦ rw (good, other) (_, refl)
        ]
      ]
  assert_action_value-CanApply platform assign value h issue own =
      let (a, read, fine) = >>=-eq-ok (found (as_uuid value) (bad_request invalid_assignee)) _ h in
      let good = found-eq-ok (as_uuid value) (bad_request invalid_assignee) read in
      let here : assert_assignee db issue.platform (some a) ≡ ok tt = rw own fine in
      elim (Bool-cases (elim issue.assignee [ none ↦ false | some b ↦ text_eq (uuid b) value ])) [
        | inl same ↦ rw same (_, refl)
        | inr other ↦ rw (other, good, here) (_, refl)
      ]
  assert_action_value-CanApply platform add_label value h issue own =
      let (l, read, owned) = >>=-eq-ok (found (as_uuid value) (bad_request invalid_label)) _ h in
      let good = found-eq-ok (as_uuid value) (bad_request invalid_label) read in
      let there =
        is_on_platform_found platform (find label_id l db.labels)
          (require-eq-ok _ (bad_request label_not_found) owned) in
      rw (good, there) (_, refl)

  create_rule-IsApplicable :
      (fresh : ℕ) (staff : AuthenticatedStaff) (platform : ℕ) (dto : CreateAutomationRuleDto)
      (rules rules' : List AutomationRule)
      → All IsApplicable rules
      → create_rule as_uuid db fresh staff platform dto rules ≡ ok rules'
      → All IsApplicable rules'
  unfolding create_rule new_rule
  create_rule-IsApplicable fresh staff platform dto rules rules' all h =
      let h1 = >>-eq-ok (assert_access staff platform) _ h in
      let check = assert_action_value as_uuid db platform dto.action dto.action_value in
      subst (All IsApplicable) (ok-injective (>>-eq-ok check _ h1)) (
        assert_action_value-CanApply platform dto.action dto.action_value
            (>>-eq-ok_first check _ h1),
        all,
      )

  owned_rule_inv :
      (platform id : ℕ) (rules : List AutomationRule) (r : AutomationRule)
      → owned_rule as_uuid db platform id rules ≡ ok r
      → (find rule_id id rules ≡ some r) × (r.platform ≡ platform)
  unfolding owned_rule
  owned_rule_inv platform id rules r h =
      let (r', there, h1) =
        >>=-eq-ok (found (find rule_id id rules) (not_found rule_not_found)) _ h in
      let check = require (r'.platform == platform) (not_found rule_not_found) in
      let same : r' ≡ r = ok-injective (>>-eq-ok check (ok r') h1) in
      let owned : (r'.platform == platform) ≡ true =
        require-eq-ok _ (not_found rule_not_found) (>>-eq-ok_first check (ok r') h1) in
      let stands = found-eq-ok (find rule_id id rules) (not_found rule_not_found) there in
      subst (λ x. (find rule_id id rules ≡ some x) × (x.platform ≡ platform)) same
        (stands, ground (arith, owned))

  changed_rule-IsApplicable :
      (platform : ℕ) (dto : UpdateAutomationRuleDto) (r : AutomationRule)
      → r.platform ≡ platform
      → IsApplicable r
      → assert_changed as_uuid db platform dto (changed_rule as_uuid db dto r) ≡ ok tt
      → IsApplicable (changed_rule as_uuid db dto r)
  unfolding changed_rule assert_changed
  changed_rule-IsApplicable platform dto r home old h =
      elim (Bool-cases (is_some dto.action || is_some dto.action_value)) [
        | inl sent ↦
            let checked : assert_action_value as_uuid db platform (given_or dto.action r.action)
                  (given_or dto.action_value r.action_value)
                ≡ ok tt =
              ground (arith, h, sent) in
            λ issue own.
              assert_action_value-CanApply platform (given_or dto.action r.action)
                (given_or dto.action_value r.action_value) checked issue (own ∙ home)
        | inr kept ↦
            let same_action : dto.action ≡ none = ground (arith, kept) in
            let same_value : dto.action_value ≡ none = ground (arith, kept) in
            rw (same_action, same_value) old
      ]

  update_rule-IsApplicable :
      (staff : AuthenticatedStaff) (platform id : ℕ) (dto : UpdateAutomationRuleDto)
      (rules rules' : List AutomationRule)
      → All IsApplicable rules
      → update_rule as_uuid db staff platform id dto rules ≡ ok rules'
      → All IsApplicable rules'
  unfolding update_rule
  update_rule-IsApplicable staff platform id dto rules rules' all h =
      let h1 = >>-eq-ok (assert_access staff platform) _ h in
      let (r, owned, h2) = >>=-eq-ok (owned_rule as_uuid db platform id rules) _ h1 in
      let (there, home) = owned_rule_inv platform id rules r owned in
      let old : IsApplicable r = find-All rule_id IsApplicable id rules r all there in
      let check = assert_changed as_uuid db platform dto (changed_rule as_uuid db dto r) in
      subst (All IsApplicable) (ok-injective (>>-eq-ok check _ h2)) (
        All-put rule_id IsApplicable (changed_rule as_uuid db dto r) rules
          (changed_rule-IsApplicable platform dto r home old (>>-eq-ok_first check _ h2)) all)

  remove_rule-IsApplicable :
      (staff : AuthenticatedStaff) (platform id : ℕ) (rules rules' : List AutomationRule)
      → All IsApplicable rules
      → remove_rule as_uuid db staff platform id rules ≡ ok rules'
      → All IsApplicable rules'
  unfolding remove_rule
  remove_rule-IsApplicable staff platform id rules rules' all h =
      let h1 = >>-eq-ok (assert_access staff platform) _ h in
      let (r, owned, h2) = >>=-eq-ok (owned_rule as_uuid db platform id rules) _ h1 in
      subst (All IsApplicable) (ok-injective h2) (All-remove rule_id IsApplicable r.id rules all)

  -- A request to the rules of a platform that succeeds keeps every rule applicable: its action
  -- succeeds on every issue of its platform, with the accounts, grants and labels of the request.
  pub handle-IsApplicable :
      (staff : AuthenticatedStaff) (platform : ℕ) (request : Request)
      (rules rules' : List AutomationRule)
      → All IsApplicable rules
      → handle as_uuid db staff platform request rules ≡ ok rules'
      → All IsApplicable rules'
  unfolding handle
  handle-IsApplicable staff platform (creates fresh dto) rules rules' all h =
      create_rule-IsApplicable fresh staff platform dto rules rules' all h
  handle-IsApplicable staff platform (updates id dto) rules rules' all h =
      update_rule-IsApplicable staff platform id dto rules rules' all h
  handle-IsApplicable staff platform (removes id) rules rules' all h =
      remove_rule-IsApplicable staff platform id rules rules' all h
