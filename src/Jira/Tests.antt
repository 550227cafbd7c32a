-- ===== src/Jira/Tests.antt =====
-- A webhook that resolves an issue of the help desk.
use cimp.Prelude.{◌≡◌, ◌↔◌, refl, String}
use cimp.Prelude.Table.{find}
use cimp.Domain.{resolved, closed}
use cimp.Store.{Db}
use cimp.Issues.Lifecycle.{IsConsistentDb}
use cimp.Jira.{
  apply_webhook, apply_present, apply_category, apply_known, category_of, resolve_target,
  find_by_jira_key, has_key, is_missing, write_target,
}
use cimp.Jira.Webhook.{apply_webhook-IsConsistentDb_iff}
use cimp.Scenario.{desk, counting, portal_down, desk-IsConsistentDb}

abbrev resolved_desk : Db
resolved_desk = write_target counting 600 portal_down resolved desk

apply_webhook-IsConsistentDb_iff_example :
    IsConsistentDb resolved_desk
    ↔ (¬ ((portal_down.status ≡ closed) × (◌≡◌ {A = String} "done" "done")))
unfolding apply_webhook apply_present apply_category apply_known category_of resolve_target
    find_by_jira_key has_key is_missing find
apply_webhook-IsConsistentDb_iff_example =
    apply_webhook-IsConsistentDb_iff counting 600 "OPS-1" "done" portal_down desk resolved_desk refl
      refl desk-IsConsistentDb refl
