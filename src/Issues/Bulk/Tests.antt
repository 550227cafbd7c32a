-- ===== src/Issues/Bulk/Tests.antt =====
-- Runs of bulk updates on the help desk.
use cimp.Prelude.{ℕ, ◌≡◌, refl, none, some, Option, String, [], ◌∷◌}
use cimp.Prelude.Table.{find, put}
use cimp.Domain.{ok, high, critical, Event}
use cimp.Authz.{can_access_platform, scoped_platform_ids}
use cimp.Store.{Db, AuditAction}
use cimp.Store.Writes.{find_issue, save_issue, record_audit, emit}
use cimp.Issues.{commit, load_for_write, assert_version, apply_priority}
use cimp.Issues.Bulk.{
  BulkUpdateDto, BulkResult, priority, not_visible, bulk_update, bulk_loop, bulk_one, apply_change,
  outcome_of, validate, parse_priority, reason_of,
}
use cimp.Issues.Bulk.Accounting.{bulk_update_isolation}
use cimp.Scenario.{desk, as_dev, portal_down, elsewhere}

abbrev no_uuid : String → Option ℕ
no_uuid s = none

-- An issue of the developer's platform, one of another platform, and one that does not exist.
abbrev raise_three : BulkUpdateDto
raise_three = record { ids = 1 ∷ 3 ∷ 9 ∷ []; op = priority; value = "CRITICAL" }

abbrev raised : BulkResult × Db
raised = (
  record { updated = 1; skipped = (3, not_visible) ∷ (9, not_visible) ∷ [] },
  commit as_dev portal_down (record portal_down { priority = critical })
      (AuditAction.priority_changed high critical)
      (Event.priority_changed 1 7 high critical (some 40)) desk,
)

raised_run : bulk_update no_uuid as_dev raise_three desk ≡ ok raised
unfolding bulk_update bulk_loop bulk_one apply_change outcome_of validate parse_priority reason_of
    load_for_write apply_priority assert_version find can_access_platform scoped_platform_ids commit
    save_issue put record_audit emit
raised_run = refl

bulk_update_isolation_example : find_issue 3 raised.1 ≡ some elsewhere
unfolding find can_access_platform
bulk_update_isolation_example =
    bulk_update_isolation no_uuid as_dev raise_three desk 3 elsewhere raised refl refl raised_run
