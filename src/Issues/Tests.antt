-- ===== src/Issues/Tests.antt =====
-- Runs of the staff writes on the help desk.
use cimp.Prelude.{ℕ, ◌≡◌, List, [], ◌∷◌, refl, inl, none, some, arith, Option}
use cimp.Prelude.Table.{find}
use cimp.Domain.{
  IssueStatus, Priority, in_progress, resolved, critical, err, conflict, stale_version, Event,
}
use cimp.Authz.{can_access_platform}
use cimp.Store.{Db, AuditAction}
use cimp.Issues.{
  Context, commit, apply_status_side_effects, change_status, change_priority, change_assignment,
  load_for_write, assert_version, apply_status, assert_can_transition, can_transition,
  transition_roles, status_transitions,
}
use cimp.Issues.Lifecycle.{IsConsistentDb, change-IsConsistentDb}
use cimp.Issues.Locking.{
  CountsVersions, StaffWrite, status_write, priority_write, perform_all, stale_write_refused,
}
use cimp.Scenario.{desk, as_dev, counting, portal_down, desk-IsConsistentDb}

abbrev after_resolve : Db
after_resolve =
    commit as_dev portal_down
      (apply_status_side_effects 500 resolved (record portal_down { status = resolved }))
      (AuditAction.status_changed in_progress resolved)
      (Event.status_changed 1 7 in_progress resolved (some 40)) desk

change-IsConsistentDb_example : IsConsistentDb after_resolve
unfolding change_status load_for_write apply_status assert_version assert_can_transition
    transition_roles can_access_platform can_transition status_transitions find
change-IsConsistentDb_example =
    change-IsConsistentDb as_dev desk after_resolve desk-IsConsistentDb 1
      (inl (record { status = resolved; version = some 1 }, refl))

counting-CountsVersions : CountsVersions counting
counting-CountsVersions = record {
  kept = λ now before after. omega arith;
  counted = λ now before after other. omega arith;
}

-- A new issue is to be resolved, which is not allowed, and the priority of the resolved one is raised.
abbrev between : List (Context × StaffWrite)
between =
    (as_dev, status_write 2 (record { status = resolved; version = none }))
    ∷ (as_dev, priority_write 1 (record { priority = critical; version = some 2 }))
    ∷ []

stale_write_refused_example :
    ((s : IssueStatus)
      → change_status as_dev 1
          (record { status = s; version = some 1 })
          (perform_all between after_resolve)
        ≡ err (conflict stale_version))
    × ((p : Priority)
        → change_priority as_dev 1
            (record { priority = p; version = some 1 })
            (perform_all between after_resolve)
          ≡ err (conflict stale_version))
    × ((a : Option ℕ)
        → change_assignment as_dev 1
            (record { assignee_id = a; version = some 1 })
            (perform_all between after_resolve)
          ≡ err (conflict stale_version))
unfolding change_status load_for_write apply_status assert_version assert_can_transition
    transition_roles can_access_platform can_transition status_transitions find
stale_write_refused_example =
    stale_write_refused as_dev as_dev 1 1 resolved desk after_resolve between
      counting-CountsVersions (counting-CountsVersions, (counting-CountsVersions, tt)) refl
