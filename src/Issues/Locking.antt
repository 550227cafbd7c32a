-- ===== src/Issues/Locking.antt =====
-- Optimistic locking: `assertVersion` of src/issues/issues.service.ts with the version column of
-- src/entities/issue.entity.ts.
use mathlib.Core.Path.{subst}
use cimp.Prelude.{
  ℕ, ◌≤◌, ◌<◌, true, List, [], ◌∷◌, ◌≡◌, ◌≢◌, refl, sym, ◌∙◌, Option, some, ◌==◌, arith, inl, inr,
  Bool-cases, All,
}
use cimp.Domain.{IssueStatus, Priority, Event, Result, ok, err, conflict, stale_version}
use cimp.Store.{Issue, Db, Orm, AuditAction}
use cimp.Store.Writes.{find_issue, saved}
use cimp.Issues.{
  Context, UpdateStatusDto, UpdatePriorityDto, UpdateAssignmentDto, commit, can_transition,
  apply_status_side_effects, load_for_write, assert_version, change_status, change_priority,
  change_assignment, apply_status, apply_priority, apply_assignment,
}
use cimp.Issues.Effect.{
  >>=-eq-ok, find-commit, find-commit_ne, apply_status_inv, apply_priority_inv,
  apply_assignment_inv,
}
use cimp.Issues.Lifecycle.{load_for_write_inv, side_effects-id}

-- What `@VersionColumn` does: a save counts the version up if it changes the row, which it does where
-- it changes the status, and a save never counts down.
pub record CountsVersions (orm : Orm) : Type 0 where
  pub kept : (now : ℕ) (before after : Issue) → before.version ≤ orm.saved_version now before after
  pub counted :
      (now : ℕ) (before after : Issue)
      → before.status ≢ after.status
      → before.version < orm.saved_version now before after

assert_version_inv : (i : Issue) (v : ℕ) → assert_version i (some v) ≡ ok tt → v ≡ i.version
unfolding assert_version
assert_version_inv i v h = ground arith

assert_version_stale :
    (i : Issue) (v : ℕ) → v ≢ i.version → assert_version i (some v) ≡ err (conflict stale_version)
unfolding assert_version
assert_version_stale i v h = ground arith

side_effects-status :
    (now : ℕ) (to : IssueStatus) (i : Issue)
    → (apply_status_side_effects now to i).status ≡ i.status
unfolding apply_status_side_effects
side_effects-status now to i = ground arith

can_transition-ne : (s t : IssueStatus) → can_transition s t ≡ true → s ≢ t
unfolding can_transition
can_transition-ne s t h = ground arith

-- The row under the id has a version above `v`.
abbrev IsPast : ℕ → ℕ → Db → Type 0
IsPast id v db = (r : Issue) × (find_issue id db ≡ some r) × (v < r.version)

module _ (c : Context) (counts : CountsVersions c.orm) where
  commit-IsPast_own :
      (i after : Issue) (a : AuditAction) (e : Event) (v : ℕ) (db : Db)
      → find_issue i.id db ≡ some i
      → after.id ≡ i.id
      → v < c.orm.saved_version c.now i after
      → IsPast i.id v (commit c i after a e db)
  commit-IsPast_own i after a e v db there same above = (
    saved c.orm c.now i after,
    find-commit i.id c i after a e db there same ∙ ground arith,
    above,
  )

  -- A commit over any row keeps the versions up.
  commit-IsPast :
      (i after : Issue) (a : AuditAction) (e : Event) (id v : ℕ) (db : Db)
      → find_issue i.id db ≡ some i
      → after.id ≡ i.id
      → IsPast id v db
      → IsPast id v (commit c i after a e db)
  commit-IsPast i after a e id v db there same (r, found, past) = elim (Bool-cases (i.id == id)) [
    | inl here ↦
        let key : i.id ≡ id = ground (arith, here) in
        let row : r ≡ i = cc (found, there, key) in
        subst (λ k. IsPast k v (commit c i after a e db)) key
          (commit-IsPast_own i after a e v db there same
            (omega (arith, subst (λ x. v < x.version) row past, counts.kept c.now i after)))
    | inr other ↦ (r, find-commit_ne id c i after a e db there same other ∙ found, past)
  ]

  -- After a successful status change the row is past the version that was sent.
  apply_status-IsPast_own :
      (i : Issue) (v : ℕ) (to : IssueStatus) (db db' : Db)
      → find_issue i.id db ≡ some i
      → apply_status c i (record { status = to; version = some v }) db ≡ ok db'
      → IsPast i.id v db'
  apply_status-IsPast_own i v to db db' there h =
      let (current, _, legal, made) = apply_status_inv c i db db' _ h in
      let after : Issue = apply_status_side_effects c.now to (record i { status = to }) in
      let other : i.status ≢ after.status =
        rw (side_effects-status c.now to (record i { status = to }))
          (can_transition-ne i.status to legal) in
      subst (IsPast i.id v) (sym made) (
        commit-IsPast_own i after _ _ v db there
          (side_effects-id c.now to (record i { status = to }))
          (omega (arith, assert_version_inv i v current, counts.counted c.now i after other)))

  change_status-IsPast_own :
      (id v : ℕ) (to : IssueStatus) (db db' : Db)
      → change_status c id (record { status = to; version = some v }) db ≡ ok db'
      → IsPast id v db'
  unfolding change_status
  change_status-IsPast_own id v to db db' h =
      let (i, loaded, applied) = >>=-eq-ok (load_for_write id db) _ h in
      let (same, there) = load_for_write_inv id db i loaded in
      subst (λ k. IsPast k v db') same (apply_status-IsPast_own i v to db db' there applied)

-- A write of the staff on an issue.
pub data StaffWrite : Type 0 where
  status_write : ℕ → UpdateStatusDto → StaffWrite
  priority_write : ℕ → UpdatePriorityDto → StaffWrite
  assignment_write : ℕ → UpdateAssignmentDto → StaffWrite

abbrev pub perform : Context → StaffWrite → Db → Result Db
perform c (status_write id dto) db = change_status c id dto db
perform c (priority_write id dto) db = change_priority c id dto db
perform c (assignment_write id dto) db = change_assignment c id dto db

-- The database after a write; one that fails is rolled back.
abbrev pub left_by : Result Db → Db → Db
left_by (ok db') db = db'
left_by (err e) db = db

abbrev pub perform_all : List (Context × StaffWrite) → Db → Db
perform_all [] db = db
perform_all ((c, w) ∷ ws) db = perform_all ws (left_by (perform c w db) db)

perform-IsPast :
    (c : Context) (w : StaffWrite) (id v : ℕ) (db db' : Db)
    → CountsVersions c.orm
    → IsPast id v db
    → perform c w db ≡ ok db'
    → IsPast id v db'
unfolding change_status change_priority change_assignment
perform-IsPast c (status_write k dto) id v db db' counts past h =
    let (i, loaded, applied) = >>=-eq-ok (load_for_write k db) _ h in
    let (_, there) = load_for_write_inv k db i loaded in
    subst (IsPast id v) (sym (apply_status_inv c i db db' dto applied).3)
      (commit-IsPast c counts i _ _ _ id v db there (side_effects-id c.now dto.status _) past)
perform-IsPast c (priority_write k dto) id v db db' counts past h =
    let (i, loaded, applied) = >>=-eq-ok (load_for_write k db) _ h in
    let (_, there) = load_for_write_inv k db i loaded in
    subst (IsPast id v) (sym (apply_priority_inv c i db db' dto applied).2)
      (commit-IsPast c counts i _ _ _ id v db there refl past)
perform-IsPast c (assignment_write k dto) id v db db' counts past h =
    let (i, loaded, applied) = >>=-eq-ok (load_for_write k db) _ h in
    let (_, there) = load_for_write_inv k db i loaded in
    subst (IsPast id v) (sym (apply_assignment_inv c i db db' dto applied).2)
      (commit-IsPast c counts i _ _ _ id v db there refl past)

left_by-IsPast :
    (c : Context) (w : StaffWrite) (id v : ℕ) (db : Db) (x : Result Db)
    → CountsVersions c.orm
    → IsPast id v db
    → perform c w db ≡ x
    → IsPast id v (left_by x db)
left_by-IsPast c w id v db (ok db') counts past h = perform-IsPast c w id v db db' counts past h
left_by-IsPast c w id v db (err e) counts past h = past

perform_all-IsPast :
    (ws : List (Context × StaffWrite)) (id v : ℕ) (db : Db)
    → All (λ w. CountsVersions w.0.orm) ws
    → IsPast id v db
    → IsPast id v (perform_all ws db)
perform_all-IsPast [] id v db counts past = past
perform_all-IsPast ((c, w) ∷ ws) id v db (here, counts) past =
    perform_all-IsPast ws id v (left_by (perform c w db) db) counts
      (left_by-IsPast c w id v db (perform c w db) here past refl)

-- Two clients read an issue at the same version. If the status change of the first succeeds, then
-- after any further status, priority and assignment writes, on whatever issues and by whomever, of
-- which those that fail change nothing, every such write of the second that carries that version is
-- refused as stale. The ORM is assumed never to count a version down, and to count it up where a
-- save changes the status.
pub stale_write_refused :
    (c c' : Context) (id v : ℕ) (to : IssueStatus) (db db' : Db)
    (between : List (Context × StaffWrite))
    → CountsVersions c.orm
    → All (λ w. CountsVersions w.0.orm) between
    → change_status c id (record { status = to; version = some v }) db ≡ ok db'
    → ((s : IssueStatus)
        → change_status c' id (record { status = s; version = some v }) (perform_all between db')
          ≡ err (conflict stale_version))
      × ((p : Priority)
          → change_priority c' id
              (record { priority = p; version = some v })
              (perform_all between db')
            ≡ err (conflict stale_version))
      × ((a : Option ℕ)
          → change_assignment c' id
              (record { assignee_id = a; version = some v })
              (perform_all between db')
            ≡ err (conflict stale_version))
unfolding change_status change_priority change_assignment load_for_write apply_status apply_priority
    apply_assignment
stale_write_refused c c' id v to db db' between counts all_count first =
    let (r, there, past) =
      perform_all-IsPast between id v db' all_count
        (change_status-IsPast_own c counts id v to db db' first) in
    let stale = assert_version_stale r v (λ same. absurd (omega (arith, same, past))) in
    (λ s. rw (there, stale), λ p. rw (there, stale), λ a. rw (there, stale))
