-- ===== src/Issues/Lifecycle.antt =====
-- The bookkeeping that goes with an issue's status, and that every staff write keeps it.
use cimp.Prelude.{
  ℕ, true, ◌≡◌, ◌≢◌, refl, none, some, arith, ◌==◌, ==_iff, ◌∙◌, sym, ◌⊎◌, inl, inr, Bool-cases,
  is_some,
}
use mathlib.Core.Path.{subst}
use cimp.Prelude.Table.{find-key}
use cimp.Domain.{
  IssueStatus, new, in_progress, on_hold, resolved, closed, reopened, open_issue_statuses,
  includes_status, ok, Event,
}
use cimp.Store.{Issue, AuditAction, Db, Orm, issue_id}
use cimp.Store.Writes.{
  find_issue, saved, save_issue, emit, record_audit, find-save_issue, find-save_issue_ne,
}
use cimp.Issues.{
  Context, UpdateStatusDto, UpdatePriorityDto, UpdateAssignmentDto, can_transition,
  apply_status_side_effects, load_for_write, commit, change_status, change_priority,
  change_assignment, apply_status, apply_priority, apply_assignment,
}
use cimp.Issues.Effect.{
  >>=-eq-ok, found-eq-ok, apply_status_inv, apply_priority_inv, apply_assignment_inv,
}

-- The timestamps and the pointer that belong to a status: an issue is stamped closed exactly while
-- it is closed, stamped resolved while it is resolved and never while it is live work, and only a
-- closed issue is the duplicate of another.
pub record IsConsistent (i : Issue) : Type 0 where
  pub closed_stamped : i.status ≡ closed → is_some i.closed_at ≡ true
  pub open_unstamped : i.status ≢ closed → i.closed_at ≡ none
  pub resolved_stamped : i.status ≡ resolved → is_some i.resolved_at ≡ true
  pub live_unresolved : includes_status open_issue_statuses i.status ≡ true → i.resolved_at ≡ none
  pub duplicate_closed : is_some i.duplicate_of ≡ true → i.status ≡ closed

abbrev pub IsConsistentDb : Db → Type 0
IsConsistentDb db = (j : ℕ) (i : Issue) → find_issue j db ≡ some i → IsConsistent i

-- The columns that the ORM manages play no part in it.
pub saved-IsConsistent :
    (orm : Orm) (now : ℕ) (before after : Issue)
    → IsConsistent after
    → IsConsistent (saved orm now before after)
saved-IsConsistent orm now before after k = record {
  closed_stamped = k.closed_stamped;
  open_unstamped = k.open_unstamped;
  resolved_stamped = k.resolved_stamped;
  live_unresolved = k.live_unresolved;
  duplicate_closed = k.duplicate_closed;
}

pub saved-IsConsistent_back :
    (orm : Orm) (now : ℕ) (before after : Issue)
    → IsConsistent (saved orm now before after)
    → IsConsistent after
saved-IsConsistent_back orm now before after k = record {
  closed_stamped = k.closed_stamped;
  open_unstamped = k.open_unstamped;
  resolved_stamped = k.resolved_stamped;
  live_unresolved = k.live_unresolved;
  duplicate_closed = k.duplicate_closed;
}

-- Saving one consistent row keeps the table consistent.
pub save_issue-IsConsistentDb :
    (orm : Orm) (now : ℕ) (before after : Issue) (db : Db)
    → find_issue before.id db ≡ some before
    → after.id ≡ before.id
    → IsConsistent after
    → IsConsistentDb db
    → IsConsistentDb (save_issue orm now before after db)
save_issue-IsConsistentDb orm now before after db there same new_row old j i h =
    let row = subst (λ k. find_issue k db ≡ some before) (sym same) there in
    elim (Bool-cases (after.id == j)) [
      | inl here ↦
          let at : find_issue j (save_issue orm now before after db)
              ≡ some (saved orm now before after) =
            subst
              (λ k.
                find_issue k (save_issue orm now before after db)
                ≡ some (saved orm now before after))
              ((==_iff after.id j).0 here) (find-save_issue orm now before after db row) in
          let same_row : saved orm now before after ≡ i = ground (arith, h, at) in
          subst IsConsistent same_row (saved-IsConsistent orm now before after new_row)
      | inr other ↦ old j i (sym (find-save_issue_ne j orm now before after db other) ∙ h)
    ]

-- The transaction of a staff write writes nothing else to the table.
pub commit-IsConsistentDb :
    (c : Context) (before after : Issue) (a : AuditAction) (e : Event) (db : Db)
    → find_issue before.id db ≡ some before
    → after.id ≡ before.id
    → IsConsistent after
    → IsConsistentDb db
    → IsConsistentDb (commit c before after a e db)
unfolding commit emit record_audit
commit-IsConsistentDb c before after a e db there same new_row old =
    save_issue-IsConsistentDb c.orm c.now before after db there same new_row old

side_effects-IsConsistent :
    (now : ℕ) (to : IssueStatus) (i : Issue)
    → can_transition i.status to ≡ true
    → IsConsistent i
    → IsConsistent (apply_status_side_effects now to (record i { status = to }))
unfolding can_transition apply_status_side_effects
side_effects-IsConsistent now new i h k = ground arith
side_effects-IsConsistent now in_progress i h k = ground arith
side_effects-IsConsistent now on_hold i h k = ground arith
side_effects-IsConsistent now resolved i h k = ground arith
side_effects-IsConsistent now closed i h k = ground arith
side_effects-IsConsistent now reopened i h k = ground arith

pub side_effects-id :
    (now : ℕ) (to : IssueStatus) (i : Issue) → (apply_status_side_effects now to i).id ≡ i.id
unfolding apply_status_side_effects
side_effects-id now to i = ground arith

-- A load answers the row of the id that was asked for.
pub load_for_write_inv :
    (id : ℕ) (db : Db) (i : Issue)
    → load_for_write id db ≡ ok i
    → (i.id ≡ id) × (find_issue i.id db ≡ some i)
unfolding load_for_write
load_for_write_inv id db i h =
    let there = found-eq-ok (find_issue id db) _ h in
    let same = find-key issue_id id db.issues i there in
    (same, subst (λ k. find_issue k db ≡ some i) (sym same) there)

module _ (c : Context) (db db' : Db) (old : IsConsistentDb db) where
  pub apply_status-IsConsistentDb :
      (i : Issue) (dto : UpdateStatusDto)
      → find_issue i.id db ≡ some i
      → apply_status c i dto db ≡ ok db'
      → IsConsistentDb db'
  apply_status-IsConsistentDb i dto there h =
      let (_, _, legal, same) = apply_status_inv c i db db' dto h in
      rw same (
        commit-IsConsistentDb c i _ _ _ db there (side_effects-id c.now dto.status _)
          (side_effects-IsConsistent c.now dto.status i legal (old i.id i there)) old)

  pub apply_priority-IsConsistentDb :
      (i : Issue) (dto : UpdatePriorityDto)
      → find_issue i.id db ≡ some i
      → apply_priority c i dto db ≡ ok db'
      → IsConsistentDb db'
  apply_priority-IsConsistentDb i dto there h =
      let k = old i.id i there in
      let (_, _, same) = apply_priority_inv c i db db' dto h in
      rw same (commit-IsConsistentDb c i _ _ _ db there refl (ground arith) old)

  pub apply_assignment-IsConsistentDb :
      (i : Issue) (dto : UpdateAssignmentDto)
      → find_issue i.id db ≡ some i
      → apply_assignment c i dto db ≡ ok db'
      → IsConsistentDb db'
  apply_assignment-IsConsistentDb i dto there h =
      let k = old i.id i there in
      let (_, _, same) = apply_assignment_inv c i db db' dto h in
      rw same (commit-IsConsistentDb c i _ _ _ db there refl (ground arith) old)

  change_status-IsConsistentDb :
      (id : ℕ) (dto : UpdateStatusDto) → change_status c id dto db ≡ ok db' → IsConsistentDb db'
  unfolding change_status
  change_status-IsConsistentDb id dto h =
      let (i, loaded, applied) = >>=-eq-ok (load_for_write id db) _ h in
      apply_status-IsConsistentDb i dto (load_for_write_inv id db i loaded).1 applied

  change_priority-IsConsistentDb :
      (id : ℕ) (dto : UpdatePriorityDto) → change_priority c id dto db ≡ ok db' → IsConsistentDb db'
  unfolding change_priority
  change_priority-IsConsistentDb id dto h =
      let (i, loaded, applied) = >>=-eq-ok (load_for_write id db) _ h in
      apply_priority-IsConsistentDb i dto (load_for_write_inv id db i loaded).1 applied

  change_assignment-IsConsistentDb :
      (id : ℕ) (dto : UpdateAssignmentDto)
      → change_assignment c id dto db ≡ ok db'
      → IsConsistentDb db'
  unfolding change_assignment
  change_assignment-IsConsistentDb id dto h =
      let (i, loaded, applied) = >>=-eq-ok (load_for_write id db) _ h in
      apply_assignment-IsConsistentDb i dto (load_for_write_inv id db i loaded).1 applied

  -- If every row of the issue table has consistent bookkeeping, every row has after a change of
  -- status, of priority or of the assignment that succeeds.
  pub change-IsConsistentDb :
      (id : ℕ)
      → ((dto : UpdateStatusDto) × (change_status c id dto db ≡ ok db'))
        ⊎ (((dto : UpdatePriorityDto) × (change_priority c id dto db ≡ ok db'))
            ⊎ ((dto : UpdateAssignmentDto) × (change_assignment c id dto db ≡ ok db')))
      → IsConsistentDb db'
  change-IsConsistentDb id (inl (dto, h)) = change_status-IsConsistentDb id dto h
  change-IsConsistentDb id (inr (inl (dto, h))) = change_priority-IsConsistentDb id dto h
  change-IsConsistentDb id (inr (inr (dto, h))) = change_assignment-IsConsistentDb id dto h
