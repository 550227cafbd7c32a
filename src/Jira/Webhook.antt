-- ===== src/Jira/Webhook.antt =====
-- The bookkeeping of a status under inbound webhooks.
use mathlib.Core.Path.{subst}
use text.Mathlib.Text.{◌==◌ as text_eq}
use text.Mathlib.TextEquality.{eq_iff}
use cimp.Prelude.{
  ℕ, false, ◌≡◌, ◌≢◌, ◌↔◌, refl, sym, ap, ◌||◌, any, ◌∙◌, some, arith, inl, inr, ◌⊎◌, Bool-cases,
  String,
}
use cimp.Domain.{IssueStatus, new, in_progress, on_hold, resolved, closed, reopened, same_status}
use cimp.Store.{Issue, Db, Orm}
use cimp.Store.Writes.{find_issue, saved, record_audit, find-save_issue_at}
use cimp.Issues.{apply_status_side_effects}
use cimp.Issues.Lifecycle.{
  IsConsistent, IsConsistentDb, save_issue-IsConsistentDb, saved-IsConsistent_back, side_effects-id,
}
use cimp.Jira.{
  find_by_jira_key, resolve_target, write_target, apply_known, applied, category_of, known,
  unlisted, object_members, inherited, unknown, apply_webhook, apply_category, apply_inherited,
  is_missing, Category, apply_present,
}

-- Every status that a webhook can set keeps the bookkeeping, but for RESOLVED over CLOSED.
target-IsConsistent :
    (now : ℕ) (mapped : IssueStatus) (i : Issue)
    → IsConsistent i
    → (mapped ≡ new) ⊎ ((mapped ≡ in_progress) ⊎ (mapped ≡ resolved))
    → same_status i.status (resolve_target i.status mapped) ≡ false
    → ¬ ((i.status ≡ closed) × (mapped ≡ resolved))
    → IsConsistent (
        apply_status_side_effects now
          (resolve_target i.status mapped)
          (record i { status = resolve_target i.status mapped }))
unfolding apply_status_side_effects resolve_target
target-IsConsistent now new i k m differs clear = ground arith
target-IsConsistent now in_progress i k m differs clear = ground arith
target-IsConsistent now on_hold i k m differs clear = absurd (ground arith)
target-IsConsistent now resolved i k m differs clear = ground arith
target-IsConsistent now closed i k m differs clear = absurd (ground arith)
target-IsConsistent now reopened i k m differs clear = absurd (ground arith)

reopen-IsConsistent :
    (now : ℕ) (i : Issue)
    → IsConsistent i
    → IsConsistent (apply_status_side_effects now reopened (record i { status = reopened }))
unfolding apply_status_side_effects
reopen-IsConsistent now i k = ground arith

-- Resolving a closed issue leaves it stamped closed.
resolve_closed :
    (now : ℕ) (i : Issue)
    → i.status ≡ closed
    → IsConsistent i
    → ¬ IsConsistent (apply_status_side_effects now resolved (record i { status = resolved }))
unfolding apply_status_side_effects
resolve_closed now i shut k bad =
    let stamped = k.closed_stamped shut in
    let clear = bad.open_unstamped (λ e. cc e) in ground (arith, stamped, clear)

module _ (orm : Orm) (now : ℕ) (i : Issue) (db : Db) (row : find_issue i.id db ≡ some i)
    (old : IsConsistentDb db) where
  write_target-IsConsistentDb :
      (target : IssueStatus)
      → IsConsistent (apply_status_side_effects now target (record i { status = target }))
      → IsConsistentDb (write_target orm now i target db)
  unfolding write_target record_audit
  write_target-IsConsistentDb target k =
      save_issue-IsConsistentDb orm now i _ db row (side_effects-id now target _) k old

  write_target_row :
      (target : IssueStatus)
      → find_issue i.id (write_target orm now i target db)
        ≡ some
            (saved orm now i (apply_status_side_effects now target (record i { status = target })))
  unfolding write_target record_audit apply_status_side_effects
  write_target_row target = find-save_issue_at orm now i _ db row (side_effects-id now target _)

unlisted-ne-known : (key : String) (s : IssueStatus) → unlisted key ≢ known s
unfolding unlisted
unlisted-ne-known key s h = elim (Bool-cases (any (text_eq key) object_members)) [
  | inl member ↦ ground (arith, member)
  | inr other ↦ ground (arith, other)
]

-- The statuses that the table lists, RESOLVED for the key `done` alone.
category_of-known :
    (key : String) (s : IssueStatus)
    → category_of key ≡ known s
    → ((s ≡ new) ⊎ ((s ≡ in_progress) ⊎ (s ≡ resolved))) × ((s ≡ resolved) ↔ (key ≡ "done"))
unfolding category_of
category_of-known key s h = ground (
  arith,
  unlisted-ne-known key s,
  eq_iff key "new",
  eq_iff key "indeterminate",
  eq_iff key "done",
  eq_iff "new" "done",
  eq_iff "indeterminate" "done",
)

category_of-done : category_of "done" ≡ known resolved
unfolding category_of
category_of-done = refl

module _ (orm : Orm) (now : ℕ) (key category : String) (i : Issue) (db db' : Db)
    (linked : find_by_jira_key key db.issues ≡ some i) (row : find_issue i.id db ≡ some i)
    (old : IsConsistentDb db) where
  apply_known_inv :
      (s : IssueStatus)
      → apply_known orm now key s db ≡ applied db'
      → (same_status i.status (resolve_target i.status s) ≡ false)
        × (write_target orm now i (resolve_target i.status s) db ≡ db')
  unfolding apply_known
  apply_known_inv s h = (ground (arith, linked), ground (arith, linked))

  apply_inherited_inv :
      apply_inherited orm now key db ≡ applied db' → write_target orm now i reopened db ≡ db'
  unfolding apply_inherited
  apply_inherited_inv h = ground (arith, linked)

  target_resolved : (from : IssueStatus) → resolve_target from resolved ≡ resolved
  unfolding resolve_target
  target_resolved from = refl

  broken :
      (s : IssueStatus)
      → s ≡ resolved
      → i.status ≡ closed
      → write_target orm now i (resolve_target i.status s) db ≡ db'
      → ¬ IsConsistentDb db'
  broken s done shut made bad =
      let target : resolve_target i.status s ≡ resolved = rw done (target_resolved i.status) in
      resolve_closed now i shut (old i.id i row) (
        saved-IsConsistent_back orm now i _
          (bad i.id _ (rw (← made, target) (write_target_row orm now i db row old resolved))))

  by_category :
      (c : Category)
      → category_of category ≡ c
      → apply_category orm now key c db ≡ applied db'
      → IsConsistentDb db' ↔ (¬ ((i.status ≡ closed) × (category ≡ "done")))
  unfolding apply_category
  by_category (known s) e h =
      let (differs, made) = apply_known_inv s h in
      let (listed, done) = category_of-known category s e in
      (
        λ kept clash. broken s (done.1 clash.1) clash.0 made kept,
        λ clear. subst IsConsistentDb made (
            write_target-IsConsistentDb orm now i db row old (resolve_target i.status s) (
              target-IsConsistent now s i (old i.id i row) listed differs
                (λ clash. clear (clash.0, done.0 clash.1)))),
      )
  by_category inherited e h = (
    λ kept clash. cc (sym e ∙ (ap category_of clash.1 ∙ category_of-done)),
    λ clear. subst IsConsistentDb (apply_inherited_inv h) (
        write_target-IsConsistentDb orm now i db row old reopened
          (reopen-IsConsistent now i (old i.id i row))),
  )
  by_category unknown e h = absurd (ground arith)

-- The bookkeeping survives a webhook that is applied, whatever its category, but for one case: a
-- category `done` on an issue that is closed here. That write makes the issue RESOLVED with its
-- closing time still set, a transition that the status machine does not have.
pub apply_webhook-IsConsistentDb_iff :
    (orm : Orm) (now : ℕ) (key category : String) (i : Issue) (db db' : Db)
    → find_by_jira_key key db.issues ≡ some i
    → find_issue i.id db ≡ some i
    → IsConsistentDb db
    → apply_webhook orm now (some key) (some category) db ≡ applied db'
    → IsConsistentDb db' ↔ (¬ ((i.status ≡ closed) × (category ≡ "done")))
unfolding apply_webhook apply_present
apply_webhook-IsConsistentDb_iff orm now key category i db db' linked row old h =
    by_category orm now key category i db db' linked row old (category_of category) refl
      (elim (Bool-cases (is_missing (some key) || is_missing (some category))) [
        | inl missing ↦ absurd (ground (arith, missing))
        | inr there ↦ ground (arith, there)
      ])
