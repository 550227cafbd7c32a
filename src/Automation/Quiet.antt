-- ===== src/Automation/Quiet.antt =====
-- What the rules of src/issues/automation.service.ts leave alone.
use mathlib.Core.Path.{subst}
use text.Mathlib.Text.{◌==◌ as text_eq}
use cimp.Prelude.Table.{find}
use cimp.Prelude.{
  ℕ, Bool, true, false, List, [], ◌∷◌, ◌++◌, ◌≡◌, ◌&&◌, refl, sym, ap, ◌∙◌, Option, none, some,
  String, ◌==◌, all, is_some, if◌then◌else◌, map, arith, inl, inr, Bool-cases, any,
}
use cimp.Domain.{
  IssueStatus, system_actor, same_priority, Event, Result, ok, err, require, found, bad_request,
  server_error, invalid_assignee, invalid_priority, foreign_key,
}
use cimp.Domain.Results.{>>=-eq-ok, >>-eq-ok, ok-injective}
use cimp.Store.{Issue, AuditAction, Db, Orm}
use cimp.Store.Writes.{find_issue, record_audit, emit}
use cimp.Issues.{assert_assignee}
use cimp.Issues.Bulk.{parse_priority}
use cimp.Automation.{
  AutomationRule, AutomationAction, set_priority, assign, add_label, update_issue, attach_label,
  rules_for_created, rules_for_status, label_id, set_issue_priority, assign_issue, label_issue,
  apply_action, or_same, rules_loop, apply_rules, apply_for_created, apply_for_status_changed,
}

-- The columns of an issue's workflow, which decide what may happen to it.
abbrev pub lifecycle : Issue → ℕ × ℕ × IssueStatus × Option ℕ × Option ℕ × Option ℕ
lifecycle i = (i.id, i.platform, i.status, i.resolved_at, i.closed_at, i.duplicate_of)

-- The event is none of the two that run rules.
abbrev pub runs_no_rule : Event → Bool
runs_no_rule (Event.created issue platform) = false
runs_no_rule (Event.status_changed issue platform from to actor) = false
runs_no_rule _ = true

pub record IsQuiet (db db' : Db) : Type 0 where
  pub kept : map lifecycle db'.issues ≡ map lifecycle db.issues
  pub sent : List Event
  pub events : db'.events ≡ sent ++ db.events
  pub quiet : all runs_no_rule sent ≡ true

IsQuiet-refl : (db : Db) → IsQuiet db db
IsQuiet-refl db = record { kept = refl; sent = []; events = refl; quiet = refl }

append_assoc : (xs ys zs : List Event) → (xs ++ ys) ++ zs ≡ xs ++ (ys ++ zs)
append_assoc [] ys zs = refl
append_assoc (x ∷ xs) ys zs = ap (λ r. x ∷ r) (append_assoc xs ys zs)

all-append :
    (xs ys : List Event)
    → all runs_no_rule xs ≡ true
    → all runs_no_rule ys ≡ true
    → all runs_no_rule (xs ++ ys) ≡ true
all-append [] ys h k = k
all-append (x ∷ xs) ys h k = ground (arith, h, all-append xs ys, k)

IsQuiet-trans : (a b c : Db) → IsQuiet a b → IsQuiet b c → IsQuiet a c
IsQuiet-trans a b c p q = record {
  kept = q.kept ∙ p.kept;
  sent = q.sent ++ p.sent;
  events = q.events ∙ ap (λ xs. q.sent ++ xs) p.events ∙ sym (append_assoc q.sent p.sent a.events);
  quiet = all-append q.sent p.sent q.quiet p.quiet;
}

lifecycle-map :
    (f : Issue → Issue)
    → ((i : Issue) → lifecycle (f i) ≡ lifecycle i)
    → (rows : List Issue) → map lifecycle (map f rows) ≡ map lifecycle rows
lifecycle-map f same [] = refl
lifecycle-map f same (i ∷ rows) =
    ap (λ x. x ∷ map lifecycle (map f rows)) (same i)
    ∙ ap (λ xs. lifecycle i ∷ xs) (lifecycle-map f same rows)

lifecycle-update_issue :
    (orm : Orm) (now id : ℕ) (change : Issue → Issue)
    → ((i : Issue) → lifecycle (change i) ≡ lifecycle i)
    → (db : Db) → map lifecycle (update_issue orm now id change db).issues ≡ map lifecycle db.issues
unfolding update_issue
lifecycle-update_issue orm now id change same db =
    lifecycle-map _
      (λ i. elim (Bool-cases (i.id == id)) [
        | inl here ↦ rw here (same i)
        | inr other ↦ rw other refl
      ])
      db.issues

attach_label-IsQuiet : (issue label : ℕ) (db : Db) → IsQuiet db (attach_label issue label db)
unfolding attach_label
attach_label-IsQuiet issue label db =
    elim (Bool-cases (any (λ r. r.issue == issue && r.label == label) db.issue_labels)) [
      | inl there ↦ rw there (IsQuiet-refl db)
      | inr absent ↦ rw absent (record { kept = refl; sent = []; events = refl; quiet = refl })
    ]

module _ (orm : Orm) (as_uuid : String → Option ℕ) (uuid : ℕ → String) (now : ℕ) where
  update_issue-IsQuiet :
      (id : ℕ) (change : Issue → Issue) (e : Event) (action : AuditAction) (db : Db)
      → ((i : Issue) → lifecycle (change i) ≡ lifecycle i)
      → runs_no_rule e ≡ true
      → IsQuiet db
          (emit e (record_audit id system_actor none action (update_issue orm now id change db)))
  unfolding emit record_audit update_issue
  update_issue-IsQuiet id change e action db same silent = record {
    kept = lifecycle-update_issue orm now id change same db;
    sent = e ∷ [];
    events = refl;
    quiet = ground (arith, silent);
  }

  or_same-IsQuiet :
      (issue : Issue) (db : Db) (r : Result (Issue × Db))
      → ((s : Issue × Db) → r ≡ ok s → IsQuiet db s.1)
      → IsQuiet db (or_same orm as_uuid uuid now issue db r).1
  unfolding or_same
  or_same-IsQuiet issue db (ok s) h = h s refl
  or_same-IsQuiet issue db (err e) h = IsQuiet-refl db

  assign_issue-IsQuiet :
      (value : String) (issue : Issue) (db : Db) (s : Issue × Db)
      → assign_issue orm as_uuid uuid now value issue db ≡ ok s
      → IsQuiet db s.1
  unfolding assign_issue
  assign_issue-IsQuiet value issue db s h =
      let (a, read, rest) = >>=-eq-ok (found (as_uuid value) (bad_request invalid_assignee)) _ h in
      subst (λ x. IsQuiet db x.1)
        (ok-injective (>>-eq-ok (assert_assignee db issue.platform (some a)) _ rest))
        (update_issue-IsQuiet issue.id (λ i. record i { assignee = some a }) _ _ db (λ i. refl)
          refl)

  label_issue-IsQuiet :
      (value : String) (issue : Issue) (db : Db) (s : Issue × Db)
      → label_issue orm as_uuid uuid now value issue db ≡ ok s
      → IsQuiet db s.1
  unfolding label_issue record_audit
  label_issue-IsQuiet value issue db s h =
      let (l, read, rest) = >>=-eq-ok (found (as_uuid value) (server_error foreign_key)) _ h in
      let q = attach_label-IsQuiet issue.id l db in
      subst (λ x. IsQuiet db x.1)
        (ok-injective (
          >>-eq-ok (require (is_some (find label_id l db.labels)) (server_error foreign_key)) _
            rest))
        (record { kept = q.kept; sent = q.sent; events = q.events; quiet = q.quiet })

  -- A rule that has nothing to change, or one that has.
  unless_same :
      (b : Bool) (issue : Issue) (db : Db) (r : Result (Issue × Db)) (s : Issue × Db)
      → ((if b then ok (issue, db) else r) ≡ ok s)
      → (r ≡ ok s → IsQuiet db s.1)
      → IsQuiet db s.1
  unless_same true issue db r s h k = subst (λ x. IsQuiet db x.1) (ok-injective h) (IsQuiet-refl db)
  unless_same false issue db r s h k = k h

  apply_action-IsQuiet :
      (action : AutomationAction) (value : String) (issue : Issue) (db : Db) (s : Issue × Db)
      → apply_action orm as_uuid uuid now action value issue db ≡ ok s
      → IsQuiet db s.1
  unfolding apply_action set_issue_priority assign_issue label_issue
  apply_action-IsQuiet set_priority value issue db s h =
      let (to, read, rest) =
        >>=-eq-ok (found (parse_priority value) (server_error invalid_priority)) _ h in
      unless_same (same_priority issue.priority to) issue db _ s rest (λ made.
        subst (λ x. IsQuiet db x.1) (ok-injective made)
          (update_issue-IsQuiet issue.id (λ i. record i { priority = to }) _ _ db (λ i. refl) refl))
  apply_action-IsQuiet assign value issue db s h =
      unless_same (elim issue.assignee [ none ↦ false | some a ↦ text_eq (uuid a) value ]) issue db
        (assign_issue orm as_uuid uuid now value issue db) s h
        (assign_issue-IsQuiet value issue db s)
  apply_action-IsQuiet add_label value issue db s h = label_issue-IsQuiet value issue db s h

  rules_loop-IsQuiet :
      (rs : List AutomationRule) (issue : Issue) (db : Db)
      → IsQuiet db (rules_loop orm as_uuid uuid now rs (issue, db)).1
  unfolding rules_loop
  rules_loop-IsQuiet [] issue db = IsQuiet-refl db
  rules_loop-IsQuiet (r ∷ rs) issue db =
      let done = apply_action orm as_uuid uuid now r.action r.action_value issue db in
      let (next, mid) = or_same orm as_uuid uuid now issue db done in
      IsQuiet-trans db mid _
        (or_same-IsQuiet issue db done (apply_action-IsQuiet r.action r.action_value issue db))
        (rules_loop-IsQuiet rs next mid)

  apply_rules-IsQuiet :
      (id : ℕ) (rs : List AutomationRule) (db : Db)
      → IsQuiet db (apply_rules orm as_uuid uuid now id rs db)
  unfolding apply_rules
  apply_rules-IsQuiet id [] db = IsQuiet-refl db
  apply_rules-IsQuiet id (r ∷ rs) db =
      elim (find_issue id db)
        as (λ x. IsQuiet db (elim x [
          | none ↦ db
          | some issue ↦ (rules_loop orm as_uuid uuid now (r ∷ rs) (issue, db)).1
        ])) [ none ↦ IsQuiet-refl db | some issue ↦ rules_loop-IsQuiet (r ∷ rs) issue db ]

  -- The rules that run on a created issue or on a change of status, whatever rules there are, change
  -- no issue's status, platform, times of resolution and closing or duplicate pointer, add and remove
  -- no issue, and emit none of the events that run rules, so that they never run one another.
  pub apply_for-IsQuiet :
      (rules : List AutomationRule) (id platform : ℕ) (to : IssueStatus) (db : Db)
      → IsQuiet db (apply_for_created orm as_uuid uuid now rules id platform db)
        × IsQuiet db (apply_for_status_changed orm as_uuid uuid now rules id platform to db)
  unfolding apply_for_created apply_for_status_changed
  apply_for-IsQuiet rules id platform to db = (
    apply_rules-IsQuiet id (rules_for_created platform rules) db,
    apply_rules-IsQuiet id (rules_for_status platform to rules) db,
  )
