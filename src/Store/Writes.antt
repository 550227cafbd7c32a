-- ===== src/Store/Writes.antt =====
-- The writes that the services share: `em.save(issue)`, `audit.record` and `events.emit`
-- (src/audit/audit.service.ts, and the columns of src/entities/issue.entity.ts).
use mathlib.Core.Path.{subst}
use cimp.Prelude.{sym, ℕ, false, ◌∷◌, ◌≡◌, Option, some, ◌==◌}
use cimp.Prelude.Table.{find, put, find-put_self, find-put_ne}
use cimp.Domain.{ActorType, Event}
use cimp.Store.{Issue, AuditAction, AuditEvent, Db, Orm, issue_id}

abbrev pub find_issue : ℕ → Db → Option Issue
find_issue id db = find issue_id id db.issues

-- The row that `em.save(after)` writes over `before`.
abbrev pub saved : Orm → ℕ → Issue → Issue → Issue
saved orm now before after = record after {
  version = orm.saved_version now before after;
  updated_at = orm.saved_updated_at now before after;
}

unfoldable pub save_issue : Orm → ℕ → Issue → Issue → Db → Db
save_issue orm now before after db = record db {
  issues = put issue_id (saved orm now before after) db.issues;
}

unfoldable pub record_audit : ℕ → ActorType → Option ℕ → AuditAction → Db → Db
record_audit issue actor_type actor_id action db =
    let row : AuditEvent = record {
      issue = issue;
      actor_type = actor_type;
      actor_id = actor_id;
      action = action;
    } in
    record db { audit = row ∷ db.audit }

unfoldable pub emit : Event → Db → Db
emit e db = record db { events = e ∷ db.events }

-- `save` replaces the row of its key and no other.
pub find-save_issue :
    (orm : Orm) (now : ℕ) (before after : Issue) (db : Db)
    → find_issue after.id db ≡ some before
    → find_issue after.id (save_issue orm now before after db) ≡ some (saved orm now before after)
unfolding save_issue
find-save_issue orm now before after db h =
    find-put_self issue_id (saved orm now before after) db.issues before h

pub find-save_issue_ne :
    (j : ℕ) (orm : Orm) (now : ℕ) (before after : Issue) (db : Db)
    → (after.id == j) ≡ false
    → find_issue j (save_issue orm now before after db) ≡ find_issue j db
unfolding save_issue
find-save_issue_ne j orm now before after db h =
    find-put_ne issue_id j (saved orm now before after) db.issues h

-- The same, under the key that the row had.
pub find-save_issue_at :
    (orm : Orm) (now : ℕ) (before after : Issue) (db : Db)
    → find_issue before.id db ≡ some before
    → after.id ≡ before.id
    → find_issue before.id (save_issue orm now before after db) ≡ some (saved orm now before after)
find-save_issue_at orm now before after db there same =
    subst
      (λ k. find_issue k (save_issue orm now before after db) ≡ some (saved orm now before after))
      same
      (find-save_issue orm now before after db
        (subst (λ k. find_issue k db ≡ some before) (sym same) there))
