-- ===== src/Merge.antt =====
-- Duplicates: src/issues/merge.service.ts. A merge closes the duplicate and points it to the
-- canonical issue; the resolution of the canonical issue is told to the issues that point to it.
pub mod Effect
pub mod Forest
pub mod OneHop
pub mod FanOut
mod Tests
use Prim.Native.String
use cimp.Prelude.{
  ℕ, Bool, true, false, not, ◌&&◌, List, [], ◌∷◌, Option, none, some, ◌==◌, if◌then◌else◌, or_else,
  any, is_none, holds_id, String,
}
use cimp.Domain.{
  IssueStatus, resolved, closed, same_status, LinkType, duplicates, staff_actor, system_actor,
  internal, reporter_visible, Result, ok, ◌>>=◌, ◌>>◌, require, found, not_found, conflict,
  unprocessable, issue_not_found, stale_version, merge_self, merge_platform, already_merged,
  merge_closed, canonical_unresolvable, canonical_closed, Event,
}
use cimp.Store.{Issue, IssueLink, IssueWatcher, Comment, AuditAction, Db, Orm}
use cimp.Store.Writes.{find_issue, save_issue, record_audit, emit}

pub record MergeIssueDto : Type 0 where
  pub canonical_issue_id : ℕ
  pub version : ℕ

-- Merging into an issue that is itself a duplicate lands on the issue that it points to.
pub flatten_canonical : Issue → Issue → Db → Result Issue
flatten_canonical duplicate canonical db = elim canonical.duplicate_of [
  | none ↦ ok canonical
  | some target ↦ do
    next ← found (find_issue target db) (conflict canonical_unresolvable)
    require (is_none next.duplicate_of) (conflict canonical_unresolvable)
    require (not (next.id == duplicate.id)) (unprocessable merge_self)
    ok next
]

-- The checks before the transaction: the duplicate, and the canonical issue to point it to.
pub resolve_merge : ℕ → MergeIssueDto → Db → Result (Issue × Issue)
resolve_merge id dto db = do
  require (not (id == dto.canonical_issue_id)) (unprocessable merge_self)
  duplicate ← found (find_issue id db) (not_found issue_not_found)
  named ← found (find_issue dto.canonical_issue_id db) (not_found issue_not_found)
  require (duplicate.platform == named.platform) (unprocessable merge_platform)
  require (is_none duplicate.duplicate_of) (conflict already_merged)
  require (not (same_status duplicate.status closed)) (unprocessable merge_closed)
  require (dto.version == duplicate.version) (conflict stale_version)
  canonical ← flatten_canonical duplicate named db
  require (not (same_status canonical.status closed)) (unprocessable canonical_closed)
  ok (duplicate, canonical)

-- The DUPLICATES link, unless there is one (`orIgnore` on the unique pair and type).
is_duplicates : LinkType → Bool
is_duplicates duplicates = true
is_duplicates _ = false

insert_link : ℕ → ℕ → ℕ → List IssueLink → List IssueLink
unfolding is_duplicates
insert_link source target by links =
    if any (λ l. l.source_issue == source && l.target_issue == target && is_duplicates l.type) links
    then links
    else record { source_issue = source; target_issue = target; type = duplicates; created_by = by }
      ∷ links

pub watches : ℕ → ℕ → IssueWatcher → Bool
watches issue user w = w.issue == issue && w.staff_user == user

insert_watcher : ℕ → ℕ → List IssueWatcher → List IssueWatcher
insert_watcher issue user ws =
    if any (watches issue user) ws then ws else record { issue = issue; staff_user = user } ∷ ws

-- INSERT … SELECT of the duplicate's watchers, ON CONFLICT DO NOTHING.
pub carry_watchers : ℕ → ℕ → List IssueWatcher → List IssueWatcher → List IssueWatcher
carry_watchers from to [] table = table
carry_watchers from to (w ∷ ws) table =
    carry_watchers from to ws
      (if w.issue == from then insert_watcher to w.staff_user table else table)

abbrev duplicate_notice : String
duplicate_notice =
    "This issue was identified as a duplicate of an already-tracked problem. It has been closed here, and you'll be notified on this issue when the underlying problem is resolved."

abbrev resolution_notice : String
resolution_notice = "The underlying problem this issue duplicated has been resolved."

abbrev merged_into_notice : String → String
merged_into_notice reference_no =
    String.◌++◌ reference_no " was merged into this issue as a duplicate."

add_comments : List Comment → Db → Db
add_comments [] db = db
add_comments (cm ∷ cms) db = add_comments cms (record db { comments = cm ∷ db.comments })

merge_comments : ℕ → Issue → Issue → List Comment
merge_comments by duplicate canonical =
    record {
      issue = duplicate.id;
      author = some by;
      author_type = staff_actor;
      body = duplicate_notice;
      visibility = reporter_visible;
    }
    ∷ record {
      issue = canonical.id;
      author = some by;
      author_type = staff_actor;
      body = merged_into_notice duplicate.reference_no;
      visibility = internal;
    }
    ∷ []

-- The duplicate as the transaction saves it.
pub closed_duplicate : ℕ → Issue → Issue → Issue
closed_duplicate now duplicate canonical = record duplicate {
  duplicate_of = some canonical.id;
  status = closed;
  closed_at = some (or_else duplicate.closed_at now);
}

-- The transaction and the event after it.
pub commit_merge : Orm → ℕ → ℕ → Issue → Issue → Db → Db
commit_merge orm now by duplicate canonical db =
    let saved = save_issue orm now duplicate (closed_duplicate now duplicate canonical) db in
    let linked = record saved {
      links = insert_link duplicate.id canonical.id by saved.links;
      watchers = carry_watchers duplicate.id canonical.id saved.watchers saved.watchers;
    } in
    let told = add_comments (merge_comments by duplicate canonical) linked in
    let audited =
      record_audit duplicate.id staff_actor (some by)
        (AuditAction.status_changed duplicate.status closed)
        (record_audit duplicate.id staff_actor (some by) (AuditAction.merged canonical.id) told) in
    emit (Event.merged duplicate.id canonical.id duplicate.platform by) audited

-- `merge`, by the staff member `by` at the time `now`.
unfoldable pub merge : Orm → ℕ → ℕ → ℕ → MergeIssueDto → Db → Result Db
merge orm now by id dto db = do
  pair ← resolve_merge id dto db
  ok (commit_merge orm now by pair.0 pair.1 db)

-- `onCanonicalStatusChanged`: one comment, and a touched row, for each issue that points to the
-- resolved one. The row's version is what the query builder's UPDATE makes of it.
pub resolution_comment : ℕ → Comment
resolution_comment issue = record {
  issue = issue;
  author = none;
  author_type = system_actor;
  body = resolution_notice;
  visibility = reporter_visible;
}

touch : Orm → ℕ → Issue → Issue
touch orm now i = record i { version = orm.touched_version now i; updated_at = now }

pub fan_out_comments : ℕ → List Issue → List Comment → List Comment
fan_out_comments canonical [] cms = cms
fan_out_comments canonical (i ∷ is) cms =
    fan_out_comments canonical is
      (if holds_id i.duplicate_of canonical then resolution_comment i.id ∷ cms else cms)

pub fan_out_rows : Orm → ℕ → ℕ → List Issue → List Issue
fan_out_rows orm now canonical [] = []
fan_out_rows orm now canonical (i ∷ is) =
    (if holds_id i.duplicate_of canonical then touch orm now i else i)
    ∷ fan_out_rows orm now canonical is

unfoldable pub on_canonical_status_changed : Orm → ℕ → ℕ → IssueStatus → Db → Db
on_canonical_status_changed orm now canonical to db =
    if same_status to resolved
    then record db {
      issues = fan_out_rows orm now canonical db.issues;
      comments = fan_out_comments canonical db.issues db.comments;
    }
    else db
