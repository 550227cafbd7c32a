-- ===== src/Relations.antt =====
-- The labels, links and watchers of issues: src/issues/labels.service.ts, issue-links.service.ts and
-- watchers.service.ts.
pub mod Tenancy
mod Tests
use text.Mathlib.Text.{◌==◌ as text_eq}
use cimp.Prelude.{
  ℕ, Bool, true, false, not, ◌&&◌, ◌||◌, List, [], ◌∷◌, Option, none, some, String, ◌==◌,
  if◌then◌else◌, or_else, any, select,
}
use cimp.Prelude.Table.{find, remove}
use cimp.Domain.{
  LinkType, blocks, relates, duplicates, Role, Result, ok, err, ◌>>=◌, ◌>>◌, require, found,
  bad_request, not_found, forbidden, conflict, no_platform_access, label_name_taken,
  label_not_found, foreign_label, self_link, link_platform, link_exists, link_not_found,
  issue_not_found, server_error, foreign_key,
}
use cimp.Authz.{AuthenticatedStaff, can_access_platform, staff_write_roles}
use cimp.Store.{Issue, Label, IssueLabel, IssueLink, IssueWatcher, Db}
use cimp.Store.Writes.{find_issue}
use cimp.Automation.{label_id, attach_label}

pub record CreateLabelDto : Type 0 where
  pub name : String
  pub color : Option String

pub record CreateIssueLinkDto : Type 0 where
  pub target_issue : ℕ
  pub type : LinkType

pub same_link_type : LinkType → LinkType → Bool
same_link_type blocks blocks = true
same_link_type relates relates = true
same_link_type duplicates duplicates = true
same_link_type _ _ = false

pub assert_platform_access : AuthenticatedStaff → ℕ → Result (Unit {0})
assert_platform_access staff platform =
    require (can_access_platform staff platform staff_write_roles) (forbidden no_platform_access)

pub new_label : ℕ → ℕ → String → Option String → Label
new_label fresh platform name color = record {
  id = fresh;
  platform = platform;
  name = name;
  color = or_else color "#6b7280";
}

-- The unique index on the platform and the name.
pub is_name_taken : ℕ → String → List Label → Bool
is_name_taken platform name ls = any (λ l. l.platform == platform && text_eq l.name name) ls

-- createForPlatform, with the platforms that there are, on which the database has a foreign key, the
-- runtime's `trim` and the id that the database generates.
pub create_label :
    (ℕ → Bool) → (String → String) → ℕ → AuthenticatedStaff → ℕ → CreateLabelDto → Db → Result Db
create_label is_platform trim fresh staff platform dto db = do
  assert_platform_access staff platform
  require (not (is_name_taken platform (trim dto.name) db.labels)) (conflict label_name_taken)
  require (is_platform platform) (server_error foreign_key)
  ok (record db { labels = new_label fresh platform (trim dto.name) dto.color ∷ db.labels })

-- deleteForPlatform; the database deletes the label's rows on issues with it.
pub delete_label : AuthenticatedStaff → ℕ → ℕ → Db → Result Db
delete_label staff platform id db = do
  assert_platform_access staff platform
  l ← found (find label_id id db.labels) (not_found label_not_found)
  require (l.platform == platform) (not_found label_not_found)
  ok (record db {
    labels = remove label_id id db.labels;
    issue_labels = select (λ r. not (r.label == id)) db.issue_labels;
  })

-- addToIssue; a pair that is there already is left alone.
unfoldable pub add_to_issue : ℕ → ℕ → Db → Result Db
add_to_issue issue label db = do
  i ← found (find_issue issue db) (not_found issue_not_found)
  l ← found (find label_id label db.labels) (not_found label_not_found)
  require (l.platform == i.platform) (bad_request foreign_label)
  ok (attach_label issue label db)

-- removeFromIssue; a pair that is not there is no error.
pub remove_from_issue : ℕ → ℕ → Db → Result Db
remove_from_issue issue label db = ok (record db {
  issue_labels = select (λ r. not (r.issue == issue && r.label == label)) db.issue_labels;
})

-- A link is known by its ends and its type, which have a unique index.
pub is_link : ℕ → ℕ → LinkType → IssueLink → Bool
is_link source target type l =
    l.source_issue == source && l.target_issue == target && same_link_type l.type type

-- create of the links.
pub create_link : AuthenticatedStaff → ℕ → CreateIssueLinkDto → Db → Result Db
create_link staff issue dto db = do
  require (not (issue == dto.target_issue)) (bad_request self_link)
  source ← found (find_issue issue db) (not_found issue_not_found)
  target ← found (find_issue dto.target_issue db) (not_found issue_not_found)
  require (source.platform == target.platform) (bad_request link_platform)
  require (not (any (is_link issue dto.target_issue dto.type) db.links)) (conflict link_exists)
  ok (record db {
    links =
        record {
          source_issue = issue;
          target_issue = dto.target_issue;
          type = dto.type;
          created_by = staff.id;
        }
        ∷ db.links;
  })

-- remove of the links: the issue is one of the ends.
pub remove_link : ℕ → ℕ → ℕ → LinkType → Db → Result Db
remove_link issue source target type db = do
  require (any (is_link source target type) db.links && (source == issue || target == issue))
      (not_found link_not_found)
  ok (record db { links = select (λ l. not (is_link source target type l)) db.links })

pub is_watching : ℕ → ℕ → List IssueWatcher → Bool
is_watching issue staff ws = any (λ w. w.issue == issue && w.staff_user == staff) ws

-- watch; one who watches already is left alone.
pub watch : AuthenticatedStaff → ℕ → Db → Result Db
watch staff issue db = do
  i ← found (find_issue issue db) (not_found issue_not_found)
  ok (record db {
    watchers =
        if is_watching issue staff.id db.watchers
        then db.watchers
        else record { issue = issue; staff_user = staff.id } ∷ db.watchers;
  })

pub unwatch : AuthenticatedStaff → ℕ → Db → Result Db
unwatch staff issue db = ok (record db {
  watchers = select (λ w. not (w.issue == issue && w.staff_user == staff.id)) db.watchers;
})

pub data Request : Type 0 where
  creates_label : (fresh platform : ℕ) (dto : CreateLabelDto) → Request
  deletes_label : (platform label : ℕ) → Request
  labels_issue unlabels_issue : (issue label : ℕ) → Request
  links_issue : (issue : ℕ) (dto : CreateIssueLinkDto) → Request
  unlinks_issue : (issue source target : ℕ) (type : LinkType) → Request
  watches unwatches : (issue : ℕ) → Request

-- The routes that write, behind the guard.
unfoldable pub handle :
    (ℕ → Bool) → (String → String) → AuthenticatedStaff → Request → Db → Result Db
handle is_platform trim staff (creates_label fresh platform dto) db =
    create_label is_platform trim fresh staff platform dto db
handle is_platform trim staff (deletes_label platform label) db =
    delete_label staff platform label db
handle is_platform trim staff (labels_issue issue label) db = add_to_issue issue label db
handle is_platform trim staff (unlabels_issue issue label) db = remove_from_issue issue label db
handle is_platform trim staff (links_issue issue dto) db = create_link staff issue dto db
handle is_platform trim staff (unlinks_issue issue source target type) db =
    remove_link issue source target type db
handle is_platform trim staff (watches issue) db = watch staff issue db
handle is_platform trim staff (unwatches issue) db = unwatch staff issue db
