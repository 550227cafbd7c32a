-- ===== src/Scenario.antt =====
-- A small help desk, on which the tests of the components run: two platforms, a developer of the
-- first, and a few issues.
use cimp.Prelude.{ℕ, ◌+◌, true, ◌≡◌, [], ◌∷◌, none, some, refl, arith}
use cimp.Prelude.Table.{find, find-All}
use cimp.Domain.{
  developer, IssueStatus, new, in_progress, high, includes_status, open_issue_statuses, active,
}
use cimp.Authz.{AuthenticatedStaff}
use cimp.Store.{Issue, Db, Orm, issue_id}
use cimp.Issues.{Context}
use cimp.Issues.Lifecycle.{IsConsistent, IsConsistentDb}

abbrev pub an_issue : ℕ → ℕ → IssueStatus → Issue
an_issue id platform status = record {
  id = id;
  reference_no = "CIMP-1";
  platform = platform;
  reporter = 5;
  assignee = none;
  status = status;
  priority = high;
  duplicate_of = none;
  jira_issue_key = some "OPS-1";
  publicly_visible = true;
  public_title = none;
  version = 1;
  created_at = 100;
  sla_started_at = 100;
  sla_breached_at = none;
  updated_at = 100;
  resolved_at = none;
  closed_at = none;
}

abbrev pub portal_down : Issue
portal_down = an_issue 1 7 in_progress

abbrev pub login_fails : Issue
login_fails = an_issue 2 7 new

abbrev pub elsewhere : Issue
elsewhere = an_issue 3 8 new

abbrev pub desk : Db
desk = record {
  issues = portal_down ∷ login_fails ∷ elsewhere ∷ [];
  staff = record { id = 40; status = active } ∷ [];
  roles = record { staff_user = 40; platform = some 7; role = developer } ∷ [];
  labels = [];
  issue_labels = [];
  links = [];
  watchers = record { issue = 2; staff_user = 40 } ∷ [];
  comments = [];
  audit = [];
  events = [];
}

-- An ORM that counts versions and stamps the time.
abbrev pub counting : Orm
counting = record {
  saved_version = λ now before after. before.version + 1;
  saved_updated_at = λ now before after. now;
  touched_version = λ now before. before.version + 1;
}

abbrev pub dev : AuthenticatedStaff
dev = record { id = 40; roles = record { role = developer; platform_id = some 7 } ∷ [] }

abbrev pub as_dev : Context
as_dev = record { orm = counting; focal_point_can_transition = true; now = 500; staff = dev }

live-IsConsistent :
    (i : Issue)
    → includes_status open_issue_statuses i.status ≡ true
    → i.resolved_at ≡ none
    → i.closed_at ≡ none
    → i.duplicate_of ≡ none
    → IsConsistent i
live-IsConsistent i live unresolved unclosed alone = record {
  closed_stamped = λ e. ground (arith, e);
  open_unstamped = λ e. unclosed;
  resolved_stamped = λ e. ground (arith, e);
  live_unresolved = λ e. unresolved;
  duplicate_closed = λ e. ground (arith, e);
}

pub desk-IsConsistentDb : IsConsistentDb desk
desk-IsConsistentDb j i h =
    find-All issue_id IsConsistent j desk.issues i
      (
        live-IsConsistent portal_down refl refl refl refl,
        (
          live-IsConsistent login_fails refl refl refl refl,
          (live-IsConsistent elsewhere refl refl refl refl, tt),
        ),
      )
      h

-- No issue of the desk is a duplicate.
pub desk_unmerged :
    (j : ℕ) (i : Issue) → find issue_id j desk.issues ≡ some i → i.duplicate_of ≡ none
desk_unmerged j i h =
    find-All issue_id (λ i. i.duplicate_of ≡ none) j desk.issues i (refl, (refl, (refl, tt))) h
