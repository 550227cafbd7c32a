-- ===== src/Relations/Tenancy.antt =====
-- No label and no link of src/issues/labels.service.ts and issue-links.service.ts crosses platforms.
pub mod Writes
use mathlib.Core.Path.{subst}
use cimp.Prelude.{
  ℕ, Bool, true, false, not, ◌&&◌, ◌||◌, List, [], ◌∷◌, ◌≡◌, refl, sym, ap, ◌∙◌, Option, none, some,
  String, ◌==◌, arith, if◌then◌else◌, inl, inr, Bool-cases, any, select, All, All-mono, All-select,
  All-select_self,
}
use cimp.Prelude.Table.{find, remove}
use cimp.Prelude.Table.Keys.{find-remove_ne}
use cimp.Domain.{
  LinkType, Result, ok, err, ◌>>=◌, ◌>>◌, require, found, bad_request, not_found, conflict,
  label_name_taken, label_not_found, foreign_label, self_link, link_platform, link_exists,
  link_not_found, issue_not_found,
}
use cimp.Domain.Results.{
  >>=-eq-ok, >>-eq-ok, >>-eq-ok_first, ok-injective, found-eq-ok, require-eq-ok,
}
use cimp.Authz.{AuthenticatedStaff}
use cimp.Store.{Issue, Label, IssueLabel, IssueLink, Db, issue_id}
use cimp.Store.Writes.{find_issue}
use cimp.Automation.{label_id, attach_label}
use cimp.Relations.{
  CreateLabelDto, CreateIssueLinkDto, assert_platform_access, new_label, is_name_taken,
  create_label, delete_label, add_to_issue, remove_from_issue, is_link, create_link, remove_link,
  watch, unwatch, Request, creates_label, deletes_label, labels_issue, unlabels_issue, links_issue,
  unlinks_issue, watches, unwatches, handle,
}

-- A label on an issue is of the issue's platform.
pub record IsOwnLabel (issues : List Issue) (labels : List Label) (r : IssueLabel) : Type 0 where
  pub issue : Issue
  pub label : Label
  pub issue_there : find issue_id r.issue issues ≡ some issue
  pub label_there : find label_id r.label labels ≡ some label
  pub same : label.platform ≡ issue.platform

-- A link joins two issues of one platform.
pub record IsOwnLink (issues : List Issue) (l : IssueLink) : Type 0 where
  pub source : Issue
  pub target : Issue
  pub source_there : find issue_id l.source_issue issues ≡ some source
  pub target_there : find issue_id l.target_issue issues ≡ some target
  pub same : source.platform ≡ target.platform
  pub apart : (l.source_issue == l.target_issue) ≡ false

pub record IsTenantSound (db : Db) : Type 0 where
  pub labels : All (IsOwnLabel db.issues db.labels) db.issue_labels
  pub links : All (IsOwnLink db.issues) db.links

-- The id of a label that a request creates is new.
abbrev pub IsNewIn : Request → Db → Type 0
IsNewIn (creates_label fresh platform dto) db = find label_id fresh db.labels ≡ none
IsNewIn _ db = Unit

pub find_more :
    (k : ℕ) (new l : Label) (ls : List Label)
    → find label_id new.id ls ≡ none
    → find label_id k ls ≡ some l
    → find label_id k (new ∷ ls) ≡ some l
unfolding find
find_more k new l ls absent there = elim (Bool-cases (new.id == k)) [
  | inl clash ↦
      let same : new.id ≡ k = ground (arith, clash) in
      absurd (cc (sym absent ∙ ap (λ j. find label_id j ls) same ∙ there))
  | inr other ↦ ground (arith, other, there)
]

pub IsOwnLabel-labels :
    (issues : List Issue) (labels labels' : List Label) (r : IssueLabel)
    → ((l : Label) → find label_id r.label labels ≡ some l → find label_id r.label labels' ≡ some l)
    → IsOwnLabel issues labels r
    → IsOwnLabel issues labels' r
IsOwnLabel-labels issues labels labels' r kept own = record {
  issue = own.issue;
  label = own.label;
  issue_there = own.issue_there;
  label_there = kept own.label own.label_there;
  same = own.same;
}

pub attach_label-IsTenantSound :
    (issue label : ℕ) (db : Db)
    → IsTenantSound db
    → IsOwnLabel db.issues db.labels (record { issue = issue; label = label })
    → IsTenantSound (attach_label issue label db)
unfolding attach_label
attach_label-IsTenantSound issue label db sound own =
    elim (any (λ r. r.issue == issue && r.label == label) db.issue_labels)
      as (λ b. IsTenantSound (
        if b then db else record db {
          issue_labels = record { issue = issue; label = label } ∷ db.issue_labels;
        })) [ true ↦ sound | false ↦ record { labels = (own, sound.labels); links = sound.links } ]
