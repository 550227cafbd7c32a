-- ===== src/Relations/Tenancy/Writes.antt =====
-- Every write of src/issues/labels.service.ts, issue-links.service.ts and watchers.service.ts keeps
-- labels and links within a platform.
use mathlib.Core.Path.{subst}
use cimp.Prelude.{
  ℕ, Bool, not, ◌&&◌, ◌||◌, ◌≡◌, ◌∙◌, none, String, ◌==◌, arith, any, All-mono, All-select,
  All-select_self,
}
use cimp.Prelude.Table.{find, remove}
use cimp.Prelude.Table.Keys.{find-remove_ne}
use cimp.Domain.{
  LinkType, ok, require, found, bad_request, not_found, conflict, server_error, foreign_key,
  label_name_taken, label_not_found, foreign_label, self_link, link_platform, link_exists,
  link_not_found, issue_not_found,
}
use cimp.Domain.Results.{
  >>=-eq-ok, >>-eq-ok, >>-eq-ok_first, ok-injective, found-eq-ok, require-eq-ok,
}
use cimp.Authz.{AuthenticatedStaff}
use cimp.Store.{Db}
use cimp.Store.Writes.{find_issue}
use cimp.Automation.{label_id, attach_label}
use cimp.Relations.{
  CreateLabelDto, CreateIssueLinkDto, assert_platform_access, new_label, is_name_taken,
  create_label, delete_label, add_to_issue, remove_from_issue, is_link, create_link, remove_link,
  watch, unwatch, Request, creates_label, deletes_label, labels_issue, unlabels_issue, links_issue,
  unlinks_issue, watches, unwatches, handle,
}
use cimp.Relations.Tenancy.{
  IsOwnLabel, IsOwnLink, IsTenantSound, IsNewIn, find_more, IsOwnLabel-labels,
  attach_label-IsTenantSound,
}

module _ (staff : AuthenticatedStaff) (db db' : Db) (sound : IsTenantSound db) where
  create_label-IsTenantSound :
      (is_platform : ℕ → Bool) (trim : String → String) (fresh platform : ℕ) (dto : CreateLabelDto)
      → find label_id fresh db.labels ≡ none
      → create_label is_platform trim fresh staff platform dto db ≡ ok db'
      → IsTenantSound db'
  unfolding create_label new_label
  create_label-IsTenantSound is_platform trim fresh platform dto absent h =
      let made = >>-eq-ok (require (is_platform platform) (server_error foreign_key)) _ (
        >>-eq-ok
          (require (not (is_name_taken platform (trim dto.name) db.labels))
            (conflict label_name_taken))
          _ (>>-eq-ok (assert_platform_access staff platform) _ h)) in
      subst IsTenantSound (ok-injective made) (record {
        labels =
            All-mono (IsOwnLabel db.issues db.labels) (IsOwnLabel db.issues _)
              (λ r.
                IsOwnLabel-labels db.issues db.labels _ r
                  (λ l. find_more r.label _ l db.labels absent))
              db.issue_labels sound.labels;
        links = sound.links;
      })

  delete_label-IsTenantSound :
      (platform id : ℕ) → delete_label staff platform id db ≡ ok db' → IsTenantSound db'
  unfolding delete_label
  delete_label-IsTenantSound platform id h =
      let h1 = >>-eq-ok (assert_platform_access staff platform) _ h in
      let (l, there, h2) =
        >>=-eq-ok (found (find label_id id db.labels) (not_found label_not_found)) _ h1 in
      let made = >>-eq-ok (require (l.platform == platform) (not_found label_not_found)) _ h2 in
      subst IsTenantSound (ok-injective made) (record {
        labels =
            All-select_self (λ r. not (r.label == id)) (IsOwnLabel db.issues db.labels)
              (IsOwnLabel db.issues (remove label_id id db.labels))
              (λ r other.
                IsOwnLabel-labels db.issues db.labels (remove label_id id db.labels) r (λ x found_x.
                  find-remove_ne label_id id r.label db.labels (ground (arith, other)) ∙ found_x))
              db.issue_labels sound.labels;
        links = sound.links;
      })

  add_to_issue-IsTenantSound :
      (issue label : ℕ) → add_to_issue issue label db ≡ ok db' → IsTenantSound db'
  unfolding add_to_issue
  add_to_issue-IsTenantSound issue label h =
      let (i, i_there, h1) =
        >>=-eq-ok (found (find_issue issue db) (not_found issue_not_found)) _ h in
      let (l, l_there, h2) =
        >>=-eq-ok (found (find label_id label db.labels) (not_found label_not_found)) _ h1 in
      let check = require (l.platform == i.platform) (bad_request foreign_label) in
      let owned = require-eq-ok _ (bad_request foreign_label) (>>-eq-ok_first check _ h2) in
      subst IsTenantSound (ok-injective (>>-eq-ok check (ok (attach_label issue label db)) h2)) (
        attach_label-IsTenantSound issue label db sound (record {
          issue = i;
          label = l;
          issue_there = found-eq-ok (find_issue issue db) (not_found issue_not_found) i_there;
          label_there =
              found-eq-ok (find label_id label db.labels) (not_found label_not_found) l_there;
          same = ground (arith, owned);
        }))

  create_link-IsTenantSound :
      (issue : ℕ) (dto : CreateIssueLinkDto)
      → create_link staff issue dto db ≡ ok db'
      → IsTenantSound db'
  unfolding create_link
  create_link-IsTenantSound issue dto h =
      let other = require (not (issue == dto.target_issue)) (bad_request self_link) in
      let h1 = >>-eq-ok other _ h in
      let (s, s_there, h2) =
        >>=-eq-ok (found (find_issue issue db) (not_found issue_not_found)) _ h1 in
      let (t, t_there, h3) =
        >>=-eq-ok (found (find_issue dto.target_issue db) (not_found issue_not_found)) _ h2 in
      let check = require (s.platform == t.platform) (bad_request link_platform) in
      let made =
        >>-eq-ok
          (require (not (any (is_link issue dto.target_issue dto.type) db.links))
            (conflict link_exists))
          _ (>>-eq-ok check _ h3) in
      let owned = require-eq-ok _ (bad_request link_platform) (>>-eq-ok_first check _ h3) in
      let apart = require-eq-ok _ (bad_request self_link) (>>-eq-ok_first other _ h) in
      subst IsTenantSound (ok-injective made) (record {
        labels = sound.labels;
        links = (
          record {
            source = s;
            target = t;
            source_there = found-eq-ok (find_issue issue db) (not_found issue_not_found) s_there;
            target_there =
                found-eq-ok (find_issue dto.target_issue db) (not_found issue_not_found) t_there;
            same = ground (arith, owned);
            apart = ground (arith, apart);
          },
          sound.links,
        );
      })

  remove_link-IsTenantSound :
      (issue source target : ℕ) (type : LinkType)
      → remove_link issue source target type db ≡ ok db'
      → IsTenantSound db'
  unfolding remove_link
  remove_link-IsTenantSound issue source target type h =
      let made =
        >>-eq-ok
          (require
            (any (is_link source target type) db.links && (source == issue || target == issue))
            (not_found link_not_found))
          _ h in
      subst IsTenantSound (ok-injective made) (record {
        labels = sound.labels;
        links =
            All-select (IsOwnLink db.issues) (λ l. not (is_link source target type l)) db.links
              sound.links;
      })

  watch-IsTenantSound : (issue : ℕ) → watch staff issue db ≡ ok db' → IsTenantSound db'
  unfolding watch
  watch-IsTenantSound issue h =
      let (i, there, made) =
        >>=-eq-ok (found (find_issue issue db) (not_found issue_not_found)) _ h in
      subst IsTenantSound (ok-injective made)
        (record { labels = sound.labels; links = sound.links })

-- A write to the labels, links and watchers of issues that succeeds keeps every label on an issue of
-- its own platform, and every link between two different issues of one platform. The id of a label
-- that it creates is new.
pub handle-IsTenantSound :
    (is_platform : ℕ → Bool) (trim : String → String) (staff : AuthenticatedStaff)
    (request : Request) (db db' : Db)
    → IsTenantSound db
    → IsNewIn request db
    → handle is_platform trim staff request db ≡ ok db'
    → IsTenantSound db'
unfolding handle remove_from_issue unwatch
handle-IsTenantSound is_platform trim staff (creates_label fresh platform dto) db db' sound absent
      h =
    create_label-IsTenantSound staff db db' sound is_platform trim fresh platform dto absent h
handle-IsTenantSound is_platform trim staff (deletes_label platform id) db db' sound new_id h =
    delete_label-IsTenantSound staff db db' sound platform id h
handle-IsTenantSound is_platform trim staff (labels_issue issue label) db db' sound new_id h =
    add_to_issue-IsTenantSound staff db db' sound issue label h
handle-IsTenantSound is_platform trim staff (unlabels_issue issue label) db db' sound new_id h =
    subst IsTenantSound (ok-injective h) (record {
      labels =
          All-select (IsOwnLabel db.issues db.labels)
            (λ r. not (r.issue == issue && r.label == label)) db.issue_labels sound.labels;
      links = sound.links;
    })
handle-IsTenantSound is_platform trim staff (links_issue issue dto) db db' sound new_id h =
    create_link-IsTenantSound staff db db' sound issue dto h
handle-IsTenantSound is_platform trim staff (unlinks_issue issue source target type) db db' sound
      new_id h =
    remove_link-IsTenantSound staff db db' sound issue source target type h
handle-IsTenantSound is_platform trim staff (watches issue) db db' sound new_id h =
    watch-IsTenantSound staff db db' sound issue h
handle-IsTenantSound is_platform trim staff (unwatches issue) db db' sound new_id h =
    subst IsTenantSound (ok-injective h) (record { labels = sound.labels; links = sound.links })
