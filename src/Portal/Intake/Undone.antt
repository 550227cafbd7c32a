-- ===== src/Portal/Intake/Undone.antt =====
-- What an intake that fails (createIssue of src/reporter/reporter.service.ts) leaves of the portal.
use mathlib.Core.Path.{subst}
use cimp.Prelude.{
  ℕ, ◌≤◌, true, false, not, sym, if_false, List, [], ◌∷◌, ◌++◌, ◌≡◌, refl, ap, ◌∙◌, Option, arith,
  inl, inr, ◌⊎◌, Bool-cases, All, All-mono, select,
}
use cimp.Prelude.Table.{find, IsKeyed}
use cimp.Prelude.Text.{Text}
use cimp.Domain.{
  reporter_actor, HttpError, Result, ok, err, require, server_error, database_failed,
  unique_violation,
}
use cimp.Domain.Results.{>>-eq-ok, ok-injective}
use cimp.ContextSanitizer.{Value}
use cimp.Portal.Rows.{issue_created, HandoffContext, Portal, Blob, reporter_id}
use cimp.Portal.Reporters.{upsert_reporter, find_reporter-upsert_reporter}
use cimp.Portal.Reads.{IssueView, get_issue_for_reporter, reporter_issue, own_issue, issue_view}
use cimp.Portal.Intake.{
  CreateIssueDto, UploadedFile, Stored, Surroundings, written, persist_issue, is_taken, new_issue,
  create_issue, attachments_of, detect_types, read_back,
}
use cimp.Portal.Intake.Files.{IsFresh, saved, IsLater, saved-IsLater}
use cimp.Portal.Intake.Cleanup.{delete-saved}
use cimp.Portal.Intake.Outcomes.{
  reporter, stored, uploaded, told, Outcome, refused, failed, accepted, create_issue-Outcome,
}

-- Two portals with the same rows and events, of which the second may have upserted the reporter of
-- the context, and may hold more objects, none of which the storage deletes.
pub record IsUndone (w : Surroundings) (ctx : HandoffContext) (d d' : Portal) : Type 0 where
  pub reporters :
      (d'.reporters ≡ d.reporters)
      ⊎ (d'.reporters ≡ (upsert_reporter w.fresh_reporter ctx d).1.reporters)
  pub issues : d'.issues ≡ d.issues
  pub comments : d'.comments ≡ d.comments
  pub attachments : d'.attachments ≡ d.attachments
  pub views : d'.views ≡ d.views
  pub csat : d'.csat ≡ d.csat
  pub audit : d'.audit ≡ d.audit
  pub events : d'.events ≡ d.events
  pub left : List Blob
  pub blobs : d'.blobs ≡ left ++ d.blobs
  pub undeleted : All (λ b. w.deletes b.key ≡ false) left

module _ (parse_json : Text → Option Value) (json_bytes : Value → ℕ) (w : Surroundings) where
  undeleted_left :
      (rs : List (Stored × Blob))
      → All (λ r. r.1.key ≡ r.0.storage_key) rs
      → All
          (λ b. w.deletes b.key ≡ false)
          (written parse_json json_bytes w (select (λ r. not (w.deletes r.0.storage_key)) rs))
  unfolding written
  undeleted_left [] h = tt
  undeleted_left ((s, b) ∷ rs) (same, hs) = elim (Bool-cases (w.deletes s.storage_key)) [
    | inl goes ↦ rw goes (undeleted_left rs hs)
    | inr stays ↦ rw stays (rw same stays, undeleted_left rs hs)
  ]

  module _ (ctx : HandoffContext) (dto : CreateIssueDto) (files : List UploadedFile)
      (d : Portal) where
    -- What an attempt that succeeds has written.
    abbrev pub accepted_rows : List Text → ℕ → Portal
    accepted_rows mimes m =
        let r = reporter parse_json json_bytes w ctx dto files d in
        let up = uploaded parse_json json_bytes w ctx dto files d mimes in
        record up {
          issues = new_issue parse_json json_bytes w ctx dto r m ∷ up.issues;
          attachments =
              attachments_of parse_json json_bytes w 0
                (stored parse_json json_bytes w ctx dto files d mimes)
              ++ up.attachments;
          audit =
              record {
                issue = w.fresh_issue;
                actor_type = reporter_actor;
                actor = r.id;
                action = issue_created;
              }
              ∷ up.audit;
        }

    pub persist_issue_inv :
        (mimes : List Text) (m : ℕ) (d' : Portal)
        → persist_issue parse_json json_bytes w ctx dto
            (reporter parse_json json_bytes w ctx dto files d)
            (stored parse_json json_bytes w ctx dto files d mimes)
            (uploaded parse_json json_bytes w ctx dto files d mimes)
            m
          ≡ ok d'
        → accepted_rows mimes m ≡ d'
    unfolding persist_issue upsert_reporter
    persist_issue_inv mimes m d' h = ok-injective (
        >>-eq-ok
          (require (not (is_taken parse_json json_bytes w (w.reference m) d.issues))
            (server_error unique_violation))
          (ok (accepted_rows mimes m))
          (>>-eq-ok (require (not (w.database_fails m)) (server_error database_failed)) _ h))

    -- The issue that was accepted is the reporter's to read.
    pub accepted_read :
        (mimes : List Text) (m : ℕ)
        → IsKeyed reporter_id d.reporters
        → get_issue_for_reporter ctx w.fresh_issue
            (told parse_json json_bytes w ctx dto files d (accepted_rows mimes m))
          ≡ ok (
              issue_view ctx.locale
                (new_issue parse_json json_bytes w ctx dto
                  (reporter parse_json json_bytes w ctx dto files d)
                  m)
                (told parse_json json_bytes w ctx dto files d (accepted_rows mimes m)))
    unfolding get_issue_for_reporter reporter_issue own_issue find new_issue upsert_reporter
    accepted_read mimes m keyed =
        let there = find_reporter-upsert_reporter w.fresh_reporter ctx d keyed in
        ground (arith, there)

    -- A portal that one of the five attempts has written, with its event, and not read again.
    pub record IsUnread (d' : Portal) : Type 0 where
      pub mimes : List Text
      pub attempt : ℕ
      pub fine : detect_types files ≡ ok mimes
      pub low : 1 ≤ attempt
      pub high : attempt ≤ 5
      pub unread : w.read_fails ≡ true
      pub rows : d' ≡ told parse_json json_bytes w ctx dto files d (accepted_rows mimes attempt)

    Outcome-IsUndone :
        (x : Result IssueView × Portal) (e : HttpError)
        → IsFresh w d.blobs
        → IsKeyed reporter_id d.reporters
        → Outcome parse_json json_bytes w ctx dto files d x
        → x.0 ≡ err e
        → IsUndone w ctx d x.1 ⊎ IsUnread x.1
    unfolding upsert_reporter read_back
    Outcome-IsUndone _ e fresh keyed (refused e') h = inl (record {
      reporters = inl refl;
      issues = refl;
      comments = refl;
      attachments = refl;
      views = refl;
      csat = refl;
      audit = refl;
      events = refl;
      left = [];
      blobs = refl;
      undeleted = tt;
    })
    Outcome-IsUndone _ e fresh keyed (failed e' mimes fine) h = inl (record {
      reporters = inr refl;
      issues = refl;
      comments = refl;
      attachments = refl;
      views = refl;
      csat = refl;
      audit = refl;
      events = refl;
      left = written parse_json json_bytes w (
          select (λ r. not (w.deletes r.0.storage_key))
            (saved parse_json json_bytes w 0 files mimes));
      blobs = delete-saved parse_json json_bytes w fresh 0 files mimes;
      undeleted = undeleted_left (saved parse_json json_bytes w 0 files mimes) (
          All-mono (IsLater parse_json json_bytes w fresh 0) (λ r. r.1.key ≡ r.0.storage_key)
            (λ r h. h.0) (saved parse_json json_bytes w 0 files mimes)
            (saved-IsLater parse_json json_bytes w fresh 0 files mimes));
    })
    Outcome-IsUndone _ e fresh keyed (accepted mimes m d' fine low high all_there done) h =
        let same = persist_issue_inv mimes m d' done in
        elim (Bool-cases w.read_fails) [
          | inl lost ↦ inr (record {
            mimes = mimes;
            attempt = m;
            fine = fine;
            low = low;
            high = high;
            unread = lost;
            rows = ap (told parse_json json_bytes w ctx dto files d) (sym same);
          })
          | inr there ↦
              let read : get_issue_for_reporter ctx w.fresh_issue
                    (told parse_json json_bytes w ctx dto files d d')
                  ≡ err e =
                sym (if_false w.read_fails _ _ there) ∙ h in
              absurd (cc (read, same, accepted_read mimes m keyed))
        ]

    -- If an intake answers with an error, then one of two things holds. Either the issues, the
    -- comments, the attachments, the visits, the ratings, the audit trail and the events are as
    -- before, the reporters are as before or with the upserted one, and the storage holds what it
    -- held and, at most, new objects that it does not delete. Or the files were accepted, the
    -- portal is what one of the five attempts writes, with its event, and the database failed at
    -- the read at the end. The storage writes each file under an unused key of its own, and the
    -- reporters have distinct ids.
    pub create_issue-IsUndone :
        (e : HttpError) (d' : Portal)
        → IsFresh w d.blobs
        → IsKeyed reporter_id d.reporters
        → create_issue parse_json json_bytes w ctx dto files d ≡ (err e, d')
        → IsUndone w ctx d d' ⊎ IsUnread d'
    create_issue-IsUndone e d' fresh keyed h =
        subst (λ p. IsUndone w ctx d p ⊎ IsUnread p) (ap (λ x. x.1) h)
          (Outcome-IsUndone _ e fresh keyed
            (create_issue-Outcome parse_json json_bytes w ctx dto files d) (ap (λ x. x.0) h))
