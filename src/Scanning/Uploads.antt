-- ===== src/Scanning/Uploads.antt =====
-- What the intake of src/reporter/reporter.service.ts hands to src/scanning: each row that it writes
-- has its object, and no row loses its own.
use cimp.Prelude.{ℕ, ◌+◌, List, [], ◌∷◌, ◌≡◌, Option, some, All, All-mono, All-append}
use mathlib.Core.Path.{subst}
use cimp.Prelude.Table.{find}
use cimp.Prelude.Text.{Text}
use cimp.Domain.{ScanStatus, Result}
use cimp.ContextSanitizer.{Value}
use cimp.Portal.Rows.{Bytes, HandoffContext, Attachment, Blob, Portal, blob_key}
use cimp.Portal.Reporters.{upsert_reporter}
use cimp.Portal.Reads.{IssueView}
use cimp.Portal.Intake.{
  CreateIssueDto, UploadedFile, Stored, Surroundings, attachments_of, create_issue,
}
use cimp.Portal.Intake.Files.{IsFresh, IsStored, saved, saved-IsStored}
use cimp.Portal.Intake.Cleanup.{find_old, find_old_after, find_stored}
use cimp.Portal.Intake.Outcomes.{Outcome, refused, failed, accepted, create_issue-Outcome}
use cimp.Portal.Intake.Undone.{persist_issue_inv, accepted_rows}
use cimp.Scanning.Vetted.{IsVetted, AreVetted}

module _ (parse_json : Text → Option Value) (json_bytes : Value → ℕ)
    (scan : Bytes → Text → Option ScanStatus) (w : Surroundings) where
  -- A row keeps its object where the storage keeps what it had.
  IsVetted-kept :
      (blobs blobs' : List Blob)
      → ((k : ℕ) (b : Blob) → find blob_key k blobs ≡ some b → find blob_key k blobs' ≡ some b)
      → (a : Attachment) → IsVetted scan blobs a
      → IsVetted scan blobs' a
  IsVetted-kept blobs blobs' kept a v = record {
    object = v.object;
    there = kept a.storage_key v.object v.there;
    signed = v.signed;
    typed = v.typed;
    small = v.small;
    passed = v.passed;
  }

  attachments_of-AreVetted :
      (n : ℕ) (rs : List (Stored × Blob)) (blobs : List Blob)
      → All IsStored rs
      → All (λ r. find blob_key r.0.storage_key blobs ≡ some r.1) rs
      → All (IsVetted scan blobs) (attachments_of parse_json json_bytes w n rs)
  unfolding attachments_of
  attachments_of-AreVetted n [] blobs h k = tt
  attachments_of-AreVetted n ((s, b) ∷ rs) blobs (h, hs) (k, ks) = (
    record {
      object = b;
      there = k;
      signed = h.signed;
      typed = h.typed;
      small = h.small;
      passed = λ served. absurd (cc served);
    },
    attachments_of-AreVetted (n + 1) rs blobs hs ks,
  )

  module _ (ctx : HandoffContext) (dto : CreateIssueDto) (files : List UploadedFile)
      (d : Portal) where
    Outcome-AreVetted :
        (x : Result IssueView × Portal)
        → IsFresh w d.blobs
        → AreVetted scan d
        → Outcome parse_json json_bytes w ctx dto files d x
        → AreVetted scan x.1
    unfolding upsert_reporter
    Outcome-AreVetted _ fresh h (refused e) = h
    Outcome-AreVetted _ fresh h (failed e mimes fine) =
        All-mono (IsVetted scan d.blobs) (IsVetted scan _)
          (IsVetted-kept d.blobs _
            (λ k b. find_old_after parse_json json_bytes w fresh 0 k b files mimes))
          d.attachments h
    Outcome-AreVetted _ fresh h (accepted mimes m d' fine low high all_there done) =
        let rows = accepted_rows parse_json json_bytes w ctx dto files d mimes m in
        subst (λ p. All (IsVetted scan p.blobs) p.attachments)
          (persist_issue_inv parse_json json_bytes w ctx dto files d mimes m d' done)
          (All-append (IsVetted scan rows.blobs)
            (attachments_of parse_json json_bytes w 0 (saved parse_json json_bytes w 0 files mimes))
            d.attachments
            (attachments_of-AreVetted 0 (saved parse_json json_bytes w 0 files mimes) rows.blobs
              (saved-IsStored parse_json json_bytes w 0 files mimes fine)
              (find_stored parse_json json_bytes w fresh 0 files mimes))
            (All-mono (IsVetted scan d.blobs) (IsVetted scan rows.blobs)
              (IsVetted-kept d.blobs rows.blobs
                (λ k b. find_old parse_json json_bytes w fresh 0 k b files mimes))
              d.attachments h))

    pub create_issue-AreVetted :
        IsFresh w d.blobs
        → AreVetted scan d
        → AreVetted scan (create_issue parse_json json_bytes w ctx dto files d).1
    create_issue-AreVetted fresh h =
        Outcome-AreVetted _ fresh h (create_issue-Outcome parse_json json_bytes w ctx dto files d)
