-- ===== src/Scanning/Served.antt =====
-- The downloads of src/reporter/reporter.service.ts and src/issues/attachments.service.ts, after any
-- sequence of requests and jobs.
use mathlib.Core.Path.{subst}
use cimp.Prelude.{
  ℕ, true, ◌&&◌, ◌≡◌, ◌≢◌, sym, ◌∙◌, Option, some, ◌==◌, ◌⊎◌, inl, inr, arith, is_some, Bool-cases,
}
use cimp.Prelude.Table.{find, find-All}
use cimp.Prelude.Text.{Text}
use cimp.Domain.{
  ScanStatus, is_servable, ok, err, require, found, not_found, forbidden, server_error,
  attachment_not_found, attachment_unavailable, storage_failed,
}
use cimp.Domain.Results.{
  >>=-eq-ok, >>-eq-ok, ok-injective, found-eq-ok, >>=-ne-err, >>-ne-err, found-ne-err,
}
use cimp.ContextSanitizer.{Value}
use cimp.Authz.{AuthenticatedStaff, can_access_platform, staff_read_roles}
use cimp.Portal.Rows.{Bytes, HandoffContext, PortalIssue, Attachment, Portal, row_id, attachment_id}
use cimp.Portal.Signatures.{sniff_allowed_mime, is_allowed}
use cimp.Portal.Reporters.{find_reporter}
use cimp.Portal.Reads.{ServableFile, serve, own_issue, get_attachment_for_reporter}
use cimp.Scanning.{get_for_staff}
use cimp.Scanning.World.{IsReachable}
use cimp.Scanning.Vetted.{IsVetted}
use cimp.Scanning.Steps.{IsReachable-AreVetted}

-- A file that is served has an allowed type, which its first bytes show, and the scanner's verdict
-- on its bytes is one under which files are served.
pub record IsSafe (scan : Bytes → Text → Option ScanStatus) (f : ServableFile) : Type 0 where
  pub signed : sniff_allowed_mime f.buffer ≡ some f.content_type
  pub typed : is_allowed f.content_type ≡ true
  pub verdict : ScanStatus
  pub passed : scan f.buffer f.filename ≡ some verdict
  pub servable : is_servable verdict ≡ true

module _ (parse_json : Text → Option Value) (json_bytes : Value → ℕ) (trim : Text → Text)
    (touched_version : ℕ → PortalIssue → ℕ) (scan : Bytes → Text → Option ScanStatus) where
  found-IsVetted :
      (d : Portal)
      → IsReachable parse_json json_bytes trim touched_version scan d
      → (id : ℕ) (a : Attachment)
      → found (find attachment_id id d.attachments) (not_found attachment_not_found) ≡ ok a
      → IsVetted scan d.blobs a
  found-IsVetted d before id a there =
      find-All attachment_id (IsVetted scan d.blobs) id d.attachments a
        (IsReachable-AreVetted parse_json json_bytes trim touched_version scan d before)
        (found-eq-ok (find attachment_id id d.attachments) (not_found attachment_not_found) there)

  -- What both downloads answer of a vetted row.
  serve_vetted :
      (d : Portal) (a : Attachment) (v : IsVetted scan d.blobs a)
      → ((is_servable a.scan_status ≡ true)
          × (serve a d
              ≡ ok (record {
                buffer = v.object.bytes;
                filename = a.filename;
                content_type = a.content_type;
              })))
        ⊎ (serve a d ≡ err (forbidden attachment_unavailable))
  unfolding serve
  serve_vetted d a v = elim (Bool-cases (is_servable a.scan_status)) [
    | inl good ↦ inl (good, ground (arith, good, v.there))
    | inr bad ↦ inr (ground (arith, bad))
  ]

  serve-IsSafe :
      (d : Portal) (a : Attachment) (f : ServableFile)
      → IsVetted scan d.blobs a
      → serve a d ≡ ok f
      → IsSafe scan f
  serve-IsSafe d a f v h = elim (serve_vetted d a v) [
    | inl (good, there) ↦ subst (IsSafe scan) (ok-injective (sym there ∙ h)) (record {
      signed = v.signed;
      typed = v.typed;
      verdict = a.scan_status;
      passed = v.passed good;
      servable = good;
    })
    | inr refused ↦ absurd (cc (h, refused))
  ]

  -- A file that a reporter or staff downloads, after any sequence of intakes, replies, visits,
  -- ratings, comments, edits, scans and sweeps, is one that the scanner let pass with these bytes
  -- and this name, and its type is an allowed one that its first bytes show. The storage writes the
  -- files of each intake under unused keys.
  pub downloads-IsSafe :
      (d : Portal) (f : ServableFile)
      → IsReachable parse_json json_bytes trim touched_version scan d
      → ((ctx : HandoffContext) × (issue : ℕ) × (id : ℕ) × (get_attachment_for_reporter ctx issue id
              d
            ≡ ok f))
        ⊎ ((staff : AuthenticatedStaff) × (id : ℕ) × (get_for_staff staff id d ≡ ok f))
      → IsSafe scan f
  unfolding get_attachment_for_reporter get_for_staff
  downloads-IsSafe d f before (inl (ctx, issue, id, h)) =
      let (r, known, h1) =
        >>=-eq-ok (found (find_reporter ctx d.reporters) (not_found attachment_not_found)) _ h in
      let (a, there, h2) =
        >>=-eq-ok (found (find attachment_id id d.attachments) (not_found attachment_not_found)) _
          h1 in
      serve-IsSafe d a f (found-IsVetted d before id a there) (
        >>-eq-ok
          (require (a.issue == issue && is_some (own_issue r issue d))
            (not_found attachment_not_found))
          (serve a d) h2)
  downloads-IsSafe d f before (inr (staff, id, h)) =
      let (a, there, h1) =
        >>=-eq-ok (found (find attachment_id id d.attachments) (not_found attachment_not_found)) _
          h in
      let (i, known, h2) =
        >>=-eq-ok (found (find row_id a.issue d.issues) (not_found attachment_not_found)) _ h1 in
      serve-IsSafe d a f (found-IsVetted d before id a there) (
        >>-eq-ok
          (require (can_access_platform staff i.platform staff_read_roles)
            (not_found attachment_not_found))
          (serve a d) h2)

  serve_finds :
      (d : Portal) (a : Attachment)
      → IsVetted scan d.blobs a
      → serve a d ≢ err (server_error storage_failed)
  serve_finds d a v h = elim (serve_vetted d a v) [
    | inl (good, there) ↦ absurd (cc (h, there))
    | inr refused ↦ absurd (cc (h, refused))
  ]

  -- After any sequence of intakes, replies, visits, ratings, comments, edits, scans and sweeps, no
  -- download of a reporter or of staff fails because the object is missing from the storage. The
  -- storage writes the files of each intake under unused keys.
  pub downloads_find :
      (d : Portal)
      → IsReachable parse_json json_bytes trim touched_version scan d
      → ((ctx : HandoffContext) (issue id : ℕ)
          → get_attachment_for_reporter ctx issue id d ≢ err (server_error storage_failed))
        × ((staff : AuthenticatedStaff) (id : ℕ)
            → get_for_staff staff id d ≢ err (server_error storage_failed))
  unfolding get_attachment_for_reporter get_for_staff
  downloads_find d before = (
    λ ctx issue id.
        >>=-ne-err (found (find_reporter ctx d.reporters) (not_found attachment_not_found)) _
          (server_error storage_failed)
          (found-ne-err (find_reporter ctx d.reporters) _ _ (λ clash. cc clash))
          (λ r known.
            >>=-ne-err
              (found (find attachment_id id d.attachments) (not_found attachment_not_found)) _
              (server_error storage_failed)
              (found-ne-err (find attachment_id id d.attachments) _ _ (λ clash. cc clash))
              (λ a there.
                >>-ne-err (a.issue == issue && is_some (own_issue r issue d))
                  (not_found attachment_not_found) (server_error storage_failed) (serve a d)
                  (λ clash. cc clash) (serve_finds d a (found-IsVetted d before id a there)))),
    λ staff id.
        >>=-ne-err (found (find attachment_id id d.attachments) (not_found attachment_not_found)) _
          (server_error storage_failed)
          (found-ne-err (find attachment_id id d.attachments) _ _ (λ clash. cc clash))
          (λ a there.
            >>=-ne-err (found (find row_id a.issue d.issues) (not_found attachment_not_found)) _
              (server_error storage_failed)
              (found-ne-err (find row_id a.issue d.issues) _ _ (λ clash. cc clash))
              (λ i known.
                >>-ne-err (can_access_platform staff i.platform staff_read_roles)
                  (not_found attachment_not_found) (server_error storage_failed) (serve a d)
                  (λ clash. cc clash) (serve_finds d a (found-IsVetted d before id a there)))),
  )
