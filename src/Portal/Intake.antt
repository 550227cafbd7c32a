-- ===== src/Portal/Intake.antt =====
-- The intake of an issue: validateFiles, createIssue and persistIssue of
-- src/reporter/reporter.service.ts, with the limits of src/common/constants.ts.
pub mod Files
pub mod Cleanup
pub mod Outcomes
pub mod Undone
pub mod Accepted
use cimp.Prelude.{
  ℕ, zero, suc, ◌+◌, ◌*◌, Bool, true, false, not, ◌&&◌, List, [], ◌∷◌, ◌++◌, Option, none, some,
  ◌==◌, leb, map, if◌then◌else◌, any, is_none, length,
}
use cimp.Prelude.Table.{remove}
use cimp.Prelude.Text.{Text, same_text}
use cimp.Domain.{
  new, medium, pending, reporter_actor, Event, HttpError, Result, ok, err, ◌>>=◌, ◌>>◌, require,
  found, bad_request, server_error, too_many_files, file_too_large, unsupported_file,
  storage_failed, database_failed, unique_violation,
}
use cimp.ContextSanitizer.{Value, sanitize_context}
use cimp.Portal.Rows.{
  Bytes, HandoffContext, Reporter, PortalIssue, Attachment, issue_created, PortalAudit, Blob,
  Portal, blob_key,
}
use cimp.Portal.Signatures.{sniff_allowed_mime, is_allowed}
use cimp.Portal.Reporters.{upsert_reporter}
use cimp.Portal.Reads.{IssueView, get_issue_for_reporter}

abbrev pub max_files : ℕ
max_files = 5

abbrev pub max_file_bytes : ℕ
max_file_bytes = 10 * 1024 * 1024

-- MAX_ATTEMPTS is one more.
abbrev pub max_retries : ℕ
max_retries = 4

pub record CreateIssueDto : Type 0 where
  pub description : Text
  pub context : Option Text

-- A file of the upload, as multer leaves it.
pub record UploadedFile : Type 0 where
  pub original_name : Text
  pub buffer : Bytes
  pub size : ℕ

unfoldable pub allowed : Option Text → Option Text
allowed none = none
allowed (some mime) = if is_allowed mime then some mime else none

-- The loop of validateFiles.
unfoldable pub detect_types : List UploadedFile → Result (List Text)
detect_types [] = ok []
detect_types (f ∷ fs) = do
  require (leb f.size max_file_bytes) (bad_request file_too_large)
  mime ← found (allowed (sniff_allowed_mime f.buffer)) (bad_request unsupported_file)
  rest ← detect_types fs
  ok (mime ∷ rest)

unfoldable pub validate_files : List UploadedFile → Result (List Text)
validate_files fs = do
  require (leb (length fs) max_files) (bad_request too_many_files)
  detect_types fs

pub record Stored : Type 0 where
  pub storage_key : ℕ
  pub filename : Text
  pub content_type : Text
  pub size_bytes : ℕ

-- What surrounds a request: the clock, the ids that the database generates, the key under which the
-- storage has written the file at a place, if it has, whether it deletes a key, for each attempt
-- the reference that is generated and whether the transaction fails otherwise than on it, and
-- whether the database fails at the upsert of the reporter and at the read at the end.
pub record Surroundings : Type 0 where
  pub now : ℕ
  pub fresh_reporter : ℕ
  pub fresh_issue : ℕ
  pub fresh_attachment : ℕ → ℕ
  pub put_key : ℕ → Option ℕ
  pub deletes : ℕ → Bool
  pub reference : ℕ → Text
  pub database_fails : ℕ → Bool
  pub upsert_fails : Bool
  pub read_fails : Bool

module _ (parse_json : Text → Option Value) (json_bytes : Value → ℕ) (w : Surroundings) where
  -- The outcome of `storage.save` for one file, with the object that it has written.
  unfoldable pub settled : UploadedFile → Text → Option ℕ → Option (Stored × Blob)
  settled f mime none = none
  settled f mime (some key) = some (
    record {
      storage_key = key;
      filename = f.original_name;
      content_type = mime;
      size_bytes = f.size;
    },
    record { key = key; bytes = f.buffer },
  )

  -- `Promise.allSettled` over the files, from the place `n` on.
  unfoldable pub save_files : ℕ → List UploadedFile → List Text → List (Option (Stored × Blob))
  save_files n [] mimes = []
  save_files n (f ∷ fs) [] = []
  save_files n (f ∷ fs) (mime ∷ mimes) = settled f mime (w.put_key n) ∷ save_files (n + 1) fs mimes

  unfoldable pub fulfilled : List (Option (Stored × Blob)) → List (Stored × Blob)
  fulfilled [] = []
  fulfilled (none ∷ rs) = fulfilled rs
  fulfilled (some s ∷ rs) = s ∷ fulfilled rs

  unfoldable pub written : List (Stored × Blob) → List Blob
  written rs = map (λ r. r.1) rs

  -- The `storage.delete` of each key; one that fails leaves the object.
  unfoldable pub delete_files : List (Stored × Blob) → List Blob → List Blob
  delete_files [] blobs = blobs
  delete_files ((s, b) ∷ rs) blobs =
      delete_files rs
        (if w.deletes s.storage_key then remove blob_key s.storage_key blobs else blobs)

  unfoldable pub attachments_of : ℕ → List (Stored × Blob) → List Attachment
  attachments_of n [] = []
  attachments_of n ((s, b) ∷ rs) =
      record {
        id = w.fresh_attachment n;
        issue = w.fresh_issue;
        storage_key = s.storage_key;
        filename = s.filename;
        content_type = s.content_type;
        size_bytes = s.size_bytes;
        scan_status = pending;
        created_at = w.now;
      }
      ∷ attachments_of (n + 1) rs

  unfoldable pub new_issue : HandoffContext → CreateIssueDto → Reporter → ℕ → PortalIssue
  new_issue ctx dto r attempt = record {
    id = w.fresh_issue;
    reference_no = w.reference attempt;
    platform = ctx.platform;
    reporter = r.id;
    description = dto.description;
    context = sanitize_context parse_json json_bytes dto.context;
    status = new;
    priority = medium;
    version = 1;
    created_at = w.now;
    updated_at = w.now;
  }

  unfoldable pub is_taken : Text → List PortalIssue → Bool
  is_taken reference is = any (λ i. same_text i.reference_no reference) is

  -- persistIssue, the transaction of one attempt.
  unfoldable pub persist_issue :
      HandoffContext → CreateIssueDto → Reporter → List (Stored × Blob) → Portal → ℕ → Result Portal
  persist_issue ctx dto r stored d attempt = do
    require (not (w.database_fails attempt)) (server_error database_failed)
    require (not (is_taken (w.reference attempt) d.issues)) (server_error unique_violation)
    ok (record d {
      issues = new_issue ctx dto r attempt ∷ d.issues;
      attachments = attachments_of 0 stored ++ d.attachments;
      audit =
          record {
            issue = w.fresh_issue;
            actor_type = reporter_actor;
            actor = r.id;
            action = issue_created;
          }
          ∷ d.audit;
    })

  unfoldable pub is_unique_violation : HttpError → Bool
  is_unique_violation (server_error unique_violation) = true
  is_unique_violation _ = false

  -- The `catch` of an attempt that is not the last, with what the later ones return.
  unfoldable pub unless_taken : Result Portal → Result Portal → Result Portal
  unless_taken (ok d) later = ok d
  unless_taken (err e) later = if is_unique_violation e then later else err e

  -- The loop of createIssueWithUniqueReference: the attempt `n`, with so many retries left.
  unfoldable pub persist_loop : (ℕ → Result Portal) → ℕ → ℕ → Result Portal
  persist_loop persist zero n = persist n
  persist_loop persist (suc left) n = unless_taken (persist n) (persist_loop persist left (n + 1))

  -- The read with which createIssue answers.
  unfoldable pub read_back : HandoffContext → Portal → Result IssueView
  read_back ctx d =
      if w.read_fails
      then err (server_error database_failed)
      else get_issue_for_reporter ctx w.fresh_issue d

  -- The end of createIssue, with the portal as a failure leaves it.
  unfoldable pub persisted : HandoffContext → Portal → Result Portal → Result IssueView × Portal
  persisted ctx without (err e) = (err e, without)
  persisted ctx without (ok d) =
      let told = record d { events = Event.created w.fresh_issue ctx.platform ∷ d.events } in
      (read_back ctx told, told)

  -- What follows the uploads, of which `d` has the objects.
  unfoldable pub after_uploads :
      HandoffContext
      → CreateIssueDto
      → Reporter
      → List (Option (Stored × Blob))
      → Portal
      → Result IssueView × Portal
  after_uploads ctx dto r results d =
      let stored = fulfilled results in
      let without = record d { blobs = delete_files stored d.blobs } in
      if any is_none results
      then (err (server_error storage_failed), without)
      else persisted ctx without (persist_loop (persist_issue ctx dto r stored d) max_retries 1)

  unfoldable pub validated :
      HandoffContext
      → CreateIssueDto
      → List UploadedFile
      → Portal
      → Result (List Text)
      → Result IssueView × Portal
  validated ctx dto files d (err e) = (err e, d)
  validated ctx dto files d (ok mimes) =
      let (r, known) = upsert_reporter w.fresh_reporter ctx d in
      let results = save_files 0 files mimes in
      if w.upsert_fails
      then (err (server_error database_failed), d)
      else after_uploads ctx dto r results
          (record known { blobs = written (fulfilled results) ++ known.blobs })

  -- createIssue: what it answers, and what is left behind, also where it throws.
  unfoldable pub create_issue :
      HandoffContext → CreateIssueDto → List UploadedFile → Portal → Result IssueView × Portal
  create_issue ctx dto files d = validated ctx dto files d (validate_files files)
