-- ===== src/Scanning.antt =====
-- The scan of attachments: src/scanning/scanning.listener.ts and scan-retry.service.ts, and the
-- download for staff of src/issues/attachments.service.ts.
pub mod World
pub mod Vetted
pub mod Uploads
pub mod Steps
pub mod Served
pub mod Batch
pub mod Drain
mod Tests
use cimp.Prelude.{
  ℕ, ◌+◌, ◌*◌, Bool, true, false, not, ◌&&◌, List, [], ◌∷◌, Option, none, some, ◌==◌, ltb, leb,
  if◌then◌else◌, or_else, take, includes, select, sort_by,
}
use cimp.Prelude.Table.{find, put}
use cimp.Prelude.Text.{Text}
use cimp.Domain.{
  ScanStatus, pending, clean, infected, skipped, Event, Result, ok, err, ◌>>=◌, ◌>>◌, require,
  found, not_found, attachment_not_found,
}
use cimp.Authz.{AuthenticatedStaff, can_access_platform, staff_read_roles}
use cimp.Portal.Rows.{Bytes, Attachment, PortalIssue, Portal, row_id, attachment_id, blob_key}
use cimp.Portal.Reads.{ServableFile, serve}

-- PENDING_GRACE_MS and BATCH_SIZE.
abbrev pub pending_grace : ℕ
pending_grace = 15 * 60 * 1000

abbrev pub batch_size : ℕ
batch_size = 25

unfoldable pub is_pending : ScanStatus → Bool
is_pending pending = true
is_pending _ = false

pub is_infected : ScanStatus → Bool
is_infected infected = true
is_infected _ = false

-- `scan` is the scanner: its verdict on a file of a name, or none where it throws.
module _ (scan : Bytes → Text → Option ScanStatus) where
  -- The verdict on an attachment; what throws leaves it pending.
  unfoldable pub verdict : Attachment → Portal → ScanStatus
  verdict a d = elim (find blob_key a.storage_key d.blobs) [
    | none ↦ pending
    | some b ↦ or_else (scan b.bytes a.filename) pending
  ]

  -- scanAndPersist, after which the row has the verdict.
  unfoldable pub scan_and_persist : Attachment → Portal → Portal
  scan_and_persist a d = record d {
    attachments = put attachment_id (record a { scan_status = verdict a d }) d.attachments;
  }

  -- The loop over the attachments that were found.
  unfoldable pub scan_all : List Attachment → Portal → Portal
  scan_all [] d = d
  scan_all (a ∷ rest) d = scan_all rest (scan_and_persist a d)

  unfoldable pub told_scanned : List ℕ → Portal → Portal
  told_scanned [] d = d
  told_scanned (i ∷ is) d =
      told_scanned is (record d { events = Event.attachments_scanned i ∷ d.events })

  -- onIssueCreated of the listener.
  unfoldable pub on_issue_created : ℕ → Portal → Portal
  on_issue_created issue d =
      elim (select (λ a. a.issue == issue && is_pending a.scan_status) d.attachments) [
        | [] ↦ d
        | a ∷ rest ↦ told_scanned (issue ∷ []) (scan_all (a ∷ rest) d)
      ]

  pub younger : Attachment → Attachment → Bool
  younger a b = leb b.created_at a.created_at

  -- The batch of the sweep: pending for a while, the newest first.
  pub stuck : ℕ → List Attachment → List Attachment
  stuck now rows = take batch_size (
      sort_by younger
        (select (λ a. is_pending a.scan_status && ltb (a.created_at + pending_grace) now) rows))

  -- `Set.add`.
  pub add_once : ℕ → List ℕ → List ℕ
  add_once i is = if includes is i then is else i ∷ is

  -- The loop of the sweep: the issues that gained a file, how many files, and the tables.
  pub sweep_loop : List Attachment → List ℕ → ℕ → Portal → List ℕ × ℕ × Portal
  sweep_loop [] issues rescued d = (issues, rescued, d)
  sweep_loop (a ∷ rest) issues rescued d =
      let status = verdict a d in
      let gained = not (is_pending status) && not (is_infected status) in
      sweep_loop rest (if gained then add_once a.issue issues else issues)
        (if gained then rescued + 1 else rescued) (scan_and_persist a d)

  -- sweep: how many files were rescued, and the tables after it.
  pub sweep : Bool → ℕ → Portal → ℕ × Portal
  sweep enabled now d =
      if enabled
      then (let (issues, rescued, scanned) = sweep_loop (stuck now d.attachments) [] 0 d in
          (rescued, told_scanned issues scanned))
      else (0, d)

-- getForStaff of the attachments.
unfoldable pub get_for_staff : AuthenticatedStaff → ℕ → Portal → Result ServableFile
get_for_staff staff id d = do
  a ← found (find attachment_id id d.attachments) (not_found attachment_not_found)
  i ← found (find row_id a.issue d.issues) (not_found attachment_not_found)
  require (can_access_platform staff i.platform staff_read_roles) (not_found attachment_not_found)
  serve a d
