-- ===== src/Scanning/World.antt =====
-- The requests and jobs that change the portal, as steps: src/reporter/reporter.controller.ts,
-- src/csat, src/comments and src/scanning.
use cimp.Prelude.{ℕ, Bool, List, [], Option}
use cimp.Prelude.Text.{Text}
use cimp.Domain.{ScanStatus, Result, ok, err}
use cimp.ContextSanitizer.{Value}
use cimp.Authz.{AuthenticatedStaff}
use cimp.Store.{UserPlatformRole}
use cimp.Portal.Rows.{Bytes, HandoffContext, PortalIssue, Portal}
use cimp.Portal.Intake.{CreateIssueDto, UploadedFile, Surroundings, create_issue}
use cimp.Portal.Intake.Files.{IsFresh}
use cimp.Portal.Replies.{add_reply, mark_seen, submit}
use cimp.Comments.{CreateCommentDto, add_comment, edit_comment}
use cimp.Scanning.{on_issue_created, sweep}

-- A request of a reporter or of staff, or a job of the scan, with what the database and the clock
-- give to it.
pub data Input : Type 0 where
  intake :
      (w : Surroundings) (ctx : HandoffContext) (dto : CreateIssueDto) (files : List UploadedFile)
      → Input
  replied : (now fresh : ℕ) (ctx : HandoffContext) (issue : ℕ) (body : Text) → Input
  visited : (now : ℕ) (ctx : HandoffContext) (issue : ℕ) → Input
  rates :
      (now fresh : ℕ) (ctx : HandoffContext) (issue : ℕ) (up : Bool) (comment : Option Text) → Input
  comments_on :
      (now fresh : ℕ) (staff : AuthenticatedStaff) (grants : List UserPlatformRole) (issue : ℕ)
      (dto : CreateCommentDto)
      → Input
  edits : (now : ℕ) (staff : AuthenticatedStaff) (comment : ℕ) (body : Text) → Input
  scans : (issue : ℕ) → Input
  sweeps : (enabled : Bool) (now : ℕ) → Input

-- A request that throws leaves what was there.
unfoldable pub kept : Result Portal → Portal → Portal
kept (ok d') d = d'
kept (err e) d = d

abbrev pub no_rows : Portal
no_rows = record {
  reporters = [];
  issues = [];
  comments = [];
  attachments = [];
  views = [];
  csat = [];
  audit = [];
  events = [];
  blobs = [];
}

module _ (parse_json : Text → Option Value) (json_bytes : Value → ℕ) (trim : Text → Text)
    (touched_version : ℕ → PortalIssue → ℕ) (scan : Bytes → Text → Option ScanStatus) where
  unfoldable pub step : Input → Portal → Portal
  step (intake w ctx dto files) d = (create_issue parse_json json_bytes w ctx dto files d).1
  step (replied now fresh ctx issue body) d =
      kept (add_reply touched_version now fresh ctx issue body d) d
  step (visited now ctx issue) d = kept (mark_seen touched_version now 0 ctx issue d) d
  step (rates now fresh ctx issue up comment) d =
      kept (submit touched_version now fresh trim ctx issue up comment d) d
  step (comments_on now fresh staff grants issue dto) d =
      kept (add_comment touched_version now fresh staff grants issue dto d) d
  step (edits now staff comment body) d =
      kept (edit_comment touched_version now 0 staff comment body d) d
  step (scans issue) d = on_issue_created scan issue d
  step (sweeps enabled now) d = (sweep scan enabled now d).1

  -- The storage writes the files of an intake under unused keys.
  abbrev pub IsAdmitted : Input → Portal → Type 0
  IsAdmitted (intake w ctx dto files) d = IsFresh w d.blobs
  IsAdmitted _ d = Unit

  -- The states that some sequence of steps leads to, from an empty database and storage.
  pub data IsReachable : Portal → Type 0 where
    start : IsReachable no_rows
    next : {d : Portal} (i : Input) → IsReachable d → IsAdmitted i d → IsReachable (step i d)
