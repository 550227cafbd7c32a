-- ===== src/Portal/Rows.antt =====
-- The rows behind the reporter portal: reporter.entity.ts, comment.entity.ts, attachment.entity.ts,
-- reporter-issue-view.entity.ts, csat-response.entity.ts and what the portal reads of
-- issue.entity.ts (src/entities), the objects of src/storage, and the hand-off context of
-- src/handoff/handoff.types.ts.
use cimp.Prelude.{ℕ, List, Option}
use cimp.Prelude.Text.{Text}
use cimp.Domain.{IssueStatus, Priority, CommentVisibility, ScanStatus, ActorType, Event}
use cimp.ContextSanitizer.{Value}

abbrev pub Bytes : Type 0
Bytes = List ℕ

-- HandoffContext, with the fields of its reporter.
pub record HandoffContext : Type 0 where
  pub platform : ℕ
  pub portal_user : Text
  pub name : Text
  pub email : Text
  pub locale : Option Text

pub record Reporter : Type 0 where
  pub id : ℕ
  pub platform : ℕ
  pub portal_user : Text
  pub name : Text
  pub email : Text

pub record PortalIssue : Type 0 where
  pub id : ℕ
  pub reference_no : Text
  pub platform : ℕ
  pub reporter : ℕ
  pub description : Text
  pub context : Option Value
  pub status : IssueStatus
  pub priority : Priority
  pub version : ℕ
  pub created_at : ℕ
  pub updated_at : ℕ

-- `author` is the id of a staff user; `translations` are the cached ones by locale.
pub record Comment : Type 0 where
  pub id : ℕ
  pub issue : ℕ
  pub author : Option ℕ
  pub author_type : ActorType
  pub author_name : Option Text
  pub body : Text
  pub visibility : CommentVisibility
  pub source_locale : Option Text
  pub translations : List (Text × Text)
  pub created_at : ℕ
  pub edited_at : Option ℕ

pub record Attachment : Type 0 where
  pub id : ℕ
  pub issue : ℕ
  pub storage_key : ℕ
  pub filename : Text
  pub content_type : Text
  pub size_bytes : ℕ
  pub scan_status : ScanStatus
  pub created_at : ℕ

pub record ReporterIssueView : Type 0 where
  pub reporter : ℕ
  pub issue : ℕ
  pub last_viewed_at : ℕ

pub record CsatResponse : Type 0 where
  pub issue : ℕ
  pub reporter : ℕ
  pub score : ℕ
  pub comment : Option Text

-- The audit rows of the portal and of the comments.
pub data PortalAction : Type 0 where
  issue_created : PortalAction
  comment_added : (visibility : CommentVisibility) (comment : ℕ) → PortalAction
  comment_edited : (comment : ℕ) (old_body new_body : Text) → PortalAction

pub record PortalAudit : Type 0 where
  pub issue : ℕ
  pub actor_type : ActorType
  pub actor : ℕ
  pub action : PortalAction

-- An object of the storage, under its key.
pub record Blob : Type 0 where
  pub key : ℕ
  pub bytes : Bytes

-- The tables, the storage and the events; the newest row, object and event stand first.
pub record Portal : Type 0 where
  pub reporters : List Reporter
  pub issues : List PortalIssue
  pub comments : List Comment
  pub attachments : List Attachment
  pub views : List ReporterIssueView
  pub csat : List CsatResponse
  pub audit : List PortalAudit
  pub events : List Event
  pub blobs : List Blob

abbrev pub reporter_id : Reporter → ℕ
reporter_id r = r.id

abbrev pub row_id : PortalIssue → ℕ
row_id i = i.id

abbrev pub comment_id : Comment → ℕ
comment_id c = c.id

abbrev pub attachment_id : Attachment → ℕ
attachment_id a = a.id

abbrev pub blob_key : Blob → ℕ
blob_key b = b.key
