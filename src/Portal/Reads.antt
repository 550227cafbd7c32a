-- ===== src/Portal/Reads.antt =====
-- What a reporter reads: listForReporter, getIssueForReporter and getAttachmentForReporter of
-- src/reporter/reporter.service.ts.
use cimp.Prelude.{
  ℕ, Bool, true, false, ◌&&◌, List, [], ◌∷◌, Option, none, some, ◌==◌, ltb, leb, map, if◌then◌else◌,
  or_else, select, sort_by, is_some,
}
use cimp.Prelude.Table.{find}
use cimp.Prelude.Text.{Text, codes, same_text}
use cimp.Domain.{
  IssueStatus, Priority, CommentVisibility, internal, reporter_visible, ActorType, reporter_actor,
  is_servable, Result, ok, ◌>>=◌, ◌>>◌, require, found, not_found, forbidden, server_error,
  issue_not_found, attachment_not_found, attachment_unavailable, storage_failed,
}
use cimp.ContextSanitizer.{Value}
use cimp.Portal.Rows.{
  Bytes, HandoffContext, Reporter, PortalIssue, Comment, Attachment, ReporterIssueView,
  CsatResponse, Portal, row_id, attachment_id, blob_key,
}
use cimp.Portal.Reporters.{find_reporter}

pub record Update : Type 0 where
  pub body : Text
  pub original_body : Option Text
  pub translated : Bool
  pub created_at : ℕ
  pub from_reporter : Bool
  pub author : Text

pub record AttachmentView : Type 0 where
  pub id : ℕ
  pub filename : Text
  pub content_type : Text
  pub size_bytes : ℕ
  pub downloadable : Bool

pub record IssueView : Type 0 where
  pub id : ℕ
  pub reference_no : Text
  pub status : IssueStatus
  pub priority : Priority
  pub description : Text
  pub context : Option Value
  pub csat : Option (ℕ × Option Text)
  pub created_at : ℕ
  pub updated_at : ℕ
  pub attachments : List AttachmentView
  pub updates : List Update

pub record IssueLine : Type 0 where
  pub id : ℕ
  pub reference_no : Text
  pub status : IssueStatus
  pub priority : Priority
  pub created_at : ℕ
  pub updated_at : ℕ
  pub has_updates : Bool

-- `translations?.[locale]`.
pub lookup : Text → List (Text × Text) → Option Text
lookup key [] = none
lookup key ((k, v) ∷ kvs) = if same_text k key then some v else lookup key kvs

-- `locale ? translations?.[locale] : undefined`.
pub translation : Option Text → List (Text × Text) → Option Text
translation none kvs = none
translation (some []) kvs = none
translation (some (c ∷ locale)) kvs = lookup (c ∷ locale) kvs

unfoldable pub is_truthy : Option Text → Bool
is_truthy none = false
is_truthy (some []) = false
is_truthy (some (c ∷ s)) = true

pub is_reporter : ActorType → Bool
is_reporter reporter_actor = true
is_reporter _ = false

pub update_of : Option Text → Comment → Update
update_of locale c =
    let translated = translation locale c.translations in
    record {
      body = or_else translated c.body;
      original_body = if is_truthy translated then some c.body else none;
      translated = is_truthy translated;
      created_at = c.created_at;
      from_reporter = is_reporter c.author_type;
      author =
          if is_reporter c.author_type
          then or_else c.author_name (codes "You")
          else codes "Support";
    }

unfoldable pub is_public : CommentVisibility → Bool
is_public reporter_visible = true
is_public internal = false

pub earlier : Comment → Comment → Bool
earlier a b = leb a.created_at b.created_at

-- The reporter-visible comments of an issue, the oldest first.
unfoldable pub visible_comments : ℕ → List Comment → List Comment
visible_comments issue cs =
    sort_by earlier (select (λ c. c.issue == issue && is_public c.visibility) cs)

pub attachment_view : Attachment → AttachmentView
attachment_view a = record {
  id = a.id;
  filename = a.filename;
  content_type = a.content_type;
  size_bytes = a.size_bytes;
  downloadable = is_servable a.scan_status;
}

pub rating_of : ℕ → List CsatResponse → Option CsatResponse
rating_of issue [] = none
rating_of issue (r ∷ rs) = if r.issue == issue then some r else rating_of issue rs

pub shown_rating : Option CsatResponse → Option (ℕ × Option Text)
shown_rating none = none
shown_rating (some r) = some (r.score, r.comment)

-- The issue with an id, if it is the reporter's.
unfoldable pub own_issue : Reporter → ℕ → Portal → Option PortalIssue
own_issue r id d = elim (find row_id id d.issues) [
  | none ↦ none
  | some i ↦ if i.reporter == r.id then some i else none
]

-- The issue with an id, for the reporter that the context names.
unfoldable pub reporter_issue : HandoffContext → ℕ → Portal → Result (Reporter × PortalIssue)
reporter_issue ctx id d = do
  r ← found (find_reporter ctx d.reporters) (not_found issue_not_found)
  i ← found (own_issue r id d) (not_found issue_not_found)
  ok (r, i)

unfoldable pub issue_view : Option Text → PortalIssue → Portal → IssueView
issue_view locale i d = record {
  id = i.id;
  reference_no = i.reference_no;
  status = i.status;
  priority = i.priority;
  description = i.description;
  context = i.context;
  csat = shown_rating (rating_of i.id d.csat);
  created_at = i.created_at;
  updated_at = i.updated_at;
  attachments = map attachment_view (select (λ a. a.issue == i.id) d.attachments);
  updates = map (update_of locale) (visible_comments i.id d.comments);
}

-- getIssueForReporter.
unfoldable pub get_issue_for_reporter : HandoffContext → ℕ → Portal → Result IssueView
get_issue_for_reporter ctx id d = do
  (r, i) ← reporter_issue ctx id d
  ok (issue_view ctx.locale i d)

pub view_of : ℕ → ℕ → List ReporterIssueView → Option ReporterIssueView
view_of reporter issue [] = none
view_of reporter issue (v ∷ vs) =
    if v.reporter == reporter && v.issue == issue then some v else view_of reporter issue vs

-- `!lastViewed || lastViewed < updatedAt`.
pub has_updates : Option ReporterIssueView → PortalIssue → Bool
has_updates none i = true
has_updates (some v) i = ltb v.last_viewed_at i.updated_at

pub issue_line : ℕ → List ReporterIssueView → PortalIssue → IssueLine
issue_line reporter vs i = record {
  id = i.id;
  reference_no = i.reference_no;
  status = i.status;
  priority = i.priority;
  created_at = i.created_at;
  updated_at = i.updated_at;
  has_updates = has_updates (view_of reporter i.id vs) i;
}

pub newer : PortalIssue → PortalIssue → Bool
newer a b = leb b.created_at a.created_at

unfoldable pub lines_of : Option Reporter → Portal → List IssueLine
lines_of none d = []
lines_of (some r) d =
    map (issue_line r.id d.views) (sort_by newer (select (λ i. i.reporter == r.id) d.issues))

-- listForReporter.
unfoldable pub list_for_reporter : HandoffContext → Portal → List IssueLine
list_for_reporter ctx d = lines_of (find_reporter ctx d.reporters) d

pub record ServableFile : Type 0 where
  pub buffer : Bytes
  pub filename : Text
  pub content_type : Text

-- What both downloads do with the attachment that they found.
unfoldable pub serve : Attachment → Portal → Result ServableFile
serve a d = do
  require (is_servable a.scan_status) (forbidden attachment_unavailable)
  b ← found (find blob_key a.storage_key d.blobs) (server_error storage_failed)
  ok (record { buffer = b.bytes; filename = a.filename; content_type = a.content_type })

-- getAttachmentForReporter.
unfoldable pub get_attachment_for_reporter : HandoffContext → ℕ → ℕ → Portal → Result ServableFile
get_attachment_for_reporter ctx issue id d = do
  r ← found (find_reporter ctx d.reporters) (not_found attachment_not_found)
  a ← found (find attachment_id id d.attachments) (not_found attachment_not_found)
  require (a.issue == issue && is_some (own_issue r issue d)) (not_found attachment_not_found)
  serve a d
