-- ===== src/Portal/Replies.antt =====
-- A reporter's reply, visit and rating: addComment and markSeen of src/reporter/reporter.service.ts,
-- and src/csat/csat.service.ts.
use cimp.Prelude.{
  ℕ, Bool, true, false, not, ◌&&◌, List, [], ◌∷◌, ◌++◌, Option, none, some, ◌==◌, map,
  if◌then◌else◌, is_some,
}
use cimp.Prelude.Text.{Text, codes}
use cimp.Domain.{
  IssueStatus, resolved, closed, internal, reporter_visible, system_actor, reporter_actor, Event,
  Result, ok, ◌>>=◌, ◌>>◌, require, conflict, not_resolved_yet,
}
use cimp.Portal.Rows.{
  HandoffContext, Reporter, PortalIssue, Comment, ReporterIssueView, CsatResponse, comment_added,
  Portal,
}
use cimp.Portal.Reads.{reporter_issue, view_of, rating_of, is_truthy}

-- The statements `SET updated_at = now()` on the issue; `touched_version` is what TypeORM does to
-- the version.
pub touch_issue : (ℕ → PortalIssue → ℕ) → ℕ → ℕ → List PortalIssue → List PortalIssue
touch_issue touched_version now id is =
    map
      (λ i.
        if i.id == id then record i { version = touched_version now i; updated_at = now } else i)
      is

module _ (touched_version : ℕ → PortalIssue → ℕ) (now fresh : ℕ) where
  pub reply : HandoffContext → Reporter → PortalIssue → Text → Comment
  reply ctx r i body = record {
    id = fresh;
    issue = i.id;
    author = none;
    author_type = reporter_actor;
    author_name = some r.name;
    body = body;
    visibility = reporter_visible;
    source_locale = ctx.locale;
    translations = [];
    created_at = now;
    edited_at = none;
  }

  -- addComment.
  unfoldable pub add_reply : HandoffContext → ℕ → Text → Portal → Result Portal
  add_reply ctx id body d = do
    (r, i) ← reporter_issue ctx id d
    ok (record d {
      comments = reply ctx r i body ∷ d.comments;
      issues = touch_issue touched_version now i.id d.issues;
      audit =
          record {
            issue = i.id;
            actor_type = reporter_actor;
            actor = r.id;
            action = comment_added reporter_visible fresh;
          }
          ∷ d.audit;
      events = Event.comment_added i.id i.platform fresh true none [] ∷ d.events;
    })

  -- The save of the view row, a new one or the one that was found.
  pub seen : ℕ → ℕ → List ReporterIssueView → List ReporterIssueView
  seen reporter issue vs =
      if is_some (view_of reporter issue vs)
      then map
          (λ v.
            if v.reporter == reporter && v.issue == issue
            then record v { last_viewed_at = now }
            else v)
          vs
      else record { reporter = reporter; issue = issue; last_viewed_at = now } ∷ vs

  unfoldable pub mark_seen : HandoffContext → ℕ → Portal → Result Portal
  mark_seen ctx id d = do
    (r, i) ← reporter_issue ctx id d
    ok (record d { views = seen r.id i.id d.views })

  pub is_ratable : IssueStatus → Bool
  is_ratable resolved = true
  is_ratable closed = true
  is_ratable _ = false

  -- The save of the rating, over the one that was there.
  pub rated : CsatResponse → List CsatResponse → List CsatResponse
  rated r rs =
      if is_some (rating_of r.issue rs)
      then map (λ s. if s.issue == r.issue then r else s) rs
      else r ∷ rs

  -- `!existing || existing.score !== 0`.
  pub was_not_negative : Option CsatResponse → Bool
  was_not_negative none = true
  was_not_negative (some r) = not (r.score == 0)

  pub flag : ℕ → Option Text → Comment
  flag issue comment = record {
    id = fresh;
    issue = issue;
    author = none;
    author_type = system_actor;
    author_name = none;
    body = elim comment [
      | none ↦ codes "Reporter rated the resolution negatively."
      | some text ↦ codes "Reporter rated the resolution negatively: \"" ++ (text ++ codes "\"")
    ];
    visibility = internal;
    source_locale = none;
    translations = [];
    created_at = now;
    edited_at = none;
  }

  pub flagged : Bool → ℕ → Option Text → List Comment → List Comment
  flagged true issue comment cs = flag issue comment ∷ cs
  flagged false issue comment cs = cs

  -- `dto.comment?.trim() || null`, with the runtime's `trim`.
  pub trimmed_or_null : (Text → Text) → Option Text → Option Text
  trimmed_or_null trim none = none
  trimmed_or_null trim (some text) = if is_truthy (some (trim text)) then some (trim text) else none

  -- submit; `up` is the thumb, and 1 or 0 its score.
  unfoldable pub submit :
      (Text → Text) → HandoffContext → ℕ → Bool → Option Text → Portal → Result Portal
  submit trim ctx id up text d = do
    (r, i) ← reporter_issue ctx id d
    require (is_ratable i.status) (conflict not_resolved_yet)
    let score = if up then 1 else 0
    let comment = trimmed_or_null trim text
    ok (record d {
      csat =
          rated (record { issue = i.id; reporter = r.id; score = score; comment = comment }) d.csat;
      comments =
          flagged (not up && was_not_negative (rating_of i.id d.csat)) i.id comment d.comments;
      events = Event.csat_received i.id i.platform score ∷ d.events;
    })
