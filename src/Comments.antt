-- ===== src/Comments.antt =====
-- The comments of staff: src/comments/comments.service.ts.
pub mod Hidden
mod Tests
use cimp.Prelude.{
  ℕ, Bool, true, not, ◌&&◌, ◌||◌, List, [], ◌∷◌, Option, none, some, ◌==◌, if◌then◌else◌, or_else,
  take, is_none, holds_id, includes, distinct, select,
}
use cimp.Prelude.Table.{find, put}
use cimp.Prelude.Text.{Text}
use cimp.Domain.{
  CommentVisibility, staff_actor, includes_role, Event, Result, ok, ◌>>=◌, ◌>>◌, require, found,
  not_found, forbidden, issue_not_found, comment_not_found, foreign_comment, no_write_access,
}
use cimp.Authz.{AuthenticatedStaff, can_access_platform, staff_write_roles}
use cimp.Store.{UserPlatformRole}
use cimp.Portal.Rows.{
  PortalIssue, Comment, comment_added, comment_edited, Portal, row_id, comment_id,
}
use cimp.Portal.Reads.{is_public}
use cimp.Portal.Replies.{touch_issue}

pub record CreateCommentDto : Type 0 where
  pub body : Text
  pub visibility : CommentVisibility
  pub mention_staff_ids : Option (List ℕ)

-- A grant that makes one mentionable: a write role on the platform, or everywhere.
pub is_mentionable : ℕ → UserPlatformRole → Bool
is_mentionable platform g =
    (is_none g.platform || holds_id g.platform platform) && includes_role staff_write_roles g.role

-- platformMemberIds.
pub platform_member_ids : List ℕ → ℕ → List UserPlatformRole → List ℕ
platform_member_ids ids platform [] = []
platform_member_ids ids platform (g ∷ gs) =
    let rest = platform_member_ids ids platform gs in
    if includes ids g.staff_user && is_mentionable platform g then g.staff_user ∷ rest else rest

-- The mentions that are told: those of members, without the author, each once.
pub mentioned : AuthenticatedStaff → Option (List ℕ) → ℕ → List UserPlatformRole → List ℕ
mentioned staff ids platform grants =
    let requested = select (λ id. not (id == staff.id)) (distinct (or_else ids [])) in
    select (includes (platform_member_ids requested platform grants)) requested

module _ (touched_version : ℕ → PortalIssue → ℕ) (now fresh : ℕ) (staff : AuthenticatedStaff) where
  pub written_comment : ℕ → CreateCommentDto → Comment
  written_comment issue dto = record {
    id = fresh;
    issue = issue;
    author = some staff.id;
    author_type = staff_actor;
    author_name = none;
    body = dto.body;
    visibility = dto.visibility;
    source_locale = none;
    translations = [];
    created_at = now;
    edited_at = none;
  }

  unfoldable pub add_comment : List UserPlatformRole → ℕ → CreateCommentDto → Portal → Result Portal
  add_comment grants id dto d = do
    i ← found (find row_id id d.issues) (not_found issue_not_found)
    ok (record d {
      comments = written_comment id dto ∷ d.comments;
      issues =
          if is_public dto.visibility
          then touch_issue touched_version now id d.issues
          else d.issues;
      audit =
          record {
            issue = id;
            actor_type = staff_actor;
            actor = staff.id;
            action = comment_added dto.visibility fresh;
          }
          ∷ d.audit;
      events =
          Event.comment_added id i.platform fresh (is_public dto.visibility) (some staff.id)
            (mentioned staff dto.mention_staff_ids i.platform grants)
          ∷ d.events;
    })

  -- `platformId && !canAccessPlatform`.
  pub may_still_write : Option PortalIssue → Bool
  may_still_write none = true
  may_still_write (some i) = can_access_platform staff i.platform staff_write_roles

  pub edited : Text → Comment → Comment
  edited body c = record c {
    body = body;
    edited_at = some now;
    translations = [];
    source_locale = none;
  }

  unfoldable pub edit_comment : ℕ → Text → Portal → Result Portal
  edit_comment id body d = do
    c ← found (find comment_id id d.comments) (not_found comment_not_found)
    require (holds_id c.author staff.id) (forbidden foreign_comment)
    require (may_still_write (find row_id c.issue d.issues)) (forbidden no_write_access)
    ok (record d {
      comments = put comment_id (edited body c) d.comments;
      audit =
          record {
            issue = c.issue;
            actor_type = staff_actor;
            actor = staff.id;
            action = comment_edited id (take 255 c.body) (take 255 body);
          }
          ∷ d.audit;
    })
