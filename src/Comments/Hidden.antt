-- ===== src/Comments/Hidden.antt =====
-- What src/comments/comments.service.ts writes for staff alone stays out of what
-- src/reporter/reporter.service.ts shows.
use cimp.Prelude.{
  ℕ, false, ◌&&◌, List, ◌∷◌, ◌≡◌, refl, ap, ◌∙◌, ◌⊎◌, inl, inr, Option, none, some, ◌==◌, arith,
  select, sort_by, map, holds_id,
}
use mathlib.Core.Path.{subst}
use cimp.Prelude.Table.{find, find-key, put}
use cimp.Prelude.Table.Keys.{select-put}
use cimp.Prelude.Text.{Text}
use cimp.Domain.{
  internal, Event, ok, require, found, not_found, forbidden, issue_not_found, comment_not_found,
  foreign_comment, no_write_access,
}
use cimp.Domain.Results.{>>=-eq-ok, >>-eq-ok, ok-injective, found-eq-ok, >>=-eq}
use cimp.Authz.{AuthenticatedStaff}
use cimp.Store.{UserPlatformRole}
use cimp.Portal.Rows.{
  HandoffContext, PortalIssue, Reporter, Comment, PortalAudit, Portal, row_id, comment_id,
}
use cimp.Portal.Reporters.{find_reporter}
use cimp.Portal.Reads.{
  is_public, visible_comments, update_of, issue_view, reporter_issue, get_issue_for_reporter,
  list_for_reporter, own_issue, lines_of, earlier,
}
use cimp.Comments.{
  CreateCommentDto, add_comment, edit_comment, edited, written_comment, may_still_write,
}

-- Comments of which a reporter sees the same.
abbrev LookAlike : List Comment → List Comment → Type 0
LookAlike cs cs' =
    (issue : ℕ)
    → select (λ c. c.issue == issue && is_public c.visibility) cs
      ≡ select (λ c. c.issue == issue && is_public c.visibility) cs'

-- What reporters read does not depend on the audit trail and the events, and of the comments only on
-- those that they see.
reads_alike :
    (d : Portal) (cs : List Comment) (audit : List PortalAudit) (events : List Event)
    → LookAlike cs d.comments
    → (ctx : HandoffContext) (id : ℕ)
    → (get_issue_for_reporter ctx id (record d { comments = cs; audit = audit; events = events })
        ≡ get_issue_for_reporter ctx id d)
      × (list_for_reporter ctx (record d { comments = cs; audit = audit; events = events })
          ≡ list_for_reporter ctx d)
unfolding get_issue_for_reporter reporter_issue own_issue issue_view visible_comments
    list_for_reporter lines_of
reads_alike d cs audit events alike ctx id = (
  >>=-eq (reporter_issue ctx id d) _ _ (λ x.
      ap
        (λ shown. ok (record (issue_view ctx.locale x.1 d) {
          updates = map (update_of ctx.locale) (sort_by earlier shown);
        }))
        (alike x.1.id)),
  lists_alike (find_reporter ctx d.reporters),
)
  where
    lists_alike :
        (o : Option Reporter)
        → lines_of o (record d { comments = cs; audit = audit; events = events }) ≡ lines_of o d
    lists_alike none = refl
    lists_alike (some r) = refl

hidden_front :
    (c : Comment) (cs : List Comment) → is_public c.visibility ≡ false → LookAlike (c ∷ cs) cs
hidden_front c cs h issue = ground (arith, h)

hidden_put :
    (c old : Comment) (cs : List Comment)
    → find comment_id c.id cs ≡ some old
    → is_public c.visibility ≡ false
    → is_public old.visibility ≡ false
    → LookAlike (put comment_id c cs) cs
hidden_put c old cs there h k issue =
    select-put comment_id (λ x. x.issue == issue && is_public x.visibility) c old cs there
      (ground (arith, h)) (ground (arith, k))

module _ (touched_version : ℕ → PortalIssue → ℕ) (now fresh : ℕ) (staff : AuthenticatedStaff) where
  -- A comment that staff write, or edit, for staff alone: a reporter's view of every issue, and
  -- a reporter's list, are as before, whoever the reporter is.
  pub internal_hidden :
      (grants : List UserPlatformRole) (id : ℕ) (d d' : Portal)
      → ((dto : CreateCommentDto) × (dto.visibility ≡ internal)
          × (add_comment touched_version now fresh staff grants id dto d ≡ ok d'))
        ⊎ ((body : Text) × (c : Comment) × (find comment_id id d.comments ≡ some c)
            × (c.visibility ≡ internal)
            × (edit_comment touched_version now fresh staff id body d ≡ ok d'))
      → (ctx : HandoffContext) (issue : ℕ)
      → (get_issue_for_reporter ctx issue d' ≡ get_issue_for_reporter ctx issue d)
        × (list_for_reporter ctx d' ≡ list_for_reporter ctx d)
  unfolding add_comment edit_comment written_comment edited is_public
  internal_hidden grants id d d' (inl (dto, hidden, h)) ctx issue =
      let (i, known, made) =
        >>=-eq-ok (found (find row_id id d.issues) (not_found issue_not_found)) _ h in
      let closed : is_public dto.visibility ≡ false = ap is_public hidden in
      subst
        (λ p.
          (get_issue_for_reporter ctx issue p ≡ get_issue_for_reporter ctx issue d)
          × (list_for_reporter ctx p ≡ list_for_reporter ctx d))
        (ok-injective made)
        (rw closed (
          reads_alike d (written_comment touched_version now fresh staff id dto ∷ d.comments) _ _
            (hidden_front _ d.comments closed) ctx issue))
  internal_hidden grants id d d' (inr (body, c, there, hidden, h)) ctx issue =
      let (c', found_it, h1) =
        >>=-eq-ok (found (find comment_id id d.comments) (not_found comment_not_found)) _ h in
      let there' : find comment_id id d.comments ≡ some c' =
        found-eq-ok (find comment_id id d.comments) (not_found comment_not_found) found_it in
      let same : c ≡ c' = cc (there, there') in
      let closed : is_public c'.visibility ≡ false =
        subst (λ x. is_public x.visibility ≡ false) same (ap is_public hidden) in
      let made =
        >>-eq-ok
          (require (may_still_write touched_version now fresh staff (find row_id c'.issue d.issues))
            (forbidden no_write_access))
          _ (>>-eq-ok (require (holds_id c'.author staff.id) (forbidden foreign_comment)) _ h1) in
      subst
        (λ p.
          (get_issue_for_reporter ctx issue p ≡ get_issue_for_reporter ctx issue d)
          × (list_for_reporter ctx p ≡ list_for_reporter ctx d))
        (ok-injective made)
        (reads_alike d (put comment_id (edited touched_version now fresh staff body c') d.comments)
          _ _
          (hidden_put (edited touched_version now fresh staff body c') c' d.comments
            (ap (λ k. find comment_id k d.comments) (find-key comment_id id d.comments c' there')
              ∙ there')
            closed closed)
          ctx issue)
