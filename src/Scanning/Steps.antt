-- ===== src/Scanning/Steps.antt =====
-- Every step of the portal keeps its attachments vetted (src/reporter, src/csat, src/comments,
-- src/scanning).
use mathlib.Core.Path.{subst}
use cimp.Prelude.{ℕ, Bool, List, ◌≡◌, refl, sym, Option, All}
use cimp.Prelude.Table.{find}
use cimp.Prelude.Text.{Text}
use cimp.Domain.{ScanStatus, found, not_found, comment_not_found}
use cimp.ContextSanitizer.{Value}
use cimp.Authz.{AuthenticatedStaff}
use cimp.Portal.Rows.{Bytes, HandoffContext, PortalIssue, Portal, comment_id}
use cimp.Portal.Replies.{add_reply, mark_seen, submit}
use cimp.Portal.Reads.{reporter_issue}
use cimp.Store.{UserPlatformRole}
use cimp.Comments.{CreateCommentDto, add_comment, edit_comment}
use cimp.Scanning.World.{
  Input, intake, replied, visited, rates, comments_on, edits, scans, sweeps, step, kept, IsAdmitted,
  IsReachable, start, next,
}
use cimp.Scanning.Vetted.{
  kept->>=, kept->>, kept-ok, IsVetted, AreVetted, on_issue_created-AreVetted, sweep-AreVetted,
}
use cimp.Scanning.Uploads.{create_issue-AreVetted}

module _ (parse_json : Text → Option Value) (json_bytes : Value → ℕ) (trim : Text → Text)
    (touched_version : ℕ → PortalIssue → ℕ) (scan : Bytes → Text → Option ScanStatus) where
  -- The requests that touch no file.
  record HasFiles (d p : Portal) : Type 0 where
    attachments : p.attachments ≡ d.attachments
    blobs : p.blobs ≡ d.blobs

  HasFiles-refl : (d : Portal) → HasFiles d d
  HasFiles-refl d = record { attachments = refl; blobs = refl }

  HasFiles-AreVetted : (d p : Portal) → AreVetted scan d → HasFiles d p → AreVetted scan p
  HasFiles-AreVetted d p h same =
      subst (λ bs. All (IsVetted scan bs) p.attachments) (sym same.blobs)
        (subst (All (IsVetted scan d.blobs)) (sym same.attachments) h)

  add_reply-HasFiles :
      (now fresh : ℕ) (ctx : HandoffContext) (issue : ℕ) (body : Text) (d : Portal)
      → HasFiles d (kept (add_reply touched_version now fresh ctx issue body d) d)
  unfolding add_reply
  add_reply-HasFiles now fresh ctx issue body d =
      kept->>= (HasFiles d) _ _ d (HasFiles-refl d)
        (λ x. kept-ok (HasFiles d) d _ (record { attachments = refl; blobs = refl }))

  mark_seen-HasFiles :
      (now fresh : ℕ) (ctx : HandoffContext) (issue : ℕ) (d : Portal)
      → HasFiles d (kept (mark_seen touched_version now fresh ctx issue d) d)
  unfolding mark_seen
  mark_seen-HasFiles now fresh ctx issue d =
      kept->>= (HasFiles d) _ _ d (HasFiles-refl d)
        (λ x. kept-ok (HasFiles d) d _ (record { attachments = refl; blobs = refl }))

  submit-HasFiles :
      (now fresh : ℕ) (ctx : HandoffContext) (issue : ℕ) (up : Bool) (comment : Option Text)
      (d : Portal)
      → HasFiles d (kept (submit touched_version now fresh trim ctx issue up comment d) d)
  unfolding submit
  submit-HasFiles now fresh ctx issue up comment d =
      kept->>= (HasFiles d) (reporter_issue ctx issue d) _ d (HasFiles-refl d) (λ x.
        kept->> (HasFiles d) _ _ d (HasFiles-refl d)
          (kept-ok (HasFiles d) d _ (record { attachments = refl; blobs = refl })))

  add_comment-HasFiles :
      (now fresh : ℕ) (staff : AuthenticatedStaff) (grants : List UserPlatformRole) (issue : ℕ)
      (dto : CreateCommentDto) (d : Portal)
      → HasFiles d (kept (add_comment touched_version now fresh staff grants issue dto d) d)
  unfolding add_comment
  add_comment-HasFiles now fresh staff grants issue dto d =
      kept->>= (HasFiles d) _ _ d (HasFiles-refl d)
        (λ x. kept-ok (HasFiles d) d _ (record { attachments = refl; blobs = refl }))

  edit_comment-HasFiles :
      (now fresh : ℕ) (staff : AuthenticatedStaff) (comment : ℕ) (body : Text) (d : Portal)
      → HasFiles d (kept (edit_comment touched_version now fresh staff comment body d) d)
  unfolding edit_comment
  edit_comment-HasFiles now fresh staff comment body d =
      kept->>= (HasFiles d)
        (found (find comment_id comment d.comments) (not_found comment_not_found)) _ d
        (HasFiles-refl d)
        (λ c. kept->> (HasFiles d) _ _ d (HasFiles-refl d) (
          kept->> (HasFiles d) _ _ d (HasFiles-refl d)
            (kept-ok (HasFiles d) d _ (record { attachments = refl; blobs = refl }))))

  step-AreVetted :
      (i : Input) (d : Portal)
      → IsAdmitted parse_json json_bytes trim touched_version scan i d
      → AreVetted scan d
      → AreVetted scan (step parse_json json_bytes trim touched_version scan i d)
  unfolding step
  step-AreVetted (intake w ctx dto files) d fresh h =
      create_issue-AreVetted parse_json json_bytes scan w ctx dto files d fresh h
  step-AreVetted (replied now fresh ctx issue body) d admitted h =
      HasFiles-AreVetted d _ h (add_reply-HasFiles now fresh ctx issue body d)
  step-AreVetted (visited now ctx issue) d admitted h =
      HasFiles-AreVetted d _ h (mark_seen-HasFiles now 0 ctx issue d)
  step-AreVetted (rates now fresh ctx issue up comment) d admitted h =
      HasFiles-AreVetted d _ h (submit-HasFiles now fresh ctx issue up comment d)
  step-AreVetted (comments_on now fresh staff grants issue dto) d admitted h =
      HasFiles-AreVetted d _ h (add_comment-HasFiles now fresh staff grants issue dto d)
  step-AreVetted (edits now staff comment body) d admitted h =
      HasFiles-AreVetted d _ h (edit_comment-HasFiles now 0 staff comment body d)
  step-AreVetted (scans issue) d admitted h = on_issue_created-AreVetted scan issue d h
  step-AreVetted (sweeps enabled now) d admitted h = sweep-AreVetted scan enabled now d h

  -- After any steps, every attachment is vetted.
  pub IsReachable-AreVetted :
      (d : Portal)
      → IsReachable parse_json json_bytes trim touched_version scan d
      → AreVetted scan d
  IsReachable-AreVetted _ start = tt
  IsReachable-AreVetted _ (next {d} i before admitted) =
      step-AreVetted i d admitted (IsReachable-AreVetted d before)
