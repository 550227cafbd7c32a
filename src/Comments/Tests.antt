-- ===== src/Comments/Tests.antt =====
-- A note of staff on a reporter's issue.
use cimp.Prelude.{ℕ, ◌+◌, [], ◌∷◌, ◌≡◌, refl, none, inl}
use cimp.Prelude.Table.{find}
use cimp.Prelude.Text.{codes}
use cimp.Domain.{new, medium, internal}
use cimp.Portal.Rows.{HandoffContext, PortalIssue, Portal}
use cimp.Portal.Reads.{get_issue_for_reporter, list_for_reporter}
use cimp.Comments.{CreateCommentDto, add_comment}
use cimp.Comments.Hidden.{internal_hidden}
use cimp.Scanning.World.{no_rows, kept}
use cimp.Scenario.{as_dev}

abbrev next_version : ℕ → PortalIssue → ℕ
next_version now i = i.version + 1

abbrev ada : HandoffContext
ada = record {
  platform = 7;
  portal_user = codes "ada";
  name = codes "Ada";
  email = codes "ada@x";
  locale = none;
}

abbrev one_issue : Portal
one_issue = record no_rows {
  reporters =
      record {
        id = 1;
        platform = 7;
        portal_user = codes "ada";
        name = codes "Ada";
        email = codes "ada@x";
      }
      ∷ [];
  issues =
      record {
        id = 10;
        reference_no = codes "CIMP-1";
        platform = 7;
        reporter = 1;
        description = codes "It fails";
        context = none;
        status = new;
        priority = medium;
        version = 1;
        created_at = 50;
        updated_at = 50;
      }
      ∷ [];
}

abbrev a_note : CreateCommentDto
a_note = record { body = codes "It is the disk"; visibility = internal; mention_staff_ids = none }

abbrev noted : Portal
noted = kept (add_comment next_version 60 30 as_dev.staff [] 10 a_note one_issue) one_issue

internal_hidden_example :
    (get_issue_for_reporter ada 10 noted ≡ get_issue_for_reporter ada 10 one_issue)
    × (list_for_reporter ada noted ≡ list_for_reporter ada one_issue)
unfolding add_comment find kept
internal_hidden_example =
    internal_hidden next_version 60 30 as_dev.staff [] 10 one_issue noted (inl (a_note, refl, refl))
      ada 10
