-- ===== src/Portal/Tests.antt =====
-- Intakes, scans, downloads, sweeps and comments on a portal with one reporter and one issue.
use cimp.Prelude.{
  ℕ, ◌+◌, true, false, [], ◌∷◌, ◌≡◌, ◌≢◌, refl, Option, none, some, arith, inl, ◌⊎◌, if◌then◌else◌,
}
use cimp.Prelude.Table.{find, put, remove}
use cimp.Prelude.Text.{Text, codes, same_text, has_prefix}
use cimp.Domain.{ScanStatus, clean, ok, err, server_error, storage_failed, database_failed}
use cimp.ContextSanitizer.{Value}
use cimp.Portal.Rows.{Bytes, HandoffContext, PortalIssue, Portal}
use cimp.Portal.Signatures.{sniff_allowed_mime, sniff, passes, starts_at, is_allowed}
use cimp.Portal.Reporters.{
  is_named, find_reporter, new_reporter, upserted, save_reporter, upsert_reporter,
}
use cimp.Portal.Reads.{ServableFile, issue_view, own_issue, serve, get_attachment_for_reporter}
use cimp.Portal.Intake.{
  CreateIssueDto, UploadedFile, Surroundings, create_issue, allowed, detect_types, validate_files,
  settled, save_files, fulfilled, written, delete_files, new_issue, is_taken, persist_issue,
  is_unique_violation, unless_taken, persist_loop, persisted, after_uploads, validated,
  attachments_of,
}
use cimp.Portal.Intake.Files.{IsFresh}
use cimp.Portal.Intake.Outcomes.{reporter, told}
use cimp.Portal.Intake.Undone.{accepted_rows, IsUndone, IsUnread, create_issue-IsUndone}
use cimp.Portal.Intake.Accepted.{IsFirstFree, create_issue_accepts}
use cimp.Authz.{AuthenticatedStaff}
use cimp.Scanning.{
  verdict, scan_and_persist, scan_all, told_scanned, on_issue_created, is_pending, get_for_staff,
}
use cimp.Scanning.World.{no_rows, IsReachable, start, next, intake, scans, step}
use cimp.Scanning.Served.{IsSafe, downloads-IsSafe, downloads_find}

abbrev no_json : Text → Option Value
no_json s = none

abbrev no_bytes : Value → ℕ
no_bytes v = 0

abbrev untrimmed : Text → Text
untrimmed s = s

abbrev next_version : ℕ → PortalIssue → ℕ
next_version now i = i.version + 1

abbrev always_clean : Bytes → Text → Option ScanStatus
always_clean bytes name = some clean

abbrev ada : HandoffContext
ada = record {
  platform = 7;
  portal_user = codes "ada";
  name = codes "Ada";
  email = codes "ada@x";
  locale = none;
}

abbrev a_form : CreateIssueDto
a_form = record { description = codes "It fails"; context = none }

abbrev jpeg : Bytes
jpeg = 0xff ∷ 0xd8 ∷ 0xff ∷ 1 ∷ []

abbrev a_picture : UploadedFile
a_picture = record { original_name = codes "a.jpg"; buffer = jpeg; size = 4 }

-- The first reference is taken if an issue has it; the storage writes each file under the key 100
-- more than its place.
abbrev calm : Surroundings
calm = record {
  now = 50;
  fresh_reporter = 1;
  fresh_issue = 10;
  fresh_attachment = λ n. 20 + n;
  put_key = λ n. some (100 + n);
  deletes = λ k. true;
  reference = λ k. k ∷ [];
  database_fails = λ k. false;
  upsert_fails = false;
  read_fails = false;
}

abbrev failing : Surroundings
failing = record calm { database_fails = λ k. true }

calm-IsFresh : IsFresh calm []
unfolding find
calm-IsFresh = record { unused = λ n k h. refl; own = λ n m k h g. ground (arith, h, g) }

failing-IsFresh : IsFresh failing []
unfolding find
failing-IsFresh = record { unused = λ n k h. refl; own = λ n m k h g. ground (arith, h, g) }

abbrev after_intake : Portal
after_intake = (create_issue no_json no_bytes calm ada a_form (a_picture ∷ []) no_rows).1

abbrev after_scan : Portal
after_scan = step no_json no_bytes untrimmed next_version always_clean (scans 10) (
    step no_json no_bytes untrimmed next_version always_clean
      (intake calm ada a_form (a_picture ∷ [])) no_rows)

after_scan-IsReachable : IsReachable no_json no_bytes untrimmed next_version always_clean after_scan
after_scan-IsReachable =
    next (scans 10) (next (intake calm ada a_form (a_picture ∷ [])) start calm-IsFresh) tt

abbrev the_file : ServableFile
the_file = record { buffer = jpeg; filename = codes "a.jpg"; content_type = codes "image/jpeg" }

abbrev after_failure : Portal
after_failure = record no_rows {
  reporters =
      record {
        id = 1;
        platform = 7;
        portal_user = codes "ada";
        name = codes "Ada";
        email = codes "ada@x";
      }
      ∷ [];
}

downloads-IsSafe_example : IsSafe always_clean the_file
unfolding allowed detect_types validate_files settled save_files fulfilled written new_issue
    is_taken persist_issue unless_taken persist_loop persisted after_uploads validated create_issue
    sniff_allowed_mime sniff passes starts_at has_prefix is_allowed same_text new_reporter upserted
    save_reporter is_named find_reporter upsert_reporter attachments_of verdict scan_and_persist
    scan_all told_scanned on_issue_created is_pending step find put own_issue serve
    get_attachment_for_reporter
downloads-IsSafe_example =
    downloads-IsSafe no_json no_bytes untrimmed next_version always_clean after_scan the_file
      after_scan-IsReachable (inl (ada, 10, 20, refl))

downloads_find_example :
    ((ctx : HandoffContext) (issue id : ℕ)
      → get_attachment_for_reporter ctx issue id after_scan ≢ err (server_error storage_failed))
    × ((staff : AuthenticatedStaff) (id : ℕ)
        → get_for_staff staff id after_scan ≢ err (server_error storage_failed))
downloads_find_example =
    downloads_find no_json no_bytes untrimmed next_version always_clean after_scan
      after_scan-IsReachable

create_issue-IsUndone_example :
    IsUndone failing ada no_rows after_failure
    ⊎ IsUnread no_json no_bytes failing ada a_form (a_picture ∷ []) no_rows after_failure
unfolding allowed detect_types validate_files settled save_files fulfilled written is_taken
    delete_files remove persist_issue unless_taken persist_loop persisted after_uploads validated
    create_issue is_unique_violation sniff_allowed_mime sniff passes starts_at has_prefix is_allowed
    same_text new_reporter upserted save_reporter is_named find_reporter upsert_reporter
create_issue-IsUndone_example =
    create_issue-IsUndone no_json no_bytes failing ada a_form (a_picture ∷ []) no_rows
      (server_error database_failed) after_failure failing-IsFresh tt refl

calm-IsFirstFree : IsFirstFree no_json no_bytes calm ada a_form (a_picture ∷ []) no_rows 1
unfolding is_taken
calm-IsFirstFree = record {
  low = omega arith;
  high = omega arith;
  running = λ k h. refl;
  taken = λ k above below. absurd (omega (arith, above, below));
  free = refl;
}

abbrev with_issue : Portal
with_issue = told no_json no_bytes calm ada a_form (a_picture ∷ []) no_rows (
    accepted_rows no_json no_bytes calm ada a_form (a_picture ∷ []) no_rows
      (codes "image/jpeg" ∷ []) 1)

create_issue_accepts_example :
    create_issue no_json no_bytes calm ada a_form (a_picture ∷ []) no_rows ≡ (
      if calm.read_fails
          then err (server_error database_failed)
          else ok (
              issue_view none
                (new_issue no_json no_bytes calm ada a_form
                  (reporter no_json no_bytes calm ada a_form (a_picture ∷ []) no_rows)
                  1)
                with_issue),
      with_issue,
    )
unfolding allowed detect_types validate_files settled save_files sniff_allowed_mime is_allowed
    same_text has_prefix
create_issue_accepts_example =
    create_issue_accepts no_json no_bytes calm ada a_form (a_picture ∷ []) no_rows
      (codes "image/jpeg" ∷ []) 1 refl refl refl calm-IsFirstFree tt
