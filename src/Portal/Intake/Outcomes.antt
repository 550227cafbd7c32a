-- ===== src/Portal/Intake/Outcomes.antt =====
-- How an intake of src/reporter/reporter.service.ts may end.
use cimp.Prelude.{
  ℕ, zero, suc, ◌+◌, ◌≤◌, Bool, true, false, if◌then◌else◌, List, ◌∷◌, ◌++◌, ◌≡◌, refl, ◌⊎◌, Option,
  leb, length, arith, inl, inr, Bool-cases, any, is_none,
}
use cimp.Prelude.Text.{Text}
use cimp.Domain.{
  Event, HttpError, Result, ok, err, require, bad_request, server_error, too_many_files,
  storage_failed, database_failed,
}
use cimp.Domain.Results.{>>-eq-ok}
use cimp.ContextSanitizer.{Value}
use cimp.Portal.Rows.{HandoffContext, Reporter, Portal, Blob}
use cimp.Portal.Reporters.{upsert_reporter}
use cimp.Portal.Reads.{IssueView}
use cimp.Portal.Intake.{
  CreateIssueDto, UploadedFile, detect_types, validate_files, max_files, max_retries, Stored,
  Surroundings, save_files, fulfilled, written, delete_files, persist_issue, is_unique_violation,
  unless_taken, persist_loop, persisted, after_uploads, validated, create_issue, read_back,
}

module _ (parse_json : Text → Option Value) (json_bytes : Value → ℕ) (w : Surroundings) where
  unless_taken_ok :
      (first later : Result Portal) (d : Portal)
      → unless_taken parse_json json_bytes w first later ≡ ok d
      → (first ≡ ok d) ⊎ (later ≡ ok d)
  unfolding unless_taken
  unless_taken_ok (ok d') later d h = inl h
  unless_taken_ok (err e) later d h =
      elim (Bool-cases (is_unique_violation parse_json json_bytes w e)) [
        | inl again ↦ inr (ground (arith, h, again))
        | inr other ↦ absurd (ground (arith, h, other))
      ]

  -- A loop that returns has returned what one of its attempts returns.
  pub persist_loop_ok :
      (persist : ℕ → Result Portal) (left n : ℕ) (d : Portal)
      → persist_loop parse_json json_bytes w persist left n ≡ ok d
      → (m : ℕ) × (n ≤ m) × (m ≤ n + left) × (persist m ≡ ok d)
  unfolding persist_loop
  persist_loop_ok persist zero n d h = (n, omega arith, omega arith, h)
  persist_loop_ok persist (suc left) n d h =
      elim (unless_taken_ok (persist n) (persist_loop parse_json json_bytes w persist left (n + 1))
        d h) [
          | inl done ↦ (n, omega arith, omega arith, done)
          | inr later ↦
              let (m, low, high, done) = persist_loop_ok persist left (n + 1) d later in
              (m, omega (arith, low), omega (arith, high), done)
        ]

module _ (parse_json : Text → Option Value) (json_bytes : Value → ℕ) (w : Surroundings)
    (ctx : HandoffContext) (dto : CreateIssueDto) (files : List UploadedFile) (d : Portal) where
  abbrev pub reporter : Reporter
  reporter = (upsert_reporter w.fresh_reporter ctx d).0

  abbrev pub known : Portal
  known = (upsert_reporter w.fresh_reporter ctx d).1

  abbrev pub stored : List Text → List (Stored × Blob)
  stored mimes =
      fulfilled parse_json json_bytes w (save_files parse_json json_bytes w 0 files mimes)

  -- After the uploads.
  abbrev pub uploaded : List Text → Portal
  uploaded mimes = record known {
    blobs = written parse_json json_bytes w (stored mimes) ++ known.blobs;
  }

  -- The deletions after a failure.
  abbrev pub undone : List Text → Portal
  undone mimes = record known {
    blobs = delete_files parse_json json_bytes w (stored mimes) (uploaded mimes).blobs;
  }

  abbrev pub told : Portal → Portal
  told d' = record d' { events = Event.created w.fresh_issue ctx.platform ∷ d'.events }

  -- The files were refused or the reporter was not saved, an upload or the transaction failed, or an
  -- attempt succeeded.
  pub data Outcome : Result IssueView × Portal → Type 0 where
    refused : (e : HttpError) → Outcome (err e, d)
    failed :
        (e : HttpError) (mimes : List Text)
        → detect_types files ≡ ok mimes
        → Outcome (err e, undone mimes)
    accepted :
        (mimes : List Text) (m : ℕ) (d' : Portal)
        → detect_types files ≡ ok mimes
        → 1 ≤ m
        → m ≤ 5
        → any is_none (save_files parse_json json_bytes w 0 files mimes) ≡ false
        → persist_issue parse_json json_bytes w ctx dto reporter (stored mimes) (uploaded mimes) m
          ≡ ok d'
        → Outcome (read_back parse_json json_bytes w ctx (told d'), told d')

  persisted-Outcome :
      (mimes : List Text)
      → detect_types files ≡ ok mimes
      → any is_none (save_files parse_json json_bytes w 0 files mimes) ≡ false
      → (x : Result Portal)
      → persist_loop parse_json json_bytes w
          (persist_issue parse_json json_bytes w ctx dto reporter (stored mimes) (uploaded mimes))
          max_retries
          1
        ≡ x
      → Outcome (persisted parse_json json_bytes w ctx (undone mimes) x)
  unfolding persisted
  persisted-Outcome mimes fine all_there (err e) h = failed e mimes fine
  persisted-Outcome mimes fine all_there (ok d') h =
      let (m, low, high, done) =
        persist_loop_ok parse_json json_bytes w
          (persist_issue parse_json json_bytes w ctx dto reporter (stored mimes) (uploaded mimes))
          max_retries 1 d' h in
      accepted mimes m d' fine low high all_there done

  uploads-Outcome :
      (mimes : List Text)
      → detect_types files ≡ ok mimes
      → Outcome (
          after_uploads parse_json json_bytes w ctx dto reporter
            (save_files parse_json json_bytes w 0 files mimes)
            (uploaded mimes))
  unfolding after_uploads
  uploads-Outcome mimes fine =
      elim (Bool-cases (any is_none (save_files parse_json json_bytes w 0 files mimes))) [
        | inl lost ↦ rw lost (failed (server_error storage_failed) mimes fine)
        | inr all_there ↦ rw all_there (persisted-Outcome mimes fine all_there _ refl)
      ]

  upserted-Outcome :
      (mimes : List Text) (lost : Bool)
      → detect_types files ≡ ok mimes
      → Outcome (
          if lost
          then (err (server_error database_failed), d)
          else after_uploads parse_json json_bytes w ctx dto reporter
              (save_files parse_json json_bytes w 0 files mimes)
              (uploaded mimes))
  upserted-Outcome mimes true fine = refused (server_error database_failed)
  upserted-Outcome mimes false fine = uploads-Outcome mimes fine

  validated-Outcome :
      (x : Result (List Text))
      → validate_files files ≡ x
      → Outcome (validated parse_json json_bytes w ctx dto files d x)
  unfolding validated
  validated-Outcome (err e) h = refused e
  validated-Outcome (ok mimes) h = upserted-Outcome mimes w.upsert_fails (
      unfold validate_files in
      >>-eq-ok (require (leb (length files) max_files) (bad_request too_many_files))
        (detect_types files) h)

  pub create_issue-Outcome : Outcome (create_issue parse_json json_bytes w ctx dto files d)
  unfolding create_issue
  create_issue-Outcome = validated-Outcome (validate_files files) refl
