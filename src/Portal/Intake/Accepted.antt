-- ===== src/Portal/Intake/Accepted.antt =====
-- The intake of src/reporter/reporter.service.ts that succeeds.
use cimp.Prelude.{
  ℕ, zero, suc, ◌+◌, ◌≤◌, ◌<◌, true, false, List, ◌≡◌, refl, sym, ap, ◌∙◌, Option, ◌==◌, arith, inl,
  inr, Bool-cases, if◌then◌else◌, if_false, any, is_none,
}
use cimp.Prelude.Table.{IsKeyed}
use cimp.Prelude.Text.{Text}
use cimp.Domain.{Result, ok, err, server_error, database_failed, unique_violation}
use cimp.ContextSanitizer.{Value}
use cimp.Portal.Rows.{HandoffContext, Portal, reporter_id}
use cimp.Portal.Reporters.{upsert_reporter}
use cimp.Portal.Reads.{issue_view}
use cimp.Portal.Intake.{
  CreateIssueDto, UploadedFile, validate_files, Surroundings, save_files, is_taken, new_issue,
  max_retries, persist_issue, unless_taken, persist_loop, is_unique_violation, persisted,
  after_uploads, validated, create_issue, read_back,
}
use cimp.Portal.Intake.Outcomes.{reporter, stored, uploaded, told}
use cimp.Portal.Intake.Undone.{accepted_rows, accepted_read}

module _ (parse_json : Text → Option Value) (json_bytes : Value → ℕ) (w : Surroundings) where
  -- The loop returns what its first attempt without a collision returns.
  persist_loop_first :
      (persist : ℕ → Result Portal) (left n m : ℕ) (d : Portal)
      → n ≤ m
      → m ≤ n + left
      → ((k : ℕ) → n ≤ k → k < m → persist k ≡ err (server_error unique_violation))
      → persist m ≡ ok d
      → persist_loop parse_json json_bytes w persist left n ≡ ok d
  unfolding persist_loop unless_taken is_unique_violation
  persist_loop_first persist zero n m d low high taken done =
      let same : m ≡ n = omega arith in ap persist (sym same) ∙ done
  persist_loop_first persist (suc left) n m d low high taken done = elim (Bool-cases (n == m)) [
    | inl here ↦ let same : n ≡ m = ground (arith, here) in rw (ap persist same ∙ done) refl
    | inr other ↦
        let past : n < m = ground (arith, other, low) in
        rw (taken n (omega arith) past) (
          persist_loop_first persist left (n + 1) m d (omega (arith, past)) (omega (arith, high))
            (λ k above below. taken k (omega (arith, above)) below) done)
  ]

  module _ (ctx : HandoffContext) (dto : CreateIssueDto) (files : List UploadedFile)
      (d : Portal) where
    -- The attempt whose reference is the first that no issue has, before the database fails.
    pub record IsFirstFree (m : ℕ) : Type 0 where
      pub low : 1 ≤ m
      pub high : m ≤ 5
      pub running : (k : ℕ) → k ≤ m → w.database_fails k ≡ false
      pub taken :
          (k : ℕ) → 1 ≤ k → k < m → is_taken parse_json json_bytes w (w.reference k) d.issues ≡ true
      pub free : is_taken parse_json json_bytes w (w.reference m) d.issues ≡ false

    persist_taken :
        (mimes : List Text) (k : ℕ)
        → w.database_fails k ≡ false
        → is_taken parse_json json_bytes w (w.reference k) d.issues ≡ true
        → persist_issue parse_json json_bytes w ctx dto
            (reporter parse_json json_bytes w ctx dto files d)
            (stored parse_json json_bytes w ctx dto files d mimes)
            (uploaded parse_json json_bytes w ctx dto files d mimes)
            k
          ≡ err (server_error unique_violation)
    unfolding persist_issue upsert_reporter
    persist_taken mimes k runs h = rw (runs, h) refl

    persist_free :
        (mimes : List Text) (m : ℕ)
        → w.database_fails m ≡ false
        → is_taken parse_json json_bytes w (w.reference m) d.issues ≡ false
        → persist_issue parse_json json_bytes w ctx dto
            (reporter parse_json json_bytes w ctx dto files d)
            (stored parse_json json_bytes w ctx dto files d mimes)
            (uploaded parse_json json_bytes w ctx dto files d mimes)
            m
          ≡ ok (accepted_rows parse_json json_bytes w ctx dto files d mimes m)
    unfolding persist_issue upsert_reporter
    persist_free mimes m runs h = rw (runs, h) refl

    -- An intake of files that are accepted and stored writes its rows if one of the first five
    -- references is free and the database does not fail up to there, which includes the upsert of the
    -- reporter. The first free reference becomes the issue's, and the rows are written as that attempt
    -- writes them. The answer is the issue as the reporter reads it, or the failure of the database
    -- at that last read. The reporters have distinct ids.
    pub create_issue_accepts :
        (mimes : List Text) (m : ℕ)
        → validate_files files ≡ ok mimes
        → w.upsert_fails ≡ false
        → any is_none (save_files parse_json json_bytes w 0 files mimes) ≡ false
        → IsFirstFree m
        → IsKeyed reporter_id d.reporters
        → create_issue parse_json json_bytes w ctx dto files d ≡ (
          if w.read_fails
              then err (server_error database_failed)
              else ok (
                  issue_view ctx.locale
                    (new_issue parse_json json_bytes w ctx dto
                      (reporter parse_json json_bytes w ctx dto files d)
                      m)
                    (told parse_json json_bytes w ctx dto files d
                      (accepted_rows parse_json json_bytes w ctx dto files d mimes m))),
          told parse_json json_bytes w ctx dto files d
              (accepted_rows parse_json json_bytes w ctx dto files d mimes m),
        )
    unfolding create_issue validated after_uploads persisted read_back
    create_issue_accepts mimes m fine known all_there first keyed =
        let done =
          persist_loop_first
            (persist_issue parse_json json_bytes w ctx dto
              (reporter parse_json json_bytes w ctx dto files d)
              (stored parse_json json_bytes w ctx dto files d mimes)
              (uploaded parse_json json_bytes w ctx dto files d mimes))
            max_retries 1 m (accepted_rows parse_json json_bytes w ctx dto files d mimes m)
            first.low (omega (arith, first.high))
            (λ k above below.
              persist_taken mimes k (first.running k (omega (arith, below)))
                (first.taken k above below))
            (persist_free mimes m (first.running m (omega arith)) first.free) in
        rw fine (
          if_false w.upsert_fails _ _ known
          ∙ rw (all_there, done)
              (ap
                (λ x. (
                  if w.read_fails then err (server_error database_failed) else x,
                  told parse_json json_bytes w ctx dto files d
                      (accepted_rows parse_json json_bytes w ctx dto files d mimes m),
                ))
                (accepted_read parse_json json_bytes w ctx dto files d mimes m keyed)))
