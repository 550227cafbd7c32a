-- ===== src/Scanning/Drain.antt =====
-- The sweep of src/scanning/scan-retry.service.ts gets through a backlog.
use mathlib.Core.Path.{subst}
use cimp.Prelude.{
  ℕ, suc, ◌+◌, ◌*◌, ◌-◌, ◌≤◌, true, false, ◌&&◌, List, [], ◌∷◌, ◌≡◌, refl, sym, ap, ◌∙◌, Option,
  some, ◌==◌, ltb, arith, All, All-mono, All-both, All-select, All-select_self, All-sort_by,
  All-take, select, sort_by, take, length, count,
}
use cimp.Prelude.Table.{find, put, IsKeyed, find-put_ne}
use cimp.Prelude.Table.Keys.{All-put, IsKeyed-put, IsKeyed-find}
use cimp.Prelude.Text.{Text}
use cimp.Domain.{ScanStatus}
use cimp.Portal.Rows.{Bytes, Attachment, Portal, attachment_id}
use cimp.Scanning.{
  is_pending, stuck, younger, batch_size, pending_grace, verdict, scan_and_persist, sweep_loop,
  told_scanned, sweep,
}
use cimp.Scanning.Vetted.{IsVetted, AreVetted, verdict_stored, sweep-AreVetted}
use cimp.Scanning.Batch.{
  AreApart, IsKeyed-AreApart, AreApart-select, AreApart-sort_by, AreApart-take, count-put,
  length-sort_by, length-select, length-take_rest, select-eq_of_All,
}

-- How many attachments wait for a verdict.
abbrev pub waiting : Portal → ℕ
waiting d = count (λ a. is_pending a.scan_status) d.attachments

-- At a time, every attachment is older than the grace.
abbrev pub AreOld : Portal → ℕ → Type 0
AreOld d now = All (λ a. ltb (a.created_at + pending_grace) now ≡ true) d.attachments

module _ (scan : Bytes → Text → Option ScanStatus) where
  -- The sweeps at some times, one after the other.
  abbrev pub sweeps_at : List ℕ → Portal → Portal
  sweeps_at [] d = d
  sweeps_at (now ∷ times) d = sweeps_at times (sweep scan true now d).1

  -- The scanner answers, on every file of any name, with a verdict.
  abbrev pub AlwaysAnswers : Type 0
  AlwaysAnswers =
      (bytes : Bytes) (name : Text)
      → (s : ScanStatus) × (scan bytes name ≡ some s) × (is_pending s ≡ false)

  module _ (answers : AlwaysAnswers) where
    verdict_settled :
        (d : Portal) (a : Attachment)
        → IsVetted scan d.blobs a
        → is_pending (verdict scan a d) ≡ false
    verdict_settled d a v =
        let (s, said, settled) = answers v.object.bytes a.filename in
        rw (verdict_stored scan d a v.object v.there, said) settled

    -- The rows of a batch that are still to come.
    record IsDue (rows : List Attachment) (a : Attachment) : Type 0 where
      here : find attachment_id a.id rows ≡ some a
      waits : is_pending a.scan_status ≡ true

    sweep_loop_settles :
        (batch : List Attachment) (issues : List ℕ) (n : ℕ) (d : Portal)
        → All (IsVetted scan d.blobs) batch
        → All (IsDue d.attachments) batch
        → AreApart attachment_id batch
        → waiting (sweep_loop scan batch issues n d).2 + length batch ≡ waiting d
    unfolding sweep_loop scan_and_persist
    sweep_loop_settles [] issues n d vetted due apart = omega arith
    sweep_loop_settles (a ∷ batch) issues n d (v, vs) (due, dues) (apart, aparts) =
        let a' : Attachment = record a { scan_status = verdict scan a d } in
        one_more _ (length batch) _ (waiting d)
          (sweep_loop_settles batch _ _ (scan_and_persist scan a d) vs
            (All-both (λ b. (b.id == a.id) ≡ false) (IsDue d.attachments)
              (IsDue (put attachment_id a' d.attachments))
              (λ b other h. record {
                here =
                    find-put_ne attachment_id b.id a' d.attachments (ground (arith, other))
                    ∙ h.here;
                waits = h.waits;
              })
              batch apart dues)
            aparts)
          (count-put attachment_id (λ b. is_pending b.scan_status) a' a d.attachments due.here
            due.waits (verdict_settled d a v))
      where
        one_more : (x l y n : ℕ) → x + l ≡ y → n ≡ suc y → x + suc l ≡ n
        one_more x l y n h k = omega arith

    told_scanned-attachments :
        (issues : List ℕ) (d : Portal) → (told_scanned scan issues d).attachments ≡ d.attachments
    unfolding told_scanned
    told_scanned-attachments [] d = refl
    told_scanned-attachments (i ∷ issues) d = told_scanned-attachments issues _

    -- The batch when every attachment is old.
    stuck_old :
        (now : ℕ) (d : Portal)
        → AreOld d now
        → stuck scan now d.attachments
          ≡ take batch_size
              (sort_by (younger scan) (select (λ a. is_pending a.scan_status) d.attachments))
    unfolding stuck
    stuck_old now d old =
        ap (λ rows. take batch_size (sort_by (younger scan) rows))
          (select-eq_of_All
            (λ a. is_pending a.scan_status && ltb (a.created_at + pending_grace) now)
            (λ a. is_pending a.scan_status) d.attachments
            (All-mono (λ a. ltb (a.created_at + pending_grace) now ≡ true)
              (λ a.
                (is_pending a.scan_status && ltb (a.created_at + pending_grace) now)
                ≡ is_pending a.scan_status)
              (λ a h. ground (arith, h)) d.attachments old))

    -- One sweep settles as many attachments as fit in its batch.
    sweep_settles :
        (now : ℕ) (d : Portal)
        → AreVetted scan d
        → IsKeyed attachment_id d.attachments
        → AreOld d now
        → waiting (sweep scan true now d).1 ≡ waiting d - batch_size
    unfolding sweep
    sweep_settles now d vetted keyed old =
        let found = select (λ a. is_pending a.scan_status) d.attachments in
        let sorted = sort_by (younger scan) found in
        let batch = take batch_size sorted in
        let due : All (IsDue d.attachments) found =
          All-select_self (λ a. is_pending a.scan_status)
            (λ a. find attachment_id a.id d.attachments ≡ some a) (IsDue d.attachments)
            (λ a waits here. record { here = here; waits = waits }) d.attachments
            (IsKeyed-find attachment_id d.attachments keyed) in
        let settled =
          sweep_loop_settles batch [] 0 d
            (All-take (IsVetted scan d.blobs) batch_size sorted (
              All-sort_by (IsVetted scan d.blobs) (younger scan) found (
                All-select (IsVetted scan d.blobs) (λ a. is_pending a.scan_status) d.attachments
                  vetted)))
            (All-take (IsDue d.attachments) batch_size sorted
              (All-sort_by (IsDue d.attachments) (younger scan) found due))
            (AreApart-take attachment_id batch_size sorted (
              AreApart-sort_by attachment_id (younger scan) found (
                AreApart-select attachment_id (λ a. is_pending a.scan_status) d.attachments
                  (IsKeyed-AreApart attachment_id d.attachments keyed)))) in
        let all_of : length sorted ≡ waiting d =
          length-sort_by (younger scan) found
          ∙ length-select (λ a. is_pending a.scan_status) d.attachments in
        let untouched = length-take_rest batch_size sorted in
        let fewer : waiting (sweep_loop scan batch [] 0 d).2 ≡ waiting d - batch_size =
          omega (arith, settled, all_of, untouched) in
        ap (count (λ a. is_pending a.scan_status)) (told_scanned-attachments _ _)
        ∙ (ap (λ rows. waiting (sweep_loop scan rows [] 0 d).2) (stuck_old now d old) ∙ fewer)

    -- What the loop and the sweep keep of every attachment.
    sweep_loop-All :
        (P : Attachment → Type 0)
        → ((s : ScanStatus) (a : Attachment) → P a → P (record a { scan_status = s }))
        → (batch : List Attachment) (issues : List ℕ) (n : ℕ) (d : Portal) → All P batch
        → All P d.attachments
        → All P (sweep_loop scan batch issues n d).2.attachments
    unfolding sweep_loop scan_and_persist
    sweep_loop-All P again [] issues n d h hs = hs
    sweep_loop-All P again (a ∷ batch) issues n d (h, rest) hs =
        sweep_loop-All P again batch _ _ (scan_and_persist scan a d) rest (
          All-put attachment_id P (record a { scan_status = verdict scan a d }) d.attachments
            (again (verdict scan a d) a h) hs)

    sweep-All :
        (P : Attachment → Type 0)
        → ((s : ScanStatus) (a : Attachment) → P a → P (record a { scan_status = s }))
        → (now : ℕ) (d : Portal) → All P d.attachments
        → All P (sweep scan true now d).1.attachments
    unfolding sweep stuck
    sweep-All P again now d h = subst (All P) (sym (told_scanned-attachments _ _)) (
        sweep_loop-All P again (stuck scan now d.attachments) [] 0 d
          (All-take P batch_size _
            (All-sort_by P (younger scan) _ (All-select P _ d.attachments h)))
          h)

    sweep_loop-IsKeyed :
        (batch : List Attachment) (issues : List ℕ) (n : ℕ) (d : Portal)
        → IsKeyed attachment_id d.attachments
        → IsKeyed attachment_id (sweep_loop scan batch issues n d).2.attachments
    unfolding sweep_loop scan_and_persist
    sweep_loop-IsKeyed [] issues n d h = h
    sweep_loop-IsKeyed (a ∷ batch) issues n d h =
        sweep_loop-IsKeyed batch _ _ (scan_and_persist scan a d)
          (IsKeyed-put attachment_id (record a { scan_status = verdict scan a d }) d.attachments h)

    sweep-IsKeyed :
        (now : ℕ) (d : Portal)
        → IsKeyed attachment_id d.attachments
        → IsKeyed attachment_id (sweep scan true now d).1.attachments
    unfolding sweep
    sweep-IsKeyed now d h =
        subst (IsKeyed attachment_id) (sym (told_scanned-attachments _ _))
          (sweep_loop-IsKeyed (stuck scan now d.attachments) [] 0 d h)

    -- If the scanner always answers, then as many sweeps as there are batches of 25 in the backlog
    -- leave no attachment pending. No file is uploaded in between, every attachment is older than
    -- the grace at each of the sweeps, the attachments are vetted, and their ids are distinct.
    pub sweeps_drain :
        (times : List ℕ) (d : Portal)
        → AreVetted scan d
        → IsKeyed attachment_id d.attachments
        → All (AreOld d) times
        → waiting d ≤ batch_size * length times
        → waiting (sweeps_at times d) ≡ 0
    sweeps_drain [] d vetted keyed old enough = omega (arith, enough)
    sweeps_drain (now ∷ times) d vetted keyed (old, olds) enough =
        let fewer = sweep_settles now d vetted keyed old in
        sweeps_drain times (sweep scan true now d).1 (sweep-AreVetted scan true now d vetted)
          (sweep-IsKeyed now d keyed)
          (All-mono (AreOld d) (AreOld (sweep scan true now d).1)
            (λ t. sweep-All (λ a. ltb (a.created_at + pending_grace) t ≡ true) (λ s a h. h) now d)
            times olds)
          (omega (arith, fewer, enough))
