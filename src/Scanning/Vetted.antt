-- ===== src/Scanning/Vetted.antt =====
-- What src/scanning and the downloads of src/reporter/reporter.service.ts and
-- src/issues/attachments.service.ts promise of a file that is served.
use mathlib.Core.Path.{subst}
use cimp.Prelude.{
  ℕ, ◌≤◌, Bool, true, false, List, [], ◌∷◌, ◌&&◌, ◌≡◌, refl, sym, Option, none, some, ◌==◌, arith,
  All, All-select, All-sort_by, All-take, select, or_else,
}
use cimp.Prelude.Table.{find}
use cimp.Prelude.Table.Keys.{All-put}
use cimp.Prelude.Text.{Text}
use cimp.Domain.{ScanStatus, pending, is_servable, Result, ok, err, ◌>>=◌, ◌>>◌}
use cimp.Portal.Rows.{Bytes, Attachment, Blob, Portal, blob_key, attachment_id}
use cimp.Portal.Signatures.{sniff_allowed_mime, is_allowed}
use cimp.Portal.Intake.{max_file_bytes}
use cimp.Scanning.{
  is_pending, stuck, younger, batch_size, verdict, scan_and_persist, scan_all, told_scanned,
  on_issue_created, sweep, sweep_loop,
}
use cimp.Scanning.World.{kept}

-- A step that throws keeps what holds, and so does one whose rest keeps it.
pub kept->>= :
    {X : Type 0} (P : Portal → Type 0) (first : Result X) (rest : X → Result Portal) (d : Portal)
    → P d
    → ((x : X) → P (kept (rest x) d))
    → P (kept (first >>= rest) d)
unfolding kept
kept->>= P (err e) rest d h k = h
kept->>= P (ok x) rest d h k = k x

pub kept->> :
    (P : Portal → Type 0) (first : Result (Unit {0})) (rest : Result Portal) (d : Portal)
    → P d
    → P (kept rest d)
    → P (kept (first >> rest) d)
unfolding kept
kept->> P (err e) rest d h k = h
kept->> P (ok x) rest d h k = k

pub kept-ok : (P : Portal → Type 0) (d d' : Portal) → P d' → P (kept (ok d') d)
unfolding kept
kept-ok P d d' h = h

module _ (scan : Bytes → Text → Option ScanStatus) where
  -- A row of an attachment, beside the objects of the storage: its object is there, with an allowed
  -- type by its first bytes, the size limit was kept, and a status under which it is served is the
  -- scanner's verdict on that object.
  pub record IsVetted (blobs : List Blob) (a : Attachment) : Type 0 where
    pub object : Blob
    pub there : find blob_key a.storage_key blobs ≡ some object
    pub signed : sniff_allowed_mime object.bytes ≡ some a.content_type
    pub typed : is_allowed a.content_type ≡ true
    pub small : a.size_bytes ≤ max_file_bytes
    pub passed :
        is_servable a.scan_status ≡ true → scan object.bytes a.filename ≡ some a.scan_status

  abbrev pub AreVetted : Portal → Type 0
  AreVetted d = All (IsVetted d.blobs) d.attachments

  or_else-pending :
      (o : Option ScanStatus)
      → is_servable (or_else o pending) ≡ true
      → o ≡ some (or_else o pending)
  or_else-pending none h = absurd (cc h)
  or_else-pending (some s) h = refl

  pub verdict_stored :
      (d : Portal) (a : Attachment) (b : Blob)
      → find blob_key a.storage_key d.blobs ≡ some b
      → verdict scan a d ≡ or_else (scan b.bytes a.filename) pending
  unfolding verdict
  verdict_stored d a b there = ground (arith, there)

  pub rescanned :
      (d : Portal) (a : Attachment)
      → IsVetted d.blobs a
      → IsVetted d.blobs (record a { scan_status = verdict scan a d })
  rescanned d a v = record {
    object = v.object;
    there = v.there;
    signed = v.signed;
    typed = v.typed;
    small = v.small;
    passed =
        subst (λ s. is_servable s ≡ true → scan v.object.bytes a.filename ≡ some s)
          (sym (verdict_stored d a v.object v.there))
          (or_else-pending (scan v.object.bytes a.filename));
  }

  scan_all-AreVetted :
      (rows : List Attachment) (d : Portal)
      → All (IsVetted d.blobs) rows
      → AreVetted d
      → AreVetted (scan_all scan rows d)
  unfolding scan_all scan_and_persist
  scan_all-AreVetted [] d hs all = all
  scan_all-AreVetted (a ∷ rows) d (h, hs) all =
      scan_all-AreVetted rows (scan_and_persist scan a d) hs (
        All-put attachment_id (IsVetted d.blobs) (record a { scan_status = verdict scan a d })
          d.attachments (rescanned d a h) all)

  pub told_scanned-AreVetted :
      (is : List ℕ) (d : Portal) → AreVetted d → AreVetted (told_scanned scan is d)
  unfolding told_scanned
  told_scanned-AreVetted [] d h = h
  told_scanned-AreVetted (i ∷ is) d h = told_scanned-AreVetted is _ h

  pub on_issue_created-AreVetted :
      (issue : ℕ) (d : Portal) → AreVetted d → AreVetted (on_issue_created scan issue d)
  unfolding on_issue_created
  on_issue_created-AreVetted issue d h =
      batch (select (λ a. a.issue == issue && is_pending a.scan_status) d.attachments) (
        All-select (IsVetted d.blobs) (λ a. a.issue == issue && is_pending a.scan_status)
          d.attachments h)
    where
      batch :
          (rows : List Attachment)
          → All (IsVetted d.blobs) rows
          → AreVetted (elim rows [
            | [] ↦ d
            | a ∷ rest ↦ told_scanned scan (issue ∷ []) (scan_all scan (a ∷ rest) d)
          ])
      batch [] hs = h
      batch (a ∷ rest) hs =
          told_scanned-AreVetted (issue ∷ []) _ (scan_all-AreVetted (a ∷ rest) d hs h)

  pub sweep_loop-AreVetted :
      (rows : List Attachment) (is : List ℕ) (n : ℕ) (d : Portal)
      → All (IsVetted d.blobs) rows
      → AreVetted d
      → AreVetted (sweep_loop scan rows is n d).2
  unfolding sweep_loop scan_and_persist
  sweep_loop-AreVetted [] is n d hs all = all
  sweep_loop-AreVetted (a ∷ rows) is n d (h, hs) all =
      sweep_loop-AreVetted rows _ _ (scan_and_persist scan a d) hs (
        All-put attachment_id (IsVetted d.blobs) (record a { scan_status = verdict scan a d })
          d.attachments (rescanned d a h) all)

  pub sweep-AreVetted :
      (enabled : Bool) (now : ℕ) (d : Portal) → AreVetted d → AreVetted (sweep scan enabled now d).1
  unfolding sweep stuck
  sweep-AreVetted false now d h = h
  sweep-AreVetted true now d h = told_scanned-AreVetted _ _ (
      sweep_loop-AreVetted (stuck scan now d.attachments) [] 0 d
        (All-take (IsVetted d.blobs) batch_size _ (
          All-sort_by (IsVetted d.blobs) (younger scan) _
            (All-select (IsVetted d.blobs) _ d.attachments h)))
        h)
