-- ===== src/Scanning/Tests.antt =====
-- Sweeps over one attachment that waits.
use cimp.Prelude.{[], ◌∷◌, ◌≡◌, refl, Option, some, arith}
use cimp.Prelude.Table.{find}
use cimp.Prelude.Text.{Text, codes, same_text, has_prefix}
use cimp.Domain.{ScanStatus, pending, clean}
use cimp.Portal.Rows.{Bytes, Attachment, Portal}
use cimp.Portal.Signatures.{sniff_allowed_mime, sniff, passes, starts_at, is_allowed}
use cimp.Scanning.{is_pending}
use cimp.Scanning.World.{no_rows}
use cimp.Scanning.Vetted.{AreVetted}
use cimp.Scanning.Drain.{AlwaysAnswers, waiting, sweeps_at, sweeps_drain}

abbrev always_clean : Bytes → Text → Option ScanStatus
always_clean bytes name = some clean

abbrev picture : Attachment
picture = record {
  id = 20;
  issue = 10;
  storage_key = 100;
  filename = codes "a.jpg";
  content_type = codes "image/jpeg";
  size_bytes = 4;
  scan_status = pending;
  created_at = 50;
}

abbrev backlog : Portal
backlog = record no_rows {
  attachments = picture ∷ [];
  blobs = record { key = 100; bytes = 0xff ∷ 0xd8 ∷ 0xff ∷ 1 ∷ [] } ∷ [];
}

backlog-AreVetted : AreVetted always_clean backlog
unfolding find sniff_allowed_mime sniff passes starts_at has_prefix is_allowed same_text
backlog-AreVetted = (
  record {
    object = record { key = 100; bytes = 0xff ∷ 0xd8 ∷ 0xff ∷ 1 ∷ [] };
    there = refl;
    signed = refl;
    typed = refl;
    small = omega arith;
    passed = λ served. absurd (cc served);
  },
  tt,
)

always_clean-AlwaysAnswers : AlwaysAnswers always_clean
unfolding is_pending
always_clean-AlwaysAnswers bytes name = (clean, refl, refl)

sweeps_drain_example : waiting (sweeps_at always_clean (1000000 ∷ []) backlog) ≡ 0
unfolding find is_pending
sweeps_drain_example =
    sweeps_drain always_clean always_clean-AlwaysAnswers (1000000 ∷ []) backlog backlog-AreVetted
      (refl, tt) ((refl, tt), tt) (omega arith)
