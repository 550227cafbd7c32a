-- ===== src/Portal/Signatures.antt =====
-- The content type of a file by its first bytes: src/common/magic-bytes.ts, and ALLOWED_MIME_TYPES
-- of src/common/constants.ts.
use cimp.Prelude.{
  ℕ, zero, suc, Bool, true, ◌&&◌, List, [], ◌∷◌, Option, none, some, any, if◌then◌else◌,
}
use cimp.Prelude.Text.{Text, codes, same_text, has_prefix}
use cimp.Portal.Rows.{Bytes}

-- startsWith, at an offset.
unfoldable pub starts_at : ℕ → Bytes → Bytes → Bool
starts_at zero bytes buf = has_prefix bytes buf
starts_at (suc n) bytes [] = starts_at n bytes []
starts_at (suc n) bytes (b ∷ buf) = starts_at n bytes buf

-- A type with the signatures that a file of it has, each at its offset.
pub record Signature : Type 0 where
  pub mime : Text
  pub parts : List (ℕ × Bytes)

abbrev pub signatures : List Signature
signatures =
    record {
      mime = codes "image/png";
      parts = (0, 0x89 ∷ 0x50 ∷ 0x4e ∷ 0x47 ∷ 0x0d ∷ 0x0a ∷ 0x1a ∷ 0x0a ∷ []) ∷ [];
    }
    ∷ record { mime = codes "image/jpeg"; parts = (0, 0xff ∷ 0xd8 ∷ 0xff ∷ []) ∷ [] }
    ∷ record {
      mime = codes "application/pdf";
      parts = (0, 0x25 ∷ 0x50 ∷ 0x44 ∷ 0x46 ∷ 0x2d ∷ []) ∷ [];
    }
    ∷ record {
      mime = codes "image/webp";
      parts = (0, 0x52 ∷ 0x49 ∷ 0x46 ∷ 0x46 ∷ []) ∷ (8, 0x57 ∷ 0x45 ∷ 0x42 ∷ 0x50 ∷ []) ∷ [];
    }
    ∷ []

unfoldable pub passes : List (ℕ × Bytes) → Bytes → Bool
passes [] buf = true
passes ((offset, bytes) ∷ parts) buf = starts_at offset bytes buf && passes parts buf

-- The loop over the signatures.
unfoldable pub sniff : List Signature → Bytes → Option Text
sniff [] buf = none
sniff (s ∷ rest) buf =
    let later = sniff rest buf in if passes s.parts buf then some s.mime else later

unfoldable pub sniff_allowed_mime : Bytes → Option Text
unfolding sniff passes starts_at has_prefix
sniff_allowed_mime [] = none
sniff_allowed_mime (b ∷ buf) = sniff signatures (b ∷ buf)

abbrev pub allowed_mime_types : List Text
allowed_mime_types =
    codes "image/png" ∷ codes "image/jpeg" ∷ codes "image/webp" ∷ codes "application/pdf" ∷ []

unfoldable pub is_allowed : Text → Bool
is_allowed mime = any (λ m. same_text m mime) allowed_mime_types
