-- ===== src/Common.antt =====
-- Small shared functions: src/common/env-flag.ts and src/common/content-disposition.ts.
use cimp.Prelude.{
  ℕ, Bool, true, false, not, ◌&&◌, List, [], ◌∷◌, ◌++◌, ◌≡◌, ◌≢◌, ◌≤◌, refl, Option, none, some,
  ◌==◌, leb, if◌then◌else◌, any, map, arith, All, inl, inr, Bool-cases,
}
use cimp.Prelude.Text.{Text, codes, same_text}

-- A flag that is read, or the error for a spelling that is not one.
pub data EnvFlag : Type 0 where
  on : Bool → EnvFlag
  invalid_env_flag : Text → EnvFlag

pub true_values : List Text
true_values = codes "true" ∷ codes "1" ∷ codes "yes" ∷ codes "on" ∷ []

pub false_values : List Text
false_values = codes "false" ∷ codes "0" ∷ codes "no" ∷ codes "off" ∷ []

pub is_one_of : Text → List Text → Bool
is_one_of s values = any (λ v. same_text v s) values

-- `trim` and `lower` are the runtime's.
module _ (trim lower : Text → Text) where
  pub flag_value : Text → Text → Bool → EnvFlag
  flag_value raw [] fallback = on fallback
  flag_value raw (c ∷ s) fallback =
      if is_one_of (lower (c ∷ s)) true_values
      then on true
      else if is_one_of (lower (c ∷ s)) false_values
      then on false
      else invalid_env_flag raw

  -- parseEnvFlag.
  pub parse_env_flag : Option Text → Bool → EnvFlag
  parse_env_flag none fallback = on fallback
  parse_env_flag (some raw) fallback = flag_value raw (trim raw) fallback

  flag_value_blank :
      (raw s : Text) → flag_value raw s true ≡ on true → flag_value raw s false ≡ on false → s ≡ []
  unfolding flag_value
  flag_value_blank raw [] h k = refl
  flag_value_blank raw (c ∷ s) h k = elim (Bool-cases (is_one_of (lower (c ∷ s)) true_values)) [
    | inl yes_word ↦ absurd (ground (arith, k, yes_word))
    | inr no_word ↦ absurd (ground (arith, h, k, no_word))
  ]

  -- The default decides for no text but the blank ones: a flag that is read as either default is
  -- blank.
  parse_env_flag_blank :
      (raw : Text)
      → parse_env_flag (some raw) true ≡ on true
      → parse_env_flag (some raw) false ≡ on false
      → trim raw ≡ []
  unfolding parse_env_flag
  parse_env_flag_blank raw h k = flag_value_blank raw (trim raw) h k

-- The replacements of what is not printable ASCII, and of the quote and the backslash.
pub to_ascii : ℕ → ℕ
to_ascii c = if leb 0x20 c && leb c 0x7e && not (c == 0x22) && not (c == 0x5c) then c else 0x5f

-- contentDisposition, with the runtime's `encodeURIComponent`.
pub content_disposition : (Text → Text) → Text → Text
content_disposition encode filename =
    codes "attachment; filename=\""
    ++ (map to_ascii filename ++ (codes "\"; filename*=UTF-8''" ++ encode filename))

-- The name between the quotes is printable ASCII, without a quote and without a backslash.
abbrev IsQuotable : ℕ → Type 0
IsQuotable c = (0x20 ≤ c) × (c ≤ 0x7e) × (c ≢ 0x22) × (c ≢ 0x5c)

to_ascii-IsQuotable : (filename : Text) → All IsQuotable (map to_ascii filename)
unfolding to_ascii
to_ascii-IsQuotable [] = tt
to_ascii-IsQuotable (c ∷ filename) = (
  (ground arith, ground arith, λ h. ground (arith, h), λ h. ground (arith, h)),
  to_ascii-IsQuotable filename,
)
