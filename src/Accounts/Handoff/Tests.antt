-- ===== src/Accounts/Handoff/Tests.antt =====
-- A platform whose secret is replaced.
use cimp.Prelude.{
  true, false, [], ◌∷◌, ◌≡◌, ◌≢◌, refl, Option, none, some, arith, ◌⊎◌, inl, inr, Bool-cases,
  if◌then◌else◌,
}
use cimp.Prelude.Table.{find, put}
use cimp.Prelude.Text.{Text, codes, same_text}
use cimp.Domain.{ok}
use cimp.Accounts.Rows.{Platform, Directory, PlatformStatus, platform_secret_rotated}
use cimp.Accounts.Admin.{platform_with_key, log_audit}
use cimp.Accounts.Admin.Service.{rotate_secret}
use cimp.Portal.Rows.{HandoffContext}
use cimp.Portal.Reads.{is_truthy}
use cimp.Accounts.Handoff.{HandoffClaims, is_open, claimed_key, base_locale, verify_against, verify}
use cimp.Accounts.Handoff.Rotated.{rotate_secret-verify}

abbrev claims : HandoffClaims
claims = record {
  platform_key = some (codes "p");
  portal_user = some (codes "ada");
  name = some (codes "Ada");
  email = some (codes "ada@x");
  locale = none;
  expires = some 900;
}

-- A token is the secret that it is signed with.
abbrev read : Text → Option HandoffClaims
read token = some claims

abbrev check : Text → Text → Option HandoffClaims
check token secret = if same_text token secret then some claims else none

abbrev BearsSecret : Text → Text → Type 0
BearsSecret token secret = same_text token secret ≡ true

check_sound :
    (token secret : Text) (c : HandoffClaims)
    → check token secret ≡ some c
    → BearsSecret token secret
check_sound token secret c h = elim (Bool-cases (same_text token secret)) [
  | inl signed ↦ signed
  | inr other ↦ absurd (ground (arith, h, other))
]

abbrev plain : Text → Text
plain s = s

abbrev portal : Platform
portal = record {
  id = 7;
  key = codes "p";
  name = codes "Portal";
  status = PlatformStatus.active;
  jira_project_key = none;
  jira_enabled = false;
  sla_policy = none;
  handoff_secret = codes "old";
}

abbrev one_portal : Directory
one_portal = record { platforms = portal ∷ []; staff = []; grants = []; issues = []; audit = [] }

abbrev rotated : Directory
rotated = record one_portal {
  platforms = record portal { handoff_secret = codes "new" } ∷ [];
  audit = record { actor = 1; action = platform_secret_rotated 7 } ∷ [];
}

abbrev ada : HandoffContext
ada = record {
  platform = 7;
  portal_user = codes "ada";
  name = codes "Ada";
  email = codes "ada@x";
  locale = none;
}

rotate_secret-verify_example :
    ((ada.platform ≡ 7) × BearsSecret (codes "new") (codes "new"))
    ⊎ ((ada.platform ≢ 7) × (verify plain plain read check (codes "new") one_portal ≡ ok ada))
unfolding rotate_secret log_audit find put platform_with_key same_text verify verify_against
    base_locale is_open claimed_key is_truthy
rotate_secret-verify_example =
    rotate_secret-verify plain plain read check BearsSecret check_sound plain plain (codes "new") 1
      0 7 one_portal rotated (codes "new") ada (refl, tt) refl refl
