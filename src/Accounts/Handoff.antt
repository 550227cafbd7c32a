-- ===== src/Accounts/Handoff.antt =====
-- The hand-off from a portal: src/handoff/handoff.guard.ts and handoff.service.ts, with baseLocale of
-- src/translation/translation.service.ts.
pub mod Rotated
mod Tests
use cimp.Prelude.{
  zero, suc, ℕ, Bool, true, false, ◌&&◌, ◌||◌, List, [], ◌∷◌, Option, none, some, ◌==◌, leb,
  if◌then◌else◌, is_some, or_else, all, length,
}
use cimp.Prelude.Text.{Text, codes, has_prefix}
use cimp.Domain.{
  Result, ok, err, ◌>>=◌, ◌>>◌, require, found, unauthorized, missing_handoff, missing_platform_key,
  inactive_platform, invalid_handoff, missing_expiry, missing_claims,
}
use cimp.Accounts.Rows.{PlatformStatus, Platform, Directory}
use cimp.Accounts.Admin.{platform_with_key}
use cimp.Portal.Rows.{HandoffContext}
use cimp.Portal.Reads.{is_truthy}

pub record HandoffClaims : Type 0 where
  pub platform_key : Option Text
  pub portal_user : Option Text
  pub name : Option Text
  pub email : Option Text
  pub locale : Option Text
  pub expires : Option ℕ

pub record Headers : Type 0 where
  pub handoff_token : Option Text
  pub authorization : Option Text

pub drop : ℕ → Text → Text
drop zero s = s
drop (suc n) [] = []
drop (suc n) (c ∷ s) = drop n s

pub bearer : Option Text → Text
bearer none = []
bearer (some auth) = if has_prefix (codes "Bearer ") auth then drop 7 auth else []

-- extractToken.
pub extract_token : Headers → Text
extract_token h =
    if is_truthy h.handoff_token then or_else h.handoff_token [] else bearer h.authorization

-- `replace('_', '-')`, of the first one.
pub replace_underscore : Text → Text
replace_underscore [] = []
replace_underscore (c ∷ s) = let rest = c ∷ replace_underscore s in if c == 95 then 45 ∷ s else rest

-- `split('-')[0]`.
pub before_dash : Text → Text
before_dash [] = []
before_dash (c ∷ s) = let rest = c ∷ before_dash s in if c == 45 then [] else rest

-- `/^[a-z]{2,3}$/`.
pub is_language : Text → Bool
is_language s = leb 2 (length s) && leb (length s) 3 && all (λ c. leb 97 c && leb c 122) s

pub is_open : PlatformStatus → Bool
is_open PlatformStatus.active = true
is_open PlatformStatus.disabled = false

-- The key in a token that is not verified yet.
pub claimed_key : Option HandoffClaims → Option Text
claimed_key none = none
claimed_key (some c) = if is_truthy c.platform_key then c.platform_key else none

-- `trim` and `lower` are the runtime's; `decode` is that of jsonwebtoken, and `jwt_verify` its
-- verification of a token under a secret, by HS256 and with the age of 15 minutes at most.
module _ (trim lower : Text → Text) (decode : Text → Option HandoffClaims)
    (jwt_verify : Text → Text → Option HandoffClaims) where
  pub base_locale : Option Text → Option Text
  base_locale none = none
  base_locale (some []) = none
  base_locale (some (c ∷ s)) =
      let base = before_dash (replace_underscore (lower (trim (c ∷ s)))) in
      if is_language base then some base else none

  -- The checks against a platform.
  pub verify_against : Platform → Text → Result HandoffContext
  verify_against p token = do
    require (is_open p.status) (unauthorized inactive_platform)
    claims ← found (jwt_verify token p.handoff_secret) (unauthorized invalid_handoff)
    require (is_some claims.expires) (unauthorized missing_expiry)
    require (is_truthy claims.portal_user && is_truthy claims.email && is_truthy claims.name)
        (unauthorized missing_claims)
    ok (record {
      platform = p.id;
      portal_user = or_else claims.portal_user [];
      name = or_else claims.name [];
      email = or_else claims.email [];
      locale = base_locale claims.locale;
    })

  -- verify.
  pub verify : Text → Directory → Result HandoffContext
  verify token d = do
    require (is_truthy (some token)) (unauthorized missing_handoff)
    key ← found (claimed_key (decode token)) (unauthorized missing_platform_key)
    p ← found (platform_with_key key d.platforms) (unauthorized inactive_platform)
    verify_against p token

  -- canActivate of the guard: the context that it puts on the request.
  pub can_activate_handoff : Headers → Directory → Result HandoffContext
  can_activate_handoff h d = verify (extract_token h) d
