-- ===== src/Accounts/Sessions.antt =====
-- Login, tokens and the check of each request: src/auth/auth.service.ts and local-auth.service.ts.
pub mod Revoked
pub mod Login
pub mod Reused
use cimp.Prelude.{
  ℕ, Bool, true, false, not, ◌&&◌, List, [], ◌∷◌, Option, none, some, ◌==◌, if◌then◌else◌, or_else,
  is_none, holds_id,
}
use cimp.Prelude.Table.{find, put}
use cimp.Prelude.Text.{Text, codes, same_text, has_prefix}
use cimp.Domain.{
  AccountStatus, is_active, Result, ok, err, ◌>>=◌, ◌>>◌, require, found, server_error,
  unauthorized, unique_violation, login_not_enabled, invalid_credentials, account_disabled,
}
use cimp.Authz.{AuthenticatedStaff, StaffRoleGrant}
use cimp.Accounts.Rows.{StaffUser, UserPlatformRole, Directory, staff_id}
use cimp.Accounts.Admin.{is_unique}

pub record TokenClaims : Type 0 where
  pub sub : Text
  pub name : Option Text
  pub email : Option Text
  pub tv : Option ℕ

-- The payload of a signed token; `sub` is none where it is no text.
pub record Payload : Type 0 where
  pub sub : Option Text
  pub name : Option Text
  pub email : Option Text
  pub tv : Option ℕ
  pub aud : Option Text

unfoldable pub with_subject : Text → List StaffUser → Option StaffUser
with_subject sub [] = none
with_subject sub (u ∷ us) = if same_text u.idp_subject sub then some u else with_subject sub us

-- loadRoles.
pub load_roles : ℕ → List UserPlatformRole → List StaffRoleGrant
load_roles id [] = []
load_roles id (g ∷ gs) =
    let rest = load_roles id gs in
    if g.staff_user == id then record { role = g.role; platform_id = g.platform } ∷ rest else rest

pub to_authenticated : StaffUser → Directory → AuthenticatedStaff
to_authenticated u d = record { id = u.id; roles = load_roles u.id d.grants }

-- `claims.sub.startsWith(LOCAL_SUBJECT_PREFIX)`.
unfoldable pub is_local : Text → Bool
unfolding has_prefix
is_local sub = has_prefix (codes "local:") sub

-- The principal, or null, and the tables after the upsert.
abbrev pub Answer : Type 0
Answer = Option AuthenticatedStaff × Directory

-- The account is active and the token's version is the account's.
pub admits : TokenClaims → StaffUser → Bool
admits claims u = is_active u.status && holds_id claims.tv u.token_version

-- The fields that the token carries, refreshed.
pub refreshed : TokenClaims → StaffUser → StaffUser
refreshed claims u = record u {
  name = or_else claims.name u.name;
  email = or_else claims.email u.email;
}

pub is_current : TokenClaims → StaffUser → Bool
is_current claims u =
    same_text u.name (or_else claims.name u.name)
    && same_text u.email (or_else claims.email u.email)

pub admit : TokenClaims → StaffUser → Directory → Result Answer
admit claims u d = if is_current claims u then ok (some (to_authenticated u d), d) else (do
  require (is_unique (refreshed claims u) d.staff) (server_error unique_violation)
  ok (
    some (to_authenticated (refreshed claims u) d),
    record d { staff = put staff_id (refreshed claims u) d.staff },
  ))

-- The row of a first contact, with the id that the database generates.
pub first_contact : ℕ → TokenClaims → StaffUser
first_contact fresh claims = record {
  id = fresh;
  idp_subject = claims.sub;
  name = or_else claims.name claims.sub;
  email = or_else claims.email [];
  password_hash = none;
  status = AccountStatus.active;
  token_version = 1;
}

-- The insert, and the second look after it has lost on a unique index.
pub provision : ℕ → TokenClaims → Directory → Result Answer
provision fresh claims d =
    if is_unique (first_contact fresh claims) d.staff
    then ok (
      some (to_authenticated (first_contact fresh claims) d),
      record d { staff = first_contact fresh claims ∷ d.staff },
    )
    else elim (with_subject claims.sub d.staff) [
      | none ↦ ok (none, d)
      | some u ↦ if admits claims u then ok (some (to_authenticated u d), d) else ok (none, d)
    ]

-- upsertFromClaims.
pub upsert_known : ℕ → TokenClaims → Option StaffUser → Directory → Result Answer
upsert_known fresh claims (some u) d = if admits claims u then admit claims u d else ok (none, d)
upsert_known fresh claims none d =
    if is_local claims.sub then ok (none, d) else provision fresh claims d

pub upsert_from_claims : ℕ → TokenClaims → Directory → Result Answer
upsert_from_claims fresh claims d =
    if same_text claims.sub []
    then ok (none, d)
    else upsert_known fresh claims (with_subject claims.sub d.staff) d

-- refreshAuthenticated: the principal and the version that the stream pins.
pub refresh_authenticated : ℕ → Directory → Option (AuthenticatedStaff × ℕ)
refresh_authenticated id d = elim (find staff_id id d.staff) [
  | none ↦ none
  | some u ↦ if is_active u.status then some (to_authenticated u d, u.token_version) else none
]

-- `jwt.verify` of a token with its signature, its expiry and, if one is asked for, its audience is
-- `verify`; `sign` makes a token.
module _ {Token : Type 0} (sign : Payload → Token) (verify : Option Text → Token → Option Payload)
    (enabled : Bool) where
  -- A `catch` that answers null.
  pub or_nobody : Directory → Result Answer → Answer
  or_nobody d (ok a) = a
  or_nobody d (err e) = (none, d)

  -- The shape of a session token: a subject and no audience.
  pub session_claims : Payload → Option TokenClaims
  session_claims p =
      if is_none p.aud
      then elim p.sub [
        | none ↦ none
        | some [] ↦ none
        | some (c ∷ sub) ↦
            some (record { sub = c ∷ sub; name = p.name; email = p.email; tv = p.tv })
      ]
      else none

  pub answer_claims : ℕ → Option TokenClaims → Directory → Answer
  answer_claims fresh none d = (none, d)
  answer_claims fresh (some claims) d = or_nobody d (upsert_from_claims fresh claims d)

  pub verify_token : ℕ → Token → Directory → Answer
  verify_token fresh token d =
      if enabled
      then elim (verify none token) [
        | none ↦ (none, d)
        | some p ↦ answer_claims fresh (session_claims p) d
      ]
      else (none, d)

  -- signSseTicket.
  unfoldable pub sign_sse_ticket : Text → Directory → Option Token
  unfolding with_subject same_text
  sign_sse_ticket subject d =
      if enabled
      then elim (with_subject subject d.staff) [
        | none ↦ none
        | some u ↦
            if is_active u.status
            then some (
                sign (record {
                  sub = some subject;
                  name = none;
                  email = none;
                  tv = some u.token_version;
                  aud = some (codes "sse");
                }))
            else none
      ]
      else none

  -- verifySseTicket.
  pub verify_sse_ticket : ℕ → Token → Directory → Answer
  verify_sse_ticket fresh ticket d =
      if enabled
      then elim (verify (some (codes "sse")) ticket) [
        | none ↦ (none, d)
        | some p ↦ or_nobody d (
            upsert_from_claims fresh
              (record { sub = or_else p.sub []; name = none; email = none; tv = p.tv }) d)
      ]
      else (none, d)

  pub with_mail : (Text → Text) → Text → List StaffUser → Option StaffUser
  with_mail lower email [] = none
  with_mail lower email (u ∷ us) =
      if same_text (lower u.email) (lower email) then some u else with_mail lower email us

  -- The payload of a session token.
  pub session_payload : StaffUser → Payload
  session_payload u = record {
    sub = some u.idp_subject;
    name = some u.name;
    email = some u.email;
    tv = some u.token_version;
    aud = none;
  }

  -- login, with the database's LOWER and bcrypt's comparison.
  unfoldable pub login :
      (Text → Text) → (Text → Text → Bool) → Text → Text → Directory → Result Token
  unfolding with_mail session_payload same_text
  login lower compare email password d = do
    require enabled (unauthorized login_not_enabled)
    u ← found (with_mail lower email d.staff) (unauthorized invalid_credentials)
    hash ← found u.password_hash (unauthorized invalid_credentials)
    require (compare password hash) (unauthorized invalid_credentials)
    require (is_active u.status) (unauthorized account_disabled)
    ok (sign (session_payload u))
