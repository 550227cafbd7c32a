-- ===== src/Accounts/Admin.antt =====
-- The administration, src/admin: the request bodies (src/admin/dto) and the checks of
-- admin.service.ts. Service has its operations.
pub mod Admins
pub mod Service
use cimp.Prelude.{
  ℕ, ◌+◌, ◌*◌, Bool, true, false, not, ◌&&◌, ◌||◌, List, [], ◌∷◌, ◌++◌, Option, none, some, ◌==◌,
  leb, ltb, if◌then◌else◌, or_else, any, count, is_none, is_some, holds_id, select, map,
}
use cimp.Prelude.Table.{find, put, remove}
use cimp.Prelude.Text.{Text, codes, same_text}
use cimp.Domain.{
  Role, focal_point, developer, admin, watcher, same_role, AccountStatus, is_active, Result, ok,
  err, ◌>>=◌, ◌>>◌, require, found, bad_request, conflict, not_found, server_error,
  platform_key_taken, platform_not_found, platform_has_issues, email_taken, staff_not_found,
  own_disable, own_delete, last_admin, focal_point_scope, admin_scope, role_exists, role_not_found,
  unknown_sla_priority, bad_sla_hours, unique_violation,
}
use cimp.Sla.{Fraction}
use cimp.Accounts.Rows.{
  PlatformStatus, SlaHours, Platform, StaffUser, UserPlatformRole, IssueRow, AdminAction,
  platform_created, platform_updated, platform_deleted, platform_secret_rotated, staff_created,
  staff_updated, staff_deleted, staff_password_set, role_assigned, role_revoked, AdminAudit,
  Directory, platform_id, staff_id, grant_id,
}

-- `Object.entries` of the policy in a request, each with the number that `Number` makes of the value,
-- if that is finite and not negative.
abbrev pub SlaEntries : Type 0
SlaEntries = List (Text × Option Fraction)

pub record CreatePlatformDto : Type 0 where
  pub key : Text
  pub name : Text
  pub status : Option PlatformStatus
  pub jira_project_key : Option Text
  pub jira_enabled : Option Bool
  pub handoff_secret : Option Text

-- `some none` is an explicit null.
pub record UpdatePlatformDto : Type 0 where
  pub name : Option Text
  pub status : Option PlatformStatus
  pub jira_project_key : Option (Option Text)
  pub jira_enabled : Option Bool
  pub sla_policy : Option (Option SlaEntries)

pub record CreateStaffDto : Type 0 where
  pub name : Text
  pub email : Text
  pub password : Text

pub record UpdateStaffDto : Type 0 where
  pub name : Option Text
  pub email : Option Text
  pub status : Option AccountStatus

pub record AssignRoleDto : Type 0 where
  pub staff_user_id : ℕ
  pub role : Role
  pub platform_id : Option ℕ

-- localSubject, with the runtime's `toLowerCase`.
pub local_subject : (Text → Text) → Text → Text
local_subject lower email = codes "local:" ++ lower email

pub is_priority : Text → Bool
is_priority key =
    same_text key (codes "LOW")
    || same_text key (codes "MEDIUM")
    || same_text key (codes "HIGH")
    || same_text key (codes "CRITICAL")

-- `hours <= 0 || hours > 8760`, negated.
pub in_a_year : Fraction → Bool
in_a_year h = ltb 0 h.num && leb h.num (8760 * h.den)

-- The loop of validateSlaPolicy, and the null for an empty object.
pub valid_entries : SlaEntries → Result SlaHours
valid_entries [] = ok []
valid_entries ((key, value) ∷ entries) = do
  require (is_priority key) (bad_request unknown_sla_priority)
  hours ← found value (bad_request bad_sla_hours)
  require (in_a_year hours) (bad_request bad_sla_hours)
  rest ← valid_entries entries
  ok ((key, hours) ∷ rest)

pub or_null : SlaHours → Option SlaHours
or_null [] = none
or_null (h ∷ hs) = some (h ∷ hs)

pub validate_sla_policy : Option SlaEntries → Result (Option SlaHours)
validate_sla_policy none = ok none
validate_sla_policy (some entries) = do hours ← valid_entries entries; ok (or_null hours)

-- `dto.slaPolicy !== undefined ? validate : leave`.
pub chosen_policy : Option (Option SlaEntries) → Option SlaHours → Result (Option SlaHours)
chosen_policy none old = ok old
chosen_policy (some policy) old = validate_sla_policy policy

unfoldable pub log_audit : ℕ → AdminAction → Directory → Directory
log_audit actor action d = record d { audit = record { actor = actor; action = action } ∷ d.audit }

unfoldable pub platform_with_key : Text → List Platform → Option Platform
platform_with_key key [] = none
platform_with_key key (p ∷ ps) = if same_text p.key key then some p else platform_with_key key ps

-- `findOne({ where: [{ email }, { idpSubject }] })`.
pub account_with : Text → Text → List StaffUser → Option StaffUser
account_with email subject [] = none
account_with email subject (u ∷ us) =
    if same_text u.email email || same_text u.idp_subject subject
    then some u
    else account_with email subject us

-- The unique indices on email and subject, as a save of `u` meets them.
pub is_unique : StaffUser → List StaffUser → Bool
is_unique u us = not (
    any
      (λ v.
        not (v.id == u.id) && (same_text v.email u.email || same_text v.idp_subject u.idp_subject))
      us)

pub is_active_staff : ℕ → List StaffUser → Bool
is_active_staff id us = elim (find staff_id id us) [ none ↦ false | some u ↦ is_active u.status ]

-- A grant of ADMIN to an active account.
pub grants_admin : List StaffUser → UserPlatformRole → Bool
grants_admin us g = same_role g.role admin && is_active_staff g.staff_user us

-- assertNotLastAdmin.
pub assert_not_last_admin : ℕ → Directory → Result (Unit {0})
assert_not_last_admin id d =
    require (any (λ g. grants_admin d.staff g && not (g.staff_user == id)) d.grants)
      (conflict last_admin)

-- The checks of a change of status to DISABLED.
pub assert_may_disable : ℕ → StaffUser → Option AccountStatus → Directory → Result (Unit {0})
assert_may_disable caller u (some AccountStatus.disabled) d =
    if is_active u.status
    then (do require (not (u.id == caller)) (bad_request own_disable); assert_not_last_admin u.id d)
    else ok tt
assert_may_disable caller u _ d = ok tt

-- `if (dto.status !== undefined && dto.status !== user.status)`.
pub with_status : Option AccountStatus → StaffUser → StaffUser
with_status (some AccountStatus.disabled) u =
    if is_active u.status
    then record u { status = AccountStatus.disabled; token_version = u.token_version + 1 }
    else u
with_status (some AccountStatus.active) u = record u { status = AccountStatus.active }
with_status none u = u

-- The scope rules of a role.
pub assert_role_scope : Role → Option ℕ → Result (Unit {0})
assert_role_scope focal_point none = err (bad_request focal_point_scope)
assert_role_scope admin (some p) = err (bad_request admin_scope)
assert_role_scope _ _ = ok tt

pub assert_platform_exists : Option ℕ → Directory → Result (Unit {0})
assert_platform_exists none d = ok tt
assert_platform_exists (some p) d =
    require (is_some (find platform_id p d.platforms)) (not_found platform_not_found)

pub same_scope : Option ℕ → Option ℕ → Bool
same_scope none q = is_none q
same_scope (some p) q = holds_id q p
