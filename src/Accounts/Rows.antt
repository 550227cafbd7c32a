-- ===== src/Accounts/Rows.antt =====
-- The rows that the administration and the login share: src/entities/staff-user.entity.ts,
-- user-platform-role.entity.ts and platform.entity.ts, what src/admin reads of an issue, and the
-- audit rows that it writes.
use cimp.Prelude.{ℕ, Bool, List, Option}
use cimp.Prelude.Text.{Text}
use cimp.Domain.{Role, AccountStatus}
use cimp.Sla.{Fraction}

pub data PlatformStatus : Type 0 where
  active disabled : PlatformStatus

abbrev pub SlaHours : Type 0
SlaHours = List (Text × Fraction)

pub record Platform : Type 0 where
  pub id : ℕ
  pub key : Text
  pub name : Text
  pub status : PlatformStatus
  pub jira_project_key : Option Text
  pub jira_enabled : Bool
  pub sla_policy : Option SlaHours
  pub handoff_secret : Text

pub record StaffUser : Type 0 where
  pub id : ℕ
  pub idp_subject : Text
  pub name : Text
  pub email : Text
  pub password_hash : Option Text
  pub status : AccountStatus
  pub token_version : ℕ

pub record UserPlatformRole : Type 0 where
  pub id : ℕ
  pub staff_user : ℕ
  pub platform : Option ℕ
  pub role : Role

pub record IssueRow : Type 0 where
  pub id : ℕ
  pub platform : ℕ
  pub assignee : Option ℕ

-- The action of an audit row, with the ids of its metadata.
pub data AdminAction : Type 0 where
  platform_created platform_updated platform_deleted platform_secret_rotated : ℕ → AdminAction
  staff_created staff_updated staff_deleted staff_password_set : ℕ → AdminAction
  role_assigned role_revoked : ℕ → AdminAction

pub record AdminAudit : Type 0 where
  pub actor : ℕ
  pub action : AdminAction

-- The tables; the newest audit row stands first.
pub record Directory : Type 0 where
  pub platforms : List Platform
  pub staff : List StaffUser
  pub grants : List UserPlatformRole
  pub issues : List IssueRow
  pub audit : List AdminAudit

abbrev pub platform_id : Platform → ℕ
platform_id p = p.id

abbrev pub staff_id : StaffUser → ℕ
staff_id u = u.id

abbrev pub grant_id : UserPlatformRole → ℕ
grant_id g = g.id
