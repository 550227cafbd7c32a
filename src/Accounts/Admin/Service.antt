-- ===== src/Accounts/Admin/Service.antt =====
-- The operations of src/admin/admin.service.ts, and the routes of admin.controller.ts.
pub mod Effects
pub mod Operations
pub mod Governed
use cimp.Prelude.{
  ℕ, ◌+◌, ◌*◌, Bool, true, false, not, ◌&&◌, ◌||◌, List, [], ◌∷◌, ◌++◌, Option, none, some, ◌==◌,
  leb, ltb, if◌then◌else◌, or_else, any, count, is_none, is_some, holds_id, select, map,
}
use cimp.Prelude.Table.{find, put, remove}
use cimp.Prelude.Text.{Text, codes, same_text}
use cimp.Domain.{
  Role, focal_point, developer, admin, watcher, same_role, AccountStatus, is_active, Result, ok,
  err, ◌>>=◌, ◌>>◌, require, found, bad_request, conflict, not_found, server_error,
  platform_key_taken, platform_not_found, platform_has_issues, email_taken, staff_not_found,
  own_disable, own_delete, last_admin, focal_point_scope, admin_scope, role_exists, role_not_found,
  unknown_sla_priority, bad_sla_hours, unique_violation,
}
use cimp.Sla.{Fraction}
use cimp.Accounts.Rows.{
  PlatformStatus, SlaHours, Platform, StaffUser, UserPlatformRole, IssueRow, AdminAction,
  platform_created, platform_updated, platform_deleted, platform_secret_rotated, staff_created,
  staff_updated, staff_deleted, staff_password_set, role_assigned, role_revoked, AdminAudit,
  Directory, platform_id, staff_id, grant_id,
}
use cimp.Accounts.Admin.{
  SlaEntries, CreatePlatformDto, UpdatePlatformDto, CreateStaffDto, UpdateStaffDto, AssignRoleDto,
  local_subject, is_priority, in_a_year, valid_entries, or_null, validate_sla_policy, chosen_policy,
  log_audit, platform_with_key, account_with, is_unique, is_active_staff, grants_admin,
  assert_not_last_admin, assert_may_disable, with_status, assert_role_scope, assert_platform_exists,
  same_scope,
}

-- `onDelete: 'SET NULL'` of an issue's assignee.
unfoldable pub unassigned : ℕ → IssueRow → IssueRow
unassigned id i = record i { assignee = if holds_id i.assignee id then none else i.assignee }

-- The routes of admin.controller.ts that write.
pub data Request : Type 0 where
  post_platform : CreatePlatformDto → Request
  patch_platform : ℕ → UpdatePlatformDto → Request
  drop_platform : ℕ → Request
  post_secret : ℕ → Request
  post_staff : CreateStaffDto → Request
  patch_staff : ℕ → UpdateStaffDto → Request
  drop_staff : ℕ → Request
  post_password : ℕ → Text → Request
  post_role : AssignRoleDto → Request
  drop_role : ℕ → Request

-- The service, for the caller with the id `caller`; `fresh` is the id that the database generates,
-- `lower`, `hash` and `secret` are the runtime's `toLowerCase`, bcrypt and random bytes.
module _ (lower hash : Text → Text) (secret : Text) (caller fresh : ℕ) where
  pub create_platform : CreatePlatformDto → Directory → Result Directory
  create_platform dto d =
      let row : Platform = record {
        id = fresh;
        key = dto.key;
        name = dto.name;
        status = or_else dto.status PlatformStatus.active;
        jira_project_key = dto.jira_project_key;
        jira_enabled = or_else dto.jira_enabled false;
        sla_policy = none;
        handoff_secret = or_else dto.handoff_secret secret;
      } in
      (do
        require (is_none (platform_with_key dto.key d.platforms)) (conflict platform_key_taken)
        ok (log_audit caller (platform_created fresh) (record d { platforms = row ∷ d.platforms })))

  pub update_platform : ℕ → UpdatePlatformDto → Directory → Result Directory
  update_platform id dto d = do
    p ← found (find platform_id id d.platforms) (not_found platform_not_found)
    policy ← chosen_policy dto.sla_policy p.sla_policy
    ok (
        log_audit caller (platform_updated id) (record d {
          platforms =
              put platform_id
                (record p {
                  name = or_else dto.name p.name;
                  status = or_else dto.status p.status;
                  jira_project_key = or_else dto.jira_project_key p.jira_project_key;
                  jira_enabled = or_else dto.jira_enabled p.jira_enabled;
                  sla_policy = policy;
                })
                d.platforms;
        }))

  -- The row goes, and with it the grants for the platform (`onDelete: 'CASCADE'`).
  pub delete_platform : ℕ → Directory → Result Directory
  delete_platform id d = do
    p ← found (find platform_id id d.platforms) (not_found platform_not_found)
    require (not (any (λ i. i.platform == id) d.issues)) (conflict platform_has_issues)
    ok (
        log_audit caller (platform_deleted id) (record d {
          platforms = remove platform_id id d.platforms;
          grants = select (λ g. not (holds_id g.platform id)) d.grants;
        }))

  unfoldable pub rotate_secret : ℕ → Directory → Result Directory
  rotate_secret id d = do
    p ← found (find platform_id id d.platforms) (not_found platform_not_found)
    ok (
        log_audit caller (platform_secret_rotated id) (record d {
          platforms = put platform_id (record p { handoff_secret = secret }) d.platforms;
        }))

  abbrev pub created_staff : CreateStaffDto → StaffUser
  created_staff dto = record {
    id = fresh;
    idp_subject = local_subject lower (lower dto.email);
    name = dto.name;
    email = lower dto.email;
    password_hash = some (hash dto.password);
    status = AccountStatus.active;
    token_version = 1;
  }

  pub create_staff : CreateStaffDto → Directory → Result Directory
  create_staff dto d = do
    require
        (is_none (account_with (lower dto.email) (local_subject lower (lower dto.email)) d.staff))
        (conflict email_taken)
    ok (log_audit caller (staff_created fresh) (record d { staff = created_staff dto ∷ d.staff }))

  -- The change of the email, which re-keys the subject and revokes the sessions.
  pub with_email : Option Text → StaffUser → Directory → Result StaffUser
  with_email none u d = ok u
  with_email (some email) u d = if same_text (lower email) u.email then ok u else (do
    require
        (elim (account_with (lower email) (local_subject lower (lower email)) d.staff) [
          | none ↦ true
          | some clash ↦ clash.id == u.id
        ])
        (conflict email_taken)
    ok (record u {
      email = lower email;
      idp_subject = local_subject lower (lower email);
      token_version = u.token_version + 1;
    }))

  pub update_staff : ℕ → UpdateStaffDto → Directory → Result Directory
  update_staff id dto d = do
    u ← found (find staff_id id d.staff) (not_found staff_not_found)
    assert_may_disable caller u dto.status d
    keyed ← with_email dto.email (record u { name = or_else dto.name u.name }) d
    require (is_unique (with_status dto.status keyed) d.staff) (server_error unique_violation)
    ok (
        log_audit caller (staff_updated id)
          (record d { staff = put staff_id (with_status dto.status keyed) d.staff }))

  -- The row goes, and with it its grants; its issues fall back to unassigned.
  pub delete_staff : ℕ → Directory → Result Directory
  delete_staff id d = do
    u ← found (find staff_id id d.staff) (not_found staff_not_found)
    require (not (u.id == caller)) (bad_request own_delete)
    assert_not_last_admin u.id d
    ok (
        log_audit caller (staff_deleted id) (record d {
          staff = remove staff_id id d.staff;
          grants = select (λ g. not (g.staff_user == id)) d.grants;
          issues = map (unassigned id) d.issues;
        }))

  pub set_staff_password : ℕ → Text → Directory → Result Directory
  set_staff_password id password d = do
    u ← found (find staff_id id d.staff) (not_found staff_not_found)
    ok (
        log_audit caller (staff_password_set id) (record d {
          staff =
              put staff_id
                (record u {
                  password_hash = some (hash password);
                  token_version = u.token_version + 1;
                })
                d.staff;
        }))

  pub assign_role : AssignRoleDto → Directory → Result Directory
  assign_role dto d = do
    assert_role_scope dto.role dto.platform_id
    u ← found (find staff_id dto.staff_user_id d.staff) (not_found staff_not_found)
    assert_platform_exists dto.platform_id d
    require
        (not (
          any
            (λ g.
              g.staff_user == u.id
              && same_role g.role dto.role
              && same_scope dto.platform_id g.platform)
            d.grants))
        (conflict role_exists)
    ok (
        log_audit caller (role_assigned fresh) (record d {
          grants =
              record { id = fresh; staff_user = u.id; platform = dto.platform_id; role = dto.role }
              ∷ d.grants;
        }))

  pub assert_may_revoke : UserPlatformRole → Directory → Result (Unit {0})
  assert_may_revoke g d =
      if same_role g.role admin then assert_not_last_admin g.staff_user d else ok tt

  pub revoke_role : ℕ → Directory → Result Directory
  revoke_role id d = do
    g ← found (find grant_id id d.grants) (not_found role_not_found)
    assert_may_revoke g d
    ok (log_audit caller (role_revoked id) (record d { grants = remove grant_id id d.grants }))

  unfoldable pub handle : Request → Directory → Result Directory
  unfolding create_platform update_platform delete_platform rotate_secret create_staff with_email
      update_staff delete_staff set_staff_password assign_role assert_may_revoke revoke_role
      unassigned local_subject is_priority in_a_year valid_entries or_null validate_sla_policy
      chosen_policy log_audit platform_with_key account_with is_unique is_active_staff grants_admin
      assert_not_last_admin assert_may_disable with_status assert_role_scope assert_platform_exists
      same_scope find put remove same_text
  handle (post_platform dto) d = create_platform dto d
  handle (patch_platform id dto) d = update_platform id dto d
  handle (drop_platform id) d = delete_platform id d
  handle (post_secret id) d = rotate_secret id d
  handle (post_staff dto) d = create_staff dto d
  handle (patch_staff id dto) d = update_staff id dto d
  handle (drop_staff id) d = delete_staff id d
  handle (post_password id password) d = set_staff_password id password d
  handle (post_role dto) d = assign_role dto d
  handle (drop_role id) d = revoke_role id d
