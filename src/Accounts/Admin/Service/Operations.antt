-- ===== src/Accounts/Admin/Service/Operations.antt =====
-- The administrators and the scopes of grants under each operation of src/admin/admin.service.ts.
use mathlib.Core.Path.{subst}
use cimp.Prelude.{
  ℕ, Bool, true, not, ◌&&◌, List, ◌∷◌, ◌≡◌, refl, ◌∙◌, Option, none, some, ◌==◌, arith, inl, inr,
  ==_iff, Bool-cases, All, All-mono, All-select, any, any_mono, any-select, is_some, holds_id,
  or_else,
}
use cimp.Prelude.Table.{find, remove, find-key}
use cimp.Prelude.Table.Keys.{any-remove, All-remove}
use cimp.Prelude.Text.{Text}
use cimp.Domain.{
  Role, focal_point, admin, same_role, same_role_iff, ok, require, found, conflict, not_found,
  last_admin, staff_not_found, role_not_found, role_exists, platform_not_found, platform_has_issues,
}
use cimp.Domain.Results.{>>=-eq-ok, >>-eq-ok, ok-injective, found-eq-ok, require-eq-ok}
use cimp.Accounts.Rows.{UserPlatformRole, Directory, platform_id, staff_id, grant_id}
use cimp.Accounts.Admin.{
  CreateStaffDto, UpdateStaffDto, AssignRoleDto, grants_admin, assert_not_last_admin,
  assert_role_scope, log_audit, assert_platform_exists, same_scope,
}
use cimp.Accounts.Admin.Service.{
  update_staff, delete_staff, set_staff_password, assign_role, revoke_role, assert_may_revoke,
  create_staff, created_staff, delete_platform,
}
use cimp.Accounts.Admin.Service.Effects.{
  update_staff_inv, delete_staff_inv, set_staff_password_inv, create_staff_inv, with_email_inv,
}
use cimp.Accounts.Admin.Admins.{
  admin_beside, admin-create, admin-put, admin_beside-remove, disabling-has_admin,
}

-- Focal points are per platform, administrators global.
pub record IsScoped (g : UserPlatformRole) : Type 0 where
  pub focal_scoped : g.role ≡ focal_point → is_some g.platform ≡ true
  pub admin_global : g.role ≡ admin → g.platform ≡ none

pub record IsGoverned (d : Directory) : Type 0 where
  pub has_admin : any (grants_admin d.staff) d.grants ≡ true
  pub scoped : All IsScoped d.grants

any_later :
    {A : Type 0} (p : A → Bool) (x : A) (xs : List A) → any p xs ≡ true → any p (x ∷ xs) ≡ true
any_later p x xs h = ground (arith, h)

module _ (lower hash : Text → Text) (secret : Text) (caller fresh : ℕ) (d d' : Directory) where
  pub update_staff-IsGoverned :
      (id : ℕ) (dto : UpdateStaffDto)
      → update_staff lower hash secret caller fresh id dto d ≡ ok d'
      → IsGoverned d
      → IsGoverned d'
  unfolding log_audit
  update_staff-IsGoverned id dto h g =
      let (u, k, there, may, keyed, done) =
        update_staff_inv lower hash secret caller fresh d d' id dto h in
      let (same, kept, version) =
        with_email_inv lower hash secret caller fresh d d' dto.email
          (record u { name = or_else dto.name u.name }) k keyed in
      subst IsGoverned done (record {
        has_admin =
            disabling-has_admin caller dto.status u k d
              (rw (find-key staff_id id d.staff u there) there) same kept may g.has_admin;
        scoped = g.scoped;
      })

  pub delete_staff-IsGoverned :
      (id : ℕ)
      → delete_staff lower hash secret caller fresh id d ≡ ok d'
      → IsGoverned d
      → IsGoverned d'
  unfolding log_audit assert_not_last_admin
  delete_staff-IsGoverned id h g =
      let (u, there, may, done) = delete_staff_inv lower hash secret caller fresh d d' id h in
      let others : any (admin_beside d.staff u.id) d.grants ≡ true =
        require-eq-ok (any (admin_beside d.staff u.id) d.grants) (conflict last_admin) may in
      subst IsGoverned done (record {
        has_admin = admin_beside-remove d.staff d.grants id (
            subst (λ k. any (admin_beside d.staff k) d.grants ≡ true)
              (find-key staff_id id d.staff u there) others);
        scoped = All-select IsScoped (λ g. not (g.staff_user == id)) d.grants g.scoped;
      })

  pub set_staff_password-IsGoverned :
      (id : ℕ) (password : Text)
      → set_staff_password lower hash secret caller fresh id password d ≡ ok d'
      → IsGoverned d
      → IsGoverned d'
  unfolding log_audit
  set_staff_password-IsGoverned id password h g =
      let (u, there, done) =
        set_staff_password_inv lower hash secret caller fresh d d' id password h in
      subst IsGoverned done (record {
        has_admin =
            admin-put d.staff d.grants u _ (rw (find-key staff_id id d.staff u there) there)
              (λ fine. fine) g.has_admin;
        scoped = g.scoped;
      })

  role_scope_inv :
      (r : Role) (p : Option ℕ) (n k : ℕ)
      → assert_role_scope r p ≡ ok tt
      → IsScoped (record { id = n; staff_user = k; platform = p; role = r })
  unfolding assert_role_scope
  role_scope_inv r p n k h = ground (arith, h)

  pub assign_role-IsGoverned :
      (dto : AssignRoleDto)
      → assign_role lower hash secret caller fresh dto d ≡ ok d'
      → IsGoverned d
      → IsGoverned d'
  unfolding assign_role log_audit
  assign_role-IsGoverned dto h g =
      let (u, loaded, rest) =
        >>=-eq-ok (found (find staff_id dto.staff_user_id d.staff) (not_found staff_not_found)) _
          (>>-eq-ok (assert_role_scope dto.role dto.platform_id) _ h) in
      let scope : assert_role_scope dto.role dto.platform_id ≡ ok tt = ground (arith, h) in
      let done = ok-injective (
        >>-eq-ok
          (require
            (not (
              any
                (λ g.
                  g.staff_user == u.id
                  && same_role g.role dto.role
                  && same_scope dto.platform_id g.platform)
                d.grants))
            (conflict role_exists))
          _ (>>-eq-ok (assert_platform_exists dto.platform_id d) _ rest)) in
      subst IsGoverned done (record {
        has_admin = any_later (grants_admin d.staff) _ d.grants g.has_admin;
        scoped = (role_scope_inv dto.role dto.platform_id fresh u.id scope, g.scoped);
      })

  revoked-has_admin :
      (id : ℕ) (r : UserPlatformRole)
      → find grant_id id d.grants ≡ some r
      → assert_may_revoke lower hash secret caller fresh r d ≡ ok tt
      → any (grants_admin d.staff) d.grants ≡ true
      → any (grants_admin d.staff) (remove grant_id id d.grants) ≡ true
  unfolding assert_may_revoke assert_not_last_admin grants_admin
  revoked-has_admin id r there may h = elim (Bool-cases (same_role r.role admin)) [
    | inl admins ↦
        let others : any (admin_beside d.staff r.staff_user) d.grants ≡ true =
          require-eq-ok (any (admin_beside d.staff r.staff_user) d.grants) (conflict last_admin)
            (rw admins at may) in
        any_mono (admin_beside d.staff r.staff_user) (grants_admin d.staff)
          (λ g was. ground (arith, was)) (remove grant_id id d.grants)
          (any-remove grant_id (admin_beside d.staff r.staff_user) id r d.grants there
              (ground (arith, ==_iff r.staff_user r.staff_user))
            ∙ others)
    | inr other ↦
        any-remove grant_id (grants_admin d.staff) id r d.grants there (ground (arith, other)) ∙ h
  ]

  pub revoke_role-IsGoverned :
      (id : ℕ)
      → revoke_role lower hash secret caller fresh id d ≡ ok d'
      → IsGoverned d
      → IsGoverned d'
  unfolding revoke_role log_audit assert_may_revoke assert_not_last_admin
  revoke_role-IsGoverned id h g =
      let (r, loaded, rest) =
        >>=-eq-ok (found (find grant_id id d.grants) (not_found role_not_found)) _ h in
      let there = found-eq-ok (find grant_id id d.grants) (not_found role_not_found) loaded in
      let may : assert_may_revoke lower hash secret caller fresh r d ≡ ok tt =
        ground (arith, rest) in
      let done =
        ok-injective (>>-eq-ok (assert_may_revoke lower hash secret caller fresh r d) _ rest) in
      subst IsGoverned done (record {
        has_admin = revoked-has_admin id r there may g.has_admin;
        scoped = All-remove grant_id IsScoped id d.grants g.scoped;
      })

  pub create_staff-IsGoverned :
      (dto : CreateStaffDto)
      → create_staff lower hash secret caller fresh dto d ≡ ok d'
      → IsGoverned d
      → IsGoverned d'
  unfolding log_audit
  create_staff-IsGoverned dto h g =
      let (new, done) = create_staff_inv lower hash secret caller fresh d d' dto h in
      subst IsGoverned done (record {
        has_admin =
            admin-create d.staff d.grants (created_staff lower hash secret caller fresh dto) refl
              g.has_admin;
        scoped = g.scoped;
      })

  -- The grants for a platform that goes are no administrator's.
  pub delete_platform-IsGoverned :
      (id : ℕ)
      → delete_platform lower hash secret caller fresh id d ≡ ok d'
      → IsGoverned d
      → IsGoverned d'
  unfolding delete_platform log_audit grants_admin
  delete_platform-IsGoverned id h g =
      let (p, loaded, rest) =
        >>=-eq-ok (found (find platform_id id d.platforms) (not_found platform_not_found)) _ h in
      subst IsGoverned
        (ok-injective (
          >>-eq-ok
            (require (not (any (λ i. i.platform == id) d.issues)) (conflict platform_has_issues)) _
            rest))
        (record {
          has_admin =
              any-select (grants_admin d.staff) (λ g. not (holds_id g.platform id)) d.grants
                (All-mono IsScoped
                  (λ g. grants_admin d.staff g ≡ true → not (holds_id g.platform id) ≡ true)
                  (λ g sc was.
                    rw (sc.admin_global ((same_role_iff g.role admin).0 (ground (arith, was)))))
                  d.grants g.scoped)
                g.has_admin;
          scoped = All-select IsScoped (λ g. not (holds_id g.platform id)) d.grants g.scoped;
        })
