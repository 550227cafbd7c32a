-- ===== src/Accounts/Admin/Service/Governed.antt =====
-- An active administrator is left after every request, and grants keep the scope of their role
-- (src/admin/admin.service.ts).
use mathlib.Core.Path.{subst}
use cimp.Prelude.{ℕ, ◌≡◌, is_none}
use cimp.Prelude.Table.{find}
use cimp.Prelude.Text.{Text}
use cimp.Domain.{ok, require, found, conflict, not_found, platform_key_taken, platform_not_found}
use cimp.Domain.Results.{>>=-eq-ok, >>-eq-ok, ok-injective}
use cimp.Accounts.Rows.{Directory, platform_id}
use cimp.Accounts.Admin.{log_audit, platform_with_key, chosen_policy}
use cimp.Accounts.Admin.Service.{
  Request, post_platform, patch_platform, drop_platform, post_secret, post_staff, patch_staff,
  drop_staff, post_password, post_role, drop_role, handle, update_platform, create_platform,
  rotate_secret,
}
use cimp.Accounts.Admin.Service.Operations.{
  IsGoverned, update_staff-IsGoverned, delete_staff-IsGoverned, set_staff_password-IsGoverned,
  assign_role-IsGoverned, revoke_role-IsGoverned, create_staff-IsGoverned,
  delete_platform-IsGoverned,
}

-- A request to the administration that succeeds leaves an administrator with an active account if
-- there was one, and every grant for a focal point on a platform and every grant for an
-- administrator global if they were.
pub handle-IsGoverned :
    (lower hash : Text → Text) (secret : Text) (caller fresh : ℕ) (r : Request) (d d' : Directory)
    → handle lower hash secret caller fresh r d ≡ ok d'
    → IsGoverned d
    → IsGoverned d'
unfolding handle create_platform update_platform rotate_secret log_audit
handle-IsGoverned lower hash secret caller fresh (post_platform dto) d d' h g =
    subst IsGoverned
      (ok-injective (
        >>-eq-ok
          (require (is_none (platform_with_key dto.key d.platforms)) (conflict platform_key_taken))
          _ h))
      (record { has_admin = g.has_admin; scoped = g.scoped })
handle-IsGoverned lower hash secret caller fresh (patch_platform id dto) d d' h g =
    let (p, loaded, rest) =
      >>=-eq-ok (found (find platform_id id d.platforms) (not_found platform_not_found)) _ h in
    let (policy, chosen, made) = >>=-eq-ok (chosen_policy dto.sla_policy p.sla_policy) _ rest in
    subst IsGoverned (ok-injective made) (record { has_admin = g.has_admin; scoped = g.scoped })
handle-IsGoverned lower hash secret caller fresh (drop_platform id) d d' h g =
    delete_platform-IsGoverned lower hash secret caller fresh d d' id h g
handle-IsGoverned lower hash secret caller fresh (post_secret id) d d' h g =
    let (p, loaded, rest) =
      >>=-eq-ok (found (find platform_id id d.platforms) (not_found platform_not_found)) _ h in
    subst IsGoverned (ok-injective rest) (record { has_admin = g.has_admin; scoped = g.scoped })
handle-IsGoverned lower hash secret caller fresh (post_staff dto) d d' h g =
    create_staff-IsGoverned lower hash secret caller fresh d d' dto h g
handle-IsGoverned lower hash secret caller fresh (patch_staff id dto) d d' h g =
    update_staff-IsGoverned lower hash secret caller fresh d d' id dto h g
handle-IsGoverned lower hash secret caller fresh (drop_staff id) d d' h g =
    delete_staff-IsGoverned lower hash secret caller fresh d d' id h g
handle-IsGoverned lower hash secret caller fresh (post_password id password) d d' h g =
    set_staff_password-IsGoverned lower hash secret caller fresh d d' id password h g
handle-IsGoverned lower hash secret caller fresh (post_role dto) d d' h g =
    assign_role-IsGoverned lower hash secret caller fresh d d' dto h g
handle-IsGoverned lower hash secret caller fresh (drop_role id) d d' h g =
    revoke_role-IsGoverned lower hash secret caller fresh d d' id h g
