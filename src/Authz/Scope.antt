-- ===== src/Authz/Scope.antt =====
-- The list filter and the per-issue access test agree.
use cimp.Prelude.{
  ℕ, true, false, List, [], ◌∷◌, ◌≡◌, refl, arith, inl, inr, Bool-cases, any, is_none, includes,
  includes-distinct_onto,
}
use cimp.Domain.{Role, includes_role}
use cimp.Authz.{
  StaffRoleGrant, AuthenticatedStaff, staff_read_roles, platform_ids, scoped_platform_ids,
  grant_covers, can_access_platform, scope_allows,
}

read_includes : (r : Role) → includes_role staff_read_roles r ≡ true
read_includes r = ground arith

covers_of_global :
    (p : ℕ) (gs : List StaffRoleGrant)
    → any (λ g. is_none g.platform_id) gs ≡ true
    → any (grant_covers staff_read_roles p) gs ≡ true
covers_of_global p [] h = h
covers_of_global p (g ∷ gs) h = ground (arith, read_includes g.role, covers_of_global p gs)

covers_of_scoped :
    (p : ℕ) (gs : List StaffRoleGrant)
    → any (λ g. is_none g.platform_id) gs ≡ false
    → any (grant_covers staff_read_roles p) gs ≡ includes (platform_ids gs) p
unfolding platform_ids
covers_of_scoped p [] h = refl
covers_of_scoped p (g ∷ gs) h = ground (arith, read_includes g.role, covers_of_scoped p gs)

-- A platform is in the scope that filters a staff member's lists exactly when the staff member may
-- read that platform's issues one by one, whatever the grants are.
pub scope_allows-scoped_platform_ids :
    (staff : AuthenticatedStaff) (p : ℕ)
    → scope_allows (scoped_platform_ids staff) p ≡ can_access_platform staff p staff_read_roles
unfolding scope_allows scoped_platform_ids can_access_platform
scope_allows-scoped_platform_ids staff p =
    elim (Bool-cases (any (λ g. is_none g.platform_id) staff.roles)) [
      | inl global ↦ ground (arith, covers_of_global p staff.roles)
      | inr scoped ↦ ground (
        arith,
        covers_of_scoped p staff.roles,
        includes-distinct_onto [] (platform_ids staff.roles) p,
      )
    ]

covers_mono :
    (p : ℕ) (required : List Role) (gs : List StaffRoleGrant)
    → any (grant_covers required p) gs ≡ true
    → any (grant_covers staff_read_roles p) gs ≡ true
covers_mono p required [] h = h
covers_mono p required (g ∷ gs) h = ground (arith, read_includes g.role, covers_mono p required gs)

-- Every access is at least a read access.
pub can_access_platform_read :
    (staff : AuthenticatedStaff) (p : ℕ) (required : List Role)
    → can_access_platform staff p required ≡ true
    → can_access_platform staff p staff_read_roles ≡ true
unfolding can_access_platform
can_access_platform_read staff p required h = covers_mono p required staff.roles h
