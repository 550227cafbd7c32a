-- ===== src/Authz/Tests.antt =====
-- A developer of one platform at the access guard.
use cimp.Prelude.{ℕ, ◌≡◌, ◌↔◌, true, false, none, some, Option, List, [], ◌∷◌, arith, or_else}
use cimp.Prelude.Text.{Text, codes}
use cimp.Domain.{developer, ok, err, not_found, issue_not_found}
use cimp.Authz.{
  AuthenticatedStaff, staff_write_roles, staff_read_roles, can_access_platform, can_activate,
  is_uuid, scope_allows, scoped_platform_ids,
}
use cimp.Authz.Scope.{scope_allows-scoped_platform_ids}
use cimp.Authz.Hiding.{can_activate_iff, can_activate_hides}

abbrev dev_of_seven : AuthenticatedStaff
dev_of_seven = record { id = 40; roles = record { role = developer; platform_id = some 7 } ∷ [] }

abbrev on_platform : ℕ → List ℕ → Option ℕ
on_platform p id = some p

abbrev digits : Text
digits = codes "f1c2d3e-0000-4000-8000-0123456789ab"

scope_allows-scoped_platform_ids_example :
    scope_allows (scoped_platform_ids dev_of_seven) 8
    ≡ can_access_platform dev_of_seven 8 staff_read_roles
scope_allows-scoped_platform_ids_example = scope_allows-scoped_platform_ids dev_of_seven 8

can_activate_iff_example :
    (can_activate (on_platform 7) none (some dev_of_seven) (some (b'6' ∷ digits)) ≡ ok tt) ↔ (
      (is_uuid (b'6' ∷ digits) ≡ true)
      × ((p : ℕ) × (on_platform 7 (b'6' ∷ digits) ≡ some p)
          × (can_access_platform dev_of_seven p (or_else none staff_write_roles) ≡ true)))
can_activate_iff_example = can_activate_iff (on_platform 7) none dev_of_seven b'6' digits

barred :
    (p : ℕ)
    → on_platform 8 (b'6' ∷ digits) ≡ some p
    → can_access_platform dev_of_seven p staff_read_roles ≡ false
unfolding can_access_platform
barred p h = ground (arith, h)

can_activate_hides_example :
    can_activate (on_platform 8) none (some dev_of_seven) (some (b'6' ∷ digits))
    ≡ err (not_found issue_not_found)
can_activate_hides_example = can_activate_hides (on_platform 8) none dev_of_seven b'6' digits barred
