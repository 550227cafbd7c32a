-- ===== src/Authz.antt =====
-- Role and platform scope: src/authz/scope.service.ts, role-sets.ts, platform-access.guard.ts and
-- roles.guard.ts. A request's principal carries its role grants (src/auth/auth.types.ts).
pub mod Scope
pub mod Hiding
mod Tests
use cimp.Prelude.{
  ℕ, ◌+◌, Bool, true, false, not, ◌&&◌, ◌||◌, List, [], ◌∷◌, Option, none, some, ◌==◌, leb,
  if◌then◌else◌, any, all, length, includes, distinct, is_none, is_some, holds_id, or_else,
}
use cimp.Domain.{
  Role, focal_point, developer, admin, watcher, includes_role, Result, ok, err, forbidden,
  not_found, not_authenticated, issue_not_found, no_access, insufficient_role,
}

pub record StaffRoleGrant : Type 0 where
  pub role : Role
  pub platform_id : Option ℕ

-- The parts of the principal that authorization reads.
pub record AuthenticatedStaff : Type 0 where
  pub id : ℕ
  pub roles : List StaffRoleGrant

pub data PlatformScope : Type 0 where
  all_platforms : PlatformScope
  platforms : List ℕ → PlatformScope

abbrev pub staff_read_roles : List Role
staff_read_roles = focal_point ∷ developer ∷ admin ∷ watcher ∷ []

abbrev pub staff_write_roles : List Role
staff_write_roles = focal_point ∷ developer ∷ admin ∷ []

-- The loop that collects the platforms of the grants that name one.
platform_ids : List StaffRoleGrant → List ℕ
platform_ids [] = []
platform_ids (g ∷ gs) = elim g.platform_id [ none ↦ platform_ids gs | some p ↦ p ∷ platform_ids gs ]

unfoldable pub scoped_platform_ids : AuthenticatedStaff → PlatformScope
unfolding platform_ids
scoped_platform_ids staff =
    if any (λ g. is_none g.platform_id) staff.roles
    then all_platforms
    else platforms (distinct (platform_ids staff.roles))

abbrev pub grant_covers : List Role → ℕ → StaffRoleGrant → Bool
grant_covers required platform g =
    includes_role required g.role && (is_none g.platform_id || holds_id g.platform_id platform)

unfoldable pub can_access_platform : AuthenticatedStaff → ℕ → List Role → Bool
can_access_platform staff platform required = any (grant_covers required platform) staff.roles

unfoldable pub scope_allows : PlatformScope → ℕ → Bool
scope_allows all_platforms p = true
scope_allows (platforms ids) p = includes ids p

-- UUID_PATTERN: hexadecimal digits in groups of 8, 4, 4, 4 and 12, joined by dashes.
is_hex : ℕ → Bool
is_hex c = (leb b'0' c && leb c b'9') || (leb b'a' c && leb c b'f') || (leb b'A' c && leb c b'F')

is_dash_place : ℕ → Bool
is_dash_place i = i == 8 || i == 13 || i == 18 || i == 23

uuid_from : ℕ → List ℕ → Bool
uuid_from i [] = i == 36
uuid_from i (c ∷ cs) = (if is_dash_place i then c == b'-' else is_hex c) && uuid_from (i + 1) cs

unfoldable pub is_uuid : List ℕ → Bool
unfolding uuid_from is_hex is_dash_place
is_uuid s = uuid_from 0 s

-- The route's issue branch: `platform_of` finds the platform of the issue with that id.
guard_issue : (List ℕ → Option ℕ) → List Role → AuthenticatedStaff → List ℕ → Result (Unit {0})
guard_issue platform_of required staff id =
    if is_uuid id
    then elim (platform_of id) [
      | none ↦ err (not_found issue_not_found)
      | some p ↦
          if can_access_platform staff p staff_read_roles
          then if can_access_platform staff p required then ok tt else err (forbidden no_access)
          else err (not_found issue_not_found)
    ]
    else err (not_found issue_not_found)

guard_role : List Role → AuthenticatedStaff → Result (Unit {0})
guard_role required staff =
    if any (λ g. includes_role required g.role) staff.roles
    then ok tt
    else err (forbidden insufficient_role)

-- PlatformAccessGuard.canActivate: the `@Roles` of the route if it has any, the principal, and the
-- route's `:id`. The empty text is no id.
unfoldable pub can_activate :
    (List ℕ → Option ℕ)
    → Option (List Role)
    → Option AuthenticatedStaff
    → Option (List ℕ)
    → Result (Unit {0})
unfolding guard_issue guard_role
can_activate platform_of roles none id = err (forbidden not_authenticated)
can_activate platform_of roles (some staff) none =
    guard_role (or_else roles staff_write_roles) staff
can_activate platform_of roles (some staff) (some []) =
    guard_role (or_else roles staff_write_roles) staff
can_activate platform_of roles (some staff) (some (c ∷ cs)) =
    guard_issue platform_of (or_else roles staff_write_roles) staff (c ∷ cs)

-- RolesGuard.canActivate.
unfoldable pub roles_guard : Option (List Role) → Option AuthenticatedStaff → Result (Unit {0})
unfolding guard_role
roles_guard none user = ok tt
roles_guard (some []) user = ok tt
roles_guard (some (r ∷ rs)) none = err (forbidden insufficient_role)
roles_guard (some (r ∷ rs)) (some staff) = guard_role (r ∷ rs) staff
