-- ===== src/Authz/Hiding.antt =====
-- What the access guard lets through, and what its refusals tell.
use cimp.Prelude.{
  ℕ, true, false, List, ◌∷◌, ◌≡◌, ◌↔◌, Option, some, arith, or_else, inl, inr, Option-cases,
}
use cimp.Domain.{Role, ok, err, not_found, issue_not_found}
use cimp.Authz.{
  AuthenticatedStaff, staff_read_roles, staff_write_roles, can_access_platform, is_uuid,
  can_activate,
}
use cimp.Authz.Scope.{can_access_platform_read}

module _ (platform_of : List ℕ → Option ℕ) (roles : Option (List Role)) (staff : AuthenticatedStaff)
    (c : ℕ) (cs : List ℕ) where
  -- On a route with an issue id the guard passes exactly when the id is well formed, the issue
  -- exists, and the staff member holds one of the route's roles for the issue's platform; a route
  -- without declared roles asks for a write role.
  pub can_activate_iff : (can_activate platform_of roles (some staff) (some (c ∷ cs)) ≡ ok tt) ↔ (
      (is_uuid (c ∷ cs) ≡ true)
      × ((p : ℕ) × (platform_of (c ∷ cs) ≡ some p)
          × (can_access_platform staff p (or_else roles staff_write_roles) ≡ true)))
  unfolding can_activate
  can_activate_iff = elim (Option-cases (platform_of (c ∷ cs))) [
    | inl missing ↦ (λ h. absurd (ground (arith, missing, h)), λ h. ground (arith, h.1.1))
    | inr (p, there) ↦ (
      λ h. (ground (arith, h), (p, there, ground (arith, h))),
      λ h. ground (
        arith,
        there,
        h.1.1,
        h.1.2,
        can_access_platform_read staff p (or_else roles staff_write_roles),
      ),
    )
  ]

  -- The answer is a refusal that admits the issue's existence only to staff who may read its
  -- platform: for everybody else an issue that exists, one that does not, and a malformed id
  -- are answered alike.
  pub can_activate_hides :
      ((p : ℕ)
        → platform_of (c ∷ cs) ≡ some p
        → can_access_platform staff p staff_read_roles ≡ false)
      → can_activate platform_of roles (some staff) (some (c ∷ cs))
        ≡ err (not_found issue_not_found)
  unfolding can_activate
  can_activate_hides h = elim (Option-cases (platform_of (c ∷ cs))) [
    | inl missing ↦ ground arith
    | inr (p, there) ↦ ground (arith, h p there)
  ]
