-- ===== src/Accounts/Sessions/Reused.antt =====
-- What a new account under an old email admits: src/admin/admin.service.ts and
-- src/auth/auth.service.ts.
use cimp.Prelude.{
  ℕ, true, false, List, [], ◌∷◌, ◌≡◌, refl, ap, ◌∙◌, sym, none, some, ◌⊎◌, arith, inl, inr,
  Bool-cases,
}
use cimp.Prelude.Table.{put}
use cimp.Prelude.Text.{Text, same_text, same_text_refl}
use cimp.Domain.{ok, is_active}
use cimp.Accounts.Rows.{StaffUser, Directory, staff_created, staff_id}
use cimp.Accounts.Admin.{CreateStaffDto, local_subject, is_unique}
use cimp.Accounts.Admin.Service.{create_staff, created_staff}
use cimp.Accounts.Admin.Service.Effects.{
  create_staff_inv, staff-log_audit, account_with-is_unique, is_unique-cons,
  local_subject-same_text,
}
use cimp.Authz.{AuthenticatedStaff}
use cimp.Accounts.Sessions.{
  TokenClaims, with_subject, to_authenticated, admits, is_current, refreshed, admit, upsert_known,
  upsert_from_claims,
}

-- A token for the newest account, of its version, is answered with it.
newest_admitted :
    (later : ℕ) (claims : TokenClaims) (u : StaffUser) (us : List StaffUser) (d : Directory)
    → d.staff ≡ u ∷ us
    → is_unique (refreshed claims u) d.staff ≡ true
    → is_active u.status ≡ true
    → same_text claims.sub [] ≡ false
    → same_text u.idp_subject claims.sub ≡ true
    → claims.tv ≡ some u.token_version
    → (staff : AuthenticatedStaff) × (x : Directory) × (upsert_from_claims later claims d
        ≡ ok (some staff, x))
      × (staff.id ≡ u.id)
unfolding upsert_from_claims upsert_known admits admit with_subject to_authenticated refreshed
newest_admitted later claims u us d first free live named own version =
    let there : with_subject claims.sub d.staff ≡ some u = ground (arith, first, own) in
    elim (Bool-cases (is_current claims u)) [
      | inl current ↦
          (to_authenticated u d, d, ground (arith, there, live, named, version, current), refl)
      | inr old ↦ (
        to_authenticated (refreshed claims u) d,
        record d { staff = put staff_id (refreshed claims u) d.staff },
        ground (arith, there, live, named, version, old, free),
        refl,
      )
    ]

refreshed-email :
    (claims : TokenClaims) (u : StaffUser)
    → (claims.email ≡ none) ⊎ (claims.email ≡ some u.email)
    → (refreshed claims u).email ≡ u.email
unfolding refreshed
refreshed-email claims u (inl absent) = ground (arith, absent)
refreshed-email claims u (inr same) = ground (arith, same)

-- A token with the subject of an email and the first version, which carries that email or none, is
-- admitted by the account that is created under the email: it is answered with the new account,
-- whatever earlier account with that email it was minted for.
pub create_staff_admits :
    (lower hash : Text → Text) (secret : Text) (caller fresh later : ℕ) (dto : CreateStaffDto)
    (d d' : Directory) (claims : TokenClaims)
    → create_staff lower hash secret caller fresh dto d ≡ ok d'
    → claims.sub ≡ local_subject lower (lower dto.email)
    → (claims.email ≡ none) ⊎ (claims.email ≡ some (lower dto.email))
    → claims.tv ≡ some 1
    → (staff : AuthenticatedStaff) × (x : Directory) × (upsert_from_claims later claims d'
        ≡ ok (some staff, x))
      × (staff.id ≡ fresh)
unfolding refreshed
create_staff_admits lower hash secret caller fresh later dto d d' claims h s e v =
    let (missed, done) = create_staff_inv lower hash secret caller fresh d d' dto h in
    let u = created_staff lower hash secret caller fresh dto in
    let first : d'.staff ≡ u ∷ d.staff =
      ap (λ x. x.staff) (sym done) ∙ staff-log_audit caller (staff_created fresh) _ in
    newest_admitted later claims u d.staff d' first
      (rw first (
        is_unique-cons (refreshed claims u) u d.staff refl (
          account_with-is_unique (refreshed claims u) d.staff
            (rw (refreshed-email claims u e) missed))))
      refl (rw s (local_subject-same_text lower (lower dto.email)))
      (rw s (same_text_refl (local_subject lower (lower dto.email)))) v
