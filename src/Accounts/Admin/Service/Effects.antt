-- ===== src/Accounts/Admin/Service/Effects.antt =====
-- What a request to src/admin/admin.service.ts on an account has checked and written.
use cimp.Prelude.{
  ℕ, ◌+◌, true, false, not, List, [], ◌∷◌, ◌≡◌, refl, Option, none, some, ◌==◌, arith, ◌≤◌, select,
  map, or_else, is_none,
}
use cimp.Prelude.Table.{find, put, remove}
use cimp.Prelude.Text.{Text, same_text}
use cimp.Domain.{
  AccountStatus, is_active, ok, require, found, conflict, bad_request, not_found, staff_not_found,
  server_error, unique_violation, email_taken, own_delete,
}
use cimp.Domain.Results.{>>=-eq-ok, >>-eq-ok, ok-injective, found-eq-ok}
use cimp.Accounts.Rows.{
  AdminAction, staff_created, staff_updated, staff_deleted, staff_password_set, StaffUser,
  Directory, staff_id,
}
use cimp.Accounts.Admin.{
  CreateStaffDto, UpdateStaffDto, assert_not_last_admin, assert_may_disable, with_status, log_audit,
  is_unique, account_with, local_subject,
}
use cimp.Accounts.Admin.Service.{
  with_email, update_staff, delete_staff, set_staff_password, create_staff, created_staff,
  unassigned,
}

-- An account that the look-up of its email and subject misses meets no unique index.
pub account_with-is_unique :
    (u : StaffUser) (us : List StaffUser)
    → account_with u.email u.idp_subject us ≡ none
    → is_unique u us ≡ true
unfolding account_with is_unique
account_with-is_unique u [] h = refl
account_with-is_unique u (v ∷ us) h = ground (arith, h, account_with-is_unique u us)

pub is_unique-cons :
    (u v : StaffUser) (us : List StaffUser)
    → v.id ≡ u.id
    → is_unique u us ≡ true
    → is_unique u (v ∷ us) ≡ true
unfolding is_unique
is_unique-cons u v us same h = ground (arith, h, same)

pub local_subject-same_text :
    (lower : Text → Text) (email : Text) → same_text (local_subject lower email) [] ≡ false
unfolding local_subject same_text
local_subject-same_text lower email = refl

module _ (lower hash : Text → Text) (secret : Text) (caller fresh : ℕ) (d d' : Directory) where
  pub update_staff_inv :
      (id : ℕ) (dto : UpdateStaffDto)
      → update_staff lower hash secret caller fresh id dto d ≡ ok d'
      → (u : StaffUser) × (k : StaffUser) × (find staff_id id d.staff ≡ some u)
        × (assert_may_disable caller u dto.status d ≡ ok tt)
        × (with_email lower hash secret caller fresh dto.email
              (record u { name = or_else dto.name u.name })
              d
            ≡ ok k)
        × (log_audit caller
              (staff_updated id)
              (record d { staff = put staff_id (with_status dto.status k) d.staff })
            ≡ d')
  unfolding update_staff
  update_staff_inv id dto h =
      let (u, loaded, rest) =
        >>=-eq-ok (found (find staff_id id d.staff) (not_found staff_not_found)) _ h in
      let there = found-eq-ok (find staff_id id d.staff) (not_found staff_not_found) loaded in
      let may : assert_may_disable caller u dto.status d ≡ ok tt = ground (arith, rest) in
      let (k, keyed, made) =
        >>=-eq-ok
          (with_email lower hash secret caller fresh dto.email
            (record u { name = or_else dto.name u.name }) d)
          _ (>>-eq-ok (assert_may_disable caller u dto.status d) _ rest) in
      let done = ok-injective (
        >>-eq-ok
          (require (is_unique (with_status dto.status k) d.staff) (server_error unique_violation)) _
          made) in
      (u, k, there, may, keyed, done)

  pub delete_staff_inv :
      (id : ℕ)
      → delete_staff lower hash secret caller fresh id d ≡ ok d'
      → (u : StaffUser) × (find staff_id id d.staff ≡ some u)
        × (assert_not_last_admin u.id d ≡ ok tt)
        × (log_audit caller (staff_deleted id) (record d {
          staff = remove staff_id id d.staff;
          grants = select (λ g. not (g.staff_user == id)) d.grants;
          issues = map (unassigned id) d.issues;
        })
            ≡ d')
  unfolding delete_staff
  delete_staff_inv id h =
      let (u, loaded, rest) =
        >>=-eq-ok (found (find staff_id id d.staff) (not_found staff_not_found)) _ h in
      let there = found-eq-ok (find staff_id id d.staff) (not_found staff_not_found) loaded in
      let may : assert_not_last_admin u.id d ≡ ok tt = ground (arith, rest) in
      let done = ok-injective (
        >>-eq-ok (assert_not_last_admin u.id d) _
          (>>-eq-ok (require (not (u.id == caller)) (bad_request own_delete)) _ rest)) in
      (u, there, may, done)

  pub set_staff_password_inv :
      (id : ℕ) (password : Text)
      → set_staff_password lower hash secret caller fresh id password d ≡ ok d'
      → (u : StaffUser) × (find staff_id id d.staff ≡ some u)
        × (log_audit caller (staff_password_set id) (record d {
          staff =
              put staff_id
                (record u {
                  password_hash = some (hash password);
                  token_version = u.token_version + 1;
                })
                d.staff;
        })
            ≡ d')
  unfolding set_staff_password
  set_staff_password_inv id password h =
      let (u, loaded, rest) =
        >>=-eq-ok (found (find staff_id id d.staff) (not_found staff_not_found)) _ h in
      let there = found-eq-ok (find staff_id id d.staff) (not_found staff_not_found) loaded in
      (u, there, ok-injective rest)

  pub create_staff_inv :
      (dto : CreateStaffDto)
      → create_staff lower hash secret caller fresh dto d ≡ ok d'
      → (account_with (lower dto.email) (local_subject lower (lower dto.email)) d.staff ≡ none)
        × (log_audit caller
              (staff_created fresh)
              (record d { staff = created_staff lower hash secret caller fresh dto ∷ d.staff })
            ≡ d')
  unfolding create_staff
  create_staff_inv dto h = (
    ground (arith, h),
    ok-injective (
        >>-eq-ok
          (require
            (is_none
              (account_with (lower dto.email) (local_subject lower (lower dto.email)) d.staff))
            (conflict email_taken))
          _ h),
  )

  -- A change of the email keeps the row's id and status, and counts its version up if the email is
  -- another.
  pub with_email_inv :
      (email : Option Text) (u k : StaffUser)
      → with_email lower hash secret caller fresh email u d ≡ ok k
      → (k.id ≡ u.id) × (k.status ≡ u.status) × (u.token_version ≤ k.token_version)
  unfolding with_email
  with_email_inv none u k h = (ground (arith, h), ground (arith, h), ground (arith, h))
  with_email_inv (some email) u k h = (ground (arith, h), ground (arith, h), ground (arith, h))

  pub with_email-version :
      (email : Text) (u k : StaffUser)
      → same_text (lower email) u.email ≡ false
      → with_email lower hash secret caller fresh (some email) u d ≡ ok k
      → k.token_version ≡ u.token_version + 1
  unfolding with_email
  with_email-version email u k other h = ground (arith, h, other)

pub with_status_inv :
    (st : Option AccountStatus) (u : StaffUser)
    → ((with_status st u).id ≡ u.id) × (u.token_version ≤ (with_status st u).token_version)
unfolding with_status
with_status_inv st u = (ground arith, ground arith)

pub with_status-version :
    (st : Option AccountStatus) (u : StaffUser)
    → st ≡ some AccountStatus.disabled
    → is_active u.status ≡ true
    → (with_status st u).token_version ≡ u.token_version + 1
unfolding with_status
with_status-version st u h live = ground (arith, h, live)

pub staff-log_audit :
    (actor : ℕ) (action : AdminAction) (d : Directory) → (log_audit actor action d).staff ≡ d.staff
unfolding log_audit
staff-log_audit actor action d = refl
