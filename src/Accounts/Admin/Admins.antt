-- ===== src/Accounts/Admin/Admins.antt =====
-- What the writes of src/admin/admin.service.ts on accounts and grants do to the administrators.
use mathlib.Core.Path.{subst}
use cimp.Prelude.{
  ℕ, ◌+◌, Bool, true, false, not, ◌&&◌, List, ◌∷◌, ◌≡◌, refl, ap, ◌∙◌, Option, none, some, ◌==◌,
  arith, inl, inr, ==_iff, Bool-cases, All-intro, any, any_mono, any-select, select,
}
use cimp.Prelude.Table.{find, put, remove, find-cons, find-put_self, find-put_ne}
use cimp.Prelude.Table.Keys.{find-remove_ne}
use cimp.Domain.{
  AccountStatus, is_active, ok, require, conflict, bad_request, own_disable, last_admin,
}
use cimp.Domain.Results.{>>-eq-ok, require-eq-ok}
use cimp.Accounts.Rows.{StaffUser, UserPlatformRole, Directory, staff_id}
use cimp.Accounts.Admin.{
  is_active_staff, grants_admin, assert_not_last_admin, assert_may_disable, with_status,
}

-- An administrator other than the account `id`.
abbrev pub admin_beside : List StaffUser → ℕ → UserPlatformRole → Bool
admin_beside us id g = grants_admin us g && not (g.staff_user == id)

module _ (us : List StaffUser) (gs : List UserPlatformRole) where
  -- A new account is active.
  pub admin-create :
      (u : StaffUser)
      → is_active u.status ≡ true
      → any (grants_admin us) gs ≡ true
      → any (grants_admin (u ∷ us)) gs ≡ true
  unfolding grants_admin is_active_staff
  admin-create u fine h =
      any_mono (grants_admin us) (grants_admin (u ∷ us))
        (λ g old. ground (arith, old, fine, find-cons staff_id g.staff_user u us)) gs h

  -- An account that is changed, and is active if it was.
  pub admin-put :
      (old u : StaffUser)
      → find staff_id u.id us ≡ some old
      → (is_active old.status ≡ true → is_active u.status ≡ true)
      → any (grants_admin us) gs ≡ true
      → any (grants_admin (put staff_id u us)) gs ≡ true
  unfolding grants_admin is_active_staff
  admin-put old u there fine h =
      any_mono (grants_admin us) (grants_admin (put staff_id u us))
        (λ g was. elim (Bool-cases (u.id == g.staff_user)) [
          | inl here ↦
              let same : u.id ≡ g.staff_user = ground (arith, here) in
              let before : find staff_id g.staff_user us ≡ some old =
                subst (λ k. find staff_id k us ≡ some old) same there in
              let after : find staff_id g.staff_user (put staff_id u us) ≡ some u =
                subst (λ k. find staff_id k (put staff_id u us) ≡ some u) same
                  (find-put_self staff_id u us old there) in
              ground (arith, was, before, after, fine)
          | inr other ↦ ground (arith, was, find-put_ne staff_id g.staff_user u us other)
        ])
        gs h

  -- An account beside which there is an administrator.
  pub admin_beside-put :
      (u : StaffUser)
      → any (admin_beside us u.id) gs ≡ true
      → any (grants_admin (put staff_id u us)) gs ≡ true
  unfolding grants_admin is_active_staff
  admin_beside-put u h =
      any_mono (admin_beside us u.id) (grants_admin (put staff_id u us))
        (λ g was. ground (
          arith,
          was,
          find-put_ne staff_id g.staff_user u us,
          ==_iff u.id g.staff_user,
          ==_iff g.staff_user u.id,
        ))
        gs h

  pub admin_beside-remove :
      (id : ℕ)
      → any (admin_beside us id) gs ≡ true
      → any (grants_admin (remove staff_id id us)) (select (λ g. not (g.staff_user == id)) gs)
        ≡ true
  unfolding grants_admin is_active_staff
  admin_beside-remove id h =
      any_mono (admin_beside us id) (grants_admin (remove staff_id id us))
        (λ g was. ground (
          arith,
          was,
          find-remove_ne staff_id id g.staff_user us,
          ==_iff id g.staff_user,
          ==_iff g.staff_user id,
        ))
        (select (λ g. not (g.staff_user == id)) gs)
        (any-select (admin_beside us id) (λ g. not (g.staff_user == id)) gs
          (All-intro (λ g. admin_beside us id g ≡ true → not (g.staff_user == id) ≡ true)
            (λ g was. ground (arith, was)) gs)
          h)

-- What the checks of a change of status leave to be shown.
pub disabling-has_admin :
    (caller : ℕ) (st : Option AccountStatus) (u k : StaffUser) (d : Directory)
    → find staff_id u.id d.staff ≡ some u
    → k.id ≡ u.id
    → k.status ≡ u.status
    → assert_may_disable caller u st d ≡ ok tt
    → any (grants_admin d.staff) d.grants ≡ true
    → any (grants_admin (put staff_id (with_status st k) d.staff)) d.grants ≡ true
unfolding with_status assert_may_disable assert_not_last_admin
disabling-has_admin caller none u k d there same kept may h =
    admin-put d.staff d.grants u k (rw same there) (λ fine. rw kept fine) h
disabling-has_admin caller (some AccountStatus.active) u k d there same kept may h =
    admin-put d.staff d.grants u (record k { status = AccountStatus.active }) (rw same there)
      (λ fine. refl) h
disabling-has_admin caller (some AccountStatus.disabled) u k d there same kept may h =
    elim (Bool-cases (is_active u.status)) [
      | inl live ↦
          let others : any (admin_beside d.staff u.id) d.grants ≡ true =
            require-eq-ok (any (admin_beside d.staff u.id) d.grants) (conflict last_admin) (
              >>-eq-ok (require (not (u.id == caller)) (bad_request own_disable)) _
                (rw live at may)) in
          let still : is_active k.status ≡ true = ap is_active kept ∙ live in
          rw still (
            admin_beside-put d.staff d.grants
              (record k { status = AccountStatus.disabled; token_version = k.token_version + 1 })
              (rw same others))
      | inr gone ↦
          let still : is_active k.status ≡ false = ap is_active kept ∙ gone in
          rw still (admin-put d.staff d.grants u k (rw same there) (λ fine. cc (fine, gone)) h)
    ]
