-- ===== src/Accounts/Sessions/Revoked.antt =====
-- When the sessions of an account end: src/auth/auth.service.ts after the requests of
-- src/admin/admin.service.ts.
use mathlib.Core.Path.{subst}
use cimp.Prelude.{
  ℕ, ◌≤◌, ◌+◌, true, false, List, [], ◌∷◌, ◌≡◌, refl, sym, ap, ◌∙◌, none, some, ◌==◌, arith, inl,
  inr, ◌⊎◌, Bool-cases, All, or_else,
}
use cimp.Prelude.Table.{find, put, remove, IsKeyed}
use cimp.Prelude.Text.{Text, same_text}
use cimp.Domain.{AccountStatus, is_active, ok}
use cimp.Accounts.Rows.{StaffUser, Directory, staff_id}
use cimp.Accounts.Admin.{UpdateStaffDto, with_status}
use cimp.Accounts.Admin.Service.{
  Request, post_platform, patch_platform, drop_platform, post_secret, post_staff, patch_staff,
  drop_staff, post_password, post_role, drop_role, handle, with_email,
}
use cimp.Accounts.Admin.Service.Effects.{
  update_staff_inv, delete_staff_inv, set_staff_password_inv, with_email_inv, with_email-version,
  with_status_inv, with_status-version,
}
use cimp.Accounts.Sessions.{
  TokenClaims, with_subject, is_local, admits, upsert_known, upsert_from_claims,
}

-- Ids are a primary key, and no other account has the subject of `u`.
pub record IsOnly (u : StaffUser) (us : List StaffUser) : Type 0 where
  pub keyed : IsKeyed staff_id us
  pub only : All (λ v. same_text v.idp_subject u.idp_subject ≡ true → v.id ≡ u.id) us

with_subject-none :
    (id : ℕ) (sub : Text) (us : List StaffUser)
    → find staff_id id us ≡ none
    → All (λ v. same_text v.idp_subject sub ≡ true → v.id ≡ id) us
    → with_subject sub us ≡ none
unfolding with_subject find
with_subject-none id sub [] absent h = refl
with_subject-none id sub (v ∷ us) absent (h, hs) =
    ground (arith, h, absent, with_subject-none id sub us)

-- The changed row is the only one that the subject may still find.
with_subject-put :
    (sub : Text) (u : StaffUser) (us : List StaffUser)
    → IsKeyed staff_id us
    → All (λ v. same_text v.idp_subject sub ≡ true → v.id ≡ u.id) us
    → (with_subject sub (put staff_id u us) ≡ none)
      ⊎ (with_subject sub (put staff_id u us) ≡ some u)
unfolding with_subject put
with_subject-put sub u [] keyed h = inl refl
with_subject-put sub u (v ∷ us) (k, ks) (h, hs) = elim (Bool-cases (v.id == u.id)) [
  | inl here ↦
      let same : v.id ≡ u.id = ground (arith, here) in
      let gone = with_subject-none u.id sub us (rw same at k) hs in
      rw here (elim (Bool-cases (same_text u.idp_subject sub)) [
        | inl still ↦ inr (rw still)
        | inr changed ↦ inl (rw changed gone)
      ])
  | inr other ↦
      let foreign : same_text v.idp_subject sub ≡ false = ground (arith, h, other) in
      rw other (rw foreign (with_subject-put sub u us ks hs))
]

with_subject-remove :
    (sub : Text) (id : ℕ) (us : List StaffUser)
    → IsKeyed staff_id us
    → All (λ v. same_text v.idp_subject sub ≡ true → v.id ≡ id) us
    → with_subject sub (remove staff_id id us) ≡ none
unfolding with_subject remove
with_subject-remove sub id [] keyed h = refl
with_subject-remove sub id (v ∷ us) (k, ks) (h, hs) = elim (Bool-cases (v.id == id)) [
  | inl here ↦
      let same : v.id ≡ id = ground (arith, here) in
      rw here (with_subject-none id sub us (rw same at k) hs)
  | inr other ↦
      let foreign : same_text v.idp_subject sub ≡ false = ground (arith, h, other) in
      rw other (rw foreign (with_subject-remove sub id us ks hs))
]

-- A token is refused where its subject finds no account, or one that does not admit it.
refused :
    (fresh : ℕ) (claims : TokenClaims) (d : Directory) (u : StaffUser)
    → is_local claims.sub ≡ true
    → admits claims u ≡ false
    → (with_subject claims.sub d.staff ≡ none) ⊎ (with_subject claims.sub d.staff ≡ some u)
    → upsert_from_claims fresh claims d ≡ ok (none, d)
unfolding upsert_from_claims upsert_known
refused fresh claims d u local bad (inl absent) = ground (arith, local, absent)
refused fresh claims d u local bad (inr there) = ground (arith, bad, there)

refused-unknown :
    (fresh : ℕ) (claims : TokenClaims) (d : Directory)
    → is_local claims.sub ≡ true
    → with_subject claims.sub d.staff ≡ none
    → upsert_from_claims fresh claims d ≡ ok (none, d)
unfolding upsert_from_claims upsert_known
refused-unknown fresh claims d local absent = ground (arith, local, absent)

-- The requests that are to end the sessions of an account.
abbrev pub Revokes : (Text → Text) → StaffUser → Request → Type 0
Revokes lower u (post_password id password) = id ≡ u.id
Revokes lower u (drop_staff id) = id ≡ u.id
Revokes lower u (patch_staff id dto) =
    (id ≡ u.id)
    × (((dto.status ≡ some AccountStatus.disabled) × (is_active u.status ≡ true))
        ⊎ ((email : Text) × (dto.email ≡ some email) × (same_text (lower email) u.email ≡ false)))
Revokes lower u _ = ⊥

-- Tokens of the account as it was.
abbrev pub IsOld : TokenClaims → StaffUser → Type 0
IsOld claims u = (claims.sub ≡ u.idp_subject) × (claims.tv ≡ some u.token_version)

admits-older :
    (claims : TokenClaims) (u u' : StaffUser)
    → IsOld claims u
    → u.token_version + 1 ≤ u'.token_version
    → admits claims u' ≡ false
unfolding admits
admits-older claims u u' (same, version) newer = ground (arith, version, newer)

refused-put :
    (fresh : ℕ) (claims : TokenClaims) (u u' : StaffUser) (d d' : Directory)
    → IsOnly u d.staff
    → is_local u.idp_subject ≡ true
    → IsOld claims u
    → u'.id ≡ u.id
    → u.token_version + 1 ≤ u'.token_version
    → d'.staff ≡ put staff_id u' d.staff
    → upsert_from_claims fresh claims d' ≡ ok (none, d')
refused-put fresh claims u u' d d' only local old same newer put_there =
    refused fresh claims d' u' (rw old.0 local) (admits-older claims u u' old newer) (
      subst (λ us. (with_subject claims.sub us ≡ none) ⊎ (with_subject claims.sub us ≡ some u'))
        (sym put_there)
        (with_subject-put claims.sub u' d.staff only.keyed (rw (same, old.0) only.only)))

module _ (lower hash : Text → Text) (secret : Text) (caller fresh : ℕ) (d d' : Directory) where
  -- The version goes up where the account is disabled or its email changes.
  patched-version :
      (u k : StaffUser) (id : ℕ) (dto : UpdateStaffDto)
      → with_email lower hash secret caller fresh dto.email
          (record u { name = or_else dto.name u.name })
          d
        ≡ ok k
      → Revokes lower u (patch_staff id dto)
      → u.token_version + 1 ≤ (with_status dto.status k).token_version
  patched-version u k id dto keyed (same, inl (disabled, live)) =
      let (mine, kept, version) =
        with_email_inv lower hash secret caller fresh d d' dto.email
          (record u { name = or_else dto.name u.name }) k keyed in
      omega (arith, version, with_status-version dto.status k disabled (ap is_active kept ∙ live))
  patched-version u k id dto keyed (same, inr (email, given, other)) =
      let raised =
        with_email-version lower hash secret caller fresh d d' email
          (record u { name = or_else dto.name u.name }) k other
          (subst
            (λ e.
              with_email lower hash secret caller fresh e
                (record u { name = or_else dto.name u.name }) d
              ≡ ok k)
            given keyed) in
      omega (arith, raised, (with_status_inv dto.status k).1)

  module _ (claims : TokenClaims) (later : ℕ) (u : StaffUser) where
    -- The row that a request finds is the account's.
    found_mine :
        (id : ℕ) (v : StaffUser)
        → find staff_id u.id d.staff ≡ some u
        → id ≡ u.id
        → find staff_id id d.staff ≡ some v
        → v ≡ u
    found_mine id v mine same there =
        cc (subst (λ k. find staff_id k d.staff ≡ some v) same there, mine)

    -- A password reset, a disabling, a change of the email or a deletion by the administration ends
    -- every session of an account with a password login at once: a token with the subject and
    -- version that the account had is refused and changes nothing, if ids are a primary key and no
    -- other account has that subject.
    pub session_revoked :
        (r : Request)
        → find staff_id u.id d.staff ≡ some u
        → IsOnly u d.staff
        → is_local u.idp_subject ≡ true
        → IsOld claims u
        → Revokes lower u r
        → handle lower hash secret caller fresh r d ≡ ok d'
        → upsert_from_claims later claims d' ≡ ok (none, d')
    unfolding handle
    session_revoked (post_password id password) mine only local old same h =
        let (v, there, done) =
          set_staff_password_inv lower hash secret caller fresh d d' id password h in
        let it = found_mine id v mine same there in
        refused-put later claims u
          (record v { password_hash = some (hash password); token_version = v.token_version + 1 }) d
          d' only local old (ap staff_id it) (rw it (omega arith)) (ap (λ x. x.staff) (sym done))
    session_revoked (patch_staff id dto) mine only local old revokes h =
        let (v, k, there, may, keyed, done) =
          update_staff_inv lower hash secret caller fresh d d' id dto h in
        let it = found_mine id v mine revokes.0 there in
        let (same, kept, version) =
          with_email_inv lower hash secret caller fresh d d' dto.email
            (record v { name = or_else dto.name v.name }) k keyed in
        refused-put later claims u (with_status dto.status k) d d' only local old
          ((with_status_inv dto.status k).0 ∙ same ∙ ap staff_id it)
          (patched-version u k id dto (rw it at keyed) revokes) (ap (λ x. x.staff) (sym done))
    session_revoked (drop_staff id) mine only local old same h =
        let (v, there, may, done) = delete_staff_inv lower hash secret caller fresh d d' id h in
        let gone =
          with_subject-remove claims.sub id d.staff only.keyed (rw (same, old.0) only.only) in
        refused-unknown later claims d' (rw old.0 local) (
          subst (λ us. with_subject claims.sub us ≡ none) (sym (ap (λ x. x.staff) (sym done))) gone)
    session_revoked (post_platform dto) mine only local old revokes h = absurd revokes
    session_revoked (patch_platform id dto) mine only local old revokes h = absurd revokes
    session_revoked (drop_platform id) mine only local old revokes h = absurd revokes
    session_revoked (post_secret id) mine only local old revokes h = absurd revokes
    session_revoked (post_staff dto) mine only local old revokes h = absurd revokes
    session_revoked (post_role dto) mine only local old revokes h = absurd revokes
    session_revoked (drop_role id) mine only local old revokes h = absurd revokes
