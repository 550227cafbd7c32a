-- ===== src/Accounts/Handoff/Rotated.antt =====
-- A new secret (rotateHandoffSecret of src/admin/admin.service.ts) cuts off the tokens of the old
-- one (src/handoff/handoff.service.ts).
use mathlib.Core.Path.{subst}
use cimp.Prelude.{
  ℕ, false, ◌&&◌, List, [], ◌∷◌, ◌≡◌, ◌≢◌, refl, sym, ap, ◌∙◌, Option, none, some, ◌==◌, arith, ◌⊎◌,
  inl, inr, Bool-cases, is_some, ==_iff,
}
use cimp.Prelude.Table.{find, put, find-key, IsKeyed}
use cimp.Prelude.Text.{Text, same_text}
use cimp.Domain.{
  ok, require, found, not_found, unauthorized, missing_handoff, missing_platform_key,
  inactive_platform, invalid_handoff, missing_expiry, missing_claims, platform_not_found,
}
use cimp.Domain.Results.{
  >>=-eq-ok, >>-eq-ok, >>-eq-ok_first, ok-injective, found-eq-ok, require-eq-ok,
}
use cimp.Accounts.Rows.{Platform, Directory, platform_id}
use cimp.Accounts.Admin.{platform_with_key, log_audit}
use cimp.Accounts.Admin.Service.{rotate_secret}
use cimp.Portal.Rows.{HandoffContext}
use cimp.Portal.Reads.{is_truthy}
use cimp.Accounts.Handoff.{HandoffClaims, is_open, claimed_key, verify_against, verify}

-- The row of a key is none that the table does not have.
platform_with_key_other :
    (key : Text) (k : ℕ) (r : Platform) (ps : List Platform)
    → platform_with_key key ps ≡ some r
    → find platform_id k ps ≡ none
    → (r.id == k) ≡ false
unfolding find platform_with_key
platform_with_key_other key k r [] h absent = absurd (cc h)
platform_with_key_other key k r (p ∷ ps) h absent = elim (Bool-cases (same_text p.key key)) [
  | inl here ↦
      let same : p ≡ r = ground (arith, h, here) in
      subst (λ x. (x.id == k) ≡ false) same (ground (arith, absent))
  | inr other ↦
      platform_with_key_other key k r ps (ground (arith, h, other)) (ground (arith, absent))
]

-- A write of one platform that keeps its key: the row of a key is that one, or it is the row that
-- the key had, of another platform.
platform_with_key-put :
    (key : Text) (old new r : Platform) (ps : List Platform)
    → IsKeyed platform_id ps
    → find platform_id new.id ps ≡ some old
    → new.key ≡ old.key
    → platform_with_key key (put platform_id new ps) ≡ some r
    → (r ≡ new) ⊎ (((r.id == new.id) ≡ false) × (platform_with_key key ps ≡ some r))
unfolding find put platform_with_key
platform_with_key-put key old new r [] keyed there same h = absurd (cc there)
platform_with_key-put key old new r (p ∷ ps) (k, ks) there same h =
    elim (Bool-cases (p.id == new.id)) [
      | inl here ↦
          let it : p ≡ old = ground (arith, there, here) in
          let same_id : p.id ≡ new.id = ground (arith, here) in
          let kept : platform_with_key key (new ∷ ps) ≡ some r = ground (arith, h, here) in
          elim (Bool-cases (same_text new.key key)) [
            | inl taken ↦ inl (ground (arith, kept, taken))
            | inr passed ↦
                let later : platform_with_key key ps ≡ some r = ground (arith, kept, passed) in
                let p_passed : same_text p.key key ≡ false =
                  ap (λ x. same_text x.key key) it
                  ∙ (ap (λ x. same_text x key) (sym same) ∙ passed) in
                inr (
                  subst (λ j. (r.id == j) ≡ false) same_id
                      (platform_with_key_other key p.id r ps later k),
                  rw p_passed later,
                )
          ]
      | inr other ↦
          let kept : platform_with_key key (p ∷ put platform_id new ps) ≡ some r =
            ground (arith, h, other) in
          elim (Bool-cases (same_text p.key key)) [
            | inl taken ↦
                let it : p ≡ r = ground (arith, kept, taken) in
                inr (subst (λ x. (x.id == new.id) ≡ false) it other, rw taken (ap some it))
            | inr passed ↦ rw passed (
                platform_with_key-put key old new r ps ks (ground (arith, there, other)) same
                  (ground (arith, kept, passed)))
          ]
    ]

-- `IsSigned token secret` says that the token bears a signature under the secret, which the
-- verification makes sure of.
module _ (trim lower : Text → Text) (decode : Text → Option HandoffClaims)
    (jwt_verify : Text → Text → Option HandoffClaims) (IsSigned : Text → Text → Type 0)
    (sound : (token secret : Text) (c : HandoffClaims)
      → jwt_verify token secret ≡ some c
      → IsSigned token secret) where
  verify_inv :
      (token : Text) (d : Directory) (ctx : HandoffContext)
      → verify trim lower decode jwt_verify token d ≡ ok ctx
      → (key : Text) × (p : Platform) × (platform_with_key key d.platforms ≡ some p)
        × (verify_against trim lower decode jwt_verify p token ≡ ok ctx)
        × ((d' : Directory)
            → platform_with_key key d'.platforms ≡ some p
            → verify trim lower decode jwt_verify token d' ≡ ok ctx)
  unfolding verify
  verify_inv token d ctx h =
      let here = require (is_truthy (some token)) (unauthorized missing_handoff) in
      let present = require-eq-ok _ (unauthorized missing_handoff) (>>-eq-ok_first here _ h) in
      let (key, keyed, h1) =
        >>=-eq-ok (found (claimed_key (decode token)) (unauthorized missing_platform_key)) _
          (>>-eq-ok here _ h) in
      let (p, there, checked) =
        >>=-eq-ok (found (platform_with_key key d.platforms) (unauthorized inactive_platform)) _
          h1 in
      let claimed =
        found-eq-ok (claimed_key (decode token)) (unauthorized missing_platform_key) keyed in
      (
        key,
        p,
        found-eq-ok (platform_with_key key d.platforms) (unauthorized inactive_platform) there,
        checked,
        λ d' again. rw (present, claimed, again) checked,
      )

  verify_against_inv :
      (p : Platform) (token : Text) (ctx : HandoffContext)
      → verify_against trim lower decode jwt_verify p token ≡ ok ctx
      → (ctx.platform ≡ p.id) × IsSigned token p.handoff_secret
  unfolding verify_against
  verify_against_inv p token ctx h =
      let (claims, read, h1) =
        >>=-eq-ok (found (jwt_verify token p.handoff_secret) (unauthorized invalid_handoff)) _
          (>>-eq-ok (require (is_open p.status) (unauthorized inactive_platform)) _ h) in
      let h2 = >>-eq-ok (require (is_some claims.expires) (unauthorized missing_expiry)) _ h1 in
      let made =
        >>-eq-ok
          (require (is_truthy claims.portal_user && is_truthy claims.email && is_truthy claims.name)
            (unauthorized missing_claims))
          _ h2 in
      let same = ok-injective made in
      (
        sym (ap (λ c. c.platform) same),
        sound token p.handoff_secret claims
            (found-eq-ok (jwt_verify token p.handoff_secret) (unauthorized invalid_handoff) read),
      )

  -- After the secret of a platform was replaced, a hand-off token that is accepted either bears a
  -- signature under the new secret and is for that platform, or is for another platform and is
  -- accepted as it was before. The platforms have distinct ids, and a token that the library
  -- verifies under a secret bears a signature under it.
  pub rotate_secret-verify :
      (lower_email hash : Text → Text) (secret : Text) (caller fresh id : ℕ) (d d' : Directory)
      (token : Text) (ctx : HandoffContext)
      → IsKeyed platform_id d.platforms
      → rotate_secret lower_email hash secret caller fresh id d ≡ ok d'
      → verify trim lower decode jwt_verify token d' ≡ ok ctx
      → ((ctx.platform ≡ id) × IsSigned token secret)
        ⊎ ((ctx.platform ≢ id) × (verify trim lower decode jwt_verify token d ≡ ok ctx))
  unfolding rotate_secret log_audit
  rotate_secret-verify lower_email hash secret caller fresh id d d' token ctx keyed h v =
      let (old, there, made) =
        >>=-eq-ok (found (find platform_id id d.platforms) (not_found platform_not_found)) _ h in
      let stands =
        found-eq-ok (find platform_id id d.platforms) (not_found platform_not_found) there in
      let own : old.id ≡ id = find-key platform_id id d.platforms old stands in
      let new : Platform = record old { handoff_secret = secret } in
      let written : put platform_id new d.platforms ≡ d'.platforms =
        ap (λ x. x.platforms) (ok-injective made) in
      let (key, p, found_p, checked, again) = verify_inv token d' ctx v in
      let (home, signed) = verify_against_inv p token ctx checked in
      elim (platform_with_key-put key old new p d.platforms keyed
        (ap (λ k. find platform_id k d.platforms) own ∙ stands) refl
        (ap (platform_with_key key) written ∙ found_p)) [
          | inl same ↦ inl (
            home ∙ (ap (λ x. x.id) same ∙ own),
            subst (λ s. IsSigned token s) (ap (λ x. x.handoff_secret) same) signed,
          )
          | inr (other, before) ↦ inr (
            λ clash. absurd (cc (other, (==_iff p.id old.id).1 (sym home ∙ (clash ∙ sym own)))),
            again d before,
          )
        ]
