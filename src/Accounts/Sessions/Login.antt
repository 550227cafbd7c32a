-- ===== src/Accounts/Sessions/Login.antt =====
-- What a token opens: src/auth/local-auth.service.ts.
use cimp.Prelude.{
  ℕ, Bool, true, false, List, [], ◌∷◌, ◌≡◌, refl, sym, ap, ◌∙◌, Option, none, some, arith, inl, inr,
  Bool-cases, Option-cases, All,
}
use mathlib.Core.Path.{subst}
use cimp.Prelude.Text.{Text, codes, same_text, same_text_refl}
use cimp.Domain.{
  is_active, ok, require, found, unauthorized, invalid_credentials, login_not_enabled,
  account_disabled,
}
use cimp.Domain.Results.{>>=-eq-ok, >>-eq-ok, ok-injective, found-eq-ok}
use cimp.Accounts.Rows.{StaffUser, Directory}
use cimp.Accounts.Sessions.{
  TokenClaims, Payload, Answer, with_subject, to_authenticated, admits, is_current, admit,
  upsert_known, upsert_from_claims, or_nobody, session_claims, answer_claims, verify_token,
  sign_sse_ticket, verify_sse_ticket, with_mail, session_payload, login,
}

-- What the services rely on of signed tokens: one that is not expired is read as it was signed, and
-- is not if an audience is asked for and it has none.
pub record IsJwt {Token : Type 0} (sign : Payload → Token)
    (verify : Option Text → Token → Option Payload) : Type 0 where
  pub signed : (p : Payload) → verify none (sign p) ≡ some p
  pub audience : (a : Text) (p : Payload) → p.aud ≡ none → verify (some a) (sign p) ≡ none

-- Every account is found by its subject, which is not empty.
abbrev pub AreIdentified : Directory → Type 0
AreIdentified d =
    All (λ u. (with_subject u.idp_subject d.staff ≡ some u) × (same_text u.idp_subject [] ≡ false))
      d.staff

module _ {Token : Type 0} (sign : Payload → Token) (verify : Option Text → Token → Option Payload)
    (enabled : Bool) (jwt : IsJwt sign verify) where
  -- A login that succeeds has found an active account, whose payload it has signed.
  login_inv :
      (lower : Text → Text) (compare : Text → Text → Bool) (email password : Text) (d : Directory)
      (token : Token)
      → login sign verify enabled lower compare email password d ≡ ok token
      → (enabled ≡ true)
        × ((u : StaffUser) × (with_mail sign verify enabled lower email d.staff ≡ some u)
            × (is_active u.status ≡ true)
            × (sign (session_payload sign verify enabled u) ≡ token))
  unfolding login
  login_inv lower compare email password d token h =
      let on = >>-eq-ok (require enabled (unauthorized login_not_enabled)) _ h in
      let (u, loaded, rest) =
        >>=-eq-ok
          (found (with_mail sign verify enabled lower email d.staff)
            (unauthorized invalid_credentials))
          _ on in
      let (hash, has, checked) =
        >>=-eq-ok (found u.password_hash (unauthorized invalid_credentials)) _ rest in
      let last =
        >>-eq-ok (require (compare password hash) (unauthorized invalid_credentials)) _ checked in
      (
        ground (arith, h),
        (
          u,
          found-eq-ok (with_mail sign verify enabled lower email d.staff)
              (unauthorized invalid_credentials) loaded,
          ground (arith, last),
          ok-injective
              (>>-eq-ok (require (is_active u.status) (unauthorized account_disabled)) _ last),
        ),
      )

  claims_of : StaffUser → TokenClaims
  claims_of u = record {
    sub = u.idp_subject;
    name = some u.name;
    email = some u.email;
    tv = some u.token_version;
  }

  session_claims-payload :
      (s : Text) (name email : Option Text) (tv : Option ℕ)
      → same_text s [] ≡ false
      → session_claims sign verify enabled
          (record { sub = some s; name = name; email = email; tv = tv; aud = none })
        ≡ some (record { sub = s; name = name; email = email; tv = tv })
  unfolding session_claims same_text
  session_claims-payload [] name email tv h = absurd (cc h)
  session_claims-payload (c ∷ s) name email tv h = refl

  upsert-claims_of :
      (fresh : ℕ) (u : StaffUser) (d : Directory)
      → same_text u.idp_subject [] ≡ false
      → with_subject u.idp_subject d.staff ≡ some u
      → is_active u.status ≡ true
      → upsert_from_claims fresh (claims_of u) d ≡ ok (some (to_authenticated u d), d)
  unfolding upsert_from_claims upsert_known admits admit is_current claims_of
  upsert-claims_of fresh u d named there live =
      ground (arith, named, there, live, same_text_refl u.name, same_text_refl u.email)

  with_mail-All :
      (P : StaffUser → Type 0) (lower : Text → Text) (email : Text) (us : List StaffUser)
      (u : StaffUser)
      → All P us
      → with_mail sign verify enabled lower email us ≡ some u
      → P u
  unfolding with_mail
  with_mail-All P lower email [] u h e = absurd (cc e)
  with_mail-All P lower email (v ∷ us) u (h, hs) e =
      elim (Bool-cases (same_text (lower v.email) (lower email))) [
        | inl here ↦ let same : v ≡ u = ground (arith, here, e) in subst P same h
        | inr other ↦ with_mail-All P lower email us u hs (ground (arith, other, e))
      ]

  verify_token_steps :
      (fresh : ℕ) (token : Token) (d : Directory) (p : Payload) (c : TokenClaims) (a : Answer)
      → enabled ≡ true
      → verify none token ≡ some p
      → session_claims sign verify enabled p ≡ some c
      → upsert_from_claims fresh c d ≡ ok a
      → verify_token sign verify enabled fresh token d ≡ a
  unfolding verify_token answer_claims or_nobody
  verify_token_steps fresh token d p c a on read shaped answered =
      ground (arith, on, read, shaped, answered)

  -- The token of a login is a session of the account with that email, which is active: the check of
  -- a request answers with that account and changes nothing, as long as the token is not expired
  -- and nothing is written. Every account is to be found by its subject, which is not empty.
  pub verify_token-login :
      (lower : Text → Text) (compare : Text → Text → Bool) (email password : Text) (fresh : ℕ)
      (d : Directory) (token : Token)
      → AreIdentified d
      → login sign verify enabled lower compare email password d ≡ ok token
      → (u : StaffUser) × (with_mail sign verify enabled lower email d.staff ≡ some u)
        × (is_active u.status ≡ true)
        × (verify_token sign verify enabled fresh token d ≡ (some (to_authenticated u d), d))
  verify_token-login lower compare email password fresh d token identified h =
      let (on, (u, there, live, made)) = login_inv lower compare email password d token h in
      let (unique, named) =
        with_mail-All
          (λ u.
            (with_subject u.idp_subject d.staff ≡ some u) × (same_text u.idp_subject [] ≡ false))
          lower email d.staff u identified there in
      (
        u,
        there,
        live,
        verify_token_steps fresh token d (session_payload sign verify enabled u) (claims_of u)
            (some (to_authenticated u d), d) on
            (ap (verify none) (sym made) ∙ jwt.signed (session_payload sign verify enabled u))
            (unfold session_payload claims_of in
              session_claims-payload u.idp_subject (some u.name) (some u.email)
                (some u.token_version) named)
            (upsert-claims_of fresh u d named unique live),
      )

  ticket_payload : Text → ℕ → Payload
  ticket_payload subject version = record {
    sub = some subject;
    name = none;
    email = none;
    tv = some version;
    aud = some (codes "sse");
  }

  sign_sse_ticket_inv :
      (subject : Text) (d : Directory) (ticket : Token)
      → sign_sse_ticket sign verify enabled subject d ≡ some ticket
      → (version : ℕ) × (sign (ticket_payload subject version) ≡ ticket)
  unfolding sign_sse_ticket ticket_payload
  sign_sse_ticket_inv subject d ticket h = elim (Option-cases (with_subject subject d.staff)) [
    | inl absent ↦ absurd (ground (arith, h, absent))
    | inr (u, there) ↦ (u.token_version, ground (arith, h, there))
  ]

  -- The two kinds of token are not interchangeable, whatever is written after they were made: a
  -- ticket for the event stream opens no session, and the token of a login opens no stream.
  pub tokens_single_purpose :
      (subject : Text) (lower : Text → Text) (compare : Text → Text → Bool) (email password : Text)
      (fresh : ℕ) (d d' : Directory) (ticket token : Token)
      → sign_sse_ticket sign verify enabled subject d ≡ some ticket
      → login sign verify enabled lower compare email password d ≡ ok token
      → (verify_token sign verify enabled fresh ticket d' ≡ (none, d'))
        × (verify_sse_ticket sign verify enabled fresh token d' ≡ (none, d'))
  unfolding verify_token verify_sse_ticket session_claims answer_claims session_payload
      ticket_payload
  tokens_single_purpose subject lower compare email password fresh d d' ticket token s l =
      let (version, made) = sign_sse_ticket_inv subject d ticket s in
      let (on, (u, there, live, signed)) = login_inv lower compare email password d token l in
      let read : verify none ticket ≡ some (ticket_payload subject version) =
        ap (verify none) (sym made) ∙ jwt.signed (ticket_payload subject version) in
      let unread : verify (some (codes "sse")) token ≡ none =
        ap (verify (some (codes "sse"))) (sym signed)
        ∙ jwt.audience (codes "sse") (session_payload sign verify enabled u) refl in
      (rw (on, read), rw (on, unread))
