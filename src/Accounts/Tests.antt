-- ===== src/Accounts/Tests.antt =====
-- The administration and the login at concrete requests (src/admin/admin.service.ts,
-- src/auth/auth.service.ts and local-auth.service.ts).
use cimp.Prelude.{Bool, true, [], ◌∷◌, ◌≡◌, refl, Option, none, some, arith, inr, if◌then◌else◌}
use cimp.Prelude.Table.{find}
use cimp.Prelude.Text.{Text, codes, same_text}
use cimp.Domain.{admin, focal_point, is_active, AccountStatus, ok}
use cimp.Authz.{AuthenticatedStaff}
use cimp.Accounts.Rows.{staff_created, StaffUser, Directory, staff_password_set, staff_id}
use cimp.Accounts.Admin.{CreateStaffDto, local_subject}
use cimp.Accounts.Admin.Service.{Request, post_password, handle, create_staff}
use cimp.Accounts.Admin.Service.Governed.{handle-IsGoverned}
use cimp.Accounts.Admin.Service.Operations.{IsGoverned}
use cimp.Accounts.Sessions.{
  TokenClaims, Payload, with_subject, is_local, upsert_from_claims, login, verify_token,
  sign_sse_ticket, verify_sse_ticket, with_mail, to_authenticated,
}
use cimp.Accounts.Sessions.Revoked.{IsOnly, session_revoked}
use cimp.Accounts.Sessions.Login.{IsJwt, AreIdentified, verify_token-login, tokens_single_purpose}
use cimp.Accounts.Sessions.Reused.{create_staff_admits}

abbrev plain : Text → Text
plain s = s

abbrev ada : StaffUser
ada = record {
  id = 1;
  idp_subject = codes "local:ada";
  name = codes "Ada";
  email = codes "ada";
  password_hash = some (codes "pw");
  status = AccountStatus.active;
  token_version = 3;
}

abbrev bob : StaffUser
bob = record {
  id = 2;
  idp_subject = codes "local:bob";
  name = codes "Bob";
  email = codes "bob";
  password_hash = some (codes "pw");
  status = AccountStatus.active;
  token_version = 1;
}

abbrev office : Directory
office = record {
  platforms = [];
  staff = ada ∷ bob ∷ [];
  grants =
      record { id = 5; staff_user = 1; platform = none; role = admin }
      ∷ record { id = 6; staff_user = 2; platform = some 7; role = focal_point }
      ∷ [];
  issues = [];
  audit = [];
}

abbrev reset_bob : Request
reset_bob = post_password 2 (codes "new")

abbrev after_reset : Directory
after_reset = record office {
  staff = ada ∷ record bob { password_hash = some (codes "new"); token_version = 2 } ∷ [];
  audit = record { actor = 1; action = staff_password_set 2 } ∷ [];
}

reset_bob_runs : handle plain plain (codes "s") 1 9 reset_bob office ≡ ok after_reset
unfolding handle
reset_bob_runs = refl

office-IsGoverned : IsGoverned office
unfolding handle
office-IsGoverned = record {
  has_admin = refl;
  scoped = (
    record { focal_scoped = λ h. ground (arith, h); admin_global = λ h. refl },
    (record { focal_scoped = λ h. refl; admin_global = λ h. ground (arith, h) }, tt),
  );
}

handle-IsGoverned_example : IsGoverned after_reset
handle-IsGoverned_example =
    handle-IsGoverned plain plain (codes "s") 1 9 reset_bob office after_reset reset_bob_runs
      office-IsGoverned

abbrev old_token : TokenClaims
old_token = record {
  sub = codes "local:bob";
  name = some (codes "Bob");
  email = some (codes "bob");
  tv = some 1;
}

bob-IsOnly : IsOnly bob office.staff
unfolding handle
bob-IsOnly = record {
  keyed = (refl, (refl, tt));
  only = ((λ h. ground (arith, h)), ((λ h. refl), tt));
}

bob_there : find staff_id 2 office.staff ≡ some bob
unfolding find
bob_there = refl

bob_is_local : is_local bob.idp_subject ≡ true
unfolding is_local
bob_is_local = refl

session_revoked_example : upsert_from_claims 9 old_token after_reset ≡ ok (none, after_reset)
session_revoked_example =
    session_revoked plain plain (codes "s") 1 9 office after_reset old_token 9 bob reset_bob
      bob_there bob-IsOnly bob_is_local (refl, refl) refl reset_bob_runs

-- A token that is its payload, and reads as it was signed.
abbrev sign : Payload → Payload
sign p = p

abbrev for_audience : Text → Option Text → Payload → Option Payload
for_audience a none p = none
for_audience a (some b) p = if same_text a b then some p else none

abbrev verify : Option Text → Payload → Option Payload
verify none p = some p
verify (some a) p = for_audience a p.aud p

abbrev compare : Text → Text → Bool
compare password hash = same_text password hash

sign-IsJwt : IsJwt sign verify
sign-IsJwt = record { signed = λ p. refl; audience = λ a p h. rw h }

office-AreIdentified : AreIdentified office
unfolding handle with_subject
office-AreIdentified = ((refl, refl), ((refl, refl), tt))

abbrev bob_token : Payload
bob_token = record {
  sub = some (codes "local:bob");
  name = some (codes "Bob");
  email = some (codes "bob");
  tv = some 1;
  aud = none;
}

bob_logs_in : login sign verify true plain compare (codes "bob") (codes "pw") office ≡ ok bob_token
unfolding login same_text
bob_logs_in = refl

verify_token-login_example :
    (u : StaffUser) × (with_mail sign verify true plain (codes "bob") office.staff ≡ some u)
    × (is_active u.status ≡ true)
    × (verify_token sign verify true 9 bob_token office
        ≡ (some (to_authenticated u office), office))
verify_token-login_example =
    verify_token-login sign verify true sign-IsJwt plain compare (codes "bob") (codes "pw") 9 office
      bob_token office-AreIdentified bob_logs_in

abbrev bob_ticket : Payload
bob_ticket = record {
  sub = some (codes "local:bob");
  name = none;
  email = none;
  tv = some 1;
  aud = some (codes "sse");
}

bob_takes_ticket : sign_sse_ticket sign verify true (codes "local:bob") office ≡ some bob_ticket
unfolding sign_sse_ticket
bob_takes_ticket = refl

tokens_single_purpose_example :
    (verify_token sign verify true 9 bob_ticket office ≡ (none, office))
    × (verify_sse_ticket sign verify true 9 bob_token office ≡ (none, office))
tokens_single_purpose_example =
    tokens_single_purpose sign verify true sign-IsJwt (codes "local:bob") plain compare
      (codes "bob") (codes "pw") 9 office office bob_ticket bob_token bob_takes_ticket bob_logs_in

-- Bob's account, after it was deleted and his email was given to another person.
abbrev no_bob : Directory
no_bob = record office {
  staff = ada ∷ [];
  grants = record { id = 5; staff_user = 1; platform = none; role = admin } ∷ [];
}

abbrev bobby : CreateStaffDto
bobby = record { name = codes "Bobby"; email = codes "bob"; password = codes "other" }

abbrev with_bobby : Directory
with_bobby = record no_bob {
  staff =
      record {
        id = 9;
        idp_subject = codes "local:bob";
        name = codes "Bobby";
        email = codes "bob";
        password_hash = some (codes "other");
        status = AccountStatus.active;
        token_version = 1;
      }
      ∷ ada
      ∷ [];
  audit = record { actor = 1; action = staff_created 9 } ∷ [];
}

bobby_joins : create_staff plain plain (codes "s") 1 9 bobby no_bob ≡ ok with_bobby
unfolding handle
bobby_joins = refl

bob_subject : old_token.sub ≡ local_subject plain (codes "bob")
unfolding handle
bob_subject = refl

create_staff_admits_example :
    (staff : AuthenticatedStaff) × (x : Directory) × (upsert_from_claims 12 old_token with_bobby
      ≡ ok (some staff, x))
    × (staff.id ≡ 9)
create_staff_admits_example =
    create_staff_admits plain plain (codes "s") 1 9 12 bobby no_bob with_bobby old_token bobby_joins
      bob_subject (inr refl) refl
