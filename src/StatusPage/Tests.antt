-- ===== src/StatusPage/Tests.antt =====
-- The status page at concrete requests (src/status/status.service.ts).
use cimp.Prelude.{◌≢◌, ℕ, ◌≡◌, ◌≢◌, refl, String, true, [], ◌∷◌, none, some, arith}
use cimp.Prelude.Table.{find, find-All}
use cimp.Domain.{ok, developer}
use cimp.Authz.{AuthenticatedStaff}
use cimp.StatusPage.Rows.{
  degraded, monitoring, resolved, minor, active, Platform, StatusComponent, StatusIncident,
  StatusIncidentUpdate, Board, incident_id,
}
use cimp.StatusPage.Staff.{Request, post_update, handle}
use cimp.StatusPage.Staff.Writes.{IsFresh}
use cimp.StatusPage.Staff.Sound.{IsSound, IsSoundIncident, handle-IsSound}
use cimp.StatusPage.Public.Banner.{IsHonest, public_status-IsHonest}
use cimp.StatusPage.Public.{
  PublicStatus, component_view, incident_view, overall_status, page_of, public_status, with_key,
}
use cimp.StatusPage.Public.Isolation.{handle-public_status}

abbrev alpha : Platform
alpha = record { id = 7; key = "alpha"; name = "Alpha"; status = active }

abbrev beta : Platform
beta = record { id = 8; key = "beta"; name = "Beta"; status = active }

abbrev component : ℕ → ℕ → StatusComponent
component id platform = record {
  id = id;
  platform = platform;
  name = "API";
  description = none;
  status = degraded;
  position = 0;
}

abbrev incident : ℕ → ℕ → ℕ → StatusIncident
incident id platform part = record {
  id = id;
  platform = platform;
  title = "Slow";
  status = monitoring;
  impact = minor;
  components = part ∷ [];
  started_at = 100;
  resolved_at = none;
  created_by = 40;
}

abbrev opening : ℕ → ℕ → StatusIncidentUpdate
opening id incident = record {
  id = id;
  incident = incident;
  status = monitoring;
  body = "We are looking.";
  created_by = 40;
  created_at = 100;
}

abbrev two_pages : Board
two_pages = record {
  platforms = alpha ∷ beta ∷ [];
  components = component 1 7 ∷ component 2 8 ∷ [];
  incidents = incident 3 7 1 ∷ incident 4 8 2 ∷ [];
  updates = opening 5 3 ∷ opening 6 4 ∷ [];
}

abbrev dev : AuthenticatedStaff
dev = record { id = 40; roles = record { role = developer; platform_id = some 7 } ∷ [] }

abbrev all_clear : Request
all_clear =
    post_update 3 (record { status = resolved; body = "Done."; component_ids = some (1 ∷ []) })

abbrev plain : String → String
plain s = s

abbrev after : Board
after = record two_pages {
  incidents =
      record (incident 3 7 1) { status = resolved; resolved_at = some 900 } ∷ incident 4 8 2 ∷ [];
  updates =
      record {
        id = 21;
        incident = 3;
        status = resolved;
        body = "Done.";
        created_by = 40;
        created_at = 900;
      }
      ∷ opening 5 3
      ∷ opening 6 4
      ∷ [];
}

all_clear_runs : handle plain 900 dev 7 20 21 all_clear two_pages ≡ ok after
unfolding handle
all_clear_runs = refl

two_pages-IsSound : IsSound two_pages
unfolding find
two_pages-IsSound = record {
  keyed_components = (refl, (refl, tt));
  keyed_incidents = (refl, (refl, tt));
  each = λ k i there.
      find-All incident_id (IsSoundIncident two_pages) k two_pages.incidents i
        (
          record { stamped = refl; own = (refl, tt); timeline = refl },
          (record { stamped = refl; own = (refl, tt); timeline = refl }, tt),
        )
        there;
}

new_ids : IsFresh 20 two_pages
unfolding find
new_ids = record { new_component = refl; new_incident = refl }

beta_is_other : (p : Platform) → with_key "beta" two_pages.platforms ≡ some p → p.id ≢ 7
unfolding with_key
beta_is_other p known = ground (arith, known)

handle-IsSound_example : IsSound after
handle-IsSound_example =
    handle-IsSound plain 900 dev 7 20 21 all_clear two_pages after new_ids two_pages-IsSound
      all_clear_runs

handle-public_status_example :
    public_status (λ a b. true) 950 "beta" after ≡ public_status (λ a b. true) 950 "beta" two_pages
handle-public_status_example =
    handle-public_status plain 900 dev 7 20 21 all_clear two_pages after (λ a b. true) 950 "beta"
      beta_is_other new_ids two_pages-IsSound all_clear_runs

-- The page of the first platform, which has an active incident.
abbrev alpha_page : PublicStatus
alpha_page = record {
  platform_key = "alpha";
  platform_name = "Alpha";
  overall = degraded;
  components = component_view (component 1 7) ∷ [];
  active_incidents = incident_view two_pages (incident 3 7 1) ∷ [];
  recent_incidents = [];
  updated_at = 950;
}

alpha_page_answered : public_status (λ a b. true) 950 "alpha" two_pages ≡ ok alpha_page
unfolding public_status with_key page_of overall_status
alpha_page_answered = refl

public_status-IsHonest_example : IsHonest alpha_page
public_status-IsHonest_example =
    public_status-IsHonest (λ a b. true) 950 "alpha" two_pages alpha_page alpha_page_answered
