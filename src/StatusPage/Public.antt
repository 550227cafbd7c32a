-- ===== src/StatusPage/Public.antt =====
-- The page that everybody may read: `publicStatus` of src/status/status.service.ts.
pub mod Agreement
pub mod Isolation
pub mod Banner
use text.Mathlib.Text.{◌==◌ as text_eq}
use cimp.Prelude.{
  ℕ, ◌≤◌, ◌≡◌, ◌≢◌, refl, ◌⊎◌, inl, inr, Bool, true, false, not, ◌&&◌, ◌||◌, List, [], ◌∷◌, Option,
  none, some, String, ◌==◌, ltb, leb, if◌then◌else◌, any, take, select, sort_by, map, All, All-mono,
  arith, Bool-cases,
}
use cimp.Prelude.Table.{find}
use cimp.Domain.{Result, ok, err, ◌>>=◌, found, not_found, unknown_platform}
use cimp.StatusPage.Rows.{
  ComponentStatus, operational, maintenance, degraded, partial_outage, major_outage, IncidentStatus,
  IncidentImpact, is_resolved, Platform, active, disabled, StatusComponent, StatusIncident,
  StatusIncidentUpdate, Board, component_id,
}

-- The place in SEVERITY_ORDER.
abbrev pub severity : ComponentStatus → ℕ
severity operational = 0
severity maintenance = 1
severity degraded = 2
severity partial_outage = 3
severity major_outage = 4

-- The fold of `overallStatus`, on from a status.
worst_from : ComponentStatus → List StatusComponent → ComponentStatus
worst_from acc [] = acc
worst_from acc (c ∷ cs) =
    worst_from (if ltb (severity acc) (severity c.status) then c.status else acc) cs

abbrev is_operational : ComponentStatus → Bool
is_operational operational = true
is_operational _ = false

-- overallStatus.
unfoldable pub overall_status : List StatusComponent → Bool → ComponentStatus
unfolding worst_from
overall_status cs has_active =
    let worst = worst_from operational cs in
    if is_operational worst && has_active then degraded else worst

-- PUBLIC_HISTORY_LIMIT.
abbrev pub public_history_limit : ℕ
public_history_limit = 20

pub record ComponentRef : Type 0 where
  pub id : ℕ
  pub name : String

pub record UpdateView : Type 0 where
  pub id : ℕ
  pub status : IncidentStatus
  pub body : String
  pub created_at : ℕ

pub record IncidentView : Type 0 where
  pub id : ℕ
  pub title : String
  pub status : IncidentStatus
  pub impact : IncidentImpact
  pub started_at : ℕ
  pub resolved_at : Option ℕ
  pub components : List ComponentRef
  pub updates : List UpdateView

pub record ComponentView : Type 0 where
  pub id : ℕ
  pub name : String
  pub description : Option String
  pub status : ComponentStatus

pub record PublicStatus : Type 0 where
  pub platform_key : String
  pub platform_name : String
  pub overall : ComponentStatus
  pub components : List ComponentView
  pub active_incidents : List IncidentView
  pub recent_incidents : List IncidentView
  pub updated_at : ℕ

-- The components of an incident, through the join table.
pub component_refs : List StatusComponent → List ℕ → List ComponentRef
component_refs cs [] = []
component_refs cs (k ∷ ks) = elim (find component_id k cs) [
  | none ↦ component_refs cs ks
  | some c ↦ record { id = c.id; name = c.name } ∷ component_refs cs ks
]

abbrev update_view : StatusIncidentUpdate → UpdateView
update_view u = record { id = u.id; status = u.status; body = u.body; created_at = u.created_at }

-- incidentView.
pub incident_view : Board → StatusIncident → IncidentView
incident_view b i = record {
  id = i.id;
  title = i.title;
  status = i.status;
  impact = i.impact;
  started_at = i.started_at;
  resolved_at = i.resolved_at;
  components = component_refs b.components i.components;
  updates =
      map update_view (
        sort_by (λ u v. leb v.created_at u.created_at)
          (select (λ u. u.incident == i.id) b.updates));
}

abbrev pub component_view : StatusComponent → ComponentView
component_view c = record {
  id = c.id;
  name = c.name;
  description = c.description;
  status = c.status;
}

abbrev pub is_active : StatusIncident → Bool
is_active i = not (is_resolved i.status)

unfoldable pub with_key : String → List Platform → Option Platform
with_key key [] = none
with_key key (p ∷ ps) = if text_eq p.key key then some p else with_key key ps

-- `order: { position: 'ASC', name: 'ASC' }` and `order: { startedAt: 'DESC' }`.
abbrev pub component_le : (String → String → Bool) → StatusComponent → StatusComponent → Bool
component_le name_le c d =
    ltb c.position d.position || (c.position == d.position && name_le c.name d.name)

abbrev pub later : StatusIncident → StatusIncident → Bool
later i j = leb j.started_at i.started_at

-- loadComponents, with the order of names that the database's collation gives.
pub load_components : (String → String → Bool) → ℕ → Board → List StatusComponent
load_components name_le platform b =
    sort_by (component_le name_le) (select (λ c. c.platform == platform) b.components)

pub recent : ℕ → Board → List StatusIncident
recent platform b =
    take public_history_limit (sort_by later (select (λ i. i.platform == platform) b.incidents))

-- The answer for a platform with these components and incidents, at the time `now`.
pub page_from :
    ℕ
    → Platform
    → List StatusComponent
    → List StatusIncident
    → (StatusIncident → IncidentView)
    → PublicStatus
page_from now p components incidents view = record {
  platform_key = p.key;
  platform_name = p.name;
  overall = overall_status components (any is_active incidents);
  components = map component_view components;
  active_incidents = map view (select is_active incidents);
  recent_incidents = map view (select (λ i. is_resolved i.status) incidents);
  updated_at = now;
}

unfoldable pub page_of : (String → String → Bool) → ℕ → Platform → Board → PublicStatus
unfolding page_from load_components recent
page_of name_le now p b =
    page_from now p (load_components name_le p.id b) (recent p.id b) (incident_view b)

-- A disabled platform is treated as one that does not exist.
abbrev pub unless_disabled : Platform → PublicStatus → Result PublicStatus
unless_disabled p page = elim p.status [
  | active ↦ ok page
  | disabled ↦ err (not_found unknown_platform)
]

unfoldable pub public_status : (String → String → Bool) → ℕ → String → Board → Result PublicStatus
public_status name_le now key b = do
  p ← found (with_key key b.platforms) (not_found unknown_platform)
  unless_disabled p (page_of name_le now p b)
