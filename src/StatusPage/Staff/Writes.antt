-- ===== src/StatusPage/Staff/Writes.antt =====
-- The writes on the tables of the status page, as a relation that says of each what it may
-- change, and the proof that the requests of src/status/status.service.ts are such writes.
use cimp.Prelude.{ℕ, List, ◌∷◌, ◌≡◌, Option, none, some, ◌==◌, All, is_some, map, select, not}
use cimp.Prelude.Table.{find, put, remove}
use cimp.StatusPage.Rows.{
  is_resolved, StatusComponent, StatusIncident, StatusIncidentUpdate, Board, component_id,
  incident_id,
}
use cimp.StatusPage.Staff.{without_component}

-- The platform of a component.
abbrev pub component_platform : Option StatusComponent → Option ℕ
component_platform none = none
component_platform (some c) = some c.platform

abbrev pub platform_of : ℕ → List StatusComponent → Option ℕ
platform_of k cs = component_platform (find component_id k cs)

-- The components of an incident are of its platform.
abbrev pub AreOwn : List StatusComponent → ℕ → List ℕ → Type 0
AreOwn cs platform ks = All (λ k. platform_of k cs ≡ some platform) ks

abbrev pub IsStamped : StatusIncident → Type 0
IsStamped i = is_some i.resolved_at ≡ is_resolved i.status

-- A write by staff of one platform: a row is added, changed or removed, always of that platform.
pub data Write (platform : ℕ) (b : Board) : Board → Type 0 where
  component_added :
      (c : StatusComponent)
      → c.platform ≡ platform
      → find component_id c.id b.components ≡ none
      → Write platform b (record b { components = c ∷ b.components })
  component_changed :
      (old c : StatusComponent)
      → find component_id c.id b.components ≡ some old
      → old.platform ≡ platform
      → c.platform ≡ platform
      → Write platform b (record b { components = put component_id c b.components })
  component_removed :
      (old : StatusComponent)
      → find component_id old.id b.components ≡ some old
      → old.platform ≡ platform
      → Write platform b (record b {
        components = remove component_id old.id b.components;
        incidents = map (without_component old.id) b.incidents;
      })
  incident_added :
      (i : StatusIncident) (u : StatusIncidentUpdate)
      → i.platform ≡ platform
      → find incident_id i.id b.incidents ≡ none
      → IsStamped i
      → AreOwn b.components platform i.components
      → u.incident ≡ i.id
      → u.status ≡ i.status
      → Write platform b (record b { incidents = i ∷ b.incidents; updates = u ∷ b.updates })
  incident_changed :
      (old i : StatusIncident) (u : StatusIncidentUpdate)
      → find incident_id i.id b.incidents ≡ some old
      → old.platform ≡ platform
      → i.platform ≡ platform
      → IsStamped i
      → (AreOwn b.components platform old.components → AreOwn b.components platform i.components)
      → u.incident ≡ i.id
      → u.status ≡ i.status
      → Write platform b
          (record b { incidents = put incident_id i b.incidents; updates = u ∷ b.updates })
  incident_removed :
      (old : StatusIncident)
      → find incident_id old.id b.incidents ≡ some old
      → old.platform ≡ platform
      → Write platform b (record b {
        incidents = remove incident_id old.id b.incidents;
        updates = select (λ u. not (u.incident == old.id)) b.updates;
      })

-- The ids that the database generates are new.
pub record IsFresh (fresh : ℕ) (b : Board) : Type 0 where
  pub new_component : find component_id fresh b.components ≡ none
  pub new_incident : find incident_id fresh b.incidents ≡ none
