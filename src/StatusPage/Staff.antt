-- ===== src/StatusPage/Staff.antt =====
-- The staff's writes on the status page of one platform: src/status/status.service.ts and the
-- routes of status.controller.ts.
pub mod Writes
pub mod Requests
mod Own
pub mod Sound
use text.Mathlib.Text.{◌==◌ as text_eq}
use cimp.Prelude.{
  ℕ, Bool, not, ◌&&◌, List, [], ◌∷◌, Option, none, some, String, ◌==◌, if◌then◌else◌, or_else, any,
  length, includes, distinct, map, select, is_some,
}
use cimp.Prelude.Table.{find, put, remove}
use cimp.Domain.{
  Result, ok, ◌>>=◌, ◌>>◌, require, found, forbidden, conflict, not_found, bad_request,
  server_error, no_platform_access, component_name_taken, component_not_found, incident_not_found,
  foreign_component, foreign_key,
}
use cimp.Authz.{AuthenticatedStaff, can_access_platform, staff_write_roles}
use cimp.StatusPage.Rows.{
  operational, IncidentStatus, investigating, resolved, minor, StatusComponent, StatusIncident,
  Board, platform_id, component_id, incident_id, CreateComponentDto, UpdateComponentDto,
  CreateIncidentDto, AddIncidentUpdateDto,
}

-- assertAccess.
pub assert_access : AuthenticatedStaff → ℕ → Result (Unit {0})
assert_access staff platform =
    require (can_access_platform staff platform staff_write_roles) (forbidden no_platform_access)

-- The unique index on platform and name, as a save of the row `c` meets it.
pub name_taken : StatusComponent → List StatusComponent → Bool
name_taken c cs =
    any (λ d. not (d.id == c.id) && d.platform == c.platform && text_eq d.name c.name) cs

-- The catch of isUniqueViolation round a save.
pub assert_name_free : StatusComponent → Board → Result (Unit {0})
assert_name_free c b = require (not (name_taken c b.components)) (conflict component_name_taken)

-- `text?.trim() || null`, with the runtime's `trim`.
pub trimmed : (String → String) → Option String → Option String
trimmed trim none = none
trimmed trim (some s) = if text_eq (trim s) "" then none else some (trim s)

pub owned_component : ℕ → ℕ → Board → Result StatusComponent
owned_component platform id b = do
  row ← found (find component_id id b.components) (not_found component_not_found)
  require (row.platform == platform) (not_found component_not_found)
  ok row

pub owned_incident : ℕ → ℕ → Board → Result StatusIncident
owned_incident platform id b = do
  row ← found (find incident_id id b.incidents) (not_found incident_not_found)
  require (row.platform == platform) (not_found incident_not_found)
  ok row

-- The foreign key of a new row: its platform must exist, or the save fails with a 500.
pub assert_platform : ℕ → Board → Result (Unit {0})
assert_platform platform b =
    require (is_some (find platform_id platform b.platforms)) (server_error foreign_key)

-- The components of a platform among the wanted ids, by their ids.
pub components_in : ℕ → List ℕ → List StatusComponent → List ℕ
components_in platform wanted [] = []
components_in platform wanted (c ∷ cs) =
    let rest = components_in platform wanted cs in
    if includes wanted c.id && c.platform == platform then c.id ∷ rest else rest

-- resolveComponents.
pub resolve_components : ℕ → Option (List ℕ) → Board → Result (List ℕ)
resolve_components platform ids b =
    let wanted = distinct (or_else ids []) in
    let rows = components_in platform wanted b.components in
    (do require (length rows == length wanted) (bad_request foreign_component); ok rows)

-- The row goes, and with it its places in incidents (`onDelete: 'CASCADE'` of the join table).
unfoldable pub without_component : ℕ → StatusIncident → StatusIncident
without_component id i = record i { components = select (λ c. not (c == id)) i.components }

-- `RESOLVED ? new Date() : null` at the time `now`, over the time that was there.
pub terminal_time : ℕ → IncidentStatus → Option ℕ → Option ℕ
terminal_time now resolved old = some (or_else old now)
terminal_time now _ old = none

-- The routes that write.
pub data Request : Type 0 where
  post_component : CreateComponentDto → Request
  patch_component : ℕ → UpdateComponentDto → Request
  drop_component : ℕ → Request
  post_incident : CreateIncidentDto → Request
  post_update : ℕ → AddIncidentUpdateDto → Request
  drop_incident : ℕ → Request

-- The staff operations. `trim` is the runtime's, `fresh` the id that the database generates.
module _ (trim : String → String) (now : ℕ) (staff : AuthenticatedStaff) (platform : ℕ) where
  pub component_of : ℕ → CreateComponentDto → StatusComponent
  component_of fresh dto = record {
    id = fresh;
    platform = platform;
    name = trim dto.name;
    description = trimmed trim dto.description;
    status = or_else dto.status operational;
    position = or_else dto.position 0;
  }

  pub create_component : ℕ → CreateComponentDto → Board → Result Board
  create_component fresh dto b = do
    assert_access staff platform
    assert_name_free (component_of fresh dto) b
    assert_platform platform b
    ok (record b { components = component_of fresh dto ∷ b.components })

  pub updated_component : UpdateComponentDto → StatusComponent → StatusComponent
  updated_component dto c = record c {
    name = elim dto.name [ none ↦ c.name | some n ↦ trim n ];
    description = elim dto.description [ none ↦ c.description | some d ↦ trimmed trim (some d) ];
    status = or_else dto.status c.status;
    position = or_else dto.position c.position;
  }

  pub update_component : ℕ → UpdateComponentDto → Board → Result Board
  update_component id dto b = do
    assert_access staff platform
    row ← owned_component platform id b
    assert_name_free (updated_component dto row) b
    ok (record b { components = put component_id (updated_component dto row) b.components })

  pub delete_component : ℕ → Board → Result Board
  delete_component id b = do
    assert_access staff platform
    row ← owned_component platform id b
    ok (record b {
      components = remove component_id row.id b.components;
      incidents = map (without_component row.id) b.incidents;
    })

  pub create_incident : ℕ → ℕ → CreateIncidentDto → Board → Result Board
  create_incident fresh fresh_update dto b =
      let status = or_else dto.status investigating in
      (do
        assert_access staff platform
        components ← resolve_components platform dto.component_ids b
        assert_platform platform b
        ok (record b {
          incidents =
              record {
                id = fresh;
                platform = platform;
                title = trim dto.title;
                status = status;
                impact = or_else dto.impact minor;
                components = components;
                started_at = now;
                resolved_at = terminal_time now status none;
                created_by = staff.id;
              }
              ∷ b.incidents;
          updates =
              record {
                id = fresh_update;
                incident = fresh;
                status = status;
                body = dto.body;
                created_by = staff.id;
                created_at = now;
              }
              ∷ b.updates;
        }))

  -- `dto.componentIds ? await resolveComponents(…) : null`, and the set that the incident has then.
  pub chosen_components : Option (List ℕ) → List ℕ → Board → Result (List ℕ)
  chosen_components none old b = ok old
  chosen_components (some ids) old b = resolve_components platform (some ids) b

  pub add_incident_update : ℕ → ℕ → AddIncidentUpdateDto → Board → Result Board
  add_incident_update fresh_update id dto b = do
    assert_access staff platform
    incident ← owned_incident platform id b
    components ← chosen_components dto.component_ids incident.components b
    ok (record b {
      incidents =
          put incident_id
            (record incident {
              status = dto.status;
              resolved_at = terminal_time now dto.status incident.resolved_at;
              components = components;
            })
            b.incidents;
      updates =
          record {
            id = fresh_update;
            incident = incident.id;
            status = dto.status;
            body = dto.body;
            created_by = staff.id;
            created_at = now;
          }
          ∷ b.updates;
    })

  -- The row goes, and with it its updates (`onDelete: 'CASCADE'`).
  pub delete_incident : ℕ → Board → Result Board
  delete_incident id b = do
    assert_access staff platform
    row ← owned_incident platform id b
    ok (record b {
      incidents = remove incident_id row.id b.incidents;
      updates = select (λ u. not (u.incident == row.id)) b.updates;
    })

  -- A request to one of the routes that write, of src/status/status.controller.ts. `fresh` and
  -- `fresh_update` are the ids that the database generates for new rows.
  unfoldable pub handle : ℕ → ℕ → Request → Board → Result Board
  unfolding create_component update_component delete_component create_incident add_incident_update
      delete_incident component_of updated_component chosen_components assert_access
      assert_name_free name_taken assert_platform owned_component owned_incident resolve_components
      components_in trimmed without_component terminal_time can_access_platform find put remove
  handle fresh fresh_update (post_component dto) b = create_component fresh dto b
  handle fresh fresh_update (patch_component id dto) b = update_component id dto b
  handle fresh fresh_update (drop_component id) b = delete_component id b
  handle fresh fresh_update (post_incident dto) b = create_incident fresh fresh_update dto b
  handle fresh fresh_update (post_update id dto) b = add_incident_update fresh_update id dto b
  handle fresh fresh_update (drop_incident id) b = delete_incident id b
