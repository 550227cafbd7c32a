-- ===== src/StatusPage/Rows.antt =====
-- The rows behind the status page: src/entities/status-component.entity.ts,
-- status-incident.entity.ts, status-incident-update.entity.ts and platform.entity.ts, the
-- enumerations of src/common/enums.ts, and the request bodies of src/status/dto/status.dto.ts.
use cimp.Prelude.{ℕ, Bool, true, false, List, Option, String}

pub data ComponentStatus : Type 0 where
  operational maintenance degraded partial_outage major_outage : ComponentStatus

pub data IncidentStatus : Type 0 where
  investigating identified monitoring resolved : IncidentStatus

pub data IncidentImpact : Type 0 where
  minor major critical maintenance_work : IncidentImpact

pub data PlatformStatus : Type 0 where
  active disabled : PlatformStatus

pub record Platform : Type 0 where
  pub id : ℕ
  pub key : String
  pub name : String
  pub status : PlatformStatus

pub record StatusComponent : Type 0 where
  pub id : ℕ
  pub platform : ℕ
  pub name : String
  pub description : Option String
  pub status : ComponentStatus
  pub position : ℕ

pub record StatusIncident : Type 0 where
  pub id : ℕ
  pub platform : ℕ
  pub title : String
  pub status : IncidentStatus
  pub impact : IncidentImpact
  pub components : List ℕ
  pub started_at : ℕ
  pub resolved_at : Option ℕ
  pub created_by : ℕ

pub record StatusIncidentUpdate : Type 0 where
  pub id : ℕ
  pub incident : ℕ
  pub status : IncidentStatus
  pub body : String
  pub created_by : ℕ
  pub created_at : ℕ

-- The tables; the newest update stands first.
pub record Board : Type 0 where
  pub platforms : List Platform
  pub components : List StatusComponent
  pub incidents : List StatusIncident
  pub updates : List StatusIncidentUpdate

abbrev pub platform_id : Platform → ℕ
platform_id p = p.id

abbrev pub component_id : StatusComponent → ℕ
component_id c = c.id

abbrev pub incident_id : StatusIncident → ℕ
incident_id i = i.id

abbrev pub is_resolved : IncidentStatus → Bool
is_resolved resolved = true
is_resolved _ = false

pub record CreateComponentDto : Type 0 where
  pub name : String
  pub description : Option String
  pub status : Option ComponentStatus
  pub position : Option ℕ

pub record UpdateComponentDto : Type 0 where
  pub name : Option String
  pub description : Option String
  pub status : Option ComponentStatus
  pub position : Option ℕ

pub record CreateIncidentDto : Type 0 where
  pub title : String
  pub body : String
  pub status : Option IncidentStatus
  pub impact : Option IncidentImpact
  pub component_ids : Option (List ℕ)

pub record AddIncidentUpdateDto : Type 0 where
  pub status : IncidentStatus
  pub body : String
  pub component_ids : Option (List ℕ)
