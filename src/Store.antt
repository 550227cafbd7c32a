-- ===== src/Store.antt =====
-- The rows that the issue services read and write (src/entities/*.entity.ts), the database as one
-- record of tables, and the events emitted so far. A transaction is one step from such a record to
-- the next; a service that throws leaves it as it was.
pub mod Writes
use cimp.Prelude.{ℕ, Bool, List, Option, String}
use cimp.Domain.{
  Role, IssueStatus, Priority, CommentVisibility, ActorType, AccountStatus, LinkType, Event,
}

pub record Issue : Type 0 where
  pub id : ℕ
  pub reference_no : String
  pub platform : ℕ
  pub reporter : ℕ
  pub assignee : Option ℕ
  pub status : IssueStatus
  pub priority : Priority
  pub duplicate_of : Option ℕ
  pub jira_issue_key : Option String
  pub publicly_visible : Bool
  pub public_title : Option String
  pub version : ℕ
  pub created_at : ℕ
  pub sla_started_at : ℕ
  pub sla_breached_at : Option ℕ
  pub updated_at : ℕ
  pub resolved_at : Option ℕ
  pub closed_at : Option ℕ

pub record StaffUser : Type 0 where
  pub id : ℕ
  pub status : AccountStatus

pub record UserPlatformRole : Type 0 where
  pub staff_user : ℕ
  pub platform : Option ℕ
  pub role : Role

pub record IssueLink : Type 0 where
  pub source_issue : ℕ
  pub target_issue : ℕ
  pub type : LinkType
  pub created_by : ℕ

pub record IssueWatcher : Type 0 where
  pub issue : ℕ
  pub staff_user : ℕ

pub record Comment : Type 0 where
  pub issue : ℕ
  pub author : Option ℕ
  pub author_type : ActorType
  pub body : String
  pub visibility : CommentVisibility

pub record IssueLabel : Type 0 where
  pub issue : ℕ
  pub label : ℕ

pub record Label : Type 0 where
  pub id : ℕ
  pub platform : ℕ
  pub name : String
  pub color : String

-- An audit row's action with its field, old and new value.
pub data AuditAction : Type 0 where
  status_changed : (old new : IssueStatus) → AuditAction
  priority_changed : (old new : Priority) → AuditAction
  assigned : (old new : Option ℕ) → AuditAction
  merged : (new : ℕ) → AuditAction
  label_added : (new : ℕ) → AuditAction
  sla_breached : AuditAction

pub record AuditEvent : Type 0 where
  pub issue : ℕ
  pub actor_type : ActorType
  pub actor_id : Option ℕ
  pub action : AuditAction

-- The newest audit row, comment and event stand first.
pub record Db : Type 0 where
  pub issues : List Issue
  pub staff : List StaffUser
  pub roles : List UserPlatformRole
  pub labels : List Label
  pub issue_labels : List IssueLabel
  pub links : List IssueLink
  pub watchers : List IssueWatcher
  pub comments : List Comment
  pub audit : List AuditEvent
  pub events : List Event

-- The two columns that the ORM manages by itself (`@VersionColumn`, `@UpdateDateColumn`): what they
-- hold after `save` of an entity, given the time, the row before and the entity, and after an
-- UPDATE by the query builder, given the time and the row before. TypeORM is not part of the
-- repository, so nothing is assumed of them here.
pub record Orm : Type 0 where
  pub saved_version : ℕ → Issue → Issue → ℕ
  pub saved_updated_at : ℕ → Issue → Issue → ℕ
  pub touched_version : ℕ → Issue → ℕ

-- An issue's own key.
abbrev pub issue_id : Issue → ℕ
issue_id i = i.id

abbrev pub staff_id : StaffUser → ℕ
staff_id u = u.id
