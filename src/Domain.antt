-- ===== src/Domain.antt =====
-- The shared enumerations (src/common/enums.ts), constants (src/common/constants.ts) and domain
-- events (src/events/issue-events.ts), and the HTTP errors that the services throw.
pub mod Results
use cimp.Prelude.{ℕ, Bool, true, false, List, [], ◌∷◌, ◌≡◌, ◌↔◌, Option, arith, ◌==◌, any}

pub data Role : Type 0 where
  focal_point developer admin watcher : Role

pub data IssueStatus : Type 0 where
  new in_progress on_hold resolved closed reopened : IssueStatus

pub data Priority : Type 0 where
  low medium high critical : Priority

pub data CommentVisibility : Type 0 where
  internal reporter_visible : CommentVisibility

pub data ScanStatus : Type 0 where
  pending clean infected skipped : ScanStatus

pub data ActorType : Type 0 where
  staff_actor system_actor reporter_actor : ActorType

pub data AccountStatus : Type 0 where
  active disabled : AccountStatus

pub data LinkType : Type 0 where
  blocks relates duplicates : LinkType

-- `===` on the enumerations.
abbrev role_code : Role → ℕ
role_code focal_point = 0
role_code developer = 1
role_code admin = 2
role_code watcher = 3

abbrev pub same_role : Role → Role → Bool
same_role a b = role_code a == role_code b

abbrev status_code : IssueStatus → ℕ
status_code new = 0
status_code in_progress = 1
status_code on_hold = 2
status_code resolved = 3
status_code closed = 4
status_code reopened = 5

abbrev pub same_status : IssueStatus → IssueStatus → Bool
same_status a b = status_code a == status_code b

abbrev priority_code : Priority → ℕ
priority_code low = 0
priority_code medium = 1
priority_code high = 2
priority_code critical = 3

abbrev pub same_priority : Priority → Priority → Bool
same_priority a b = priority_code a == priority_code b

abbrev pub is_active : AccountStatus → Bool
is_active active = true
is_active disabled = false

pub same_status_iff : (a b : IssueStatus) → (same_status a b ≡ true) ↔ (a ≡ b)
same_status_iff a b = ground arith

pub same_role_iff : (a b : Role) → (same_role a b ≡ true) ↔ (a ≡ b)
same_role_iff a b = ground arith

abbrev pub includes_status : List IssueStatus → IssueStatus → Bool
includes_status ss s = any (λ t. same_status t s) ss

abbrev pub includes_role : List Role → Role → Bool
includes_role rs r = any (λ t. same_role t r) rs

-- The statuses that count as live work.
abbrev pub open_issue_statuses : List IssueStatus
open_issue_statuses = new ∷ in_progress ∷ on_hold ∷ reopened ∷ []

-- Files that may leave the system.
abbrev pub is_servable : ScanStatus → Bool
is_servable clean = true
is_servable skipped = true
is_servable _ = false

-- The texts of the exceptions, one constructor for each message.
pub data Message : Type 0 where
  issue_not_found stale_version already_in_status cannot_transition may_not_change_status
        already_at_priority assignee_missing not_developer invalid_status invalid_priority
        invalid_assignee merge_self merge_platform already_merged merge_closed
        canonical_unresolvable canonical_closed not_authenticated no_access insufficient_role
        no_platform_access component_name_taken component_not_found incident_not_found
        foreign_component unknown_platform foreign_key platform_key_taken platform_not_found
        platform_has_issues email_taken staff_not_found own_disable own_delete last_admin
        focal_point_scope admin_scope role_exists role_not_found unknown_sla_priority bad_sla_hours
        unique_violation login_not_enabled invalid_credentials account_disabled invalid_url
        https_only ipv6_literal private_address too_many_files file_too_large unsupported_file
        storage_failed database_failed attachment_not_found attachment_unavailable not_resolved_yet
        comment_not_found foreign_comment no_write_access label_name_taken label_not_found
        foreign_label self_link link_platform link_exists link_not_found rule_not_found
        invalid_label missing_handoff missing_platform_key inactive_platform invalid_handoff
        missing_expiry missing_claims :
      Message

pub data HttpError : Type 0 where
  bad_request forbidden not_found conflict unprocessable server_error unauthorized :
      Message → HttpError

pub data Result {ℓ} (A : Type ℓ) : Type ℓ where
  ok : A → Result A
  err : HttpError → Result A

infixl 5 ◌>>=◌ ◌>>◌
-- What follows an `await`: it runs unless an exception was thrown.
abbrev pub ◌>>=◌ {κ μ} : {X : Type κ} {Y : Type μ} → Result X → (X → Result Y) → Result Y
err e >>= next = err e
ok x >>= next = next x

abbrev pub ◌>>◌ {μ} : {Y : Type μ} → Result (Unit {0}) → Result Y → Result Y
err e >> rest = err e
ok done >> rest = rest

-- `if (!b) throw e`.
abbrev pub require : Bool → HttpError → Result (Unit {0})
require true e = ok tt
require false e = err e

-- What `findOne` returned, or the exception for `null`.
abbrev pub found {ℓ} : {A : Type ℓ} → Option A → HttpError → Result A
found Option.none e = err e
found (Option.some a) e = ok a

-- The domain events, by name with their payload. `Option.none` is the actor id '' of writes that
-- no staff member made.
pub data Event : Type 0 where
  created : (issue platform : ℕ) → Event
  status_changed : (issue platform : ℕ) (from to : IssueStatus) (actor : Option ℕ) → Event
  priority_changed : (issue platform : ℕ) (from to : Priority) (actor : Option ℕ) → Event
  assigned : (issue platform : ℕ) (assignee : Option ℕ) (actor : Option ℕ) → Event
  comment_added :
      (issue platform comment : ℕ) (reporter_visible : Bool) (actor : Option ℕ) (mentions : List ℕ)
      → Event
  attachments_scanned : (issue : ℕ) → Event
  merged : (duplicate canonical platform : ℕ) (actor : ℕ) → Event
  csat_received : (issue platform score : ℕ) → Event
  sla_breached : (issue platform : ℕ) → Event
