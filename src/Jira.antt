-- ===== src/Jira.antt =====
-- Inbound Jira webhooks: src/jira/jira-inbound.service.ts.
pub mod Webhook
mod Tests
use text.Mathlib.Text.{◌==◌ as text_eq}
use cimp.Prelude.{
  ℕ, Bool, true, false, not, ◌||◌, ◌&&◌, List, [], ◌∷◌, Option, none, some, String, if◌then◌else◌,
  any,
}
use cimp.Domain.{
  IssueStatus, new, in_progress, resolved, closed, reopened, same_status, includes_status,
  system_actor,
}
use cimp.Store.{Issue, AuditAction, Db, Orm}
use cimp.Store.Writes.{save_issue, record_audit}
use cimp.Issues.{apply_status_side_effects}

-- What `CATEGORY_TO_STATUS[key]` holds. The table is an object literal, so a key that names a
-- member of `Object.prototype` finds that member.
pub data Category : Type 0 where
  known : IssueStatus → Category
  inherited unknown : Category

abbrev object_members : List String
object_members =
    "constructor" ∷ "toString" ∷ "valueOf" ∷ "hasOwnProperty" ∷ "isPrototypeOf"
    ∷ "propertyIsEnumerable" ∷ "toLocaleString" ∷ "__proto__" ∷ "__defineGetter__"
    ∷ "__defineSetter__" ∷ "__lookupGetter__" ∷ "__lookupSetter__" ∷ []

-- A key that the literal does not list.
pub unlisted : String → Category
unlisted key = if any (text_eq key) object_members then inherited else unknown

pub category_of : String → Category
category_of key =
    if text_eq key "new"
    then known new
    else if text_eq key "indeterminate"
    then known in_progress
    else if text_eq key "done"
    then known resolved
    else unlisted key

is_terminal : IssueStatus → Bool
is_terminal from = includes_status (resolved ∷ closed ∷ []) from

-- `resolveTarget`.
pub resolve_target : IssueStatus → IssueStatus → IssueStatus
unfolding is_terminal
resolve_target from mapped =
    if not (same_status mapped resolved) && is_terminal from then reopened else mapped

has_key : String → Issue → Bool
has_key key i = elim i.jira_issue_key [ none ↦ false | some k ↦ text_eq k key ]

-- `findOne({ where: { jiraIssueKey } })`.
pub find_by_jira_key : String → List Issue → Option Issue
find_by_jira_key key [] = none
find_by_jira_key key (i ∷ is) = if has_key key i then some i else find_by_jira_key key is

-- The webhook was applied, was not, or tried to store what is no status, which the enum column
-- refuses.
pub data Outcome : Type 0 where
  applied : Db → Outcome
  not_applied refused : Outcome

pub write_target : Orm → ℕ → Issue → IssueStatus → Db → Db
write_target orm now i target db =
    record_audit i.id system_actor none (AuditAction.status_changed i.status target) (
      save_issue orm now i (apply_status_side_effects now target (record i { status = target })) db)

-- The transaction, for a category that the table knows.
pub apply_known : Orm → ℕ → String → IssueStatus → Db → Outcome
apply_known orm now key mapped db = elim (find_by_jira_key key db.issues) [
  | none ↦ not_applied
  | some i ↦
      let target = resolve_target i.status mapped in
      if same_status i.status target
      then not_applied
      else applied (write_target orm now i target db)
]

-- The same for an inherited member, which is not RESOLVED and equals no status.
pub apply_inherited : Orm → ℕ → String → Db → Outcome
unfolding is_terminal
apply_inherited orm now key db = elim (find_by_jira_key key db.issues) [
  | none ↦ not_applied
  | some i ↦ if is_terminal i.status then applied (write_target orm now i reopened db) else refused
]

pub is_missing : Option String → Bool
is_missing none = true
is_missing (some s) = text_eq s ""

pub apply_category : Orm → ℕ → String → Category → Db → Outcome
apply_category orm now key (known s) db = apply_known orm now key s db
apply_category orm now key inherited db = apply_inherited orm now key db
apply_category orm now key unknown db = not_applied

pub apply_present : Orm → ℕ → Option String → Option String → Db → Outcome
apply_present orm now (some key) (some category) db =
    apply_category orm now key (category_of category) db
apply_present orm now _ _ db = not_applied

-- `applyWebhook`, with the issue key and the category key of the payload.
unfoldable pub apply_webhook : Orm → ℕ → Option String → Option String → Db → Outcome
apply_webhook orm now key category db =
    if is_missing key || is_missing category
    then not_applied
    else apply_present orm now key category db
