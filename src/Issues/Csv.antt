-- ===== src/Issues/Csv.antt =====
-- The export of issues to CSV: src/issues/issues.csv.ts.
pub mod Reader
mod Tests
use cimp.Prelude.{
  ℕ, Bool, true, false, ◌||◌, List, [], ◌∷◌, ◌++◌, Option, none, some, ◌==◌, if◌then◌else◌, map,
}
use cimp.Prelude.Text.{Text, codes}
use cimp.Domain.{
  IssueStatus, new, in_progress, on_hold, resolved, closed, reopened, Priority, low, medium, high,
  critical,
}

-- The values of the enumerations.
pub status_text : IssueStatus → Text
status_text new = codes "NEW"
status_text in_progress = codes "IN_PROGRESS"
status_text on_hold = codes "ON_HOLD"
status_text resolved = codes "RESOLVED"
status_text closed = codes "CLOSED"
status_text reopened = codes "REOPENED"

pub priority_text : Priority → Text
priority_text low = codes "LOW"
priority_text medium = codes "MEDIUM"
priority_text high = codes "HIGH"
priority_text critical = codes "CRITICAL"

-- What the export reads of an issue and its relations.
pub record ExportedIssue : Type 0 where
  pub reference_no : Text
  pub status : IssueStatus
  pub priority : Priority
  pub platform_key : Option Text
  pub reporter_name : Option Text
  pub assignee_name : Option Text
  pub created_at : Option ℕ
  pub updated_at : Option ℕ
  pub resolved_at : Option ℕ
  pub closed_at : Option ℕ

-- `/^[=+\-@\t\r]/`.
abbrev pub is_formula_start : ℕ → Bool
is_formula_start c = c == b'=' || c == b'+' || c == b'-' || c == b'@' || c == 9 || c == 13

abbrev pub starts_formula : Text → Bool
starts_formula [] = false
starts_formula (c ∷ s) = is_formula_start c

-- The value that `cell` quotes.
pub neutralised : Text → Text
neutralised s = if starts_formula s then b'\'' ∷ s else s

-- `s.replace(/"/g, '""')`.
pub doubled : Text → Text
doubled [] = []
doubled (c ∷ s) = let rest = doubled s in if c == b'"' then b'"' ∷ b'"' ∷ rest else c ∷ rest

pub cell : Text → Text
unfolding neutralised doubled
cell s = b'"' ∷ (doubled (neutralised s) ++ b'"' ∷ [])

-- `join(',')` and `join('\r\n')`.
pub join : Text → List Text → Text
join separator [] = []
join separator (s ∷ []) = s
join separator (s ∷ t ∷ ts) = s ++ (separator ++ join separator (t ∷ ts))

pub headers : List Text
headers =
    codes "referenceNo"
    ∷ codes "status"
    ∷ codes "priority"
    ∷ codes "platform"
    ∷ codes "reporter"
    ∷ codes "assignee"
    ∷ codes "createdAt"
    ∷ codes "updatedAt"
    ∷ codes "resolvedAt"
    ∷ codes "closedAt"
    ∷ []

abbrev or_empty : {A : Type 0} → (A → Text) → Option A → Text
or_empty f none = []
or_empty f (some a) = f a

-- `to_iso_string` is the runtime's `toISOString` of a time.
module _ (to_iso_string : ℕ → Text) where
  pub columns : ExportedIssue → List Text
  unfolding status_text priority_text
  columns i =
      i.reference_no
      ∷ status_text i.status
      ∷ priority_text i.priority
      ∷ or_empty (λ s. s) i.platform_key
      ∷ or_empty (λ s. s) i.reporter_name
      ∷ or_empty (λ s. s) i.assignee_name
      ∷ or_empty to_iso_string i.created_at
      ∷ or_empty to_iso_string i.updated_at
      ∷ or_empty to_iso_string i.resolved_at
      ∷ or_empty to_iso_string i.closed_at
      ∷ []

  pub to_csv : List ExportedIssue → Text
  unfolding columns headers cell join
  to_csv issues = join (13 ∷ 10 ∷ []) (
      join (b',' ∷ []) (map cell headers)
      ∷ map (λ i. join (b',' ∷ []) (map cell (columns i))) issues)
