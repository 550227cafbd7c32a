-- ===== src/Issues/Csv/Tests.antt =====
-- The export at a concrete issue (src/issues/issues.csv.ts).
use cimp.Prelude.{ℕ, ◌≡◌, none, some, [], ◌∷◌, map, List, All}
use cimp.Prelude.Text.{Text, codes}
use cimp.Domain.{new, high}
use cimp.Issues.Csv.{ExportedIssue, to_csv, headers, neutralised, columns}
use cimp.Issues.Csv.Reader.{read_csv, read_csv-to_csv, read_csv-to_csv-IsInert, AreRowsOf, IsInert}

-- The reporter's name begins like a formula and holds a quote and a comma.
abbrev hostile : ExportedIssue
hostile = record {
  reference_no = codes "CIMP-1";
  status = new;
  priority = high;
  platform_key = some (codes "portal");
  reporter_name = some (codes "=1,\"x");
  assignee_name = none;
  created_at = some 5;
  updated_at = none;
  resolved_at = none;
  closed_at = none;
}

abbrev stamp : ℕ → Text
stamp t = codes "T"

read_csv-to_csv_example :
    read_csv (to_csv stamp (hostile ∷ []))
    ≡ some (headers ∷ map (λ i. map neutralised (columns stamp i)) (hostile ∷ []))
read_csv-to_csv_example = read_csv-to_csv stamp (hostile ∷ [])

read_csv-to_csv-IsInert_example :
    (rows : List (List Text)) × (read_csv (to_csv stamp (hostile ∷ [])) ≡ some (headers ∷ rows))
    × All IsInert headers
    × AreRowsOf stamp (hostile ∷ []) rows
read_csv-to_csv-IsInert_example = read_csv-to_csv-IsInert stamp (hostile ∷ [])
