-- ===== src/Issues/Csv/Reader.antt =====
-- A reader of CSV files whose fields are all quoted (RFC 4180), and what it makes of the export of
-- src/issues/issues.csv.ts.
use cimp.Prelude.{
  ℕ, false, List, [], ◌∷◌, ◌++◌, Option, none, some, ◌==◌, if◌then◌else◌, map, ◌≡◌, refl, ap, ◌∙◌,
  arith, Bool-cases, inl, inr, true, any, ◌≢◌, ◌⊎◌, All,
}
use mathlib.Core.Path.{subst}
use mathlib.Core.List.{append_assoc, append-nil, tail as cdr}
use cimp.Prelude.Text.{Text, codes}
use cimp.Issues.Csv.{
  ExportedIssue, starts_formula, neutralised, doubled, cell, join, headers, columns, to_csv,
}

-- Before a field, inside one, after a quote in one, and between the two codes of a line end.
pub data Place : Type 0 where
  opening inside closing ending : Place

pub data Action : Type 0 where
  skip new_field new_row : Action
  keep : ℕ → Action

next : Place → ℕ → Option (Place × Action)
next opening c = if c == b'"' then some (inside, skip) else none
next inside c = if c == b'"' then some (closing, skip) else some (inside, keep c)
next closing c =
    if c == b'"'
    then some (inside, keep c)
    else if c == b','
    then some (opening, new_field)
    else if c == 13
    then some (ending, skip)
    else none
next ending c = if c == 10 then some (opening, new_row) else none

-- What a code adds to the rows read after it.
act : Action → Option (List (List Text)) → Option (List (List Text))
act skip rows = rows
act (keep c) (some ((field ∷ fields) ∷ rows)) = some (((c ∷ field) ∷ fields) ∷ rows)
act (keep c) _ = none
act new_field (some (fields ∷ rows)) = some (([] ∷ fields) ∷ rows)
act new_field _ = none
act new_row (some rows) = some (([] ∷ []) ∷ rows)
act new_row none = none

read_from : Place → Text → Option (List (List Text))
read_from closing [] = some (([] ∷ []) ∷ [])
read_from _ [] = none
read_from p (c ∷ s) = elim (next p c) [ none ↦ none | some (p', a) ↦ act a (read_from p' s) ]

pub read_csv : Text → Option (List (List Text))
unfolding read_from next act
read_csv s = read_from opening s

-- The codes of `s` in front of the first field.
onto : Text → Option (List (List Text)) → Option (List (List Text))
onto [] rows = rows
onto (c ∷ s) rows = act (keep c) (onto s rows)

onto-field :
    (s : Text) (fields : List Text) (rows : List (List Text))
    → onto s (some (([] ∷ fields) ∷ rows)) ≡ some ((s ∷ fields) ∷ rows)
unfolding onto act
onto-field [] fields rows = refl
onto-field (c ∷ s) fields rows = rw (onto-field s fields rows)

read_from_plain :
    (c : ℕ) (s : Text)
    → (c == b'"') ≡ false
    → read_from inside (c ∷ s) ≡ act (keep c) (read_from inside s)
unfolding read_from next
read_from_plain c s plain = ground (arith, plain)

read_from_comma : (s : Text) → read_from closing (b',' ∷ s) ≡ act new_field (read_from opening s)
unfolding read_from next
read_from_comma s = refl

read_from_crlf : (s : Text) → read_from closing (13 ∷ 10 ∷ s) ≡ act new_row (read_from opening s)
unfolding read_from next act
read_from_crlf s = refl

read_from-doubled :
    (s rest : Text) → read_from inside (doubled s ++ b'"' ∷ rest) ≡ onto s (read_from closing rest)
unfolding read_from next act onto doubled
read_from-doubled [] rest = refl
read_from-doubled (c ∷ s) rest = elim (Bool-cases (c == b'"')) [
  | inl quote ↦
      let same : c ≡ b'"' = ground (arith, quote) in
      rw same (ap (act (keep b'"')) (read_from-doubled s rest))
  | inr plain ↦ rw plain (
      read_from_plain c (doubled s ++ b'"' ∷ rest) plain
      ∙ ap (act (keep c)) (read_from-doubled s rest))
]

read_from-cell :
    (v rest : Text)
    → read_from opening (cell v ++ rest) ≡ onto (neutralised v) (read_from closing rest)
unfolding read_from next act cell
read_from-cell v rest =
    rw (append_assoc (doubled (neutralised v)) (b'"' ∷ []) rest)
      (read_from-doubled (neutralised v) rest)

line : List Text → Text
line vs = join (b',' ∷ []) (map cell vs)

-- A line is read up to what ends it.
read_from-line :
    (v : Text) (vs : List Text) (rest : Text) (rows : List (List Text))
    → read_from closing rest ≡ some (([] ∷ []) ∷ rows)
    → read_from opening (line (v ∷ vs) ++ rest) ≡ some (map neutralised (v ∷ vs) ∷ rows)
unfolding line join act
read_from-line v [] rest rows ends =
    read_from-cell v rest ∙ ap (onto (neutralised v)) ends ∙ onto-field (neutralised v) [] rows
read_from-line v (w ∷ vs) rest rows ends = rw (append_assoc (cell v) (b',' ∷ line (w ∷ vs)) rest) (
    read_from-cell v (b',' ∷ (line (w ∷ vs) ++ rest))
    ∙ ap (onto (neutralised v)) (
        read_from_comma (line (w ∷ vs) ++ rest)
        ∙ ap (act new_field) (read_from-line w vs rest rows ends))
    ∙ onto-field (neutralised v) (map neutralised (w ∷ vs)) rows)

-- Lines joined by line ends are read back row by row.
read_from-lines :
    {A : Type 0} (f : A → Text) (g : A → List Text) (v : Text) (vs : List Text) (rows : List A)
    → read_from opening (join (13 ∷ 10 ∷ []) (line (v ∷ vs) ∷ map (λ r. line (f r ∷ g r)) rows))
      ≡ some (map neutralised (v ∷ vs) ∷ map (λ r. map neutralised (f r ∷ g r)) rows)
unfolding join act
read_from-lines f g v vs [] =
    rw (← append-nil (line (v ∷ vs))) (read_from-line v vs [] [] (unfold read_from in refl))
read_from-lines f g v vs (w ∷ rows) =
    let more = join (13 ∷ 10 ∷ []) (line (f w ∷ g w) ∷ map (λ r. line (f r ∷ g r)) rows) in
    read_from-line v vs (13 ∷ 10 ∷ more) _
      (read_from_crlf more ∙ ap (act new_row) (read_from-lines f g (f w) (g w) rows))

-- Reading the export gives the header and one row for each issue, in order, with the values of its
-- columns; a value that begins like a formula has an apostrophe in front.
pub read_csv-to_csv :
    (to_iso_string : ℕ → Text) (issues : List ExportedIssue)
    → read_csv (to_csv to_iso_string issues)
      ≡ some (headers ∷ map (λ i. map neutralised (columns to_iso_string i)) issues)
unfolding read_csv to_csv columns headers line neutralised
read_csv-to_csv to_iso_string issues =
    read_from-lines (λ (i : ExportedIssue). i.reference_no) (λ i. cdr (columns to_iso_string i))
      (codes "referenceNo") (cdr headers) issues

-- A text that a spreadsheet takes as it stands: it does not begin with `=`, `+`, `-`, `@`, a tab or a
-- carriage return.
abbrev pub IsInert : Text → Type 0
IsInert s =
    (c : ℕ) (rest : Text)
    → s ≡ c ∷ rest
    → (c ≢ b'=') × (c ≢ b'+') × (c ≢ b'-') × (c ≢ b'@') × (c ≢ 9) × (c ≢ 13)

-- What is read in a cell for a value: an inert text, the value itself if that is inert, and the
-- value with an apostrophe in front if it is not.
pub record IsCellOf (value read : Text) : Type 0 where
  pub inert : IsInert read
  pub meant : (IsInert value × (read ≡ value)) ⊎ ((¬ IsInert value) × (read ≡ b'\'' ∷ value))

abbrev pub AreCellsOf : List Text → List Text → Type 0
AreCellsOf [] [] = Unit {0}
AreCellsOf (v ∷ vs) (r ∷ rs) = IsCellOf v r × AreCellsOf vs rs
AreCellsOf _ _ = ⊥

starts_formula-IsInert : (s : Text) → starts_formula s ≡ false → IsInert s
starts_formula-IsInert s h c rest e =
    let plain : starts_formula (c ∷ rest) ≡ false = subst (λ x. starts_formula x ≡ false) e h in
    (
      λ k. ground (arith, plain, k),
      λ k. ground (arith, plain, k),
      λ k. ground (arith, plain, k),
      λ k. ground (arith, plain, k),
      λ k. ground (arith, plain, k),
      λ k. ground (arith, plain, k),
    )

starts_formula-All : (vs : List Text) → any starts_formula vs ≡ false → All IsInert vs
starts_formula-All [] h = tt
starts_formula-All (v ∷ vs) h =
    (starts_formula-IsInert v (ground (arith, h)), starts_formula-All vs (ground (arith, h)))

IsInert-starts_formula : (s : Text) → starts_formula s ≡ true → ¬ IsInert s
IsInert-starts_formula [] h i = absurd (cc h)
IsInert-starts_formula (c ∷ s) h i =
    let (a, b, d, e, f, g) = i c s refl in ground (arith, h, a, b, d, e, f, g)

neutralised-IsCellOf : (v : Text) → IsCellOf v (neutralised v)
unfolding neutralised
neutralised-IsCellOf v = elim (Bool-cases (starts_formula v)) [
  | inl formula ↦ rw formula (record {
    inert = starts_formula-IsInert (b'\'' ∷ v) refl;
    meant = inr (IsInert-starts_formula v formula, refl);
  })
  | inr plain ↦ rw plain (record {
    inert = starts_formula-IsInert v plain;
    meant = inl (starts_formula-IsInert v plain, refl);
  })
]

neutralised-AreCellsOf : (vs : List Text) → AreCellsOf vs (map neutralised vs)
neutralised-AreCellsOf [] = tt
neutralised-AreCellsOf (v ∷ vs) = (neutralised-IsCellOf v, neutralised-AreCellsOf vs)

headers-IsInert : All IsInert headers
unfolding headers
headers-IsInert = starts_formula-All headers refl

-- The rows are those of the issues, in order.
abbrev pub AreRowsOf : (ℕ → Text) → List ExportedIssue → List (List Text) → Type 0
AreRowsOf to_iso_string [] [] = Unit {0}
AreRowsOf to_iso_string (i ∷ is) (r ∷ rs) =
    AreCellsOf (columns to_iso_string i) r × AreRowsOf to_iso_string is rs
AreRowsOf to_iso_string _ _ = ⊥

rows-AreRowsOf :
    (to_iso_string : ℕ → Text) (issues : List ExportedIssue)
    → AreRowsOf to_iso_string issues (map (λ i. map neutralised (columns to_iso_string i)) issues)
rows-AreRowsOf to_iso_string [] = tt
rows-AreRowsOf to_iso_string (i ∷ is) =
    (neutralised-AreCellsOf (columns to_iso_string i), rows-AreRowsOf to_iso_string is)

-- No cell of the export is read back as a text that a spreadsheet takes for a formula: the export is
-- read as the header and one row for each issue, in order, whose cells do not begin with one of the
-- six codes of a formula, and a cell of a row is the value of its column, with an apostrophe in
-- front exactly if that value begins with one of them.
pub read_csv-to_csv-IsInert :
    (to_iso_string : ℕ → Text) (issues : List ExportedIssue)
    → (rows : List (List Text)) × (read_csv (to_csv to_iso_string issues) ≡ some (headers ∷ rows))
      × All IsInert headers
      × AreRowsOf to_iso_string issues rows
read_csv-to_csv-IsInert to_iso_string issues = (
  map (λ i. map neutralised (columns to_iso_string i)) issues,
  read_csv-to_csv to_iso_string issues,
  headers-IsInert,
  rows-AreRowsOf to_iso_string issues,
)
