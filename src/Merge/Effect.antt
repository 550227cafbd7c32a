-- ===== src/Merge/Effect.antt =====
-- What a merge that succeeds has checked, and the row that it leaves under every key.
use mathlib.Core.Path.{subst}
use cimp.Prelude.{
  ℕ, ◌≡◌, ◌≢◌, List, [], ◌∷◌, refl, sym, ◌∙◌, none, some, arith, ◌==◌, ==_iff, inl, inr, Bool-cases,
  Option-cases, if◌then◌else◌,
}
use cimp.Prelude.Table.{find-key}
use cimp.Domain.{closed, ok}
use cimp.Store.{Issue, Comment, Db, Orm, issue_id}
use cimp.Store.Writes.{
  find_issue, saved, save_issue, record_audit, emit, find-save_issue, find-save_issue_ne,
}
use cimp.Issues.Effect.{>>=-eq-ok, Result-cases}
use cimp.Merge.{
  MergeIssueDto, flatten_canonical, resolve_merge, closed_duplicate, commit_merge, add_comments,
  merge_comments, merge,
}

-- The duplicate `d` and the canonical issue `t` of a merge that goes through.
pub record IsMergeable (id : ℕ) (dto : MergeIssueDto) (db : Db) (d t : Issue) : Type 0 where
  pub duplicate_id : d.id ≡ id
  pub duplicate_found : find_issue d.id db ≡ some d
  pub canonical_found : find_issue t.id db ≡ some t
  pub duplicate_unmerged : d.duplicate_of ≡ none
  pub canonical_unmerged : t.duplicate_of ≡ none
  pub distinct : t.id ≢ d.id
  pub duplicate_open : d.status ≢ closed
  pub canonical_open : t.status ≢ closed
  pub current : dto.version ≡ d.version

flatten_inv :
    (d n t : Issue) (db : Db)
    → find_issue n.id db ≡ some n
    → n.id ≢ d.id
    → flatten_canonical d n db ≡ ok t
    → (find_issue t.id db ≡ some t) × (t.duplicate_of ≡ none) × (t.id ≢ d.id)
unfolding flatten_canonical
flatten_inv d n t db there other h = elim (Option-cases n.duplicate_of) [
  | inl alone ↦
      let same : n ≡ t = ground (arith, alone) in
      subst (λ x. (find_issue x.id db ≡ some x) × (x.duplicate_of ≡ none) × (x.id ≢ d.id)) same
        (there, alone, other)
  | inr (k, pointed) ↦ elim (Option-cases (find_issue k db)) [
    | inl missing ↦ absurd (ground (arith, pointed, missing))
    | inr (x, row) ↦
        let same : x ≡ t = ground (arith, pointed, row) in
        subst (λ x. (find_issue x.id db ≡ some x) × (x.duplicate_of ≡ none) × (x.id ≢ d.id)) same
          (
            subst (λ k. find_issue k db ≡ some x) (sym (find-key issue_id k db.issues x row)) row,
            ground (arith, pointed, row),
            ground (arith, pointed, row),
          )
  ]
]

found_row : (id : ℕ) (db : Db) (i : Issue) → find_issue id db ≡ some i → find_issue i.id db ≡ some i
found_row id db i row =
    subst (λ k. find_issue k db ≡ some i) (sym (find-key issue_id id db.issues i row)) row

-- The checks, once both rows are at hand.
resolve_rest :
    (id : ℕ) (dto : MergeIssueDto) (db : Db) (d n t : Issue)
    → find_issue id db ≡ some d
    → find_issue dto.canonical_issue_id db ≡ some n
    → resolve_merge id dto db ≡ ok (d, t)
    → (id ≢ dto.canonical_issue_id)
      × (d.duplicate_of ≡ none)
      × (d.status ≢ closed)
      × (dto.version ≡ d.version)
      × (flatten_canonical d n db ≡ ok t)
      × (t.status ≢ closed)
unfolding resolve_merge
resolve_rest id dto db d n t row row' h = elim (Result-cases (flatten_canonical d n db)) [
  | inl (x, flat) ↦ (
    ground (arith, row, row', flat),
    ground (arith, row, row', flat),
    ground (arith, row, row', flat),
    ground (arith, row, row', flat),
    ground (arith, row, row', flat),
    ground (arith, row, row', flat),
  )
  | inr (e, flat) ↦ absurd (ground (arith, row, row', flat))
]

-- Both rows were there.
resolve_found :
    (id : ℕ) (dto : MergeIssueDto) (db : Db) (d t : Issue)
    → resolve_merge id dto db ≡ ok (d, t)
    → (find_issue id db ≡ some d) × ((n : Issue) × (find_issue dto.canonical_issue_id db ≡ some n))
unfolding resolve_merge
resolve_found id dto db d t h = elim (Option-cases (find_issue id db)) [
  | inl missing ↦ absurd (ground (arith, missing))
  | inr (x, row) ↦ elim (Option-cases (find_issue dto.canonical_issue_id db)) [
    | inl missing ↦ absurd (ground (arith, row, missing))
    | inr (n, row') ↦ elim (Result-cases (flatten_canonical x n db)) [
      | inl (y, flat) ↦ (ground (arith, row, row', flat), (n, row'))
      | inr (e, flat) ↦ absurd (ground (arith, row, row', flat))
    ]
  ]
]

pub resolve_merge_inv :
    (id : ℕ) (dto : MergeIssueDto) (db : Db) (d t : Issue)
    → resolve_merge id dto db ≡ ok (d, t)
    → IsMergeable id dto db d t
resolve_merge_inv id dto db d t h =
    let (row, named) = resolve_found id dto db d t h in
    let (n, row') = named in
    let (apart, unmerged, still_open, current, flat, target_open) =
      resolve_rest id dto db d n t row row' h in
    let same = find-key issue_id id db.issues d row in
    let same' = find-key issue_id dto.canonical_issue_id db.issues n row' in
    let (there, unmerged', distinct) =
      flatten_inv d n t db (found_row _ db n row') (λ e. apart (sym same ∙ sym e ∙ same')) flat in
    record {
      duplicate_id = same;
      duplicate_found = found_row id db d row;
      canonical_found = there;
      duplicate_unmerged = unmerged;
      canonical_unmerged = unmerged';
      distinct = distinct;
      duplicate_open = still_open;
      canonical_open = target_open;
      current = current;
    }

add_comments-issues : (cms : List Comment) (db : Db) → (add_comments cms db).issues ≡ db.issues
unfolding add_comments
add_comments-issues [] db = refl
add_comments-issues (cm ∷ cms) db =
    add_comments-issues cms (record db { comments = cm ∷ db.comments })

-- The transaction writes the duplicate's row and no other.
pub find-commit_merge :
    (j : ℕ) (orm : Orm) (now by : ℕ) (d t : Issue) (db : Db)
    → find_issue d.id db ≡ some d
    → find_issue j (commit_merge orm now by d t db)
      ≡ (if d.id == j then some (saved orm now d (closed_duplicate now d t)) else find_issue j db)
unfolding commit_merge merge_comments add_comments record_audit emit closed_duplicate
find-commit_merge j orm now by d t db row = elim (Bool-cases (d.id == j)) [
  | inl here ↦ rw here (
      subst
        (λ k.
          find_issue k (save_issue orm now d (closed_duplicate now d t) db)
          ≡ some (saved orm now d (closed_duplicate now d t)))
        ((==_iff d.id j).0 here) (find-save_issue orm now d (closed_duplicate now d t) db row))
  | inr other ↦ rw other (find-save_issue_ne j orm now d (closed_duplicate now d t) db other)
]

-- A merge that succeeds: the issues that it joined, and the state that it left.
pub merge_inv :
    (orm : Orm) (now by id : ℕ) (dto : MergeIssueDto) (db db' : Db)
    → merge orm now by id dto db ≡ ok db'
    → (d t : Issue) × IsMergeable id dto db d t × (db' ≡ commit_merge orm now by d t db)
unfolding merge
merge_inv orm now by id dto db db' h =
    let (pair, resolved, made) = >>=-eq-ok (resolve_merge id dto db) _ h in
    (pair.0, pair.1, resolve_merge_inv id dto db pair.0 pair.1 resolved, ground arith)
