-- ===== src/Merge/FanOut.antt =====
-- Who is told of a resolution.
use cimp.Prelude.{
  ℕ, Bool, List, [], ◌∷◌, ◌≡◌, some, arith, ◌==◌, inl, inr, Bool-cases, holds_id, ◌&&◌,
}
use cimp.Prelude.Table.{find}
use cimp.Store.{Issue, Comment, Orm, issue_id}
use cimp.Merge.{touch, fan_out_rows}

-- A comment on the issue `j`; a row of the issue `j` that points to `canonical`.
abbrev pub comments_on : ℕ → Comment → Bool
comments_on j cm = cm.issue == j

abbrev pub points_from : ℕ → ℕ → Issue → Bool
points_from j canonical i = i.id == j && holds_id i.duplicate_of canonical

-- The rows keep all but the columns that the ORM manages.
pub find-fan_out_rows :
    (orm : Orm) (now canonical j : ℕ) (is : List Issue) (i : Issue)
    → find issue_id j (fan_out_rows orm now canonical is) ≡ some i
    → (k : Issue) × (find issue_id j is ≡ some k)
      × (i ≡ record k { version = i.version; updated_at = i.updated_at })
unfolding fan_out_rows touch find
find-fan_out_rows orm now canonical j [] i h = absurd (ground arith)
find-fan_out_rows orm now canonical j (k ∷ is) i h = elim (Bool-cases (k.id == j)) [
  | inl here ↦ (k, ground arith, ground arith)
  | inr other ↦
      let (r, row, same) = find-fan_out_rows orm now canonical j is i (ground arith) in
      (r, ground (arith, row), same)
]
