-- ===== src/Merge/Forest.antt =====
-- Following `duplicate_of` from any issue ends at an issue that is no duplicate.
use mathlib.Core.Path.{subst}
use cimp.Prelude.{
  ℕ, false, ◌≡◌, refl, sym, ◌∙◌, none, some, arith, ◌==◌, ==_iff, inl, inr, Bool-cases,
}
use cimp.Domain.{ok}
use cimp.Store.{Issue, Db, Orm}
use cimp.Store.Writes.{find_issue, saved}
use cimp.Merge.{MergeIssueDto, closed_duplicate, merge, commit_merge}
use cimp.Merge.Effect.{IsMergeable, find-commit_merge, merge_inv}

-- The chain of pointers that starts at an issue and ends.
pub data Resolves (db : Db) : ℕ → Type 0 where
  root : {j : ℕ} (i : Issue) → find_issue j db ≡ some i → i.duplicate_of ≡ none → Resolves db j
  via :
      {j : ℕ} (i : Issue) (k : ℕ)
      → find_issue j db ≡ some i
      → i.duplicate_of ≡ some k
      → Resolves db k
      → Resolves db j

abbrev pub IsForest : Db → Type 0
IsForest db = (j : ℕ) (i : Issue) → find_issue j db ≡ some i → Resolves db j

-- A write under one key keeps every chain, if there is one from that key afterwards.
Resolves-frame :
    {db db' : Db} (d : ℕ) {j : ℕ}
    → ((k : ℕ) → (d == k) ≡ false → find_issue k db' ≡ find_issue k db)
    → Resolves db' d
    → Resolves db j
    → Resolves db' j
Resolves-frame d {j} frame target (root i row alone) = elim (Bool-cases (d == j)) [
  | inl here ↦ subst (Resolves _) ((==_iff d j).0 here) target
  | inr other ↦ root i (frame j other ∙ row) alone
]
Resolves-frame d {j} frame target (via i k row pointed rest) = elim (Bool-cases (d == j)) [
  | inl here ↦ subst (Resolves _) ((==_iff d j).0 here) target
  | inr other ↦ via i k (frame j other ∙ row) pointed (Resolves-frame d frame target rest)
]

module _ (orm : Orm) (now by id : ℕ) (dto : MergeIssueDto) (db : Db) (d t : Issue)
    (m : IsMergeable id dto db d t) where
  pub merged_frame :
      (k : ℕ)
      → (d.id == k) ≡ false
      → find_issue k (commit_merge orm now by d t db) ≡ find_issue k db
  merged_frame k other = ground (arith, find-commit_merge k orm now by d t db m.duplicate_found)

  pub merged_row :
      find_issue d.id (commit_merge orm now by d t db)
      ≡ some (saved orm now d (closed_duplicate now d t))
  merged_row = ground (arith, find-commit_merge d.id orm now by d t db m.duplicate_found)

  merged_target : Resolves (commit_merge orm now by d t db) d.id
  unfolding closed_duplicate
  merged_target = via (saved orm now d (closed_duplicate now d t)) t.id merged_row refl (
      root t (merged_frame t.id (ground (arith, m.distinct)) ∙ m.canonical_found)
        m.canonical_unmerged)

  merged-IsForest : IsForest db → IsForest (commit_merge orm now by d t db)
  merged-IsForest old j i row = elim (Bool-cases (d.id == j)) [
    | inl here ↦ subst (Resolves _) ((==_iff d.id j).0 here) merged_target
    | inr other ↦
        Resolves-frame d.id merged_frame merged_target (old j i (sym (merged_frame j other) ∙ row))
  ]

-- If from every issue the pointers end, they do so after every merge that goes through: no merge
-- makes an issue a duplicate of itself, however many merges lie between.
pub merge-IsForest :
    (orm : Orm) (now by id : ℕ) (dto : MergeIssueDto) (db db' : Db)
    → merge orm now by id dto db ≡ ok db'
    → IsForest db
    → IsForest db'
merge-IsForest orm now by id dto db db' h old =
    let (d, t, m, made) = merge_inv orm now by id dto db db' h in
    subst IsForest (sym made) (merged-IsForest orm now by id dto db d t m old)
