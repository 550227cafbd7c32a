-- ===== src/Merge/OneHop.antt =====
-- How long the chains of pointers are.
use mathlib.Core.Path.{subst}
use cimp.Prelude.{ℕ, ◌≡◌, ◌↔◌, sym, ◌∙◌, none, some, arith, ◌==◌, ==_iff, inl, inr, Bool-cases}
use cimp.Domain.{ok}
use cimp.Store.{Issue, Db, Orm}
use cimp.Store.Writes.{find_issue, saved}
use cimp.Merge.{MergeIssueDto, closed_duplicate, merge, commit_merge}
use cimp.Merge.Effect.{IsMergeable, merge_inv}
use cimp.Merge.Forest.{merged_frame, merged_row}

-- What an issue points to is no duplicate itself.
abbrev pub IsOneHop : Db → Type 0
IsOneHop db =
    (j k : ℕ) (i t : Issue)
    → find_issue j db ≡ some i
    → i.duplicate_of ≡ some k
    → find_issue k db ≡ some t
    → t.duplicate_of ≡ none

-- Some issue was merged into this one before.
abbrev pub HasDuplicates : Db → ℕ → Type 0
HasDuplicates db d = (j : ℕ) × (i : Issue) × (find_issue j db ≡ some i) × (i.duplicate_of ≡ some d)

module _ (orm : Orm) (now by id : ℕ) (dto : MergeIssueDto) (db : Db) (d t : Issue)
    (m : IsMergeable id dto db d t) where
  two_hops : HasDuplicates db d.id → IsOneHop (commit_merge orm now by d t db) → ⊥
  unfolding closed_duplicate
  two_hops (j, i, row, pointed) one = elim (Bool-cases (d.id == j)) [
    | inl here ↦
        let row_d : find_issue j db ≡ some d =
          subst (λ k. find_issue k db ≡ some d) ((==_iff d.id j).0 here) m.duplicate_found in
        let unmerged = m.duplicate_unmerged in ground (arith, row, row_d)
    | inr other ↦
        let none_there =
          one j d.id i (saved orm now d (closed_duplicate now d t))
            (merged_frame orm now by id dto db d t m j other ∙ row) pointed
            (merged_row orm now by id dto db d t m) in
        cc none_there
  ]

  one_hop : IsOneHop db → ¬ HasDuplicates db d.id → IsOneHop (commit_merge orm now by d t db)
  unfolding closed_duplicate
  one_hop old alone j k i r row pointed row' = elim (Bool-cases (d.id == j)) [
    | inl here ↦
        let row_d : find_issue j (commit_merge orm now by d t db)
            ≡ some (saved orm now d (closed_duplicate now d t)) =
          subst
            (λ k.
              find_issue k (commit_merge orm now by d t db)
              ≡ some (saved orm now d (closed_duplicate now d t)))
            ((==_iff d.id j).0 here) (merged_row orm now by id dto db d t m) in
        let target : t.id ≡ k = ground (arith, row, row_d, pointed) in
        let row_t : find_issue k (commit_merge orm now by d t db) ≡ some t =
          subst (λ k. find_issue k (commit_merge orm now by d t db) ≡ some t) target
            (merged_frame orm now by id dto db d t m t.id (ground (arith, m.distinct))
              ∙ m.canonical_found) in
        let unmerged = m.canonical_unmerged in ground (arith, row', row_t)
    | inr other ↦
        let row_j = sym (merged_frame orm now by id dto db d t m j other) ∙ row in
        elim (Bool-cases (d.id == k)) [
          | inl there ↦ absurd (
              alone (
                j,
                i,
                row_j,
                subst (λ x. i.duplicate_of ≡ some x) (sym ((==_iff d.id k).0 there)) pointed,
              ))
          | inr elsewhere ↦
              old j k i r row_j pointed
                (sym (merged_frame orm now by id dto db d t m k elsewhere) ∙ row')
        ]
  ]

-- The pointers stay one hop long through a merge exactly when nothing was merged into the
-- duplicate before. If something was, flattening looks only at the canonical side, and the earlier
-- duplicates are left two hops from the issue whose resolution they wait for.
pub merge-IsOneHop_iff :
    (orm : Orm) (now by id : ℕ) (dto : MergeIssueDto) (db db' : Db)
    → merge orm now by id dto db ≡ ok db'
    → IsOneHop db
    → IsOneHop db' ↔ (¬ HasDuplicates db id)
merge-IsOneHop_iff orm now by id dto db db' h old =
    let (d, t, m, made) = merge_inv orm now by id dto db db' h in
    (
      λ one has.
          two_hops orm now by id dto db d t m (subst (HasDuplicates db) (sym m.duplicate_id) has)
            (subst IsOneHop made one),
      λ alone. subst IsOneHop (sym made) (
          one_hop orm now by id dto db d t m old
            (λ has. alone (subst (HasDuplicates db) m.duplicate_id has))),
    )
