-- ===== src/Merge/Tests.antt =====
-- A merge on the help desk, and the resolution of the issue that it merged into.
use cimp.Prelude.{◌≡◌, ◌↔◌, refl}
use cimp.Prelude.Table.{find}
use cimp.Domain.{ok}
use cimp.Store.{Db}
use cimp.Merge.{MergeIssueDto, merge, resolve_merge, flatten_canonical, commit_merge}
use cimp.Merge.Forest.{IsForest, root, merge-IsForest}
use cimp.Merge.OneHop.{IsOneHop, HasDuplicates, merge-IsOneHop_iff}
use cimp.Scenario.{desk, counting, portal_down, login_fails, desk_unmerged}

abbrev into_portal : MergeIssueDto
into_portal = record { canonical_issue_id = 1; version = 1 }

abbrev merged_desk : Db
merged_desk = commit_merge counting 600 40 login_fails portal_down desk

merge_run : merge counting 600 40 2 into_portal desk ≡ ok merged_desk
unfolding merge resolve_merge flatten_canonical find
merge_run = refl

desk-IsForest : IsForest desk
desk-IsForest j i row = root i row (desk_unmerged j i row)

desk-IsOneHop : IsOneHop desk
desk-IsOneHop j k i t row pointed row' = desk_unmerged k t row'

merge-IsForest_example : IsForest merged_desk
merge-IsForest_example =
    merge-IsForest counting 600 40 2 into_portal desk merged_desk merge_run desk-IsForest

merge-IsOneHop_iff_example : IsOneHop merged_desk ↔ (¬ HasDuplicates desk 2)
merge-IsOneHop_iff_example =
    merge-IsOneHop_iff counting 600 40 2 into_portal desk merged_desk merge_run desk-IsOneHop
