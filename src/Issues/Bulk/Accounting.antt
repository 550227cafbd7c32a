-- ===== src/Issues/Bulk/Accounting.antt =====
-- What a bulk update reports, what it touches, and what its refusals tell.
use cimp.Prelude.{
  ℕ, ◌+◌, true, false, List, [], ◌∷◌, ◌≡◌, refl, Option, some, map, arith, String, length, ◌⊎◌, inl,
  inr, Bool-cases, Option-cases, ==_iff, ◌==◌, sym, ◌∙◌, All,
}
use cimp.Domain.{ok}
use cimp.Authz.{staff_write_roles, can_access_platform, scoped_platform_ids}
use cimp.Store.{Issue, Db}
use cimp.Store.Writes.{find_issue}
use cimp.Issues.{Context, load_for_write}
use cimp.Issues.Effect.{
  >>=-eq-ok, Result-cases, find-commit_ne, apply_status_inv, apply_priority_inv,
  apply_assignment_inv,
}
use cimp.Issues.Lifecycle.{
  IsConsistentDb, load_for_write_inv, side_effects-id, apply_status-IsConsistentDb,
  apply_priority-IsConsistentDb, apply_assignment-IsConsistentDb,
}
use cimp.Issues.Bulk.{
  BulkUpdateDto, BulkResult, Reason, not_visible, Change, to_status, to_priority, to_assignee,
  Outcome, done, skip, validate, apply_change, outcome_of, reason_of, bulk_one, bulk_loop,
  bulk_update, is_empty_scope,
}

Outcome-cases : (o : Outcome) → ((db : Db) × (o ≡ done db)) ⊎ ((r : Reason) × (o ≡ skip r))
Outcome-cases (done db) = inl (db, refl)
Outcome-cases (skip r) = inr (r, refl)

bulk_loop_counts :
    (c : Context) (change : Change) (ids : List ℕ) (db : Db)
    → (bulk_loop c change ids db).0.updated + length (bulk_loop c change ids db).0.skipped
      ≡ length ids
unfolding bulk_loop
bulk_loop_counts c change [] db = refl
bulk_loop_counts c change (id ∷ ids) db = elim (Outcome-cases (bulk_one c change id db)) [
  | inl (db', written) ↦ ground (arith, written, bulk_loop_counts c change ids db')
  | inr (r, skipped) ↦ ground (arith, skipped, bulk_loop_counts c change ids db)
]

length-map_pair :
    (r : Reason) (ids : List ℕ) → length {A = ℕ × Reason} (map (λ id. (id, r)) ids) ≡ length ids
length-map_pair r [] = refl
length-map_pair r (id ∷ ids) = omega (arith, length-map_pair r ids)

-- Every id of a bulk update that is answered is either updated or skipped: the two add up to the
-- number of ids, repeated ones counted each time.
pub bulk_update_counts :
    (as_uuid : String → Option ℕ) (c : Context) (dto : BulkUpdateDto) (db : Db)
    (r : BulkResult × Db)
    → bulk_update as_uuid c dto db ≡ ok r
    → r.0.updated + length r.0.skipped ≡ length dto.ids
unfolding bulk_update
bulk_update_counts as_uuid c dto db r h =
    elim (Bool-cases (is_empty_scope (scoped_platform_ids c.staff))) [
      | inl nothing ↦ ground (arith, nothing, length-map_pair not_visible dto.ids)
      | inr something ↦
          let (change, _, looped) =
            >>=-eq-ok (validate as_uuid dto.op dto.value) _ (rw (something) at h) in
          ground (arith, looped, bulk_loop_counts c change dto.ids db)
    ]

-- A write of the loop: the issue was found, the caller has a write role on its platform, and the
-- change was applied.
bulk_one_inv :
    (c : Context) (change : Change) (id : ℕ) (db db' : Db)
    → bulk_one c change id db ≡ done db'
    → (i : Issue) × (i.id ≡ id)
      × (find_issue i.id db ≡ some i)
      × (can_access_platform c.staff i.platform staff_write_roles ≡ true)
      × (apply_change c i change db ≡ ok db')
unfolding bulk_one outcome_of
bulk_one_inv c change id db db' h = elim (Result-cases (load_for_write id db)) [
  | inl (i, loaded) ↦
      let (same, there) = load_for_write_inv id db i loaded in
      (i, same, there, ground (arith, loaded), ground (arith, loaded))
  | inr (e, failed) ↦ absurd (ground (arith, failed))
]

module _ (c : Context) where
  bulk_one-IsConsistentDb :
      (change : Change) (id : ℕ) (db db' : Db)
      → bulk_one c change id db ≡ done db'
      → IsConsistentDb db
      → IsConsistentDb db'
  unfolding apply_change
  bulk_one-IsConsistentDb (to_status s) id db db' h old =
      let (i, _, there, _, made) = bulk_one_inv c (to_status s) id db db' h in
      apply_status-IsConsistentDb c db db' old i _ there made
  bulk_one-IsConsistentDb (to_priority p) id db db' h old =
      let (i, _, there, _, made) = bulk_one_inv c (to_priority p) id db db' h in
      apply_priority-IsConsistentDb c db db' old i _ there made
  bulk_one-IsConsistentDb (to_assignee a) id db db' h old =
      let (i, _, there, _, made) = bulk_one_inv c (to_assignee a) id db db' h in
      apply_assignment-IsConsistentDb c db db' old i _ there made

  pub bulk_loop-IsConsistentDb :
      (change : Change) (ids : List ℕ) (db : Db)
      → IsConsistentDb db
      → IsConsistentDb (bulk_loop c change ids db).1
  unfolding bulk_loop
  bulk_loop-IsConsistentDb change [] db old = old
  bulk_loop-IsConsistentDb change (id ∷ ids) db old =
      elim (Outcome-cases (bulk_one c change id db)) [
        | inl (db', written) ↦
            rw (written, bulk_loop)
              (bulk_loop-IsConsistentDb change ids db'
                (bulk_one-IsConsistentDb change id db db' written old))
        | inr (r, skipped) ↦ rw (skipped, bulk_loop) (bulk_loop-IsConsistentDb change ids db old)
      ]

-- A successful write of one issue leaves every other row as it was.
apply_change_frame :
    (c : Context) (change : Change) (i : Issue) (j : ℕ) (db db' : Db)
    → find_issue i.id db ≡ some i
    → (i.id == j) ≡ false
    → apply_change c i change db ≡ ok db'
    → find_issue j db' ≡ find_issue j db
unfolding apply_change
apply_change_frame c (to_status s) i j db db' there other h =
    let (_, _, _, made) = apply_status_inv c i db db' _ h in
    rw made (find-commit_ne j c i _ _ _ db there (side_effects-id c.now s _) other)
apply_change_frame c (to_priority p) i j db db' there other h =
    let (_, _, made) = apply_priority_inv c i db db' _ h in
    rw made (find-commit_ne j c i _ _ _ db there refl other)
apply_change_frame c (to_assignee a) i j db db' there other h =
    let (_, _, made) = apply_assignment_inv c i db db' _ h in
    rw made (find-commit_ne j c i _ _ _ db there refl other)

module _ (c : Context) (change : Change) (j : ℕ) (i : Issue)
    (barred : can_access_platform c.staff i.platform staff_write_roles ≡ false) where
  bulk_one_barred :
      (id : ℕ) (db db' : Db)
      → find_issue j db ≡ some i
      → bulk_one c change id db ≡ done db'
      → find_issue j db' ≡ some i
  bulk_one_barred id db db' row h =
      let (k, _, there, allowed, made) = bulk_one_inv c change id db db' h in
      elim (Bool-cases (k.id == j)) [
        | inl same ↦
            let clash : some k ≡ some i = sym there ∙ (rw ((==_iff k.id j).0 same) row) in
            absurd (ground (arith, clash))
        | inr other ↦ apply_change_frame c change k j db db' there other made ∙ row
      ]

  bulk_loop_barred :
      (ids : List ℕ) (db : Db)
      → find_issue j db ≡ some i
      → find_issue j (bulk_loop c change ids db).1 ≡ some i
  unfolding bulk_loop
  bulk_loop_barred [] db row = row
  bulk_loop_barred (id ∷ ids) db row = elim (Outcome-cases (bulk_one c change id db)) [
    | inl (db', written) ↦
        rw (written, bulk_loop) (bulk_loop_barred ids db' (bulk_one_barred id db db' row written))
    | inr (r, skipped) ↦ rw (skipped, bulk_loop) (bulk_loop_barred ids db row)
  ]

-- An issue on a platform where the caller has no write role keeps its row through every bulk
-- update that is answered, whatever ids, operation and value it names.
pub bulk_update_isolation :
    (as_uuid : String → Option ℕ) (c : Context) (dto : BulkUpdateDto) (db : Db) (j : ℕ) (i : Issue)
    (r : BulkResult × Db)
    → find_issue j db ≡ some i
    → can_access_platform c.staff i.platform staff_write_roles ≡ false
    → bulk_update as_uuid c dto db ≡ ok r
    → find_issue j r.1 ≡ some i
unfolding bulk_update
bulk_update_isolation as_uuid c dto db j i r row barred h =
    elim (Bool-cases (is_empty_scope (scoped_platform_ids c.staff))) [
      | inl nothing ↦ ground (arith, nothing)
      | inr something ↦
          let (change, _, looped) =
            >>=-eq-ok (validate as_uuid dto.op dto.value) _ (rw something at h) in
          ground (arith, looped, bulk_loop_barred c change j i barred dto.ids db)
    ]

-- An id that the caller may not write: no issue has it, or one on a platform without a write role.
abbrev pub IsHidden : Context → Db → ℕ → Type 0
IsHidden c db id =
    (i : Issue)
    → find_issue id db ≡ some i
    → can_access_platform c.staff i.platform staff_write_roles ≡ false

bulk_one_hidden :
    (c : Context) (change : Change) (id : ℕ) (db : Db)
    → IsHidden c db id
    → bulk_one c change id db ≡ skip not_visible
unfolding bulk_one load_for_write reason_of
bulk_one_hidden c change id db h = elim (Option-cases (find_issue id db)) [
  | inl missing ↦ ground (arith, missing)
  | inr (i, there) ↦ ground (arith, there, h i there)
]

bulk_loop_hidden :
    (c : Context) (change : Change) (ids : List ℕ) (db : Db)
    → All (IsHidden c db) ids
    → bulk_loop c change ids db
      ≡ (record { updated = 0; skipped = map (λ id. (id, not_visible)) ids }, db)
unfolding bulk_loop
bulk_loop_hidden c change [] db h = refl
bulk_loop_hidden c change (id ∷ ids) db (h, hs) =
    rw (bulk_one_hidden c change id db h, bulk_loop) (rw (bulk_loop_hidden c change ids db hs))

-- A bulk update over ids that the caller may not write changes nothing, and its answer does not
-- depend on which of the ids exist: each is skipped for the one reason that hides both cases.
pub bulk_update_hides :
    (as_uuid : String → Option ℕ) (c : Context) (dto : BulkUpdateDto) (db : Db)
    (r : BulkResult × Db)
    → All (IsHidden c db) dto.ids
    → bulk_update as_uuid c dto db ≡ ok r
    → r ≡ (record { updated = 0; skipped = map (λ id. (id, not_visible)) dto.ids }, db)
unfolding bulk_update
bulk_update_hides as_uuid c dto db r hidden h =
    elim (Bool-cases (is_empty_scope (scoped_platform_ids c.staff))) [
      | inl nothing ↦ ground (arith, nothing)
      | inr something ↦
          let (change, _, looped) =
            >>=-eq-ok (validate as_uuid dto.op dto.value) _ (rw something at h) in
          ground (arith, looped, bulk_loop_hidden c change dto.ids db hidden)
    ]
