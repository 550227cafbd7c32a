-- ===== src/Sla/Sweep.antt =====
-- Escalation happens once per SLA cycle.
use cimp.Prelude.{
  ℕ, ◌+◌, Bool, true, false, ◌&&◌, List, [], ◌∷◌, ◌≡◌, refl, Option, arith, ◌==◌, Bool-cases, inl,
  inr, any, length, not, Option-cases,
}
use cimp.Store.{Issue, Db, Orm}
use cimp.Store.Writes.{record_audit, emit}
use cimp.Sla.{
  Targets, SlaPolicy, is_pending, pending, is_unmarked, mark_row, mark_rows, escalate, sweep_loop,
  sweep, is_due_sql,
}

-- Whether a row of this id was selected.
abbrev lists : List (ℕ × ℕ) → ℕ → Bool
lists rows k = any (λ r. r.0 == k) rows

module _ (t : Targets) (policy_of : ℕ → Option SlaPolicy) (orm : Orm) (now : ℕ) where
  due-mark_row :
      (id : ℕ) (i : Issue)
      → is_pending t policy_of now (mark_row orm now id i)
        ≡ (is_pending t policy_of now i && not (i.id == id))
  unfolding is_pending mark_row is_unmarked is_due_sql
  due-mark_row id i = elim (Option-cases i.sla_breached_at) [
    | inl unmarked ↦ elim (Bool-cases (i.id == id)) [
      | inl here ↦ ground (arith, unmarked, here)
      | inr other ↦ ground (arith, unmarked, other)
    ]
    | inr (at, marked) ↦ ground (arith, marked)
  ]

  id-mark_row : (id : ℕ) (i : Issue) → (mark_row orm now id i).id ≡ i.id
  unfolding mark_row
  id-mark_row id i = ground arith

  -- Marking the rows of one id takes that id, and no other, from the selection.
  lists-mark_rows :
      (id k : ℕ) (is : List Issue)
      → lists (pending t policy_of now (mark_rows orm now id is)) k ≡ true
      → ((id == k) ≡ false) × (lists (pending t policy_of now is) k ≡ true)
  unfolding mark_rows pending
  lists-mark_rows id k [] h = absurd (ground arith)
  lists-mark_rows id k (i ∷ is) h = (
    ground (arith, due-mark_row id i, id-mark_row id i, lists-mark_rows id k is),
    ground (arith, due-mark_row id i, id-mark_row id i, lists-mark_rows id k is),
  )

  mark_rows_unmarked :
      (id : ℕ) (is : List Issue) → any (is_unmarked id) is ≡ false → mark_rows orm now id is ≡ is
  unfolding mark_rows mark_row
  mark_rows_unmarked id [] h = refl
  mark_rows_unmarked id (i ∷ is) h = ground (arith, mark_rows_unmarked id is)

  -- After the loop nothing that it was given is left to select.
  lists-sweep_loop :
      (rows : List (ℕ × ℕ)) (db : Db) (k : ℕ)
      → lists (pending t policy_of now (sweep_loop orm now rows db).1.issues) k ≡ true
      → (lists rows k ≡ false) × (lists (pending t policy_of now db.issues) k ≡ true)
  unfolding sweep_loop escalate emit record_audit
  lists-sweep_loop [] db k h = (refl, h)
  lists-sweep_loop ((id, platform) ∷ rows) db k h =
      elim (Bool-cases (any (is_unmarked id) db.issues)) [
        | inl fresh ↦
            let (past, before) =
              lists-sweep_loop rows (escalate orm now id platform db) k (ground (arith, fresh)) in
            let (other, there) = lists-mark_rows id k db.issues before in (ground arith, there)
        | inr stale ↦
            let (past, there) = lists-sweep_loop rows db k (ground (arith, stale)) in
            let (other, _) =
              lists-mark_rows id k db.issues (rw (mark_rows_unmarked id db.issues stale) there) in
            (ground arith, there)
      ]

  -- As many events are sent as are counted.
  events-sweep_loop :
      (rows : List (ℕ × ℕ)) (db : Db)
      → length (sweep_loop orm now rows db).1.events
        ≡ (sweep_loop orm now rows db).0 + length db.events
  unfolding sweep_loop escalate emit record_audit
  events-sweep_loop [] db = omega arith
  events-sweep_loop ((id, platform) ∷ rows) db =
      elim (Bool-cases (any (is_unmarked id) db.issues)) [
        | inl fresh ↦
            ground (arith, fresh, events-sweep_loop rows (escalate orm now id platform db))
        | inr stale ↦ ground (arith, stale, events-sweep_loop rows db)
      ]

lists_nothing : (rows : List (ℕ × ℕ)) → ((k : ℕ) → lists rows k ≡ false) → rows ≡ []
lists_nothing [] h = refl
lists_nothing (r ∷ rows) h = absurd (ground (arith, h r.0))

-- A sweep reports as many escalations as it sends events, and a second sweep at the same time
-- finds nothing to escalate and changes nothing.
pub sweep_once :
    (orm : Orm) (t : Targets) (policy_of : ℕ → Option SlaPolicy) (now : ℕ) (db : Db)
    → let first = sweep orm t policy_of true now db in
      (length first.1.events ≡ first.0 + length db.events)
      × (sweep orm t policy_of true now first.1 ≡ (0, first.1))
unfolding sweep sweep_loop
sweep_once orm t policy_of now db =
    let rows = pending t policy_of now db.issues in
    let last = (sweep_loop orm now rows db).1 in
    let nothing : pending t policy_of now last.issues ≡ [] =
      lists_nothing (pending t policy_of now last.issues) (λ k.
        elim (Bool-cases (lists (pending t policy_of now last.issues) k)) [
          | inl still ↦
              let (past, there) = lists-sweep_loop t policy_of orm now rows db k still in
              absurd (ground arith)
          | inr gone ↦ gone
        ]) in
    (events-sweep_loop t policy_of orm now rows db, rw nothing)
