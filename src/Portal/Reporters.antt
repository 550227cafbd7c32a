-- ===== src/Portal/Reporters.antt =====
-- The identity of a reporter: src/reporter/reporter-upsert.ts, and findReporter of
-- reporter.service.ts.
use mathlib.Core.Path.{subst}
use cimp.Prelude.{
  ℕ, Bool, true, false, ◌&&◌, List, [], ◌∷◌, ◌≡◌, refl, sym, ap, Option, none, some, ◌==◌,
  if◌then◌else◌, arith, inl, inr, Bool-cases, ==_iff,
}
use cimp.Prelude.Table.{find, put, IsKeyed}
use cimp.Prelude.Text.{same_text, same_text_refl}
use cimp.Portal.Rows.{HandoffContext, Reporter, Portal, reporter_id}

-- The reporter that a context names: the platform and the portal's id of the user.
unfoldable pub is_named : HandoffContext → Reporter → Bool
is_named ctx r = r.platform == ctx.platform && same_text r.portal_user ctx.portal_user

unfoldable pub find_reporter : HandoffContext → List Reporter → Option Reporter
unfolding is_named same_text
find_reporter ctx [] = none
find_reporter ctx (r ∷ rs) = if is_named ctx r then some r else find_reporter ctx rs

unfoldable pub new_reporter : ℕ → HandoffContext → Reporter
new_reporter fresh ctx = record {
  id = fresh;
  platform = ctx.platform;
  portal_user = ctx.portal_user;
  name = ctx.name;
  email = ctx.email;
}

-- upsertReporter, where no other request comes between its look-up and its save: the reporter, and
-- the table after it. `fresh` is the id that the database generates.
unfoldable pub upserted : ℕ → HandoffContext → Option Reporter → Reporter
upserted fresh ctx none = new_reporter fresh ctx
upserted fresh ctx (some r) = record r { name = ctx.name; email = ctx.email }

unfoldable pub save_reporter : Option Reporter → Reporter → List Reporter → List Reporter
save_reporter none r rs = r ∷ rs
save_reporter (some old) r rs = put reporter_id r rs

unfoldable pub upsert_reporter : ℕ → HandoffContext → Portal → Reporter × Portal
upsert_reporter fresh ctx d =
    let old = find_reporter ctx d.reporters in
    let r = upserted fresh ctx old in (r, record d { reporters = save_reporter old r d.reporters })

-- A row that is found is named, and is not a row whose key the table does not have.
find_reporter_other :
    (ctx : HandoffContext) (k : ℕ) (r : Reporter) (rs : List Reporter)
    → find_reporter ctx rs ≡ some r
    → find reporter_id k rs ≡ none
    → (k == r.id) ≡ false
unfolding find_reporter find
find_reporter_other ctx k r [] h absent = absurd (cc h)
find_reporter_other ctx k r (x ∷ xs) h absent = elim (Bool-cases (is_named ctx x)) [
  | inl here ↦
      let same : x ≡ r = ground (arith, h, here) in
      rw (sym same) (ground (arith, absent, ==_iff x.id k))
  | inr other ↦ find_reporter_other ctx k r xs (ground (arith, h, other)) (ground (arith, absent))
]

pub is_named_found :
    (ctx : HandoffContext) (r : Reporter) (rs : List Reporter)
    → find_reporter ctx rs ≡ some r
    → is_named ctx r ≡ true
unfolding find_reporter
is_named_found ctx r [] h = absurd (cc h)
is_named_found ctx r (x ∷ xs) h = elim (Bool-cases (is_named ctx x)) [
  | inl here ↦
      let same : x ≡ r = ground (arith, h, here) in subst (λ y. is_named ctx y ≡ true) same here
  | inr other ↦ is_named_found ctx r xs (ground (arith, h, other))
]

find_reporter-put :
    (ctx : HandoffContext) (old r : Reporter) (rs : List Reporter)
    → IsKeyed reporter_id rs
    → find_reporter ctx rs ≡ some old
    → r.id ≡ old.id
    → is_named ctx r ≡ true
    → find_reporter ctx (put reporter_id r rs) ≡ some r
unfolding find_reporter put
find_reporter-put ctx old r [] keyed h same named = absurd (cc h)
find_reporter-put ctx old r (x ∷ xs) (k, ks) h same named = elim (Bool-cases (is_named ctx x)) [
  | inl here ↦
      let it : x ≡ old = ground (arith, h, here) in
      let same_id : (x.id == r.id) ≡ true = ground (arith, ap (λ y. y.id) it, same) in
      ground (arith, same_id, named)
  | inr other ↦
      let later : find_reporter ctx xs ≡ some old = ground (arith, h, other) in
      let apart = find_reporter_other ctx x.id old xs later k in
      let differ : (x.id == r.id) ≡ false = ground (arith, apart, same) in
      ground (arith, differ, other, find_reporter-put ctx old r xs ks later same named)
]

-- The reporter is known after an upsert.
pub find_reporter-upsert_reporter :
    (fresh : ℕ) (ctx : HandoffContext) (d : Portal)
    → IsKeyed reporter_id d.reporters
    → find_reporter ctx (upsert_reporter fresh ctx d).1.reporters
      ≡ some (upsert_reporter fresh ctx d).0
unfolding upsert_reporter upserted new_reporter save_reporter find_reporter is_named
find_reporter-upsert_reporter fresh ctx d keyed = go (find_reporter ctx d.reporters) refl
  where
    go :
        (o : Option Reporter)
        → find_reporter ctx d.reporters ≡ o
        → find_reporter ctx (save_reporter o (upserted fresh ctx o) d.reporters)
          ≡ some (upserted fresh ctx o)
    go none h = ground (arith, same_text_refl ctx.portal_user)
    go (some old) h =
        find_reporter-put ctx old (upserted fresh ctx (some old)) d.reporters keyed h refl
          (is_named_found ctx old d.reporters h)
