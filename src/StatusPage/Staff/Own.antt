-- ===== src/StatusPage/Staff/Own.antt =====
-- What writes of components leave true of the components that incidents name.
use mathlib.Core.Path.{subst}
use cimp.Prelude.{
  ℕ, not, List, [], ◌∷◌, ◌≡◌, sym, ◌∙◌, ap, none, some, ◌==◌, arith, inl, inr, Bool-cases, All-mono,
  select,
}
use cimp.Prelude.Table.{find, put, remove, find-cons, find-put_self, find-put_ne}
use cimp.Prelude.Table.Keys.{find-remove_ne}
use cimp.StatusPage.Rows.{StatusComponent, component_id}
use cimp.StatusPage.Staff.Writes.{component_platform, platform_of, AreOwn}

pub AreOwn-mono :
    (p : ℕ) (cs cs' : List StatusComponent)
    → ((k : ℕ) → platform_of k cs ≡ some p → platform_of k cs' ≡ some p)
    → (ks : List ℕ) → AreOwn cs p ks
    → AreOwn cs' p ks
AreOwn-mono p cs cs' f ks h =
    All-mono (λ k. platform_of k cs ≡ some p) (λ k. platform_of k cs' ≡ some p) f ks h

pub AreOwn-without :
    (p id : ℕ) (cs : List StatusComponent) (ks : List ℕ)
    → AreOwn cs p ks
    → AreOwn (remove component_id id cs) p (select (λ c. not (c == id)) ks)
AreOwn-without p id cs [] h = tt
AreOwn-without p id cs (k ∷ ks) (h, hs) = elim (Bool-cases (k == id)) [
  | inl gone ↦ rw gone (AreOwn-without p id cs ks hs)
  | inr kept ↦ rw kept (
    ap component_platform (find-remove_ne component_id id k cs (ground (arith, kept))) ∙ h,
    AreOwn-without p id cs ks hs,
  )
]

-- A new component is no other, and a changed one keeps its platform.
pub platform_of-cons :
    (c : StatusComponent) (cs : List StatusComponent) (k p : ℕ)
    → find component_id c.id cs ≡ none
    → platform_of k cs ≡ some p
    → platform_of k (c ∷ cs) ≡ some p
platform_of-cons c cs k p new own = elim (Bool-cases (c.id == k)) [
  | inl here ↦
      let at : c.id ≡ k = ground (arith, here) in
      absurd (cc (subst (λ m. find component_id m cs ≡ none) at new, own))
  | inr other ↦ ap component_platform (ground (arith, other, find-cons component_id k c cs)) ∙ own
]

pub platform_of-put :
    (old c : StatusComponent) (cs : List StatusComponent) (k : ℕ)
    → find component_id c.id cs ≡ some old
    → old.platform ≡ c.platform
    → platform_of k (put component_id c cs) ≡ platform_of k cs
platform_of-put old c cs k there same = elim (Bool-cases (c.id == k)) [
  | inl here ↦
      let at : c.id ≡ k = ground (arith, here) in
      subst (λ m. platform_of m (put component_id c cs) ≡ platform_of m cs) at
        (ap component_platform (find-put_self component_id c cs old there)
          ∙ ap some (sym same)
          ∙ sym (ap component_platform there))
  | inr other ↦ ap component_platform (find-put_ne component_id k c cs other)
]
