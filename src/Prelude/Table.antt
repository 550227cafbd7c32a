-- ===== src/Prelude/Table.antt =====
-- A database table as a list of rows with a numeric key.
pub mod Keys
use mathlib.Core.Path.{subst}
use cimp.Prelude.{
  All, Bool-cases, inl, inr, ℕ, false, List, [], ◌∷◌, ◌≡◌, refl, Option, none, some, arith, ◌==◌,
  if◌then◌else◌,
}

module _ {ℓ} {A : Type ℓ} (key : A → ℕ) where
  -- `findOne({ where: { id } })`.
  unfoldable pub find : ℕ → List A → Option A
  find k [] = none
  find k (r ∷ rs) = if key r == k then some r else find k rs

  -- The write of one row under its primary key; a key that is not there changes nothing.
  unfoldable pub put : A → List A → List A
  put a [] = []
  put a (r ∷ rs) = if key r == key a then a ∷ rs else r ∷ put a rs

  -- The deletion of the row of a key.
  unfoldable pub remove : ℕ → List A → List A
  remove k [] = []
  remove k (r ∷ rs) = let rest = r ∷ remove k rs in if key r == k then rs else rest

  -- The key is the primary key: no two rows share it.
  abbrev pub IsKeyed : List A → Type ℓ
  IsKeyed [] = Unit
  IsKeyed (r ∷ rs) = (find (key r) rs ≡ none) × IsKeyed rs

  pub find-key : (k : ℕ) (rs : List A) (a : A) → find k rs ≡ some a → key a ≡ k
  unfolding find
  find-key k [] a h = ground arith
  find-key k (r ∷ rs) a h = ground (arith, find-key k rs a)

  pub find-put_self :
      (a : A) (rs : List A) (old : A)
      → find (key a) rs ≡ some old
      → find (key a) (put a rs) ≡ some a
  unfolding find put
  find-put_self a [] old h = ground arith
  find-put_self a (r ∷ rs) old h = ground (arith, find-put_self a rs old)

  pub find-put_ne :
      (k : ℕ) (a : A) (rs : List A) → (key a == k) ≡ false → find k (put a rs) ≡ find k rs
  unfolding find put
  find-put_ne k a [] h = refl
  find-put_ne k a (r ∷ rs) h = ground (arith, find-put_ne k a rs h)

  -- The first row decides, or the rest does.
  pub find-cons :
      (k : ℕ) (r : A) (rs : List A) → find k (r ∷ rs) ≡ (if key r == k then some r else find k rs)
  unfolding find
  find-cons k r rs = refl

  -- What holds of every row holds of the row that is found.
  pub find-All :
      (P : A → Type 0) (k : ℕ) (rs : List A) (a : A) → All P rs → find k rs ≡ some a → P a
  unfolding find
  find-All P k [] a h e = absurd (ground arith)
  find-All P k (r ∷ rs) a (h, hs) e = elim (Bool-cases (key r == k)) [
    | inl here ↦ let same : r ≡ a = ground (arith, here) in subst P same h
    | inr other ↦ find-All P k rs a hs (ground (arith, other))
  ]
