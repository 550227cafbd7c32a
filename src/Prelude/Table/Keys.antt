-- ===== src/Prelude/Table/Keys.antt =====
-- Tables under a primary key: what writes and deletions do to lookups and to selections of rows.
use cimp.Prelude.{
  ℕ, Bool, true, false, List, [], ◌∷◌, ◌≡◌, refl, sym, none, some, arith, ◌==◌, inl, inr,
  if◌then◌else◌, Bool-cases, All, All-mono, select, map, any, ap, ◌∙◌,
}
use cimp.Prelude.Table.{find, put, remove, IsKeyed}

module _ {A : Type 0} (key : A → ℕ) where
  pub find-remove_ne :
      (k j : ℕ) (rs : List A) → (k == j) ≡ false → find key j (remove key k rs) ≡ find key j rs
  unfolding find remove
  find-remove_ne k j [] h = refl
  find-remove_ne k j (r ∷ rs) h = ground (arith, find-remove_ne k j rs h)

  remove_absent : (k : ℕ) (rs : List A) → find key k rs ≡ none → remove key k rs ≡ rs
  unfolding find remove
  remove_absent k [] h = refl
  remove_absent k (r ∷ rs) h = ground (arith, remove_absent k rs)

  pub find-remove_self :
      (k : ℕ) (rs : List A) → IsKeyed key rs → find key k (remove key k rs) ≡ none
  unfolding find remove
  find-remove_self k [] h = refl
  find-remove_self k (r ∷ rs) (h, hs) = ground (arith, h, find-remove_self k rs hs)

  find-remove-none :
      (j k : ℕ) (rs : List A) → find key j rs ≡ none → find key j (remove key k rs) ≡ none
  unfolding find remove
  find-remove-none j k [] h = refl
  find-remove-none j k (r ∷ rs) h = ground (arith, find-remove-none j k rs)

  find-put-none :
      (j : ℕ) (a : A) (rs : List A) → find key j rs ≡ none → find key j (put key a rs) ≡ none
  unfolding find put
  find-put-none j a [] h = refl
  find-put-none j a (r ∷ rs) h = ground (arith, find-put-none j a rs)

  pub find-map :
      (f : A → A)
      → ((a : A) → key (f a) ≡ key a)
      → (k : ℕ) (rs : List A)
      → find key k (map f rs) ≡ elim (find key k rs) [ none ↦ none | some a ↦ some (f a) ]
  unfolding find
  find-map f same k [] = refl
  find-map f same k (r ∷ rs) = ground (arith, same r, find-map f same k rs)

  pub IsKeyed-remove : (k : ℕ) (rs : List A) → IsKeyed key rs → IsKeyed key (remove key k rs)
  unfolding remove
  IsKeyed-remove k [] h = tt
  IsKeyed-remove k (r ∷ rs) (h, hs) =
      elim (key r == k) as (λ b. IsKeyed key (if b then rs else r ∷ remove key k rs)) [
        | true ↦ hs
        | false ↦ (find-remove-none (key r) k rs h, IsKeyed-remove k rs hs)
      ]

  pub IsKeyed-put : (a : A) (rs : List A) → IsKeyed key rs → IsKeyed key (put key a rs)
  unfolding put
  IsKeyed-put a [] h = tt
  IsKeyed-put a (r ∷ rs) (h, hs) = elim (Bool-cases (key r == key a)) [
    | inl here ↦ let same : key r ≡ key a = ground (arith, here) in rw here (rw same at h, hs)
    | inr other ↦ rw other (find-put-none (key r) a rs h, IsKeyed-put a rs hs)
  ]

  pub IsKeyed-map :
      (f : A → A)
      → ((a : A) → key (f a) ≡ key a)
      → (rs : List A) → IsKeyed key rs
      → IsKeyed key (map f rs)
  IsKeyed-map f same [] h = tt
  IsKeyed-map f same (r ∷ rs) (h, hs) =
      (rw (same r, find-map f same (key r) rs, h), IsKeyed-map f same rs hs)

  pub All-put : (P : A → Type 0) (a : A) (rs : List A) → P a → All P rs → All P (put key a rs)
  unfolding put
  All-put P a [] h hs = tt
  All-put P a (r ∷ rs) h (k, ks) =
      elim (key r == key a) as (λ b. All P (if b then a ∷ rs else r ∷ put key a rs)) [
        | true ↦ (h, ks)
        | false ↦ (k, All-put P a rs h ks)
      ]

  pub any-remove :
      (p : A → Bool) (k : ℕ) (old : A) (rs : List A)
      → find key k rs ≡ some old
      → p old ≡ false
      → any p (remove key k rs) ≡ any p rs
  unfolding find remove
  any-remove p k old [] h x = refl
  any-remove p k old (r ∷ rs) h x = ground (arith, any-remove p k old rs)

  pub All-remove : (P : A → Type 0) (k : ℕ) (rs : List A) → All P rs → All P (remove key k rs)
  unfolding remove
  All-remove P k [] h = tt
  All-remove P k (r ∷ rs) (h, hs) =
      elim (key r == k) as (λ b. All P (if b then rs else r ∷ remove key k rs)) [
        | true ↦ hs
        | false ↦ (h, All-remove P k rs hs)
      ]

  -- Writes and deletions of rows that a selection leaves out do not change it.
  pub select-put :
      (p : A → Bool) (a old : A) (rs : List A)
      → find key (key a) rs ≡ some old
      → p a ≡ false
      → p old ≡ false
      → select p (put key a rs) ≡ select p rs
  unfolding find put
  select-put p a old [] h x y = refl
  select-put p a old (r ∷ rs) h x y = ground (arith, select-put p a old rs)

  pub select-remove :
      (p : A → Bool) (k : ℕ) (old : A) (rs : List A)
      → find key k rs ≡ some old
      → p old ≡ false
      → select p (remove key k rs) ≡ select p rs
  unfolding find remove
  select-remove p k old [] h x = refl
  select-remove p k old (r ∷ rs) h x = ground (arith, select-remove p k old rs)

  find_later :
      (r : A) (rs : List A)
      → find key (key r) rs ≡ none
      → (s : A) → find key (key s) rs ≡ some s
      → find key (key s) (r ∷ rs) ≡ some s
  unfolding find
  find_later r rs absent s there = elim (Bool-cases (key r == key s)) [
    | inl clash ↦
        let same : key r ≡ key s = ground (arith, clash) in
        absurd (cc (sym absent ∙ ap (λ k. find key k rs) same ∙ there))
    | inr other ↦ rw other there
  ]

  -- Each row is the one that its key finds.
  pub IsKeyed-find : (rs : List A) → IsKeyed key rs → All (λ r. find key (key r) rs ≡ some r) rs
  unfolding find
  IsKeyed-find [] h = tt
  IsKeyed-find (r ∷ rs) (h, hs) = (
    ground arith,
    All-mono (λ s. find key (key s) rs ≡ some s) (λ s. find key (key s) (r ∷ rs) ≡ some s)
        (find_later r rs h) rs (IsKeyed-find rs hs),
  )
