-- ===== src/Scanning/Batch.antt =====
-- The batch of the sweep of src/scanning/scan-retry.service.ts: its rows are apart, each is the one
-- of its id, and it is as long as it may be.
use cimp.Prelude.{
  ℕ, zero, suc, ◌-◌, Bool, true, false, List, [], ◌∷◌, ◌≡◌, refl, ap, ◌∙◌, none, some, ◌==◌, arith,
  inl, inr, Bool-cases, All, All-select, All-sort_by, All-insert_by, All-take, select, insert_by,
  sort_by, take, length, count, if◌then◌else◌,
}
use cimp.Prelude.Table.{find, put, IsKeyed}

module _ {A : Type 0} (key : A → ℕ) where
  abbrev pub AreApart : List A → Type 0
  AreApart [] = Unit
  AreApart (a ∷ rows) = All (λ b. (key b == key a) ≡ false) rows × AreApart rows

  absent_apart :
      (k : ℕ) (rows : List A) → find key k rows ≡ none → All (λ b. (key b == k) ≡ false) rows
  unfolding find
  absent_apart k [] h = tt
  absent_apart k (a ∷ rows) h = elim (Bool-cases (key a == k)) [
    | inl here ↦ absurd (ground (arith, here, h))
    | inr other ↦ (other, absent_apart k rows (ground (arith, other, h)))
  ]

  pub IsKeyed-AreApart : (rows : List A) → IsKeyed key rows → AreApart rows
  IsKeyed-AreApart [] h = tt
  IsKeyed-AreApart (a ∷ rows) (h, hs) = (absent_apart (key a) rows h, IsKeyed-AreApart rows hs)

  pub AreApart-select : (p : A → Bool) (rows : List A) → AreApart rows → AreApart (select p rows)
  AreApart-select p [] h = tt
  AreApart-select p (a ∷ rows) (h, hs) =
      elim (p a) as (λ b. AreApart (if b then a ∷ select p rows else select p rows)) [
        | true ↦ (All-select (λ b. (key b == key a) ≡ false) p rows h, AreApart-select p rows hs)
        | false ↦ AreApart-select p rows hs
      ]

  AreApart-insert_by :
      (le : A → A → Bool) (a : A) (rows : List A)
      → All (λ b. (key b == key a) ≡ false) rows
      → AreApart rows
      → AreApart (insert_by le a rows)
  AreApart-insert_by le a [] h hs = (tt, tt)
  AreApart-insert_by le a (b ∷ rows) (h, hs) (k, ks) =
      elim (le a b) as (λ c. AreApart (if c then a ∷ b ∷ rows else b ∷ insert_by le a rows)) [
        | true ↦ ((h, hs), (k, ks))
        | false ↦ (
          All-insert_by (λ c. (key c == key b) ≡ false) le a rows (ground (arith, h)) k,
          AreApart-insert_by le a rows hs ks,
        )
      ]

  pub AreApart-sort_by :
      (le : A → A → Bool) (rows : List A) → AreApart rows → AreApart (sort_by le rows)
  AreApart-sort_by le [] h = tt
  AreApart-sort_by le (a ∷ rows) (h, hs) =
      AreApart-insert_by le a (sort_by le rows)
        (All-sort_by (λ b. (key b == key a) ≡ false) le rows h) (AreApart-sort_by le rows hs)

  pub AreApart-take : (n : ℕ) (rows : List A) → AreApart rows → AreApart (take n rows)
  AreApart-take zero rows h = tt
  AreApart-take (suc n) [] h = tt
  AreApart-take (suc n) (a ∷ rows) (h, hs) =
      (All-take (λ b. (key b == key a) ≡ false) n rows h, AreApart-take n rows hs)

  -- A write that makes one row fail a test.
  pub count-put :
      (p : A → Bool) (a old : A) (rows : List A)
      → find key (key a) rows ≡ some old
      → p old ≡ true
      → p a ≡ false
      → count p rows ≡ suc (count p (put key a rows))
  unfolding find put
  count-put p a old [] h passes fails = absurd (cc h)
  count-put p a old (r ∷ rows) h passes fails = elim (Bool-cases (key r == key a)) [
    | inl here ↦
        let same : r ≡ old = ground (arith, h, here) in
        let passed : p r ≡ true = ap p same ∙ passes in ground (arith, here, passed, fails)
    | inr other ↦
        let rest = count-put p a old rows (ground (arith, h, other)) passes fails in
        ground (arith, other, rest)
  ]

module _ {A : Type 0} where
  length-insert_by :
      (le : A → A → Bool) (a : A) (rows : List A) → length (insert_by le a rows) ≡ suc (length rows)
  length-insert_by le a [] = refl
  length-insert_by le a (b ∷ rows) = ground (arith, length-insert_by le a rows)

  pub length-sort_by : (le : A → A → Bool) (rows : List A) → length (sort_by le rows) ≡ length rows
  length-sort_by le [] = refl
  length-sort_by le (a ∷ rows) =
      length-insert_by le a (sort_by le rows) ∙ ap suc (length-sort_by le rows)

  pub length-select : (p : A → Bool) (rows : List A) → length (select p rows) ≡ count p rows
  length-select p [] = refl
  length-select p (a ∷ rows) = ground (arith, length-select p rows)

  -- What is taken, and what is not.
  pub length-take_rest :
      (n : ℕ) (rows : List A) → length rows - length (take n rows) ≡ length rows - n
  length-take_rest zero rows = omega arith
  length-take_rest (suc n) [] = omega arith
  length-take_rest (suc n) (a ∷ rows) = omega (arith, length-take_rest n rows)

  pub select-eq_of_All :
      (p q : A → Bool) (rows : List A) → All (λ a. p a ≡ q a) rows → select p rows ≡ select q rows
  select-eq_of_All p q [] h = refl
  select-eq_of_All p q (a ∷ rows) (h, hs) = ground (arith, h, select-eq_of_All p q rows hs)
