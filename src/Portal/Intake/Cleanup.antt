-- ===== src/Portal/Intake/Cleanup.antt =====
-- The storage after the uploads and after the deletions of an intake that fails
-- (src/reporter/reporter.service.ts).
use mathlib.Core.Path.{subst}
use cimp.Prelude.{
  ℕ, ◌+◌, true, false, not, List, [], ◌∷◌, ◌++◌, ◌≡◌, refl, sym, ap, ◌∙◌, Option, some, ◌==◌, All,
  All-mono, All-both, arith, inl, inr, Bool-cases, select,
}
use cimp.Prelude.Table.{find, remove}
use cimp.Prelude.Text.{Text}
use cimp.ContextSanitizer.{Value}
use cimp.Portal.Rows.{Blob, blob_key}
use cimp.Portal.Intake.{
  UploadedFile, Stored, Surroundings, save_files, fulfilled, written, delete_files,
}
use cimp.Portal.Intake.Files.{
  IsFresh, saved, saved-cons, IsLater, saved-IsLater, later_other, later_unused, find-written_ne,
  find-delete_files, delete_files-cons,
}

module _ (parse_json : Text → Option Value) (json_bytes : Value → ℕ) (w : Surroundings) where
  -- The files that were stored are found, and those that the storage deletes go, where each stands
  -- under a key of its own.
  abbrev AreFound : List (Stored × Blob) → List Blob → Type 0
  AreFound rs blobs = All (λ r. find blob_key r.0.storage_key blobs ≡ some r.1) rs

  found-cons :
      (r : Stored × Blob) (rs : List (Stored × Blob)) (blobs : List Blob)
      → r.1.key ≡ r.0.storage_key
      → All (λ s. (s.1.key ≡ s.0.storage_key) × ((s.0.storage_key == r.0.storage_key) ≡ false)) rs
      → AreFound rs (written parse_json json_bytes w rs ++ blobs)
      → AreFound (r ∷ rs) (written parse_json json_bytes w (r ∷ rs) ++ blobs)
  unfolding written find
  found-cons r rs blobs same apart found = (
    ground (arith, same),
    All-both (λ s. (s.1.key ≡ s.0.storage_key) × ((s.0.storage_key == r.0.storage_key) ≡ false))
        (λ s.
          find blob_key s.0.storage_key (written parse_json json_bytes w rs ++ blobs) ≡ some s.1)
        (λ s.
          find blob_key s.0.storage_key (r.1 ∷ (written parse_json json_bytes w rs ++ blobs))
          ≡ some s.1)
        (λ s h there. ground (arith, h, there, same)) rs apart found,
  )

  delete-cons :
      (r : Stored × Blob) (rs : List (Stored × Blob)) (blobs : List Blob)
      → r.1.key ≡ r.0.storage_key
      → All (λ s. (s.1.key ≡ s.0.storage_key) × ((s.0.storage_key == r.0.storage_key) ≡ false)) rs
      → delete_files parse_json json_bytes w rs (written parse_json json_bytes w rs ++ blobs)
        ≡ written parse_json json_bytes w (select (λ s. not (w.deletes s.0.storage_key)) rs)
          ++ blobs
      → delete_files parse_json json_bytes w
          (r ∷ rs)
          (written parse_json json_bytes w (r ∷ rs) ++ blobs)
        ≡ written parse_json json_bytes w (select (λ s. not (w.deletes s.0.storage_key)) (r ∷ rs))
          ++ blobs
  unfolding written delete_files remove
  delete-cons (s, b) rs blobs same apart rest = elim (Bool-cases (w.deletes s.storage_key)) [
    | inl goes ↦
        let here : (b.key == s.storage_key) ≡ true = ground (arith, same) in rw (goes, here) rest
    | inr stays ↦ rw stays (
        delete_files-cons parse_json json_bytes w b rs (written parse_json json_bytes w rs ++ blobs)
          (All-mono
            (λ t. (t.1.key ≡ t.0.storage_key) × ((t.0.storage_key == s.storage_key) ≡ false))
            (λ t. (b.key == t.0.storage_key) ≡ false) (λ t h. ground (arith, h, same)) rs apart)
        ∙ ap (λ l. b ∷ l) rest)
  ]

module _ (parse_json : Text → Option Value) (json_bytes : Value → ℕ) (w : Surroundings)
    {blobs : List Blob} (fresh : IsFresh w blobs) where
  abbrev fresh_saved : ℕ → List UploadedFile → List Text → List (Stored × Blob)
  fresh_saved n fs mimes = saved parse_json json_bytes w n fs mimes

  IsLater-keys :
      (n : ℕ) (fs : List UploadedFile) (mimes : List Text)
      → All (IsLater parse_json json_bytes w fresh n) (fresh_saved n fs mimes)
  IsLater-keys = saved-IsLater parse_json json_bytes w fresh

  -- The other files of an upload stand under other keys than the one of the place `n`.
  others :
      (n k : ℕ) (fs : List UploadedFile) (mimes : List Text)
      → w.put_key n ≡ some k
      → All
          (λ r. (r.1.key ≡ r.0.storage_key) × ((r.0.storage_key == k) ≡ false))
          (fresh_saved (n + 1) fs mimes)
  others n k fs mimes there =
      All-mono (IsLater parse_json json_bytes w fresh (n + 1))
        (λ r. (r.1.key ≡ r.0.storage_key) × ((r.0.storage_key == k) ≡ false))
        (λ r h. (h.0, later_other parse_json json_bytes w fresh n k r there h))
        (fresh_saved (n + 1) fs mimes) (IsLater-keys (n + 1) fs mimes)

  olds :
      (n k : ℕ) (b : Blob) (fs : List UploadedFile) (mimes : List Text)
      → find blob_key k blobs ≡ some b
      → All
          (λ r. (r.1.key ≡ r.0.storage_key) × ((r.0.storage_key == k) ≡ false))
          (fresh_saved n fs mimes)
  olds n k b fs mimes there =
      All-mono (IsLater parse_json json_bytes w fresh n)
        (λ r. (r.1.key ≡ r.0.storage_key) × ((r.0.storage_key == k) ≡ false))
        (λ r h. (h.0, later_unused parse_json json_bytes w fresh n k b r there h))
        (fresh_saved n fs mimes) (IsLater-keys n fs mimes)

  -- An object that was there is there after the uploads, and after the deletions.
  pub find_old :
      (n k : ℕ) (b : Blob) (fs : List UploadedFile) (mimes : List Text)
      → find blob_key k blobs ≡ some b
      → find blob_key k (written parse_json json_bytes w (fresh_saved n fs mimes) ++ blobs) ≡ some b
  find_old n k b fs mimes there =
      find-written_ne parse_json json_bytes w k (fresh_saved n fs mimes) blobs
        (olds n k b fs mimes there)
      ∙ there

  pub find_old_after :
      (n k : ℕ) (b : Blob) (fs : List UploadedFile) (mimes : List Text)
      → find blob_key k blobs ≡ some b
      → find blob_key k (
          delete_files parse_json json_bytes w
            (fresh_saved n fs mimes)
            (written parse_json json_bytes w (fresh_saved n fs mimes) ++ blobs))
        ≡ some b
  find_old_after n k b fs mimes there =
      find-delete_files parse_json json_bytes w k (fresh_saved n fs mimes)
        (written parse_json json_bytes w (fresh_saved n fs mimes) ++ blobs)
        (All-mono (λ r. (r.1.key ≡ r.0.storage_key) × ((r.0.storage_key == k) ≡ false))
          (λ r. (r.0.storage_key == k) ≡ false) (λ r h. h.1) (fresh_saved n fs mimes)
          (olds n k b fs mimes there))
      ∙ find_old n k b fs mimes there

  -- Each stored file is found under its key.
  pub find_stored :
      (n : ℕ) (fs : List UploadedFile) (mimes : List Text)
      → All
          (λ r.
            find blob_key r.0.storage_key
              (written parse_json json_bytes w (fresh_saved n fs mimes) ++ blobs)
            ≡ some r.1)
          (fresh_saved n fs mimes)
  unfolding save_files fulfilled
  find_stored n [] mimes = tt
  find_stored n (f ∷ fs) [] = tt
  find_stored n (f ∷ fs) (mime ∷ mimes) =
      elim (saved-cons parse_json json_bytes w n f fs mime mimes) [
        | inl (lost, same) ↦
            subst
              (λ rs.
                AreFound parse_json json_bytes w rs (written parse_json json_bytes w rs ++ blobs))
              (sym same) (find_stored (n + 1) fs mimes)
        | inr (k, there, same) ↦
            subst
              (λ rs.
                AreFound parse_json json_bytes w rs (written parse_json json_bytes w rs ++ blobs))
              (sym same)
              (found-cons parse_json json_bytes w _ (fresh_saved (n + 1) fs mimes) blobs refl
                (others n k fs mimes there) (find_stored (n + 1) fs mimes))
      ]

  -- The deletions leave those of the new objects that the storage does not delete.
  pub delete-saved :
      (n : ℕ) (fs : List UploadedFile) (mimes : List Text)
      → delete_files parse_json json_bytes w
          (fresh_saved n fs mimes)
          (written parse_json json_bytes w (fresh_saved n fs mimes) ++ blobs)
        ≡ written parse_json json_bytes w
            (select (λ r. not (w.deletes r.0.storage_key)) (fresh_saved n fs mimes))
          ++ blobs
  unfolding save_files fulfilled written delete_files
  delete-saved n [] mimes = refl
  delete-saved n (f ∷ fs) [] = refl
  delete-saved n (f ∷ fs) (mime ∷ mimes) =
      elim (saved-cons parse_json json_bytes w n f fs mime mimes) [
        | inl (lost, same) ↦
            subst
              (λ rs.
                delete_files parse_json json_bytes w rs
                  (written parse_json json_bytes w rs ++ blobs)
                ≡ written parse_json json_bytes w (select (λ r. not (w.deletes r.0.storage_key)) rs)
                  ++ blobs)
              (sym same) (delete-saved (n + 1) fs mimes)
        | inr (k, there, same) ↦
            subst
              (λ rs.
                delete_files parse_json json_bytes w rs
                  (written parse_json json_bytes w rs ++ blobs)
                ≡ written parse_json json_bytes w (select (λ r. not (w.deletes r.0.storage_key)) rs)
                  ++ blobs)
              (sym same)
              (delete-cons parse_json json_bytes w _ (fresh_saved (n + 1) fs mimes) blobs refl
                (others n k fs mimes there) (delete-saved (n + 1) fs mimes))
      ]
