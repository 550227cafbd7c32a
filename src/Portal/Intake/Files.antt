-- ===== src/Portal/Intake/Files.antt =====
-- The objects that the intake of src/reporter/reporter.service.ts writes and deletes.
use mathlib.Core.Path.{subst}
use cimp.Prelude.{
  ℕ, ◌+◌, ◌≤◌, true, false, List, [], ◌∷◌, ◌++◌, ◌≡◌, refl, sym, ap, ◌∙◌, Option, none, some, ◌==◌,
  leb, All, All-mono, arith, inl, inr, ◌⊎◌, Bool-cases, Option-cases,
}
use cimp.Prelude.Table.{find, remove}
use cimp.Prelude.Table.Keys.{find-remove_ne}
use cimp.Prelude.Text.{Text}
use cimp.Domain.{ok, require, found, bad_request, file_too_large, unsupported_file}
use cimp.Domain.Results.{>>=-eq-ok, >>-eq-ok, ok-injective, found-eq-ok}
use cimp.ContextSanitizer.{Value}
use cimp.Portal.Rows.{Blob, blob_key}
use cimp.Portal.Signatures.{sniff_allowed_mime, is_allowed}
use cimp.Portal.Intake.{
  UploadedFile, allowed, detect_types, Stored, Surroundings, max_file_bytes, settled, save_files,
  fulfilled, written, delete_files,
}

-- The storage writes each file under a key of its own, which no object has.
pub record IsFresh (w : Surroundings) (blobs : List Blob) : Type 0 where
  pub unused : (n k : ℕ) → w.put_key n ≡ some k → find blob_key k blobs ≡ none
  pub own : (n m k : ℕ) → w.put_key n ≡ some k → w.put_key m ≡ some k → n ≡ m

-- A file that was stored: its object is under its key, its type is what its first bytes say and one
-- of the allowed, and it keeps the size limit.
pub record IsStored (r : Stored × Blob) : Type 0 where
  pub keyed : r.1.key ≡ r.0.storage_key
  pub signed : sniff_allowed_mime r.1.bytes ≡ some r.0.content_type
  pub typed : is_allowed r.0.content_type ≡ true
  pub small : r.0.size_bytes ≤ max_file_bytes

allowed_inv :
    (o : Option Text) (mime : Text)
    → allowed o ≡ some mime
    → (o ≡ some mime) × (is_allowed mime ≡ true)
unfolding allowed
allowed_inv none mime h = absurd (cc h)
allowed_inv (some m) mime h = elim (Bool-cases (is_allowed m)) [
  | inl fine ↦ let same : m ≡ mime = ground (arith, fine, h) in (ap some same, rw same at fine)
  | inr bad ↦ absurd (ground (arith, bad, h))
]

-- The first of the files that were accepted, and the others.
detect_types_inv :
    (f : UploadedFile) (fs : List UploadedFile) (mimes : List Text)
    → detect_types (f ∷ fs) ≡ ok mimes
    → (mime : Text) × (rest : List Text) × (mimes ≡ mime ∷ rest)
      × (detect_types fs ≡ ok rest)
      × (sniff_allowed_mime f.buffer ≡ some mime)
      × (is_allowed mime ≡ true)
      × (f.size ≤ max_file_bytes)
unfolding detect_types
detect_types_inv f fs mimes h =
    let sized = >>-eq-ok (require (leb f.size max_file_bytes) (bad_request file_too_large)) _ h in
    let (mime, sniffed, after) =
      >>=-eq-ok (found (allowed (sniff_allowed_mime f.buffer)) (bad_request unsupported_file)) _
        sized in
    let (rest, later, made) = >>=-eq-ok (detect_types fs) _ after in
    let (signed, typed) = allowed_inv (sniff_allowed_mime f.buffer) mime (
      found-eq-ok (allowed (sniff_allowed_mime f.buffer)) (bad_request unsupported_file) sniffed) in
    (mime, rest, sym (ok-injective made), later, signed, typed, ground (arith, h))

module _ (parse_json : Text → Option Value) (json_bytes : Value → ℕ) (w : Surroundings) where
  abbrev pub saved : ℕ → List UploadedFile → List Text → List (Stored × Blob)
  saved n fs mimes =
      fulfilled parse_json json_bytes w (save_files parse_json json_bytes w n fs mimes)

  -- What is stored of a file, in front of what is stored of the others.
  pub saved-cons :
      (n : ℕ) (f : UploadedFile) (fs : List UploadedFile) (mime : Text) (mimes : List Text)
      → ((w.put_key n ≡ none) × (saved n (f ∷ fs) (mime ∷ mimes) ≡ saved (n + 1) fs mimes))
        ⊎ ((k : ℕ) × (w.put_key n ≡ some k)
            × (saved n (f ∷ fs) (mime ∷ mimes)
                ≡ (
                  record {
                    storage_key = k;
                    filename = f.original_name;
                    content_type = mime;
                    size_bytes = f.size;
                  },
                  record { key = k; bytes = f.buffer },
                )
                  ∷ saved (n + 1) fs mimes))
  unfolding save_files fulfilled settled
  saved-cons n f fs mime mimes = elim (Option-cases (w.put_key n)) [
    | inl lost ↦ inl (lost, rw lost refl)
    | inr (k, put_there) ↦ inr (k, put_there, rw put_there refl)
  ]

  pub saved-IsStored :
      (n : ℕ) (fs : List UploadedFile) (mimes : List Text)
      → detect_types fs ≡ ok mimes
      → All IsStored (saved n fs mimes)
  unfolding fulfilled save_files
  saved-IsStored n [] mimes h = tt
  saved-IsStored n (f ∷ fs) mimes h =
      let (mime, rest, split, later, signed, typed, small) = detect_types_inv f fs mimes h in
      subst (λ ms. All IsStored (saved n (f ∷ fs) ms)) (sym split)
        (elim (saved-cons n f fs mime rest) [
          | inl (lost, same) ↦ rw same (saved-IsStored (n + 1) fs rest later)
          | inr (k, there, same) ↦ rw same (
            record { keyed = refl; signed = signed; typed = typed; small = small },
            saved-IsStored (n + 1) fs rest later,
          )
        ])

  module _ {blobs : List Blob} (fresh : IsFresh w blobs) where
    -- The key was given out at the place `n` or later.
    abbrev pub IsLater : ℕ → Stored × Blob → Type 0
    IsLater n r =
        (r.1.key ≡ r.0.storage_key) × ((m : ℕ) × (n ≤ m) × (w.put_key m ≡ some r.0.storage_key))

    pub saved-IsLater :
        (n : ℕ) (fs : List UploadedFile) (mimes : List Text) → All (IsLater n) (saved n fs mimes)
    unfolding save_files fulfilled
    saved-IsLater n [] mimes = tt
    saved-IsLater n (f ∷ fs) [] = tt
    saved-IsLater n (f ∷ fs) (mime ∷ mimes) =
        let later =
          All-mono (IsLater (n + 1)) (IsLater n)
            (λ r h. (h.0, (h.1.0, omega (arith, h.1.1), h.1.2))) (saved (n + 1) fs mimes)
            (saved-IsLater (n + 1) fs mimes) in
        elim (saved-cons n f fs mime mimes) [
          | inl (lost, same) ↦ rw same later
          | inr (k, there, same) ↦ rw same ((refl, (n, omega arith, there)), later)
        ]

    -- A later key is not the one of the place `n`.
    pub later_other :
        (n k : ℕ) (r : Stored × Blob)
        → w.put_key n ≡ some k
        → IsLater (n + 1) r
        → (r.0.storage_key == k) ≡ false
    later_other n k r there (same, (m, far, here)) = elim (Bool-cases (r.0.storage_key == k)) [
      | inl clash ↦
          let eq : r.0.storage_key ≡ k = ground (arith, clash) in
          absurd (omega (arith, far, fresh.own n m k there (here ∙ ap some eq)))
      | inr other ↦ other
    ]

    pub later_unused :
        (n k : ℕ) (b : Blob) (r : Stored × Blob)
        → find blob_key k blobs ≡ some b
        → IsLater n r
        → (r.0.storage_key == k) ≡ false
    later_unused n k b r there (same, (m, far, here)) = elim (Bool-cases (r.0.storage_key == k)) [
      | inl clash ↦
          let eq : r.0.storage_key ≡ k = ground (arith, clash) in
          absurd (cc (fresh.unused m k (here ∙ ap some eq), there))
      | inr other ↦ other
    ]

  pub find-written_ne :
      (k : ℕ) (rs : List (Stored × Blob)) (blobs : List Blob)
      → All (λ r. (r.1.key ≡ r.0.storage_key) × ((r.0.storage_key == k) ≡ false)) rs
      → find blob_key k (written parse_json json_bytes w rs ++ blobs) ≡ find blob_key k blobs
  unfolding written find
  find-written_ne k [] blobs h = refl
  find-written_ne k ((s, b) ∷ rs) blobs ((same, other), hs) =
      ground (arith, same, other, find-written_ne k rs blobs hs)

  pub find-delete_files :
      (k : ℕ) (rs : List (Stored × Blob)) (blobs : List Blob)
      → All (λ r. (r.0.storage_key == k) ≡ false) rs
      → find blob_key k (delete_files parse_json json_bytes w rs blobs) ≡ find blob_key k blobs
  unfolding delete_files
  find-delete_files k [] blobs h = refl
  find-delete_files k ((s, b) ∷ rs) blobs (h, hs) = elim (Bool-cases (w.deletes s.storage_key)) [
    | inl goes ↦ rw goes (
        find-delete_files k rs (remove blob_key s.storage_key blobs) hs
        ∙ find-remove_ne blob_key s.storage_key k blobs h)
    | inr stays ↦ rw stays (find-delete_files k rs blobs hs)
  ]

  -- An object that the loop does not name stays in front.
  pub delete_files-cons :
      (b : Blob) (rs : List (Stored × Blob)) (blobs : List Blob)
      → All (λ r. (b.key == r.0.storage_key) ≡ false) rs
      → delete_files parse_json json_bytes w rs (b ∷ blobs)
        ≡ b ∷ delete_files parse_json json_bytes w rs blobs
  unfolding delete_files remove
  delete_files-cons b [] blobs h = refl
  delete_files-cons b ((s, c) ∷ rs) blobs (h, hs) = elim (Bool-cases (w.deletes s.storage_key)) [
    | inl goes ↦ rw (goes, h) (delete_files-cons b rs (remove blob_key s.storage_key blobs) hs)
    | inr stays ↦ rw stays (delete_files-cons b rs blobs hs)
  ]
