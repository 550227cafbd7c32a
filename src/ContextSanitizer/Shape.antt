-- ===== src/ContextSanitizer/Shape.antt =====
-- The limits of src/reporter/context-sanitizer.ts as a predicate on values, and what cutting texts
-- and keys makes of them.
use cimp.Prelude.{
  ℕ, suc, ◌+◌, ◌≤◌, ◌≡◌, Bool, true, false, [], ◌∷◌, ◌++◌, ltb, if◌then◌else◌, arith, inl, inr,
  Bool-cases, length, take, length-take, length-append, length-take_full, take_all,
  take-append_full, lt→ltb,
}
use cimp.Prelude.Text.{Text, codes, same_text, same_text_iff}
use cimp.ContextSanitizer.{
  Value, null, bool, num, str, arr, obj, Items, nil, cons, Fields, end, field, max_string,
  max_array_items, max_object_keys, max_depth, max_key, is_dangerous, clip,
}

unfoldable pub count_items : Items → ℕ
count_items nil = 0
count_items (cons v vs) = suc (count_items vs)

unfoldable pub count_fields : Fields → ℕ
count_fields end = 0
count_fields (field k v fs) = suc (count_fields fs)

unfoldable pub has_key : Text → Fields → Bool
has_key k end = false
has_key k (field j v fs) = let rest = has_key k fs in if same_text j k then true else rest

-- A text that clipping leaves alone.
pub record IsShort (s : Text) : Type 0 where
  pub bounded : length s ≤ max_string + 1
  pub clipped : clip s ≡ s

pub record IsKey (k : Text) : Type 0 where
  pub bounded : length k ≤ max_key
  pub harmless : is_dangerous k ≡ false

-- A value at depth `d` keeps the limits: on the depth, on the items of an array and the properties
-- of an object, on texts and keys; no key is dangerous, and no two keys of an object are the same.
unfoldable mutual
  unfolding count_items count_fields has_key

  pub IsClamped : Value → ℕ → Type 0
  IsClamped null d = d ≤ max_depth
  IsClamped (bool b) d = d ≤ max_depth
  IsClamped (num n) d = d ≤ max_depth
  IsClamped (str s) d = (d ≤ max_depth) × IsShort s
  IsClamped (arr vs) d =
      (d ≤ max_depth) × (count_items vs ≤ max_array_items) × AreClamped vs (d + 1)
  IsClamped (obj fs) d =
      (d ≤ max_depth) × (count_fields fs ≤ max_object_keys) × FieldsClamped fs (d + 1)

  pub AreClamped : Items → ℕ → Type 0
  AreClamped nil d = Unit
  AreClamped (cons v vs) d = IsClamped v d × AreClamped vs d

  pub FieldsClamped : Fields → ℕ → Type 0
  FieldsClamped end d = Unit
  FieldsClamped (field k v fs) d =
      IsKey k × (has_key k fs ≡ false) × IsClamped v d × FieldsClamped fs d

abbrev clip_at : ℕ → Text → Text
clip_at n s = if ltb n (length s) then take n s ++ 8230 ∷ [] else s

clip_at_twice :
    (n : ℕ) (s : Text) → (length (clip_at n s) ≤ n + 1) × (clip_at n (clip_at n s) ≡ clip_at n s)
clip_at_twice n s = elim (Bool-cases (ltb n (length s))) [
  | inl long ↦
      let cut : length (take n s) ≡ n = length-take_full n s (ground (arith, long)) in
      let whole : length (take n s ++ 8230 ∷ []) ≡ n + 1 =
        omega (arith, length-append (take n s) (8230 ∷ []), cut) in
      rw long (
        omega (arith, whole),
        rw (lt→ltb n (length (take n s ++ 8230 ∷ [])) (omega (arith, whole)))
            (rw (take-append_full n (take n s) (8230 ∷ []) cut)),
      )
  | inr short ↦ rw short (ground (arith, short), rw short)
]

pub clip-IsShort : (s : Text) → IsShort (clip s)
unfolding clip
clip-IsShort s = record {
  bounded = (clip_at_twice max_string s).0;
  clipped = (clip_at_twice max_string s).1;
}

is_dangerous-length : (k : Text) → is_dangerous k ≡ true → length k ≤ 11
unfolding is_dangerous
is_dangerous-length k h = elim (Bool-cases (same_text k (codes "__proto__"))) [
  | inl p ↦ rw ((same_text_iff k (codes "__proto__")).0 p) (omega arith)
  | inr np ↦ elim (Bool-cases (same_text k (codes "constructor"))) [
    | inl c ↦ rw ((same_text_iff k (codes "constructor")).0 c) (omega arith)
    | inr nc ↦
        rw ((same_text_iff k (codes "prototype")).0 (ground (arith, h, np, nc))) (omega arith)
  ]
]

pub cut-IsKey : (k : Text) → is_dangerous k ≡ false → IsKey (take max_key k)
cut-IsKey k safe = record {
  bounded = length-take max_key k;
  harmless = elim (Bool-cases (ltb max_key (length k))) [
    | inl long ↦
        let cut : length (take max_key k) ≡ max_key =
          length-take_full max_key k (ground (arith, long)) in
        elim (Bool-cases (is_dangerous (take max_key k))) [
          | inl bad ↦ absurd (omega (arith, cut, is_dangerous-length (take max_key k) bad))
          | inr good ↦ good
        ]
    | inr short ↦ rw (take_all max_key k (ground (arith, short))) safe
  ];
}
