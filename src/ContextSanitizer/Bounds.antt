-- ===== src/ContextSanitizer/Bounds.antt =====
-- The limits that every context keeps that src/reporter/context-sanitizer.ts lets through.
use mathlib.Core.Path.{subst}
use cimp.Prelude.{
  ℕ, ◌+◌, ◌≤◌, ◌≡◌, refl, false, List, [], ◌∷◌, Option, none, some, ltb, if◌then◌else◌, arith, inl,
  inr, Bool-cases, length, take, select, All, All-select, All-select_self, All-take, length-take,
  ◌∙◌,
}
use cimp.Prelude.Text.{Text, same_text, same_text_iff}
use cimp.ContextSanitizer.{
  Value, null, bool, num, str, arr, obj, Items, nil, cons, Fields, end, field, max_total_bytes,
  max_array_items, max_object_keys, max_depth, max_key, is_dangerous, clip, kept_items, set_field,
  build, is_safe, clamp_value, clamp_items, clamp_fields, checked, clamp_parsed, sanitize_context,
}
use cimp.ContextSanitizer.Shape.{
  count_items, count_fields, has_key, IsKey, IsClamped, AreClamped, FieldsClamped, clip-IsShort,
  cut-IsKey,
}

abbrev OptionClamped : ℕ → Option Value → Type 0
OptionClamped d o = (w : Value) → o ≡ some w → IsClamped w d

abbrev PairClamped : ℕ → Text × Option Value → Type 0
PairClamped d kv = OptionClamped d kv.1

kept_items-AreClamped :
    (d : ℕ) (vs : List (Option Value)) → All (OptionClamped d) vs → AreClamped (kept_items vs) d
unfolding kept_items IsClamped
kept_items-AreClamped d [] h = tt
kept_items-AreClamped d (none ∷ vs) (h, hs) = kept_items-AreClamped d vs hs
kept_items-AreClamped d (some v ∷ vs) (h, hs) = (h v refl, kept_items-AreClamped d vs hs)

count-kept_items : (vs : List (Option Value)) → count_items (kept_items vs) ≤ length vs
unfolding kept_items count_items
count-kept_items [] = omega arith
count-kept_items (none ∷ vs) = omega (arith, count-kept_items vs)
count-kept_items (some v ∷ vs) = omega (arith, count-kept_items vs)

has_key-set_field :
    (j k : Text) (v : Value) (fs : Fields)
    → same_text k j ≡ false
    → has_key j (set_field k v fs) ≡ has_key j fs
unfolding has_key set_field
has_key-set_field j k v end h = ground (arith, h)
has_key-set_field j k v (field i w fs) h =
    ground
      (arith, has_key-set_field j k v fs h, same_text_iff i k, same_text_iff i j, same_text_iff k j)

set_field-FieldsClamped :
    (d : ℕ) (k : Text) (v : Value) (fs : Fields)
    → IsKey k
    → IsClamped v d
    → FieldsClamped fs d
    → FieldsClamped (set_field k v fs) d
unfolding set_field has_key IsClamped
set_field-FieldsClamped d k v end key h hs = (key, refl, h, tt)
set_field-FieldsClamped d k v (field j w fs) key h (jkey, absent, hw, hs) =
    elim (Bool-cases (same_text j k)) [
      | inl same ↦ rw same (jkey, absent, h, hs)
      | inr other ↦ rw other (
        jkey,
        has_key-set_field j k v fs (ground (arith, other, same_text_iff j k, same_text_iff k j))
            ∙ absent,
        hw,
        set_field-FieldsClamped d k v fs key h hs,
      )
    ]

count-set_field :
    (k : Text) (v : Value) (fs : Fields) → count_fields (set_field k v fs) ≤ count_fields fs + 1
unfolding set_field count_fields
count-set_field k v end = omega arith
count-set_field k v (field j w fs) = ground (arith, count-set_field k v fs)

build-FieldsClamped :
    (d : ℕ) (kvs : List (Text × Option Value)) (out : Fields)
    → All (λ kv. is_dangerous kv.0 ≡ false) kvs
    → All (PairClamped d) kvs
    → FieldsClamped out d
    → FieldsClamped (build out kvs) d
unfolding build
build-FieldsClamped d [] out safe h hs = hs
build-FieldsClamped d ((k, none) ∷ kvs) out (s, ss) (h, hs) ho =
    build-FieldsClamped d kvs out ss hs ho
build-FieldsClamped d ((k, some v) ∷ kvs) out (s, ss) (h, hs) ho =
    build-FieldsClamped d kvs (set_field (take max_key k) v out) ss hs
      (set_field-FieldsClamped d (take max_key k) v out (cut-IsKey k s) (h v refl) ho)

count-build :
    (kvs : List (Text × Option Value)) (out : Fields)
    → count_fields (build out kvs) ≤ count_fields out + length kvs
unfolding build
count-build [] out = omega arith
count-build ((k, none) ∷ kvs) out = omega (arith, count-build kvs out)
count-build ((k, some v) ∷ kvs) out = omega (
  arith,
  count-build kvs (set_field (take max_key k) v out),
  count-set_field (take max_key k) v out,
)

-- What the slices and filters leave of an array and of an object.
kept_array-IsClamped :
    (d : ℕ) (vs : List (Option Value))
    → d ≤ max_depth
    → All (OptionClamped (d + 1)) vs
    → IsClamped (arr (kept_items (take max_array_items vs))) d
unfolding IsClamped
kept_array-IsClamped d vs h hs = (
  h,
  omega (arith, count-kept_items (take max_array_items vs), length-take max_array_items vs),
  kept_items-AreClamped (d + 1) (take max_array_items vs)
      (All-take (OptionClamped (d + 1)) max_array_items vs hs),
)

kept_object-IsClamped :
    (d : ℕ) (kvs : List (Text × Option Value))
    → d ≤ max_depth
    → All (PairClamped (d + 1)) kvs
    → IsClamped (obj (build end (take max_object_keys (select is_safe kvs)))) d
unfolding IsClamped count_fields
kept_object-IsClamped d kvs h hs =
    let safe = select is_safe kvs in
    (
      h,
      omega (arith, count-build (take max_object_keys safe) end, length-take max_object_keys safe),
      build-FieldsClamped (d + 1) (take max_object_keys safe) end
          (All-take _ max_object_keys safe (
            All-select_self is_safe (PairClamped (d + 1)) (λ kv. is_dangerous kv.0 ≡ false)
              (λ kv chosen w. ground (arith, chosen)) kvs hs))
          (All-take _ max_object_keys safe (All-select (PairClamped (d + 1)) is_safe kvs hs)) tt,
    )

unless_deep :
    (d : ℕ) (v w : Value)
    → (d ≤ max_depth → IsClamped v d)
    → (if ltb max_depth d then none else some v) ≡ some w
    → IsClamped w d
unless_deep d v w f h = elim (Bool-cases (ltb max_depth d)) [
  | inl deep ↦ absurd (ground (arith, h, deep))
  | inr fits ↦
      let same : v ≡ w = ground (arith, h, fits) in
      subst (λ x. IsClamped x d) same (f (ground (arith, fits)))
]

mutual
  unfolding clamp_value IsClamped

  clamped : (v : Value) (d : ℕ) → OptionClamped d (clamp_value v d)
  clamped null d w h = unless_deep d null w (λ le. le) h
  clamped (bool b) d w h = unless_deep d (bool b) w (λ le. le) h
  clamped (num n) d w h = unless_deep d (num n) w (λ le. le) h
  clamped (str s) d w h = unless_deep d (str (clip s)) w (λ le. (le, clip-IsShort s)) h
  clamped (arr vs) d w h =
      unless_deep d _ w
        (λ le. kept_array-IsClamped d (clamp_items vs (d + 1)) le (clamped_items vs (d + 1))) h
  clamped (obj fs) d w h =
      unless_deep d _ w
        (λ le. kept_object-IsClamped d (clamp_fields fs (d + 1)) le (clamped_fields fs (d + 1))) h

  clamped_items : (vs : Items) (d : ℕ) → All (OptionClamped d) (clamp_items vs d)
  clamped_items nil d = tt
  clamped_items (cons v vs) d = (clamped v d, clamped_items vs d)

  clamped_fields : (fs : Fields) (d : ℕ) → All (PairClamped d) (clamp_fields fs d)
  clamped_fields end d = tt
  clamped_fields (field k v fs) d = (clamped v d, clamped_fields fs d)

-- What clamping a value at a depth returns keeps every limit from there on.
pub clamp_value-IsClamped :
    (v : Value) (d : ℕ) (w : Value) → clamp_value v d ≡ some w → IsClamped w d
clamp_value-IsClamped v d w h = clamped v d w h

abbrev IsAnswer : (Value → ℕ) → Option Value → Value → Type 0
IsAnswer json_bytes o w =
    (o ≡ some w)
    × (json_bytes w ≤ max_total_bytes)
    × ((k : Text) × (v : Value) × (fs : Fields) × (w ≡ obj (field k v fs)))

checked_inv :
    (parse_json : Text → Option Value) (json_bytes : Value → ℕ) (o : Option Value) (w : Value)
    → checked parse_json json_bytes o ≡ some w
    → IsAnswer json_bytes o w
unfolding checked
checked_inv parse_json json_bytes (some (obj (field k v fs))) w h =
    elim (Bool-cases (ltb max_total_bytes (json_bytes (obj (field k v fs))))) [
      | inl large ↦ absurd (ground (arith, h, large))
      | inr fits ↦
          let same : obj (field k v fs) ≡ w = ground (arith, h, fits) in
          subst (IsAnswer json_bytes (some (obj (field k v fs)))) same
            (refl, ground (arith, fits), (k, v, fs, refl))
    ]
checked_inv parse_json json_bytes (some (obj end)) w h = absurd (cc h)
checked_inv parse_json json_bytes (some null) w h = absurd (cc h)
checked_inv parse_json json_bytes (some (bool b)) w h = absurd (cc h)
checked_inv parse_json json_bytes (some (num n)) w h = absurd (cc h)
checked_inv parse_json json_bytes (some (str s)) w h = absurd (cc h)
checked_inv parse_json json_bytes (some (arr vs)) w h = absurd (cc h)
checked_inv parse_json json_bytes none w h = absurd (cc h)

clamp_parsed_inv :
    (parse_json : Text → Option Value) (json_bytes : Value → ℕ) (o : Option Value) (w : Value)
    → clamp_parsed parse_json json_bytes o ≡ some w
    → (fs : Fields) × (o ≡ some (obj fs))
      × (checked parse_json json_bytes (clamp_value (obj fs) 0) ≡ some w)
unfolding clamp_parsed
clamp_parsed_inv parse_json json_bytes (some (obj fs)) w h = (fs, refl, h)
clamp_parsed_inv parse_json json_bytes (some null) w h = absurd (cc h)
clamp_parsed_inv parse_json json_bytes (some (bool b)) w h = absurd (cc h)
clamp_parsed_inv parse_json json_bytes (some (num n)) w h = absurd (cc h)
clamp_parsed_inv parse_json json_bytes (some (str s)) w h = absurd (cc h)
clamp_parsed_inv parse_json json_bytes (some (arr vs)) w h = absurd (cc h)
clamp_parsed_inv parse_json json_bytes none w h = absurd (cc h)

-- A context that is let through is an object that keeps every limit, has a property, and takes no
-- more than 64 KiB as JSON, whatever the reporter sent and however the runtime parses and writes
-- JSON.
pub sanitize_context-IsClamped :
    (parse_json : Text → Option Value) (json_bytes : Value → ℕ) (raw : Option Text) (w : Value)
    → sanitize_context parse_json json_bytes raw ≡ some w
    → IsClamped w 0
      × (json_bytes w ≤ max_total_bytes)
      × ((k : Text) × (v : Value) × (fs : Fields) × (w ≡ obj (field k v fs)))
unfolding sanitize_context
sanitize_context-IsClamped parse_json json_bytes (some (c ∷ raw)) w h =
    let (fs, parsed, answered) =
      clamp_parsed_inv parse_json json_bytes (parse_json (c ∷ raw)) w h in
    let (made, small, shape) =
      checked_inv parse_json json_bytes (clamp_value (obj fs) 0) w answered in
    (clamp_value-IsClamped (obj fs) 0 w made, small, shape)
sanitize_context-IsClamped parse_json json_bytes (some []) w h = absurd (cc h)
sanitize_context-IsClamped parse_json json_bytes none w h = absurd (cc h)
