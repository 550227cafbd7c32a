-- ===== src/ContextSanitizer/Fixed.antt =====
-- What src/reporter/context-sanitizer.ts leaves alone.
use cimp.Prelude.{
  ℕ, ◌+◌, ◌≤◌, ◌≡◌, ◌↔◌, refl, ap, ◌∙◌, true, false, List, [], ◌∷◌, Option, none, some, ltb,
  if◌then◌else◌, arith, length, take, take_all, select,
}
use mathlib.Core.Path.{ap₂}
use cimp.Prelude.Text.{Text, same_text_iff, same_text_refl}
use cimp.ContextSanitizer.{
  Value, null, bool, num, str, arr, obj, Items, nil, cons, Fields, end, field, max_array_items,
  max_object_keys, max_depth, max_key, kept_items, set_field, build, is_safe, clamp_value,
  clamp_items, clamp_fields,
}
use cimp.ContextSanitizer.Shape.{
  count_items, count_fields, has_key, IsClamped, AreClamped, FieldsClamped,
}
use cimp.ContextSanitizer.Bounds.{clamp_value-IsClamped}

-- An array and an object as the clamped lists that they are when nothing is lost.
all_items : Items → List (Option Value)
all_items nil = []
all_items (cons v vs) = some v ∷ all_items vs

all_fields : Fields → List (Text × Option Value)
all_fields end = []
all_fields (field k v fs) = (k, some v) ∷ all_fields fs

join_fields : Fields → Fields → Fields
join_fields end gs = gs
join_fields (field k v fs) gs = field k v (join_fields fs gs)

kept_items-all_items : (vs : Items) → kept_items (all_items vs) ≡ vs
unfolding kept_items all_items
kept_items-all_items nil = refl
kept_items-all_items (cons v vs) = ap (cons v) (kept_items-all_items vs)

length-all_items : (vs : Items) → length (all_items vs) ≡ count_items vs
unfolding all_items count_items
length-all_items nil = refl
length-all_items (cons v vs) = omega (arith, length-all_items vs)

length-all_fields : (fs : Fields) → length (all_fields fs) ≡ count_fields fs
unfolding all_fields count_fields
length-all_fields end = refl
length-all_fields (field k v fs) = omega (arith, length-all_fields fs)

select-all_fields :
    (d : ℕ) (fs : Fields) → FieldsClamped fs d → select is_safe (all_fields fs) ≡ all_fields fs
unfolding all_fields IsClamped
select-all_fields d end h = refl
select-all_fields d (field k v fs) (key, absent, h, hs) =
    rw key.harmless (ap (λ l. (k, some v) ∷ l) (select-all_fields d fs hs))

set_field-absent :
    (k : Text) (v : Value) (fs : Fields)
    → has_key k fs ≡ false
    → set_field k v fs ≡ join_fields fs (field k v end)
unfolding set_field join_fields has_key
set_field-absent k v end h = refl
set_field-absent k v (field j w fs) h = ground (arith, h, set_field-absent k v fs)

has_key-join_fields :
    (j : Text) (fs gs : Fields)
    → has_key j (join_fields fs gs) ≡ (if has_key j fs then true else has_key j gs)
unfolding join_fields has_key
has_key-join_fields j end gs = refl
has_key-join_fields j (field k v fs) gs = ground (arith, has_key-join_fields j fs gs)

join_fields-field :
    (out : Fields) (k : Text) (v : Value) (fs : Fields)
    → join_fields (join_fields out (field k v end)) fs ≡ join_fields out (field k v fs)
unfolding join_fields
join_fields-field end k v fs = refl
join_fields-field (field j w out) k v fs = ap (field j w) (join_fields-field out k v fs)

join_end : (out : Fields) → out ≡ join_fields out end
unfolding join_fields
join_end end = refl
join_end (field k v fs) = ap (field k v) (join_end fs)

-- Writing properties of new keys puts them behind those that are there.
build-all_fields :
    (d : ℕ) (fs out : Fields)
    → FieldsClamped fs d
    → ((j : Text) → has_key j fs ≡ true → has_key j out ≡ false)
    → build out (all_fields fs) ≡ join_fields out fs
unfolding build all_fields IsClamped has_key
build-all_fields d end out h new = join_end out
build-all_fields d (field k v fs) out (key, absent, h, hs) new =
    let here : has_key k out ≡ false = new k (rw (same_text_refl k)) in
    ap (λ j. build (set_field j v out) (all_fields fs)) (take_all max_key k key.bounded)
    ∙ ap (λ out'. build out' (all_fields fs)) (set_field-absent k v out here)
    ∙ build-all_fields d fs (join_fields out (field k v end)) hs (λ j there.
      ground
        (arith, has_key-join_fields j out (field k v end), new j, there, same_text_iff k j, absent))
    ∙ join_fields-field out k v fs

within_depth :
    (d : ℕ) (v w : Value)
    → d ≤ max_depth
    → v ≡ w
    → (if ltb max_depth d then none else some v) ≡ some w
within_depth d v w le same = ground (arith, le, same)

fixed_array :
    (vs : Items)
    → count_items vs ≤ max_array_items
    → kept_items (take max_array_items (all_items vs)) ≡ vs
fixed_array vs few =
    ap kept_items (take_all max_array_items (all_items vs) (omega (arith, length-all_items vs)))
    ∙ kept_items-all_items vs

fixed_object :
    (d : ℕ) (fs : Fields)
    → count_fields fs ≤ max_object_keys
    → FieldsClamped fs d
    → build end (take max_object_keys (select is_safe (all_fields fs))) ≡ fs
fixed_object d fs few h =
    ap (λ l. build end (take max_object_keys l)) (select-all_fields d fs h)
    ∙ ap (build end)
        (take_all max_object_keys (all_fields fs) (omega (arith, length-all_fields fs)))
    ∙ build-all_fields d fs end h (λ j there. unfold has_key in refl)
    ∙ unfold join_fields in refl

mutual
  unfolding clamp_value IsClamped all_items all_fields

  fixed : (v : Value) (d : ℕ) → IsClamped v d → clamp_value v d ≡ some v
  fixed null d h = ground (arith, h)
  fixed (bool b) d h = ground (arith, h)
  fixed (num n) d h = ground (arith, h)
  fixed (str s) d (h, short) = within_depth d _ _ h (ap str short.clipped)
  fixed (arr vs) d (h, few, hs) = within_depth d _ _ h (
      ap arr (
        ap (λ l. kept_items (take max_array_items l)) (fixed_items vs (d + 1) hs)
        ∙ fixed_array vs few))
  fixed (obj fs) d (h, few, hs) = within_depth d _ _ h (
      ap obj (
        ap (λ l. build end (take max_object_keys (select is_safe l))) (fixed_fields fs (d + 1) hs)
        ∙ fixed_object (d + 1) fs few hs))

  fixed_items : (vs : Items) (d : ℕ) → AreClamped vs d → clamp_items vs d ≡ all_items vs
  fixed_items nil d h = refl
  fixed_items (cons v vs) d (h, hs) = ap₂ (λ o l. o ∷ l) (fixed v d h) (fixed_items vs d hs)

  fixed_fields : (fs : Fields) (d : ℕ) → FieldsClamped fs d → clamp_fields fs d ≡ all_fields fs
  fixed_fields end d h = refl
  fixed_fields (field k v fs) d (key, absent, h, hs) =
      ap₂ (λ o l. (k, o) ∷ l) (fixed v d h) (fixed_fields fs d hs)

-- Clamping at a depth returns a value as it is exactly when the value keeps every limit from there
-- on.
pub clamp_value_fixed_iff : (v : Value) (d : ℕ) → (clamp_value v d ≡ some v) ↔ IsClamped v d
clamp_value_fixed_iff v d = (clamp_value-IsClamped v d v, fixed v d)
