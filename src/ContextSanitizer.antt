-- ===== src/ContextSanitizer.antt =====
-- The cleaning of the diagnostics context that a reporter's browser sends:
-- src/reporter/context-sanitizer.ts.
pub mod Shape
pub mod Bounds
pub mod Fixed
mod Tests
use cimp.Prelude.{
  ℕ, ◌+◌, Bool, true, false, not, ◌||◌, List, [], ◌∷◌, ◌++◌, Option, none, some, ltb, if◌then◌else◌,
  length, take, select,
}
use cimp.Prelude.Text.{Text, codes, same_text}

-- What `JSON.parse` makes: the items of an array, and the own properties of an object in the order
-- of `Object.keys`. The value of a number plays no part here.
mutual
  pub data Value : Type 0 where
    null : Value
    bool : Bool → Value
    num : ℕ → Value
    str : Text → Value
    arr : Items → Value
    obj : Fields → Value

  pub data Items : Type 0 where
    nil : Items
    cons : Value → Items → Items

  pub data Fields : Type 0 where
    end : Fields
    field : Text → Value → Fields → Fields

abbrev pub max_total_bytes : ℕ
max_total_bytes = 65536

abbrev pub max_string : ℕ
max_string = 1000

abbrev pub max_array_items : ℕ
max_array_items = 25

abbrev pub max_object_keys : ℕ
max_object_keys = 40

abbrev pub max_depth : ℕ
max_depth = 5

abbrev pub max_key : ℕ
max_key = 100

-- DANGEROUS_KEYS.
pub is_dangerous : Text → Bool
is_dangerous k =
    same_text k (codes "__proto__")
    || same_text k (codes "constructor")
    || same_text k (codes "prototype")

-- A long text is cut, with an ellipsis (U+2026) behind.
pub clip : Text → Text
clip s = if ltb max_string (length s) then take max_string s ++ 8230 ∷ [] else s

-- `.filter((v) => v !== undefined)`, as an array.
pub kept_items : List (Option Value) → Items
kept_items [] = nil
kept_items (none ∷ vs) = kept_items vs
kept_items (some v ∷ vs) = cons v (kept_items vs)

-- `out[key] = value`: the property in its place, or at the end.
pub set_field : Text → Value → Fields → Fields
set_field k v end = field k v end
set_field k v (field j w fs) =
    let rest = set_field k v fs in if same_text j k then field j v fs else field j w rest

-- The loop over the keys that are left, on from the properties written so far.
pub build : Fields → List (Text × Option Value) → Fields
build out [] = out
build out ((k, none) ∷ kvs) = build out kvs
build out ((k, some v) ∷ kvs) = build (set_field (take max_key k) v out) kvs

abbrev pub is_safe : Text × Option Value → Bool
is_safe kv = not (is_dangerous kv.0)

-- clampValue; `none` is `undefined`. What is sliced away is clamped here too, which changes
-- nothing, since clamping has no effect.
mutual
  unfolding clip kept_items build set_field is_dangerous same_text

  pub clamp_value : Value → ℕ → Option Value
  clamp_value null d = if ltb max_depth d then none else some null
  clamp_value (bool b) d = if ltb max_depth d then none else some (bool b)
  clamp_value (num n) d = if ltb max_depth d then none else some (num n)
  clamp_value (str s) d = if ltb max_depth d then none else some (str (clip s))
  clamp_value (arr vs) d =
      if ltb max_depth d
      then none
      else some (arr (kept_items (take max_array_items (clamp_items vs (d + 1)))))
  clamp_value (obj fs) d =
      if ltb max_depth d
      then none
      else some (obj (build end (take max_object_keys (select is_safe (clamp_fields fs (d + 1))))))

  pub clamp_items : Items → ℕ → List (Option Value)
  clamp_items nil d = []
  clamp_items (cons v vs) d = clamp_value v d ∷ clamp_items vs d

  pub clamp_fields : Fields → ℕ → List (Text × Option Value)
  clamp_fields end d = []
  clamp_fields (field k v fs) d = (k, clamp_value v d) ∷ clamp_fields fs d

-- sanitizeContext, over the runtime's `JSON.parse` and the bytes of what `JSON.stringify` writes.
module _ (parse_json : Text → Option Value) (json_bytes : Value → ℕ) where
  pub checked : Option Value → Option Value
  checked (some (obj end)) = none
  checked (some (obj (field k v fs))) =
      if ltb max_total_bytes (json_bytes (obj (field k v fs)))
      then none
      else some (obj (field k v fs))
  checked _ = none

  pub clamp_parsed : Option Value → Option Value
  unfolding checked clamp_value
  clamp_parsed (some (obj fs)) = checked (clamp_value (obj fs) 0)
  clamp_parsed _ = none

  pub sanitize_context : Option Text → Option Value
  unfolding clamp_parsed
  sanitize_context none = none
  sanitize_context (some []) = none
  sanitize_context (some (c ∷ raw)) = clamp_parsed (parse_json (c ∷ raw))
