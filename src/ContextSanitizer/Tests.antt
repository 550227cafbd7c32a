-- ===== src/ContextSanitizer/Tests.antt =====
-- The context sanitizer on a context with a dangerous key (src/reporter/context-sanitizer.ts).
use cimp.Prelude.{ℕ, ◌≤◌, ◌≡◌, refl, true, Option, some}
use cimp.Prelude.Text.{Text, codes}
use cimp.ContextSanitizer.{
  Value, bool, str, obj, Fields, end, field, max_total_bytes, sanitize_context,
}
use cimp.ContextSanitizer.Shape.{IsClamped}
use cimp.ContextSanitizer.Bounds.{sanitize_context-IsClamped}

abbrev parsed : Value
parsed = obj (field (codes "__proto__") (bool true) (field (codes "os") (str (codes "linux")) end))

abbrev cleaned : Value
cleaned = obj (field (codes "os") (str (codes "linux")) end)

abbrev parse_json : Text → Option Value
parse_json s = some parsed

abbrev json_bytes : Value → ℕ
json_bytes v = 14

cleans : sanitize_context parse_json json_bytes (some (codes "{}")) ≡ some cleaned
unfolding sanitize_context
cleans = refl

sanitize_context-IsClamped_example :
    IsClamped cleaned 0
    × (json_bytes cleaned ≤ max_total_bytes)
    × ((k : Text) × (v : Value) × (fs : Fields) × (cleaned ≡ obj (field k v fs)))
sanitize_context-IsClamped_example =
    sanitize_context-IsClamped parse_json json_bytes (some (codes "{}")) cleaned cleans
