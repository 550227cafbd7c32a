-- ===== src/Jql.antt =====
-- The filter language of saved views: src/issues/jql.ts.
pub mod Tokens
pub mod Sound
pub mod Answers
pub mod Total
pub mod Thrown
pub mod Result
mod Tests
use cimp.Prelude.{
  ℕ, zero, suc, ◌+◌, Bool, true, false, not, ◌&&◌, ◌||◌, List, [], ◌∷◌, Option, none, some,
  if◌then◌else◌, ◌==◌, leb, any, all, length,
}
use cimp.Prelude.Text.{Text, codes, same_text, is_space}

pub data JqlOp : Type 0 where
  eq ne like ge le in_list : JqlOp

pub record JqlFilter : Type 0 where
  pub field : Text
  pub op : JqlOp
  pub values : List Text

pub record FieldSpec : Type 0 where
  pub ops : List JqlOp
  pub enum_values : Option (List Text)
  pub is_date : Bool

-- Which of its messages a 400 carries.
pub data BadQuery : Type 0 where
  empty_query expected_field unknown_field expected_operator bad_operator expected_list
        expected_value expected_separator bad_enum bad_date dangling_and or_unsupported unexpected :
      BadQuery

-- A value, a BadRequestException, a TypeError (which is no HTTP exception), or no fuel.
pub data Parse (A : Type 0) : Type 0 where
  parsed : A → Parse A
  bad : BadQuery → Parse A
  type_error out_of_fuel : Parse A

infixl 5 ◌>>=◌ ◌>>◌
abbrev pub ◌>>=◌ : {A B : Type 0} → Parse A → (A → Parse B) → Parse B
parsed a >>= f = f a
bad e >>= f = bad e
type_error >>= f = type_error
out_of_fuel >>= f = out_of_fuel

abbrev pub ◌>>◌ : {B : Type 0} → Parse (Unit {0}) → Parse B → Parse B
m >> k = m >>= λ _. k

abbrev pub check : Bool → BadQuery → Parse (Unit {0})
check true e = parsed tt
check false e = bad e

-- The language's runtime: `toLowerCase`, `toUpperCase`, and whether `Date.parse` yields a number.
pub record Js : Type 0 where
  pub to_lower : Text → Text
  pub to_upper : Text → Text
  pub date_parses : Text → Bool

abbrev op_code : JqlOp → ℕ
op_code eq = 0
op_code ne = 1
op_code like = 2
op_code ge = 3
op_code le = 4
op_code in_list = 5

abbrev pub same_op : JqlOp → JqlOp → Bool
same_op a b = op_code a == op_code b

abbrev pub status_names : List Text
status_names =
    codes "NEW"
    ∷ codes "IN_PROGRESS"
    ∷ codes "ON_HOLD"
    ∷ codes "RESOLVED"
    ∷ codes "CLOSED"
    ∷ codes "REOPENED"
    ∷ []

abbrev pub priority_names : List Text
priority_names = codes "LOW" ∷ codes "MEDIUM" ∷ codes "HIGH" ∷ codes "CRITICAL" ∷ []

abbrev plain : List JqlOp → FieldSpec
plain ops = record { ops = ops; enum_values = none; is_date = false }

abbrev enumerated : List Text → FieldSpec
enumerated names = record {
  ops = eq ∷ ne ∷ in_list ∷ [];
  enum_values = some names;
  is_date = false;
}

abbrev dated : FieldSpec
dated = record { ops = ge ∷ le ∷ []; enum_values = none; is_date = true }

-- What `FIELDS[field]` holds: FIELDS is an object literal, so the name of a member of
-- `Object.prototype` finds that member. Only the names that lower case leaves as they are matter.
pub data Lookup : Type 0 where
  spec : FieldSpec → Lookup
  inherited missing : Lookup

abbrev pub fields : List (Text × FieldSpec)
fields =
    (codes "status", enumerated status_names)
    ∷ (codes "priority", enumerated priority_names)
    ∷ (codes "platform", plain (eq ∷ ne ∷ in_list ∷ []))
    ∷ (codes "assignee", plain (eq ∷ ne ∷ like ∷ in_list ∷ []))
    ∷ (codes "reporter", plain (eq ∷ ne ∷ like ∷ []))
    ∷ (codes "label", plain (eq ∷ ne ∷ in_list ∷ []))
    ∷ (codes "created", dated)
    ∷ (codes "updated", dated)
    ∷ (codes "text", plain (like ∷ []))
    ∷ []

abbrev pub object_members : List Text
object_members =
    codes "constructor"
    ∷ codes "toString"
    ∷ codes "valueOf"
    ∷ codes "hasOwnProperty"
    ∷ codes "isPrototypeOf"
    ∷ codes "propertyIsEnumerable"
    ∷ codes "toLocaleString"
    ∷ codes "__proto__"
    ∷ codes "__defineGetter__"
    ∷ codes "__defineSetter__"
    ∷ codes "__lookupGetter__"
    ∷ codes "__lookupSetter__"
    ∷ []

pub lookup_in : Text → List (Text × FieldSpec) → Lookup
lookup_in field [] = if any (same_text field) object_members then inherited else missing
lookup_in field ((name, s) ∷ rest) = if same_text field name then spec s else lookup_in field rest

pub lookup_field : Text → Lookup
lookup_field field = lookup_in field fields

-- /^\d{4}-\d{2}-\d{2}([T ].*)?$/, where `.` is no line terminator.
is_digit : ℕ → Bool
is_digit c = leb b'0' c && leb c b'9'

is_line_end : ℕ → Bool
is_line_end c = c == 10 || c == 13 || c == 0x2028 || c == 0x2029

date_tail : Text → Bool
date_tail [] = true
date_tail (c ∷ cs) = (c == b'T' || c == b' ') && all (λ d. not (is_line_end d)) cs

pub date_shape : Text → Bool
date_shape (a ∷ b ∷ c ∷ d ∷ e ∷ f ∷ g ∷ h ∷ i ∷ j ∷ rest) =
    all is_digit (a ∷ b ∷ c ∷ d ∷ [])
    && e == b'-'
    && all is_digit (f ∷ g ∷ [])
    && h == b'-'
    && all is_digit (i ∷ j ∷ [])
    && date_tail rest
date_shape _ = false

pub data Token : Type 0 where
  word string : Text → Token
  op : JqlOp → Token
  lparen rparen comma : Token

module _ (js : Js) where
  open js use {to_lower, to_upper, date_parses}

  pub check_date : FieldSpec → Text → Parse Text
  check_date s raw =
      if s.is_date
      then (do check (date_shape raw && date_parses raw) bad_date; parsed raw)
      else parsed raw

  pub normalize_value : FieldSpec → Text → Parse Text
  normalize_value s raw = elim s.enum_values [
    | some names ↦ do check (any (same_text (to_upper raw)) names) bad_enum; parsed (to_upper raw)
    | none ↦ check_date s raw
  ]

  -- A value token.
  pub parse_value : FieldSpec → Token → Parse Text
  parse_value s (word v) = normalize_value s v
  parse_value s (string v) = normalize_value s v
  parse_value s _ = bad expected_value

  -- The list of IN, behind its parenthesis.
  pub parse_list : FieldSpec → List Token → Parse (List Text × List Token)
  parse_list s [] = bad expected_value
  parse_list s (t ∷ []) = do v ← parse_value s t; bad expected_separator
  parse_list s (t ∷ rparen ∷ rest) = do v ← parse_value s t; parsed (v ∷ [], rest)
  parse_list s (t ∷ comma ∷ rest) =
      let later = parse_list s rest in
      (do v ← parse_value s t; more ← later; parsed (v ∷ more.0, more.1))
  parse_list s (t ∷ _ ∷ rest) = do v ← parse_value s t; bad expected_separator

  pub parse_op : List Token → Parse (JqlOp × List Token)
  parse_op (op o ∷ rest) = parsed (o, rest)
  parse_op (word w ∷ rest) =
      if same_text (to_lower w) (codes "in") then parsed (in_list, rest) else bad expected_operator
  parse_op _ = bad expected_operator

  open_list : List Token → Parse (List Token)
  open_list (lparen ∷ rest) = parsed rest
  open_list _ = bad expected_list

  parse_single : FieldSpec → List Token → Parse (List Text × List Token)
  parse_single s [] = bad expected_value
  parse_single s (t ∷ rest) = do v ← parse_value s t; parsed (v ∷ [], rest)

  pub parse_values : FieldSpec → JqlOp → List Token → Parse (List Text × List Token)
  parse_values s in_list ts = do rest ← open_list ts; parse_list s rest
  parse_values s _ ts = parse_single s ts

  -- The rest of a clause, behind its field. `ops` of an inherited member is undefined, and the
  -- call of `includes` on it throws.
  pub parse_rest : Text → Lookup → List Token → Parse (JqlFilter × List Token)
  parse_rest field missing ts = bad unknown_field
  parse_rest field inherited ts = do o ← parse_op ts; type_error
  parse_rest field (spec s) ts = do
    o ← parse_op ts
    check (any (same_op o.0) s.ops) bad_operator
    vs ← parse_values s o.0 o.1
    parsed (record { field = field; op = o.0; values = vs.0 }, vs.1)

  pub parse_clause : List Token → Parse (JqlFilter × List Token)
  parse_clause (word w ∷ rest) =
      let field = to_lower w in parse_rest field (lookup_field field) rest
  parse_clause _ = bad expected_field

  -- What joins one clause to the next: `some rest` behind an AND, `none` at the end.
  pub parse_join : List Token → Parse (Option (List Token))
  parse_join [] = parsed none
  parse_join (word w ∷ []) =
      if same_text (to_lower w) (codes "and")
      then bad dangling_and
      else if same_text (to_lower w) (codes "or")
      then bad or_unsupported
      else bad unexpected
  parse_join (word w ∷ t ∷ rest) =
      if same_text (to_lower w) (codes "and")
      then parsed (some (t ∷ rest))
      else if same_text (to_lower w) (codes "or")
      then bad or_unsupported
      else bad unexpected
  parse_join _ = bad unexpected

  -- The loop over the clauses, on fuel.
  pub parse_clauses : ℕ → List Token → Parse (List JqlFilter)
  parse_clauses zero ts = out_of_fuel
  parse_clauses (suc n) ts = do
    c ← parse_clause ts
    join ← parse_join c.1
    elim join [
      | none ↦ parsed (c.0 ∷ [])
      | some more ↦ (do fs ← parse_clauses n more; parsed (c.0 ∷ fs))
    ]
