-- ===== src/Jql/Answers.antt =====
-- What the leaves of `parseJql` (src/issues/jql.ts) answer: a value or a bad query.
use cimp.Prelude.{
  Bool, true, false, ◌&&◌, List, [], ◌∷◌, ◌≢◌, any, if◌then◌else◌, some, Option-cases, inl, inr,
}
use cimp.Prelude.Text.{Text, codes, same_text}
use cimp.Jql.{
  Js, BadQuery, JqlOp, in_list, FieldSpec, spec, same_op, Token, word, string, op, lparen, rparen,
  comma, Parse, parsed, bad, type_error, out_of_fuel, ◌>>=◌, check, check_date, date_shape,
  normalize_value, parse_value, parse_list, parse_op, open_list, parse_single, parse_values,
  parse_rest, parse_join, bad_operator, bad_date, bad_enum, dangling_and, or_unsupported,
  unexpected,
}

-- A value or a BadRequestException.
abbrev pub IsAnswer : {A : Type 0} → Parse A → Type 0
IsAnswer (parsed a) = Unit {0}
IsAnswer (bad e) = Unit {0}
IsAnswer type_error = ⊥
IsAnswer out_of_fuel = ⊥

pub IsAnswer-ne-out_of_fuel : {A : Type 0} (m : Parse A) → IsAnswer m → m ≢ out_of_fuel
IsAnswer-ne-out_of_fuel (parsed a) h e = cc e
IsAnswer-ne-out_of_fuel (bad b) h e = cc e
IsAnswer-ne-out_of_fuel type_error h e = h
IsAnswer-ne-out_of_fuel out_of_fuel h e = h

pub IsAnswer-ne-type_error : {A : Type 0} (m : Parse A) → IsAnswer m → m ≢ type_error
IsAnswer-ne-type_error (parsed a) h e = cc e
IsAnswer-ne-type_error (bad b) h e = cc e
IsAnswer-ne-type_error type_error h e = h
IsAnswer-ne-type_error out_of_fuel h e = h

>>=-IsAnswer :
    {A B : Type 0} (m : Parse A) (f : A → Parse B)
    → IsAnswer m
    → ((a : A) → IsAnswer (f a))
    → IsAnswer (m >>= f)
>>=-IsAnswer (parsed a) f h k = k a
>>=-IsAnswer (bad b) f h k = tt
>>=-IsAnswer type_error f h k = absurd h
>>=-IsAnswer out_of_fuel f h k = absurd h

check-IsAnswer :
    {A : Type 0} (b : Bool) (e : BadQuery) (m : Parse A)
    → IsAnswer m
    → IsAnswer (check b e >>= λ _. m)
check-IsAnswer true e m h = h
check-IsAnswer false e m h = tt

if-IsAnswer :
    {A : Type 0} (b : Bool) (x y : Parse A)
    → IsAnswer x
    → IsAnswer y
    → IsAnswer (if b then x else y)
if-IsAnswer true x y h k = h
if-IsAnswer false x y h k = k

joined-IsAnswer :
    {A : Type 0} (a b : Bool) (x : Parse A)
    → IsAnswer x
    → IsAnswer (if a then x else if b then bad or_unsupported else bad unexpected)
joined-IsAnswer true b x h = h
joined-IsAnswer false true x h = tt
joined-IsAnswer false false x h = tt

module _ (js : Js) where
  normalize_value-IsAnswer : (s : FieldSpec) (raw : Text) → IsAnswer (normalize_value js s raw)
  unfolding normalize_value check_date
  normalize_value-IsAnswer s raw = elim (Option-cases s.enum_values) [
    | inl free ↦ rw free (
        if-IsAnswer s.is_date _ _
          (check-IsAnswer (date_shape raw && js.date_parses raw) bad_date (parsed raw) tt) tt)
    | inr (names, listed) ↦ rw listed (
        check-IsAnswer (any (same_text (js.to_upper raw)) names) bad_enum (parsed (js.to_upper raw))
          tt)
  ]

  parse_value-IsAnswer : (s : FieldSpec) (t : Token) → IsAnswer (parse_value js s t)
  unfolding parse_value
  parse_value-IsAnswer s (word w) = normalize_value-IsAnswer s w
  parse_value-IsAnswer s (string w) = normalize_value-IsAnswer s w
  parse_value-IsAnswer s _ = tt

  parse_list-IsAnswer : (s : FieldSpec) (ts : List Token) → IsAnswer (parse_list js s ts)
  unfolding parse_list
  parse_list-IsAnswer s [] = tt
  parse_list-IsAnswer s (t ∷ rparen ∷ more) = >>=-IsAnswer _ _ (parse_value-IsAnswer s t) (λ v. tt)
  parse_list-IsAnswer s (t ∷ comma ∷ more) =
      >>=-IsAnswer _ _ (parse_value-IsAnswer s t)
        (λ v. >>=-IsAnswer _ _ (parse_list-IsAnswer s more) (λ vs. tt))
  parse_list-IsAnswer s (t ∷ _) = >>=-IsAnswer _ _ (parse_value-IsAnswer s t) (λ v. tt)

  parse_values-IsAnswer :
      (s : FieldSpec) (o : JqlOp) (ts : List Token) → IsAnswer (parse_values js s o ts)
  unfolding parse_values open_list parse_single
  parse_values-IsAnswer s in_list (lparen ∷ ts) = parse_list-IsAnswer s ts
  parse_values-IsAnswer s in_list _ = tt
  parse_values-IsAnswer s _ [] = tt
  parse_values-IsAnswer s _ (t ∷ ts) = >>=-IsAnswer _ _ (parse_value-IsAnswer s t) (λ v. tt)

  pub parse_op-IsAnswer : (ts : List Token) → IsAnswer (parse_op js ts)
  unfolding parse_op
  parse_op-IsAnswer (op o ∷ ts) = tt
  parse_op-IsAnswer (word w ∷ ts) = if-IsAnswer (same_text (js.to_lower w) (codes "in")) _ _ tt tt
  parse_op-IsAnswer _ = tt

  pub parse_join-IsAnswer : (ts : List Token) → IsAnswer (parse_join js ts)
  unfolding parse_join
  parse_join-IsAnswer [] = tt
  parse_join-IsAnswer (word w ∷ []) =
      joined-IsAnswer (same_text (js.to_lower w) (codes "and"))
        (same_text (js.to_lower w) (codes "or")) (bad dangling_and) tt
  parse_join-IsAnswer (word w ∷ t ∷ ts) =
      joined-IsAnswer (same_text (js.to_lower w) (codes "and"))
        (same_text (js.to_lower w) (codes "or")) (parsed (some (t ∷ ts))) tt
  parse_join-IsAnswer (_ ∷ ts) = tt

  -- A clause on a field of the table is answered.
  pub spec-IsAnswer :
      (field : Text) (s : FieldSpec) (ts : List Token) → IsAnswer (parse_rest js field (spec s) ts)
  unfolding parse_rest
  spec-IsAnswer field s ts = >>=-IsAnswer _ _ (parse_op-IsAnswer ts) (λ o.
      check-IsAnswer (any (same_op o.0) s.ops) bad_operator
        (do
          vs ← parse_values js s o.0 o.1
          parsed (record { field = field; op = o.0; values = vs.0 }, vs.1))
        (>>=-IsAnswer (parse_values js s o.0 o.1)
          (λ vs. parsed (record { field = field; op = o.0; values = vs.0 }, vs.1))
          (parse_values-IsAnswer s o.0 o.1) (λ vs. tt)))
