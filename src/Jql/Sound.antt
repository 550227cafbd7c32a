-- ===== src/Jql/Sound.antt =====
-- What a query that parses looks like, and that parsing ends.
use cimp.Prelude.{
  ℕ, zero, suc, ◌<◌, Bool, true, false, List, [], ◌∷◌, ◌≡◌, ◌≢◌, refl, ap, Option, none, some, any,
  length, arith, Option-cases, inl, inr, ◌⊎◌, All,
}
use cimp.Prelude.Text.{Text, same_text}
use cimp.Jql.{
  Js, BadQuery, bad_operator, JqlOp, in_list, JqlFilter, FieldSpec, Lookup, spec, inherited,
  missing, lookup_field, same_op, Token, word, string, op, lparen, rparen, comma, Parse, parsed,
  bad, type_error, out_of_fuel, ◌>>=◌, check, date_shape, check_date, normalize_value, parse_value,
  parse_list, parse_op, open_list, parse_single, parse_values, parse_rest, parse_clause, parse_join,
  parse_clauses,
}

-- A value that a field takes: a name of its enumeration, or a date, where it is of either kind.
abbrev pub IsValue : Js → FieldSpec → Text → Type 0
IsValue js s v =
    ((names : List Text) → s.enum_values ≡ some names → any (same_text v) names ≡ true)
    × (s.enum_values ≡ none → s.is_date ≡ true → (date_shape v ≡ true) × (js.date_parses v ≡ true))

-- A filter whose field is known, whose operator the field allows, and whose values are values of
-- the field: at least one of them, and exactly one unless the operator is IN.
pub record IsValid (js : Js) (f : JqlFilter) : Type 0 where
  pub spec_of : FieldSpec
  pub known : lookup_field f.field ≡ spec spec_of
  pub allowed : any (same_op f.op) spec_of.ops ≡ true
  pub valued : All (IsValue js spec_of) f.values
  pub some_value : f.values ≢ []
  pub single : f.op ≢ in_list → length f.values ≡ 1

>>=-eq-parsed :
    {A B : Type 0} (m : Parse A) (f : A → Parse B) {b : B}
    → (m >>= f) ≡ parsed b
    → (a : A) × (m ≡ parsed a) × (f a ≡ parsed b)
>>=-eq-parsed (parsed a) f h = (a, refl, h)
>>=-eq-parsed (bad e) f h = cc
>>=-eq-parsed type_error f h = cc
>>=-eq-parsed out_of_fuel f h = cc

check_inv : (b : Bool) (e : BadQuery) → check b e ≡ parsed tt → b ≡ true
check_inv true e h = refl
check_inv false e h = cc

join_inv :
    {fs : List JqlFilter} (join : Option (List Token)) (f : JqlFilter)
    (k : List Token → Parse (List JqlFilter))
    → elim join as (λ x. Parse (List JqlFilter)) [
      | none ↦ parsed (f ∷ [])
      | some more ↦ (do fs ← k more; parsed (f ∷ fs))
    ]
      ≡ parsed fs
    → (fs ≡ f ∷ [])
      ⊎ ((more : List Token) × (later : List JqlFilter) × (k more ≡ parsed later)
          × (fs ≡ f ∷ later))
join_inv none f k h = inl (ground arith)
join_inv (some more) f k h =
    let (later, rest, e) = >>=-eq-parsed (k more) _ h in inr (more, later, rest, ground arith)

module _ (js : Js) where
  normalize_value-IsValue :
      (s : FieldSpec) (raw v : Text) → normalize_value js s raw ≡ parsed v → IsValue js s v
  unfolding normalize_value check_date
  normalize_value-IsValue s raw v h = elim (Option-cases s.enum_values) [
    | inl free ↦ (
      λ names e. absurd (ground (arith, free, e)),
      λ e d. (ground (arith, free, d), ground (arith, free, d)),
    )
    | inr (names, listed) ↦
        (λ names' e. ground (arith, listed, e), λ e d. absurd (ground (arith, listed, e)))
  ]

  parse_value-IsValue :
      (s : FieldSpec) (t : Token) (v : Text) → parse_value js s t ≡ parsed v → IsValue js s v
  unfolding parse_value
  parse_value-IsValue s (word w) v h = normalize_value-IsValue s w v h
  parse_value-IsValue s (string w) v h = normalize_value-IsValue s w v h
  parse_value-IsValue s _ v h = cc

  parse_list-IsValue :
      (s : FieldSpec) (ts : List Token) (vs : List Text) (rest : List Token)
      → parse_list js s ts ≡ parsed (vs, rest)
      → All (IsValue js s) vs × (vs ≢ []) × (length rest < length ts)
  unfolding parse_list
  parse_list-IsValue s [] vs rest h = cc
  parse_list-IsValue s (t ∷ []) vs rest h =
      let (v, _, e) = >>=-eq-parsed (parse_value js s t) _ h in cc e
  parse_list-IsValue s (t ∷ rparen ∷ more) vs rest h =
      let (v, value, e) = >>=-eq-parsed (parse_value js s t) _ h in
      let one : vs ≡ v ∷ [] = ground arith in
      let left : rest ≡ more = ground arith in
      (rw one (parse_value-IsValue s t v value, tt), rw one (λ e'. cc e'), rw left (omega arith))
  parse_list-IsValue s (t ∷ comma ∷ more) vs rest h =
      let (v, value, e) = >>=-eq-parsed (parse_value js s t) _ h in
      let (later, listed, e') = >>=-eq-parsed (parse_list js s more) _ e in
      let (values, _, shorter) = parse_list-IsValue s more later.0 later.1 listed in
      let all_of : vs ≡ v ∷ later.0 = ground arith in
      let left : rest ≡ later.1 = ground arith in
      (
        rw all_of (parse_value-IsValue s t v value, values),
        rw all_of (λ e''. cc e''),
        rw left (omega arith),
      )
  parse_list-IsValue s (t ∷ _ ∷ more) vs rest h =
      let (v, _, e) = >>=-eq-parsed (parse_value js s t) _ h in cc e

  parse_single-IsValue :
      (s : FieldSpec) (ts : List Token) (vs : List Text) (rest : List Token)
      → parse_single js s ts ≡ parsed (vs, rest)
      → All (IsValue js s) vs × (length vs ≡ 1) × (length rest < length ts)
  unfolding parse_single
  parse_single-IsValue s [] vs rest h = cc
  parse_single-IsValue s (t ∷ more) vs rest h =
      let (v, value, e) = >>=-eq-parsed (parse_value js s t) _ h in
      let one : vs ≡ v ∷ [] = ground arith in
      let left : rest ≡ more = ground arith in
      (rw one (parse_value-IsValue s t v value, tt), rw one refl, rw left (omega arith))

  length-parse_op :
      (ts : List Token) (o : JqlOp) (rest : List Token)
      → parse_op js ts ≡ parsed (o, rest)
      → length rest < length ts
  unfolding parse_op
  length-parse_op [] o rest h = cc
  length-parse_op (op p ∷ more) o rest h = ground arith
  length-parse_op (word w ∷ more) o rest h = ground arith
  length-parse_op (_ ∷ more) o rest h = cc

  parse_values-IsValue :
      (s : FieldSpec) (o : JqlOp) (ts : List Token) (vs : List Text) (rest : List Token)
      → parse_values js s o ts ≡ parsed (vs, rest)
      → All (IsValue js s) vs
        × (vs ≢ [])
        × (o ≢ in_list → length vs ≡ 1)
        × (length rest < length ts)
  unfolding parse_values open_list
  parse_values-IsValue s in_list [] vs rest h = cc
  parse_values-IsValue s in_list (lparen ∷ ts) vs rest h =
      let (values, some_value, shorter) = parse_list-IsValue s ts vs rest h in
      (values, some_value, λ other. absurd (other refl), omega arith)
  parse_values-IsValue s in_list (_ ∷ ts) vs rest h = cc
  parse_values-IsValue s o ts vs rest h =
      let (values, one, shorter) = parse_single-IsValue s ts vs rest h in
      (values, λ e. absurd (ground (arith, ap length e)), λ other. one, shorter)

  parse_rest-IsValid :
      (field : Text) (found : Lookup) (ts : List Token) (f : JqlFilter) (rest : List Token)
      → lookup_field field ≡ found
      → parse_rest js field found ts ≡ parsed (f, rest)
      → IsValid js f × (length rest < length ts)
  unfolding parse_rest
  parse_rest-IsValid field missing ts f rest looked h = cc
  parse_rest-IsValid field inherited ts f rest looked h =
      let (o, _, e) = >>=-eq-parsed (parse_op js ts) _ h in cc e
  parse_rest-IsValid field (spec s) ts f rest looked h =
      let (o, operator, e) = >>=-eq-parsed (parse_op js ts) _ h in
      let (_, allowed, e') = >>=-eq-parsed (check (any (same_op o.0) s.ops) bad_operator) _ e in
      let (vs, listed, e'') = >>=-eq-parsed (parse_values js s o.0 o.1) _ e' in
      let (values, some_value, single, shorter) = parse_values-IsValue s o.0 o.1 vs.0 vs.1 listed in
      let shorter' = length-parse_op ts o.0 o.1 operator in
      let whole : f ≡ record { field = field; op = o.0; values = vs.0 } = ground arith in
      let left : rest ≡ vs.1 = ground arith in
      (
        rw whole (record {
          spec_of = s;
          known = looked;
          allowed = check_inv _ bad_operator allowed;
          valued = values;
          some_value = some_value;
          single = single;
        }),
        rw left (omega arith),
      )

  pub parse_clause-IsValid :
      (ts : List Token) (f : JqlFilter) (rest : List Token)
      → parse_clause js ts ≡ parsed (f, rest)
      → IsValid js f × (length rest < length ts)
  unfolding parse_clause
  parse_clause-IsValid [] f rest h = cc
  parse_clause-IsValid (word w ∷ ts) f rest h =
      let (valid, shorter) = parse_rest-IsValid (js.to_lower w) _ ts f rest refl h in
      (valid, omega arith)
  parse_clause-IsValid (_ ∷ ts) f rest h = cc

  pub length-parse_join :
      (ts more : List Token) → parse_join js ts ≡ parsed (some more) → length more < length ts
  unfolding parse_join
  length-parse_join [] more h = cc
  length-parse_join (word w ∷ []) more h = absurd (ground arith)
  length-parse_join (word w ∷ t ∷ rest) more h = ground arith
  length-parse_join (_ ∷ ts) more h = cc

  pub parse_clauses-IsValid :
      (n : ℕ) (ts : List Token) (fs : List JqlFilter)
      → parse_clauses js n ts ≡ parsed fs
      → (fs ≢ []) × All (IsValid js) fs
  unfolding parse_clauses
  parse_clauses-IsValid zero ts fs h = cc
  parse_clauses-IsValid (suc n) ts fs h =
      let (c, clause, e) = >>=-eq-parsed (parse_clause js ts) _ h in
      let (valid, _) = parse_clause-IsValid ts c.0 c.1 clause in
      let (join, joined, e') = >>=-eq-parsed (parse_join js c.1) _ e in
      elim (join_inv join c.0 (parse_clauses js n) e') [
        | inl one ↦ (rw one (λ e''. cc e''), rw one (valid, tt))
        | inr (more, later, rest, all_of) ↦
            let (_, valids) = parse_clauses-IsValid n more later rest in
            (rw all_of (λ e''. cc e''), rw all_of (valid, valids))
      ]
