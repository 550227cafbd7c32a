-- ===== src/Jql/Thrown.antt =====
-- Where `parseJql` (src/issues/jql.ts) throws a TypeError.
use cimp.Prelude.{
  ℕ, zero, suc, ◌<◌, true, List, [], ◌∷◌, ◌≡◌, refl, sym, ◌⊎◌, ◌↔◌, inl, inr, none, some, any,
  length, arith, All, Bool-cases,
}
use mathlib.Core.Path.{subst}
use cimp.Prelude.Text.{Text, codes, same_text, same_text_iff}
use cimp.Jql.{
  Js, JqlOp, in_list, JqlFilter, Lookup, spec, inherited, missing, lookup_in, lookup_field, fields,
  FieldSpec, object_members, Token, word, string, op, lparen, rparen, comma, Parse, parsed, bad,
  type_error, out_of_fuel, ◌>>=◌, parse_op, parse_rest, parse_clause, parse_join, parse_clauses,
}
use cimp.Jql.Answers.{IsAnswer-ne-type_error, parse_op-IsAnswer, parse_join-IsAnswer, spec-IsAnswer}
use cimp.Jql.Sound.{parse_clause-IsValid, length-parse_join}

lookup_in-inherited :
    (w : Text) (rows : List (Text × FieldSpec))
    → lookup_in w rows ≡ inherited
    → any (same_text w) object_members ≡ true
unfolding lookup_in
lookup_in-inherited w [] h = ground (arith, h)
lookup_in-inherited w ((name, s) ∷ rest) h = elim (Bool-cases (same_text w name)) [
  | inl same ↦ absurd (ground (arith, h, same))
  | inr other ↦ lookup_in-inherited w rest (ground (arith, h, other))
]

-- The members of Object.prototype are no fields of the table.
members_inherited : All (λ w. lookup_field w ≡ inherited) object_members
unfolding lookup_field lookup_in same_text
members_inherited = (
  refl,
  (refl, (refl, (refl, (refl, (refl, (refl, (refl, (refl, (refl, (refl, (refl, tt))))))))))),
)

any_same_text :
    (P : Text → Type 0) (w : Text) (ts : List Text) → All P ts → any (same_text w) ts ≡ true → P w
any_same_text P w [] h e = absurd (cc e)
any_same_text P w (t ∷ ts) (h, hs) e = elim (Bool-cases (same_text w t)) [
  | inl same ↦ subst P (sym ((same_text_iff w t).0 same)) h
  | inr other ↦ any_same_text P w ts hs (ground (arith, e, other))
]

module _ (js : Js) where
  -- The name, in lower case, of a member of Object.prototype.
  abbrev pub IsMember : Text → Type 0
  IsMember w = any (same_text (js.to_lower w)) object_members ≡ true

  -- Tokens that begin with an operator: a token of one, or the word IN.
  pub data BeginsOp : List Token → Type 0 where
    symbol : (o : JqlOp) (rest : List Token) → BeginsOp (op o ∷ rest)
    spelled : (w : Text) (rest : List Token) → js.to_lower w ≡ codes "in" → BeginsOp (word w ∷ rest)

  -- A clause on such a name and an operator, at the front or behind clauses that parse, each with
  -- its AND.
  pub data Throws : List Token → Type 0 where
    here : (w : Text) (rest : List Token) → IsMember w → BeginsOp rest → Throws (word w ∷ rest)
    behind :
        (f : JqlFilter) (ts rest more : List Token)
        → parse_clause js ts ≡ parsed (f, rest)
        → parse_join js rest ≡ parsed (some more)
        → Throws more
        → Throws ts

  BeginsOp-parse_op :
      (ts : List Token) → BeginsOp ts → (p : JqlOp × List Token) × (parse_op js ts ≡ parsed p)
  unfolding parse_op
  BeginsOp-parse_op _ (symbol o rest) = ((o, rest), refl)
  BeginsOp-parse_op _ (spelled w rest e) =
      ((in_list, rest), rw ((same_text_iff (js.to_lower w) (codes "in")).1 e) refl)

  parse_op-BeginsOp :
      (ts : List Token) (p : JqlOp × List Token) → parse_op js ts ≡ parsed p → BeginsOp ts
  unfolding parse_op
  parse_op-BeginsOp [] p h = absurd (cc h)
  parse_op-BeginsOp (op o ∷ rest) p h = symbol o rest
  parse_op-BeginsOp (word w ∷ rest) p h =
      elim (Bool-cases (same_text (js.to_lower w) (codes "in"))) [
        | inl same ↦ spelled w rest ((same_text_iff (js.to_lower w) (codes "in")).0 same)
        | inr other ↦ absurd (ground (arith, h, other))
      ]
  parse_op-BeginsOp (string w ∷ rest) p h = absurd (cc h)
  parse_op-BeginsOp (lparen ∷ rest) p h = absurd (cc h)
  parse_op-BeginsOp (rparen ∷ rest) p h = absurd (cc h)
  parse_op-BeginsOp (comma ∷ rest) p h = absurd (cc h)

  parse_clauses-behind :
      (n : ℕ) (ts rest more : List Token) (f : JqlFilter)
      → parse_clause js ts ≡ parsed (f, rest)
      → parse_join js rest ≡ parsed (some more)
      → parse_clauses js n more ≡ type_error
      → parse_clauses js (suc n) ts ≡ type_error
  unfolding parse_clauses
  parse_clauses-behind n ts rest more f clause join thrown = rw (clause, join, thrown) refl

  parse_clauses-throws :
      (n : ℕ) (ts : List Token) → length ts < n → Throws ts → parse_clauses js n ts ≡ type_error
  unfolding parse_clauses parse_clause parse_rest
  parse_clauses-throws zero ts h t = elim h [ ]
  parse_clauses-throws (suc n) _ h (here w rest member begins) =
      let known =
        any_same_text (λ k. lookup_field k ≡ inherited) (js.to_lower w) object_members
          members_inherited member in
      rw (known, (BeginsOp-parse_op rest begins).1) refl
  parse_clauses-throws (suc n) ts h (behind f _ rest more clause join t) =
      let (_, shorter) = parse_clause-IsValid js ts f rest clause in
      let shorter' = length-parse_join js rest more join in
      let thrown = parse_clauses-throws n more (omega (arith, h, shorter, shorter')) t in
      parse_clauses-behind n ts rest more f clause join thrown

  >>=-eq-type_error :
      {A B : Type 0} (m : Parse A) (f : A → Parse B)
      → (m >>= f) ≡ type_error
      → (m ≡ type_error) ⊎ ((a : A) × (m ≡ parsed a) × (f a ≡ type_error))
  >>=-eq-type_error (parsed a) f h = inr (a, refl, h)
  >>=-eq-type_error (bad e) f h = absurd (cc h)
  >>=-eq-type_error type_error f h = inl refl
  >>=-eq-type_error out_of_fuel f h = absurd (cc h)

  parse_rest-throws :
      (w : Text) (found : Lookup) (rest : List Token)
      → lookup_field (js.to_lower w) ≡ found
      → parse_rest js (js.to_lower w) found rest ≡ type_error
      → Throws (word w ∷ rest)
  unfolding parse_rest lookup_field
  parse_rest-throws w missing rest e h = absurd (cc h)
  parse_rest-throws w (spec s) rest e h =
      absurd (IsAnswer-ne-type_error _ (spec-IsAnswer js (js.to_lower w) s rest) h)
  parse_rest-throws w inherited rest e h = elim (>>=-eq-type_error (parse_op js rest) _ h) [
    | inl lost ↦ absurd (IsAnswer-ne-type_error _ (parse_op-IsAnswer js rest) lost)
    | inr (p, there, _) ↦
        here w rest (lookup_in-inherited (js.to_lower w) fields e) (parse_op-BeginsOp rest p there)
  ]

  parse_clause-throws : (ts : List Token) → parse_clause js ts ≡ type_error → Throws ts
  unfolding parse_clause
  parse_clause-throws (word w ∷ rest) h = parse_rest-throws w _ rest refl h
  parse_clause-throws [] h = absurd (cc h)
  parse_clause-throws (string w ∷ rest) h = absurd (cc h)
  parse_clause-throws (op o ∷ rest) h = absurd (cc h)
  parse_clause-throws (lparen ∷ rest) h = absurd (cc h)
  parse_clause-throws (rparen ∷ rest) h = absurd (cc h)
  parse_clause-throws (comma ∷ rest) h = absurd (cc h)

  parse_clauses-Throws : (n : ℕ) (ts : List Token) → parse_clauses js n ts ≡ type_error → Throws ts
  unfolding parse_clauses
  parse_clauses-Throws zero ts h = absurd (cc h)
  parse_clauses-Throws (suc n) ts h = elim (>>=-eq-type_error (parse_clause js ts) _ h) [
    | inl thrown ↦ parse_clause-throws ts thrown
    | inr (c, clause, h') ↦ elim (>>=-eq-type_error (parse_join js c.1) _ h') [
      | inl lost ↦ absurd (IsAnswer-ne-type_error _ (parse_join-IsAnswer js c.1) lost)
      | inr (none, joined, h'') ↦ absurd (cc h'')
      | inr (some more, joined, h'') ↦ elim (>>=-eq-type_error (parse_clauses js n more) _ h'') [
        | inl thrown ↦ behind c.0 ts c.1 more clause joined (parse_clauses-Throws n more thrown)
        | inr (fs, _, none_left) ↦ absurd (cc none_left)
      ]
    ]
  ]

  -- With enough fuel the loop over the clauses throws exactly there.
  pub parse_clauses_throw_iff :
      (n : ℕ) (ts : List Token) → length ts < n → (parse_clauses js n ts ≡ type_error) ↔ Throws ts
  parse_clauses_throw_iff n ts h = (parse_clauses-Throws n ts, parse_clauses-throws n ts h)
