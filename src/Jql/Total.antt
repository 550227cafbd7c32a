-- ===== src/Jql/Total.antt =====
-- The fuel of the clause loop of `parseJql` (src/issues/jql.ts).
use cimp.Prelude.{
  ℕ, zero, suc, ◌<◌, List, [], ◌∷◌, ◌≡◌, ◌≢◌, refl, ap, ◌∙◌, Option, none, some, length, arith,
}
use cimp.Prelude.Text.{Text}
use cimp.Jql.{
  Js, JqlFilter, Lookup, spec, inherited, missing, lookup_field, Token, word, Parse, parsed, bad,
  type_error, out_of_fuel, ◌>>=◌, parse_rest, parse_clause, parse_clauses,
}
use cimp.Jql.Answers.{
  IsAnswer-ne-out_of_fuel, parse_op-IsAnswer, parse_join-IsAnswer, spec-IsAnswer,
}
use cimp.Jql.Sound.{parse_clause-IsValid, length-parse_join}

>>=-ne-out_of_fuel :
    {A B : Type 0} (m : Parse A) (f : A → Parse B)
    → m ≢ out_of_fuel
    → ((a : A) → m ≡ parsed a → f a ≢ out_of_fuel)
    → (m >>= f) ≢ out_of_fuel
>>=-ne-out_of_fuel (parsed a) f h k e = k a refl e
>>=-ne-out_of_fuel (bad b) f h k e = cc e
>>=-ne-out_of_fuel type_error f h k e = cc e
>>=-ne-out_of_fuel out_of_fuel f h k e = h refl

join-ne-out_of_fuel :
    (join : Option (List Token)) (f : JqlFilter) (k : List Token → Parse (List JqlFilter))
    → ((more : List Token) → join ≡ some more → k more ≢ out_of_fuel)
    → elim join as (λ x. Parse (List JqlFilter)) [
      | none ↦ parsed (f ∷ [])
      | some more ↦ (do fs ← k more; parsed (f ∷ fs))
    ]
      ≢ out_of_fuel
join-ne-out_of_fuel none f k h = λ e. cc e
join-ne-out_of_fuel (some more) f k h = >>=-ne-out_of_fuel _ _ (h more refl) (λ fs _ e. cc e)

module _ (js : Js) where
  parse_rest-ne-out_of_fuel :
      (field : Text) (found : Lookup) (ts : List Token) → parse_rest js field found ts ≢ out_of_fuel
  unfolding parse_rest
  parse_rest-ne-out_of_fuel field missing ts = λ h. cc h
  parse_rest-ne-out_of_fuel field inherited ts =
      >>=-ne-out_of_fuel _ _ (IsAnswer-ne-out_of_fuel _ (parse_op-IsAnswer js ts)) (λ o _ h. cc h)
  parse_rest-ne-out_of_fuel field (spec s) ts =
      IsAnswer-ne-out_of_fuel _ (spec-IsAnswer js field s ts)

  parse_clause-ne-out_of_fuel : (ts : List Token) → parse_clause js ts ≢ out_of_fuel
  unfolding parse_clause
  parse_clause-ne-out_of_fuel (word w ∷ ts) =
      parse_rest-ne-out_of_fuel (js.to_lower w) (lookup_field (js.to_lower w)) ts
  parse_clause-ne-out_of_fuel _ = λ h. cc h

  -- With more fuel than there are tokens the loop over the clauses ends.
  pub parse_clauses-ne-out_of_fuel :
      (n : ℕ) (ts : List Token) → length ts < n → parse_clauses js n ts ≢ out_of_fuel
  unfolding parse_clauses
  parse_clauses-ne-out_of_fuel zero ts h = elim h [ ]
  parse_clauses-ne-out_of_fuel (suc n) ts h =
      >>=-ne-out_of_fuel _ _ (parse_clause-ne-out_of_fuel ts) (λ c clause.
        >>=-ne-out_of_fuel _ _ (IsAnswer-ne-out_of_fuel _ (parse_join-IsAnswer js c.1))
          (λ join joined. join-ne-out_of_fuel join c.0 (parse_clauses js n) (λ more found.
            let (_, shorter) = parse_clause-IsValid js ts c.0 c.1 clause in
            let shorter' = length-parse_join js c.1 more (joined ∙ ap parsed found) in
            parse_clauses-ne-out_of_fuel n more (omega arith))))
