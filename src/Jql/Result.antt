-- ===== src/Jql/Result.antt =====
-- What `parseJql` (src/issues/jql.ts) comes to on a text.
use cimp.Prelude.{
  ◌≡◌, ◌≢◌, ◌↔◌, refl, ◌+◌, false, List, [], all, length, All, arith, Bool-cases, inl, inr,
}
use cimp.Prelude.Text.{Text, is_space}
use cimp.Jql.{Js, JqlFilter, parsed, type_error, out_of_fuel}
use cimp.Jql.Tokens.{tokenize, parse_jql}
use cimp.Jql.Sound.{IsValid, parse_clauses-IsValid}
use cimp.Jql.Thrown.{Throws, parse_clauses_throw_iff}
use cimp.Jql.Total.{parse_clauses-ne-out_of_fuel}

-- The filters of a query that parses: there is at least one, and each names a known field, uses an
-- operator that this field allows, and has at least one value and, unless its operator is IN,
-- exactly one. Each value of an enumerated field is a name of the enumeration, and each value of
-- a date field has the shape of an ISO date and parses as a date.
pub parse_jql-IsValid :
    (js : Js) (input : Text) (fs : List JqlFilter)
    → parse_jql js input ≡ parsed fs
    → (fs ≢ []) × All (IsValid js) fs
unfolding parse_jql
parse_jql-IsValid js input fs h = elim (Bool-cases (all is_space input)) [
  | inl blank ↦ absurd (ground (arith, blank))
  | inr text ↦
      parse_clauses-IsValid js (length (tokenize input) + 1) (tokenize input) fs
        (ground (arith, text))
]

-- Parsing ends on every text: the fuel of the model, one more than the number of tokens, is never
-- used up, whatever the runtime's case mapping and date parser return.
pub parse_jql-ne-out_of_fuel : (js : Js) (input : Text) → parse_jql js input ≢ out_of_fuel
unfolding parse_jql
parse_jql-ne-out_of_fuel js input h = elim (Bool-cases (all is_space input)) [
  | inl blank ↦ ground (arith, blank)
  | inr text ↦
      parse_clauses-ne-out_of_fuel js (length (tokenize input) + 1) (tokenize input) (omega arith)
        (ground (arith, text))
]

-- Parsing throws a TypeError, which is not answered as a bad query, exactly if the query is not blank
-- and, at the front or behind clauses that parse and are joined by AND, has a word that is in lower
-- case the name of a member of Object.prototype and is followed by an operator or the word IN.
pub parse_jql-type_error_iff :
    (js : Js) (input : Text)
    → (parse_jql js input ≡ type_error)
      ↔ ((all is_space input ≡ false) × Throws js (tokenize input))
unfolding parse_jql
parse_jql-type_error_iff js input =
    let (thrown, throws) =
      parse_clauses_throw_iff js (length (tokenize input) + 1) (tokenize input) (omega arith) in
    elim (Bool-cases (all is_space input)) [
      | inl blank ↦ rw blank (λ h. absurd (cc h), λ h. absurd (cc h.0))
      | inr text ↦ rw text (λ h. (refl, thrown h), λ h. throws h.1)
    ]
