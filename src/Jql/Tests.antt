-- ===== src/Jql/Tests.antt =====
-- Queries of the filter language, on ASCII.
use cimp.Prelude.{
  ◌+◌, ◌-◌, ◌≡◌, ◌≢◌, ◌↔◌, refl, all, false, true, List, [], ◌∷◌, map, leb, ◌&&◌, if◌then◌else◌,
  All,
}
use cimp.Prelude.Text.{Text, codes, is_space, same_text}
use cimp.Jql.{
  Js, JqlFilter, eq, in_list, lookup_field, lookup_in, type_error, out_of_fuel, parse_clauses,
  parse_clause, parse_rest, parse_values, parse_single, parse_list, open_list, parse_value,
  parse_op, parse_join, normalize_value, check_date,
}
use cimp.Jql.Tokens.{tokenize, parse_jql}
use cimp.Jql.Sound.{IsValid}
use cimp.Jql.Result.{parse_jql-IsValid, parse_jql-ne-out_of_fuel, parse_jql-type_error_iff}
use cimp.Jql.Thrown.{Throws}

abbrev ascii : Js
ascii = record {
  to_lower = map (λ c. if leb b'A' c && leb c b'Z' then c + 32 else c);
  to_upper = map (λ c. if leb b'a' c && leb c b'z' then c - 32 else c);
  date_parses = λ s. true;
}

abbrev urgent : Text
urgent = codes "Status = new AND priority IN (HIGH, critical)"

abbrev urgent_filters : List JqlFilter
urgent_filters =
    record { field = codes "status"; op = eq; values = codes "NEW" ∷ [] }
    ∷ record {
      field = codes "priority";
      op = in_list;
      values = codes "HIGH" ∷ codes "CRITICAL" ∷ [];
    }
    ∷ []

parse_jql-IsValid_example : (urgent_filters ≢ []) × All (IsValid ascii) urgent_filters
unfolding parse_jql tokenize parse_clauses parse_clause parse_rest parse_values parse_single
    parse_list open_list parse_value parse_op parse_join normalize_value check_date lookup_field
    lookup_in is_space same_text
parse_jql-IsValid_example = parse_jql-IsValid ascii urgent urgent_filters refl

parse_jql-ne-out_of_fuel_example : parse_jql ascii urgent ≢ out_of_fuel
parse_jql-ne-out_of_fuel_example = parse_jql-ne-out_of_fuel ascii urgent

-- The second clause is on an inherited name.
abbrev hidden : Text
hidden = codes "text ~ vpn AND constructor in (x)"

parse_jql-type_error_iff_example :
    (parse_jql ascii hidden ≡ type_error)
    ↔ ((all is_space hidden ≡ false) × Throws ascii (tokenize hidden))
parse_jql-type_error_iff_example = parse_jql-type_error_iff ascii hidden

hidden_throws : parse_jql ascii hidden ≡ type_error
unfolding parse_jql tokenize parse_clauses parse_clause parse_rest parse_values parse_single
    parse_value parse_op parse_join normalize_value check_date lookup_field lookup_in is_space
    same_text
hidden_throws = refl
