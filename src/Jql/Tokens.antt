-- ===== src/Jql/Tokens.antt =====
-- The tokenizer's regular expression, and `parseJql` on a text.
use cimp.Prelude.{
  ℕ, zero, suc, ◌+◌, ◌≤◌, ◌<◌, Bool, not, ◌||◌, List, [], ◌∷◌, ◌≡◌, refl, ap, Option, none, some,
  if◌then◌else◌, ◌==◌, all, length, arith, Option-cases, inl, inr, Bool-cases,
}
use cimp.Prelude.Text.{Text, is_space}
use cimp.Jql.{
  Js, eq, ne, like, ge, le, JqlFilter, Token, word, string, op, lparen, rparen, comma, Parse, bad,
  empty_query, parse_clauses,
}

-- [^\s(),"]
pub is_word_char : ℕ → Bool
is_word_char c = not (is_space c || c == b'(' || c == b')' || c == b',' || c == b'"')

-- The longest run of such characters, and the text behind it.
pub word_run : Text → Text × Text
word_run [] = ([], [])
word_run (c ∷ cs) =
    let (run, rest) = word_run cs in if is_word_char c then (c ∷ run, rest) else ([], c ∷ cs)

-- The text up to the next quote, and the text behind that quote, if there is one.
pub closing : Text → Option (Text × Text)
closing [] = none
closing (c ∷ cs) =
    let later = closing cs in
    if c == b'"'
    then some ([], cs)
    else elim later [ none ↦ none | some (s, rest) ↦ some (c ∷ s, rest) ]

-- `!=`, `>=` and `<=`.
two_chars : ℕ → Text → Option (Token × Text)
two_chars c [] = none
two_chars c (d ∷ rest) =
    if d == b'='
    then (if c == b'!'
        then some (op ne, rest)
        else if c == b'>'
        then some (op ge, rest)
        else if c == b'<'
        then some (op le, rest)
        else none)
    else none

or_else_match : Option (Token × Text) → Option (Token × Text) → Option (Token × Text)
or_else_match none m = m
or_else_match (some t) m = some t

plain_match : ℕ → Text → Option (Token × Text)
plain_match c cs =
    if c == b'='
    then some (op eq, cs)
    else if c == b'~'
    then some (op like, cs)
    else if c == b'('
    then some (lparen, cs)
    else if c == b')'
    then some (rparen, cs)
    else if c == b','
    then some (comma, cs)
    else if is_word_char c
    then some (word (c ∷ (word_run cs).0), (word_run cs).1)
    else none

-- The match at a position: the alternatives in their order.
pub match_at : ℕ → Text → Option (Token × Text)
match_at c cs =
    if c == b'"'
    then elim (closing cs) [ none ↦ none | some (s, rest) ↦ some (string s, rest) ]
    else or_else_match (two_chars c cs) (plain_match c cs)

-- The loop of `exec`: where nothing matches, the search moves on by one character.
pub scan : ℕ → Text → List Token
scan zero s = []
scan (suc n) [] = []
scan (suc n) (c ∷ cs) = elim (match_at c cs) [ none ↦ scan n cs | some (t, rest) ↦ t ∷ scan n rest ]

unfoldable pub tokenize : Text → List Token
unfolding scan match_at or_else_match plain_match two_chars closing word_run is_word_char
tokenize s = scan (length s + 1) s

unfoldable pub parse_jql : Js → Text → Parse (List JqlFilter)
parse_jql js input =
    if all is_space input
    then bad empty_query
    else parse_clauses js (length (tokenize input) + 1) (tokenize input)

length-word_run : (s : Text) → length (word_run s).1 ≤ length s
unfolding word_run
length-word_run [] = omega arith
length-word_run (c ∷ cs) = ground (arith, length-word_run cs)

length-closing : (s : Text) (t rest : Text) → closing s ≡ some (t, rest) → length rest ≤ length s
unfolding closing
length-closing [] t rest h = absurd (ground arith)
length-closing (c ∷ cs) t rest h = elim (Option-cases (closing cs)) [
  | inl nothing ↦ ground (arith, nothing)
  | inr (p, later) ↦ ground (arith, later, length-closing cs p.0 p.1)
]

length-two_chars :
    (c : ℕ) (cs : Text) (t : Token) (rest : Text)
    → two_chars c cs ≡ some (t, rest)
    → length rest ≤ length cs
unfolding two_chars
length-two_chars c [] t rest h = absurd (ground arith)
length-two_chars c (d ∷ cs) t rest h = ground arith

length-plain_match :
    (c : ℕ) (cs : Text) (t : Token) (rest : Text)
    → plain_match c cs ≡ some (t, rest)
    → length rest ≤ length cs
unfolding plain_match
length-plain_match c cs t rest h = ground (arith, length-word_run cs)

-- A match leaves less text than it began with.
length-match_at :
    (c : ℕ) (cs : Text) (t : Token) (rest : Text)
    → match_at c cs ≡ some (t, rest)
    → length rest ≤ length cs
unfolding match_at or_else_match
length-match_at c cs t rest h = elim (Bool-cases (c == b'"')) [
  | inl quote ↦ elim (Option-cases (closing cs)) [
    | inl nothing ↦ absurd (ground (arith, quote, nothing))
    | inr (p, closed) ↦ ground (arith, quote, closed, length-closing cs p.0 p.1)
  ]
  | inr other ↦ elim (Option-cases (two_chars c cs)) [
    | inl nothing ↦ ground (arith, other, nothing, length-plain_match c cs t rest)
    | inr (p, two) ↦ ground (arith, other, two, length-two_chars c cs p.0 p.1)
  ]
]

-- The fuel of `tokenize` is enough: with more of it the tokens are the same.
pub scan_fuel : (n m : ℕ) (s : Text) → length s < n → length s < m → scan n s ≡ scan m s
unfolding scan
scan_fuel zero m s h k = elim h [ ]
scan_fuel (suc n) zero s h k = elim k [ ]
scan_fuel (suc n) (suc m) [] h k = refl
scan_fuel (suc n) (suc m) (c ∷ cs) h k = elim (Option-cases (match_at c cs)) [
  | inl nothing ↦ rw (nothing, scan) (scan_fuel n m cs (omega arith) (omega arith))
  | inr (p, matched) ↦
      let shorter = length-match_at c cs p.0 p.1 matched in
      rw (matched, scan) (ap (λ ts. p.0 ∷ ts) (scan_fuel n m p.1 (omega arith) (omega arith)))
]
