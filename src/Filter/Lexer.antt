-- ===== src/Filter/Lexer.antt =====
-- `_tokenize`. The scanning loops are `span`s; the outer loop runs on fuel, one unit for each round.
pub mod Rounds
use net_replay.Common.{
  ℕ, zero, suc, Bool, true, false, not, Option, none, some, List, [], ◌∷◌, ◌++◌, ◌&&◌, ◌||◌, leb,
  ◌==◌, if◌then◌else◌, length,
}
use net_replay.Filter.Syntax.{
  Text, FilterError, unknown_operator, unterminated_literal, out_of_fuel, Result, ok, err, ◌>>=◌,
  Operator, operator_of,
}

-- `ch.isspace()`
unfoldable pub is_space : ℕ → Bool
is_space c =
    (leb 9 c && leb c 13)
    || (leb 28 c && leb c 32)
    || c == 0x85
    || c == 0xA0
    || c == 0x1680
    || (leb 0x2000 c && leb c 0x200A)
    || c == 0x2028
    || c == 0x2029
    || c == 0x202F
    || c == 0x205F
    || c == 0x3000

-- `ch in "()"`, `ch in "<>=!"`, `ch in "\"'"`
unfoldable pub is_paren : ℕ → Bool
is_paren c = c == b'(' || c == b')'

unfoldable pub is_operator_char : ℕ → Bool
is_operator_char c = c == b'<' || c == b'>' || c == b'=' || c == b'!'

unfoldable pub is_quote : ℕ → Bool
is_quote c = c == 0x22 || c == 0x27

-- The test of the last scanning loop.
unfoldable pub is_word_char : ℕ → Bool
is_word_char c = not (is_space c) && not (is_paren c || is_operator_char c || is_quote c)

-- The longest prefix whose characters pass the test, and the rest.
unfoldable pub span : (ℕ → Bool) → Text → Text × Text
span p [] = ([], [])
span p (c ∷ cs) = let (taken, rest) = span p cs in if p c then (c ∷ taken, rest) else ([], c ∷ cs)

-- One round of the outer loop: a space is passed over, or a token is read, or the text is refused.
pub data Round : Type 0 where
  skip : Text → Round
  token : Text → Text → Round
  refuse : FilterError → Round

abbrev pub operator_round : Text → Text → Option Operator → Round
operator_round op rest none = refuse (unknown_operator op)
operator_round op rest (some o) = token op rest

abbrev pub read_operator : Text → Text → Round
read_operator op rest = operator_round op rest (operator_of op)

-- The body of a literal, and what follows it from the closing quote on.
abbrev pub read_literal : ℕ → Text → Text → Round
read_literal q body [] = refuse unterminated_literal
read_literal q body (closing ∷ rest) = token (q ∷ body ++ q ∷ []) rest

unfoldable pub round : ℕ → Text → Round
round c cs =
    let (op, after_op) = span is_operator_char cs in
    let (body, after_body) = span (λ d. not (d == c)) cs in
    let (word, after_word) = span is_word_char cs in
    if is_space c
    then skip cs
    else if is_paren c
    then token (c ∷ []) cs
    else if is_operator_char c
    then read_operator (c ∷ op) after_op
    else if is_quote c
    then read_literal c body after_body
    else token (c ∷ word) after_word

-- What the loop does with a round, given the loop on the text that is left.
abbrev pub after_round : (Text → Result (List Text)) → Round → Result (List Text)
after_round loop (skip rest) = loop rest
after_round loop (token t rest) = loop rest >>= λ ts. ok (t ∷ ts)
after_round loop (refuse e) = err e

unfoldable pub rounds : ℕ → Text → Result (List Text)
rounds zero text = err out_of_fuel
rounds (suc f) [] = ok []
rounds (suc f) (c ∷ cs) = after_round (rounds f) (round c cs)

unfoldable pub tokenize : Text → Result (List Text)
tokenize text = rounds (suc (length text)) text
