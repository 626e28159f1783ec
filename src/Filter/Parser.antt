-- ===== src/Filter/Parser.antt =====
-- `_Parser`: recursive descent over the tokens. A method takes the tokens that are left and returns a tree with
-- those left after it. The methods recur on fuel; `parse` gives enough, which Filter/Parser/Total.antt proves.
pub mod Steps
pub mod Total
pub mod Printer
use net_replay.Common.{
  ℕ, zero, suc, ◌+◌, ◌*◌, Bool, true, false, not, ◌&&◌, ◌||◌, Option, none, some, List, [], ◌∷◌,
  ◌++◌, ◌==◌, if◌then◌else◌, length,
}
use net_replay.Common.Text.{codes, text_eq}
use net_replay.Filter.Syntax.{
  Text, FilterError, unexpected_end, unexpected_token, missing_parenthesis, unknown_field,
  expected_operator, out_of_fuel, Result, ok, err, ◌>>=◌, Field, field_of, protocol, Operator,
  operator_of, equal, is_protocol_word, Node, comparison, and_node, or_node, not_node,
}
use net_replay.Filter.Lexer.{tokenize, is_quote}

abbrev pub Tokens : Type 0
Tokens = List Text

abbrev pub word_and : Text
word_and = codes "and"

abbrev pub word_or : Text
word_or = codes "or"

abbrev pub word_not : Text
word_not = codes "not"

abbrev pub open_paren : Text
open_paren = b'(' ∷ []

abbrev pub close_paren : Text
close_paren = b')' ∷ []

-- `value[1:-1]` of a text that ends in the character `q`, and nothing if it does not.
unfoldable pub inside : ℕ → Text → Option Text
inside q [] = none
inside q (c ∷ []) = if c == q then some [] else none
inside q (c ∷ d ∷ cs) = elim (inside q (d ∷ cs)) [ none ↦ none | some body ↦ some (c ∷ body) ]

abbrev or_text : Text → Option Text → Text
or_text t none = t
or_text t (some body) = body

unfoldable pub unquote : Text → Text
unquote [] = []
unquote (c ∷ cs) = if is_quote c then or_text (c ∷ cs) (inside c cs) else c ∷ cs

-- `_next`
abbrev pub next_token : Tokens → Result (Text × Tokens)
next_token [] = err unexpected_end
next_token (t ∷ ts) = ok (t, ts)

-- `_comparison` after the operator, and after the field.
abbrev pub comparison_value :
    Text → Field → Text → Tokens → Option Operator → Result (Node × Tokens)
comparison_value t f op ts none = err (expected_operator t op)
comparison_value t f op ts (some o) =
    next_token ts >>= λ (v, rest). ok (comparison f o (unquote v), rest)

abbrev pub comparison_of : Text → Option Field → Tokens → Result (Node × Tokens)
comparison_of t none ts = err (unknown_field t)
comparison_of t (some f) [] = err unexpected_end
comparison_of t (some f) (op ∷ ts) = comparison_value t f op ts (operator_of op)

-- `_comparison`
unfoldable pub comparison_expr : Tokens → Result (Node × Tokens)
comparison_expr [] = err unexpected_end
comparison_expr (t ∷ ts) =
    if is_protocol_word t
    then ok (comparison protocol equal t, ts)
    else comparison_of t (field_of t) ts

-- `if self._next() != ")": raise …`
abbrev pub closed_by : Node × Tokens → Result (Node × Tokens)
closed_by (n, []) = err unexpected_end
closed_by (n, t ∷ ts) = if text_eq t close_paren then ok (n, ts) else err missing_parenthesis

-- The tests of `_peek()`.
abbrev pub peek_is : Text → Tokens → Bool
peek_is w [] = false
peek_is w (t ∷ ts) = text_eq t w

abbrev pub rest_of : Tokens → Tokens
rest_of [] = []
rest_of (t ∷ ts) = ts

unfoldable mutual
  pub or_expr : ℕ → Tokens → Result (Node × Tokens)
  or_expr zero ts = err out_of_fuel
  or_expr (suc f) ts = and_expr f ts >>= λ (n, r). or_loop f n r

  -- `while self._peek() == "or": …`
  pub or_loop : ℕ → Node → Tokens → Result (Node × Tokens)
  or_loop zero n ts = err out_of_fuel
  or_loop (suc f) n ts = elim (peek_is word_or ts) [
    | true ↦ and_expr f (rest_of ts) >>= λ (m, r). or_loop f (or_node n m) r
    | false ↦ ok (n, ts)
  ]

  pub and_expr : ℕ → Tokens → Result (Node × Tokens)
  and_expr zero ts = err out_of_fuel
  and_expr (suc f) ts = not_expr f ts >>= λ (n, r). and_loop f n r

  -- `while self._peek() == "and": …`
  pub and_loop : ℕ → Node → Tokens → Result (Node × Tokens)
  and_loop zero n ts = err out_of_fuel
  and_loop (suc f) n ts = elim (peek_is word_and ts) [
    | true ↦ not_expr f (rest_of ts) >>= λ (m, r). and_loop f (and_node n m) r
    | false ↦ ok (n, ts)
  ]

  pub not_expr : ℕ → Tokens → Result (Node × Tokens)
  not_expr zero ts = err out_of_fuel
  not_expr (suc f) ts = elim (peek_is word_not ts) [
    | true ↦ not_expr f (rest_of ts) >>= λ (n, r). ok (not_node n, r)
    | false ↦ primary f ts
  ]

  pub primary : ℕ → Tokens → Result (Node × Tokens)
  primary zero ts = err out_of_fuel
  primary (suc f) ts = elim (peek_is open_paren ts) [
    | true ↦ or_expr f (rest_of ts) >>= closed_by
    | false ↦ comparison_expr ts
  ]

-- Enough fuel for so many tokens.
abbrev pub fuel_for : Tokens → ℕ
fuel_for ts = 5 * length ts + 6

-- `if self._pos != len(self._tokens): raise …`
abbrev pub at_end : Node × Tokens → Result Node
at_end (n, []) = ok n
at_end (n, t ∷ ts) = err (unexpected_token t)

unfoldable pub parse : Tokens → Result Node
parse ts = or_expr (fuel_for ts) ts >>= at_end

-- The tree of `compile_filter`: empty text is `protocol contains ""`.
abbrev pub compile_tokens : Tokens → Result Node
compile_tokens [] = ok (comparison protocol Operator.contains [])
compile_tokens (t ∷ ts) = parse (t ∷ ts)

unfoldable pub compile_filter : Text → Result Node
compile_filter text = tokenize text >>= compile_tokens
