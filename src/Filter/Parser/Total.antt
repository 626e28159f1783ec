-- ===== src/Filter/Parser/Total.antt =====
-- netreplay/core/display_filter.py: the fuel of the methods of `_Parser`.
use net_replay.Common.{
  ℕ, zero, suc, ◌+◌, ◌-◌, ◌*◌, ◌≤◌, true, ◌≡◌, ◌≢◌, refl, Option, none, some, [], ◌∷◌, arith,
  length, inl, inr, Bool-cases,
}
use net_replay.Common.Text.{text_eq}
use net_replay.Filter.Syntax.{
  Text, unexpected_end, unexpected_token, missing_parenthesis, unknown_field, unknown_operator,
  unterminated_literal, expected_operator, out_of_fuel, Result, ok, err, ◌>>=◌, Field, field_of,
  Operator, operator_of, is_protocol_word, Node, or_node, and_node,
}
use net_replay.Filter.Parser.{
  Tokens, peek_is, rest_of, comparison_value, comparison_of, comparison_expr, closed_by, or_expr,
  or_loop, and_expr, and_loop, not_expr, primary, parse, at_end, close_paren, open_paren, word_or,
  word_and, word_not, fuel_for,
}
use net_replay.Filter.Parser.Steps.{
  or_expr_lem, and_expr_lem, or_loop_more, or_loop_done, and_loop_more, and_loop_done,
  not_expr_more, not_expr_done, primary_open, primary_comparison,
}

-- The call did not stop for want of fuel, and what it leaves is no longer than `n`.
abbrev Leaves : ℕ → Result (Node × Tokens) → Type 0
Leaves n (ok (m, rest)) = length rest ≤ n
Leaves n (err out_of_fuel) = ⊥
Leaves n (err e) = Unit

Leaves-bind :
    (n k : ℕ) (r : Result (Node × Tokens)) (f : Node × Tokens → Result (Node × Tokens))
    → Leaves n r
    → ((m : Node) (rest : Tokens) → length rest ≤ n → Leaves k (f (m, rest)))
    → Leaves k (r >>= f)
Leaves-bind n k (ok (m, rest)) f h g = g m rest h
Leaves-bind n k (err out_of_fuel) f h g = absurd h
Leaves-bind n k (err (unknown_operator t)) f h g = tt
Leaves-bind n k (err unterminated_literal) f h g = tt
Leaves-bind n k (err unexpected_end) f h g = tt
Leaves-bind n k (err (unexpected_token t)) f h g = tt
Leaves-bind n k (err missing_parenthesis) f h g = tt
Leaves-bind n k (err (unknown_field t)) f h g = tt
Leaves-bind n k (err (expected_operator t u)) f h g = tt

Leaves-weaken : (n k : ℕ) (r : Result (Node × Tokens)) → n ≤ k → Leaves n r → Leaves k r
Leaves-weaken n k (ok (m, rest)) h l = omega arith
Leaves-weaken n k (err out_of_fuel) h l = l
Leaves-weaken n k (err (unknown_operator t)) h l = tt
Leaves-weaken n k (err unterminated_literal) h l = tt
Leaves-weaken n k (err unexpected_end) h l = tt
Leaves-weaken n k (err (unexpected_token t)) h l = tt
Leaves-weaken n k (err missing_parenthesis) h l = tt
Leaves-weaken n k (err (unknown_field t)) h l = tt
Leaves-weaken n k (err (expected_operator t u)) h l = tt

peek_shorter :
    (w : Text) (ts : Tokens) → peek_is w ts ≡ true → length ts ≡ suc (length (rest_of ts))
peek_shorter w [] h = cc
peek_shorter w (t ∷ ts) h = refl

comparison_value-Leaves :
    (t : Text) (f : Field) (op : Text) (ts : Tokens) (o : Option Operator)
    → Leaves (length ts) (comparison_value t f op ts o)
comparison_value-Leaves t f op ts none = tt
comparison_value-Leaves t f op [] (some o) = tt
comparison_value-Leaves t f op (v ∷ ts) (some o) = omega arith

comparison_of-Leaves :
    (t : Text) (o : Option Field) (n : ℕ) (ts : Tokens)
    → length ts ≤ n
    → Leaves n (comparison_of t o ts)
comparison_of-Leaves t none n ts h = tt
comparison_of-Leaves t (some f) n [] h = tt
comparison_of-Leaves t (some f) n (op ∷ ts) h =
    Leaves-weaken (length ts) n _ (omega arith) (comparison_value-Leaves t f op ts (operator_of op))

comparison_expr-Leaves : (ts : Tokens) → Leaves (length ts - 1) (comparison_expr ts)
unfolding comparison_expr
comparison_expr-Leaves [] = tt
comparison_expr-Leaves (t ∷ ts) = elim (Bool-cases (is_protocol_word t)) [
  | inl e ↦ rw e (omega arith)
  | inr e ↦ rw e (comparison_of-Leaves t (field_of t) _ ts (omega arith))
]

closed_by-Leaves :
    (k : ℕ) (n : Node) (ts : Tokens) → length ts ≤ suc k → Leaves k (closed_by (n, ts))
closed_by-Leaves k n [] h = tt
closed_by-Leaves k n (t ∷ ts) h = elim (Bool-cases (text_eq t close_paren)) [
  | inl e ↦ rw e (omega arith)
  | inr e ↦ rw e tt
]

-- Each method, given fuel for the tokens, leaves fewer than it was given, and a loop no more.
mutual
  or_expr-Leaves :
      (f : ℕ) (ts : Tokens) → 5 * length ts + 5 ≤ f → Leaves (length ts - 1) (or_expr f ts)
  or_expr-Leaves zero ts h = absurd (omega arith)
  or_expr-Leaves (suc f) ts h = rw (or_expr_lem f ts) (
      Leaves-bind (length ts - 1) (length ts - 1) (and_expr f ts) _
        (and_expr-Leaves f ts (omega arith))
        (λ m rest k.
          Leaves-weaken (length rest) _ (or_loop f m rest) k
            (or_loop-Leaves f m rest (omega arith))))

  or_loop-Leaves :
      (f : ℕ) (n : Node) (ts : Tokens) → 5 * length ts + 1 ≤ f → Leaves (length ts) (or_loop f n ts)
  or_loop-Leaves zero n ts h = absurd (omega arith)
  or_loop-Leaves (suc f) n ts h = elim (Bool-cases (peek_is word_or ts)) [
    | inl e ↦
        let s = peek_shorter word_or ts e in
        rw (or_loop_more f n ts e) (
          Leaves-bind (length (rest_of ts) - 1) (length ts) (and_expr f (rest_of ts)) _
            (and_expr-Leaves f (rest_of ts) (omega arith))
            (λ m rest k.
              Leaves-weaken (length rest) _ (or_loop f (or_node n m) rest) (omega arith)
                (or_loop-Leaves f (or_node n m) rest (omega arith))))
    | inr e ↦ rw (or_loop_done f n ts e) (omega arith)
  ]

  and_expr-Leaves :
      (f : ℕ) (ts : Tokens) → 5 * length ts + 4 ≤ f → Leaves (length ts - 1) (and_expr f ts)
  and_expr-Leaves zero ts h = absurd (omega arith)
  and_expr-Leaves (suc f) ts h = rw (and_expr_lem f ts) (
      Leaves-bind (length ts - 1) (length ts - 1) (not_expr f ts) _
        (not_expr-Leaves f ts (omega arith))
        (λ m rest k.
          Leaves-weaken (length rest) _ (and_loop f m rest) k
            (and_loop-Leaves f m rest (omega arith))))

  and_loop-Leaves :
      (f : ℕ) (n : Node) (ts : Tokens)
      → 5 * length ts + 1 ≤ f
      → Leaves (length ts) (and_loop f n ts)
  and_loop-Leaves zero n ts h = absurd (omega arith)
  and_loop-Leaves (suc f) n ts h = elim (Bool-cases (peek_is word_and ts)) [
    | inl e ↦
        let s = peek_shorter word_and ts e in
        rw (and_loop_more f n ts e) (
          Leaves-bind (length (rest_of ts) - 1) (length ts) (not_expr f (rest_of ts)) _
            (not_expr-Leaves f (rest_of ts) (omega arith))
            (λ m rest k.
              Leaves-weaken (length rest) _ (and_loop f (and_node n m) rest) (omega arith)
                (and_loop-Leaves f (and_node n m) rest (omega arith))))
    | inr e ↦ rw (and_loop_done f n ts e) (omega arith)
  ]

  not_expr-Leaves :
      (f : ℕ) (ts : Tokens) → 5 * length ts + 3 ≤ f → Leaves (length ts - 1) (not_expr f ts)
  not_expr-Leaves zero ts h = absurd (omega arith)
  not_expr-Leaves (suc f) ts h = elim (Bool-cases (peek_is word_not ts)) [
    | inl e ↦
        let s = peek_shorter word_not ts e in
        rw (not_expr_more f ts e) (
          Leaves-bind (length (rest_of ts) - 1) (length ts - 1) (not_expr f (rest_of ts)) _
            (not_expr-Leaves f (rest_of ts) (omega arith)) (λ m rest k. omega arith))
    | inr e ↦ rw (not_expr_done f ts e) (primary-Leaves f ts (omega arith))
  ]

  primary-Leaves :
      (f : ℕ) (ts : Tokens) → 5 * length ts + 2 ≤ f → Leaves (length ts - 1) (primary f ts)
  primary-Leaves zero ts h = absurd (omega arith)
  primary-Leaves (suc f) ts h = elim (Bool-cases (peek_is open_paren ts)) [
    | inl e ↦
        let s = peek_shorter open_paren ts e in
        rw (primary_open f ts e) (
          Leaves-bind (length (rest_of ts) - 1) (length ts - 1) (or_expr f (rest_of ts)) closed_by
            (or_expr-Leaves f (rest_of ts) (omega arith))
            (λ m rest k. closed_by-Leaves _ m rest (omega arith)))
    | inr e ↦ rw (primary_comparison f ts e) (comparison_expr-Leaves ts)
  ]

at_end_fueled : (n : ℕ) (r : Result (Node × Tokens)) → Leaves n r → (r >>= at_end) ≢ err out_of_fuel
at_end_fueled n (ok (m, [])) h e = cc
at_end_fueled n (ok (m, t ∷ ts)) h e = cc
at_end_fueled n (err out_of_fuel) h e = h
at_end_fueled n (err (unknown_operator t)) h e = cc
at_end_fueled n (err unterminated_literal) h e = cc
at_end_fueled n (err unexpected_end) h e = cc
at_end_fueled n (err (unexpected_token t)) h e = cc
at_end_fueled n (err missing_parenthesis) h e = cc
at_end_fueled n (err (unknown_field t)) h e = cc
at_end_fueled n (err (expected_operator t u)) h e = cc

-- On any tokens the parser ends with a tree or with one of the program's own errors: the fuel that bounds
-- its recursion in the model is never used up.
pub parse_fueled : (ts : Tokens) → parse ts ≢ err out_of_fuel
unfolding parse
parse_fueled ts =
    at_end_fueled _ (or_expr (fuel_for ts) ts) (or_expr-Leaves (fuel_for ts) ts (omega arith))
