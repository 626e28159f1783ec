-- ===== src/Filter/Eval/Laws.antt =====
-- netreplay/core/display_filter.py: what the filters of Filter/Eval select.
use net_replay.Common.{
  true, false, not, ◌≡◌, ◌↔◌, ◌≢◌, refl, Option, none, some, List, [], ◌∷◌, arith,
}
use net_replay.Filter.Syntax.{
  Text, ok, Node, comparison, or_node, and_node, not_node, equal, unequal, contains, protocol,
}
use net_replay.Filter.Parser.{compile_filter}
use net_replay.Filter.Lexer.{tokenize, rounds}
use net_replay.Filter.Eval.{
  Floats, Value, Row, one, any_of, field_value, compare_text, compare, compare_value, evaluate,
  select, lower, occurs_in, is_prefix, text_value, or_else_value,
}

occurs_in-nil : (t : Text) → occurs_in [] t ≡ true
unfolding occurs_in is_prefix
occurs_in-nil [] = refl
occurs_in-nil (c ∷ cs) = refl

contains_empty :
    (F : Floats) (o : Option Text)
    → (compare_value F (text_value o) contains [] ≡ true) ↔ (o ≢ none)
unfolding compare_text lower
contains_empty F none = (λ h. cc, λ h. absurd (h refl))
contains_empty F (some t) = (λ h e. cc, λ h. occurs_in-nil _)

module _ (F : Floats) where
  -- Selecting by `l and r` is selecting by `r` and then by `l`; by `not (l or r)`, by both negations; and a
  -- second selection by the same filter changes nothing.
  pub select_compound :
      (l r : Node) (rows : List Row)
      → (select F (and_node l r) rows ≡ select F l (select F r rows))
        × (select F (not_node (or_node l r)) rows
            ≡ select F (not_node l) (select F (not_node r) rows))
        × (select F l (select F l rows) ≡ select F l rows)
  unfolding select evaluate
  select_compound l r [] = (refl, refl, refl)
  select_compound l r (row ∷ rows) = let (a, b, c) = select_compound l r rows in ground arith

  -- A row is dropped by `f != v` and by `f == v` alike when it lacks the field; where a field of one
  -- value is present, exactly one of the two holds.
  pub compare_unequal :
      (v : Option Value) (expected : Text)
      → (v ≡ none
          → (compare F (one v) equal expected ≡ false)
            × (compare F (one v) unequal expected ≡ false))
        × (v ≢ none → compare F (one v) unequal expected ≡ not (compare F (one v) equal expected))
  unfolding compare compare_text
  compare_unequal none expected = (λ _. (refl, refl), λ h. absurd (h refl))
  compare_unequal (some v) expected = (λ h. cc, λ _. refl)

  -- A field of two values, such as `ip` or `port`: `f != v` holds when some present value differs from `v`, so
  -- that it holds along with `f == v` when one value agrees with `v` and the other differs.
  pub compare_any_of :
      (a b : Value) (expected : Text)
      → compare F (one (some a)) equal expected ≡ true
      → compare F (one (some b)) equal expected ≡ false
      → (compare F (any_of (some a) (some b)) equal expected ≡ true)
        × (compare F (any_of (some a) (some b)) unequal expected ≡ true)
  unfolding compare compare_text
  compare_any_of a b expected h k = (rw h, rw (h, k))

  -- The filter of an empty text passes exactly the rows that have a protocol or an event type.
  pub evaluate_empty :
      (row : Row)
      → (e : Node) × (compile_filter [] ≡ ok e)
        × ((evaluate F e row ≡ true) ↔ (or_else_value row.protocol row.event_type ≢ none))
  unfolding compile_filter tokenize rounds evaluate compare compare_text field_value lower
  evaluate_empty row = (
    comparison protocol contains [],
    refl,
    contains_empty F (or_else_value row.protocol row.event_type),
  )
