-- ===== src/Filter/Tests.antt =====
-- Filters compiled and run on small inputs, and the theorems at concrete inputs.
use net_replay.Common.{ℕ, ◌≡◌, ◌≢◌, ◌↔◌, refl, true, none, some, [], ltb, leb, ◌==◌}
use net_replay.Common.Text.{codes}
use net_replay.Filter.Syntax.{
  Text, out_of_fuel, ok, err, Node, comparison, and_node, or_node, not_node, protocol, port,
  summary, equal, unequal, greater,
}
use net_replay.Filter.Parser.{compile_filter}
use net_replay.Filter.Parser.Printer.{print}
use net_replay.Filter.Lexer.Rounds.{render}
use net_replay.Filter.RoundTrip.{compile_filter-render, compile_filter_fueled}
use net_replay.Filter.Eval.{Floats, Row, evaluate, or_else_value}
use net_replay.Filter.Eval.Laws.{evaluate_empty}

-- Numbers as they stand in the tests: no text is one.
abbrev whole : Floats
whole = record { Num = ℕ; parse_float = λ t. none; num_eq = ◌==◌; num_lt = ltb; num_le = leb }

abbrev tcp : Text
tcp = codes "TCP"

abbrev expression : Node
expression =
    or_node
      (and_node (comparison protocol equal tcp) (not_node (comparison port greater (codes "80"))))
      (comparison summary unequal (codes "a b"))

compile_filter-render_example : compile_filter (render (print expression)) ≡ ok expression
compile_filter-render_example =
    compile_filter-render expression
      (((refl, (refl, (refl, tt))), (refl, (refl, tt))), (refl, (refl, (refl, tt))))

compile_filter_fueled_example : compile_filter (codes "port >= 80 and (tcp") ≢ err out_of_fuel
compile_filter_fueled_example = compile_filter_fueled (codes "port >= 80 and (tcp")

abbrev row : Row
row = record {
  source = some (codes "10.0.0.1");
  destination = some (codes "10.0.0.2");
  src_port = some 1000;
  dst_port = some 80;
  flow_id = none;
  summary = none;
  protocol = some tcp;
  event_type = none;
  length = some 60;
}

abbrev is_tcp : Node
is_tcp = comparison protocol equal tcp

abbrev is_other : Node
is_other = comparison port unequal (codes "80")

evaluate_empty_example :
    (e : Node) × (compile_filter [] ≡ ok e)
    × ((evaluate whole e row ≡ true) ↔ (or_else_value row.protocol row.event_type ≢ none))
evaluate_empty_example = evaluate_empty whole row
