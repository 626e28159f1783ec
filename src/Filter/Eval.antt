-- ===== src/Filter/Eval.antt =====
-- The evaluation of a filter on a row. What `getattr(row, name, None)` finds is an optional field; `float`
-- is a parameter, `str.lower` is modelled on ASCII letters, and the numbers of a row are integers.
pub mod Laws
use net_replay.Common.{
  ℕ, zero, suc, ◌+◌, ◌/◌, ◌%◌, Bool, true, false, not, ◌&&◌, ◌||◌, ◌≡◌, Option, none, some, List,
  [], ◌∷◌, ◌++◌, map, leb, ltb, ◌==◌, if◌then◌else◌,
}
use net_replay.Common.Text.{codes, text_eq}
use net_replay.Filter.Syntax.{
  Text, Result, ok, err, ◌>>=◌, Field, Operator, Node, comparison, or_node, and_node, not_node, ip,
  src, dst, port, sport, dport, protocol, type_field, length_field, flow, summary, equal, unequal,
  less, at_most, greater, at_least, contains,
}

-- Python's floats as far as the filter uses them: `float(text)`, and the comparisons.
pub record Floats : Type 1 where
  pub Num : Type 0
  pub parse_float : Text → Option Num
  pub num_eq : Num → Num → Bool
  pub num_lt : Num → Num → Bool
  pub num_le : Num → Num → Bool

-- The decimal digits of a number, least first, on fuel.
unfoldable pub digits : ℕ → ℕ → Text → Text
digits zero n acc = acc
digits (suc f) n acc =
    let rest = digits f (n / 10) ((48 + n % 10) ∷ acc) in if ltb n 10 then (48 + n) ∷ acc else rest

-- A value of a row, and `str(value)`.
pub data Value : Type 0 where
  text : Text → Value
  number : ℕ → Value

unfoldable pub str : Value → Text
str (text t) = t
str (number n) = digits (suc n) n []

pub record Row : Type 0 where
  pub source : Option Text
  pub destination : Option Text
  pub src_port : Option ℕ
  pub dst_port : Option ℕ
  pub flow_id : Option ℕ
  pub summary : Option Text
  pub protocol : Option Text
  pub event_type : Option Text
  pub length : Option ℕ

abbrev pub text_value : Option Text → Option Value
text_value none = none
text_value (some t) = some (text t)

abbrev pub number_value : Option ℕ → Option Value
number_value none = none
number_value (some n) = some (number n)

-- What `_field_value` returns: one value or none, or a list of such.
pub data Actual : Type 0 where
  one : Option Value → Actual
  any_of : Option Value → Option Value → Actual

-- `if value is None: value = …`
abbrev pub or_else_value : Option Text → Option Text → Option Text
or_else_value none b = b
or_else_value (some t) b = some t

unfoldable pub field_value : Field → Row → Actual
field_value ip row = any_of (text_value row.source) (text_value row.destination)
field_value port row = any_of (number_value row.src_port) (number_value row.dst_port)
field_value src row = one (text_value row.source)
field_value dst row = one (text_value row.destination)
field_value sport row = one (number_value row.src_port)
field_value dport row = one (number_value row.dst_port)
field_value flow row = one (number_value row.flow_id)
field_value summary row = one (text_value row.summary)
field_value protocol row = one (text_value (or_else_value row.protocol row.event_type))
field_value type_field row = one (text_value row.event_type)
field_value length_field row = one (number_value row.length)

unfoldable pub lower : Text → Text
lower = map (λ c. if leb b'A' c && leb c b'Z' then c + 32 else c)

unfoldable pub is_prefix : Text → Text → Bool
is_prefix [] t = true
is_prefix (x ∷ xs) [] = false
is_prefix (x ∷ xs) (y ∷ ys) = (x == y) && is_prefix xs ys

-- `sub in text`
unfoldable pub occurs_in : Text → Text → Bool
occurs_in sub [] = is_prefix sub []
occurs_in sub (c ∷ cs) = is_prefix sub (c ∷ cs) || occurs_in sub cs

module _ (F : Floats) where
  open F use {Num, parse_float, num_eq, num_lt, num_le}

  -- `same`: by number where both sides are numbers, by lower-case text otherwise.
  abbrev same_number : Bool → Option Num → Option Num → Bool
  same_number by_text (some expected) (some actual) = num_eq actual expected
  same_number by_text _ _ = by_text

  unfoldable pub same_value : Text → Text → Bool
  same_value actual expected =
      same_number (text_eq (lower actual) (lower expected)) (parse_float expected)
        (parse_float actual)

  -- `left`, `right` and a comparison of them, false where one is no number.
  abbrev pub both_numbers : (Num → Num → Bool) → Option Num → Option Num → Bool
  both_numbers test (some left) (some right) = test left right
  both_numbers test _ _ = false

  unfoldable pub compare_text : Text → Operator → Text → Bool
  compare_text actual contains expected = occurs_in (lower expected) (lower actual)
  compare_text actual equal expected = same_value actual expected
  compare_text actual unequal expected = not (same_value actual expected)
  compare_text actual less expected =
      both_numbers num_lt (parse_float actual) (parse_float expected)
  compare_text actual at_most expected =
      both_numbers num_le (parse_float actual) (parse_float expected)
  compare_text actual greater expected =
      both_numbers (λ left right. num_lt right left) (parse_float actual) (parse_float expected)
  compare_text actual at_least expected =
      both_numbers (λ left right. num_le right left) (parse_float actual) (parse_float expected)

  abbrev pub compare_value : Option Value → Operator → Text → Bool
  compare_value none operator expected = false
  compare_value (some v) operator expected = compare_text (str v) operator expected

  -- `_compare`
  unfoldable pub compare : Actual → Operator → Text → Bool
  compare (one v) operator expected = compare_value v operator expected
  compare (any_of a b) operator expected =
      compare_value a operator expected || compare_value b operator expected

  -- The `evaluate` methods.
  unfoldable pub evaluate : Node → Row → Bool
  evaluate (comparison f o v) row = compare (field_value f row) o v
  evaluate (and_node l r) row = evaluate l row && evaluate r row
  evaluate (or_node l r) row = evaluate l row || evaluate r row
  evaluate (not_node e) row = not (evaluate e row)

  -- `Filter.select`
  unfoldable pub select : Node → List Row → List Row
  select e [] = []
  select e (row ∷ rows) = let rest = select e rows in if evaluate e row then row ∷ rest else rest
