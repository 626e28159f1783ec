-- ===== src/Filter/Syntax.antt =====
-- The words of the filter language, its trees and its errors. A text of the sets `_FIELDS` and `_OPERATORS`
-- is a constructor of `Field` or `Operator`.
use net_replay.Common.{ℕ, Bool, Option, none, some, List, ◌||◌, if◌then◌else◌}
use net_replay.Common.Text.{codes, text_eq}

abbrev pub Text : Type 0
Text = List ℕ

pub data FilterError : Type 0 where
  unknown_operator : Text → FilterError
  unterminated_literal : FilterError
  unexpected_end : FilterError
  unexpected_token : Text → FilterError
  missing_parenthesis : FilterError
  unknown_field : Text → FilterError
  expected_operator : Text → Text → FilterError
  -- the model's own: a loop has run out of its bound
  out_of_fuel : FilterError

pub data Result {ℓ} (A : Type ℓ) : Type ℓ where
  ok : A → Result A
  err : FilterError → Result A

infixl 5 ◌>>=◌
abbrev pub ◌>>=◌ {ℓ κ} : {A : Type ℓ} {B : Type κ} → Result A → (A → Result B) → Result B
ok a >>= f = f a
err e >>= f = err e

-- `_FIELDS`
pub data Field : Type 0 where
  ip src dst port sport dport protocol type_field length_field flow summary : Field

abbrev pub field_text : Field → Text
field_text ip = codes "ip"
field_text src = codes "src"
field_text dst = codes "dst"
field_text port = codes "port"
field_text sport = codes "sport"
field_text dport = codes "dport"
field_text protocol = codes "protocol"
field_text type_field = codes "type"
field_text length_field = codes "length"
field_text flow = codes "flow"
field_text summary = codes "summary"

-- `token in _FIELDS`
unfoldable pub field_of : Text → Option Field
field_of t =
    if text_eq t (codes "ip")
    then some ip
    else if text_eq t (codes "src")
    then some src
    else if text_eq t (codes "dst")
    then some dst
    else if text_eq t (codes "port")
    then some port
    else if text_eq t (codes "sport")
    then some sport
    else if text_eq t (codes "dport")
    then some dport
    else if text_eq t (codes "protocol")
    then some protocol
    else if text_eq t (codes "type")
    then some type_field
    else if text_eq t (codes "length")
    then some length_field
    else if text_eq t (codes "flow")
    then some flow
    else if text_eq t (codes "summary")
    then some summary
    else none

-- `_OPERATORS`
pub data Operator : Type 0 where
  equal unequal less at_most greater at_least contains : Operator

abbrev pub operator_text : Operator → Text
operator_text equal = codes "=="
operator_text unequal = codes "!="
operator_text less = codes "<"
operator_text at_most = codes "<="
operator_text greater = codes ">"
operator_text at_least = codes ">="
operator_text contains = codes "contains"

-- `op in _OPERATORS`
unfoldable pub operator_of : Text → Option Operator
operator_of t =
    if text_eq t (codes "==")
    then some equal
    else if text_eq t (codes "!=")
    then some unequal
    else if text_eq t (codes "<")
    then some less
    else if text_eq t (codes "<=")
    then some at_most
    else if text_eq t (codes ">")
    then some greater
    else if text_eq t (codes ">=")
    then some at_least
    else if text_eq t (codes "contains")
    then some contains
    else none

-- `token in _PROTOCOL_WORDS`
unfoldable pub is_protocol_word : Text → Bool
is_protocol_word t =
    text_eq t (codes "tcp")
    || text_eq t (codes "udp")
    || text_eq t (codes "dns")
    || text_eq t (codes "tls")
    || text_eq t (codes "http")
    || text_eq t (codes "icmp")
    || text_eq t (codes "arp")
    || text_eq t (codes "ssl")

-- `_Comparison`, `_And`, `_Or`, `_Not`
pub data Node : Type 0 where
  comparison : Field → Operator → Text → Node
  and_node : Node → Node → Node
  or_node : Node → Node → Node
  not_node : Node → Node
