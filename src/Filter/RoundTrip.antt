-- ===== src/Filter/RoundTrip.antt =====
-- From a filter tree to its text and back.
use net_replay.Common.{
  false, not, ◌≡◌, ◌≢◌, refl, ◌∙◌, List, [], ◌∷◌, ◌++◌, arith, ◌==◌, All, All-append,
}
use net_replay.Filter.Syntax.{
  Text, Result, ok, err, out_of_fuel, ◌>>=◌, Field, field_text, Operator, operator_text,
  operator_of, Node, comparison, or_node, and_node, not_node, ip, equal,
}
use net_replay.Filter.Lexer.{
  span, round, is_space, is_paren, is_operator_char, is_quote, is_word_char, tokenize,
}
use net_replay.Filter.Lexer.Rounds.{Reads, reads, render, tokenize-render, tokenize_fueled}
use net_replay.Filter.Parser.{
  open_paren, close_paren, word_and, word_or, word_not, parse, compile_tokens, compile_filter,
}
use net_replay.Filter.Parser.Total.{parse_fueled}
use net_replay.Filter.Parser.Printer.{print, quoted, parse-print}

-- The values of a tree hold no double quote, which a literal cannot write.
abbrev pub Quotable : Node → Type 0
Quotable (comparison f o v) = All (λ c. (c == 0x22) ≡ false) v
Quotable (and_node l r) = Quotable l × Quotable r
Quotable (or_node l r) = Quotable l × Quotable r
Quotable (not_node e) = Quotable e

field-Reads : (f : Field) → Reads (field_text f)
unfolding round is_space is_paren is_operator_char is_quote is_word_char span
field-Reads ip = reads _ _ (λ rest. refl)
field-Reads _ = reads _ _ (λ rest. refl)

operator-Reads : (o : Operator) → Reads (operator_text o)
unfolding round is_space is_paren is_operator_char is_quote is_word_char span operator_of
operator-Reads equal = reads _ _ (λ rest. refl)
operator-Reads _ = reads _ _ (λ rest. refl)

word-Reads : Reads word_and × Reads word_or × Reads word_not × Reads open_paren × Reads close_paren
unfolding round is_space is_paren is_operator_char is_quote is_word_char span
word-Reads = (
  reads _ _ (λ rest. refl),
  reads _ _ (λ rest. refl),
  reads _ _ (λ rest. refl),
  reads _ _ (λ rest. refl),
  reads _ _ (λ rest. refl),
)

span-quoted :
    (v rest : Text)
    → All (λ c. (c == 0x22) ≡ false) v
    → span (λ d. not (d == 0x22)) ((v ++ 0x22 ∷ []) ++ rest) ≡ (v, 0x22 ∷ rest)
unfolding span
span-quoted [] rest h = refl
span-quoted (c ∷ v) rest h = rw (h.0, span-quoted v rest h.1)

quoted-Reads : (v : Text) → All (λ c. (c == 0x22) ≡ false) v → Reads (quoted v)
unfolding round is_space is_paren is_operator_char is_quote
quoted-Reads v h = reads 0x22 (v ++ 0x22 ∷ []) (λ rest. rw (span-quoted v (32 ∷ rest) h))

pair-Reads :
    (w : Text) (xs ys : List Text)
    → Reads w
    → All Reads xs
    → All Reads ys
    → All Reads (open_paren ∷ (xs ++ w ∷ (ys ++ close_paren ∷ [])))
pair-Reads w xs ys r h k =
    let p = word-Reads in
    (
      p.3,
      All-append Reads xs (w ∷ (ys ++ close_paren ∷ [])) h
          (r, All-append Reads ys (close_paren ∷ []) k (p.4, tt)),
    )

print-Reads : (e : Node) → Quotable e → All Reads (print e)
print-Reads (comparison f o v) h = (field-Reads f, (operator-Reads o, (quoted-Reads v h, tt)))
print-Reads (and_node l r) h =
    pair-Reads word_and (print l) (print r) word-Reads.0 (print-Reads l h.0) (print-Reads r h.1)
print-Reads (or_node l r) h =
    pair-Reads word_or (print l) (print r) word-Reads.1 (print-Reads l h.0) (print-Reads r h.1)
print-Reads (not_node e) h =
    let p = word-Reads in
    (p.3, (p.2, All-append Reads (print e) (close_paren ∷ []) (print-Reads e h) (p.4, tt)))

compile_tokens-print : (e : Node) → compile_tokens (print e) ≡ parse (print e)
compile_tokens-print (comparison f o v) = refl
compile_tokens-print (and_node l r) = refl
compile_tokens-print (or_node l r) = refl
compile_tokens-print (not_node e) = refl

-- Every filter tree whose values hold no double quote is what `compile_filter` makes of its text:
-- its tokens, compounds in parentheses and values in quotes, with a space after each.
pub compile_filter-render : (e : Node) → Quotable e → compile_filter (render (print e)) ≡ ok e
unfolding compile_filter
compile_filter-render e h =
    rw (tokenize-render (print e) (print-Reads e h)) (compile_tokens-print e ∙ parse-print e)

>>=-fueled :
    (r : Result (List Text)) → r ≢ err out_of_fuel → (r >>= compile_tokens) ≢ err out_of_fuel
>>=-fueled (ok []) h = λ e. cc
>>=-fueled (ok (t ∷ ts)) h = parse_fueled (t ∷ ts)
>>=-fueled (err x) h = λ e. h (ground arith)

-- On any text `compile_filter` ends, with a tree or with one of the program's own errors: neither the
-- lexer nor the parser runs out of the fuel that the model gives its loops.
pub compile_filter_fueled : (text : Text) → compile_filter text ≢ err out_of_fuel
unfolding compile_filter
compile_filter_fueled text = >>=-fueled (tokenize text) (tokenize_fueled text)
