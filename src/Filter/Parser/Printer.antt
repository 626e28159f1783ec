-- ===== src/Filter/Parser/Printer.antt =====
-- A printer of filter trees into tokens, with every compound in parentheses and every value in
-- quotes, and the parser on what it prints.
use mathlib.Core.List.{append_assoc, append-nil}
use net_replay.Common.{
  ℕ, zero, suc, ◌+◌, ◌-◌, ◌*◌, ◌≤◌, false, ◌≡◌, refl, ◌∙◌, some, [], ◌∷◌, ◌++◌, arith, length,
  length-append,
}
use net_replay.Common.Text.{text_eq}
use net_replay.Filter.Syntax.{
  Text, ok, Field, field_of, field_text, Operator, operator_of, operator_text, is_protocol_word,
  Node, comparison, or_node, and_node, not_node, ip, equal,
}
use net_replay.Filter.Lexer.{is_quote}
use net_replay.Filter.Parser.{
  Tokens, peek_is, comparison_expr, or_expr, and_expr, not_expr, primary, parse, fuel_for,
  close_paren, open_paren, word_or, word_and, word_not, unquote, inside,
}
use net_replay.Filter.Parser.Steps.{
  or_expr_lem, and_expr_lem, or_loop_more, or_loop_done, and_loop_more, and_loop_done,
  not_expr_more, not_expr_done, primary_open, primary_comparison,
}

abbrev pub quoted : Text → Text
quoted v = 0x22 ∷ (v ++ 0x22 ∷ [])

abbrev pub print : Node → Tokens
print (comparison f o v) = field_text f ∷ operator_text o ∷ quoted v ∷ []
print (and_node l r) = open_paren ∷ (print l ++ word_and ∷ (print r ++ close_paren ∷ []))
print (or_node l r) = open_paren ∷ (print l ++ word_or ∷ (print r ++ close_paren ∷ []))
print (not_node e) = open_paren ∷ word_not ∷ (print e ++ close_paren ∷ [])

inside-quoted : (v : Text) → inside 0x22 (v ++ 0x22 ∷ []) ≡ some v
unfolding inside
inside-quoted [] = refl
inside-quoted (c ∷ []) = refl
inside-quoted (c ∷ d ∷ v) = rw (inside-quoted (d ∷ v))

unquote-quoted : (v : Text) → unquote (quoted v) ≡ v
unfolding unquote is_quote
unquote-quoted v = rw (inside-quoted v)

field_words :
    (f : Field)
    → (field_of (field_text f) ≡ some f)
      × (is_protocol_word (field_text f) ≡ false)
      × (text_eq (field_text f) word_not ≡ false)
      × (text_eq (field_text f) open_paren ≡ false)
unfolding field_of is_protocol_word
field_words ip = (refl, refl, refl, refl)
field_words _ = (refl, refl, refl, refl)

operator_words : (o : Operator) → operator_of (operator_text o) ≡ some o
unfolding operator_of
operator_words equal = refl
operator_words _ = refl

comparison_expr-print :
    (f : Field) (o : Operator) (v : Text) (rest : Tokens)
    → comparison_expr (field_text f ∷ operator_text o ∷ quoted v ∷ rest)
      ≡ ok (comparison f o v, rest)
unfolding comparison_expr
comparison_expr-print f o v rest =
    let w = field_words f in rw (w.1, w.0, operator_words o, unquote-quoted v)

-- The first token of a printed tree is not `not`.
print_not : (e : Node) (rest : Tokens) → peek_is word_not (print e ++ rest) ≡ false
print_not (comparison f o v) rest = (field_words f).2
print_not (and_node l r) rest = refl
print_not (or_node l r) rest = refl
print_not (not_node e) rest = refl

-- What stops the loops: the tokens left do not begin with the word.
abbrev Stops : Text → Tokens → Type 0
Stops w ts = peek_is w ts ≡ false

not_of_primary :
    (f : ℕ) (e : Node) (rest : Tokens)
    → primary f (print e ++ rest) ≡ ok (e, rest)
    → not_expr (suc f) (print e ++ rest) ≡ ok (e, rest)
not_of_primary f e rest h = not_expr_done f (print e ++ rest) (print_not e rest) ∙ h

and_of_primary :
    (f : ℕ) (e : Node) (rest : Tokens)
    → primary f (print e ++ rest) ≡ ok (e, rest)
    → Stops word_and rest
    → and_expr (suc (suc f)) (print e ++ rest) ≡ ok (e, rest)
and_of_primary f e rest h s =
    rw (and_expr_lem (suc f) (print e ++ rest), not_of_primary f e rest h)
      (and_loop_done f e rest s)

or_of_primary :
    (f : ℕ) (e : Node) (rest : Tokens)
    → primary f (print e ++ rest) ≡ ok (e, rest)
    → Stops word_and rest
    → Stops word_or rest
    → or_expr (suc (suc (suc f))) (print e ++ rest) ≡ ok (e, rest)
or_of_primary f e rest h s t =
    rw (or_expr_lem (suc (suc f)) (print e ++ rest), and_of_primary f e rest h s)
      (or_loop_done (suc f) e rest t)

module _ (f : ℕ) (l r : Node) (rest : Tokens) (s : Stops word_and rest)
    (t : Stops word_or rest) where
  and_pair :
      primary (suc f) (print l ++ word_and ∷ (print r ++ rest))
        ≡ ok (l, word_and ∷ (print r ++ rest))
      → primary f (print r ++ rest) ≡ ok (r, rest)
      → or_expr (suc (suc (suc (suc f)))) (print l ++ word_and ∷ (print r ++ rest))
        ≡ ok (and_node l r, rest)
  and_pair hl hr = rw (
    or_expr_lem,
    and_expr_lem,
    not_of_primary (suc f) l _ hl,
    and_loop_more (suc f) l (word_and ∷ (print r ++ rest)) refl,
    not_of_primary f r rest hr,
    and_loop_done f (and_node l r) rest s,
    or_loop_done (suc (suc f)) (and_node l r) rest t,
  )

  or_pair :
      primary (suc f) (print l ++ word_or ∷ (print r ++ rest)) ≡ ok (l, word_or ∷ (print r ++ rest))
      → primary f (print r ++ rest) ≡ ok (r, rest)
      → or_expr (suc (suc (suc (suc f)))) (print l ++ word_or ∷ (print r ++ rest))
        ≡ ok (or_node l r, rest)
  or_pair hl hr = rw (
    or_expr_lem,
    and_of_primary (suc f) l _ hl refl,
    or_loop_more (suc (suc f)) l (word_or ∷ (print r ++ rest)) refl,
    and_of_primary f r rest hr s,
    or_loop_done (suc f) (or_node l r) rest t,
  )

negation :
    (f : ℕ) (e : Node) (rest : Tokens)
    → Stops word_and rest
    → Stops word_or rest
    → primary f (print e ++ rest) ≡ ok (e, rest)
    → or_expr (suc (suc (suc (suc f)))) (word_not ∷ (print e ++ rest)) ≡ ok (not_node e, rest)
negation f e rest s t h = rw (
  or_expr_lem,
  and_expr_lem,
  not_expr_more (suc f) (word_not ∷ (print e ++ rest)) refl,
  not_of_primary f e rest h,
  and_loop_done (suc f) (not_node e) rest s,
  or_loop_done (suc (suc f)) (not_node e) rest t,
)

-- The closing of a parenthesis.
parenthesised :
    (f : ℕ) (n : Node) (ts rest : Tokens)
    → or_expr f ts ≡ ok (n, close_paren ∷ rest)
    → primary (suc f) (open_paren ∷ ts) ≡ ok (n, rest)
parenthesised f n ts rest h = rw (primary_open f (open_paren ∷ ts) refl, h)

-- `xs ++ [w] ++ ys ++ [")"] ++ rest`, as the printer and the parser bracket it.
regroup :
    (xs ys rest : Tokens) (w : Text)
    → (xs ++ w ∷ (ys ++ close_paren ∷ [])) ++ rest ≡ xs ++ w ∷ (ys ++ close_paren ∷ rest)
regroup xs ys rest w = simp append_assoc

regroup_one : (xs rest : Tokens) → (xs ++ close_paren ∷ []) ++ rest ≡ xs ++ close_paren ∷ rest
regroup_one xs rest = simp append_assoc

primary-print :
    (e : Node) (f : ℕ) (rest : Tokens)
    → 5 * length (print e) ≤ f
    → primary f (print e ++ rest) ≡ ok (e, rest)
primary-print (comparison x o v) zero rest h = absurd (omega arith)
primary-print (comparison x o v) (suc f) rest h =
    primary_comparison f (field_text x ∷ operator_text o ∷ quoted v ∷ rest) (field_words x).3
    ∙ comparison_expr-print x o v rest
primary-print (and_node l r) f rest h =
    let n = length-append (print l) (word_and ∷ (print r ++ close_paren ∷ [])) in
    let k = length-append (print r) (close_paren ∷ []) in
    let g = f - 5 in
    let e : f ≡ suc (suc (suc (suc (suc g)))) = omega (arith, n, k) in
    rw (e, regroup (print l) (print r) rest word_and)
      (parenthesised _ (and_node l r) _ rest (
        and_pair g l r (close_paren ∷ rest) refl refl
          (primary-print l (suc g) (word_and ∷ (print r ++ close_paren ∷ rest))
            (omega (arith, n, k)))
          (primary-print r g (close_paren ∷ rest) (omega (arith, n, k)))))
primary-print (or_node l r) f rest h =
    let n = length-append (print l) (word_or ∷ (print r ++ close_paren ∷ [])) in
    let k = length-append (print r) (close_paren ∷ []) in
    let g = f - 5 in
    let e : f ≡ suc (suc (suc (suc (suc g)))) = omega (arith, n, k) in
    rw (e, regroup (print l) (print r) rest word_or)
      (parenthesised _ (or_node l r) _ rest (
        or_pair g l r (close_paren ∷ rest) refl refl
          (primary-print l (suc g) (word_or ∷ (print r ++ close_paren ∷ rest))
            (omega (arith, n, k)))
          (primary-print r g (close_paren ∷ rest) (omega (arith, n, k)))))
primary-print (not_node n) f rest h =
    let k = length-append (print n) (close_paren ∷ []) in
    let g = f - 5 in
    let e : f ≡ suc (suc (suc (suc (suc g)))) = omega (arith, k) in
    rw (e, regroup_one (print n) rest)
      (parenthesised _ (not_node n) _ rest (
        negation g n (close_paren ∷ rest) refl refl
          (primary-print n g (close_paren ∷ rest) (omega (arith, k)))))

or_expr-print : (e : Node) (f : ℕ) → 5 * length (print e) + 3 ≤ f → or_expr f (print e) ≡ ok (e, [])
or_expr-print e f h =
    let g = f - 3 in
    let s : f ≡ suc (suc (suc g)) = omega arith in
    rw s (rw append-nil at (or_of_primary g e [] (primary-print e g [] (omega arith)) refl refl))

-- Every filter tree is read back from the tokens that print it.
pub parse-print : (e : Node) → parse (print e) ≡ ok e
unfolding parse
parse-print e = rw (or_expr-print e (fuel_for (print e)) (omega arith))
