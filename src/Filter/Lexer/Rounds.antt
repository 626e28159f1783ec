-- ===== src/Filter/Lexer/Rounds.antt =====
-- The rounds of `_tokenize`: how much each takes, and which texts come back as the tokens that they render.
use net_replay.Common.{
  ℕ, zero, suc, ◌*◌, ◌≤◌, ◌<◌, Bool, true, false, not, ◌≡◌, ◌≢◌, refl, Option, none, some, List, [],
  ◌∷◌, ◌++◌, arith, if◌then◌else◌, length, length-append, ◌==◌, All,
}
use net_replay.Filter.Syntax.{Text, out_of_fuel, Result, ok, err, ◌>>=◌, Operator}
use net_replay.Filter.Lexer.{
  span, round, Round, skip, token, refuse, rounds, tokenize, is_space, is_paren, is_operator_char,
  is_quote, is_word_char, operator_round, read_operator, read_literal, after_round,
}

span-le : (p : ℕ → Bool) (cs : Text) → length (span p cs).1 ≤ length cs
unfolding span
span-le p [] = omega arith
span-le p (c ∷ cs) = ground (arith, span-le p cs)

-- A round leaves no more than the text after its first character, and refuses with the program's own errors.
abbrev Takes : ℕ → Round → Type 0
Takes n (skip rest) = length rest ≤ n
Takes n (token t rest) = length rest ≤ n
Takes n (refuse e) = e ≢ out_of_fuel

Takes-if : (n : ℕ) (b : Bool) (r s : Round) → Takes n r → Takes n s → Takes n (if b then r else s)
Takes-if n true r s h k = h
Takes-if n false r s h k = k

operator_round-Takes :
    (n : ℕ) (op rest : Text) (o : Option Operator)
    → length rest ≤ n
    → Takes n (operator_round op rest o)
operator_round-Takes n op rest none h = λ e. cc
operator_round-Takes n op rest (some o) h = h

read_literal-Takes :
    (n q : ℕ) (body rest : Text) → length rest ≤ n → Takes n (read_literal q body rest)
read_literal-Takes n q body [] h = λ e. cc
read_literal-Takes n q body (c ∷ rest) h = omega arith

round-Takes : (c : ℕ) (cs : Text) → Takes (length cs) (round c cs)
unfolding round
round-Takes c cs = Takes-if _ (is_space c) (skip cs) _ (omega arith) (
    Takes-if _ (is_paren c) (token (c ∷ []) cs) _ (omega arith) (
      Takes-if _ (is_operator_char c)
        (read_operator (c ∷ (span is_operator_char cs).0) (span is_operator_char cs).1) _
        (operator_round-Takes _ _ _ _ (span-le is_operator_char cs))
        (Takes-if _ (is_quote c)
          (read_literal c (span (λ d. not (d == c)) cs).0 (span (λ d. not (d == c)) cs).1) _
          (read_literal-Takes _ c _ _ (span-le (λ d. not (d == c)) cs)) (span-le is_word_char cs))))

>>=-fueled :
    (r : Result (List Text)) (t : Text)
    → r ≢ err out_of_fuel
    → (r >>= λ ts. ok (t ∷ ts)) ≢ err out_of_fuel
>>=-fueled (ok ts) t h = λ e. cc
>>=-fueled (err x) t h = λ e. h (ground arith)

after_round-fueled :
    (n : ℕ) (loop : Text → Result (List Text)) (r : Round)
    → Takes n r
    → ((rest : Text) → length rest ≤ n → loop rest ≢ err out_of_fuel)
    → after_round loop r ≢ err out_of_fuel
after_round-fueled n loop (skip rest) h k = k rest h
after_round-fueled n loop (token t rest) h k = >>=-fueled (loop rest) t (k rest h)
after_round-fueled n loop (refuse e) h k = λ q. h (ground arith)

rounds_fueled : (f : ℕ) (text : Text) → length text < f → rounds f text ≢ err out_of_fuel
unfolding rounds
rounds_fueled zero text h = absurd (omega arith)
rounds_fueled (suc f) [] h = λ e. cc
rounds_fueled (suc f) (c ∷ cs) h =
    after_round-fueled (length cs) (rounds f) (round c cs) (round-Takes c cs)
      (λ rest k. rounds_fueled f rest (omega arith))

-- On any text the lexer ends with tokens or with one of the program's own errors.
pub tokenize_fueled : (text : Text) → tokenize text ≢ err out_of_fuel
unfolding tokenize
tokenize_fueled text = rounds_fueled (suc (length text)) text (omega arith)

-- A token that the lexer reads back when a space follows it.
pub data Reads : Text → Type 0 where
  reads :
      (c : ℕ) (cs : Text)
      → ((rest : Text) → round c (cs ++ 32 ∷ rest) ≡ token (c ∷ cs) (32 ∷ rest))
      → Reads (c ∷ cs)

-- The tokens as a text, with a space after each.
unfoldable pub render : List Text → Text
render [] = []
render (t ∷ ts) = t ++ 32 ∷ render ts

space_round : (rest : Text) → round 32 rest ≡ skip rest
unfolding round is_space
space_round rest = refl

rounds-render :
    (f : ℕ) (ts : List Text) → All Reads ts → 2 * length ts < f → rounds f (render ts) ≡ ok ts
unfolding rounds render
rounds-render zero ts a h = absurd (omega arith)
rounds-render (suc f) [] a h = refl
rounds-render (suc zero) (t ∷ ts) a h = absurd (omega arith)
rounds-render (suc (suc f)) (t ∷ ts) (reads c cs r, a) h =
    rw (r (render ts), space_round (render ts), rounds-render f ts a (omega arith))

length-render : (ts : List Text) → All Reads ts → 2 * length ts ≤ length (render ts)
unfolding render
length-render [] a = omega arith
length-render (t ∷ ts) (reads c cs r, a) =
    omega (arith, length-append (c ∷ cs) (32 ∷ render ts), length-render ts a)

pub tokenize-render : (ts : List Text) → All Reads ts → tokenize (render ts) ≡ ok ts
unfolding tokenize
tokenize-render ts a =
    rounds-render (suc (length (render ts))) ts a (omega (arith, length-render ts a))
