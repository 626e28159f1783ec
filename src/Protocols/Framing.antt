-- ===== src/Protocols/Framing.antt =====
-- The buffers of netreplay/core/protocols/streams.py: a parser takes frames off the front of its buffer while it
-- can, and keeps the rest for the next call. A parser gives one round of its loop and the two laws of it.
use mathlib.Core.List.{append_assoc, append-nil, flatten}
use net_replay.Common.{
  ℕ, zero, suc, ◌≤◌, ◌<◌, ◌≡◌, refl, sym, ap, ◌∙◌, Option, none, some, Option-cases, List, [], ◌∷◌,
  ◌++◌, arith, length, map, All, inl, inr,
}
use net_replay.Replay.Bytes.{Bytes}

-- What a round gives: its outputs, the parser's other state, and the buffer.
pub record Taken (S O : Type 0) : Type 0 where
  pub outs : List O
  pub state : S
  pub rest : Bytes

-- One round, `none` where the loop ends; it shortens the buffer, and bytes that come later do not change it.
pub record Framing (S O : Type 0) : Type 0 where
  pub step : S → Bytes → Option (Taken S O)
  pub shortens :
      (s : S) (buf : Bytes) (t : Taken S O) → step s buf ≡ some t → length t.rest < length buf
  pub extends :
      (s : S) (buf more : Bytes) (t : Taken S O)
      → step s buf ≡ some t
      → step s (buf ++ more) ≡ some (record t { rest = t.rest ++ more })

-- A parser: its buffer, its other state, and all that its calls have returned.
pub record Parser (S O : Type 0) : Type 0 where
  pub buf : Bytes
  pub state : S
  pub log : List O

module _ {S O : Type 0} (F : Framing S O) where
  open F use {step, shortens, extends}

  abbrev pub stopped : S → Bytes → Taken S O
  stopped s buf = record { outs = []; state = s; rest = buf }

  abbrev pub after : List O → Taken S O → Taken S O
  after os t = record t { outs = os ++ t.outs }

  -- The loop, on fuel.
  unfoldable pub drain : ℕ → S → Bytes → Taken S O
  drain zero s buf = stopped s buf
  drain (suc fuel) s buf = elim (step s buf) [
    | none ↦ stopped s buf
    | some t ↦ after t.outs (drain fuel t.state t.rest)
  ]

  unfoldable pub parse : S → Bytes → Taken S O
  parse s buf = drain (length buf) s buf

  drain-stop :
      (fuel : ℕ) (s : S) (buf : Bytes) → step s buf ≡ none → drain fuel s buf ≡ stopped s buf
  unfolding drain
  drain-stop zero s buf e = refl
  drain-stop (suc fuel) s buf e = rw (e, drain) refl

  drain-step :
      (fuel : ℕ) (s : S) (buf : Bytes) (t : Taken S O)
      → step s buf ≡ some t
      → drain (suc fuel) s buf ≡ after t.outs (drain fuel t.state t.rest)
  unfolding drain
  drain-step fuel s buf t e = rw (e, drain) refl

  -- Any fuel of the buffer's length or more gives the same.
  pub drain_fueled :
      (f g : ℕ) (s : S) (buf : Bytes)
      → length buf ≤ f
      → length buf ≤ g
      → drain f s buf ≡ drain g s buf
  drain_fueled zero g s buf hf hg = elim (Option-cases (step s buf)) [
    | inl e ↦ drain-stop zero s buf e ∙ sym (drain-stop g s buf e)
    | inr (t, e) ↦ absurd (omega (arith, shortens s buf t e))
  ]
  drain_fueled (suc f) zero s buf hf hg = elim (Option-cases (step s buf)) [
    | inl e ↦ drain-stop (suc f) s buf e ∙ sym (drain-stop zero s buf e)
    | inr (t, e) ↦ absurd (omega (arith, shortens s buf t e))
  ]
  drain_fueled (suc f) (suc g) s buf hf hg = elim (Option-cases (step s buf)) [
    | inl e ↦ drain-stop (suc f) s buf e ∙ sym (drain-stop (suc g) s buf e)
    | inr (t, e) ↦
        drain-step f s buf t e
        ∙ ap (after t.outs) (
            drain_fueled f g t.state t.rest (omega (arith, shortens s buf t e))
              (omega (arith, shortens s buf t e)))
        ∙ sym (drain-step g s buf t e)
  ]

  pub parse-stop : (s : S) (buf : Bytes) → step s buf ≡ none → parse s buf ≡ stopped s buf
  unfolding parse
  parse-stop s buf e = drain-stop (length buf) s buf e

  pub parse-step :
      (s : S) (buf : Bytes) (t : Taken S O)
      → step s buf ≡ some t
      → parse s buf ≡ after t.outs (parse t.state t.rest)
  unfolding parse
  parse-step s buf t e =
      drain_fueled (length buf) (suc (length buf)) s buf (omega arith) (omega arith)
      ∙ drain-step (length buf) s buf t e
      ∙ ap (after t.outs) (
          drain_fueled (length buf) (length t.rest) t.state t.rest
            (omega (arith, shortens s buf t e)) (omega arith))

  -- A call with more bytes goes on from what the last one left.
  abbrev pub resume : Taken S O → Bytes → Taken S O
  resume t more = after t.outs (parse t.state (t.rest ++ more))

  parse-append_below :
      (n : ℕ) (s : S) (buf more : Bytes)
      → length buf < n
      → parse s (buf ++ more) ≡ resume (parse s buf) more
  parse-append_below zero s buf more h = elim h [ ]
  parse-append_below (suc n) s buf more h = elim (Option-cases (step s buf)) [
    | inl e ↦ rw (parse-stop s buf e) refl
    | inr (t, e) ↦
        rw
          (
            parse-step s buf t e,
            parse-step s (buf ++ more) (record t { rest = t.rest ++ more })
                (extends s buf more t e),
            parse-append_below n t.state t.rest more (omega (arith, shortens s buf t e)),
          )
          (ap
            (λ os.
              record (parse (parse t.state t.rest).state ((parse t.state t.rest).rest ++ more)) {
                outs = os;
              })
            (sym (append_assoc t.outs (parse t.state t.rest).outs _)))
  ]

  -- Bytes that come in two pieces give what they give in one.
  pub parse-append : (s : S) (buf more : Bytes) → parse s (buf ++ more) ≡ resume (parse s buf) more
  parse-append s buf more = parse-append_below (suc (length buf)) s buf more (omega arith)

  parse_ends_below :
      (n : ℕ) (s : S) (buf : Bytes)
      → length buf < n
      → step (parse s buf).state (parse s buf).rest ≡ none
  parse_ends_below zero s buf h = elim h [ ]
  parse_ends_below (suc n) s buf h = elim (Option-cases (step s buf)) [
    | inl e ↦ rw (parse-stop s buf e) e
    | inr (t, e) ↦
        rw (parse-step s buf t e)
          (parse_ends_below n t.state t.rest (omega (arith, shortens s buf t e)))
  ]

  -- The loop goes on as long as it can.
  pub parse_ends : (s : S) (buf : Bytes) → step (parse s buf).state (parse s buf).rest ≡ none
  parse_ends s buf = parse_ends_below (suc (length buf)) s buf (omega arith)

  abbrev pub fed : Parser S O → Taken S O → List O × Parser S O
  fed p t = (t.outs, record { buf = t.rest; state = t.state; log = p.log ++ t.outs })

  unfoldable pub feed : Parser S O → Bytes → List O × Parser S O
  feed p bytes = fed p (parse p.state (p.buf ++ bytes))

  -- Calls one after the other, with all that they return.
  unfoldable pub feeds : Parser S O → List Bytes → List O × Parser S O
  feeds p [] = ([], p)
  feeds p (chunk ∷ chunks) =
      let (os, q) = feed p chunk in let (os', r) = feeds q chunks in (os ++ os', r)

  feed-append :
      (p : Parser S O) (a b : Bytes)
      → feed p (a ++ b) ≡ ((feed p a).0 ++ (feed (feed p a).1 b).0, (feed (feed p a).1 b).1)
  unfolding feed
  feed-append p a b =
      let t = parse p.state (p.buf ++ a) in
      let u = parse t.state (t.rest ++ b) in
      ap (λ (x : Bytes). fed p (parse p.state x)) (sym (append_assoc p.buf a b))
      ∙ ap (fed p) (parse-append p.state (p.buf ++ a) b)
      ∙ ap (λ (l : List O). (t.outs ++ u.outs, record { buf = u.rest; state = u.state; log = l }))
          (sym (append_assoc p.log t.outs u.outs))

  -- A parser of this shape, which TlsStreamParser and Http2Parser are and Http1Parser is not, whose loop has ended, as after
  -- every call and before the first, gives the same for every way to cut the bytes into calls.
  pub feeds-flatten :
      (p : Parser S O) (chunks : List Bytes)
      → step p.state p.buf ≡ none
      → feeds p chunks ≡ feed p (flatten chunks)
  unfolding feeds feed flatten
  feeds-flatten p [] h = sym (
      ap (λ (x : Bytes). fed p (parse p.state x)) (append-nil p.buf)
      ∙ ap (fed p) (parse-stop p.state p.buf h)
      ∙ ap (λ (l : List O). ([], record p { log = l })) (append-nil p.log))
  feeds-flatten p (chunk ∷ chunks) h =
      ap (λ (k : List O × Parser S O). ((feed p chunk).0 ++ k.0, k.1))
        (feeds-flatten (feed p chunk).1 chunks (parse_ends p.state (p.buf ++ chunk)))
      ∙ sym (feed-append p chunk (flatten chunks))

  -- The calls return and leave what one run of the loop over all the bytes takes.
  pub feeds-parse :
      (p : Parser S O) (chunks : List Bytes) (bytes : Bytes) (t : Taken S O)
      → step p.state p.buf ≡ none
      → flatten chunks ≡ bytes
      → parse p.state (p.buf ++ bytes) ≡ t
      → feeds p chunks ≡ fed p t
  unfolding feed
  feeds-parse p chunks bytes t h c e = feeds-flatten p chunks h ∙ ap (feed p) c ∙ ap (fed p) e

-- The frames that an encoder writes: in the states of `P`, `enc x` is one round, whatever follows it.
module _ {S O X : Type 0} (F : Framing S O) (enc : X → Bytes) (out : S → X → List O)
    (next : S → X → S) (P : S → Type 0) (keeps : (s : S) (x : X) → P s → P (next s x)) where
  abbrev pub encoded : List X → Bytes
  encoded xs = flatten (map enc xs)

  unfoldable pub decoded : S → List X → List O × S
  decoded s [] = ([], s)
  decoded s (x ∷ xs) = (out s x ++ (decoded (next s x) xs).0, (decoded (next s x) xs).1)

  abbrev pub Decodes : X → Type 0
  Decodes x =
      (s : S) (more : Bytes)
      → P s
      → F.step s (enc x ++ more) ≡ some (record { outs = out s x; state = next s x; rest = more })

  pub parse-encoded :
      (s : S) (xs : List X) (more : Bytes)
      → P s
      → All Decodes xs
      → parse F s (encoded xs ++ more) ≡ after F (decoded s xs).0 (parse F (decoded s xs).1 more)
  unfolding decoded flatten
  parse-encoded s [] more p h = refl
  parse-encoded s (x ∷ xs) more p h =
      ap (parse F s) (append_assoc (enc x) (encoded xs) more)
      ∙ parse-step F s (enc x ++ (encoded xs ++ more)) _ (h.0 s (encoded xs ++ more) p)
      ∙ ap (after F (out s x)) (parse-encoded (next s x) xs more (keeps s x p) h.1)
      ∙ ap (λ (os : List O). record (parse F (decoded (next s x) xs).1 more) { outs = os })
          (sym (append_assoc (out s x) (decoded (next s x) xs).0 _))

  -- Where the loop ends on what follows the frames, it keeps just that.
  pub parse-encoded_stop :
      (s : S) (xs : List X) (more : Bytes)
      → P s
      → All Decodes xs
      → F.step (decoded s xs).1 more ≡ none
      → parse F s (encoded xs ++ more)
        ≡ record { outs = (decoded s xs).0; state = (decoded s xs).1; rest = more }
  parse-encoded_stop s xs more p h m =
      parse-encoded s xs more p h
      ∙ ap (after F (decoded s xs).0) (parse-stop F (decoded s xs).1 more m)
      ∙ ap (λ (os : List O). record { outs = os; state = (decoded s xs).1; rest = more })
          (append-nil (decoded s xs).0)
