-- ===== src/Protocols/Http1/Ends.antt =====
-- The loop of `Http1Parser.feed` of netreplay/core/protocols/streams.py ends on every buffer.
use net_replay.Common.{
  ℕ, zero, suc, ◌+◌, ◌≤◌, ◌<◌, ◌≡◌, ◌≢◌, refl, ap, Option, none, some, List, [], ◌∷◌, ◌++◌, length,
  take, drop, arith, length-take, length-drop, Bool-cases, inl, inr,
}
use net_replay.Replay.Bytes.{Bytes}
use net_replay.Protocols.Split.{crlf, split_once, first_of, ℤ}
use net_replay.Protocols.Http.{HttpInfo, analyze_http}
use net_replay.Protocols.Http1.{
  head_mark, PendingHttpMessage, body_length, total_of, is_short, slice_size, is_start, Extracted,
  kept, message_of, extract_total, extract_head, extract_split, extract_one, extract_all, go_on,
}

-- A message that is taken off shortens the buffer.
abbrev pub Shortens : Bytes → Extracted → Type 0
Shortens buf e = e.message ≢ none → length e.buf < length buf

kept-Shortens : (buf : Bytes) → Shortens buf (kept buf)
kept-Shortens buf h = absurd (h refl)

analyze_http-nil : analyze_http [] ≡ none
unfolding analyze_http split_once
analyze_http-nil = refl

message-nil : (i : Option HttpInfo) (t : ℤ) → i ≡ none → message_of i t ≡ none
message-nil i t e = rw e refl

taken-Shortens :
    (bytes rest buf : Bytes) (t : ℤ)
    → length rest + length bytes ≤ length buf
    → Shortens buf (record { message = message_of (analyze_http bytes) t; buf = rest })
taken-Shortens [] rest buf t l h = absurd (h (message-nil (analyze_http []) t analyze_http-nil))
taken-Shortens (b ∷ bytes) rest buf t l h = omega arith

extract_total-Shortens : (buf : Bytes) (o : Option ℤ) → Shortens buf (extract_total buf o)
extract_total-Shortens buf none = kept-Shortens buf
extract_total-Shortens buf (some t) = elim (Bool-cases (is_short (length buf) t)) [
  | inl e ↦ rw e (kept-Shortens buf)
  | inr e ↦
      let n = slice_size (length buf) t in
      rw e (
        taken-Shortens (take n buf) (drop n buf) buf t
          (omega (arith, length-take n buf, length-drop n buf)))
]

extract_head-Shortens : (buf head : Bytes) → Shortens buf (extract_head buf head)
extract_head-Shortens buf head =
    elim (Bool-cases (is_start (first_of head (split_once crlf head)))) [
      | inl e ↦ rw e (extract_total-Shortens buf (total_of buf (length head) (body_length head)))
      | inr e ↦ rw e (kept-Shortens buf)
    ]

extract_split-Shortens :
    (buf : Bytes) (o : Option (Bytes × Bytes)) → Shortens buf (extract_split buf o)
extract_split-Shortens buf none = kept-Shortens buf
extract_split-Shortens buf (some (head, rest)) = extract_head-Shortens buf (head ++ head_mark)

extract_one-Shortens : (buf : Bytes) → Shortens buf (extract_one buf)
unfolding extract_one
extract_one-Shortens buf = extract_split-Shortens buf (split_once head_mark buf)

go_on_same :
    (r q : Bytes → List PendingHttpMessage × Bytes) (o : Option PendingHttpMessage) (buf : Bytes)
    → (o ≢ none → r buf ≡ q buf)
    → go_on r o buf ≡ go_on q o buf
go_on_same r q none buf h = refl
go_on_same r q (some m) buf h =
    ap (λ (k : List PendingHttpMessage × Bytes). (m ∷ k.0, k.1)) (h (λ e. cc))

-- More fuel than bytes in the buffer is enough: the loop of `feed` then ends by itself, and what it returns and leaves does
-- not depend on the fuel.
pub extract_all_fueled :
    (f g : ℕ) (buf : Bytes)
    → length buf < f
    → length buf < g
    → extract_all f buf ≡ extract_all g buf
unfolding extract_all
extract_all_fueled zero g buf hf hg = elim hf [ ]
extract_all_fueled (suc f) zero buf hf hg = elim hg [ ]
extract_all_fueled (suc f) (suc g) buf hf hg =
    let e = extract_one buf in
    go_on_same (extract_all f) (extract_all g) e.message e.buf (λ m.
      let l = extract_one-Shortens buf m in
      extract_all_fueled f g e.buf (omega (arith, l)) (omega (arith, l)))
