-- ===== src/Protocols/Http1/Messages.antt =====
-- `Http1Parser.feed` of netreplay/core/protocols/streams.py on messages with a Content-Length, and on a first line that is
-- neither a request nor a response.
use mathlib.Core.List.{flatten, append_assoc, append-nil}
use net_replay.Common.{
  ℕ, zero, suc, ◌+◌, ◌≤◌, ◌<◌, ◌≡◌, refl, ap, sym, ◌∙◌, true, false, none, some, List, [], ◌∷◌,
  ◌++◌, ltb, length, arith, All, map, length-append, take-length, drop-length,
}
use net_replay.Replay.Bytes.{Bytes}
use net_replay.Protocols.Split.{crlf, split_once, first_of, is_split, pos}
use net_replay.Protocols.Split.Laws.{then_more, split_once-append}
use net_replay.Protocols.Http.{HttpInfo, analyze_http}
use net_replay.Protocols.Http1.{
  max_message, head_mark, PendingHttpMessage, counted, body_length, total_of, is_start, Extracted,
  kept, message_of, extract_total, extract_head, extract_split, extract_one, extract_all, go_on,
  trimmed, Http1Parser, new_http1_parser, http1_feed, http1_feeds,
}

-- A message as it is sent, and what `analyze_http` says of it.
pub record Message : Type 0 where
  pub head : Bytes
  pub body : Bytes
  pub info : HttpInfo

abbrev pub whole_head : Message → Bytes
whole_head m = m.head ++ head_mark

abbrev pub message_bytes : Message → Bytes
message_bytes m = whole_head m ++ m.body

-- The head ends at its first empty line, starts as a request or a response, and counts the body.
pub record IsMessage (m : Message) : Type 0 where
  pub ends : split_once head_mark (message_bytes m) ≡ some (m.head, m.body)
  pub starts : is_start (first_of (whole_head m) (split_once crlf (whole_head m))) ≡ true
  pub counts : body_length (whole_head m) ≡ counted (pos (length m.body))
  pub says : analyze_http (message_bytes m) ≡ some m.info

abbrev pub pending : Message → PendingHttpMessage
pending m = record { info = m.info; start = 0; end = pos (length (whole_head m) + length m.body) }

not_short : (bytes more : Bytes) → ltb (length (bytes ++ more)) (length bytes) ≡ false
not_short bytes more = ground (arith, length-append bytes more)

extract_head-start :
    (buf head : Bytes)
    → is_start (first_of head (split_once crlf head)) ≡ true
    → extract_head buf head ≡ extract_total buf (total_of buf (length head) (body_length head))
extract_head-start buf head e = rw e refl

extract_total-whole :
    (bytes more : Bytes)
    → extract_total (bytes ++ more) (some (pos (length bytes)))
      ≡ record { message = message_of (analyze_http bytes) (pos (length bytes)); buf = more }
extract_total-whole bytes more =
    rw (not_short bytes more, take-length bytes more, drop-length bytes more) refl

-- A whole message in front of the buffer is taken off it.
extract_one-message :
    (m : Message) (more : Bytes)
    → IsMessage m
    → extract_one (message_bytes m ++ more) ≡ record { message = some (pending m); buf = more }
unfolding extract_one total_of
extract_one-message m more h =
    let buf = message_bytes m ++ more in
    let split =
      split_once-append head_mark (message_bytes m) more (ap is_split h.ends)
      ∙ ap (then_more more) h.ends in
    ap (extract_split buf) split
    ∙ extract_head-start buf (whole_head m) h.starts
    ∙ ap (λ b. extract_total buf (total_of buf (length (whole_head m)) b)) h.counts
    ∙ ap (λ n. extract_total buf (some (pos n))) (sym (length-append (whole_head m) m.body))
    ∙ extract_total-whole (message_bytes m) more
    ∙ ap (λ i. record { message = message_of i (pos (length (message_bytes m))); buf = more })
        h.says
    ∙ ap
        (λ n. record {
          message = some (record { info = m.info; start = 0; end = pos n });
          buf = more;
        })
        (length-append (whole_head m) m.body)

-- Nothing is taken, and the loop ends.
abbrev pub Waits : Bytes → Type 0
Waits buf = extract_one buf ≡ kept buf

extract_all-stop : (fuel : ℕ) (buf : Bytes) → Waits buf → extract_all fuel buf ≡ ([], buf)
unfolding extract_all
extract_all-stop zero buf e = refl
extract_all-stop (suc fuel) buf e =
    ap (λ (x : Extracted). go_on (extract_all fuel) x.message x.buf) e

extract_all-step :
    (fuel : ℕ) (buf rest : Bytes) (m : PendingHttpMessage)
    → extract_one buf ≡ record { message = some m; buf = rest }
    → extract_all (suc fuel) buf ≡ (m ∷ (extract_all fuel rest).0, (extract_all fuel rest).1)
unfolding extract_all
extract_all-step fuel buf rest m e =
    ap (λ (x : Extracted). go_on (extract_all fuel) x.message x.buf) e

extract_all-messages :
    (fuel : ℕ) (ms : List Message) (more : Bytes)
    → length ms < fuel
    → All IsMessage ms
    → Waits more
    → extract_all fuel (flatten (map message_bytes ms) ++ more) ≡ (map pending ms, more)
unfolding flatten
extract_all-messages zero ms more hl h w = elim hl [ ]
extract_all-messages (suc fuel) [] more hl h w = extract_all-stop (suc fuel) more w
extract_all-messages (suc fuel) (m ∷ ms) more hl h w =
    let rest = flatten (map message_bytes ms) ++ more in
    ap (extract_all (suc fuel))
      (append_assoc (message_bytes m) (flatten (map message_bytes ms)) more)
    ∙ extract_all-step fuel (message_bytes m ++ rest) rest (pending m)
        (extract_one-message m rest h.0)
    ∙ ap (λ k. (pending m ∷ k.0, k.1)) (extract_all-messages fuel ms more (omega arith) h.1 w)

length-flatten-messages : (ms : List Message) → length ms ≤ length (flatten (map message_bytes ms))
unfolding flatten
length-flatten-messages [] = omega arith
length-flatten-messages (m ∷ ms) = omega (
  arith,
  length-append (message_bytes m) (flatten (map message_bytes ms)),
  length-append (whole_head m) m.body,
  length-append m.head head_mark,
  length-flatten-messages ms,
)

not_over : (m n : ℕ) → m ≤ n → ltb n m ≡ false
not_over m n h = ground arith

trimmed-small : (buf : Bytes) → length buf ≤ max_message → trimmed buf ≡ buf
trimmed-small buf h = rw (not_over (length buf) max_message h) refl

-- A call with any number of whole messages that count their bodies, and behind them at most 16 MiB that hold no
-- end of a head, returns one message for each, with what `analyze_http` says of just its bytes, and keeps what is behind them.
pub http1_feed-messages :
    (ms : List Message) (more : Bytes)
    → All IsMessage ms
    → split_once head_mark more ≡ none
    → length more ≤ max_message
    → http1_feed new_http1_parser (flatten (map message_bytes ms) ++ more)
      ≡ (map pending ms, record { buf = more; messages = map pending ms })
unfolding http1_feed extract_one
http1_feed-messages ms more h w l =
    let bytes = flatten (map message_bytes ms) ++ more in
    let fits : length ms < suc (length bytes) =
      omega
        (arith, length-append (flatten (map message_bytes ms)) more, length-flatten-messages ms) in
    ap
      (λ (k : List PendingHttpMessage × Bytes). (k.0, record { buf = trimmed k.1; messages = k.0 }))
      (extract_all-messages (suc (length bytes)) ms more fits h (ap (extract_split more) w))
    ∙ ap (λ b. (map pending ms, record { buf = b; messages = map pending ms }))
        (trimmed-small more l)

-- The buffer holds the end of a head whose first line is neither a request nor a response.
pub record IsStalled (buf : Bytes) : Type 0 where
  pub head : Bytes
  pub rest : Bytes
  pub ends : split_once head_mark buf ≡ some (head, rest)
  pub unknown :
      is_start (first_of (head ++ head_mark) (split_once crlf (head ++ head_mark))) ≡ false

pub IsStalled-append : (buf more : Bytes) → IsStalled buf → IsStalled (buf ++ more)
IsStalled-append buf more h = record {
  head = h.head;
  rest = h.rest ++ more;
  ends = split_once-append head_mark buf more (ap is_split h.ends) ∙ ap (then_more more) h.ends;
  unknown = h.unknown;
}

extract_head-unknown :
    (buf head : Bytes)
    → is_start (first_of head (split_once crlf head)) ≡ false
    → extract_head buf head ≡ kept buf
extract_head-unknown buf head e = rw e refl

IsStalled-Waits : (buf : Bytes) → IsStalled buf → Waits buf
unfolding extract_one
IsStalled-Waits buf h =
    ap (extract_split buf) h.ends ∙ extract_head-unknown buf (h.head ++ head_mark) h.unknown

pub http1_feed-stalled :
    (p : Http1Parser) (chunk : Bytes)
    → IsStalled (p.buf ++ chunk)
    → length (p.buf ++ chunk) ≤ max_message
    → http1_feed p chunk ≡ ([], record { buf = p.buf ++ chunk; messages = p.messages })
unfolding http1_feed
http1_feed-stalled p chunk h l =
    let bytes = p.buf ++ chunk in
    ap
      (λ (k : List PendingHttpMessage × Bytes).
        (k.0, record { buf = trimmed k.1; messages = p.messages ++ k.0 }))
      (extract_all-stop (suc (length bytes)) bytes (IsStalled-Waits bytes h))
    ∙ ap (λ b. ([], record { buf = b; messages = p.messages ++ [] })) (trimmed-small bytes l)
    ∙ ap (λ (ms : List PendingHttpMessage). ([], record { buf = bytes; messages = ms }))
        (append-nil p.messages)

-- A first line that is neither a request's nor a response's stops the parser: once it has the end of that head, no later
-- call returns a message, whatever comes, as long as the buffer stays within 16 MiB.
pub http1_feeds-stalled :
    (p : Http1Parser) (chunks : List Bytes)
    → IsStalled p.buf
    → length p.buf + length (flatten chunks) ≤ max_message
    → (http1_feeds p chunks).0 ≡ []
unfolding http1_feeds flatten
http1_feeds-stalled p [] h l = refl
http1_feeds-stalled p (chunk ∷ chunks) h l =
    let next : Http1Parser = record { buf = p.buf ++ chunk; messages = p.messages } in
    ap (λ (k : List PendingHttpMessage × Http1Parser). k.0 ++ (http1_feeds k.1 chunks).0)
      (http1_feed-stalled p chunk (IsStalled-append p.buf chunk h)
        (omega (arith, length-append p.buf chunk, length-append chunk (flatten chunks))))
    ∙ http1_feeds-stalled next chunks (IsStalled-append p.buf chunk h)
        (omega (arith, length-append p.buf chunk, length-append chunk (flatten chunks)))
