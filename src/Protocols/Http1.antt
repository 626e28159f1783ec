-- ===== src/Protocols/Http1.antt =====
-- `Http1Parser` of netreplay/core/protocols/streams.py. `messages` is the `log` of the parser; `_base` is never written, and
-- so is 0.
pub mod Messages
pub mod Ends
use net_replay.Common.{
  ℕ, zero, suc, ◌+◌, ◌-◌, ◌/◌, ◌≤◌, ◌<◌, ◌≡◌, ◌≢◌, refl, Bool, true, false, ◌&&◌, Option, none,
  some, List, [], ◌∷◌, ◌++◌, ltb, if◌then◌else◌, length, take, drop, map,
}
use net_replay.Common.Text.{codes, text_eq}
use net_replay.Filter.Eval.{occurs_in}
use net_replay.Replay.Bytes.{Bytes}
use net_replay.Replay.Mutation.{starts_with}
use net_replay.Protocols.Split.{
  crlf, split_once, first_of, split, rfind, is_byte_space, strip, byte_lower, ℤ, pos, negsuc,
  parse_int,
}
use net_replay.Protocols.Http.{http_methods, among, HttpInfo, analyze_http}

abbrev pub max_message : ℕ
max_message = 16777216

abbrev pub head_mark : Bytes
head_mark = crlf ++ crlf

abbrev pub chunk_mark : Bytes
chunk_mark = b'0' ∷ crlf ++ crlf

pub record PendingHttpMessage : Type 0 where
  pub info : HttpInfo
  pub start : ℕ
  pub end : ℤ

-- What `_body_length` returns.
pub data BodyLength : Type 0 where
  chunked : BodyLength
  counted : ℤ → BodyLength
  unframed : BodyLength

abbrev pub counted_or_not : Option ℤ → BodyLength
counted_or_not none = unframed
counted_or_not (some n) = counted n

-- One header line, split at its first colon; `later` is what the lines behind it give.
abbrev pub length_by_line : Option (Bytes × Bytes) → BodyLength → BodyLength
length_by_line none later = later
length_by_line (some (key, value)) later =
    let name = map byte_lower (strip is_byte_space key) in
    if text_eq name (codes "transfer-encoding")
      && occurs_in (codes "chunked") (map byte_lower value)
    then chunked
    else (if text_eq name (codes "content-length")
        then counted_or_not (parse_int (strip is_byte_space value))
        else later)

unfoldable pub length_by_lines : List Bytes → BodyLength
length_by_lines [] = unframed
length_by_lines (line ∷ lines) =
    length_by_line (split_once (b':' ∷ []) line) (length_by_lines lines)

abbrev pub behind_first : List Bytes → List Bytes
behind_first [] = []
behind_first (line ∷ lines) = lines

unfoldable pub body_length : Bytes → BodyLength
body_length head = length_by_lines (behind_first (split crlf 0 head))

-- `head_end + n`
abbrev pub add_int : ℕ → ℤ → ℤ
add_int h (pos n) = pos (h + n)
add_int h (negsuc n) = if ltb n h then pos (h - suc n) else negsuc (n - h)

abbrev pub chunk_end : Option ℕ → Option ℤ
chunk_end none = none
chunk_end (some i) = some (pos (i + 5))

-- `total`; `none` where the end of the chunks is not there yet.
unfoldable pub total_of : Bytes → ℕ → BodyLength → Option ℤ
total_of buf head_end chunked = chunk_end (rfind chunk_mark buf)
total_of buf head_end (counted n) = some (add_int head_end n)
total_of buf head_end unframed = some (pos head_end)

-- `len(self._buf) < total`, and how many bytes `[:total]` is.
abbrev pub is_short : ℕ → ℤ → Bool
is_short size (pos n) = ltb size n
is_short size (negsuc n) = false

abbrev pub slice_size : ℕ → ℤ → ℕ
slice_size size (pos n) = n
slice_size size (negsuc n) = size - suc n

-- The first line is that of a response or of a request.
unfoldable pub is_start : Bytes → Bool
is_start start =
    if starts_with (codes "HTTP/") start
    then true
    else among (first_of start (split_once (32 ∷ []) start)) http_methods

-- What `_extract_one` returns, and the buffer that it leaves.
pub record Extracted : Type 0 where
  pub message : Option PendingHttpMessage
  pub buf : Bytes

abbrev pub kept : Bytes → Extracted
kept buf = record { message = none; buf = buf }

abbrev pub message_of : Option HttpInfo → ℤ → Option PendingHttpMessage
message_of none total = none
message_of (some info) total = some (record { info = info; start = 0; end = total })

abbrev pub extract_total : Bytes → Option ℤ → Extracted
extract_total buf none = kept buf
extract_total buf (some total) = if is_short (length buf) total then kept buf else record {
  message = message_of (analyze_http (take (slice_size (length buf) total) buf)) total;
  buf = drop (slice_size (length buf) total) buf;
}

-- `head` is the buffer up to and with the mark.
abbrev pub extract_head : Bytes → Bytes → Extracted
extract_head buf head =
    if is_start (first_of head (split_once crlf head))
    then extract_total buf (total_of buf (length head) (body_length head))
    else kept buf

abbrev pub extract_split : Bytes → Option (Bytes × Bytes) → Extracted
extract_split buf none = kept buf
extract_split buf (some (head, rest)) = extract_head buf (head ++ head_mark)

unfoldable pub extract_one : Bytes → Extracted
extract_one buf = extract_split buf (split_once head_mark buf)

pub record Http1Parser : Type 0 where
  pub buf : Bytes
  pub messages : List PendingHttpMessage

abbrev pub new_http1_parser : Http1Parser
new_http1_parser = record { buf = []; messages = [] }

abbrev pub go_on :
    (Bytes → List PendingHttpMessage × Bytes)
    → Option PendingHttpMessage
    → Bytes
    → List PendingHttpMessage × Bytes
go_on rest none buf = ([], buf)
go_on rest (some m) buf = (m ∷ (rest buf).0, (rest buf).1)

-- The loop of `feed`, on fuel: the messages, and the buffer.
unfoldable pub extract_all : ℕ → Bytes → List PendingHttpMessage × Bytes
extract_all zero buf = ([], buf)
extract_all (suc fuel) buf =
    go_on (extract_all fuel) (extract_one buf).message (extract_one buf).buf

abbrev pub trimmed : Bytes → Bytes
trimmed buf = if ltb max_message (length buf) then drop (max_message / 2) buf else buf

unfoldable pub http1_feed : Http1Parser → Bytes → List PendingHttpMessage × Http1Parser
http1_feed p bytes =
    let (out, buf) = extract_all (suc (length (p.buf ++ bytes))) (p.buf ++ bytes) in
    (out, record { buf = trimmed buf; messages = p.messages ++ out })

-- Calls of `feed`, with all that they return.
unfoldable pub http1_feeds : Http1Parser → List Bytes → List PendingHttpMessage × Http1Parser
http1_feeds p [] = ([], p)
http1_feeds p (chunk ∷ chunks) =
    let (os, q) = http1_feed p chunk in let (os', r) = http1_feeds q chunks in (os ++ os', r)
