-- ===== src/Protocols/Http2/Cuts.antt =====
-- `Http2Parser.feed` of netreplay/core/protocols/streams.py on sessions of whole frames, cut into any calls.
use mathlib.Core.List.{flatten}
use net_replay.Common.{
  ℕ, ◌+◌, ◌/◌, ◌%◌, ◌≤◌, ◌<◌, ◌≡◌, refl, ap, ◌∙◌, Bool, true, false, none, some, List, [], ◌∷◌,
  ◌++◌, length, arith, All, map, length-append, drop,
}
use net_replay.Replay.Bytes.{Bytes, byte, slice, from_bytes, drop_payload}
use net_replay.Protocols.Framing.{
  feeds, decoded, Decodes, parse-step, parse-encoded_stop, feeds-parse, after,
}
use net_replay.Protocols.Http2.{
  h2_preface, frame_name, H2Frame, low_31, frame_round, preface_round, h2_round, h2_framing,
  new_http2_parser,
}

-- A frame as it is sent.
pub record SentFrame : Type 0 where
  pub type_code : ℕ
  pub flags : ℕ
  pub stream_id : ℕ
  pub payload : Bytes

abbrev pub three_bytes : ℕ → Bytes
three_bytes n = n / 65536 ∷ n / 256 % 256 ∷ n % 256 ∷ []

abbrev pub four_bytes : ℕ → Bytes
four_bytes n = n / 16777216 ∷ n / 65536 % 256 ∷ n / 256 % 256 ∷ n % 256 ∷ []

abbrev pub header_bytes : SentFrame → Bytes
header_bytes f = three_bytes (length f.payload) ++ (f.type_code ∷ f.flags ∷ four_bytes f.stream_id)

abbrev pub frame_bytes : SentFrame → Bytes
frame_bytes f = header_bytes f ++ f.payload

-- The payload is no longer than the parser's limit, and the stream's number has 31 bits.
abbrev pub IsFrame : SentFrame → Type 0
IsFrame f = (length f.payload ≤ 1048576) × (f.stream_id < 0x80000000)

abbrev pub frame_of : SentFrame → H2Frame
frame_of f = record {
  frame_type = frame_name f.type_code;
  length = length f.payload;
  flags = f.flags;
  stream_id = f.stream_id;
}

abbrev frame_outs : Bool → SentFrame → List H2Frame
frame_outs ok f = frame_of f ∷ []

abbrev kept_true : Bool → SentFrame → Bool
kept_true ok f = true

abbrev IsTrue : Bool → Type 0
IsTrue ok = ok ≡ true

abbrev stays_true : (ok : Bool) (f : SentFrame) → IsTrue ok → IsTrue (kept_true ok f)
stays_true ok f e = refl

three_lem : (n : ℕ) → from_bytes 0 (three_bytes n) ≡ n
unfolding from_bytes
three_lem n = omega arith

four_lem : (n : ℕ) → n < 0x80000000 → low_31 (from_bytes 0 (four_bytes n)) ≡ n
unfolding from_bytes
four_lem n h = omega arith

frame_round-whole :
    (buf : Bytes) (size stream : ℕ) (more : Bytes)
    → from_bytes 0 (slice buf 0 3) ≡ size
    → low_31 (from_bytes 0 (slice buf 5 9)) ≡ stream
    → size ≤ 1048576
    → 9 + size ≤ length buf
    → drop (9 + size) buf ≡ more
    → frame_round buf
      ≡ some (record {
        outs =
            record {
              frame_type = frame_name (byte buf 3);
              length = size;
              flags = byte buf 4;
              stream_id = stream;
            }
            ∷ [];
        state = true;
        rest = more;
      })
unfolding frame_round
frame_round-whole buf size stream more es et hs hl em = ground arith

IsFrame-Decodes :
    (f : SentFrame)
    → IsFrame f
    → Decodes h2_framing frame_bytes frame_outs kept_true IsTrue stays_true f
unfolding h2_round slice
IsFrame-Decodes f d ok more u = rw u (
    frame_round-whole (frame_bytes f ++ more) (length f.payload) f.stream_id more
      (three_lem (length f.payload)) (four_lem f.stream_id d.1) d.0
      (omega (arith, length-append f.payload more)) (drop_payload (header_bytes f) f.payload more))

All-Decodes :
    (fs : List SentFrame)
    → All IsFrame fs
    → All (Decodes h2_framing frame_bytes frame_outs kept_true IsTrue stays_true) fs
All-Decodes [] h = tt
All-Decodes (f ∷ fs) h = (IsFrame-Decodes f h.0, All-Decodes fs h.1)

decoded-frames :
    (fs : List SentFrame)
    → decoded h2_framing frame_bytes frame_outs kept_true IsTrue stays_true true fs
      ≡ (map frame_of fs, true)
unfolding decoded
decoded-frames [] = refl
decoded-frames (f ∷ fs) = ap (λ k. (frame_of f ∷ k.0, k.1)) (decoded-frames fs)

short_stops : (ok : Bool) (buf : Bytes) → length buf < 9 → h2_round ok buf ≡ none
unfolding h2_round frame_round preface_round
short_stops true buf h = ground arith
short_stops false buf h = ground arith

preface_step :
    (more : Bytes)
    → 9 ≤ length more
    → h2_round false (h2_preface ++ more) ≡ some (record { outs = []; state = true; rest = more })
unfolding h2_round preface_round slice
preface_step more h = ground (arith, length-append h2_preface more)

-- When a session is the preface and one frame or more, each with a payload of at most 1 MiB and a stream id below 2^31,
-- with less than a frame's header behind them: however it is cut into calls of `feed`, a new parser returns the frames
-- that were sent, with their types, lengths, flags and streams, keeps the same list as its `frames`, and keeps in its
-- buffer the bytes behind them.
pub h2_feeds-encoded :
    (f : SentFrame) (fs : List SentFrame) (more : Bytes) (chunks : List Bytes)
    → IsFrame f
    → All IsFrame fs
    → length more < 9
    → flatten chunks ≡ h2_preface ++ (flatten (map frame_bytes (f ∷ fs)) ++ more)
    → feeds h2_framing new_http2_parser chunks
      ≡ (map frame_of (f ∷ fs), record { buf = more; state = true; log = map frame_of (f ∷ fs) })
unfolding flatten
h2_feeds-encoded f fs more chunks hf hfs m c =
    let d = decoded-frames (f ∷ fs) in
    let bytes = flatten (map frame_bytes (f ∷ fs)) ++ more in
    feeds-parse h2_framing new_http2_parser chunks (h2_preface ++ bytes) _
      (short_stops false [] (omega arith)) c
      (parse-step h2_framing false (h2_preface ++ bytes) _ (preface_step bytes (omega arith))
        ∙ ap (after h2_framing []) (
            parse-encoded_stop h2_framing frame_bytes frame_outs kept_true IsTrue stays_true true
              (f ∷ fs) more refl (All-Decodes (f ∷ fs) (hf, hfs)) (short_stops _ more m)
            ∙ ap (λ k. record { outs = k.0; state = k.1; rest = more }) d))
