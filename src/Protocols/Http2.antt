-- ===== src/Protocols/Http2.antt =====
-- HTTP/2: `Http2Parser` of netreplay/core/protocols/streams.py and `analyze_http2` of http.py.
pub mod Cuts
use net_replay.Common.{
  ℕ, ◌+◌, ◌-◌, ◌%◌, ◌^◌, ◌≤◌, ◌<◌, ◌≡◌, Bool, true, false, Option, none, some, List, [], ◌∷◌, ◌++◌,
  ltb, if◌then◌else◌, length, take, drop, arith, length-append, length-drop, drop-append,
  get_or-append,
}
use net_replay.Common.Dict.{Dict, lookup, nat_eq}
use net_replay.Common.Text.{codes, text_eq}
use net_replay.Replay.Bytes.{Bytes, byte, slice, from_bytes, slice-append}
use net_replay.Replay.Mutation.{starts_with}
use net_replay.Protocols.Framing.{Framing, Taken, Parser, feed}
use net_replay.Protocols.Hex.{Text}
use net_replay.Protocols.Tls.{or_else, decimal}
use net_replay.Protocols.TlsStream.{max_record}

-- `H2_PREFACE`
abbrev pub h2_preface : Bytes
h2_preface = codes "PRI * HTTP/2.0" ++ 13 ∷ 10 ∷ 13 ∷ 10 ∷ b'S' ∷ b'M' ∷ 13 ∷ 10 ∷ 13 ∷ 10 ∷ []

abbrev pub h2_frames : Dict ℕ Text
h2_frames =
    (0, codes "DATA")
    ∷ (1, codes "HEADERS")
    ∷ (2, codes "PRIORITY")
    ∷ (3, codes "RST_STREAM")
    ∷ (4, codes "SETTINGS")
    ∷ (5, codes "PUSH_PROMISE")
    ∷ (6, codes "PING")
    ∷ (7, codes "GOAWAY")
    ∷ (8, codes "WINDOW_UPDATE")
    ∷ (9, codes "CONTINUATION")
    ∷ []

unfoldable pub frame_name : ℕ → Text
frame_name t = or_else (lookup t h2_frames) (codes "type=" ++ decimal t)

pub record H2Frame : Type 0 where
  pub frame_type : Text
  pub length : ℕ
  pub flags : ℕ
  pub stream_id : ℕ

-- `& 0x7FFFFFFF`
abbrev pub low_31 : ℕ → ℕ
low_31 n = n % 0x80000000

-- One round of the `while` of `feed`.
unfoldable pub frame_round : Bytes → Option (Taken Bool H2Frame)
frame_round buf =
    if ltb (length buf) 9
    then none
    else (let size = from_bytes 0 (slice buf 0 3) in
        if ltb max_record size
        then none
        else (if ltb (length buf) (9 + size)
            then none
            else some (record {
              outs =
                  record {
                    frame_type = frame_name (byte buf 3);
                    length = size;
                    flags = byte buf 4;
                    stream_id = low_31 (from_bytes 0 (slice buf 5 9));
                  }
                  ∷ [];
              state = true;
              rest = drop (9 + size) buf;
            })))

-- The test of the preface before the `while`.
unfoldable pub preface_round : Bytes → Option (Taken Bool H2Frame)
preface_round buf =
    if ltb (length buf) 33
    then none
    else (if text_eq (slice buf 0 24) h2_preface
        then some (record { outs = []; state = true; rest = drop 24 buf })
        else none)

unfoldable pub h2_round : Bool → Bytes → Option (Taken Bool H2Frame)
h2_round preface_ok buf = if preface_ok then frame_round buf else preface_round buf

frame_round-shortens :
    (buf : Bytes) (t : Taken Bool H2Frame) → frame_round buf ≡ some t → length t.rest < length buf
unfolding frame_round
frame_round-shortens buf t e = ground (arith, length-drop (9 + from_bytes 0 (slice buf 0 3)) buf)

preface_round-shortens :
    (buf : Bytes) (t : Taken Bool H2Frame) → preface_round buf ≡ some t → length t.rest < length buf
unfolding preface_round
preface_round-shortens buf t e = ground (arith, length-drop 24 buf)

pub h2_round-shortens :
    (ok : Bool) (buf : Bytes) (t : Taken Bool H2Frame)
    → h2_round ok buf ≡ some t
    → length t.rest < length buf
unfolding h2_round
h2_round-shortens true buf t e = frame_round-shortens buf t e
h2_round-shortens false buf t e = preface_round-shortens buf t e

frame_round-extends :
    (buf more : Bytes) (t : Taken Bool H2Frame)
    → frame_round buf ≡ some t
    → frame_round (buf ++ more) ≡ some (record t { rest = t.rest ++ more })
unfolding frame_round
frame_round-extends buf more t e = ground (
  arith,
  length-append buf more,
  slice-append buf more 0 3,
  slice-append buf more 5 9,
  get_or-append buf more 3 0,
  get_or-append buf more 4 0,
  drop-append (9 + from_bytes 0 (slice buf 0 3)) buf more,
)

preface_round-extends :
    (buf more : Bytes) (t : Taken Bool H2Frame)
    → preface_round buf ≡ some t
    → preface_round (buf ++ more) ≡ some (record t { rest = t.rest ++ more })
unfolding preface_round
preface_round-extends buf more t e =
    ground (arith, length-append buf more, slice-append buf more 0 24, drop-append 24 buf more)

pub h2_round-extends :
    (ok : Bool) (buf more : Bytes) (t : Taken Bool H2Frame)
    → h2_round ok buf ≡ some t
    → h2_round ok (buf ++ more) ≡ some (record t { rest = t.rest ++ more })
unfolding h2_round
h2_round-extends true buf more t e = frame_round-extends buf more t e
h2_round-extends false buf more t e = preface_round-extends buf more t e

abbrev pub h2_framing : Framing Bool H2Frame
h2_framing = record { step = h2_round; shortens = h2_round-shortens; extends = h2_round-extends }

-- The buffer, `preface_ok` and `frames`.
abbrev pub Http2Parser : Type 0
Http2Parser = Parser Bool H2Frame

abbrev pub new_http2_parser : Http2Parser
new_http2_parser = record { buf = []; state = false; log = [] }

unfoldable pub h2_feed : Http2Parser → Bytes → List H2Frame × Http2Parser
h2_feed = feed h2_framing

pub record Http2Info : Type 0 where
  pub frame_type : Text
  pub length : ℕ
  pub flags : ℕ
  pub stream_id : ℕ
  pub preface : Bool

abbrev pub type_name : ℕ → Text
type_name t = or_else (lookup t h2_frames) (codes "TYPE(" ++ decimal t ++ codes ")")

abbrev pub first_frame : Bytes → Http2Info
first_frame rest =
    if ltb (length rest) 9
    then record {
      frame_type = codes "(preface)";
      length = 0;
      flags = 0;
      stream_id = 0;
      preface = true;
    }
    else record {
      frame_type = type_name (byte rest 3);
      length = from_bytes 0 (slice rest 0 3);
      flags = byte rest 4;
      stream_id = low_31 (from_bytes 0 (slice rest 5 9));
      preface = true;
    }

-- `analyze_http2`
unfoldable pub analyze_http2 : Bytes → Option Http2Info
analyze_http2 payload =
    if starts_with h2_preface payload then some (first_frame (drop 24 payload)) else none
