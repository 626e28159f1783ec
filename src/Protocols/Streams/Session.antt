-- ===== src/Protocols/Streams/Session.antt =====
-- `analyze_stream_direction` of netreplay/core/protocols/streams.py on a whole HTTP/2 session.
use mathlib.Core.List.{flatten, append-nil}
use net_replay.Common.{
  ◌≤◌, ◌<◌, ◌≡◌, refl, ap, sym, ◌∙◌, none, some, List, [], ◌∷◌, ◌++◌, length, All, map,
}
use net_replay.Common.Text.{codes}
use net_replay.Replay.Bytes.{Bytes}
use net_replay.Replay.Mutation.{starts_with}
use net_replay.Protocols.Framing.{feeds-flatten}
use net_replay.Protocols.Split.{crlf, split_once, first_of}
use net_replay.Protocols.Split.Laws.{split_once-append}
use net_replay.Protocols.Http2.{
  h2_preface, h2_framing, new_http2_parser, h2_round, preface_round, h2_feed,
}
use net_replay.Protocols.Http2.Cuts.{SentFrame, IsFrame, frame_bytes, frame_of, h2_feeds-encoded}
use net_replay.Protocols.Http1.{max_message, new_http1_parser, is_start, http1_feed}
use net_replay.Protocols.Http1.Messages.{IsStalled, IsStalled-append, http1_feed-stalled}
use net_replay.Protocols.Streams.{frame, http, hinted, none_or_http, analyze_stream_direction}

abbrev pub session_bytes : List SentFrame → Bytes → Bytes
session_bytes fs more = h2_preface ++ (flatten (map frame_bytes fs) ++ more)

session_frames :
    (f : SentFrame) (fs : List SentFrame) (more : Bytes)
    → IsFrame f
    → All IsFrame fs
    → length more < 9
    → (h2_feed new_http2_parser (session_bytes (f ∷ fs) more)).0 ≡ map frame_of (f ∷ fs)
unfolding h2_feed flatten h2_round preface_round
session_frames f fs more hf hfs m =
    let bytes = session_bytes (f ∷ fs) more in
    ap (λ b. (h2_feed new_http2_parser b).0) (sym (append-nil bytes))
    ∙ ap (λ k. k.0) (sym (feeds-flatten h2_framing new_http2_parser (bytes ∷ []) refl))
    ∙ ap (λ k. k.0) (h2_feeds-encoded f fs more (bytes ∷ []) hf hfs m (append-nil bytes))

preface_line :
    (more : Bytes)
    → first_of (h2_preface ++ more) (split_once crlf (h2_preface ++ more)) ≡ codes "PRI * HTTP/2.0"
unfolding split_once starts_with
preface_line more =
    ap (first_of (h2_preface ++ more)) (split_once-append crlf h2_preface more refl) ∙ refl

preface-IsStalled : IsStalled h2_preface
unfolding split_once starts_with is_start
preface-IsStalled = record {
  head = codes "PRI * HTTP/2.0";
  rest = b'S' ∷ b'M' ∷ 13 ∷ 10 ∷ 13 ∷ 10 ∷ [];
  ends = refl;
  unknown = refl;
}

session_messages :
    (fs : List SentFrame) (more : Bytes)
    → length (session_bytes fs more) ≤ max_message
    → (http1_feed new_http1_parser (session_bytes fs more)).0 ≡ []
session_messages fs more l =
    ap (λ k. k.0)
      (http1_feed-stalled new_http1_parser (session_bytes fs more)
        (IsStalled-append h2_preface (flatten (map frame_bytes fs) ++ more) preface-IsStalled) l)

-- Which parsers run.
unhinted_session :
    (fs : List SentFrame) (more : Bytes)
    → analyze_stream_direction (session_bytes fs more) none
      ≡ map frame (h2_feed new_http2_parser (session_bytes fs more)).0
        ++ map http (http1_feed new_http1_parser (session_bytes fs more)).0
unfolding analyze_stream_direction hinted none_or_http starts_with
unhinted_session fs more = refl

hinted_session :
    (fs : List SentFrame) (more : Bytes)
    → analyze_stream_direction (session_bytes fs more) (some (codes "http2"))
      ≡ map frame (h2_feed new_http2_parser (session_bytes fs more)).0
unfolding analyze_stream_direction hinted none_or_http starts_with
hinted_session fs more = rw (preface_line (flatten (map frame_bytes fs) ++ more)) (append-nil _)

-- A whole HTTP/2 session of at most 16 MiB, the preface and one frame or more, is reported as its frames and nothing else,
-- without a hint and with the hint "http2" alike.
pub analyze_stream_direction-session :
    (f : SentFrame) (fs : List SentFrame) (more : Bytes)
    → IsFrame f
    → All IsFrame fs
    → length more < 9
    → length (session_bytes (f ∷ fs) more) ≤ max_message
    → (analyze_stream_direction (session_bytes (f ∷ fs) more) none
        ≡ map frame (map frame_of (f ∷ fs)))
      × (analyze_stream_direction (session_bytes (f ∷ fs) more) (some (codes "http2"))
          ≡ map frame (map frame_of (f ∷ fs)))
analyze_stream_direction-session f fs more hf hfs m l =
    let frames = session_frames f fs more hf hfs m in
    (
      unhinted_session (f ∷ fs) more ∙ rw (frames, session_messages (f ∷ fs) more l) (append-nil _),
      hinted_session (f ∷ fs) more ∙ ap (map frame) frames,
    )
