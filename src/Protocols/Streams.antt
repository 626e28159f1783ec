-- ===== src/Protocols/Streams.antt =====
-- `analyze_stream_direction` of netreplay/core/protocols/streams.py: the three stream analysers over one direction.
pub mod Session
use net_replay.Common.{
  Bool, false, true, ◌||◌, Option, none, some, List, [], ◌∷◌, ◌++◌, map, if◌then◌else◌, take,
}
use net_replay.Common.Text.{codes, text_eq}
use net_replay.Replay.Bytes.{Bytes}
use net_replay.Replay.Mutation.{starts_with}
use net_replay.Protocols.Hex.{Text}
use net_replay.Protocols.TlsHello.{StreamTlsInfo}
use net_replay.Protocols.TlsStream.{new_tls_parser, tls_feed}
use net_replay.Protocols.Http2.{H2Frame, h2_preface, new_http2_parser, h2_feed}
use net_replay.Protocols.Split.{crlf, first_of, split_once}
use net_replay.Protocols.Http1.{PendingHttpMessage, new_http1_parser, http1_feed}

pub data Detected : Type 0 where
  tls : StreamTlsInfo → Detected
  frame : H2Frame → Detected
  http : PendingHttpMessage → Detected

-- `protocol_hint == text`, and `protocol_hint in (None, "http")`.
unfoldable pub hinted : Option Text → Text → Bool
hinted none text = false
hinted (some hint) text = text_eq hint text

unfoldable pub none_or_http : Option Text → Bool
none_or_http none = true
none_or_http (some hint) = text_eq hint (codes "http")

unfoldable pub analyze_stream_direction : Bytes → Option Text → List Detected
analyze_stream_direction bytes hint =
    (if text_eq (take 1 bytes) (22 ∷ []) || hinted hint (codes "tls")
      then map tls (tls_feed new_tls_parser bytes).0
      else [])
    ++ ((if starts_with h2_preface bytes || hinted hint (codes "http2")
          then map frame (h2_feed new_http2_parser bytes).0
          else [])
        ++ (if none_or_http hint
              || starts_with (codes "HTTP/") (first_of bytes (split_once crlf bytes))
            then map http (http1_feed new_http1_parser bytes).0
            else []))
