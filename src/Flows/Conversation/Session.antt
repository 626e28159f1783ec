-- ===== src/Flows/Conversation/Session.antt =====
-- From packets to findings: `Conversation.feed` and `analyze_streams` of netreplay/core/flows/conversation.py over an HTTP/2
-- session whose segments arrive in order.
use mathlib.Core.List.{append-nil}
use net_replay.Common.{ℕ, ◌≤◌, ◌<◌, ◌≡◌, refl, ap, ◌∙◌, true, none, List, [], ◌∷◌, length, map, All}
use net_replay.Replay.Bytes.{Bytes}
use net_replay.Replay.Mutation.{starts_with}
use net_replay.Flows.Serial.{seq_mod}
use net_replay.Flows.Stream.{new_stream}
use net_replay.Flows.Stream.Delivery.{outputs, consecutive, chunk_bytes, outputs-consecutive}
use net_replay.Flows.Tracker.{Flow}
use net_replay.Protocols.Split.{split_once}
use net_replay.Protocols.Http1.{max_message, extract_one, extract_all, http1_feed}
use net_replay.Protocols.Http2.Cuts.{SentFrame, IsFrame, frame_of}
use net_replay.Protocols.Streams.{frame, hinted, none_or_http, analyze_stream_direction}
use net_replay.Protocols.Streams.Session.{session_bytes, analyze_stream_direction-session}
use net_replay.Flows.Conversation.{
  TcpPacket, new_conversation, analyze_streams, finding, client, packets_fed,
}
use net_replay.Flows.Conversation.Laws.{FromClient, arrival, packets_fed-outputs}

nothing_found : analyze_stream_direction [] none ≡ []
unfolding analyze_stream_direction none_or_http hinted starts_with http1_feed extract_all
    extract_one split_once
nothing_found = refl

-- When a client sends a session of at most 16 MiB, the preface, one HTTP/2 frame or more, each with a payload of at most
-- 1 MiB and a stream id below 2^31, and less than a frame's header behind them, cut into segments with a payload in any
-- way, and these arrive in order and alone, from any sequence number below 2^32 on, the findings of the conversation, before
-- any flush, are the frames that were sent, each one an HTTP/2 finding of the client's direction, and no others.
pub analyze_streams-session :
    (flow : Flow) (ps : List TcpPacket) (n : ℕ) (chunks : List (Bytes × ℕ)) (f : SentFrame)
    (fs : List SentFrame) (more : Bytes)
    → n < seq_mod
    → All (FromClient flow) ps
    → map arrival ps ≡ consecutive n chunks
    → chunk_bytes chunks ≡ session_bytes (f ∷ fs) more
    → IsFrame f
    → All IsFrame fs
    → length more < 9
    → length (session_bytes (f ∷ fs) more) ≤ max_message
    → analyze_streams (packets_fed (new_conversation flow) ps)
      ≡ map (finding client) (map frame (map frame_of (f ∷ fs)))
unfolding analyze_streams
analyze_streams-session flow ps n chunks f fs more hn h e c hf hfs m l =
    let k = packets_fed-outputs (new_conversation flow) ps h in
    let st = new_stream true none in
    let sent =
      k.0
      ∙ ap (outputs st) e
      ∙ (outputs-consecutive st n chunks hn (record { next_is = refl; buffer_is = refl })).0
      ∙ c in
    let found =
      ap (λ d. analyze_stream_direction d none) sent
      ∙ (analyze_stream_direction-session f fs more hf hfs m l).0 in
    let other = ap (λ d. analyze_stream_direction d none) k.1 ∙ nothing_found in
    rw (found, other) (append-nil _)
