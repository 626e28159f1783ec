-- ===== src/Flows/Conversation/Laws.antt =====
-- What a `Conversation` of netreplay/core/flows/conversation.py keeps of the two directions.
use mathlib.Core.Path.{subst}
use mathlib.Core.List.{append_assoc, append-nil}
use net_replay.Common.{
  ℕ, ◌<◌, ◌≡◌, refl, ap, sym, ◌∙◌, Bool, true, false, List, [], ◌∷◌, ◌++◌, length, map, All,
  length-append, arith,
}
use net_replay.Flows.Stream.{TcpStream, feed as stream_feed, feed_client, feed_server}
use net_replay.Flows.Stream.Reorder.{Arrival}
use net_replay.Flows.Stream.Bytes.{feed-bytes}
use net_replay.Flows.Stream.Delivery.{outputs}
use net_replay.Flows.Tracker.{Flow, or_zero}
use net_replay.Flows.Metrics.{on_segment}
use net_replay.Replay.Bytes.{Bytes}
use net_replay.Flows.Conversation.{
  TcpPacket, tcp_payload, Conversation, new_conversation, is_responder, segment_of, feed_payload,
  feed, client_bytes, server_bytes, packets_fed,
}

-- The bytes that are kept of a direction are as many as its stream has written.
pub record Matches (c : Conversation) : Type 0 where
  pub client_size : length c.client_data ≡ client_bytes c
  pub server_size : length c.server_data ≡ server_bytes c

feed_payload-Matches :
    (c : Conversation) (seq ts : ℕ) (payload : Bytes) (from_responder : Bool)
    → Matches c
    → Matches (feed_payload c seq ts payload from_responder).1
unfolding feed_client feed_server
feed_payload-Matches c seq ts [] from_responder h = h
feed_payload-Matches c seq ts (b ∷ bs) true h = record {
  client_size = h.client_size;
  server_size = omega (
    arith,
    h.server_size,
    feed-bytes c.reassembler.server seq (b ∷ bs) ts,
    length-append c.server_data (stream_feed c.reassembler.server seq (b ∷ bs) ts).0.bytes,
  );
}
feed_payload-Matches c seq ts (b ∷ bs) false h = record {
  client_size = omega (
    arith,
    h.client_size,
    feed-bytes c.reassembler.client seq (b ∷ bs) ts,
    length-append c.client_data (stream_feed c.reassembler.client seq (b ∷ bs) ts).0.bytes,
  );
  server_size = h.server_size;
}

feed-Matches : (c : Conversation) (p : TcpPacket) → Matches c → Matches (feed c p).1
unfolding feed
feed-Matches c p h =
    let from_responder = is_responder c.flow p.0 in
    let m = on_segment (segment_of p (length (tcp_payload p)) from_responder) c.metrics in
    feed_payload-Matches (record c { metrics = m }) (or_zero p.1.seq) p.0.ts (tcp_payload p)
      from_responder (record { client_size = h.client_size; server_size = h.server_size })

fed-Matches : (c : Conversation) (ps : List TcpPacket) → Matches c → Matches (packets_fed c ps)
fed-Matches c [] h = h
fed-Matches c (p ∷ ps) h = fed-Matches (feed c p).1 ps (feed-Matches c p h)

-- After any calls of `feed` on a new conversation, and before any `flush`, the bytes that it keeps for the analysers are,
-- for each direction, as many as `client_bytes` and `server_bytes` say.
pub packets_fed-Matches :
    (flow : Flow) (ps : List TcpPacket) → Matches (packets_fed (new_conversation flow) ps)
packets_fed-Matches flow ps =
    fed-Matches (new_conversation flow) ps (record { client_size = refl; server_size = refl })

-- A packet with a payload that the client sent, and what its stream is fed.
abbrev pub FromClient : Flow → TcpPacket → Type 0
FromClient flow p = (is_responder flow p.0 ≡ false) × (0 < length (tcp_payload p))

abbrev pub arrival : TcpPacket → Arrival
arrival p = (or_zero p.1.seq, tcp_payload p, p.0.ts)

-- One packet of the client: the stream's output is kept, the flow and the other direction stay.
record Taken (c c' : Conversation) (seq ts : ℕ) (payload : Bytes) : Type 0 where
  pub same_flow : c'.flow ≡ c.flow
  pub same_server : c'.server_data ≡ c.server_data
  pub next_stream : c'.reassembler.client ≡ (stream_feed c.reassembler.client seq payload ts).1
  pub more_data :
      c'.client_data ≡ c.client_data ++ (stream_feed c.reassembler.client seq payload ts).0.bytes

feed_payload-Taken :
    (c : Conversation) (seq ts : ℕ) (payload : Bytes) (from_responder : Bool)
    → from_responder ≡ false
    → 0 < length payload
    → Taken c (feed_payload c seq ts payload from_responder).1 seq ts payload
unfolding feed_client
feed_payload-Taken c seq ts payload true h l = cc
feed_payload-Taken c seq ts [] false h l = absurd (omega arith)
feed_payload-Taken c seq ts (b ∷ bs) false h l = record {
  same_flow = refl;
  same_server = refl;
  next_stream = refl;
  more_data = refl;
}

feed-Taken :
    (c : Conversation) (p : TcpPacket)
    → FromClient c.flow p
    → Taken c (feed c p).1 (or_zero p.1.seq) p.0.ts (tcp_payload p)
unfolding feed
feed-Taken c p (h, l) =
    let from_responder = is_responder c.flow p.0 in
    let m = on_segment (segment_of p (length (tcp_payload p)) from_responder) c.metrics in
    let t =
      feed_payload-Taken (record c { metrics = m }) (or_zero p.1.seq) p.0.ts (tcp_payload p)
        from_responder h l in
    record {
      same_flow = t.same_flow;
      same_server = t.same_server;
      next_stream = t.next_stream;
      more_data = t.more_data;
    }

-- Packets of the client: what is kept is what its stream gives out, and nothing is kept of the server.
pub packets_fed-outputs :
    (c : Conversation) (ps : List TcpPacket)
    → All (FromClient c.flow) ps
    → ((packets_fed c ps).client_data
        ≡ c.client_data ++ outputs c.reassembler.client (map arrival ps))
      × ((packets_fed c ps).server_data ≡ c.server_data)
unfolding outputs
packets_fed-outputs c [] h = (sym (append-nil c.client_data), refl)
packets_fed-outputs c (p ∷ ps) h =
    let c' = (feed c p).1 in
    let t = feed-Taken c p h.0 in
    let r =
      packets_fed-outputs c' ps (subst (λ flow. All (FromClient flow) ps) (sym t.same_flow) h.1) in
    let o = (stream_feed c.reassembler.client (or_zero p.1.seq) (tcp_payload p) p.0.ts).0.bytes in
    (
      r.0
          ∙ ap (λ (s : TcpStream). c'.client_data ++ outputs s (map arrival ps)) t.next_stream
          ∙ ap
              (λ (d : Bytes).
                d
                ++ outputs
                    (stream_feed c.reassembler.client (or_zero p.1.seq) (tcp_payload p) p.0.ts).1
                    (map arrival ps))
              t.more_data
          ∙ append_assoc c.client_data o _,
      r.1 ∙ t.same_server,
    )
