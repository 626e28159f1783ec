-- ===== src/Flows/Stream.antt =====
-- netreplay/core/flows/reassembly.py: one direction of a TCP connection (`TcpStream`) and the pair
-- (`TcpReassembler`). A method returns its result and the new state; a `for` loop is a fold of its
-- body over a record of the loop's variables. Times are microseconds, and the `detail` text of an
-- issue is the data that its f-string prints.
pub mod Reorder
pub mod Delivery
pub mod Accounts
pub mod Bytes
use mathlib.Core.List.{foldl}
use net_replay.Common.{ℕ, ◌+◌, Bool, true, false, ◌&&◌, Option, none, some, List, [], ◌∷◌, ◌++◌}
use net_replay.Common.{ltb, if◌then◌else◌, length, drop}
use net_replay.Common.Sort.{sort_by}
use net_replay.Flows.Serial.{seq_sub, seq_lt, seq_gt, seq_le, seq_ge, seq_add}

-- `_REORDER_LIMIT`
abbrev pub reorder_limit : ℕ
reorder_limit = 64

pub record Segment : Type 0 where
  pub seq : ℕ
  pub payload : List ℕ
  pub ts : ℕ

unfoldable pub end_seq : Segment → ℕ
end_seq seg = seq_add seg.seq (length seg.payload)

pub data Kind : Type 0 where
  gap overlap retransmission : Kind

-- The numbers that the `detail` texts print.
pub data Detail : Type 0 where
  retransmitted : ℕ → ℕ → Detail
  overlap_of : ℕ → ℕ → Detail
  missing : ℕ → Detail
  unfilled : ℕ → Detail

pub record ReassemblyIssue : Type 0 where
  pub kind : Kind
  pub at_seq : ℕ
  pub ts : ℕ
  pub detail : Detail

pub record StreamOutput : Type 0 where
  pub bytes : List ℕ
  pub issue : Option ReassemblyIssue
  pub synced : Bool

-- `StreamOutput()`
abbrev pub no_output : StreamOutput
no_output = record { bytes = []; issue = none; synced = false }

pub record TcpStream : Type 0 where
  pub initiator_side : Bool
  pub base : Option ℕ
  pub next : Option ℕ
  pub buffer : List Segment
  pub syned : Bool
  pub issues : List ReassemblyIssue
  pub bytes_written : ℕ
  pub segments : ℕ
  pub gaps : ℕ
  pub retransmissions : ℕ
  pub overlaps : ℕ

-- `TcpStream.__init__`
abbrev pub new_stream : Bool → Option ℕ → TcpStream
new_stream side base = record {
  initiator_side = side;
  base = base;
  next = none;
  buffer = [];
  syned = false;
  issues = [];
  bytes_written = 0;
  segments = 0;
  gaps = 0;
  retransmissions = 0;
  overlaps = 0;
}

abbrev pub or_value : Option ℕ → ℕ → ℕ
or_value none d = d
or_value (some x) d = x

-- `if issue is not None: self._issues.append(issue)`
abbrev pub with_issue : List ReassemblyIssue → Option ReassemblyIssue → List ReassemblyIssue
with_issue is none = is
with_issue is (some i) = is ++ i ∷ []

-- The variables of the loop of `_drain`.
pub record Sweep : Type 0 where
  pub out : List ℕ
  pub keep : List Segment
  pub nxt : ℕ

-- The body of that loop.
unfoldable pub drain_step : Sweep → Segment → Sweep
drain_step s seg =
    if seq_le seg.seq s.nxt
    then if seq_gt (end_seq seg) s.nxt
      then record s { out = s.out ++ drop (seq_sub s.nxt seg.seq) seg.payload; nxt = end_seq seg }
      else s
    else record s { keep = s.keep ++ seg ∷ [] }

abbrev pub sweep : List Segment → List ℕ → ℕ → Sweep
sweep buffer out nxt = foldl drain_step (record { out = out; keep = []; nxt = nxt }) buffer

abbrev pub front_beyond : List Segment → ℕ → Bool
front_beyond [] nxt = false
front_beyond (seg ∷ rest) nxt = seq_gt seg.seq nxt

abbrev pub front_seq : List Segment → ℕ → ℕ
front_seq [] nxt = nxt
front_seq (seg ∷ rest) nxt = seg.seq

abbrev pub by_distance : ℕ → List Segment → List Segment
by_distance nxt buffer = sort_by (λ s. seq_sub s.seq nxt) buffer

-- What `_drain` leaves: the output, the issue and the stream.
pub record Drained : Type 0 where
  pub out : List ℕ
  pub issue : Option ReassemblyIssue
  pub stream : TcpStream

abbrev drain_end : TcpStream → List Segment → ℕ → List ℕ → Option ReassemblyIssue → Drained
drain_end st buffer nxt out issue =
    let s = sweep buffer out nxt in
    record { out = s.out; issue = issue; stream = record st { next = some s.nxt; buffer = s.keep } }

-- `_drain` with `self._next` known and the buffer sorted.
unfoldable pub drain_sorted : TcpStream → List Segment → ℕ → List ℕ → ℕ → Drained
drain_sorted st buffer nxt out ts =
    if front_beyond buffer nxt
    then if ltb (length buffer) 2 && ltb (length buffer) reorder_limit
      then record { out = out; issue = none; stream = record st { buffer = buffer } }
      else drain_end (record st { gaps = st.gaps + 1 }) buffer (front_seq buffer nxt) out
          (some (record {
            kind = gap;
            at_seq = nxt;
            ts = ts;
            detail = missing (seq_sub (front_seq buffer nxt) nxt);
          }))
    else drain_end st buffer nxt out none

-- `if self._next is None: return None`, and the sort.
unfoldable pub drain_from : TcpStream → List ℕ → ℕ → Option ℕ → Drained
drain_from st out ts none = record { out = out; issue = none; stream = st }
drain_from st out ts (some nxt) = drain_sorted st (by_distance nxt st.buffer) nxt out ts

abbrev pub drain : TcpStream → List ℕ → ℕ → Drained
drain st out ts = drain_from st out ts st.next

-- `seq_lt(seq, self._next)`: nothing new, or a new suffix.
unfoldable pub place_behind : TcpStream → Segment → ℕ → List ℕ → Drained
place_behind st seg over [] = record {
  out = [];
  issue = some (record {
    kind = retransmission;
    at_seq = seg.seq;
    ts = seg.ts;
    detail = retransmitted (length seg.payload) seg.seq;
  });
  stream = record st { retransmissions = st.retransmissions + 1 };
}
place_behind st seg over (b ∷ bs) = record {
  out = b ∷ bs;
  issue = some (record {
    kind = overlap;
    at_seq = seg.seq;
    ts = seg.ts;
    detail = overlap_of over (length (b ∷ bs));
  });
  stream = record st { overlaps = st.overlaps + 1; next = some (end_seq seg) };
}

-- The branches of `feed` on the position of the segment.
unfoldable pub place : TcpStream → Segment → ℕ → Drained
place st seg nxt =
    if seq_lt seg.seq nxt
    then place_behind st seg (seq_sub nxt seg.seq) (drop (seq_sub nxt seg.seq) seg.payload)
    else if seq_gt seg.seq nxt
    then drain (record st { buffer = st.buffer ++ seg ∷ [] }) [] seg.ts
    else drain (record st { next = some (end_seq seg) }) seg.payload seg.ts

-- The end of `feed`: the counters, the list of issues and the result.
unfoldable pub deliver : Drained → StreamOutput × TcpStream
deliver d = (
  record { bytes = d.out; issue = d.issue; synced = d.stream.syned },
  record (d.stream) {
    bytes_written = d.stream.bytes_written + length d.out;
    issues = with_issue d.stream.issues d.issue;
  },
)

-- The bookkeeping of `feed` before the segment is placed.
unfoldable pub opened : TcpStream → ℕ → TcpStream
opened st seq = record st {
  syned = true;
  base = some (or_value st.base seq);
  next = some (or_value st.next seq);
  segments = st.segments + 1;
}

unfoldable pub feed : TcpStream → ℕ → List ℕ → ℕ → StreamOutput × TcpStream
feed st seq [] ts = (no_output, record st { base = some (or_value st.base seq) })
feed st seq (b ∷ bs) ts =
    deliver (
      place (opened st seq) (record { seq = seq; payload = b ∷ bs; ts = ts })
        (or_value st.next seq))

-- The variables of the loop of `flush`.
pub record FlushLoop : Type 0 where
  pub out : List ℕ
  pub nxt : ℕ
  pub gaps : ℕ
  pub issue : Option ReassemblyIssue

abbrev flush_gap : FlushLoop → Segment → FlushLoop
flush_gap s seg =
    if seq_gt seg.seq s.nxt
    then record s {
      issue = some (record {
        kind = gap;
        at_seq = s.nxt;
        ts = seg.ts;
        detail = unfilled (seq_sub seg.seq s.nxt);
      });
      gaps = s.gaps + 1;
      nxt = seg.seq;
    }
    else s

-- The body of that loop.
unfoldable pub flush_step : FlushLoop → Segment → FlushLoop
flush_step s seg =
    let g = flush_gap s seg in
    if seq_ge (end_seq seg) g.nxt
    then record g { out = g.out ++ drop (seq_sub g.nxt seg.seq) seg.payload; nxt = end_seq seg }
    else g

unfoldable pub flush : TcpStream → StreamOutput × TcpStream
flush st = elim st.buffer [
  | [] ↦ (no_output, st)
  | seg ∷ rest ↦
      let nxt = or_value st.next seg.seq in
      let s =
        foldl flush_step (record { out = []; nxt = nxt; gaps = st.gaps; issue = none })
          (by_distance nxt (seg ∷ rest)) in
      (
        record { bytes = s.out; issue = s.issue; synced = false },
        record st {
          next = some s.nxt;
          buffer = [];
          gaps = s.gaps;
          bytes_written = st.bytes_written + length s.out;
          issues = with_issue st.issues s.issue;
        },
      )
]

-- `TcpReassembler`: the two directions.
pub record TcpReassembler : Type 0 where
  pub client : TcpStream
  pub server : TcpStream

abbrev pub new_reassembler : Option ℕ → Option ℕ → TcpReassembler
new_reassembler c s = record { client = new_stream true c; server = new_stream false s }

unfoldable pub feed_client : TcpReassembler → ℕ → List ℕ → ℕ → StreamOutput × TcpReassembler
feed_client r seq payload ts =
    let (o, c) = feed r.client seq payload ts in (o, record r { client = c })

unfoldable pub feed_server : TcpReassembler → ℕ → List ℕ → ℕ → StreamOutput × TcpReassembler
feed_server r seq payload ts =
    let (o, s) = feed r.server seq payload ts in (o, record r { server = s })

unfoldable pub flush_reassembler : TcpReassembler → (StreamOutput × StreamOutput) × TcpReassembler
flush_reassembler r =
    let (o, c) = flush r.client in
    let (p, s) = flush r.server in ((o, p), record r { client = c; server = s })
