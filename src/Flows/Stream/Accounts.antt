-- ===== src/Flows/Stream/Accounts.antt =====
-- The counters of a `TcpStream` against its issues, and the bytes that go in and out.
use net_replay.Common.{ℕ, ◌+◌, ◌≡◌, inl, inr, Bool, Option, none, some, List, [], ◌∷◌, ◌++◌}
use net_replay.Common.{refl, ap, arith, Bool-cases, length, length-append}
use net_replay.Flows.Serial.{seq_lt, seq_gt}
use net_replay.Flows.Stream.{
  TcpStream, Segment, ReassemblyIssue, end_seq, Drained, drain_sorted, drain_from, place_behind,
  place, opened, deliver, feed, with_issue, new_stream,
}
use net_replay.Flows.Stream.Reorder.{Arrival, feeds}

abbrev pub findings : TcpStream → ℕ
findings st = st.gaps + st.retransmissions + st.overlaps

abbrev issue_count : Option ReassemblyIssue → ℕ
issue_count none = 0
issue_count (some i) = 1

-- The three counters together count the recorded issues.
abbrev pub IsCounted : TcpStream → Type 0
IsCounted st = findings st ≡ length st.issues

-- What a branch of `feed` does to the counters before the issue is recorded.
record Counts (st : TcpStream) (d : Drained) : Type 0 where
  counted : findings d.stream ≡ findings st + issue_count d.issue
  issues : d.stream.issues ≡ st.issues

drain-Counts :
    (st : TcpStream) (out : List ℕ) (ts : ℕ) (o : Option ℕ) → Counts st (drain_from st out ts o)
unfolding drain_from drain_sorted
drain-Counts st out ts none = record { counted = omega arith; issues = refl }
drain-Counts st out ts (some nxt) = record { counted = ground arith; issues = ground arith }

place_behind-Counts :
    (st : TcpStream) (seg : Segment) (over : ℕ) (suffix : List ℕ)
    → Counts st (place_behind st seg over suffix)
unfolding place_behind
place_behind-Counts st seg over [] = record { counted = omega arith; issues = refl }
place_behind-Counts st seg over (b ∷ bs) = record { counted = omega arith; issues = refl }

place-Counts : (st : TcpStream) (seg : Segment) (nxt : ℕ) → Counts st (place st seg nxt)
unfolding place
place-Counts st seg nxt = elim (Bool-cases (seq_lt seg.seq nxt)) [
  | inl l ↦ rw l (place_behind-Counts st seg _ _)
  | inr l ↦ rw l (elim (Bool-cases (seq_gt seg.seq nxt)) [
    | inl g ↦ rw g (
        let d = drain-Counts (record st { buffer = st.buffer ++ seg ∷ [] }) [] seg.ts st.next in
        record { counted = d.counted; issues = d.issues })
    | inr g ↦ rw g (
        let d =
          drain-Counts (record st { next = some (end_seq seg) }) seg.payload seg.ts
            (some (end_seq seg)) in
        record { counted = d.counted; issues = d.issues })
  ])
]

length-with_issue :
    (is : List ReassemblyIssue) (o : Option ReassemblyIssue)
    → length (with_issue is o) ≡ length is + issue_count o
length-with_issue is none = omega arith
length-with_issue is (some i) = omega (arith, length-append is (i ∷ []))

deliver-IsCounted :
    (st : TcpStream) (d : Drained) → IsCounted st → Counts st d → IsCounted (deliver d).1
unfolding deliver
deliver-IsCounted st d h c = omega (
  arith,
  length-with_issue d.stream.issues d.issue,
  ap (length {A = ReassemblyIssue}) c.issues,
  c.counted,
)

feed-IsCounted :
    (st : TcpStream) (seq : ℕ) (payload : List ℕ) (ts : ℕ)
    → IsCounted st
    → IsCounted (feed st seq payload ts).1
unfolding feed
feed-IsCounted st seq [] ts h = h
feed-IsCounted st seq (b ∷ bs) ts h =
    deliver-IsCounted (opened st seq) _ (unfold opened in h)
      (place-Counts (opened st seq) (record { seq = seq; payload = b ∷ bs; ts = ts }) _)

feeds-IsCounted :
    (st : TcpStream) (arrivals : List Arrival) → IsCounted st → IsCounted (feeds st arrivals)
unfolding feeds
feeds-IsCounted st [] h = h
feeds-IsCounted st ((seq, payload, ts) ∷ rest) h =
    feeds-IsCounted (feed st seq payload ts).1 rest (feed-IsCounted st seq payload ts h)

-- Whatever segments a new stream is fed, its gap, retransmission and overlap counters add up to
-- the number of issues that it has recorded.
pub feeds-new_stream-IsCounted :
    (side : Bool) (base : Option ℕ) (arrivals : List Arrival)
    → IsCounted (feeds (new_stream side base) arrivals)
feeds-new_stream-IsCounted side base arrivals =
    feeds-IsCounted (new_stream side base) arrivals (omega arith)
