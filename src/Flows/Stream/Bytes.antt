-- ===== src/Flows/Stream/Bytes.antt =====
-- The bytes that go into a `TcpStream` and come out of it.
use mathlib.Core.List.{foldl}
use net_replay.Common.{ℕ, ◌+◌, ◌≤◌, ◌≡◌, inl, inr, ◌&&◌, Option, none, some, List, [], ◌∷◌, ◌++◌}
use net_replay.Common.{
  sum_of, sum_of-append, refl, arith, ltb, Bool-cases, length, length-append, length-drop, drop,
}
use net_replay.Common.Sort.{sort_by-sum}
use net_replay.Flows.Serial.{seq_sub, seq_lt, seq_gt}
use net_replay.Flows.Stream.{
  TcpStream, Segment, end_seq, Sweep, drain_step, drain_sorted, drain_from, by_distance,
  front_beyond, front_seq, place_behind, place, opened, deliver, feed, or_value,
}
use net_replay.Flows.Stream.Reorder.{Arrival, feeds}
use net_replay.Flows.Stream.Delivery.{outputs}

abbrev pub waiting : List Segment → ℕ
waiting = sum_of (λ s. length s.payload)

waiting-append : (xs ys : List Segment) → waiting (xs ++ ys) ≡ waiting xs + waiting ys
waiting-append = sum_of-append (λ s. length s.payload)

sweep_step :
    (s : Sweep) (seg : Segment)
    → length (drain_step s seg).out + waiting (drain_step s seg).keep
      ≤ length s.out + waiting s.keep + length seg.payload
unfolding drain_step
sweep_step s seg = ground (
  arith,
  length-append s.out (drop (seq_sub s.nxt seg.seq) seg.payload),
  length-drop (seq_sub s.nxt seg.seq) seg.payload,
  waiting-append s.keep (seg ∷ []),
)

sweep_bytes :
    (s : Sweep) (buffer : List Segment)
    → length (foldl drain_step s buffer).out + waiting (foldl drain_step s buffer).keep
      ≤ length s.out + waiting s.keep + waiting buffer
sweep_bytes s [] = omega arith
sweep_bytes s (seg ∷ rest) = omega (arith, sweep_step s seg, sweep_bytes (drain_step s seg) rest)

drain_sorted-bytes :
    (st : TcpStream) (buffer : List Segment) (nxt : ℕ) (out : List ℕ) (ts : ℕ)
    → length (drain_sorted st buffer nxt out ts).out
        + waiting (drain_sorted st buffer nxt out ts).stream.buffer
      ≤ length out + waiting buffer
unfolding drain_sorted
drain_sorted-bytes st buffer nxt out ts = elim (Bool-cases (front_beyond buffer nxt)) [
  | inl e ↦ rw e (elim (Bool-cases (ltb (length buffer) 2 && ltb (length buffer) 64)) [
    | inl w ↦ rw w (omega arith)
    | inr w ↦ rw w (
        omega
          (arith, sweep_bytes (record { out = out; keep = []; nxt = front_seq buffer nxt }) buffer))
  ])
  | inr e ↦ rw e (omega (arith, sweep_bytes (record { out = out; keep = []; nxt = nxt }) buffer))
]

drain-bytes :
    (st : TcpStream) (out : List ℕ) (ts : ℕ) (o : Option ℕ)
    → length (drain_from st out ts o).out + waiting (drain_from st out ts o).stream.buffer
      ≤ length out + waiting st.buffer
unfolding drain_from
drain-bytes st out ts none = omega arith
drain-bytes st out ts (some nxt) = omega (
  arith,
  drain_sorted-bytes st (by_distance nxt st.buffer) nxt out ts,
  sort_by-sum (λ (s : Segment). seq_sub s.seq nxt) (λ s. length s.payload) st.buffer,
)

place_behind-bytes :
    (st : TcpStream) (seg : Segment) (over : ℕ) (suffix : List ℕ)
    → length (place_behind st seg over suffix).out
        + waiting (place_behind st seg over suffix).stream.buffer
      ≡ length suffix + waiting st.buffer
unfolding place_behind
place_behind-bytes st seg over [] = refl
place_behind-bytes st seg over (b ∷ bs) = refl

place-bytes :
    (st : TcpStream) (seg : Segment) (nxt : ℕ)
    → length (place st seg nxt).out + waiting (place st seg nxt).stream.buffer
      ≤ length seg.payload + waiting st.buffer
unfolding place
place-bytes st seg nxt = elim (Bool-cases (seq_lt seg.seq nxt)) [
  | inl l ↦ rw l (
      omega (
        arith,
        place_behind-bytes st seg (seq_sub nxt seg.seq) (drop (seq_sub nxt seg.seq) seg.payload),
        length-drop (seq_sub nxt seg.seq) seg.payload,
      ))
  | inr l ↦ rw l (elim (Bool-cases (seq_gt seg.seq nxt)) [
    | inl g ↦ rw g (
        omega (
          arith,
          drain-bytes (record st { buffer = st.buffer ++ seg ∷ [] }) [] seg.ts st.next,
          waiting-append st.buffer (seg ∷ []),
        ))
    | inr g ↦ rw g (
        drain-bytes (record st { next = some (end_seq seg) }) seg.payload seg.ts
          (some (end_seq seg)))
  ])
]

drain-written :
    (st : TcpStream) (out : List ℕ) (ts : ℕ) (o : Option ℕ)
    → (drain_from st out ts o).stream.bytes_written ≡ st.bytes_written
unfolding drain_from drain_sorted
drain-written st out ts none = refl
drain-written st out ts (some nxt) = ground arith

place_behind-written :
    (st : TcpStream) (seg : Segment) (over : ℕ) (suffix : List ℕ)
    → (place_behind st seg over suffix).stream.bytes_written ≡ st.bytes_written
unfolding place_behind
place_behind-written st seg over [] = refl
place_behind-written st seg over (b ∷ bs) = refl

place-written :
    (st : TcpStream) (seg : Segment) (nxt : ℕ)
    → (place st seg nxt).stream.bytes_written ≡ st.bytes_written
unfolding place
place-written st seg nxt = elim (Bool-cases (seq_lt seg.seq nxt)) [
  | inl l ↦ rw l (place_behind-written st seg _ _)
  | inr l ↦ rw l (elim (Bool-cases (seq_gt seg.seq nxt)) [
    | inl g ↦ rw g (drain-written (record st { buffer = st.buffer ++ seg ∷ [] }) [] seg.ts st.next)
    | inr g ↦ rw g (
        drain-written (record st { next = some (end_seq seg) }) seg.payload seg.ts
          (some (end_seq seg)))
  ])
]

-- The bytes that the segments carry.
abbrev pub carried : List Arrival → ℕ
carried = sum_of (λ a. length a.1)

pub feed-bytes :
    (st : TcpStream) (seq : ℕ) (payload : List ℕ) (ts : ℕ)
    → ((feed st seq payload ts).1.bytes_written
        ≡ st.bytes_written + length (feed st seq payload ts).0.bytes)
      × ((feed st seq payload ts).1.bytes_written + waiting (feed st seq payload ts).1.buffer
          ≤ st.bytes_written + waiting st.buffer + length payload)
unfolding feed deliver opened
feed-bytes st seq [] ts = omega arith
feed-bytes st seq (b ∷ bs) ts =
    let seg : Segment = record { seq = seq; payload = b ∷ bs; ts = ts } in
    let n = or_value st.next seq in
    let w : (place (opened st seq) seg n).stream.bytes_written ≡ st.bytes_written =
      place-written (opened st seq) seg n in
    omega (arith, w, place-bytes (opened st seq) seg n)

-- For any segments, `bytes_written` grows by exactly the number of bytes that `feed` returned, and with the bytes that
-- still wait in the buffer it never passes what it was, with what waited, and the bytes that the segments carried.
pub feeds-bytes :
    (st : TcpStream) (arrivals : List Arrival)
    → ((feeds st arrivals).bytes_written ≡ st.bytes_written + length (outputs st arrivals))
      × ((feeds st arrivals).bytes_written + waiting (feeds st arrivals).buffer
          ≤ st.bytes_written + waiting st.buffer + carried arrivals)
unfolding feeds outputs
feeds-bytes st [] = omega arith
feeds-bytes st ((seq, payload, ts) ∷ rest) = omega (
  arith,
  feed-bytes st seq payload ts,
  feeds-bytes (feed st seq payload ts).1 rest,
  length-append (feed st seq payload ts).0.bytes (outputs (feed st seq payload ts).1 rest),
)
