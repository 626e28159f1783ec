-- ===== src/Flows/Stream/Reorder.antt =====
-- The reorder buffer of a `TcpStream` between calls of `feed`.
use mathlib.Core.Path.{subst}
use mathlib.Core.List.{foldl}
use net_replay.Common.{
  ℕ, ◌+◌, ◌-◌, ◌≤◌, ◌<◌, ◌≡◌, Bool, true, false, ◌&&◌, Option, none, some, List, [], ◌∷◌, ◌++◌,
}
use net_replay.Common.{
  refl, sym, arith, ltb, inl, inr, Bool-cases, length, length-append, All, All-append,
}
use net_replay.Common.Sort.{length-sort_by, sort_by-All}
use net_replay.Flows.Serial.{seq_mod, seq_sub, seq_lt, seq_gt, seq_le, seq_add}
use net_replay.Flows.Stream.{
  TcpStream, Segment, end_seq, Sweep, drain_step, sweep, drain_sorted, drain_from, drain,
  by_distance, front_beyond, front_seq, place_behind, place, opened, deliver, feed, or_value,
  new_stream,
}

abbrev pub Fits : Segment → Type 0
Fits seg = seg.seq < seq_mod

-- Sequence numbers are below 2^32, and at most one segment waits.
pub record IsOrderly (st : TcpStream) : Type 0 where
  pub next_fits : or_value st.next 0 < seq_mod
  pub buffer_fits : All Fits st.buffer
  pub short : length st.buffer ≤ 1

end_seq-lt : (seg : Segment) → end_seq seg < seq_mod
unfolding end_seq seq_add
end_seq-lt seg = omega arith

-- A step of the loop keeps the order, and a segment that is not ahead is not kept.
record StepFacts (s : Sweep) (seg : Segment) : Type 0 where
  nxt : (drain_step s seg).nxt < seq_mod
  keep : All Fits (drain_step s seg).keep
  grows : length (drain_step s seg).keep ≤ length s.keep + 1
  taken : seq_le seg.seq s.nxt ≡ true → length (drain_step s seg).keep ≡ length s.keep

take_step :
    (s : Sweep) (seg : Segment) → seq_le seg.seq s.nxt ≡ true → (drain_step s seg).keep ≡ s.keep
unfolding drain_step
take_step s seg e = ground arith

keep_step :
    (s : Sweep) (seg : Segment)
    → seq_le seg.seq s.nxt ≡ false
    → drain_step s seg ≡ record s { keep = s.keep ++ seg ∷ [] }
unfolding drain_step
keep_step s seg e = ground arith

step-nxt : (s : Sweep) (seg : Segment) → s.nxt < seq_mod → (drain_step s seg).nxt < seq_mod
unfolding drain_step
step-nxt s seg h = ground (arith, end_seq-lt seg)

step_facts :
    (s : Sweep) (seg : Segment) → s.nxt < seq_mod → All Fits s.keep → Fits seg → StepFacts s seg
step_facts s seg hn hk hf = elim (Bool-cases (seq_le seg.seq s.nxt)) [
  | inl e ↦ record {
    nxt = step-nxt s seg hn;
    keep = rw (take_step s seg e) hk;
    grows = rw (take_step s seg e) (omega arith);
    taken = λ _. rw (take_step s seg e);
  }
  | inr e ↦ record {
    nxt = step-nxt s seg hn;
    keep = rw (keep_step s seg e) (All-append Fits s.keep (seg ∷ []) hk (hf, tt));
    grows = rw (keep_step s seg e) (omega (arith, length-append s.keep (seg ∷ [])));
    taken = λ h. cc;
  }
]

record FoldFacts (s : Sweep) (buffer : List Segment) : Type 0 where
  nxt : (foldl drain_step s buffer).nxt < seq_mod
  keep : All Fits (foldl drain_step s buffer).keep
  grows : length (foldl drain_step s buffer).keep ≤ length s.keep + length buffer

fold_facts :
    (s : Sweep) (buffer : List Segment)
    → s.nxt < seq_mod
    → All Fits s.keep
    → All Fits buffer
    → FoldFacts s buffer
fold_facts s [] hn hk hb = record { nxt = hn; keep = hk; grows = omega arith }
fold_facts s (seg ∷ rest) hn hk hb =
    let f = step_facts s seg hn hk hb.0 in
    let r = fold_facts (drain_step s seg) rest f.nxt f.keep hb.1 in
    record { nxt = r.nxt; keep = r.keep; grows = omega (arith, r.grows, f.grows) }

-- What a sweep leaves when the first segment of the buffer is not ahead.
record SweepFacts (buffer : List Segment) (out : List ℕ) (nxt : ℕ) : Type 0 where
  nxt_fits : (sweep buffer out nxt).nxt < seq_mod
  keep_fits : All Fits (sweep buffer out nxt).keep
  shrinks : length (sweep buffer out nxt).keep ≤ length buffer - 1

sweep_facts :
    (buffer : List Segment) (out : List ℕ) (nxt : ℕ)
    → nxt < seq_mod
    → All Fits buffer
    → seq_le (front_seq buffer nxt) nxt ≡ true
    → SweepFacts buffer out nxt
sweep_facts [] out nxt hn hb h = record { nxt_fits = hn; keep_fits = tt; shrinks = omega arith }
sweep_facts (seg ∷ rest) out nxt hn hb h =
    let s : Sweep = record { out = out; keep = []; nxt = nxt } in
    let f = step_facts s seg hn tt hb.0 in
    let r = fold_facts (drain_step s seg) rest f.nxt f.keep hb.1 in
    record { nxt_fits = r.nxt; keep_fits = r.keep; shrinks = omega (arith, r.grows, f.taken h) }

-- Not ahead of `nxt` is at or behind it.
seq_le_of_not_gt :
    (a nxt : ℕ) → a < seq_mod → nxt < seq_mod → seq_gt a nxt ≡ false → seq_le a nxt ≡ true
unfolding seq_gt seq_le
seq_le_of_not_gt a nxt ha hn h = ground arith

seq_le_self : (a : ℕ) → seq_le a a ≡ true
unfolding seq_le
seq_le_self a = ground arith

front_self :
    (buffer : List Segment) (nxt : ℕ)
    → seq_le (front_seq buffer (front_seq buffer nxt)) (front_seq buffer nxt) ≡ true
front_self [] nxt = seq_le_self nxt
front_self (seg ∷ rest) nxt = seq_le_self seg.seq

front-Fits :
    (buffer : List Segment) (nxt : ℕ)
    → nxt < seq_mod
    → All Fits buffer
    → front_seq buffer nxt < seq_mod
front-Fits [] nxt hn hb = hn
front-Fits (seg ∷ rest) nxt hn hb = hb.0

front_le :
    (buffer : List Segment) (nxt : ℕ)
    → nxt < seq_mod
    → All Fits buffer
    → front_beyond buffer nxt ≡ false
    → seq_le (front_seq buffer nxt) nxt ≡ true
front_le [] nxt hn hb h = seq_le_self nxt
front_le (seg ∷ rest) nxt hn hb h = seq_le_of_not_gt seg.seq nxt hb.0 hn h

drain_sorted-IsOrderly :
    (st : TcpStream) (buffer : List Segment) (nxt : ℕ) (out : List ℕ) (ts : ℕ)
    → or_value st.next 0 < seq_mod
    → nxt < seq_mod
    → All Fits buffer
    → length buffer ≤ 2
    → IsOrderly (drain_sorted st buffer nxt out ts).stream
unfolding drain_sorted
drain_sorted-IsOrderly st buffer nxt out ts hs hn hb h2 =
    elim (Bool-cases (front_beyond buffer nxt)) [
      | inl e ↦ rw e (elim (Bool-cases (ltb (length buffer) 2 && ltb (length buffer) 64)) [
        | inl w ↦ rw w (record { next_fits = hs; buffer_fits = hb; short = ground arith })
        | inr w ↦ rw w (
            let ff = front-Fits buffer nxt hn hb in
            let f = sweep_facts buffer out (front_seq buffer nxt) ff hb (front_self buffer nxt) in
            record {
              next_fits = f.nxt_fits;
              buffer_fits = f.keep_fits;
              short = omega (arith, f.shrinks);
            })
      ])
      | inr e ↦ rw e (
          let f = sweep_facts buffer out nxt hn hb (front_le buffer nxt hn hb e) in
          record {
            next_fits = f.nxt_fits;
            buffer_fits = f.keep_fits;
            short = omega (arith, f.shrinks);
          })
    ]

drain-IsOrderly :
    (st : TcpStream) (out : List ℕ) (ts nxt : ℕ)
    → st.next ≡ some nxt
    → nxt < seq_mod
    → All Fits st.buffer
    → length st.buffer ≤ 2
    → IsOrderly (drain st out ts).stream
unfolding drain_from
drain-IsOrderly st out ts nxt e hn hb h2 =
    subst (λ o. IsOrderly (drain_from st out ts o).stream) (sym e)
      (drain_sorted-IsOrderly st (by_distance nxt st.buffer) nxt out ts (rw e hn) hn
        (sort_by-All _ Fits st.buffer hb)
        (omega (arith, length-sort_by (λ (s : Segment). seq_sub s.seq nxt) st.buffer)))

place_behind-IsOrderly :
    (st : TcpStream) (seg : Segment) (over : ℕ) (suffix : List ℕ)
    → IsOrderly st
    → IsOrderly (place_behind st seg over suffix).stream
unfolding place_behind
place_behind-IsOrderly st seg over [] h = record {
  next_fits = h.next_fits;
  buffer_fits = h.buffer_fits;
  short = h.short;
}
place_behind-IsOrderly st seg over (b ∷ bs) h = record {
  next_fits = end_seq-lt seg;
  buffer_fits = h.buffer_fits;
  short = h.short;
}

place-IsOrderly :
    (st : TcpStream) (seg : Segment) (nxt : ℕ)
    → IsOrderly st
    → st.next ≡ some nxt
    → nxt < seq_mod
    → Fits seg
    → IsOrderly (place st seg nxt).stream
unfolding place
place-IsOrderly st seg nxt h e hn hf = elim (Bool-cases (seq_lt seg.seq nxt)) [
  | inl l ↦ rw l (place_behind-IsOrderly st seg _ _ h)
  | inr l ↦ rw l (elim (Bool-cases (seq_gt seg.seq nxt)) [
    | inl g ↦ rw g (
        drain-IsOrderly (record st { buffer = st.buffer ++ seg ∷ [] }) [] seg.ts nxt e hn
          (All-append Fits st.buffer (seg ∷ []) h.buffer_fits (hf, tt))
          (omega (arith, length-append st.buffer (seg ∷ []), h.short)))
    | inr g ↦ rw g (
        drain-IsOrderly (record st { next = some (end_seq seg) }) seg.payload seg.ts (end_seq seg)
          refl (end_seq-lt seg) h.buffer_fits (omega (arith, h.short)))
  ])
]

or_value_lt :
    (o : Option ℕ) (seq : ℕ) → or_value o 0 < seq_mod → seq < seq_mod → or_value o seq < seq_mod
or_value_lt none seq h k = k
or_value_lt (some x) seq h k = h

-- Feeding any segment whose sequence number is below 2^32 keeps the numbers in range and
-- leaves at most one segment waiting.
pub feed-IsOrderly :
    (st : TcpStream) (seq : ℕ) (payload : List ℕ) (ts : ℕ)
    → IsOrderly st
    → seq < seq_mod
    → IsOrderly (feed st seq payload ts).1
unfolding feed deliver
feed-IsOrderly st seq [] ts h k = record {
  next_fits = h.next_fits;
  buffer_fits = h.buffer_fits;
  short = h.short;
}
feed-IsOrderly st seq (b ∷ bs) ts h k =
    let v = or_value_lt st.next seq h.next_fits k in
    let p =
      place-IsOrderly (opened st seq) (record { seq = seq; payload = b ∷ bs; ts = ts })
        (or_value st.next seq)
        (unfold opened in record { next_fits = v; buffer_fits = h.buffer_fits; short = h.short })
        (unfold opened in refl) v k in
    record { next_fits = p.next_fits; buffer_fits = p.buffer_fits; short = p.short }

-- A segment as the capture delivers it: its sequence number, bytes and time.
abbrev pub Arrival : Type 0
Arrival = ℕ × List ℕ × ℕ

-- The stream after a sequence of segments.
unfoldable pub feeds : TcpStream → List Arrival → TcpStream
feeds st [] = st
feeds st ((seq, payload, ts) ∷ rest) = feeds (feed st seq payload ts).1 rest

feeds-IsOrderly :
    (st : TcpStream) (arrivals : List Arrival)
    → IsOrderly st
    → All (λ a. a.0 < seq_mod) arrivals
    → IsOrderly (feeds st arrivals)
unfolding feeds
feeds-IsOrderly st [] h k = h
feeds-IsOrderly st ((seq, payload, ts) ∷ rest) h k =
    feeds-IsOrderly (feed st seq payload ts).1 rest (feed-IsOrderly st seq payload ts h k.0) k.1

-- Whatever segments arrive, with sequence numbers below 2^32 and from a new stream, the reorder
-- buffer never holds more than one of them after a call of `feed`.
pub feeds-buffer :
    (side : Bool) (base : Option ℕ) (arrivals : List Arrival)
    → All (λ a. a.0 < seq_mod) arrivals
    → length (feeds (new_stream side base) arrivals).buffer ≤ 1
feeds-buffer side base arrivals h =
    (feeds-IsOrderly (new_stream side base) arrivals
      (record { next_fits = omega arith; buffer_fits = tt; short = omega arith }) h).short
