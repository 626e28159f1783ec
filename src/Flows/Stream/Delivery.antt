-- ===== src/Flows/Stream/Delivery.antt =====
-- The bytes that a `TcpStream` delivers for segments in order and for two that arrive swapped.
use mathlib.Core.Path.{ap₂}
use net_replay.Common.{ℕ, ◌+◌, ◌<◌, ◌≡◌, true, false, some, List, [], ◌∷◌, ◌++◌}
use net_replay.Common.{refl, ◌∙◌, arith, length}
use net_replay.Common.Sort.{sort_by}
use net_replay.Flows.Serial.{seq_mod, seq_sub, seq_lt, seq_gt, seq_le, seq_ge, seq_add}
use net_replay.Flows.Stream.{
  TcpStream, Segment, StreamOutput, end_seq, drain_sorted, drain_from, place, opened, deliver, feed,
  or_value, flush, flush_step, gap, unfilled,
}
use net_replay.Flows.Stream.Reorder.{Arrival, feeds}

-- The bytes of all the outputs, one after the other.
unfoldable pub outputs : TcpStream → List Arrival → List ℕ
outputs st [] = []
outputs st ((seq, payload, ts) ∷ rest) =
    (feed st seq payload ts).0.bytes ++ outputs (feed st seq payload ts).1 rest

-- Segments that carry the chunks one after the other, from a sequence number on, each chunk with its time.
unfoldable pub consecutive : ℕ → List (List ℕ × ℕ) → List Arrival
consecutive n [] = []
consecutive n ((chunk, ts) ∷ chunks) =
    (n, chunk, ts) ∷ consecutive (seq_add n (length chunk)) chunks

abbrev pub chunk_bytes : List (List ℕ × ℕ) → List ℕ
chunk_bytes [] = []
chunk_bytes ((chunk, ts) ∷ chunks) = chunk ++ chunk_bytes chunks

-- A stream that waits for `n` with nothing buffered.
pub record Expects (n : ℕ) (st : TcpStream) : Type 0 where
  pub next_is : or_value st.next n ≡ n
  pub buffer_is : st.buffer ≡ []

record Accepted (st : TcpStream) (n : ℕ) (payload : List ℕ) (ts : ℕ) : Type 0 where
  bytes_are : (feed st n payload ts).0.bytes ≡ payload
  issues_are : (feed st n payload ts).1.issues ≡ st.issues
  then_expects : Expects (seq_add n (length payload)) (feed st n payload ts).1

seq_irrefl : (n : ℕ) → (seq_lt n n ≡ false) × (seq_gt n n ≡ false)
unfolding seq_lt seq_gt
seq_irrefl n = ground arith

seq_add_zero : (n : ℕ) → n < seq_mod → seq_add n 0 ≡ n
unfolding seq_add
seq_add_zero n h = omega arith

seq_add-lt : (n d : ℕ) → seq_add n d < seq_mod
unfolding seq_add
seq_add-lt n d = omega arith

accept :
    (st : TcpStream) (n : ℕ) (payload : List ℕ) (ts : ℕ)
    → n < seq_mod
    → Expects n st
    → Accepted st n payload ts
unfolding feed place deliver opened drain_from drain_sorted sort_by end_seq
accept st n [] ts hn h = record {
  bytes_are = refl;
  issues_are = refl;
  then_expects = record { next_is = rw (seq_add_zero n hn) h.next_is; buffer_is = h.buffer_is };
}
accept st n (b ∷ bs) ts hn h = record {
  bytes_are = rw (h.next_is, (seq_irrefl n).0, (seq_irrefl n).1, h.buffer_is);
  issues_are = rw (h.next_is, (seq_irrefl n).0, (seq_irrefl n).1, h.buffer_is);
  then_expects =
      rw (h.next_is, (seq_irrefl n).0, (seq_irrefl n).1, h.buffer_is)
        (record { next_is = refl; buffer_is = refl });
}

-- Chunks that arrive one after the other, from the number that the stream waits for (any below 2^32, so also
-- across the wrap), come out as they are, and no issue is recorded.
pub outputs-consecutive :
    (st : TcpStream) (n : ℕ) (chunks : List (List ℕ × ℕ))
    → n < seq_mod
    → Expects n st
    → (outputs st (consecutive n chunks) ≡ chunk_bytes chunks)
      × ((feeds st (consecutive n chunks)).issues ≡ st.issues)
unfolding outputs consecutive feeds
outputs-consecutive st n [] hn h = (refl, refl)
outputs-consecutive st n ((chunk, ts) ∷ chunks) hn h =
    let a = accept st n chunk ts hn h in
    let r =
      outputs-consecutive (feed st n chunk ts).1 (seq_add n (length chunk)) chunks
        (seq_add-lt n (length chunk)) a.then_expects in
    (ap₂ ◌++◌ a.bytes_are r.0, r.1 ∙ a.issues_are)

-- The tests that the two calls make on the number `s` of the later segment of `b` bytes.
record SwapTests (n s b : ℕ) : Type 0 where
  ahead : (seq_lt s n ≡ false) × (seq_gt s n ≡ true)
  not_behind : seq_gt s s ≡ false
  at_next : seq_le s s ≡ true
  new : seq_gt (seq_add s b) s ≡ true
  no_skip : seq_sub s s ≡ 0

-- The stream holds back one segment and waits for `n`.
record Holds (n : ℕ) (seg : Segment) (st : TcpStream) : Type 0 where
  next_is : st.next ≡ some n
  buffer_is : st.buffer ≡ seg ∷ []

module _ (st : TcpStream) (n ts : ℕ) (x y : ℕ) (xs ys : List ℕ) where
  abbrev later : StreamOutput × TcpStream
  later = feed st (seq_add n (length (x ∷ xs))) (y ∷ ys) ts

  abbrev earlier : StreamOutput × TcpStream
  earlier = feed later.1 n (x ∷ xs) ts

-- What `flush` leaves of a stream that waits for `n` and holds one segment ahead of it.
pub record FlushesGap (st : TcpStream) (n : ℕ) (seg : Segment) : Type 0 where
  pub bytes_are : (flush st).0.bytes ≡ seg.payload
  pub issue_is :
      (flush st).0.issue
      ≡ some (record { kind = gap; at_seq = n; ts = seg.ts; detail = unfilled (seq_sub seg.seq n) })
  pub next_is : (flush st).1.next ≡ some (end_seq seg)
  pub buffer_is : (flush st).1.buffer ≡ []
  pub gaps_are : (flush st).1.gaps ≡ st.gaps + 1

seq_sub_self : (a : ℕ) → seq_sub a a ≡ 0
seq_sub_self a = omega arith

seq_ge_end : (a d : ℕ) → a < seq_mod → d < 0x80000000 → seq_ge (seq_add a d) a ≡ true
unfolding seq_ge seq_add
seq_ge_end a d h k = ground arith

-- At the end of a capture a segment that waits beyond a hole, shorter than 2^31 bytes, is delivered
-- whole; the hole is counted and reported as a gap, and nothing is left waiting.
pub flush_waiting :
    (st : TcpStream) (n : ℕ) (seg : Segment)
    → st.next ≡ some n
    → st.buffer ≡ seg ∷ []
    → seg.seq < seq_mod
    → seq_gt seg.seq n ≡ true
    → length seg.payload < 0x80000000
    → FlushesGap st n seg
unfolding flush flush_step sort_by end_seq
flush_waiting st n seg hs hb hf hg hl =
    let e = seq_ge_end seg.seq (length seg.payload) hf hl in
    let z = seq_sub_self seg.seq in
    record {
      bytes_are = rw (hb, hs, hg, e, z);
      issue_is = rw (hb, hs, hg, e);
      next_is = rw (hb, hs, hg, e);
      buffer_is = rw hb;
      gaps_are = rw (hb, hs, hg, e);
    }
