-- ===== src/Protocols/TlsStream/Cuts.antt =====
-- `TlsStreamParser.feed` of netreplay/core/protocols/streams.py on streams of whole records, cut into any calls.
use mathlib.Core.List.{flatten}
use net_replay.Common.{
  ℕ, ◌+◌, ◌*◌, ◌/◌, ◌%◌, ◌≤◌, ◌<◌, ◌≡◌, refl, ap, ◌∙◌, true, none, some, List, [], ◌∷◌, ◌++◌,
  length, arith, All, map, length-append, drop,
}
use net_replay.Replay.Bytes.{
  Bytes, byte, slice, from_bytes, be16, two_bytes, slice_payload, drop_payload,
}
use net_replay.Protocols.Framing.{feeds, decoded, Decodes, parse-encoded_stop, feeds-parse}
use net_replay.Protocols.TlsHello.{StreamTlsInfo}
use net_replay.Protocols.TlsStream.{
  Hellos, decode_record, saw_hello, is_record_type, tls_round, tls_framing, new_tls_parser,
}

-- A record of a TLS stream, and the bytes of it.
pub record TlsRecord : Type 0 where
  pub record_type : ℕ
  pub version : ℕ
  pub body : Bytes

abbrev pub header_bytes : TlsRecord → Bytes
header_bytes r = r.record_type ∷ (two_bytes r.version ++ two_bytes (length r.body))

abbrev pub record_bytes : TlsRecord → Bytes
record_bytes r = header_bytes r ++ r.body

-- The content type is one of TLS, and the numbers fit their fields.
abbrev pub IsRecord : TlsRecord → Type 0
IsRecord r =
    (20 ≤ r.record_type) × (r.record_type ≤ 24) × (r.version < 65536) × (length r.body < 65536)

abbrev pub record_info : Hellos → TlsRecord → List StreamTlsInfo
record_info h r = decode_record r.record_type r.body r.version ∷ []

abbrev pub record_hellos : Hellos → TlsRecord → Hellos
record_hellos h r = saw_hello r.record_type r.body h

be16_two_bytes : (n : ℕ) → (0 * 256 + n / 256) * 256 + n % 256 ≡ n
be16_two_bytes n = omega arith

-- The flags of the hellos have no part in the framing.
abbrev pub AnyState : Hellos → Type 0
AnyState h = Unit

abbrev pub any_kept : (h : Hellos) (r : TlsRecord) → AnyState h → AnyState (record_hellos h r)
any_kept h r u = tt

-- A buffer with a whole record in front.
tls_round-whole :
    (h : Hellos) (buf : Bytes) (v n : ℕ) (body more : Bytes)
    → is_record_type (byte buf 0) ≡ true
    → be16 buf 1 ≡ v
    → be16 buf 3 ≡ n
    → n < 65536
    → 5 + n ≤ length buf
    → slice buf 5 (5 + n) ≡ body
    → drop (5 + n) buf ≡ more
    → tls_round h buf
      ≡ some (record {
        outs = decode_record (byte buf 0) body v ∷ [];
        state = saw_hello (byte buf 0) body h;
        rest = more;
      })
unfolding tls_round
tls_round-whole h buf v n body more t ev en hn hl eb em = ground arith

IsRecord-Decodes :
    (r : TlsRecord)
    → IsRecord r
    → Decodes tls_framing record_bytes record_info record_hellos AnyState any_kept r
unfolding is_record_type be16 slice from_bytes
IsRecord-Decodes r d h more u =
    tls_round-whole h (record_bytes r ++ more) r.version (length r.body) r.body more (ground arith)
      (be16_two_bytes r.version) (be16_two_bytes (length r.body)) (omega arith)
      (omega (arith, length-append r.body more)) (slice_payload (header_bytes r) r.body more)
      (drop_payload (header_bytes r) r.body more)

All-Decodes :
    (rs : List TlsRecord)
    → All IsRecord rs
    → All (Decodes tls_framing record_bytes record_info record_hellos AnyState any_kept) rs
All-Decodes [] h = tt
All-Decodes (r ∷ rs) h = (IsRecord-Decodes r h.0, All-Decodes rs h.1)

short-stops : (h : Hellos) (buf : Bytes) → length buf < 5 → tls_round h buf ≡ none
unfolding tls_round
short-stops h buf m = ground arith

-- What the decoding of a record says depends on nothing but the record.
abbrev pub tls_infos : List TlsRecord → List StreamTlsInfo
tls_infos = map (λ r. decode_record r.record_type r.body r.version)

decoded-tls_infos :
    (h : Hellos) (rs : List TlsRecord)
    → (decoded tls_framing record_bytes record_info record_hellos AnyState any_kept h rs).0
      ≡ tls_infos rs
unfolding decoded
decoded-tls_infos h [] = refl
decoded-tls_infos h (r ∷ rs) =
    ap (λ os. decode_record r.record_type r.body r.version ∷ os)
      (decoded-tls_infos (record_hellos h r) rs)

-- However a stream of whole records, with less than a header behind them, is cut into calls of `feed`, a new parser
-- returns one info for each record, decoded from the record alone, keeps the same list as its `records`, and keeps in
-- its buffer the bytes behind them.
pub tls_feeds-encoded :
    (rs : List TlsRecord) (more : Bytes) (chunks : List Bytes)
    → All IsRecord rs
    → length more < 5
    → flatten chunks ≡ flatten (map record_bytes rs) ++ more
    → ((feeds tls_framing new_tls_parser chunks).0 ≡ tls_infos rs)
      × ((feeds tls_framing new_tls_parser chunks).1.log ≡ tls_infos rs)
      × ((feeds tls_framing new_tls_parser chunks).1.buf ≡ more)
tls_feeds-encoded rs more chunks h m c =
    let stops = short-stops new_tls_parser.state [] (omega arith) in
    let t =
      parse-encoded_stop tls_framing record_bytes record_info record_hellos AnyState any_kept
        new_tls_parser.state rs more tt (All-Decodes rs h) (short-stops _ more m) in
    let e =
      feeds-parse tls_framing new_tls_parser chunks (flatten (map record_bytes rs) ++ more) _ stops
        c t in
    let d = decoded-tls_infos new_tls_parser.state rs in
    (ap (λ k. k.0) e ∙ d, ap (λ k. k.1.log) e ∙ d, ap (λ k. k.1.buf) e)
