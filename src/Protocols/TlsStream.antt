-- ===== src/Protocols/TlsStream.antt =====
-- `TlsStreamParser` of netreplay/core/protocols/streams.py. `_records_type` is set in each round before it is read, so it is
-- an argument here; the two flags of the hellos are kept, and `records` grows by what `feed` returns.
pub mod Cuts
use net_replay.Common.{
  ℕ, suc, ◌+◌, ◌-◌, ◌≤◌, ◌<◌, ◌≡◌, refl, Bool, true, false, ◌||◌, ◌&&◌, not, Option, none, some,
  List, [], ◌∷◌, ◌++◌, ltb, leb, ◌==◌, if◌then◌else◌, length, drop, arith, Bool-cases, inl, inr,
  length-append, length-drop, drop-append, get_or-append,
}
use net_replay.Common.Text.{codes}
use net_replay.Replay.Bytes.{Bytes, byte, slice, from_bytes, be16, slice-append, be16-append}
use net_replay.Protocols.Framing.{Framing, Taken, Parser, feed}
use net_replay.Protocols.Hex.{Text}
use net_replay.Protocols.Tls.{tls_version_name}
use net_replay.Protocols.TlsHello.{
  StreamTlsInfo, plain_info, handshake_name, decode_client_hello, decode_server_hello, any_13,
}

abbrev pub max_record : ℕ
max_record = 1048576

-- `_saw_client_hello` and `_saw_server_hello`.
pub record Hellos : Type 0 where
  pub client : Bool
  pub server : Bool

-- The handshake branches of `_decode_record`.
unfoldable pub decode_handshake : Bytes → StreamTlsInfo → StreamTlsInfo
decode_handshake body info =
    let named = record info { handshake = some (handshake_name (byte body 0)) } in
    if byte body 0 == 1
    then (let hello = decode_client_hello (drop 4 body) named in
        record hello { tls13 = any_13 hello.supported_versions })
    else (if byte body 0 == 2 then decode_server_hello (drop 4 body) named else named)

unfoldable pub decode_record : ℕ → Bytes → ℕ → StreamTlsInfo
decode_record rec_type body version_code =
    let info = plain_info rec_type (tls_version_name version_code) none in
    if not (rec_type == 22) || ltb (length body) 4 then info else decode_handshake body info

unfoldable pub saw_hello : ℕ → Bytes → Hellos → Hellos
saw_hello rec_type body h =
    if not (rec_type == 22) || ltb (length body) 4
    then h
    else (if byte body 0 == 1
        then record h { client = true }
        else (if byte body 0 == 2 then record h { server = true } else h))

-- `self._buf[0] in (20, 21, 22, 23, 24)`
unfoldable pub is_record_type : ℕ → Bool
is_record_type t = leb 20 t && leb t 24

-- One round of the loop of `feed`.
unfoldable pub tls_round : Hellos → Bytes → Option (Taken Hellos StreamTlsInfo)
tls_round h buf =
    if ltb (length buf) 5
    then none
    else (if is_record_type (byte buf 0)
        then (let rec_len = be16 buf 3 in
            if ltb max_record rec_len
            then some (record { outs = []; state = h; rest = drop 5 buf })
            else (if ltb (length buf) (5 + rec_len)
                then none
                else (let body = slice buf 5 (5 + rec_len) in
                    some (record {
                      outs = decode_record (byte buf 0) body (be16 buf 1) ∷ [];
                      state = saw_hello (byte buf 0) body h;
                      rest = drop (5 + rec_len) buf;
                    }))))
        else none)

pub tls_round-shortens :
    (h : Hellos) (buf : Bytes) (t : Taken Hellos StreamTlsInfo)
    → tls_round h buf ≡ some t
    → length t.rest < length buf
unfolding tls_round
tls_round-shortens h buf t e = ground (arith, length-drop 5 buf, length-drop (5 + be16 buf 3) buf)

pub tls_round-extends :
    (h : Hellos) (buf more : Bytes) (t : Taken Hellos StreamTlsInfo)
    → tls_round h buf ≡ some t
    → tls_round h (buf ++ more) ≡ some (record t { rest = t.rest ++ more })
unfolding tls_round
tls_round-extends h buf more t e = ground (
  arith,
  length-append buf more,
  be16-append buf more 1,
  be16-append buf more 3,
  get_or-append buf more 0 0,
  slice-append buf more 5 (5 + be16 buf 3),
  drop-append 5 buf more,
  drop-append (5 + be16 buf 3) buf more,
)

abbrev pub tls_framing : Framing Hellos StreamTlsInfo
tls_framing = record {
  step = tls_round;
  shortens = tls_round-shortens;
  extends = tls_round-extends;
}

-- The buffer, the flags and `records`.
abbrev pub TlsStreamParser : Type 0
TlsStreamParser = Parser Hellos StreamTlsInfo

abbrev pub new_tls_parser : TlsStreamParser
new_tls_parser = record { buf = []; state = record { client = false; server = false }; log = [] }

unfoldable pub tls_feed : TlsStreamParser → Bytes → List StreamTlsInfo × TlsStreamParser
tls_feed = feed tls_framing

unfoldable pub tls_flush : TlsStreamParser → List StreamTlsInfo × TlsStreamParser
tls_flush p = elim p.buf [
  | [] ↦ ([], p)
  | _ ∷ _ ↦ (plain_info 0 (codes "?") (some (codes "unfinished")) ∷ [], record p { buf = [] })
]
