-- ===== src/Protocols/TlsHello/Server.antt =====
-- `_decode_server_hello` of netreplay/core/protocols/streams.py on hellos that are built as the protocol says.
use net_replay.Common.{ℕ, suc, ◌+◌, ◌*◌, ◌≡◌, refl, ap, sym, ◌∙◌, [], ◌∷◌, ◌++◌, length, arith}
use net_replay.Replay.Bytes.{Bytes, slice, from_bytes, two_bytes, slice_payload}
use net_replay.Protocols.TlsHello.{StreamTlsInfo, cipher_name, decode_server_hello}
use net_replay.Protocols.TlsHello.Encoded.{field8, length-field8, within_lem}

-- The version and the random bytes, the session id with its length, the suite, the compression method and what follows.
abbrev pub server_hello_bytes : Bytes → Bytes → ℕ → Bytes → Bytes
server_hello_bytes start session suite rest = field8 start session (two_bytes suite ++ rest)

suite_field :
    (start : Bytes) (n x : ℕ) (more : Bytes)
    → length start ≡ 34
    → slice (start ++ n ∷ x ∷ more) 34 36 ≡ n ∷ x ∷ []
suite_field start n x more h =
    ap (λ k. slice (start ++ n ∷ x ∷ more) k (k + 2)) (sym h)
    ∙ slice_payload start (n ∷ x ∷ []) more

pair_value : (n x : ℕ) → from_bytes 0 (n ∷ x ∷ []) ≡ n * 256 + x
unfolding from_bytes
pair_value n x = omega arith

-- With a session id that is not empty, the suite that is reported is made of the id's length and its first byte,
-- whatever suite the server chose.
pub decode_server_hello-session_id :
    (start : Bytes) (x : ℕ) (session : Bytes) (suite : ℕ) (rest : Bytes) (info : StreamTlsInfo)
    → length start ≡ 34
    → (decode_server_hello (server_hello_bytes start (x ∷ session) suite rest) info).cipher_suites
      ≡ cipher_name (suc (length session) * 256 + x) ∷ []
unfolding decode_server_hello
decode_server_hello-session_id start x session suite rest info h =
    let body = server_hello_bytes start (x ∷ session) suite rest in
    let size = length-field8 start (x ∷ session) (two_bytes suite ++ rest) in
    rw
      (
        within_lem (length body) 5 (omega (arith, h, size)),
        within_lem (length body) 35 (omega (arith, h, size)),
        suite_field start (suc (length session)) x (session ++ (two_bytes suite ++ rest)) h,
        pair_value (suc (length session)) x,
      )
      refl
