-- ===== src/Protocols/Tls.antt =====
-- netreplay/core/protocols/tls.py: the metadata of the first handshake record. A name is the bytes that the code
-- decodes as UTF-8; an exception that the code catches is the result that it then returns.
use net_replay.Common.{
  ℕ, zero, suc, ◌+◌, ◌-◌, ◌*◌, Option, none, some, [], ◌∷◌, ◌++◌, ltb, ◌==◌, if◌then◌else◌, length,
  take, drop,
}
use net_replay.Common.Dict.{Dict, lookup, nat_eq}
use net_replay.Common.Text.{codes}
use net_replay.Replay.Bytes.{Bytes, byte, slice, from_bytes, be16}
use net_replay.Protocols.Hex.{Text, hex}
use net_replay.Filter.Eval.{digits}

abbrev pub tls_handshake : ℕ
tls_handshake = 0x16

abbrev pub handshake_types : Dict ℕ Text
handshake_types =
    (1, codes "ClientHello")
    ∷ (2, codes "ServerHello")
    ∷ (11, codes "Certificate")
    ∷ (12, codes "ServerKeyExchange")
    ∷ (13, codes "CertificateRequest")
    ∷ (14, codes "ServerHelloDone")
    ∷ (15, codes "CertificateVerify")
    ∷ (16, codes "ClientKeyExchange")
    ∷ (20, codes "Finished")
    ∷ []

abbrev pub tls_versions : Dict ℕ Text
tls_versions =
    (0x0301, codes "TLS 1.0")
    ∷ (0x0302, codes "TLS 1.1")
    ∷ (0x0303, codes "TLS 1.2")
    ∷ (0x0304, codes "TLS 1.3")
    ∷ (0x0002, codes "SSL 2.0")
    ∷ (0x0003, codes "SSL 3.0")
    ∷ []

-- `d.get(key, default)`
abbrev pub or_else : Option Text → Text → Text
or_else none t = t
or_else (some s) t = s

unfoldable pub tls_version_name : ℕ → Text
tls_version_name code = or_else (lookup code tls_versions) (hex code)

-- `str(n)`
abbrev pub decimal : ℕ → Text
decimal n = digits (suc n) n []

unfoldable pub handshake_name : ℕ → Text
handshake_name t = or_else (lookup t handshake_types) (codes "Handshake(" ++ decimal t ++ codes ")")

pub record TlsInfo : Type 0 where
  pub record_type : ℕ
  pub handshake_type : ℕ
  pub handshake_name : Text
  pub version : Text
  pub sni : Option Bytes

-- The inner loop, over `data[name_pos:]`: `room` is `2 + name_list_len - name_pos`, and `skip` bytes of an entry are passed
-- over.
unfoldable pub listed_name : ℕ → ℕ → Bytes → Option Bytes
listed_name room skip [] = none
listed_name room (suc skip) (b ∷ rest) = listed_name (room - 1) skip rest
listed_name room zero (b ∷ []) = none
listed_name room zero (b ∷ h ∷ []) = none
listed_name room zero (b ∷ h ∷ l ∷ rest) =
    let later = listed_name (room - 1) (2 + (h * 256 + l)) (h ∷ l ∷ rest) in
    if ltb room 3 then none else (if b == 0 then some (take (h * 256 + l) rest) else later)

-- The body of the outer loop at a `server_name` extension; `none` goes on with the loop.
unfoldable pub server_name : Bytes → Option Bytes
server_name ext =
    if ltb (length ext) 3
    then none
    else (if ltb (length ext) (from_bytes 0 (slice ext 0 2) + 2)
        then none
        else listed_name (from_bytes 0 (slice ext 0 2)) 0 (drop 2 ext))

abbrev pub or_later : Option Bytes → Option Bytes → Option Bytes
or_later none later = later
or_later (some name) later = some name

-- The outer loop, over `hello[off:ext_end]`, with `skip` bytes of an extension to pass over.
unfoldable pub first_name : ℕ → Bytes → Option Bytes
first_name skip [] = none
first_name (suc skip) (b ∷ rest) = first_name skip rest
first_name zero (a ∷ []) = none
first_name zero (a ∷ b ∷ []) = none
first_name zero (a ∷ b ∷ c ∷ []) = none
first_name zero (a ∷ b ∷ c ∷ d ∷ rest) =
    let later = first_name (3 + (c * 256 + d)) (b ∷ c ∷ d ∷ rest) in
    if ltb (length rest) (c * 256 + d)
    then none
    else (if a * 256 + b == 0
        then or_later (server_name (take (c * 256 + d) rest)) later
        else later)

-- From the offset of the compression methods on; then from the offset of the cipher suites.
unfoldable pub name_after_suites : Bytes → ℕ → Option Bytes
name_after_suites hello off =
    if ltb (length hello) (off + 1)
    then none
    else (let exts = off + 1 + byte hello off in
        if ltb (length hello) (exts + 2)
        then none
        else (if ltb (length hello) (exts + 2 + be16 hello exts)
            then none
            else first_name 0 (slice hello (exts + 2) (exts + 2 + be16 hello exts))))

-- `_parse_sni_from_client_hello`; an `IndexError` at `hello[34]` gives `None` too.
unfoldable pub parse_sni_from_client_hello : Bytes → Option Bytes
parse_sni_from_client_hello hello =
    if ltb (length hello) 35
    then none
    else (let suites = 35 + byte hello 34 in
        if ltb (length hello) (suites + 2)
        then none
        else name_after_suites hello (suites + 2 + be16 hello suites))

-- `analyze`, from the record's body on.
unfoldable pub analyze_body : ℕ → Bytes → Option TlsInfo
analyze_body version_code body =
    if ltb (length body) 4
    then none
    else some (record {
      record_type = tls_handshake;
      handshake_type = byte body 0;
      handshake_name = handshake_name (byte body 0);
      version = tls_version_name version_code;
      sni =
          (if byte body 0 == 1
            then parse_sni_from_client_hello (slice body 4 (4 + from_bytes 0 (slice body 1 4)))
            else none);
    })

unfoldable pub analyze : Bytes → Option TlsInfo
analyze [] = none
analyze (b ∷ rest) =
    if b == tls_handshake
    then (if ltb (length (b ∷ rest)) 3
        then none
        else analyze_body (be16 (b ∷ rest) 1)
            (slice (b ∷ rest) 5 (5 + from_bytes 0 (slice (b ∷ rest) 3 5))))
    else none
