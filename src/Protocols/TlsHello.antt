-- ===== src/Protocols/TlsHello.antt =====
-- The ClientHello and ServerHello of netreplay/core/protocols/streams.py. A name is the bytes that the code decodes;
-- the slices and tests leave no exception to catch.
pub mod Fields
pub mod Encoded
pub mod Server
use net_replay.Common.{
  ℕ, zero, suc, ◌+◌, ◌-◌, ◌*◌, ◌≡◌, refl, Bool, true, false, ◌||◌, Option, none, some, List, [],
  ◌∷◌, ◌++◌, ltb, ◌==◌, if◌then◌else◌, length, take, drop, map,
}
use net_replay.Common.Dict.{Dict, lookup, nat_eq}
use net_replay.Common.Text.{codes}
use net_replay.Filter.Eval.{occurs_in}
use net_replay.Replay.Bytes.{Bytes, byte, slice, from_bytes, be16}
use net_replay.Protocols.Hex.{Text, hex04}
use net_replay.Protocols.Tls.{or_else, decimal}

abbrev pub handshake_names : Dict ℕ Text
handshake_names =
    (1, codes "ClientHello")
    ∷ (2, codes "ServerHello")
    ∷ (4, codes "NewSessionTicket")
    ∷ (8, codes "EncryptedExtensions")
    ∷ (11, codes "Certificate")
    ∷ (12, codes "ServerKeyExchange")
    ∷ (14, codes "ServerHelloDone")
    ∷ (15, codes "CertificateVerify")
    ∷ (16, codes "ClientKeyExchange")
    ∷ (20, codes "Finished")
    ∷ []

abbrev pub cipher_names : Dict ℕ Text
cipher_names =
    (0x1301, codes "AES_128_GCM_SHA256")
    ∷ (0x1302, codes "AES_256_GCM_SHA384")
    ∷ (0x1303, codes "CHACHA20_POLY1305_SHA256")
    ∷ (0x1304, codes "AES_128_CCM_SHA256")
    ∷ (0x1305, codes "AES_128_CCM_8_SHA256")
    ∷ (0xC02B, codes "ECDHE_ECDSA_WITH_AES_128_GCM_SHA256")
    ∷ (0xC02C, codes "ECDHE_ECDSA_WITH_AES_256_GCM_SHA384")
    ∷ (0xC02F, codes "ECDHE_RSA_WITH_AES_128_GCM_SHA256")
    ∷ (0xC030, codes "ECDHE_RSA_WITH_AES_256_GCM_SHA384")
    ∷ (0x009C, codes "RSA_WITH_AES_128_GCM_SHA256")
    ∷ (0x009D, codes "RSA_WITH_AES_256_GCM_SHA384")
    ∷ (0x003C, codes "RSA_WITH_AES_128_CBC_SHA")
    ∷ (0x003D, codes "RSA_WITH_AES_256_CBC_SHA")
    ∷ (0xC013, codes "ECDHE_RSA_WITH_AES_128_CBC_SHA")
    ∷ (0x002F, codes "RSA_WITH_AES_128_CBC_SHA256")
    ∷ []

unfoldable pub handshake_name : ℕ → Text
handshake_name t = or_else (lookup t handshake_names) (codes "type=" ++ decimal t)

unfoldable pub cipher_name : ℕ → Text
cipher_name code = or_else (lookup code cipher_names) (hex04 code)

pub record StreamTlsInfo : Type 0 where
  pub record_type : ℕ
  pub version : Text
  pub handshake : Option Text
  pub sni : Option Bytes
  pub cipher_suites : List Text
  pub alpn : List Bytes
  pub supported_versions : List Text
  pub tls12 : Bool
  pub tls13 : Bool

-- `StreamTLSInfo(record_type=…, version=…, handshake=…)`
abbrev pub plain_info : ℕ → Text → Option Text → StreamTlsInfo
plain_info record_type version handshake = record {
  record_type = record_type;
  version = version;
  handshake = handshake;
  sni = none;
  cipher_suites = [];
  alpn = [];
  supported_versions = [];
  tls12 = false;
  tls13 = false;
}

-- The big-endian 16-bit numbers of a slice, `for i in range(0, len(s) - 1, 2)`.
unfoldable pub pairs : Bytes → List ℕ
pairs [] = []
pairs (a ∷ []) = []
pairs (a ∷ b ∷ rest) = (a * 256 + b) ∷ pairs rest

-- The loop of `_parse_sni`, over `ext[pos:]`; `room` is `4 + name_list_len - pos`.
unfoldable pub sni_from : ℕ → ℕ → Bytes → Option Bytes
sni_from room skip [] = none
sni_from room (suc skip) (b ∷ rest) = sni_from (room - 1) skip rest
sni_from room zero (b ∷ []) = none
sni_from room zero (b ∷ h ∷ []) = none
sni_from room zero (b ∷ h ∷ l ∷ rest) =
    let later = sni_from (room - 1) (2 + (h * 256 + l)) (h ∷ l ∷ rest) in
    if ltb room 3 then none else (if b == 0 then some (take (h * 256 + l) rest) else later)

unfoldable pub parse_sni : Bytes → Option Bytes
parse_sni ext =
    if ltb (length ext) 4 then none else sni_from (2 + from_bytes 0 (slice ext 0 2)) 0 (drop 2 ext)

-- The loop of `_parse_alpn`, over `ext[pos:]`; `room` is `2 + total - pos`.
unfoldable pub alpn_from : ℕ → ℕ → Bytes → List Bytes
alpn_from room skip [] = []
alpn_from room (suc skip) (b ∷ rest) = alpn_from (room - 1) skip rest
alpn_from room zero (b ∷ rest) =
    let later = alpn_from (room - 1) b rest in if room == 0 then [] else take b rest ∷ later

unfoldable pub parse_alpn : Bytes → List Bytes
parse_alpn ext =
    if ltb (length ext) 2 then [] else alpn_from (from_bytes 0 (slice ext 0 2)) 0 (drop 2 ext)

unfoldable pub version_text : ℕ → Text
version_text code =
    if code == 0x0304 then codes "1.3" else (if code == 0x0303 then codes "1.2" else hex04 code)

unfoldable pub parse_supported_versions : Bytes → List Text
parse_supported_versions [] = []
parse_supported_versions (b ∷ rest) =
    map version_text (pairs (if b == length rest then rest else b ∷ rest))

-- The branches on the type of an extension.
unfoldable pub apply_extension : ℕ → Bytes → StreamTlsInfo → StreamTlsInfo
apply_extension ext_type ext info =
    if ext_type == 0
    then record info { sni = parse_sni ext }
    else (if ext_type == 16
        then record info { alpn = parse_alpn ext }
        else (if ext_type == 43
            then record info { supported_versions = parse_supported_versions ext }
            else info))

-- The loop over the extensions, over `body[off:ext_end]`, with `skip` bytes of one to pass over.
unfoldable pub extensions : ℕ → Bytes → StreamTlsInfo → StreamTlsInfo
extensions skip [] info = info
extensions (suc skip) (b ∷ rest) info = extensions skip rest info
extensions zero (a ∷ []) info = info
extensions zero (a ∷ b ∷ []) info = info
extensions zero (a ∷ b ∷ c ∷ []) info = info
extensions zero (a ∷ b ∷ c ∷ d ∷ rest) info =
    let later =
      extensions (3 + (c * 256 + d)) (b ∷ c ∷ d ∷ rest)
        (apply_extension (a * 256 + b) (take (c * 256 + d) rest) info) in
    if ltb (length rest) (c * 256 + d) then info else later

-- `_decode_client_hello` from the compression methods on, from the cipher suites on, and whole.
unfoldable pub decode_compression : Bytes → ℕ → StreamTlsInfo → StreamTlsInfo
decode_compression body off info =
    if ltb (length body) (off + 1)
    then info
    else (let exts = off + 1 + byte body off in
        if ltb (length body) (exts + 2)
        then info
        else (if ltb (length body) (exts + 2 + be16 body exts)
            then info
            else extensions 0 (slice body (exts + 2) (exts + 2 + be16 body exts)) info))

unfoldable pub decode_suites : Bytes → ℕ → StreamTlsInfo → StreamTlsInfo
decode_suites body off info =
    if ltb (length body) (off + 2)
    then info
    else (let total = be16 body off in
        if ltb (length body) (off + 2 + total)
        then info
        else decode_compression body (off + 2 + total) (record info {
          cipher_suites =
              info.cipher_suites
              ++ map cipher_name (pairs (slice body (off + 2) (off + 2 + total)));
        }))

unfoldable pub decode_client_hello : Bytes → StreamTlsInfo → StreamTlsInfo
decode_client_hello body info =
    if ltb (length body) 35 then info else decode_suites body (35 + byte body 34) info

-- `any("1.3" in v for v in …)`
unfoldable pub any_13 : List Text → Bool
any_13 [] = false
any_13 (v ∷ vs) = occurs_in (codes "1.3") v || any_13 vs

unfoldable pub decode_server_hello : Bytes → StreamTlsInfo → StreamTlsInfo
decode_server_hello body info =
    if ltb (length body) 5
    then info
    else (let info' = record info { tls13 = any_13 info.supported_versions } in
        if ltb (length body) 35
        then info'
        else record info' { cipher_suites = cipher_name (from_bytes 0 (slice body 34 36)) ∷ [] })
