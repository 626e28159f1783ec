-- ===== src/Protocols/Quic.antt =====
-- `analyze_quic` of netreplay/core/protocols/http.py, on bytes below 256.
use net_replay.Common.{
  ℕ, ◌+◌, ◌/◌, ◌%◌, Option, none, some, [], ◌∷◌, ◌++◌, ltb, leb, ◌==◌, if◌then◌else◌, length, zero,
  suc,
}
use net_replay.Common.Dict.{Dict, lookup, nat_eq}
use net_replay.Common.Text.{codes}
use net_replay.Replay.Bytes.{Bytes, byte, slice, from_bytes}
use net_replay.Protocols.Hex.{Text, hex_digit}
use net_replay.Protocols.Tls.{or_else}

abbrev pub quic_versions : Dict ℕ Text
quic_versions =
    (0x00000001, codes "QUIC v1")
    ∷ (0x6B3343CF, codes "QUIC v2")
    ∷ (0xFF00001D, codes "draft-29")
    ∷ []

abbrev pub quic_packet_types : Dict ℕ Text
quic_packet_types =
    (0, codes "Initial") ∷ (1, codes "0-RTT") ∷ (2, codes "Handshake") ∷ (3, codes "Retry") ∷ []

pub record QuicInfo : Type 0 where
  pub version : Text
  pub packet_type : Text
  pub dcid_len : ℕ
  pub scid_len : ℕ

-- `f"{n:08x}"` of a number below 2^32: its last `k` hexadecimal digits.
unfoldable pub hex_places : ℕ → ℕ → Text → Text
hex_places zero n acc = acc
hex_places (suc k) n acc = hex_places k (n / 16) (hex_digit b'a' (n % 16) ∷ acc)

unfoldable pub quic_version_name : ℕ → Text
quic_version_name v = or_else (lookup v quic_versions) (codes "QUIC 0x" ++ hex_places 8 v [])

unfoldable pub quic_info : Bytes → ℕ → ℕ → QuicInfo
quic_info payload version dcid_len = record {
  version = quic_version_name version;
  packet_type = or_else (lookup (byte payload 0 / 16 % 4) quic_packet_types) (codes "Unknown");
  dcid_len = dcid_len;
  scid_len = byte payload (6 + dcid_len);
}

unfoldable pub analyze_quic : Bytes → Option QuicInfo
analyze_quic payload =
    if ltb (length payload) 7
    then none
    else (if ltb (byte payload 0) 128
        then none
        else (let version = from_bytes 0 (slice payload 1 5) in
            if version == 0
            then none
            else (if leb (length payload) (6 + byte payload 5)
                then none
                else some (quic_info payload version (byte payload 5)))))
