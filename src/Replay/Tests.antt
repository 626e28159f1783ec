-- ===== src/Replay/Tests.antt =====
-- Frames remapped, checked and mutated on small inputs, and the theorems at concrete inputs.
use net_replay.Common.{
  ◌+◌, ◌/◌, ◌%◌, ◌*◌, ◌≤◌, ◌≡◌, refl, true, false, none, some, List, [], ◌∷◌, ◌++◌, arith, length,
  replicate,
}
use net_replay.Common.Text.{codes}
use net_replay.Replay.Bytes.{Bytes, byte, be16, slice, two_bytes}
use net_replay.Replay.Checksum.{checksum}
use net_replay.Replay.Checksum.Laws.{checksum_written}
use net_replay.Common.Dict.{insert}
use net_replay.Protocols.Split.{
  pos, split, parse_int, strip, rstrip, lstrip, is_latin_space, is_byte_space, int_digits, is_digit,
}
use net_replay.Replay.Address.{
  parse_mac, parse_ipv4, bytes_of, mac_text, ipv4_text, parse_entries, ports_in_range, build,
}
use net_replay.Replay.Address.Laws.{build-remap_frame}
use net_replay.Replay.Address.RoundTrip.{parse_printed}
use net_replay.Replay.Remap.{RemapConfig, ethertype_ipv4, fix_header_checksum, remap_frame}
use net_replay.Replay.Remap.Laws.{HasLength}
use net_replay.Replay.Validate.{header_mismatch, validate_frame}
use net_replay.Replay.Validate.Checksum.{ipv4_checksum}
use net_replay.Replay.Validate.Laws.{Agrees, fix_header_checksum-match, validate_frame_sound}
use net_replay.Replay.Selection.{PacketRow, ReplaySelection, unrestricted}
use net_replay.Replay.Stats.{Report, was_sent, was_skipped, was_failed}
use net_replay.Replay.Timing.{VirtualClock, faithful, play, play-faithful}
use net_replay.Replay.Mutation.{starts_with, Mutation, replace_pattern, pad_to_length}

abbrev header : Bytes
header = 0x45 ∷ 0 ∷ 0 ∷ 20 ∷ 0 ∷ 1 ∷ 0 ∷ 0 ∷ 64 ∷ 17 ∷ []

abbrev addresses : Bytes
addresses = 10 ∷ 0 ∷ 0 ∷ 1 ∷ 10 ∷ 0 ∷ 0 ∷ 2 ∷ []

-- An IPv4 frame with a header of 20 bytes and no payload.
abbrev frame : Bytes
frame = replicate 12 1 ++ (8 ∷ 0 ∷ []) ++ header ++ (0 ∷ 0 ∷ []) ++ addresses

abbrev a_config : RemapConfig
a_config = record {
  mac_map = [];
  ip_map = (10 ∷ 0 ∷ 0 ∷ 1 ∷ [], 10 ∷ 0 ∷ 0 ∷ 9 ∷ []) ∷ [];
  port_map = (80, 8080) ∷ [];
}

fix_header_checksum-match_example :
    (header_mismatch (fix_header_checksum frame 20) 20 ≡ false)
    × (ipv4_checksum (slice (fix_header_checksum frame 20) 14 (14 + 20)) ≡ 0)
fix_header_checksum-match_example =
    fix_header_checksum-match frame 20 (omega arith) (omega arith) (omega arith)

checksum_written_example :
    checksum (header ++ (two_bytes (checksum (header ++ (two_bytes 0 ++ addresses))) ++ addresses))
    ≡ 0
checksum_written_example = checksum_written header addresses (omega arith)

validate_frame_sound_example :
    ((validate_frame frame true).valid ≡ true
      → be16 frame 12 ≡ ethertype_ipv4
      → (byte frame 14 / 16 ≡ 4)
        × (20 ≤ byte frame 14 % 16 * 4)
        × (14 + byte frame 14 % 16 * 4 ≤ length frame)
        × (byte frame 14 % 16 * 4 ≤ be16 frame 16)
        × (14 + be16 frame 16 ≤ length frame))
    × Agrees (validate_frame frame true)
validate_frame_sound_example = validate_frame_sound frame true

abbrev rows : List PacketRow
rows = record { id = 1; flow_id = some 3; ts = 5 } ∷ record { id = 2; flow_id = none; ts = 9 } ∷ []

abbrev flow_three : ReplaySelection
flow_three = record unrestricted { flow_ids = some (3 ∷ []); start_ts = some 4 }

abbrev reports : List Report
reports = was_sent 60 10 ∷ was_failed ∷ was_skipped ∷ []

abbrev clock : VirtualClock
clock = record { now = 100; slept = 0 }

play-faithful_example :
    (5 + (play (λ t. t) faithful (5 ∷ 8 ∷ 20 ∷ []) clock).1.now ≡ 100 + 20)
    × (5 + (play (λ t. t) faithful (5 ∷ 8 ∷ 20 ∷ []) clock).1.slept ≡ 0 + 20)
play-faithful_example =
    play-faithful (λ t. t) (λ t. refl) 5 (8 ∷ 20 ∷ []) clock (omega arith, (omega arith, tt))

abbrev pipeline : List Mutation
pipeline = replace_pattern (1 ∷ []) (2 ∷ 2 ∷ []) ∷ pad_to_length 5 ∷ []

build-remap_frame_example : HasLength 34 (remap_frame frame a_config)
unfolding build parse_entries parse_mac parse_ipv4 bytes_of split starts_with parse_int strip rstrip
    lstrip is_latin_space is_byte_space int_digits is_digit insert ports_in_range
build-remap_frame_example =
    build-remap_frame [] ((codes "10.0.0.1", codes "10.0.0.9") ∷ []) ((80, pos 8080) ∷ []) a_config
      frame refl (omega arith)

parse_printed_example :
    (parse_mac (mac_text (10 ∷ 0 ∷ 255 ∷ 1 ∷ 171 ∷ 9 ∷ []))
      ≡ some (10 ∷ 0 ∷ 255 ∷ 1 ∷ 171 ∷ 9 ∷ []))
    × (parse_ipv4 (ipv4_text (10 ∷ 0 ∷ 255 ∷ 1 ∷ [])) ≡ some (10 ∷ 0 ∷ 255 ∷ 1 ∷ []))
parse_printed_example =
    parse_printed 10 0 255 1 171 9
      (omega arith, (omega arith, (omega arith, (omega arith, (omega arith, (omega arith, tt))))))
