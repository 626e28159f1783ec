-- ===== src/Replay/Validate.antt =====
-- netreplay/core/replay/validate.py: structural checks of a frame. An issue's text is a constructor with
-- the number that it prints.
pub mod Checksum
pub mod Header
pub mod Laws
use net_replay.Common.{
  ℕ, ◌+◌, ◌-◌, ◌*◌, ◌/◌, ◌%◌, Bool, true, false, not, ◌&&◌, ◌||◌, List, [], ◌∷◌, ◌++◌, map, ltb,
  ◌==◌, if◌then◌else◌, length,
}
use net_replay.Replay.Bytes.{Bytes, byte, slice, set_slice, be16, two_bytes}
use net_replay.Replay.Validate.Checksum.{ipv4_checksum}
use net_replay.Replay.Remap.{ethertype_ipv4, ipproto_tcp, ipproto_udp}

pub data Issue : Type 0 where
  short_ethernet truncated_header truncated_options small_total_length short_frame
        truncated_transport checksum_mismatch :
      Issue
  unexpected_version : ℕ → Issue
  invalid_ihl : ℕ → Issue

pub record ValidationResult : Type 0 where
  pub valid : Bool
  pub issues : List Issue

-- `ValidationResult()`
abbrev pub no_issues : ValidationResult
no_issues = record { valid = true; issues = [] }

-- `ValidationResult.add`
unfoldable pub add : ValidationResult → Issue → ValidationResult
add r issue = record { valid = false; issues = r.issues ++ issue ∷ [] }

abbrev pub add_if : Bool → Issue → ValidationResult → ValidationResult
add_if b issue r = if b then add r issue else r

-- `_ipv4_checksum(bytes(header)) != stored`
unfoldable pub header_mismatch : Bytes → ℕ → Bool
header_mismatch raw ihl =
    let header = slice raw 14 (14 + ihl) in
    let stored = be16 header 10 in
    not (ipv4_checksum (set_slice header 10 12 (two_bytes 0)) == stored)

-- The checks of the transport header and of the checksum.
unfoldable pub check_transport : Bytes → Bool → ℕ → ℕ → ValidationResult → ValidationResult
check_transport raw verify_checksums ihl total_length r =
    let protocol = byte raw 23 in
    if protocol == ipproto_tcp || protocol == ipproto_udp
    then add_if (verify_checksums && protocol == ipproto_tcp && header_mismatch raw ihl)
        checksum_mismatch (add_if (ltb total_length (ihl + 4)) truncated_transport r)
    else add_if (verify_checksums && not (protocol == 0) && header_mismatch raw ihl)
        checksum_mismatch r

-- The checks of the total length, and those after it.
unfoldable pub check_lengths : Bytes → Bool → ℕ → ValidationResult → ValidationResult
check_lengths raw verify_checksums ihl r =
    let total_length = be16 raw 16 in
    check_transport raw verify_checksums ihl total_length (
      if ltb total_length ihl
      then add r small_total_length
      else add_if (ltb (length raw) (14 + total_length)) short_frame r)

-- The checks of an IPv4 frame that holds a header.
unfoldable pub check_header : Bytes → Bool → ValidationResult
check_header raw verify_checksums =
    let version = byte raw 14 / 16 in
    let ihl = byte raw 14 % 16 * 4 in
    let r = add_if (not (version == 4)) (unexpected_version version) no_issues in
    if ltb ihl 20
    then add r (invalid_ihl ihl)
    else if ltb (length raw) (14 + ihl)
    then add r truncated_options
    else check_lengths raw verify_checksums ihl r

unfoldable pub validate_frame : Bytes → Bool → ValidationResult
validate_frame raw verify_checksums =
    if ltb (length raw) 14
    then add no_issues short_ethernet
    else if not (be16 raw 12 == ethertype_ipv4)
    then no_issues
    else if ltb (length raw) 34
    then add no_issues truncated_header
    else check_header raw verify_checksums

unfoldable pub validate_frames : List Bytes → Bool → List ValidationResult
validate_frames frames verify_checksums = map (λ f. validate_frame f verify_checksums) frames
