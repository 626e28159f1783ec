-- ===== src/Replay/Remap.antt =====
-- `remap_frame` of netreplay/core/replay/remap.py. `none` is the OverflowError of `to_bytes`.
pub mod Laws
use net_replay.Common.{
  ℕ, zero, suc, ◌+◌, ◌-◌, ◌*◌, ◌/◌, ◌%◌, Bool, true, false, not, ◌&&◌, ◌||◌, Option, none, some,
  List, [], ◌∷◌, ◌++◌, ltb, ◌==◌, if◌then◌else◌, length,
}
use net_replay.Common.Dict.{Dict, lookup, nat_eq}
use net_replay.Replay.Bytes.{Bytes, byte, slice, set_slice, be16, two_bytes, to_bytes2, bytes_eq}
use net_replay.Replay.Checksum.{checksum}

abbrev pub ethertype_ipv4 : ℕ
ethertype_ipv4 = 0x0800

abbrev pub ipproto_tcp : ℕ
ipproto_tcp = 6

abbrev pub ipproto_udp : ℕ
ipproto_udp = 17

pub record RemapConfig : Type 0 where
  pub mac_map : Dict Bytes Bytes
  pub ip_map : Dict Bytes Bytes
  pub port_map : Dict ℕ ℕ

abbrev no_entries {ℓ} : {A : Type ℓ} → List A → Bool
no_entries [] = true
no_entries (x ∷ xs) = false

-- `is_empty`
unfoldable pub is_empty : RemapConfig → Bool
is_empty config =
    no_entries config.mac_map && no_entries config.ip_map && no_entries config.port_map

abbrev pub bind_option {ℓ κ} : {A : Type ℓ} {B : Type κ} → Option A → (A → Option B) → Option B
bind_option none f = none
bind_option (some a) f = f a

-- `if key in config.…_map: buf[a:b] = config.…_map[key]`, with whether it was.
abbrev pub write_found : Bytes → ℕ → ℕ → Option Bytes → Bytes
write_found buf a b none = buf
write_found buf a b (some v) = set_slice buf a b v

abbrev pub is_found {ℓ} : {A : Type ℓ} → Option A → Bool
is_found none = false
is_found (some a) = true

unfoldable pub remap_macs : Bytes → RemapConfig → Bytes
remap_macs raw config =
    let buf = write_found raw 0 6 (lookup (slice raw 0 6) config.mac_map) in
    write_found buf 6 12 (lookup (slice raw 6 12) config.mac_map)

-- The two IP addresses, and whether either was changed.
unfoldable pub remap_ips : Bytes → Bytes → RemapConfig → Bytes × Bool
remap_ips raw buf config =
    let src = lookup (slice raw 26 30) config.ip_map in
    let dst = lookup (slice raw 30 34) config.ip_map in
    (write_found (write_found buf 26 30 src) 30 34 dst, is_found src || is_found dst)

-- `_port_offsets`: the first of the two offsets; the second lies two bytes further.
unfoldable pub port_offsets : Bytes → ℕ → ℕ → Option ℕ
port_offsets raw ihl protocol =
    if (protocol == ipproto_tcp || protocol == ipproto_udp) && not (ltb (length raw) (14 + ihl + 4))
    then some (14 + ihl)
    else none

-- The body of the loop over the two offsets.
abbrev write_port : Bytes × Bool → ℕ → Option ℕ → Option (Bytes × Bool)
write_port (buf, changed) offset none = some (buf, changed)
write_port (buf, changed) offset (some port) =
    bind_option (to_bytes2 port) (λ v. some (set_slice buf offset (offset + 2) v, true))

unfoldable pub remap_port : Bytes → RemapConfig → ℕ → Bytes × Bool → Option (Bytes × Bool)
remap_port raw config offset s = write_port s offset (lookup (be16 raw offset) config.port_map)

unfoldable pub remap_ports : Bytes → Bytes → RemapConfig → Option ℕ → Option (Bytes × Bool)
remap_ports raw buf config none = some (buf, false)
remap_ports raw buf config (some base) =
    bind_option (remap_port raw config base (buf, false)) (remap_port raw config (base + 2))

-- `buf[24:26] = …`: the IPv4 header checksum.
unfoldable pub fix_header_checksum : Bytes → ℕ → Bytes
fix_header_checksum buf ihl =
    let zeroed = set_slice buf 24 26 (two_bytes 0) in
    set_slice zeroed 24 26 (two_bytes (checksum (slice zeroed 14 (14 + ihl))))

-- The end of `_fix_transport_checksum`, from the test of the buffer's length on.
unfoldable pub write_transport_checksum : Bytes → ℕ → ℕ → ℕ → ℕ → Option Bytes
write_transport_checksum buf base protocol transport_length checksum_offset =
    if ltb (length buf) (checksum_offset + 2)
    then some buf
    else (let zeroed = set_slice buf checksum_offset (checksum_offset + 2) (two_bytes 0) in
        bind_option (to_bytes2 transport_length) λ n. some (
          set_slice zeroed checksum_offset (checksum_offset + 2) (
            two_bytes (
              checksum (
                slice zeroed 26 30
                ++ (slice zeroed 30 34
                    ++ (0 ∷ protocol ∷ (n ++ slice zeroed base (base + transport_length)))))))))

-- `transport_length`, with its fallback to what the buffer holds.
unfoldable pub transport_length_of : Bytes → Bytes → ℕ → ℕ → ℕ
transport_length_of buf raw ihl total_length =
    let n = total_length - ihl in
    if ltb n 4 || ltb (length raw) (14 + ihl + n) then length buf - (14 + ihl) else n

unfoldable pub fix_transport_checksum : Bytes → Bytes → ℕ → ℕ → ℕ → Option Bytes
fix_transport_checksum buf raw ihl protocol total_length =
    let base = 14 + ihl in
    let n = transport_length_of buf raw ihl total_length in
    if protocol == ipproto_udp
    then if be16 raw (base + 6) == 0
      then some buf
      else bind_option (to_bytes2 n) (λ v.
        write_transport_checksum (set_slice buf (base + 4) (base + 6) v) base protocol n (base + 6))
    else if protocol == ipproto_tcp
    then write_transport_checksum buf base protocol n (base + 16)
    else some buf

-- The two `if`s that recompute checksums: the header's, and the transport's where `transport` says so.
abbrev pub fix_checksums : Bytes → ℕ → ℕ → Bool → Bool → Bytes → Option Bytes
fix_checksums raw ihl protocol header transport buf =
    let fixed = if header then fix_header_checksum buf ihl else buf in
    if transport then fix_transport_checksum fixed raw ihl protocol (be16 raw 16) else some fixed

-- `remap_frame` on an IPv4 frame, from the reading of its header on.
unfoldable pub remap_ipv4 : Bytes → Bytes → RemapConfig → ℕ → Option Bytes
remap_ipv4 raw buf config ihl =
    let protocol = byte raw 23 in
    let (with_ips, ip_changed) = remap_ips raw buf config in
    let offsets = port_offsets raw ihl protocol in
    bind_option (remap_ports raw with_ips config offsets) λ (with_ports, ports_changed).
      fix_checksums raw ihl protocol ip_changed
        ((ip_changed || ports_changed) && be16 raw 20 % 0x2000 == 0 && is_found offsets) with_ports

unfoldable pub remap_frame : Bytes → RemapConfig → Option Bytes
remap_frame raw config =
    let buf = remap_macs raw config in
    let ihl = byte raw 14 % 16 * 4 in
    if is_empty config || ltb (length raw) 14
    then some raw
    else if not (be16 raw 12 == ethertype_ipv4) || ltb (length raw) 34
    then some buf
    else if ltb ihl 20 || ltb (length raw) (14 + ihl)
    then some buf
    else remap_ipv4 raw buf config ihl
