-- ===== src/Replay/Remap/Laws.antt =====
-- netreplay/core/replay/remap.py: the length of what `remap_frame` returns.
use net_replay.Common.{
  ℕ, zero, suc, ◌+◌, ◌-◌, ◌*◌, ◌%◌, ◌≤◌, ◌<◌, ◌≡◌, refl, ◌∙◌, Bool, true, false, not, ◌||◌, Option,
  none, some, [], ◌∷◌, ltb, lt→ltb, ◌==◌, if◌then◌else◌, length, take, drop, arith, Bool-cases,
  Option-cases, inl, inr,
}
use net_replay.Common.Dict.{Dict, lookup, nat_eq}
use net_replay.Replay.Bytes.{
  Bytes, byte, slice, set_slice, length-set_slice, from_bytes, be16, two_bytes, to_bytes2, bytes_eq,
}
use net_replay.Replay.Remap.{
  RemapConfig, is_empty, bind_option, write_found, remap_macs, remap_ips, port_offsets, remap_port,
  remap_ports, fix_header_checksum, write_transport_checksum, transport_length_of,
  fix_transport_checksum, fix_checksums, remap_ipv4, remap_frame,
}

-- The values of a map are all of one size.
abbrev pub Sized : ℕ → Dict Bytes Bytes → Type 0
Sized n d = (k v : Bytes) → lookup k d ≡ some v → length v ≡ n

-- A configuration as `RemapConfig.build` makes it: six bytes to a MAC, four to an address, ports in range.
pub record IsBuilt (config : RemapConfig) : Type 0 where
  pub macs : Sized 6 config.mac_map
  pub ips : Sized 4 config.ip_map
  pub ports : (k v : ℕ) → lookup k config.port_map ≡ some v → v < 65536

-- There is a result, and it has the given length.
abbrev pub HasLength : ℕ → Option Bytes → Type 0
HasLength n none = ⊥
HasLength n (some b) = length b ≡ n

length-write_found :
    (buf key : Bytes) (a b n : ℕ) (d : Dict Bytes Bytes)
    → Sized n d
    → a ≤ b
    → b ≤ length buf
    → n ≡ b - a
    → length (write_found buf a b (lookup key d)) ≡ length buf
length-write_found buf key a b n d s h k e = elim (Option-cases (lookup key d)) [
  | inl q ↦ rw q
  | inr (v, q) ↦ rw q (length-set_slice buf a b v h k (s key v q ∙ e))
]

length-remap_macs :
    (raw : Bytes) (config : RemapConfig)
    → IsBuilt config
    → 14 ≤ length raw
    → length (remap_macs raw config) ≡ length raw
unfolding remap_macs
length-remap_macs raw config b h =
    let e =
      length-write_found raw (slice raw 0 6) 0 6 6 config.mac_map b.macs (omega arith) (omega arith)
        (omega arith) in
    length-write_found _ (slice raw 6 12) 6 12 6 config.mac_map b.macs (omega arith)
      (omega (arith, e)) (omega arith)
    ∙ e

length-remap_ips :
    (raw buf : Bytes) (config : RemapConfig)
    → IsBuilt config
    → 34 ≤ length buf
    → length (remap_ips raw buf config).0 ≡ length buf
unfolding remap_ips
length-remap_ips raw buf config b h =
    let e =
      length-write_found buf (slice raw 26 30) 26 30 4 config.ip_map b.ips (omega arith)
        (omega arith) (omega arith) in
    length-write_found _ (slice raw 30 34) 30 34 4 config.ip_map b.ips (omega arith)
      (omega (arith, e)) (omega arith)
    ∙ e

length-fix_header_checksum :
    (buf : Bytes) (ihl : ℕ) → 34 ≤ length buf → length (fix_header_checksum buf ihl) ≡ length buf
unfolding fix_header_checksum
length-fix_header_checksum buf ihl h =
    let e = length-set_slice buf 24 26 (two_bytes 0) (omega arith) (omega arith) (omega arith) in
    length-set_slice _ 24 26 _ (omega arith) (omega (arith, e)) (omega arith) ∙ e

-- A pair of a buffer and a mark.
abbrev PairHasLength : ℕ → Option (Bytes × Bool) → Type 0
PairHasLength n none = ⊥
PairHasLength n (some (b, c)) = length b ≡ n

bind-HasLength :
    (n : ℕ) (o : Option (Bytes × Bool)) (f : Bytes × Bool → Option Bytes)
    → PairHasLength n o
    → ((b : Bytes) (c : Bool) → length b ≡ n → HasLength n (f (b, c)))
    → HasLength n (bind_option o f)
bind-HasLength n none f h k = absurd h
bind-HasLength n (some (b, c)) f h k = k b c h

two_bytes-HasLength :
    (n m : ℕ) (f : Bytes → Option Bytes)
    → m < 65536
    → ((v : Bytes) → length v ≡ 2 → HasLength n (f v))
    → HasLength n (bind_option (to_bytes2 m) f)
two_bytes-HasLength n m f l h = rw (lt→ltb m 65536 l) (h (two_bytes m) refl)

remap_port-length :
    (raw : Bytes) (config : RemapConfig) (offset : ℕ) (buf : Bytes) (c : Bool) (n : ℕ)
    → IsBuilt config
    → length buf ≡ n
    → offset + 2 ≤ n
    → PairHasLength n (remap_port raw config offset (buf, c))
unfolding remap_port
remap_port-length raw config offset buf c n b h k =
    elim (Option-cases (lookup (be16 raw offset) config.port_map)) [
      | inl e ↦ rw e h
      | inr (port, e) ↦
          rw (e, lt→ltb port 65536 (b.ports (be16 raw offset) port e))
            (length-set_slice buf offset (offset + 2) (two_bytes port) (omega arith) (omega arith)
                (omega arith)
              ∙ h)
    ]

bind-PairHasLength :
    (n : ℕ) (o : Option (Bytes × Bool)) (f : Bytes × Bool → Option (Bytes × Bool))
    → PairHasLength n o
    → ((b : Bytes) (c : Bool) → length b ≡ n → PairHasLength n (f (b, c)))
    → PairHasLength n (bind_option o f)
bind-PairHasLength n none f h k = absurd h
bind-PairHasLength n (some (b, c)) f h k = k b c h

port_offsets-fits :
    (raw : Bytes) (ihl protocol base : ℕ)
    → port_offsets raw ihl protocol ≡ some base
    → (base ≡ 14 + ihl) × (base + 4 ≤ length raw)
unfolding port_offsets
port_offsets-fits raw ihl protocol base h = ground arith

remap_ports-length :
    (raw buf : Bytes) (config : RemapConfig) (o : Option ℕ) (n : ℕ)
    → IsBuilt config
    → length buf ≡ n
    → ((base : ℕ) → o ≡ some base → base + 4 ≤ n)
    → PairHasLength n (remap_ports raw buf config o)
unfolding remap_ports
remap_ports-length raw buf config none n b h k = h
remap_ports-length raw buf config (some base) n b h k =
    let f = k base refl in
    bind-PairHasLength n (remap_port raw config base (buf, false))
      (remap_port raw config (base + 2))
      (remap_port-length raw config base buf false n b h (omega arith))
      (λ p c e. remap_port-length raw config (base + 2) p c n b e (omega arith))

write_transport-length :
    (buf : Bytes) (base protocol m offset n : ℕ)
    → m < 65536
    → length buf ≡ n
    → HasLength n (write_transport_checksum buf base protocol m offset)
unfolding write_transport_checksum
write_transport-length buf base protocol m offset n l h =
    elim (Bool-cases (ltb (length buf) (offset + 2))) [
      | inl e ↦ rw e h
      | inr e ↦
          let k : offset + 2 ≤ length buf = ground arith in
          let z =
            length-set_slice buf offset (offset + 2) (two_bytes 0) (omega arith) k (omega arith) in
          rw e (
            two_bytes-HasLength n m _ l (λ v q.
              length-set_slice _ offset (offset + 2) _ (omega arith) (omega (arith, z))
                (omega arith)
              ∙ z
              ∙ h))
    ]

slice_past : (raw : Bytes) (a : ℕ) → length raw ≤ a → drop a raw ≡ []
slice_past [] zero h = refl
slice_past [] (suc a) h = refl
slice_past (x ∷ raw) zero h = absurd (omega arith)
slice_past (x ∷ raw) (suc a) h = slice_past raw a (omega arith)

be16_past : (raw : Bytes) (a : ℕ) → length raw ≤ a → be16 raw a ≡ 0
unfolding be16 slice from_bytes
be16_past raw a h = rw (slice_past raw a h) (go (a + 2 - a))
  where
    go : (k : ℕ) → from_bytes 0 (take k []) ≡ 0
    go zero = refl
    go (suc k) = refl

transport_length_lt :
    (buf raw : Bytes) (ihl total n : ℕ)
    → n < 65536
    → length buf ≡ n
    → length raw ≡ n
    → transport_length_of buf raw ihl total < 65536
unfolding transport_length_of
transport_length_lt buf raw ihl total n s h k = ground arith

fix_transport-length :
    (buf raw : Bytes) (ihl protocol total n : ℕ)
    → n < 65536
    → length buf ≡ n
    → length raw ≡ n
    → HasLength n (fix_transport_checksum buf raw ihl protocol total)
unfolding fix_transport_checksum
fix_transport-length buf raw ihl protocol total n s h k =
    let m = transport_length_of buf raw ihl total in
    let l = transport_length_lt buf raw ihl total n s h k in
    elim (Bool-cases (protocol == 17)) [
      | inl e ↦ rw e (elim (Bool-cases (be16 raw (14 + ihl + 6) == 0)) [
        | inl z ↦ rw z h
        | inr z ↦
            let long : 14 + ihl + 6 < length raw = ground (arith, be16_past raw (14 + ihl + 6)) in
            let patched = λ (v : Bytes). set_slice buf (14 + ihl + 4) (14 + ihl + 6) v in
            rw z (
              two_bytes-HasLength n m
                (λ v. write_transport_checksum (patched v) (14 + ihl) protocol m (14 + ihl + 6)) l
                (λ v q.
                  write_transport-length (patched v) (14 + ihl) protocol m (14 + ihl + 6) n l (
                    length-set_slice buf (14 + ihl + 4) (14 + ihl + 6) v (omega arith) (omega arith)
                      (omega arith)
                    ∙ h)))
      ])
      | inr e ↦ rw e (elim (Bool-cases (protocol == 6)) [
        | inl f ↦ rw f (write_transport-length buf _ _ _ _ n l h)
        | inr f ↦ rw f h
      ])
    ]

fixed-length :
    (b : Bool) (buf : Bytes) (ihl : ℕ)
    → 34 ≤ length buf
    → length (if b then fix_header_checksum buf ihl else buf) ≡ length buf
fixed-length true buf ihl h = length-fix_header_checksum buf ihl h
fixed-length false buf ihl h = refl

fix_checksums-length :
    (raw : Bytes) (ihl protocol : ℕ) (header transport : Bool) (buf : Bytes)
    → length raw < 65536
    → 34 ≤ length raw
    → length buf ≡ length raw
    → HasLength (length raw) (fix_checksums raw ihl protocol header transport buf)
fix_checksums-length raw ihl protocol header true buf s h k =
    fix_transport-length _ raw ihl protocol (be16 raw 16) (length raw) s
      (fixed-length header buf ihl (omega arith) ∙ k) refl
fix_checksums-length raw ihl protocol header false buf s h k =
    fixed-length header buf ihl (omega arith) ∙ k

remap_ipv4-length :
    (raw buf : Bytes) (config : RemapConfig) (ihl : ℕ)
    → IsBuilt config
    → length raw < 65536
    → length buf ≡ length raw
    → 34 ≤ length raw
    → HasLength (length raw) (remap_ipv4 raw buf config ihl)
unfolding remap_ipv4
remap_ipv4-length raw buf config ihl b s h k =
    let e = length-remap_ips raw buf config b (omega arith) ∙ h in
    bind-HasLength (length raw)
      (remap_ports raw (remap_ips raw buf config).0 config (port_offsets raw ihl (byte raw 23))) _
      (remap_ports-length raw _ config (port_offsets raw ihl (byte raw 23)) (length raw) b e
        (λ base q. (port_offsets-fits raw ihl (byte raw 23) base q).1))
      (λ p c q. fix_checksums-length raw ihl (byte raw 23) (remap_ips raw buf config).1 _ p s k q)

-- With a configuration as `RemapConfig.build` makes it, the remapping of a frame shorter than 2^16 bytes ends
-- without an error and returns a frame of the same length.
pub length-remap_frame :
    (raw : Bytes) (config : RemapConfig)
    → IsBuilt config
    → length raw < 65536
    → HasLength (length raw) (remap_frame raw config)
unfolding remap_frame
length-remap_frame raw config b s = elim (Bool-cases (is_empty config || ltb (length raw) 14)) [
  | inl e ↦ rw e refl
  | inr e ↦
      let long : 14 ≤ length raw = ground arith in
      let m = length-remap_macs raw config b long in
      rw e (elim (Bool-cases (not (be16 raw 12 == 0x0800) || ltb (length raw) 34)) [
        | inl f ↦ rw f m
        | inr f ↦
            let longer : 34 ≤ length raw = ground arith in
            rw f
              (elim (Bool-cases
                (ltb (byte raw 14 % 16 * 4) 20 || ltb (length raw) (14 + byte raw 14 % 16 * 4))) [
                  | inl g ↦ rw g m
                  | inr g ↦ rw g (remap_ipv4-length raw _ config _ b s m longer)
                ])
      ])
]
