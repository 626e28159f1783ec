-- ===== src/Replay/Address/Laws.antt =====
-- What the parsers of addresses and `RemapConfig.build` of netreplay/core/replay/remap.py return.
use net_replay.Common.{
  ℕ, suc, ◌<◌, ◌≡◌, refl, ap, Bool, true, false, Option, none, some, List, [], ◌∷◌, leb,
  if◌then◌else◌, length, map, arith,
}
use net_replay.Common.Dict.{Dict, lookup, insert, lookup-insert, nat_eq}
use net_replay.Replay.Bytes.{Bytes, bytes_eq}
use net_replay.Replay.Remap.{RemapConfig, remap_frame}
use net_replay.Replay.Remap.Laws.{Sized, IsBuilt, HasLength, length-remap_frame}
use net_replay.Protocols.Hex.{Text}
use net_replay.Protocols.Split.{split, strip, is_latin_space, ℤ, pos, negsuc, parse_int}
use net_replay.Replay.Address.{
  byte_and, bytes_of, tidied, parse_hex, parse_mac, parse_ipv4, four_bytes, put_parsed,
  parse_entries, ports_in_range, config_of, build,
}

length-byte_and :
    (n : Option ℤ) (o : Option Bytes) (v : Bytes) (m : ℕ)
    → byte_and n o ≡ some v
    → ((w : Bytes) → o ≡ some w → length w ≡ m)
    → length v ≡ suc m
length-byte_and none o v m e h = cc
length-byte_and (some (pos n)) none v m e h = cc
length-byte_and (some (negsuc n)) o v m e h = cc
length-byte_and (some (pos n)) (some w) v m e h = ground (arith, h w refl)

length-bytes_of : (ns : List (Option ℤ)) (v : Bytes) → bytes_of ns ≡ some v → length v ≡ length ns
unfolding bytes_of
length-bytes_of [] v e = ground arith
length-bytes_of (n ∷ ns) v e = length-byte_and n (bytes_of ns) v (length ns) e (length-bytes_of ns)

length-map : (f : Text → Option ℤ) (ps : List Text) → length (map f ps) ≡ length ps
length-map f [] = refl
length-map f (p ∷ ps) = ap suc (length-map f ps)

pub parse_mac-size : (t : Text) (v : Bytes) → parse_mac t ≡ some v → length v ≡ 6
unfolding parse_mac
parse_mac-size t v e =
    let parts = split (b':' ∷ []) 0 (map tidied (strip is_latin_space t)) in
    ground (arith, length-bytes_of (map parse_hex parts) v, length-map parse_hex parts)

four_bytes-size : (o : Option Bytes) (v : Bytes) → four_bytes o ≡ some v → length v ≡ 4
four_bytes-size none v e = cc
four_bytes-size (some raw) v e = ground arith

pub parse_ipv4-size : (t : Text) (v : Bytes) → parse_ipv4 t ≡ some v → length v ≡ 4
unfolding parse_ipv4
parse_ipv4-size t v e =
    four_bytes-size
      (bytes_of (map (λ p. parse_int (strip is_latin_space p)) (split (b'.' ∷ []) 0 t))) v e

Sized-insert :
    (n : ℕ) (k v : Bytes) (d : Dict Bytes Bytes) → length v ≡ n → Sized n d → Sized n (insert k v d)
Sized-insert n k v d h s j w e = ground (arith, s j w, lookup-insert k j v d)

-- One entry, and then the rest of them.
entry-Sized :
    (n : ℕ) (k v : Option Bytes) (acc d : Dict Bytes Bytes)
    (rest : Dict Bytes Bytes → Option (Dict Bytes Bytes))
    → ((w : Bytes) → v ≡ some w → length w ≡ n)
    → ((acc' : Dict Bytes Bytes) → Sized n acc' → rest acc' ≡ some d → Sized n d)
    → Sized n acc
    → elim (put_parsed k v (some acc)) [ none ↦ none | some acc' ↦ rest acc' ] ≡ some d
    → Sized n d
entry-Sized n none v acc d rest h r s e = cc
entry-Sized n (some k) none acc d rest h r s e = cc
entry-Sized n (some k) (some v) acc d rest h r s e =
    r (insert k v acc) (Sized-insert n k v acc (h v refl) s) e

pub parse_entries-Sized :
    (n : ℕ) (key value : Text → Option Bytes) (entries : Dict Text Text) (acc d : Dict Bytes Bytes)
    → ((t : Text) (v : Bytes) → value t ≡ some v → length v ≡ n)
    → Sized n acc
    → parse_entries key value entries acc ≡ some d
    → Sized n d
unfolding parse_entries
parse_entries-Sized n key value [] acc d h s e = λ j w l. s j w cc
parse_entries-Sized n key value ((k, v) ∷ entries) acc d h s e =
    entry-Sized n (key k) (value v) acc d (parse_entries key value entries) (h v)
      (λ acc' s' e'. parse_entries-Sized n key value entries acc' d h s' e') s e

abbrev pub AllPorts : Dict ℕ ℕ → Type 0
AllPorts d = (k v : ℕ) → lookup k d ≡ some v → v < 65536

AllPorts-cons : (j n : ℕ) (d : Dict ℕ ℕ) → leb n 65535 ≡ true → AllPorts d → AllPorts ((j, n) ∷ d)
unfolding lookup
AllPorts-cons j n d h s k v e = ground (arith, s k v)

pub AllPorts-none : AllPorts []
unfolding lookup
AllPorts-none k v e = cc

port-AllPorts :
    (fits : Bool) (j n : ℕ) (o : Option (Dict ℕ ℕ)) (d : Dict ℕ ℕ)
    → ((d' : Dict ℕ ℕ) → fits ≡ true → o ≡ some d' → AllPorts ((j, n) ∷ d'))
    → (if fits then elim o [ none ↦ none | some d' ↦ some ((j, n) ∷ d') ] else none) ≡ some d
    → AllPorts d
port-AllPorts true j n none d h e = cc
port-AllPorts false j n o d h e = cc
port-AllPorts true j n (some d') d h e = λ k v l. h d' refl refl k v cc

ports_in_range-small :
    (ports : Dict ℕ ℤ) (d : Dict ℕ ℕ) → ports_in_range ports ≡ some d → AllPorts d
unfolding ports_in_range lookup
ports_in_range-small [] d e = λ k v l. AllPorts-none k v cc
ports_in_range-small ((j, negsuc n) ∷ ports) d e = cc
ports_in_range-small ((j, pos n) ∷ ports) d e =
    port-AllPorts (leb n 65535) j n (ports_in_range ports) d
      (λ d' b h. AllPorts-cons j n d' b (ports_in_range-small ports d' h)) e

config_of-IsBuilt :
    (macs ips : Option (Dict Bytes Bytes)) (ports : Option (Dict ℕ ℕ)) (config : RemapConfig)
    → ((d : Dict Bytes Bytes) → macs ≡ some d → Sized 6 d)
    → ((d : Dict Bytes Bytes) → ips ≡ some d → Sized 4 d)
    → ((d : Dict ℕ ℕ) → ports ≡ some d → AllPorts d)
    → config_of macs ips ports ≡ some config
    → IsBuilt config
config_of-IsBuilt none ips ports config m i p e = cc
config_of-IsBuilt (some macs) none ports config m i p e = cc
config_of-IsBuilt (some macs) (some ips) none config m i p e = cc
config_of-IsBuilt (some macs) (some ips) (some ports) config m i p e = record {
  macs = λ k v l. m macs refl k v cc;
  ips = λ k v l. i ips refl k v cc;
  ports = λ k v l. p ports refl k v cc;
}

pub Sized-none : (n : ℕ) → Sized n []
unfolding lookup
Sized-none n k v e = cc

build-IsBuilt :
    (mac_map ip_map : Dict Text Text) (port_map : Dict ℕ ℤ) (config : RemapConfig)
    → build mac_map ip_map port_map ≡ some config
    → IsBuilt config
unfolding build
build-IsBuilt mac_map ip_map port_map config e =
    config_of-IsBuilt (parse_entries parse_mac parse_mac mac_map [])
      (parse_entries parse_ipv4 parse_ipv4 ip_map []) (ports_in_range port_map) config
      (λ d h.
        parse_entries-Sized 6 parse_mac parse_mac mac_map [] d parse_mac-size (Sized-none 6) h)
      (λ d h.
        parse_entries-Sized 4 parse_ipv4 parse_ipv4 ip_map [] d parse_ipv4-size (Sized-none 4) h)
      (ports_in_range-small port_map) e

-- With any configuration that `RemapConfig.build` returns, the remapping of a frame shorter than 2^16 bytes ends without an
-- error and returns a frame of the same length.
pub build-remap_frame :
    (mac_map ip_map : Dict Text Text) (port_map : Dict ℕ ℤ) (config : RemapConfig) (raw : Bytes)
    → build mac_map ip_map port_map ≡ some config
    → length raw < 65536
    → HasLength (length raw) (remap_frame raw config)
build-remap_frame mac_map ip_map port_map config raw e s =
    length-remap_frame raw config (build-IsBuilt mac_map ip_map port_map config e) s
