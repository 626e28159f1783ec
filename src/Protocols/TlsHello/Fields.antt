-- ===== src/Protocols/TlsHello/Fields.antt =====
-- The extensions of a ClientHello that netreplay/core/protocols/streams.py reads (`_parse_sni`, `_parse_alpn` and
-- `_parse_supported_versions`), built as the protocol says.
use mathlib.Core.List.{flatten, append-nil}
use net_replay.Common.{
  ℕ, suc, ◌+◌, ◌-◌, ◌*◌, ◌/◌, ◌%◌, ◌≤◌, ◌≡◌, refl, ap, sym, ◌∙◌, true, false, some, List, [], ◌∷◌,
  ◌++◌, ltb, ◌==◌, if◌then◌else◌, length, take, arith, map, length-append, take-length,
}
use net_replay.Common.Text.{codes}
use net_replay.Replay.Bytes.{Bytes, slice, from_bytes, two_bytes}
use net_replay.Protocols.Hex.{Text, hex04}
use net_replay.Protocols.TlsHello.{
  StreamTlsInfo, sni_from, parse_sni, alpn_from, parse_alpn, version_text, pairs,
  parse_supported_versions, apply_extension,
}

-- What a client says in an extension: the server's name, the protocols, the versions, or something else.
pub data Field : Type 0 where
  host_name : Bytes → Field
  protocols : List Bytes → Field
  versions : List ℕ → Field
  other : ℕ → Bytes → Field

abbrev pub protocol_bytes : List Bytes → Bytes
protocol_bytes names = flatten (map (λ name. length name ∷ name) names)

abbrev pub version_bytes : List ℕ → Bytes
version_bytes vs = flatten (map two_bytes vs)

-- The type and the content.
abbrev pub field_extension : Field → ℕ × Bytes
field_extension (host_name name) =
    (0, two_bytes (3 + length name) ++ (0 ∷ two_bytes (length name) ++ name))
field_extension (protocols names) =
    (16, two_bytes (length (protocol_bytes names)) ++ protocol_bytes names)
field_extension (versions vs) = (43, length (version_bytes vs) ∷ version_bytes vs)
field_extension (other t content) = (t, content)

-- The other types are not those of the three.
abbrev pub IsField : Field → Type 0
IsField (host_name name) = Unit
IsField (protocols names) = Unit
IsField (versions vs) = Unit
IsField (other t content) = (t == 0 ≡ false) × ((t == 16 ≡ false) × (t == 43 ≡ false))

-- How a version is to be shown.
abbrev pub shown_version : ℕ → Text
shown_version v =
    if v == 0x0304 then codes "1.3" else (if v == 0x0303 then codes "1.2" else hex04 v)

-- What the field says, in the info.
abbrev pub say : Field → StreamTlsInfo → StreamTlsInfo
say (host_name name) info = record info { sni = some name }
say (protocols names) info = record info { alpn = names }
say (versions vs) info = record info { supported_versions = map shown_version vs }
say (other t content) info = info

pair_value : (n : ℕ) → from_bytes 0 (n / 256 ∷ n % 256 ∷ []) ≡ n
unfolding from_bytes
pair_value n = omega arith

split_value : (n : ℕ) → n / 256 * 256 + n % 256 ≡ n
split_value n = omega arith

too_short : (n m : ℕ) → m ≤ n → ltb n m ≡ false
too_short n m h = ground arith

minus_zero : (n : ℕ) → n ≡ n - 0
minus_zero n = omega arith

minus_suc : (n m : ℕ) → n - 1 - m ≡ n - suc m
minus_suc n m = omega arith

not_zero : (n m : ℕ) → n ≡ suc m → (n == 0) ≡ false
not_zero n m h = ground arith

remaining : (n l m : ℕ) → n ≡ suc (l + m) → n - 1 - l ≡ m
remaining n l m h = omega arith

same_number : (n : ℕ) → (n == n) ≡ true
same_number n = ground arith

take_all : (xs : Bytes) → take (length xs) xs ≡ xs
take_all xs = ap (take (length xs)) (sym (append-nil xs)) ∙ take-length xs []

-- The name of the server.
sni_from-name :
    (room : ℕ) (name : Bytes)
    → 3 ≤ room
    → sni_from room 0 (0 ∷ length name / 256 ∷ length name % 256 ∷ name) ≡ some name
unfolding sni_from
sni_from-name room name h = rw (too_short room 3 h, split_value (length name), take_all name) refl

parse_sni-name :
    (name : Bytes)
    → parse_sni (two_bytes (3 + length name) ++ (0 ∷ two_bytes (length name) ++ name)) ≡ some name
unfolding parse_sni slice
parse_sni-name name =
    let n = length name in
    rw (too_short (suc (suc (suc (suc (suc n))))) 4 (omega arith), pair_value (3 + n))
      (sni_from-name (2 + (3 + n)) name (omega arith))

-- The protocols, one after the other.
alpn_from-skip :
    (room : ℕ) (xs ys : Bytes)
    → alpn_from room (length xs) (xs ++ ys) ≡ alpn_from (room - length xs) 0 ys
unfolding alpn_from
alpn_from-skip room [] ys = ap (λ r. alpn_from r 0 ys) (minus_zero room)
alpn_from-skip room (x ∷ xs) ys =
    alpn_from-skip (room - 1) xs ys ∙ ap (λ r. alpn_from r 0 ys) (minus_suc room (length xs))

alpn_from-cons :
    (room : ℕ) (name rest : Bytes)
    → room ≡ suc (length name + length rest)
    → alpn_from room 0 (length name ∷ (name ++ rest)) ≡ name ∷ alpn_from (length rest) 0 rest
unfolding alpn_from
alpn_from-cons room name rest h =
    rw
      (
        not_zero room (length name + length rest) h,
        take-length name rest,
        alpn_from-skip (room - 1) name rest,
        remaining room (length name) (length rest) h,
      )
      refl

alpn_from-names :
    (names : List Bytes)
    → alpn_from (length (protocol_bytes names)) 0 (protocol_bytes names) ≡ names
unfolding alpn_from flatten
alpn_from-names [] = refl
alpn_from-names (name ∷ names) =
    alpn_from-cons (suc (length (name ++ protocol_bytes names))) name (protocol_bytes names)
      (ap suc (length-append name (protocol_bytes names)))
    ∙ ap (λ ns. name ∷ ns) (alpn_from-names names)

parse_alpn-names :
    (names : List Bytes)
    → parse_alpn (two_bytes (length (protocol_bytes names)) ++ protocol_bytes names) ≡ names
unfolding parse_alpn slice
parse_alpn-names names =
    let n = length (protocol_bytes names) in
    rw (too_short (suc (suc n)) 2 (omega arith), pair_value n) (alpn_from-names names)

-- The versions.
pairs-versions : (vs : List ℕ) → pairs (version_bytes vs) ≡ vs
unfolding pairs flatten
pairs-versions [] = refl
pairs-versions (v ∷ vs) = rw (split_value v, pairs-versions vs) refl

map-shown_version : (vs : List ℕ) → map version_text vs ≡ map shown_version vs
unfolding version_text
map-shown_version [] = refl
map-shown_version (v ∷ vs) = ap (λ ts. shown_version v ∷ ts) (map-shown_version vs)

parse_supported_versions-versions :
    (vs : List ℕ)
    → parse_supported_versions (length (version_bytes vs) ∷ version_bytes vs) ≡ map shown_version vs
unfolding parse_supported_versions
parse_supported_versions-versions vs =
    rw (same_number (length (version_bytes vs)), pairs-versions vs) (map-shown_version vs)

pub apply_extension-say :
    (f : Field) (info : StreamTlsInfo)
    → IsField f
    → apply_extension (field_extension f).0 (field_extension f).1 info ≡ say f info
unfolding apply_extension
apply_extension-say (host_name name) info h =
    ap (λ o. record info { sni = o }) (parse_sni-name name)
apply_extension-say (protocols names) info h =
    ap (λ o. record info { alpn = o }) (parse_alpn-names names)
apply_extension-say (versions vs) info h =
    ap (λ o. record info { supported_versions = o }) (parse_supported_versions-versions vs)
apply_extension-say (other t content) info h = rw (h.0, h.1.0, h.1.1) refl
