-- ===== src/Protocols/TlsHello/Encoded.antt =====
-- `_decode_client_hello` of netreplay/core/protocols/streams.py on hellos that are built as the protocol says.
use mathlib.Core.List.{flatten, append_assoc}
use net_replay.Common.{
  ℕ, suc, ◌+◌, ◌*◌, ◌/◌, ◌%◌, ◌≤◌, ◌≡◌, refl, ap, All, sym, ◌∙◌, false, List, [], ◌∷◌, ◌++◌, ltb,
  length, arith, map, length-append, take-length,
}
use net_replay.Replay.Bytes.{Bytes, byte, slice, two_bytes, slice_payload, byte_behind, be16_behind}
use net_replay.Protocols.TlsHello.Fields.{Field, field_extension, IsField, say, apply_extension-say}
use net_replay.Protocols.TlsHello.{
  StreamTlsInfo, cipher_name, pairs, apply_extension, extensions, decode_compression, decode_suites,
  decode_client_hello,
}

-- An extension: its type and its content.
abbrev pub Extension : Type 0
Extension = ℕ × Bytes

abbrev pub extension_bytes : Extension → Bytes
extension_bytes (t, content) = two_bytes t ++ (two_bytes (length content) ++ content)

pub record ClientHello : Type 0 where
  pub start : Bytes
  pub session_id : Bytes
  pub suites : List ℕ
  pub compression : Bytes
  pub fields : List Field

abbrev pub suite_bytes : List ℕ → Bytes
suite_bytes suites = flatten (map two_bytes suites)

abbrev pub exts_bytes : List Extension → Bytes
exts_bytes exts = flatten (map extension_bytes exts)

-- A field behind its two bytes of length, and behind its one byte.
abbrev field16 : Bytes → Bytes → Bytes → Bytes
field16 header payload more = header ++ (two_bytes (length payload) ++ (payload ++ more))

abbrev pub field8 : Bytes → Bytes → Bytes → Bytes
field8 header payload more = header ++ (length payload ∷ payload ++ more)

abbrev pub extensions_of : List Field → List Extension
extensions_of fs = map field_extension fs

-- The version and the random bytes, then the fields with their lengths.
abbrev pub client_hello_bytes : ClientHello → Bytes
client_hello_bytes c = field8 c.start c.session_id (
    field16 [] (suite_bytes c.suites)
      (field8 [] c.compression (field16 [] (exts_bytes (extensions_of c.fields)) [])))

-- What the fields say in turn, a later one in place of an earlier one of its kind.
abbrev pub said : List Field → StreamTlsInfo → StreamTlsInfo
said [] info = info
said (f ∷ fs) info = said fs (say f info)

abbrev apply_all : List Extension → StreamTlsInfo → StreamTlsInfo
apply_all [] info = info
apply_all ((t, content) ∷ exts) info = apply_all exts (apply_extension t content info)

extensions_skip :
    (xs ys : Bytes) (info : StreamTlsInfo)
    → extensions (length xs) (xs ++ ys) info ≡ extensions 0 ys info
unfolding extensions
extensions_skip [] [] info = refl
extensions_skip [] (y ∷ ys) info = refl
extensions_skip (x ∷ xs) ys info = extensions_skip xs ys info

pair_lem : (n : ℕ) → n / 256 * 256 + n % 256 ≡ n
pair_lem n = omega arith

pub within_lem : (n m : ℕ) → m ≤ n → ltb n m ≡ false
within_lem n m h = ground arith

append_within : (xs ys : Bytes) → ltb (length (xs ++ ys)) (length xs) ≡ false
append_within xs ys =
    within_lem (length (xs ++ ys)) (length xs) (omega (arith, length-append xs ys))

three_more : (n : ℕ) → 3 + n ≡ suc (suc (suc n))
three_more n = omega arith

extensions-cons :
    (t : ℕ) (content rest : Bytes) (info : StreamTlsInfo)
    → extensions 0 (extension_bytes (t, content) ++ rest) info
      ≡ extensions 0 rest (apply_extension t content info)
unfolding extensions
extensions-cons t content rest info =
    rw
      (
        pair_lem t,
        pair_lem (length content),
        append_within content rest,
        take-length content rest,
        three_more (length content),
      )
      (extensions_skip content rest (apply_extension t content info))

extensions-all :
    (exts : List Extension) (info : StreamTlsInfo)
    → extensions 0 (exts_bytes exts) info ≡ apply_all exts info
unfolding extensions flatten
extensions-all [] info = refl
extensions-all ((t, content) ∷ exts) info =
    extensions-cons t content (exts_bytes exts) info
    ∙ extensions-all exts (apply_extension t content info)

pairs_lem : (suites : List ℕ) → pairs (suite_bytes suites) ≡ suites
unfolding pairs flatten
pairs_lem [] = refl
pairs_lem (s ∷ suites) = rw (pair_lem s, pairs_lem suites) refl

field16-slice :
    (header payload more : Bytes)
    → slice (field16 header payload more) (length header + 2) (length header + 2 + length payload)
      ≡ payload
field16-slice header payload more =
    rw
      (
        sym (append_assoc header (two_bytes (length payload)) (payload ++ more)),
        sym (length-append header (two_bytes (length payload))),
      )
      (slice_payload (header ++ two_bytes (length payload)) payload more)

length-field16 :
    (header payload more : Bytes)
    → length (field16 header payload more) ≡ length header + 2 + length payload + length more
length-field16 header payload more = omega (
  arith,
  length-append header (two_bytes (length payload) ++ (payload ++ more)),
  length-append payload more,
)

field16-start :
    (header payload more : Bytes)
    → ltb (length (field16 header payload more)) (length header + 2) ≡ false
field16-start header payload more =
    within_lem (length (field16 header payload more)) (length header + 2)
      (omega (arith, length-field16 header payload more))

field16-end :
    (header payload more : Bytes)
    → ltb (length (field16 header payload more)) (length header + 2 + length payload) ≡ false
field16-end header payload more =
    within_lem (length (field16 header payload more)) (length header + 2 + length payload)
      (omega (arith, length-field16 header payload more))

decode_suites-field :
    (header : Bytes) (suites : List ℕ) (more : Bytes) (info : StreamTlsInfo)
    → decode_suites (field16 header (suite_bytes suites) more) (length header) info
      ≡ decode_compression
          (field16 header (suite_bytes suites) more)
          (length header + 2 + length (suite_bytes suites))
          (record info { cipher_suites = info.cipher_suites ++ map cipher_name suites })
unfolding decode_suites
decode_suites-field header suites more info =
    rw
      (
        be16_behind header (length (suite_bytes suites)) (suite_bytes suites ++ more),
        field16-start header (suite_bytes suites) more,
        field16-end header (suite_bytes suites) more,
        field16-slice header (suite_bytes suites) more,
        pairs_lem suites,
      )
      refl

pub length-field8 :
    (header payload more : Bytes)
    → length (field8 header payload more) ≡ length header + 1 + length payload + length more
length-field8 header payload more =
    omega
      (arith, length-append header (length payload ∷ payload ++ more), length-append payload more)

field8-next :
    (header payload more : Bytes)
    → field8 header payload more ≡ (header ++ length payload ∷ payload) ++ more
field8-next header payload more = sym (append_assoc header (length payload ∷ payload) more)

field16-next :
    (header payload more : Bytes)
    → field16 header payload more ≡ (header ++ (two_bytes (length payload) ++ payload)) ++ more
field16-next header payload more =
    sym (append_assoc header (two_bytes (length payload) ++ payload) more)

length-header8 :
    (header payload : Bytes)
    → length (header ++ length payload ∷ payload) ≡ length header + 1 + length payload
length-header8 header payload = omega (arith, length-append header (length payload ∷ payload))

length-header16 :
    (header payload : Bytes)
    → length (header ++ (two_bytes (length payload) ++ payload))
      ≡ length header + 2 + length payload
length-header16 header payload =
    omega (arith, length-append header (two_bytes (length payload) ++ payload))

field8-start :
    (header payload more : Bytes)
    → ltb (length (field8 header payload more)) (length header + 1) ≡ false
field8-start header payload more =
    within_lem (length (field8 header payload more)) (length header + 1)
      (omega (arith, length-field8 header payload more))

decode_compression-field :
    (header compression : Bytes) (exts : List Extension) (info : StreamTlsInfo)
    → decode_compression
        (field8 header compression (field16 [] (exts_bytes exts) []))
        (length header)
        info
      ≡ apply_all exts info
unfolding decode_compression
decode_compression-field header compression exts info =
    let more = field16 [] (exts_bytes exts) [] in
    let header' = header ++ length compression ∷ compression in
    rw
      (
        byte_behind header (length compression) (compression ++ more),
        field8-start header compression more,
        sym (length-header8 header compression),
        field8-next header compression more,
        be16_behind header' (length (exts_bytes exts)) (exts_bytes exts ++ []),
        field16-start header' (exts_bytes exts) [],
        field16-end header' (exts_bytes exts) [],
        field16-slice header' (exts_bytes exts) [],
      )
      (extensions-all exts info)

decode_suites-hello :
    (header : Bytes) (suites : List ℕ) (compression : Bytes) (exts : List Extension)
    (info : StreamTlsInfo)
    → decode_suites
        (field16 header
          (suite_bytes suites)
          (field8 [] compression (field16 [] (exts_bytes exts) [])))
        (length header)
        info
      ≡ apply_all exts
          (record info { cipher_suites = info.cipher_suites ++ map cipher_name suites })
decode_suites-hello header suites compression exts info =
    let header' = header ++ (two_bytes (length (suite_bytes suites)) ++ suite_bytes suites) in
    let info' : StreamTlsInfo = record info {
      cipher_suites = info.cipher_suites ++ map cipher_name suites;
    } in
    rw
      (
        decode_suites-field header suites (field8 [] compression (field16 [] (exts_bytes exts) []))
            info,
        field16-next header (suite_bytes suites)
            (field8 [] compression (field16 [] (exts_bytes exts) [])),
        sym (length-header16 header (suite_bytes suites)),
      )
      (decode_compression-field header' compression exts info')

session_size :
    (start session more : Bytes)
    → length start ≡ 34
    → byte (field8 start session more) 34 ≡ length session
session_size start session more h =
    rw (sym h) (byte_behind start (length session) (session ++ more))

long_enough :
    (start session more : Bytes)
    → length start ≡ 34
    → ltb (length (field8 start session more)) 35 ≡ false
long_enough start session more h =
    within_lem (length (field8 start session more)) 35
      (omega (arith, h, length-field8 start session more))

suites_offset :
    (start session : Bytes)
    → length start ≡ 34
    → 35 + length session ≡ length (start ++ length session ∷ session)
suites_offset start session h = omega (arith, h, length-header8 start session)

apply_all-said :
    (fs : List Field) (info : StreamTlsInfo)
    → All IsField fs
    → apply_all (extensions_of fs) info ≡ said fs info
apply_all-said [] info h = refl
apply_all-said (f ∷ fs) info h =
    ap (λ i. apply_all (extensions_of fs) i) (apply_extension-say f info h.0)
    ∙ apply_all-said fs (say f info) h.1

-- A ClientHello that is built as the protocol says, with 34 bytes for its version and random bytes, is decoded to what was
-- put into it: the names of the suites are appended, a server's name is the `sni`, the protocols are the `alpn`, the
-- versions are shown as "1.3", "1.2" or in hexadecimal, and an extension of another type changes nothing.
pub decode_client_hello-encoded :
    (c : ClientHello) (info : StreamTlsInfo)
    → length c.start ≡ 34
    → All IsField c.fields
    → decode_client_hello (client_hello_bytes c) info
      ≡ said c.fields
          (record info { cipher_suites = info.cipher_suites ++ map cipher_name c.suites })
unfolding decode_client_hello
decode_client_hello-encoded c info h k =
    let exts = extensions_of c.fields in
    let more =
      field16 [] (suite_bytes c.suites)
        (field8 [] c.compression (field16 [] (exts_bytes exts) [])) in
    rw
      (
        long_enough c.start c.session_id more h,
        session_size c.start c.session_id more h,
        suites_offset c.start c.session_id h,
        field8-next c.start c.session_id more,
      )
      (decode_suites-hello (c.start ++ length c.session_id ∷ c.session_id) c.suites c.compression
        exts info)
    ∙ apply_all-said c.fields
        (record info { cipher_suites = info.cipher_suites ++ map cipher_name c.suites }) k
