-- ===== src/Replay/Validate/Laws.antt =====
-- netreplay/core/replay/validate.py: what a valid frame holds, and its header checksum.
use net_replay.Common.{
  ℕ, ◌+◌, ◌*◌, ◌/◌, ◌%◌, ◌≤◌, ◌≡◌, ◌≢◌, ◌↔◌, refl, Bool, true, false, not, ◌||◌, List, [], ◌∷◌,
  ◌++◌, ltb, ◌==◌, if◌then◌else◌, length, arith, Bool-cases, inl, inr,
}
use net_replay.Replay.Bytes.{Bytes, byte, slice, be16}
use net_replay.Replay.Checksum.{checksum}
use net_replay.Replay.Checksum.Laws.{checksum_written}
use net_replay.Replay.Validate.Header.{length-head, tail_of, fixed_header, read_field, write_field}
use net_replay.Replay.Validate.Checksum.{ipv4_checksum, ipv4_checksum-eq}
use net_replay.Replay.Remap.{fix_header_checksum, ethertype_ipv4}
use net_replay.Replay.Validate.{
  Issue, short_ethernet, truncated_header, truncated_options, small_total_length, short_frame,
  unexpected_version, invalid_ihl, ValidationResult, no_issues, add, add_if, header_mismatch,
  check_transport, check_lengths, check_header, validate_frame,
}

-- The flag says that no issue was found.
abbrev pub Agrees : ValidationResult → Type 0
Agrees r = (r.valid ≡ true) ↔ (r.issues ≡ [])

append_ne {ℓ} : {A : Type ℓ} (xs : List A) (x : A) → xs ++ x ∷ [] ≢ []
append_ne [] x e = cc
append_ne (y ∷ xs) x e = cc

add-Agrees : (r : ValidationResult) (issue : Issue) → Agrees (add r issue)
unfolding add
add-Agrees r issue = (λ h. cc, λ e. absurd (append_ne r.issues issue e))

add_if-Agrees :
    (b : Bool) (issue : Issue) (r : ValidationResult) → Agrees r → Agrees (add_if b issue r)
add_if-Agrees true issue r h = add-Agrees r issue
add_if-Agrees false issue r h = h

if-Agrees : (b : Bool) (r s : ValidationResult) → Agrees r → Agrees s → Agrees (if b then r else s)
if-Agrees true r s h k = h
if-Agrees false r s h k = k

fixed_header-checksum :
    (buf : Bytes) (ihl : ℕ)
    → 34 ≤ length buf
    → 20 ≤ ihl
    → ipv4_checksum (slice (fix_header_checksum buf ihl) 14 (14 + ihl)) ≡ 0
fixed_header-checksum buf ihl h k =
    rw (fixed_header buf ihl h k, ipv4_checksum-eq)
      (checksum_written (slice buf 14 24) (tail_of buf ihl) (omega (arith, length-head buf h)))

-- When the frame has 34 bytes or more and holds its header, of 20 bytes or more: after `remap_frame`'s recomputation of the
-- header checksum, by the `_checksum` of remap.py, the header passes the test of validate.py, which compares its own
-- `_ipv4_checksum` with the stored field, and the `_ipv4_checksum` of the whole header, field included, is 0.
pub fix_header_checksum-match :
    (buf : Bytes) (ihl : ℕ)
    → 34 ≤ length buf
    → 20 ≤ ihl
    → 14 + ihl ≤ length buf
    → (header_mismatch (fix_header_checksum buf ihl) ihl ≡ false)
      × (ipv4_checksum (slice (fix_header_checksum buf ihl) 14 (14 + ihl)) ≡ 0)
unfolding header_mismatch
fix_header_checksum-match buf ihl h k l =
    let c = checksum (slice buf 14 24 ++ (0 ∷ 0 ∷ tail_of buf ihl)) in
    let n = length-head buf h in
    let passed : header_mismatch (fix_header_checksum buf ihl) ihl ≡ false =
      rw
        (
          fixed_header buf ihl h k,
          read_field (slice buf 14 24) (tail_of buf ihl) (c / 256) (c % 256) n,
          write_field (slice buf 14 24) (tail_of buf ihl) (0 ∷ 0 ∷ []) (c / 256) (c % 256) n,
          ipv4_checksum-eq,
        )
        (ground arith) in
    (passed, fixed_header-checksum buf ihl h k)

check_transport-valid :
    (raw : Bytes) (v : Bool) (ihl total : ℕ) (r : ValidationResult)
    → (check_transport raw v ihl total r).valid ≡ true
    → r.valid ≡ true
unfolding check_transport add
check_transport-valid raw v ihl total r h = ground arith

check_transport-Agrees :
    (raw : Bytes) (v : Bool) (ihl total : ℕ) (r : ValidationResult)
    → Agrees r
    → Agrees (check_transport raw v ihl total r)
unfolding check_transport
check_transport-Agrees raw v ihl total r h =
    elim (Bool-cases (byte raw 23 == 6 || byte raw 23 == 17)) [
      | inl e ↦ rw e (add_if-Agrees _ _ _ (add_if-Agrees _ _ _ h))
      | inr e ↦ rw e (add_if-Agrees _ _ _ h)
    ]

check_lengths-Agrees :
    (raw : Bytes) (v : Bool) (ihl : ℕ) (r : ValidationResult)
    → Agrees r
    → Agrees (check_lengths raw v ihl r)
unfolding check_lengths
check_lengths-Agrees raw v ihl r h = check_transport-Agrees raw v ihl (be16 raw 16) _ (
    if-Agrees (ltb (be16 raw 16) ihl) (add r small_total_length)
      (add_if (ltb (length raw) (14 + be16 raw 16)) short_frame r) (add-Agrees r small_total_length)
      (add_if-Agrees _ short_frame r h))

check_header-Agrees : (raw : Bytes) (v : Bool) → Agrees (check_header raw v)
unfolding check_header
check_header-Agrees raw v =
    let r =
      add_if (not (byte raw 14 / 16 == 4)) (unexpected_version (byte raw 14 / 16)) no_issues in
    let a : Agrees r = add_if-Agrees _ _ no_issues (λ h. refl, λ h. refl) in
    let ihl = byte raw 14 % 16 * 4 in
    if-Agrees (ltb ihl 20) (add r (invalid_ihl ihl)) _ (add-Agrees r _) (
      if-Agrees (ltb (length raw) (14 + ihl)) (add r truncated_options) _ (add-Agrees r _)
        (check_lengths-Agrees raw v ihl r a))

validate-Agrees : (raw : Bytes) (v : Bool) → Agrees (validate_frame raw v)
unfolding validate_frame
validate-Agrees raw v =
    if-Agrees (ltb (length raw) 14) (add no_issues short_ethernet) _ (add-Agrees no_issues _) (
      if-Agrees (not (be16 raw 12 == 0x0800)) no_issues _ (λ h. refl, λ h. refl)
        (if-Agrees (ltb (length raw) 34) (add no_issues truncated_header) _ (add-Agrees no_issues _)
          (check_header-Agrees raw v)))

check_lengths-valid :
    (raw : Bytes) (v : Bool) (ihl : ℕ) (r : ValidationResult)
    → (check_lengths raw v ihl r).valid ≡ true
    → (r.valid ≡ true) × (ihl ≤ be16 raw 16) × (14 + be16 raw 16 ≤ length raw)
unfolding check_lengths add
check_lengths-valid raw v ihl r h =
    let s =
      if ltb (be16 raw 16) ihl
      then add r small_total_length
      else add_if (ltb (length raw) (14 + be16 raw 16)) short_frame r in
    let k : s.valid ≡ true = check_transport-valid raw v ihl (be16 raw 16) s h in ground arith

holds_frame :
    (raw : Bytes) (v : Bool)
    → (validate_frame raw v).valid ≡ true
    → be16 raw 12 ≡ ethertype_ipv4
    → (byte raw 14 / 16 ≡ 4)
      × (20 ≤ byte raw 14 % 16 * 4)
      × (14 + byte raw 14 % 16 * 4 ≤ length raw)
      × (byte raw 14 % 16 * 4 ≤ be16 raw 16)
      × (14 + be16 raw 16 ≤ length raw)
unfolding validate_frame check_header add
holds_frame raw v h e = ground (
  arith,
  check_lengths-valid raw v (byte raw 14 % 16 * 4)
      (add_if (not (byte raw 14 / 16 == 4)) (unexpected_version (byte raw 14 / 16)) no_issues),
)

-- An IPv4 frame that validates holds its whole header, of 20 bytes or more, and the packet that its total length
-- announces, which is no shorter than the header; and the result is valid exactly when it lists no issue.
pub validate_frame_sound :
    (raw : Bytes) (v : Bool)
    → ((validate_frame raw v).valid ≡ true
        → be16 raw 12 ≡ ethertype_ipv4
        → (byte raw 14 / 16 ≡ 4)
          × (20 ≤ byte raw 14 % 16 * 4)
          × (14 + byte raw 14 % 16 * 4 ≤ length raw)
          × (byte raw 14 % 16 * 4 ≤ be16 raw 16)
          × (14 + be16 raw 16 ≤ length raw))
      × Agrees (validate_frame raw v)
validate_frame_sound raw v = (λ h e. holds_frame raw v h e, validate-Agrees raw v)
