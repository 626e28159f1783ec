-- ===== src/Replay/Validate/Checksum.antt =====
-- `_ipv4_checksum` of netreplay/core/replay/validate.py, and that it is `_checksum` of remap.py, a separate function
-- with the same steps.
use net_replay.Common.{
  ℕ, zero, suc, ◌+◌, ◌-◌, ◌*◌, ◌/◌, ◌%◌, ◌≡◌, refl, ◌∙◌, ap, true, false, [], ◌∷◌, ◌++◌, ltb, ◌==◌,
  if◌then◌else◌, length,
}
use net_replay.Replay.Bytes.{Bytes}
use net_replay.Replay.Checksum.{padded, word_sum, fold, checksum}

-- `data += b"\x00"` if the length is odd.
unfoldable pub ipv4_padded : Bytes → Bytes
ipv4_padded payload = if length payload % 2 == 0 then payload else payload ++ 0 ∷ []

-- The sum of the 16-bit words; the low byte of a word is below 256, so `|` is `+`.
unfoldable pub ipv4_word_sum : Bytes → ℕ
ipv4_word_sum [] = 0
ipv4_word_sum (x ∷ []) = x * 256
ipv4_word_sum (x ∷ y ∷ rest) = x * 256 + y + ipv4_word_sum rest

-- `while total >> 16: total = (total & 0xFFFF) + (total >> 16)`
unfoldable pub ipv4_fold : ℕ → ℕ → ℕ
ipv4_fold zero total = total
ipv4_fold (suc f) total = elim (ltb 65535 total) [
  | true ↦ ipv4_fold f (total % 65536 + total / 65536)
  | false ↦ total
]

-- `(~total) & 0xFFFF` of the folded sum. The sum itself is fuel enough.
unfoldable pub ipv4_checksum : Bytes → ℕ
ipv4_checksum payload =
    let total = ipv4_word_sum (ipv4_padded payload) in 65535 - ipv4_fold total total

ipv4_word_sum-eq : (d : Bytes) → ipv4_word_sum d ≡ word_sum d
unfolding ipv4_word_sum word_sum
ipv4_word_sum-eq [] = refl
ipv4_word_sum-eq (x ∷ []) = refl
ipv4_word_sum-eq (x ∷ y ∷ rest) = ap (λ n. x * 256 + y + n) (ipv4_word_sum-eq rest)

ipv4_fold-eq : (f total : ℕ) → ipv4_fold f total ≡ fold f total
unfolding ipv4_fold fold
ipv4_fold-eq zero total = refl
ipv4_fold-eq (suc f) total =
    ap (λ n. elim (ltb 65535 total) [ true ↦ n | false ↦ total ])
      (ipv4_fold-eq f (total % 65536 + total / 65536))

pub ipv4_checksum-eq : (d : Bytes) → ipv4_checksum d ≡ checksum d
unfolding ipv4_checksum checksum ipv4_padded padded
ipv4_checksum-eq d =
    let p = if length d % 2 == 0 then d else d ++ 0 ∷ [] in
    ap (λ n. 65535 - ipv4_fold n n) (ipv4_word_sum-eq p)
    ∙ ap (λ n. 65535 - n) (ipv4_fold-eq (word_sum p) (word_sum p))
