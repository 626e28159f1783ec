-- ===== src/Replay/Checksum.antt =====
-- `_checksum` of netreplay/core/replay/remap.py: the Internet checksum.
pub mod Laws
use net_replay.Common.{
  ℕ, zero, suc, ◌+◌, ◌-◌, ◌*◌, ◌/◌, ◌%◌, Bool, true, false, List, [], ◌∷◌, ◌++◌, ltb, ◌==◌,
  if◌then◌else◌, length,
}
use net_replay.Replay.Bytes.{Bytes}

-- `data += b"\x00"` if the length is odd.
unfoldable pub padded : Bytes → Bytes
padded payload = if length payload % 2 == 0 then payload else payload ++ 0 ∷ []

-- The sum of the 16-bit words. The low byte of a word is below 256, so `|` is `+`.
unfoldable pub word_sum : Bytes → ℕ
word_sum [] = 0
word_sum (x ∷ []) = x * 256
word_sum (x ∷ y ∷ rest) = x * 256 + y + word_sum rest

-- `while total >> 16: total = (total & 0xFFFF) + (total >> 16)`
unfoldable pub fold : ℕ → ℕ → ℕ
fold zero total = total
fold (suc f) total = elim (ltb 65535 total) [
  | true ↦ fold f (total % 65536 + total / 65536)
  | false ↦ total
]

-- `(~total) & 0xFFFF` of the folded sum. The sum itself is fuel enough.
unfoldable pub checksum : Bytes → ℕ
checksum payload = let total = word_sum (padded payload) in 65535 - fold total total
