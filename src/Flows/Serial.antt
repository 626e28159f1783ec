-- ===== src/Flows/Serial.antt =====
-- netreplay/core/flows/reassembly.py: serial-number arithmetic on 32-bit sequence numbers.
use net_replay.Common.{ℕ, ◌+◌, ◌-◌, ◌/◌, ◌%◌, ◌≤◌, ◌<◌, ◌≡◌, ◌≢◌, ◌↔◌, ◌⊎◌, Bool, true, false, ◌||◌}
use net_replay.Common.{arith, ltb, ◌==◌}

-- `_SEQ_MASK`, and the modulus that `x & _SEQ_MASK` reduces by.
abbrev pub seq_mask : ℕ
seq_mask = 0xFFFFFFFF

abbrev pub seq_mod : ℕ
seq_mod = 0x100000000

-- `(a - b) & _SEQ_MASK`; Python's difference may be negative.
abbrev pub seq_sub : ℕ → ℕ → ℕ
seq_sub a b = (a + (seq_mod - b % seq_mod)) % seq_mod

unfoldable pub seq_lt : ℕ → ℕ → Bool
seq_lt a b = ltb (seq_mask / 2) (seq_sub a b)

unfoldable pub seq_gt : ℕ → ℕ → Bool
seq_gt a b = ltb (seq_mask / 2) (seq_sub b a)

unfoldable pub seq_le : ℕ → ℕ → Bool
unfolding seq_lt
seq_le a b = a == b || seq_lt a b

unfoldable pub seq_ge : ℕ → ℕ → Bool
unfolding seq_gt
seq_ge a b = a == b || seq_gt a b

unfoldable pub seq_add : ℕ → ℕ → ℕ
seq_add seq delta = (seq + delta) % seq_mod

-- For sequence numbers below 2^32 and a distance below 2^31, `seq_lt` holds of a number and the
-- one that lies a positive distance ahead of it, across the wrap too; of the number behind it does not.
pub seq_lt-seq_add :
    (a d : ℕ)
    → a < seq_mod
    → 1 ≤ d
    → d < 0x80000000
    → (seq_lt a (seq_add a d) ≡ true) × (seq_lt (seq_add a d) a ≡ false)
unfolding seq_lt seq_add
seq_lt-seq_add a d ha h1 h2 = ground arith

-- Two distinct sequence numbers are ordered by `seq_lt` one way or the other, and both ways exactly when they
-- lie half the number space apart.
pub seq_lt_total :
    (a b : ℕ)
    → a < seq_mod
    → b < seq_mod
    → a ≢ b
    → ((seq_lt a b ≡ true) ⊎ (seq_lt b a ≡ true))
      × (((seq_lt a b ≡ true) × (seq_lt b a ≡ true)) ↔ (seq_sub a b ≡ 0x80000000))
unfolding seq_lt
seq_lt_total a b ha hb ne = ground arith
