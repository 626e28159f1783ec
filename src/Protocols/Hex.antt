-- ===== src/Protocols/Hex.antt =====
-- Python's `hex(n)` and `f"0x{n:04X}"` of numbers below 2^16.
use net_replay.Common.{ℕ, zero, suc, ◌+◌, ◌-◌, ◌/◌, ◌%◌, List, [], ◌∷◌, ◌++◌, ltb, if◌then◌else◌}
use net_replay.Common.Text.{codes}

abbrev pub Text : Type 0
Text = List ℕ

-- A hexadecimal digit, with the code point of the letter `A` or `a`.
abbrev pub hex_digit : ℕ → ℕ → ℕ
hex_digit a d = if ltb d 10 then d + 48 else (d - 10) + a

-- The digits of `n`, least first on the accumulator, on fuel.
unfoldable pub hex_digits : ℕ → ℕ → ℕ → Text → Text
hex_digits a zero n acc = acc
hex_digits a (suc f) n acc =
    let rest = hex_digits a f (n / 16) (hex_digit a (n % 16) ∷ acc) in
    if ltb n 16 then hex_digit a n ∷ acc else rest

-- `hex(n)`
unfoldable pub hex : ℕ → Text
hex n = codes "0x" ++ hex_digits b'a' (suc n) n []

-- `f"0x{n:04X}"`
unfoldable pub hex04 : ℕ → Text
hex04 n =
    codes "0x"
    ++ hex_digit b'A' (n / 4096 % 16)
      ∷ hex_digit b'A' (n / 256 % 16)
      ∷ hex_digit b'A' (n / 16 % 16)
      ∷ hex_digit b'A' (n % 16)
      ∷ []
