-- ===== src/Str/Hex.antt =====
-- Hexadecimal `Display` of unsigned numbers: `{:x}`, `{:X}` and `{:02X}`.
use codelldb.Prelude.{ℕ, zero, suc, ◌+◌, ◌-◌, ◌/◌, ◌%◌, [], ◌∷◌, ltb, if◌then◌else◌}
use codelldb.Prelude.Text.{Chars}

-- The digit, with the letter that stands for ten.
abbrev pub hex_digit : ℕ → ℕ → ℕ
hex_digit ten d = if ltb d 10 then b'0' + d else ten + (d - 10)

-- A round for each digit: `n` rounds are enough.
unfoldable pub hex_digits : ℕ → ℕ → ℕ → Chars → Chars
hex_digits ten zero n out = out
hex_digits ten (suc f) n out =
    let rest = hex_digits ten f (n / 16) (hex_digit ten (n % 16) ∷ out) in
    if ltb n 16 then hex_digit ten n ∷ out else rest

unfoldable pub show_hex_lower : ℕ → Chars
unfolding hex_digits
show_hex_lower n = hex_digits b'a' (suc n) n []

unfoldable pub show_hex_upper : ℕ → Chars
unfolding hex_digits
show_hex_upper n = hex_digits b'A' (suc n) n []
