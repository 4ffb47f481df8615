-- ===== src/Str/Utf8.antt =====
-- `str::from_utf8`: the code points of well-formed UTF-8, `none` if the bytes are not.
use mathlib.Core.Option
use codelldb.Prelude.{
  ℕ, zero, suc, ◌+◌, ◌-◌, ◌*◌, ◌<◌, ◌≡◌, refl, Bool, ◌&&◌, ◌||◌, Option, none, some, List, [], ◌∷◌,
  ltb, leb, ◌==◌, if◌then◌else◌, arith, All,
}
use codelldb.Prelude.Text.{Chars}

abbrev pub Bytes : Type 0
Bytes = List ℕ

abbrev pub between : ℕ → ℕ → ℕ → Bool
between lo hi b = leb lo b && leb b hi

-- Inside a sequence: how many bytes follow the next one, what was read, the range of the next.
pub data Pending : Type 0 where
  idle : Pending
  more : ℕ → ℕ → ℕ → ℕ → Pending

-- The first byte of a sequence.
unfoldable pub lead : ℕ → Option (Option ℕ × Pending)
lead b =
    if ltb b 0x80
    then some (some b, idle)
    else if between 0xC2 0xDF b
    then some (none, more 0 (b - 0xC0) 0x80 0xBF)
    else if b == 0xE0
    then some (none, more 1 0 0xA0 0xBF)
    else if b == 0xED
    then some (none, more 1 0xD 0x80 0x9F)
    else if between 0xE1 0xEF b
    then some (none, more 1 (b - 0xE0) 0x80 0xBF)
    else if b == 0xF0
    then some (none, more 2 0 0x90 0xBF)
    else if between 0xF1 0xF3 b
    then some (none, more 2 (b - 0xF0) 0x80 0xBF)
    else if b == 0xF4
    then some (none, more 2 4 0x80 0x8F)
    else none

unfoldable pub next : Pending → ℕ → Option (Option ℕ × Pending)
unfolding lead
next idle b = lead b
next (more zero acc lo hi) b =
    if between lo hi b then some (some (acc * 64 + (b - 0x80)), idle) else none
next (more (suc n) acc lo hi) b =
    if between lo hi b then some (none, more n (acc * 64 + (b - 0x80)) 0x80 0xBF) else none

abbrev push : Option ℕ → Chars → Chars
push none cs = cs
push (some c) cs = c ∷ cs

unfoldable pub decode_from : Pending → Bytes → Option Chars
unfolding next
decode_from idle [] = some []
decode_from (more n acc lo hi) [] = none
decode_from p (b ∷ bs) = elim (next p b) [
  | none ↦ none
  | some (c, q) ↦ Option.map (push c) (decode_from q bs)
]

unfoldable pub from_utf8 : Bytes → Option Chars
unfolding decode_from
from_utf8 = decode_from idle

-- `str::is_char_boundary` below the length: the byte does not continue a sequence.
abbrev pub is_boundary_byte : ℕ → Bool
is_boundary_byte b = ltb b 0x80 || leb 0xC0 b

-- ASCII is its own UTF-8.
pub from_utf8-ascii : (bs : Bytes) → All (λ b. b < 0x80) bs → from_utf8 bs ≡ some bs
unfolding from_utf8
from_utf8-ascii [] h = refl
from_utf8-ascii (b ∷ bs) h = ground (arith, from_utf8-ascii bs)
