-- ===== src/Str/Trim.antt =====
-- `str::trim`: drops white space at both ends.
use codelldb.Prelude.{
  ℕ, ◌≡◌, ◌≢◌, refl, All-append, Bool, true, false, ◌||◌, List, [], ◌∷◌, ◌++◌, ◌==◌, if◌then◌else◌,
  arith, All,
}
use mathlib.Core.List.{reverse, reverse-cons, reverse-append, reverse-reverse}
use codelldb.Prelude.Text.{Chars}
use codelldb.Str.Utf8.{between}

-- `char::is_whitespace`, the Unicode property White_Space.
unfoldable pub is_whitespace : ℕ → Bool
is_whitespace c =
    between 9 13 c
    || c == 0x20
    || c == 0x85
    || c == 0xA0
    || c == 0x1680
    || between 0x2000 0x200A c
    || c == 0x2028
    || c == 0x2029
    || c == 0x202F
    || c == 0x205F
    || c == 0x3000

unfoldable pub trim_start : Chars → Chars
unfolding is_whitespace
trim_start [] = []
trim_start (c ∷ cs) = if is_whitespace c then trim_start cs else c ∷ cs

unfoldable pub trim_end : Chars → Chars
unfolding trim_start
trim_end cs = reverse (trim_start (reverse cs))

unfoldable pub trim : Chars → Chars
unfolding trim_start trim_end
trim cs = trim_end (trim_start cs)

abbrev pub IsInk : ℕ → Type 0
IsInk c = is_whitespace c ≡ false

trim_start-ink : (cs : Chars) → All IsInk cs → trim_start cs ≡ cs
unfolding trim_start
trim_start-ink [] h = refl
trim_start-ink (c ∷ cs) h = ground arith

pub All-reverse {ℓ} : {A : Type ℓ} (P : A → Type 0) (xs : List A) → All P xs → All P (reverse xs)
All-reverse P [] h = tt
All-reverse P (x ∷ xs) h =
    rw (reverse-cons) (All-append P (reverse xs) (x ∷ []) (All-reverse P xs h.1) (h.0, tt))

-- White space of two characters behind is dropped.
trim_end-behind :
    (y z : ℕ) (cs : Chars)
    → is_whitespace y ≡ true
    → is_whitespace z ≡ true
    → All IsInk cs
    → trim_end (cs ++ y ∷ z ∷ []) ≡ cs
unfolding trim_end
trim_end-behind y z cs hy hz ink =
    rw (reverse-append cs (y ∷ z ∷ []), hz, hy, trim_start-ink _ (All-reverse IsInk cs ink))
      (reverse-reverse cs)

-- White space of one character before, and of two behind, is dropped.
pub trim_around :
    (a y z : ℕ) (cs : Chars)
    → is_whitespace a ≡ true
    → is_whitespace y ≡ true
    → is_whitespace z ≡ true
    → All IsInk cs
    → cs ≢ []
    → trim (a ∷ cs ++ y ∷ z ∷ []) ≡ cs
unfolding trim
trim_around a y z [] ha hy hz ink ne = absurd (ne refl)
trim_around a y z (c ∷ cs) ha hy hz ink ne = rw (ha, ink.0) (trim_end-behind y z (c ∷ cs) hy hz ink)
