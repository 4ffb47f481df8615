-- ===== src/Str/Decimal.antt =====
-- `usize::from_str` and the decimal `Display` of `usize`, on a 64-bit target.
use mathlib.Core.List.{cons-ne-nil}
use codelldb.Prelude.{
  ℕ, zero, suc, ◌+◌, ◌-◌, ◌*◌, ◌/◌, ◌%◌, ◌^◌, ◌≤◌, ◌<◌, ◌≡◌, ◌≢◌, refl, ◌∙◌, ◌&&◌, Option, none,
  some, [], ◌∷◌, ltb, ◌==◌, if◌then◌else◌, arith, All,
}
use codelldb.Prelude.Text.{Chars}
use codelldb.Str.Utf8.{between}

-- Digits with checked arithmetic.
unfoldable pub scan_digits : Chars → ℕ → Option ℕ
scan_digits [] n = some n
scan_digits (c ∷ cs) n =
    let rest = scan_digits cs (n * 10 + (c - b'0')) in
    if between b'0' b'9' c && ltb (n * 10 + (c - b'0')) (2 ^ 64) then rest else none

-- At least one digit; one leading plus sign is allowed.
unfoldable pub parse_usize : Chars → Option ℕ
unfolding scan_digits
parse_usize [] = none
parse_usize (c ∷ []) = scan_digits (c ∷ []) 0
parse_usize (c ∷ d ∷ cs) = if c == b'+' then scan_digits (d ∷ cs) 0 else scan_digits (c ∷ d ∷ cs) 0

-- The digits of `n` in front of `out`. A round for each digit: `n` rounds are enough.
unfoldable pub show_digits : ℕ → ℕ → Chars → Chars
show_digits zero n out = out
show_digits (suc f) n out =
    let rest = show_digits f (n / 10) ((b'0' + n % 10) ∷ out) in
    if ltb n 10 then (b'0' + n) ∷ out else rest

unfoldable pub show_usize : ℕ → Chars
unfolding show_digits
show_usize n = show_digits (suc n) n []

abbrev pub IsDigit : ℕ → Type 0
IsDigit c = (b'0' ≤ c) × (c ≤ b'9')

pub show_digits-IsDigit :
    (f n : ℕ) (out : Chars) → All IsDigit out → All IsDigit (show_digits f n out)
unfolding show_digits
show_digits-IsDigit zero n out h = h
show_digits-IsDigit (suc f) n out h =
    ground (arith, show_digits-IsDigit f (n / 10) ((b'0' + n % 10) ∷ out))

-- Reading the digits of `n` and then `out` is reading `out` behind `n`.
scan-show_digits :
    (f n : ℕ) (out : Chars)
    → n < f
    → n < 2 ^ 64
    → scan_digits (show_digits f n out) 0 ≡ scan_digits out n
unfolding scan_digits show_digits
scan-show_digits zero n out h fits = elim h [ ]
scan-show_digits (suc f) n out h fits =
    ground (arith, scan-show_digits f (n / 10) ((b'0' + n % 10) ∷ out))

show_digits-ne-nil : (f n : ℕ) (out : Chars) → out ≢ [] → show_digits f n out ≢ []
unfolding show_digits
show_digits-ne-nil zero n out h = h
show_digits-ne-nil (suc f) n out h =
    ground (arith, show_digits-ne-nil f (n / 10) ((b'0' + n % 10) ∷ out))

-- A text of digits is read as its digits.
parse-scan : (cs : Chars) → cs ≢ [] → All IsDigit cs → parse_usize cs ≡ scan_digits cs 0
unfolding parse_usize
parse-scan [] h digits = absurd (h refl)
parse-scan (c ∷ []) h digits = refl
parse-scan (c ∷ d ∷ cs) h digits = ground arith

pub show_usize-IsDigit : (n : ℕ) → All IsDigit (show_usize n)
unfolding show_usize
show_usize-IsDigit n = show_digits-IsDigit (suc n) n [] tt

pub show_usize-ne-nil : (n : ℕ) → show_usize n ≢ []
unfolding show_usize
show_usize-ne-nil n =
    ground
      (arith, show_digits-ne-nil n (n / 10) ((b'0' + n % 10) ∷ []) (cons-ne-nil (b'0' + n % 10) []))

pub parse-show_usize : (n : ℕ) → n < 2 ^ 64 → parse_usize (show_usize n) ≡ some n
unfolding show_usize scan_digits
parse-show_usize n fits =
    parse-scan (show_usize n) (show_usize-ne-nil n) (show_usize-IsDigit n)
    ∙ scan-show_digits (suc n) n [] (omega arith) fits
