-- ===== src/Codec/Guard.antt =====
-- Headers that end the session: the guard against requests from a browser, and lines on which the
-- comparison with a header name slices inside a character.
use codelldb.Prelude.{
  ℕ, zero, suc, ◌≤◌, ◌<◌, ◌≡◌, ◌≢◌, refl, ap, true, false, some, List, [], ◌∷◌, ◌++◌, append_assoc,
  map, arith, length, drop, length-append, All, All-append,
}
use codelldb.Prelude.Text.{Chars}
use codelldb.Str.Utf8.{Bytes, from_utf8, from_utf8-ascii}
use codelldb.Codec.{
  Json, reading_headers, DapCodec, unexpected_header, panic, ascii_lower, eq_prefix,
  is_char_boundary, has_prefix, rest, differs, origin_header, content_length_header, origin_guard,
  header_text, header_line, refuse, crash, header_round, round, decode,
}
use codelldb.Codec.Fuel.{decode_return}
use codelldb.Codec.RoundTrip.{find_crlf-line, crlf, take_line, drop_line}

-- The state between the headers of a message.
abbrev pub headers : ℕ → DapCodec
headers n = record { state = reading_headers; content_len = n }

length-pos : (b : Bytes) → b ≢ [] → 0 < length b
length-pos [] h = absurd (h refl)
length-pos (x ∷ b) h = omega arith

eq_prefix-append :
    (name p v : Bytes) → map ascii_lower name ≡ map ascii_lower p → eq_prefix (name ++ v) p ≡ true
unfolding eq_prefix
eq_prefix-append name [] v h = refl
eq_prefix-append [] (b ∷ p) v h = cc
eq_prefix-append (a ∷ name) (b ∷ p) v h = ground (arith, eq_prefix-append name p v)

boundary-ascii : (b : Bytes) (n : ℕ) → All (λ x. x < 0x80) b → is_char_boundary b n ≡ true
boundary-ascii [] n h = refl
boundary-ascii (x ∷ b) zero h = ground arith
boundary-ascii (x ∷ b) (suc n) h = boundary-ascii b n h.1

-- Letters that fold to ASCII letters are no control characters, and are ASCII.
folded :
    (name p : Bytes)
    → map ascii_lower name ≡ map ascii_lower p
    → All (λ x. (x < 0x80) × (x ≢ b'\r')) p
    → All (λ x. (x < 0x80) × (x ≢ b'\r')) name
unfolding ascii_lower
folded [] [] e h = tt
folded [] (b ∷ p) e h = tt
folded (a ∷ name) [] e h = cc
folded (a ∷ name) (b ∷ p) e h = (ground arith, folded name p (cc) h.1)

length-map-ascii_lower : (xs : Bytes) → length (map ascii_lower xs) ≡ length xs
length-map-ascii_lower [] = refl
length-map-ascii_lower (x ∷ xs) = ap suc (length-map-ascii_lower xs)

-- The name of the header in any case.
abbrev pub IsOrigin : Bytes → Type 0
IsOrigin name = map ascii_lower name ≡ map ascii_lower origin_header

origin_facts :
    (name : Bytes)
    → IsOrigin name
    → (length name ≡ 7)
      × All (λ x. (x < 0x80) × (x ≢ b'\r')) name
      × ((v : Bytes) → eq_prefix (name ++ v) content_length_header ≡ false)
unfolding ascii_lower eq_prefix
origin_facts [] e = cc
origin_facts (a ∷ name) e =
    (length-origin, folded (a ∷ name) origin_header e (omega arith), λ v. ground arith)
  where
    length-origin : length (a ∷ name) ≡ 7
    length-origin = omega (arith, ap length e, length-map-ascii_lower (a ∷ name))

All-fst :
    {A : Type 0} (P Q : A → Type 0) (xs : List A) → All (λ x. P x × Q x) xs → All P xs × All Q xs
All-fst P Q [] h = (tt, tt)
All-fst P Q (x ∷ xs) h = ((h.0.0, (All-fst P Q xs h.1).0), (h.0.1, (All-fst P Q xs h.1).1))

has_prefix-differs :
    (line p : Bytes)
    → eq_prefix line p ≡ false
    → All (λ x. x < 0x80) line
    → has_prefix line p ≡ differs
unfolding has_prefix
has_prefix-differs line p e ascii = ground (arith, boundary-ascii line (length p) ascii)

has_prefix-rest :
    (line p : Bytes)
    → length p ≤ length line
    → eq_prefix line p ≡ true
    → All (λ x. x < 0x80) line
    → has_prefix line p ≡ rest (drop (length p) line)
unfolding has_prefix
has_prefix-rest line p le e ascii = ground (arith, boundary-ascii line (length p) ascii)

module _ (json : Json) (n : ℕ) (line t : Bytes) (ne : line ≢ [])
    (no_cr : All (λ b. b ≢ b'\r') line) where
  refused :
      (text : Chars)
      → header_line (line ++ crlf) n ≡ refuse text
      → decode json (headers n) (line ++ b'\r' ∷ b'\n' ∷ t) ≡ (unexpected_header text, headers n, t)
  refused text e = decode_return json _ _ (
      unfold round header_round in
      ground (
        arith,
        find_crlf-line line t no_cr,
        take_line line t,
        drop_line line t,
        e,
        length-pos line ne,
      ))

  crashed :
      header_line (line ++ crlf) n ≡ crash
      → decode json (headers n) (line ++ b'\r' ∷ b'\n' ∷ t) ≡ (panic, headers n, t)
  crashed e = decode_return json _ _ (
      unfold round header_round in
      ground (
        arith,
        find_crlf-line line t no_cr,
        take_line line t,
        drop_line line t,
        e,
        length-pos line ne,
      ))

-- A line that begins with the name of the header is refused.
header_line-origin :
    (n : ℕ) (name v : Bytes)
    → IsOrigin name
    → All (λ x. x < 0x80) v
    → header_line (name ++ v) n ≡ refuse (name ++ v)
unfolding header_line header_text origin_guard
header_line-origin n name v origin ascii_v =
    let (len, plain, other) = origin_facts name origin in
    let ascii : All (λ x. x < 0x80) (name ++ v) =
      All-append _ name v (All-fst _ _ name plain).0 ascii_v in
    let le : 7 ≤ length (name ++ v) = omega (arith, length-append name v, len) in
    rw (
      from_utf8-ascii _ ascii,
      has_prefix-differs (name ++ v) content_length_header (other v) ascii,
      has_prefix-rest (name ++ v) origin_header le (eq_prefix-append name origin_header v origin)
          ascii,
      header_line,
      header_text,
      origin_guard,
    )

-- Between the headers of a message, an `Origin:` header in any case of its letters, with any ASCII
-- value without a carriage return, makes `decode` return an error that quotes the line.
pub decode_origin :
    (json : Json) (n : ℕ) (name value t : Bytes)
    → IsOrigin name
    → All (λ x. (x < 0x80) × (x ≢ b'\r')) value
    → decode json (headers n) ((name ++ value) ++ b'\r' ∷ b'\n' ∷ t)
      ≡ (unexpected_header ((name ++ value) ++ crlf), headers n, t)
decode_origin json n name value t origin plain =
    let (len, letters, other) = origin_facts name origin in
    let (ascii, no_cr) = All-fst _ _ value plain in
    refused json n (name ++ value) t
      (λ e. absurd (omega (arith, ap length e, length-append name value, len)))
      (All-append _ name value (All-fst _ _ name letters).1 no_cr) ((name ++ value) ++ crlf)
      (rw append_assoc (
        header_line-origin n name (value ++ crlf) origin
          (All-append _ value crlf ascii (omega arith))))

boundary-append :
    (b v : Bytes) (n : ℕ) → n < length b → is_char_boundary (b ++ v) n ≡ is_char_boundary b n
boundary-append [] v n h = elim h [ ]
boundary-append (x ∷ b) v zero h = refl
boundary-append (x ∷ b) v (suc n) h = boundary-append b v n (omega arith)

boundary_inside : (b : Bytes) (n : ℕ) → is_char_boundary b n ≡ false → n < length b
boundary_inside [] n h = cc
boundary_inside (x ∷ b) zero h = omega arith
boundary_inside (x ∷ b) (suc n) h = omega (arith, boundary_inside b n h)

header_line-crash :
    (n : ℕ) (line v : Bytes) {text : Chars}
    → is_char_boundary line 15 ≡ false
    → from_utf8 (line ++ v) ≡ some text
    → header_line (line ++ v) n ≡ crash
unfolding header_line header_text has_prefix
header_line-crash n line v inside utf8 =
    ground (arith, boundary_inside line 15, boundary-append line v 15, length-append line v)

-- Between the headers of a message, a UTF-8 line without a carriage return that has a character
-- across its 15th and 16th byte makes `decode` panic.
pub decode_panics :
    (json : Json) (n : ℕ) (line t : Bytes) {text : Chars}
    → All (λ b. b ≢ b'\r') line
    → from_utf8 (line ++ crlf) ≡ some text
    → is_char_boundary line 15 ≡ false
    → decode json (headers n) (line ++ b'\r' ∷ b'\n' ∷ t) ≡ (panic, headers n, t)
decode_panics json n line t no_cr utf8 inside =
    crashed json n line t (λ e. absurd (omega (arith, ap length e, boundary_inside line 15 inside)))
      no_cr (header_line-crash n line crlf inside utf8)
