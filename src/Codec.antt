-- ===== src/Codec.antt =====
-- src/codelldb/src/dap_codec.rs: the framing of debug-adapter-protocol messages. The buffer is the
-- list of the bytes received; serde_json, which the codec calls, is a parameter.
pub mod Fuel
pub mod Chunks
pub mod RoundTrip
pub mod Guard
pub mod Tests
use codelldb.Prelude.{
  ◌≡◌, ◌⊎◌, inl, inr, refl, ℕ, zero, suc, ◌+◌, ◌-◌, Bool, true, false, ◌&&◌, ◌||◌, not, Option,
  none, some, List, [], ◌∷◌, ◌++◌, leb, ltb, ◌==◌, if◌then◌else◌, ◌>>=◌, length, take, drop,
  get_elem?,
}
use mathlib.Core.Option
use codelldb.Prelude.Map.{has}
use codelldb.Prelude.Text.{Chars, chars}
use codelldb.Str.Utf8.{Bytes, from_utf8, is_boundary_byte}
use codelldb.Str.Trim.{trim}
use codelldb.Str.Decimal.{parse_usize, show_usize}

-- serde_json at the two types that the codec reads, the type of its errors, and whether the
-- `debug!` lines are enabled, which read the message as text.
pub record Json : Type 1 where
  pub Message : Type 0
  pub Value : Type 0
  pub Error : Type 0
  pub null : Value
  pub from_slice : Bytes → Option Message
  pub error_of : Bytes → Error
  pub value_from_slice : Bytes → Option Value
  pub to_vec : Message → Bytes
  pub debug_enabled : Bool

pub data State : Type 0 where
  reading_headers reading_body : State

pub record DapCodec : Type 0 where
  pub state : State
  pub content_len : ℕ

abbrev pub new : DapCodec
new = record { state = reading_headers; content_len = 0 }

-- `DecoderResult`: a message, or the error with what the bytes are as a JSON value.
pub data DecoderResult (M V E : Type 0) : Type 0 where
  message : M → DecoderResult M V E
  serde_error : E → V → DecoderResult M V E

-- What a call of `decode` comes to: `Ok(None)`, `Ok(Some(item))`, `Err(_)` with the header line, a
-- panic, or the end of the fuel.
pub data Outcome (R : Type 0) : Type 0 where
  need_more : Outcome R
  item : R → Outcome R
  unexpected_header : Chars → Outcome R
  panic : Outcome R
  out_of_fuel : Outcome R

pub data Round (R : Type 0) : Type 0 where
  return : Outcome R → DapCodec → Bytes → Round R
  continue : DapCodec → Bytes → Round R

pub Round-cases :
    {R : Type 0} (r : Round R)
    → ((o : Outcome R) × (c : DapCodec) × (b : Bytes) × (r ≡ return o c b))
      ⊎ ((c : DapCodec) × (b : Bytes) × (r ≡ continue c b))
Round-cases (return o c b) = inl (o, c, b, refl)
Round-cases (continue c b) = inr (c, b, refl)

-- `buffer.windows(2).position(|b| b == [b'\r', b'\n'])`
unfoldable pub find_crlf : Bytes → Option ℕ
find_crlf [] = none
find_crlf (a ∷ []) = none
find_crlf (a ∷ b ∷ bs) =
    if a == b'\r' && b == b'\n' then some 0 else Option.map suc (find_crlf (b ∷ bs))

-- `u8::eq_ignore_ascii_case` compares these.
unfoldable pub ascii_lower : ℕ → ℕ
ascii_lower b = if leb b'A' b && leb b b'Z' then b + 32 else b

-- Does the text begin with the prefix, whatever the case of ASCII letters?
unfoldable pub eq_prefix : Bytes → Bytes → Bool
unfolding ascii_lower
eq_prefix line [] = true
eq_prefix [] (p ∷ ps) = false
eq_prefix (b ∷ bs) (p ∷ ps) = ascii_lower b == ascii_lower p && eq_prefix bs ps

pub data Prefix : Type 0 where
  rest : Bytes → Prefix
  differs : Prefix
  bad_slice : Prefix

-- Is there a character boundary at byte `n`, with `n` at most the length?
abbrev pub is_char_boundary : Bytes → ℕ → Bool
is_char_boundary [] n = true
is_char_boundary (b ∷ bs) zero = is_boundary_byte b
is_char_boundary (b ∷ bs) (suc n) = is_char_boundary bs n

-- The slice `line[..prefix.len()]` panics inside a character.
unfoldable pub has_prefix : Bytes → Bytes → Prefix
unfolding eq_prefix
has_prefix line prefix =
    if leb (length prefix) (length line)
    then (if is_char_boundary line (length prefix)
        then (if eq_prefix line prefix then rest (drop (length prefix) line) else differs)
        else bad_slice)
    else differs

abbrev pub content_length_header : Bytes
content_length_header = chars "Content-Length:"

abbrev pub origin_header : Bytes
origin_header = chars "Origin:"

-- What a header line does: go on with this length, stop with an error, or panic.
pub data Header : Type 0 where
  go_on : ℕ → Header
  refuse : Chars → Header
  crash : Header

unfoldable pub read_length : Bytes → ℕ → ℕ
read_length text old = elim (do cs ← from_utf8 text; parse_usize (trim cs)) [
  | some n ↦ n
  | none ↦ old
]

unfoldable pub origin_guard : Bytes → Chars → ℕ → Header
unfolding has_prefix
origin_guard line text len = elim (has_prefix line origin_header) [
  | rest _ ↦ refuse text
  | differs ↦ go_on len
  | bad_slice ↦ crash
]

-- A header line that is UTF-8; `text` is that line as text.
unfoldable pub header_text : Bytes → Chars → ℕ → Header
unfolding has_prefix read_length origin_guard
header_text line text len = elim (has_prefix line content_length_header) [
  | rest r ↦ go_on (read_length r len)
  | differs ↦ origin_guard line text len
  | bad_slice ↦ crash
]

-- A line that is no UTF-8 is passed over.
unfoldable pub header_line : Bytes → ℕ → Header
unfolding header_text
header_line line len = elim (from_utf8 line) [
  | some text ↦ header_text line text len
  | none ↦ go_on len
]

module _ (json : Json) where
  open json use {
    Message, Value, Error, null, from_slice, error_of, value_from_slice, to_vec, debug_enabled,
  }

  abbrev pub Item : Type 0
  Item = DecoderResult Message Value Error

  -- The error case parses again, and falls back to `Null`.
  unfoldable pub parse_body : Bytes → Item
  parse_body bytes = elim (from_slice bytes) [
    | some m ↦ message m
    | none ↦
        serde_error (error_of bytes) (elim (value_from_slice bytes) [ some v ↦ v | none ↦ null ])
  ]

  unfoldable pub read_body : ℕ → Bytes → Round Item
  unfolding parse_body
  read_body len buffer =
      if ltb (length buffer) len
      then return need_more (record { state = reading_body; content_len = len }) buffer
      else if debug_enabled && not (has (from_utf8 (take len buffer)))
      then return panic new (drop len buffer)
      else return (item (parse_body (take len buffer))) new (drop len buffer)

  -- One round of the `loop` of `decode` either returns or goes on with what is left.
  unfoldable pub header_round : DapCodec → Bytes → ℕ → Round Item
  header_round codec buffer pos =
      if pos == 0
      then continue (record codec { state = reading_body }) (drop (pos + 2) buffer)
      else elim (header_line (take (pos + 2) buffer) codec.content_len) [
        | go_on len ↦ continue (record codec { content_len = len }) (drop (pos + 2) buffer)
        | refuse line ↦ return (unexpected_header line) codec (drop (pos + 2) buffer)
        | crash ↦ return panic codec (drop (pos + 2) buffer)
      ]

  unfoldable pub round : DapCodec → Bytes → Round Item
  round codec buffer = elim codec.state [
    | reading_body ↦ read_body codec.content_len buffer
    | reading_headers ↦ elim (find_crlf buffer) [
      | none ↦ return need_more codec buffer
      | some pos ↦ header_round codec buffer pos
    ]
  ]

  unfoldable pub decode_loop : ℕ → DapCodec → Bytes → Outcome Item × DapCodec × Bytes
  decode_loop zero codec buffer = (out_of_fuel, codec, buffer)
  decode_loop (suc fuel) codec buffer = elim (round codec buffer) [
    | return outcome codec' buffer' ↦ (outcome, codec', buffer')
    | continue codec' buffer' ↦ decode_loop fuel codec' buffer'
  ]

  unfoldable pub decode : DapCodec → Bytes → Outcome Item × DapCodec × Bytes
  decode codec buffer = decode_loop (suc (length buffer)) codec buffer

  -- Appends the frame of a message to the buffer.
  unfoldable pub encode : Message → Bytes → Bytes
  encode m buffer =
      let body = to_vec m in
      buffer
      ++ (content_length_header
          ++ (b' ' ∷ show_usize (length body) ++ b'\r' ∷ b'\n' ∷ b'\r' ∷ b'\n' ∷ body))
