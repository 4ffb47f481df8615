-- ===== src/Codec/RoundTrip.antt =====
-- What `encode` writes `decode` reads back, one message or many.
use codelldb.Prelude.{
  ℕ, zero, suc, ◌+◌, ◌^◌, ◌<◌, ◌≡◌, ◌≢◌, refl, ◌∙◌, sym, ap, false, some, List, [], ◌∷◌, ◌++◌,
  append_assoc, append-nil, map, ◌&&◌, not, arith, length, take, drop, length-append, take-append,
  drop-append, All, All-append,
}
use codelldb.Prelude.Map.{has}
use codelldb.Str.Utf8.{Bytes, from_utf8, from_utf8-ascii}
use codelldb.Str.Trim.{trim_around, is_whitespace, IsInk}
use codelldb.Str.Decimal.{
  show_usize, IsDigit, show_usize-IsDigit, show_usize-ne-nil, parse-show_usize,
}
use codelldb.Codec.{
  Json, reading_headers, reading_body, DapCodec, new, Outcome, item, message, return, continue,
  find_crlf, has_prefix, content_length_header, read_length, header_line, go_on, parse_body,
  read_body, header_round, round, decode, encode, Item,
}
use codelldb.Codec.Fuel.{decode_continue, decode_return}

-- The line break behind text without carriage returns is found where it is.
pub find_crlf-line :
    (line t : Bytes)
    → All (λ b. b ≢ b'\r') line
    → find_crlf (line ++ b'\r' ∷ b'\n' ∷ t) ≡ some (length line)
unfolding find_crlf
find_crlf-line [] t h = refl
find_crlf-line (b ∷ []) t h = ground arith
find_crlf-line (b ∷ c ∷ line) t h = ground (arith, find_crlf-line (c ∷ line) t)

abbrev pub crlf : Bytes
crlf = b'\r' ∷ b'\n' ∷ []

-- Cutting the buffer behind a line and its break.
pub take_line : (line t : Bytes) → take (length line + 2) (line ++ b'\r' ∷ b'\n' ∷ t) ≡ line ++ crlf
take_line line t =
    rw (← append_assoc line crlf t, ← length-append line crlf) (take-append (line ++ crlf) t)

pub drop_line : (line t : Bytes) → drop (length line + 2) (line ++ b'\r' ∷ b'\n' ∷ t) ≡ t
drop_line line t =
    rw (← append_assoc line crlf t, ← length-append line crlf) (drop-append (line ++ crlf) t)

digits-ascii : (cs : Bytes) → All IsDigit cs → All (λ b. b < 0x80) cs
digits-ascii [] h = tt
digits-ascii (c ∷ cs) h = (omega arith, digits-ascii cs h.1)

digits-IsInk : (cs : Bytes) → All IsDigit cs → All IsInk cs
unfolding is_whitespace
digits-IsInk [] h = tt
digits-IsInk (c ∷ cs) h = (ground arith, digits-IsInk cs h.1)

digits-no_cr : (cs : Bytes) → All IsDigit cs → All (λ b. b ≢ b'\r') cs
digits-no_cr [] h = tt
digits-no_cr (c ∷ cs) h = (omega arith, digits-no_cr cs h.1)

-- The header line that `encode` writes, without its break.
abbrev pub length_line : ℕ → Bytes
length_line n = content_length_header ++ b' ' ∷ show_usize n

length_line-no_cr : (n : ℕ) → All (λ b. b ≢ b'\r') (length_line n)
length_line-no_cr n =
    All-append _ content_length_header (b' ' ∷ show_usize n) (omega arith)
      (omega arith, digits-no_cr _ (show_usize-IsDigit n))

value_text-ascii : (n : ℕ) → All (λ b. b < 0x80) (b' ' ∷ show_usize n ++ crlf)
value_text-ascii n = (
  omega arith,
  All-append _ (show_usize n) crlf (digits-ascii _ (show_usize-IsDigit n)) (omega arith),
)

length_line-ascii : (n : ℕ) → All (λ b. b < 0x80) (length_line n ++ crlf)
length_line-ascii n =
    All-append _ content_length_header (b' ' ∷ show_usize n ++ crlf) (omega arith)
      (value_text-ascii n)

read_length-line : (n old : ℕ) → n < 2 ^ 64 → read_length (b' ' ∷ show_usize n ++ crlf) old ≡ n
unfolding read_length is_whitespace
read_length-line n old fits = rw (
  from_utf8-ascii _ (value_text-ascii n),
  trim_around b' ' b'\r' b'\n' (show_usize n) refl refl refl (digits-IsInk _ (show_usize-IsDigit n))
      (show_usize-ne-nil n),
  parse-show_usize n fits,
  read_length,
)

header-length_line : (n old : ℕ) → n < 2 ^ 64 → header_line (length_line n ++ crlf) old ≡ go_on n
unfolding header_line has_prefix
header-length_line n old fits =
    rw (from_utf8-ascii _ (length_line-ascii n), header_line)
      (ground (arith, read_length-line n old fits))

-- The frame of a message: its header line, an empty line, and the body.
abbrev pub frame : Bytes → Bytes
frame body = length_line (length body) ++ b'\r' ∷ b'\n' ∷ b'\r' ∷ b'\n' ∷ body

-- The log lines read a body as text, so it is UTF-8 where they are enabled.
abbrev pub IsReadable : Json → Bytes → Type 0
IsReadable json body = json.debug_enabled && not (has (from_utf8 body)) ≡ false

module _ (json : Json) where
  header_round-frame :
      (old : ℕ) (n : ℕ) (t : Bytes)
      → n < 2 ^ 64
      → round json
          (record { state = reading_headers; content_len = old })
          (length_line n ++ b'\r' ∷ b'\n' ∷ t)
        ≡ continue (record { state = reading_headers; content_len = n }) t
  unfolding round header_round
  header_round-frame old n t fits =
      rw
        (
          find_crlf-line (length_line n) t (length_line-no_cr n),
          take_line (length_line n) t,
          header-length_line n old fits,
          round,
          header_round,
        )
        (ground (arith, drop_line (length_line n) t))

  blank_round :
      (n : ℕ) (t : Bytes)
      → round json (record { state = reading_headers; content_len = n }) (b'\r' ∷ b'\n' ∷ t)
        ≡ continue (record { state = reading_body; content_len = n }) t
  unfolding round header_round find_crlf
  blank_round n t = refl

  body_round :
      (body t : Bytes) (m : json.Message)
      → IsReadable json body
      → json.from_slice body ≡ some m
      → round json (record { state = reading_body; content_len = length body }) (body ++ t)
        ≡ return (item (message m)) new t
  unfolding round read_body parse_body
  body_round body t m text parsed =
      ground (arith, take-append body t, drop-append body t, length-append body t)

  -- In any state between two messages, a framed body is decoded to its message, and what follows
  -- it stays in the buffer.
  decode-frame :
      (old : ℕ) (body t : Bytes) (m : json.Message)
      → length body < 2 ^ 64
      → IsReadable json body
      → json.from_slice body ≡ some m
      → decode json (record { state = reading_headers; content_len = old }) (frame body ++ t)
        ≡ (item (message m), new, t)
  decode-frame old body t m fits text parsed =
      decode_continue json _ _ (rw append_assoc (header_round-frame old (length body) _ fits))
      ∙ decode_continue json _ _ (blank_round (length body) (body ++ t))
      ∙ decode_return json _ _ (body_round body t m text parsed)

  -- A message that serde_json can read back, whose frame can be decoded.
  pub record IsFrameable (m : json.Message) : Type 0 where
    pub reads_back : json.from_slice (json.to_vec m) ≡ some m
    pub length_lt : length (json.to_vec m) < 2 ^ 64
    pub readable : IsReadable json (json.to_vec m)

  encode-frame : (m : json.Message) (b : Bytes) → encode json m b ≡ b ++ frame (json.to_vec m)
  unfolding encode
  encode-frame m b = refl

  -- Between two messages, decoding what `encode` wrote for a message, with any bytes behind, gives
  -- that message and leaves those bytes, if serde_json reads the message back, its length fits 64
  -- bits, and it is UTF-8 where the log lines are on.
  pub decode-encode :
      (old : ℕ) (m : json.Message) (t : Bytes)
      → IsFrameable m
      → decode json (record { state = reading_headers; content_len = old }) (encode json m [] ++ t)
        ≡ (item (message m), new, t)
  decode-encode old m t h =
      rw encode-frame (decode-frame old (json.to_vec m) t m h.length_lt h.readable h.reads_back)

  -- Messages written one after another into one buffer.
  abbrev pub encode_all : List json.Message → Bytes → Bytes
  encode_all [] b = b
  encode_all (m ∷ ms) b = encode_all ms (encode json m b)

  abbrev take_item :
      Outcome (Item json) × DapCodec × Bytes
      → (DapCodec → Bytes → List (Item json) × Bytes)
      → List (Item json) × Bytes
  take_item (item i, c, b) more = let (is, left) = more c b in (i ∷ is, left)
  take_item (_, c, b) more = ([], b)

  -- At most `n` items, as the reader of the stream takes them.
  pub decode_items : ℕ → DapCodec → Bytes → List (Item json) × Bytes
  decode_items zero c b = ([], b)
  decode_items (suc n) c b = take_item (decode json c b) (decode_items n)

  encode_all-append :
      (ms : List json.Message) (b c : Bytes) → encode_all ms (b ++ c) ≡ b ++ encode_all ms c
  unfolding encode
  encode_all-append [] b c = refl
  encode_all-append (m ∷ ms) b c = rw (append_assoc) (encode_all-append ms b (encode json m c))

  -- Reading the buffer into which messages were encoded one after another gives these messages in
  -- order and leaves nothing, if serde_json reads each of them back, their lengths fit 64 bits, and
  -- they are UTF-8 where the log lines are on.
  pub decode_items-encode_all :
      (ms : List json.Message)
      → All IsFrameable ms
      → decode_items (length ms) new (encode_all ms []) ≡ (map message ms, [])
  unfolding decode_items
  decode_items-encode_all [] h = refl
  decode_items-encode_all (m ∷ ms) h =
      let first : encode_all (m ∷ ms) [] ≡ encode json m [] ++ encode_all ms [] =
        ap (encode_all ms) (sym (append-nil (encode json m [])))
        ∙ encode_all-append ms (encode json m []) [] in
      rw (
        first,
        decode-encode 0 m (encode_all ms []) h.0,
        decode_items-encode_all ms h.1,
        decode_items,
      )
