-- ===== src/Codec/Tests.antt =====
-- Decoding at concrete bytes, over a JSON parser whose messages are the bytes themselves.
use codelldb.Prelude.{◌≡◌, ◌≢◌, refl, true, Option, none, some, [], ◌∷◌, ◌++◌, map, arith}
use codelldb.Prelude.Text.{chars}
use codelldb.Str.Utf8.{Bytes, from_utf8}
use codelldb.Str.Trim.{trim}
use codelldb.Str.Decimal.{parse_usize, show_usize}
use codelldb.Codec.{
  Json, new, item, message, unexpected_header, panic, out_of_fuel, header_line, round, decode_loop,
  decode, encode, find_crlf, has_prefix, read_body, header_round, parse_body, header_text,
  read_length, origin_guard, ascii_lower,
}
use codelldb.Codec.Fuel.{decode_total}
use codelldb.Codec.Chunks.{decode-append, resume}
use codelldb.Codec.RoundTrip.{IsFrameable, decode_items, encode_all, decode_items-encode_all, crlf}
use codelldb.Codec.Guard.{headers, decode_origin, decode_panics}

-- Empty bytes are no message.
abbrev read_bytes : Bytes → Option Bytes
read_bytes [] = none
read_bytes (b ∷ bs) = some (b ∷ bs)

abbrev bytes_json : Json
bytes_json = record {
  Message = Bytes;
  Value = Bytes;
  Error = Unit {0};
  null = [];
  from_slice = read_bytes;
  error_of = λ b. tt;
  value_from_slice = read_bytes;
  to_vec = λ b. b;
  debug_enabled = true;
}

abbrev hello : Bytes
hello = chars "{\"seq\":1}"

hello-IsFrameable : IsFrameable bytes_json hello
unfolding from_utf8
hello-IsFrameable = record { reads_back = refl; length_lt = omega arith; readable = refl }

encode_test : encode bytes_json hello [] ≡ chars "Content-Length: 9\r\n\r\n{\"seq\":1}"
unfolding encode show_usize
encode_test = refl

-- Other headers, and other case, are accepted.
decode_test :
    decode bytes_json new (chars "X: y\r\ncontent-length:9  \r\n\r\n{\"seq\":1}more")
    ≡ (item (message hello), new, chars "more")
unfolding decode decode_loop round header_round read_body parse_body find_crlf header_line
    header_text read_length origin_guard has_prefix from_utf8 trim parse_usize
decode_test = refl

decode_total_example : (decode bytes_json new hello).0 ≢ out_of_fuel
decode_total_example = decode_total bytes_json new hello

decode-append_example :
    decode bytes_json new (chars "Content-Le" ++ chars "ngth: 1\r\n\r\n0")
    ≡ resume bytes_json (chars "ngth: 1\r\n\r\n0") (decode bytes_json new (chars "Content-Le"))
decode-append_example = decode-append bytes_json (chars "ngth: 1\r\n\r\n0") new (chars "Content-Le")

decode_items-encode_all_example :
    decode_items bytes_json 2 new (encode_all bytes_json (hello ∷ hello ∷ []) [])
    ≡ (map message (hello ∷ hello ∷ []), [])
decode_items-encode_all_example =
    decode_items-encode_all bytes_json (hello ∷ hello ∷ [])
      (hello-IsFrameable, (hello-IsFrameable, tt))

decode_origin_example :
    decode bytes_json (headers 9) ((chars "oRiGiN:" ++ chars " evil") ++ b'\r' ∷ b'\n' ∷ hello)
    ≡ (unexpected_header ((chars "oRiGiN:" ++ chars " evil") ++ crlf), headers 9, hello)
unfolding ascii_lower
decode_origin_example =
    decode_origin bytes_json 9 (chars "oRiGiN:") (chars " evil") hello refl (omega arith)

-- Fourteen letters, and then a letter of two bytes.
abbrev accented : Bytes
accented = chars "X-Custom-Heade" ++ 0xC3 ∷ 0xA9 ∷ []

decode_panics_example :
    decode bytes_json (headers 0) (accented ++ b'\r' ∷ b'\n' ∷ hello) ≡ (panic, headers 0, hello)
unfolding from_utf8
decode_panics_example = decode_panics bytes_json 0 accented hello (omega arith) refl refl
