-- ===== src/Fsutil/Quote.antt =====
-- Quoted text reads back as it was, whatever follows it.
use codelldb.Prelude.{
  ◌≡◌, refl, inl, inr, Bool, true, false, Option, none, some, [], ◌∷◌, ◌++◌, append_assoc, ◌==◌,
  if◌then◌else◌, ◌>>=◌, arith, Bool-cases,
}
use codelldb.Prelude.Text.{Chars}
use codelldb.Fsutil.{quote, backslash, escape, lldb_quoted_string}

-- How text in double quotes is read: up to the quote, a character behind a backslash standing for
-- itself; the flag tells that there is one in front. The result is the text and what follows the
-- quote.
unfoldable pub read_text : Bool → Chars → Option (Chars × Chars)
read_text escaped [] = none
read_text true (c ∷ cs) = do r ← read_text false cs; some (c ∷ r.0, r.1)
read_text false (c ∷ cs) =
    let behind = read_text true cs in
    let plain = read_text false cs in
    if c == quote
    then some ([], cs)
    else if c == backslash
    then behind
    else (do r ← plain; some (c ∷ r.0, r.1))

unfoldable pub unquote : Chars → Option (Chars × Chars)
unfolding read_text
unquote [] = none
unquote (c ∷ cs) = if c == quote then read_text false cs else none

read_text-escape : (s rest : Chars) → read_text false (escape s ++ quote ∷ rest) ≡ some (s, rest)
unfolding escape read_text
read_text-escape [] rest = refl
read_text-escape (c ∷ cs) rest = elim (Bool-cases (c == backslash)) [
  | inl slash ↦ rw (slash) (ground (arith, read_text-escape cs rest))
  | inr no_slash ↦ elim (Bool-cases (c == quote)) [
    | inl quoted ↦ rw (no_slash, quoted) (ground (arith, read_text-escape cs rest))
    | inr no_quote ↦ rw (no_slash, no_quote) (ground (arith, read_text-escape cs rest))
  ]
]

-- A quoted text reads back as the text, whatever follows.
pub unquote-lldb_quoted_string :
    (s rest : Chars) → unquote (lldb_quoted_string s ++ rest) ≡ some (s, rest)
unfolding unquote lldb_quoted_string
unquote-lldb_quoted_string s rest =
    rw (append_assoc (escape s) (quote ∷ []) rest) (read_text-escape s rest)
