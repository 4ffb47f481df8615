-- ===== src/Codec/Fuel.antt =====
-- `decode` always returns: every round of its loop that goes on drops a line from the buffer.
use codelldb.Prelude.{
  ℕ, zero, suc, ◌∙◌, ap, ◌+◌, ◌≤◌, ◌<◌, ◌≡◌, ◌≢◌, inl, inr, some, [], ◌∷◌, arith, Option-cases,
  length, length-drop,
}
use codelldb.Str.Utf8.{Bytes}
use codelldb.Codec.{
  Json, DapCodec, Outcome, out_of_fuel, Round-cases, return, continue, find_crlf, read_body,
  header_round, round, decode_loop, decode, Item,
}

pub find_crlf-le : (b : Bytes) (p : ℕ) → find_crlf b ≡ some p → p + 2 ≤ length b
unfolding find_crlf
find_crlf-le [] p h = cc
find_crlf-le (x ∷ []) p h = cc
find_crlf-le (x ∷ y ∷ b) zero h = omega arith
find_crlf-le (x ∷ y ∷ b) (suc p) h = ground (arith, find_crlf-le (y ∷ b) p)

module _ (json : Json) where
  -- A line's round goes on behind the line.
  header_round-shrinks :
      (c : DapCodec) (b : Bytes) (p : ℕ) {c' : DapCodec} {b' : Bytes}
      → p + 2 ≤ length b
      → header_round json c b p ≡ continue c' b'
      → length b' + 2 ≤ length b
  unfolding header_round
  header_round-shrinks c b p inside h = ground (arith, length-drop (p + 2) b)

  read_body-returns :
      (n : ℕ) (b : Bytes) {c' : DapCodec} {b' : Bytes} → read_body json n b ≢ continue c' b'
  unfolding read_body
  read_body-returns n b h = ground arith

  -- A round that goes on has dropped two bytes at least.
  pub round_shrinks :
      (c : DapCodec) (b : Bytes) {c' : DapCodec} {b' : Bytes}
      → round json c b ≡ continue c' b'
      → length b' + 2 ≤ length b
  unfolding round
  round_shrinks c b {c'} {b'} h = elim (Option-cases (find_crlf b)) [
    | inl none_found ↦ ground (arith, read_body-returns c.content_len b {c' = c'} {b' = b'})
    | inr (p, found) ↦ ground (
      arith,
      read_body-returns c.content_len b {c' = c'} {b' = b'},
      header_round-shrinks c b p {c' = c'} {b' = b'},
      find_crlf-le b p,
    )
  ]

  -- Any fuel above the length of the buffer gives the same result.
  pub decode_loop-fuel :
      (f g : ℕ) (c : DapCodec) (b : Bytes)
      → length b < f
      → length b < g
      → decode_loop json f c b ≡ decode_loop json g c b
  unfolding decode_loop
  decode_loop-fuel zero g c b hf hg = elim hf [ ]
  decode_loop-fuel (suc f) zero c b hf hg = elim hg [ ]
  decode_loop-fuel (suc f) (suc g) c b hf hg = elim (Round-cases (round json c b)) [
    | inl (o, c', b', h) ↦ rw (h, decode_loop)
    | inr (c', b', h) ↦
        let less = round_shrinks c b h in
        rw (h, decode_loop) (decode_loop-fuel f g c' b' (omega arith) (omega arith))
  ]

  read_body-fuel :
      (n : ℕ) (b : Bytes) {c' : DapCodec} {b' : Bytes}
      → read_body json n b ≢ return out_of_fuel c' b'
  unfolding read_body
  read_body-fuel n b h = ground arith

  header_round-fuel :
      (c : DapCodec) (b : Bytes) (p : ℕ) {c' : DapCodec} {b' : Bytes}
      → header_round json c b p ≢ return out_of_fuel c' b'
  unfolding header_round
  header_round-fuel c b p h = ground arith

  round-fuel :
      (c : DapCodec) (b : Bytes) {c' : DapCodec} {b' : Bytes}
      → round json c b ≢ return out_of_fuel c' b'
  unfolding round
  round-fuel c b {c'} {b'} h = elim (Option-cases (find_crlf b)) [
    | inl none_found ↦ ground (arith, read_body-fuel c.content_len b {c' = c'} {b' = b'})
    | inr (p, found) ↦ ground (
      arith,
      read_body-fuel c.content_len b {c' = c'} {b' = b'},
      header_round-fuel c b p {c' = c'} {b' = b'},
    )
  ]

  decode_loop-returns :
      (f : ℕ) (c : DapCodec) (b : Bytes) → length b < f → (decode_loop json f c b).0 ≢ out_of_fuel
  unfolding decode_loop
  decode_loop-returns zero c b hf e = elim hf [ ]
  decode_loop-returns (suc f) c b hf e = elim (Round-cases (round json c b)) [
    | inl (o, c', b', h) ↦
        round-fuel c b {c' = c'} {b' = b'} (h ∙ ap (λ x. return x c' b') (rw (h, decode_loop) at e))
    | inr (c', b', h) ↦
        let less = round_shrinks c b h in
        decode_loop-returns f c' b' (omega arith) (rw (h, decode_loop) at e)
  ]

  -- The loop of `decode` ends on every buffer and in every state: it never runs out of the fuel it
  -- is given.
  pub decode_total : (c : DapCodec) (b : Bytes) → (decode json c b).0 ≢ out_of_fuel
  unfolding decode
  decode_total c b = decode_loop-returns (suc (length b)) c b (omega arith)

  -- A call of `decode` by its first round.
  pub decode_continue :
      (c : DapCodec) (b : Bytes) {c' : DapCodec} {b' : Bytes}
      → round json c b ≡ continue c' b'
      → decode json c b ≡ decode json c' b'
  unfolding decode decode_loop
  decode_continue c b {c'} {b'} h =
      let less = round_shrinks c b h in
      rw (h, decode_loop)
        (decode_loop-fuel (length b) (suc (length b')) c' b' (omega arith) (omega arith))

  pub decode_return :
      (c : DapCodec) (b : Bytes) {o : Outcome (Item json)} {c' : DapCodec} {b' : Bytes}
      → round json c b ≡ return o c' b'
      → decode json c b ≡ (o, c', b')
  unfolding decode decode_loop
  decode_return c b h = rw (h, decode, decode_loop)
