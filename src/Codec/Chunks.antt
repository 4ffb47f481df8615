-- ===== src/Codec/Chunks.antt =====
-- The stream may arrive in any pieces: what `decode` finds does not depend on where it is cut.
use codelldb.Prelude.{
  ℕ, zero, suc, ◌+◌, ◌≤◌, ◌<◌, ◌≡◌, ◌⊎◌, refl, inl, inr, ◌∙◌, sym, ap, some, [], ◌∷◌, ◌++◌, ltb,
  arith, Option-cases, Bool-cases, length, length-append, take_inside, drop_inside,
}
use codelldb.Str.Utf8.{Bytes}
use codelldb.Codec.{
  Json, State, reading_headers, reading_body, DapCodec, Outcome, need_more, out_of_fuel, item,
  panic, unexpected_header, Round, Round-cases, return, continue, find_crlf, read_body,
  header_round, round, decode_loop, decode, Item,
}
use codelldb.Codec.Fuel.{find_crlf-le, round_shrinks, decode_loop-fuel}

find_crlf-append : (b s : Bytes) (p : ℕ) → find_crlf b ≡ some p → find_crlf (b ++ s) ≡ some p
unfolding find_crlf
find_crlf-append [] s p h = cc
find_crlf-append (x ∷ []) s p h = cc
find_crlf-append (x ∷ y ∷ b) s zero h = ground arith
find_crlf-append (x ∷ y ∷ b) s (suc p) h = ground (arith, find_crlf-append (y ∷ b) s p)

-- A round that leaves more bytes behind.
abbrev extend : {R : Type 0} → Round R → Bytes → Round R
extend (return o c b) s = return o c (b ++ s)
extend (continue c b) s = continue c (b ++ s)

abbrev Waits : {R : Type 0} → Round R → Type 0
Waits (return need_more c b) = Unit
Waits _ = ⊥

State-cases : (s : State) → (s ≡ reading_headers) ⊎ (s ≡ reading_body)
State-cases reading_headers = inl refl
State-cases reading_body = inr refl

module _ (json : Json) (s : Bytes) where
  header_round-append :
      (c : DapCodec) (b : Bytes) (p : ℕ)
      → p + 2 ≤ length b
      → (header_round json c (b ++ s) p ≡ extend (header_round json c b p) s)
        × (Waits (header_round json c b p) → ⊥)
  unfolding header_round
  header_round-append c b p inside =
      ground (arith, take_inside (p + 2) b s, drop_inside (p + 2) b s)

  read_body-append :
      (n : ℕ) (b : Bytes)
      → n ≤ length b
      → (read_body json n (b ++ s) ≡ extend (read_body json n b) s)
        × (Waits (read_body json n b) → ⊥)
  unfolding read_body
  read_body-append n b inside =
      ground (arith, take_inside n b s, drop_inside n b s, length-append b s)

  read_body-waits :
      (n : ℕ) (b : Bytes)
      → length b < n
      → read_body json n b ≡ return need_more (record { state = reading_body; content_len = n }) b
  unfolding read_body
  read_body-waits n b short = ground arith

  abbrev Continues : DapCodec → Bytes → Type 0
  Continues c b = (round json c (b ++ s) ≡ extend (round json c b) s) × (Waits (round json c b) → ⊥)

  body-append :
      (c : DapCodec) (b : Bytes)
      → c.state ≡ reading_body
      → (round json c b ≡ return need_more c b) ⊎ Continues c b
  unfolding round
  body-append c b e = elim (Bool-cases (ltb (length b) c.content_len)) [
    | inl short ↦ inl (ground (arith, read_body-waits c.content_len b))
    | inr enough ↦
        let inside : c.content_len ≤ length b = ground arith in
        inr (rw (e, round) (read_body-append c.content_len b inside))
  ]

  headers-append :
      (c : DapCodec) (b : Bytes)
      → c.state ≡ reading_headers
      → (round json c b ≡ return need_more c b) ⊎ Continues c b
  unfolding round
  headers-append c b e = elim (Option-cases (find_crlf b)) [
    | inl none_found ↦ inl (ground arith)
    | inr (p, found) ↦ inr (
        rw (e, found, find_crlf-append b s p found, round)
          (header_round-append c b p (find_crlf-le b p found)))
  ]

  -- A round either waits and leaves everything as it was, or does the same when more bytes follow.
  round-append :
      (c : DapCodec) (b : Bytes) → (round json c b ≡ return need_more c b) ⊎ Continues c b
  round-append c b = elim (State-cases c.state) [
    | inl e ↦ headers-append c b e
    | inr e ↦ body-append c b e
  ]

  -- What happens when `s` arrives after a call of `decode`: it is called again if it asked for
  -- more bytes, and `s` waits in the buffer if not.
  abbrev pub resume :
      Outcome (Item json) × DapCodec × Bytes → Outcome (Item json) × DapCodec × Bytes
  resume (need_more, c, b) = decode json c (b ++ s)
  resume (o, c, b) = (o, c, b ++ s)

  resume_returns :
      (o : Outcome (Item json)) (c : DapCodec) (b : Bytes)
      → (Waits (return o c b) → ⊥)
      → (o, c, b ++ s) ≡ resume (o, c, b)
  resume_returns need_more c b h = absurd (h tt)
  resume_returns (item x) c b h = refl
  resume_returns (unexpected_header x) c b h = refl
  resume_returns panic c b h = refl
  resume_returns out_of_fuel c b h = refl

  loop_waits :
      (f : ℕ) (c : DapCodec) (b : Bytes)
      → round json c b ≡ return need_more c b
      → decode_loop json (suc f) c b ≡ (need_more, c, b)
  unfolding decode_loop
  loop_waits f c b h = rw (h, decode_loop)

  decode_loop-append :
      (f g : ℕ) (c : DapCodec) (b : Bytes)
      → length b < f
      → length (b ++ s) < g
      → decode_loop json g c (b ++ s) ≡ resume (decode_loop json f c b)
  unfolding decode decode_loop
  decode_loop-append zero g c b hf hg = elim hf [ ]
  decode_loop-append (suc f) zero c b hf hg = elim hg [ ]
  decode_loop-append (suc f) (suc g) c b hf hg = elim (round-append c b) [
    | inl waits ↦
        decode_loop-fuel json (suc g) (suc (length (b ++ s))) c (b ++ s) hg (omega arith)
        ∙ sym (ap resume (loop_waits f c b waits))
    | inr (same, goes) ↦ elim (Round-cases (round json c b)) [
      | inl (o, c', b', h) ↦ rw (same, h, decode_loop) (resume_returns o c' b' (rw h at goes))
      | inr (c', b', h) ↦
          let less = round_shrinks json c b h in
          rw (same, h, decode_loop)
            (decode_loop-append f g c' b' (omega arith)
              (omega (arith, length-append b s, length-append b' s)))
    ]
  ]

  -- Decoding a buffer with more bytes behind it is decoding the buffer and then resuming: if it
  -- asked for more bytes, `decode` is called in the state and on the buffer that it left, with the
  -- new bytes behind; if not, the result stands and the new bytes wait in the buffer.
  pub decode-append : (c : DapCodec) (b : Bytes) → decode json c (b ++ s) ≡ resume (decode json c b)
  unfolding decode
  decode-append c b =
      decode_loop-append (suc (length b)) (suc (length (b ++ s))) c b (omega arith) (omega arith)
