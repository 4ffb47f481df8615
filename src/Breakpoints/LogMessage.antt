-- ===== src/Breakpoints/LogMessage.antt =====
-- `format_logpoint_message`: expressions in braces inside a log message are replaced by their values.
use mathlib.Core.Option
use codelldb.Prelude.{
  ◌∙◌, sym, ap, ℕ, suc, ◌-◌, ◌<◌, ◌≡◌, refl, inl, inr, Bool, true, false, ◌&&◌, Option, none, some,
  [], ◌∷◌, ◌++◌, append_assoc, append-nil, ltb, ◌==◌, if◌then◌else◌, ◌>>=◌, arith, Bool-cases,
  Option-cases,
}
use codelldb.Prelude.Text.{Chars, chars}
use codelldb.Prelude.Exec.{Outcome, ok, error, panic}

abbrev pub open_brace : ℕ
open_brace = 123

abbrev pub close_brace : ℕ
close_brace = 125

-- The variables of the loop; `segment` is the slice of the message from `start` to here.
pub record Scan : Type 0 where
  pub segment : Chars
  pub nesting : ℕ
  pub result : Chars

-- `none` is the panic of an expression that is malformed.
unfoldable pub value_or_error : Outcome Chars → Option Chars
value_or_error (ok text) = some text
value_or_error (error e) = some (chars "{Error: " ++ e ++ chars "}")
value_or_error panic = none

unfoldable pub on_open : Scan → Scan
on_open s =
    if s.nesting == 0
    then record { segment = []; nesting = suc s.nesting; result = s.result ++ s.segment }
    else record s { segment = s.segment ++ open_brace ∷ []; nesting = suc s.nesting }

module _ (f : Chars → Outcome Chars) where
  unfoldable pub on_close : Scan → Option Scan
  unfolding value_or_error
  on_close s =
      if s.nesting == 1
      then (do
        text ← value_or_error (f s.segment)
        some (record { segment = []; nesting = 0; result = s.result ++ text }))
      else some (record s { segment = s.segment ++ close_brace ∷ []; nesting = s.nesting - 1 })

  unfoldable pub on_char : ℕ → Scan → Option Scan
  unfolding on_open on_close
  on_char ch s =
      if ch == open_brace
      then some (on_open s)
      else if ch == close_brace && ltb 0 s.nesting
      then on_close s
      else some (record s { segment = s.segment ++ ch ∷ [] })

  unfoldable pub scan : Scan → Chars → Option Chars
  unfolding on_char
  scan s [] = some (s.result ++ s.segment)
  scan s (ch ∷ message) = do s' ← on_char ch s; scan s' message

  unfoldable pub replace_logpoint_expressions : Chars → Option Chars
  unfolding scan
  replace_logpoint_expressions message =
      scan (record { segment = []; nesting = 0; result = [] }) message

-- Text that ends at the depth 1 and is never less deep.
unfoldable pub inside : ℕ → Chars → Bool
inside n [] = n == 1
inside n (c ∷ cs) =
    let deeper = inside (suc n) cs in
    let higher = inside (n - 1) cs in
    let same = inside n cs in
    if c == open_brace then deeper else if c == close_brace then ltb 1 n && higher else same

unfoldable pub no_open : Chars → Bool
no_open [] = true
no_open (c ∷ cs) = let rest = no_open cs in if c == open_brace then false else rest

module _ (f : Chars → Outcome Chars) where
  abbrev at : Chars → ℕ → Chars → Scan
  at seg n res = record { segment = seg; nesting = n; result = res }

  -- What a character inside an expression does, if it does not end it.
  on_char-open :
      (n : ℕ) (seg res : Chars)
      → 0 < n
      → on_char f open_brace (at seg n res) ≡ some (at (seg ++ open_brace ∷ []) (suc n) res)
  unfolding on_char on_open
  on_char-open n seg res pos =
      (let not_zero : n == 0 ≡ false = ground arith in simp (on_char, on_open, not_zero))

  on_char-close :
      (n : ℕ) (seg res : Chars)
      → 1 < n
      → on_char f close_brace (at seg n res) ≡ some (at (seg ++ close_brace ∷ []) (n - 1) res)
  unfolding on_char on_close
  on_char-close n seg res more =
      let deep : ltb 0 n ≡ true = ground arith in
      let not_one : n == 1 ≡ false = ground arith in simp (on_char, on_close, deep, not_one)

  on_char-other :
      (c n : ℕ) (seg res : Chars)
      → c == open_brace ≡ false
      → c == close_brace ≡ false
      → on_char f c (at seg n res) ≡ some (at (seg ++ c ∷ []) n res)
  unfolding on_char
  on_char-other c n seg res a b = simp (on_char, a, b)

  scan-step :
      (c n k : ℕ) (seg res cs rest : Chars)
      → on_char f c (at seg n res) ≡ some (at (seg ++ c ∷ []) k res)
      → scan f (at (seg ++ c ∷ []) k res) (cs ++ rest)
        ≡ scan f (at ((seg ++ c ∷ []) ++ cs) 1 res) rest
      → scan f (at seg n res) (c ∷ (cs ++ rest)) ≡ scan f (at (seg ++ c ∷ cs) 1 res) rest
  unfolding scan
  scan-step c n k seg res cs rest e ih = simp e (ih ∙ simp append_assoc)

  -- Inside an expression, up to its end.
  scan-inside :
      (n : ℕ) (seg res e rest : Chars)
      → 0 < n
      → inside n e ≡ true
      → scan f (at seg n res) (e ++ rest) ≡ scan f (at (seg ++ e) 1 res) rest
  unfolding inside
  scan-inside n seg res [] rest pos h =
      (let one : n ≡ 1 = ground arith in rw (append-nil seg, one) refl)
  scan-inside n seg res (c ∷ cs) rest pos h = elim (Bool-cases (c == open_brace)) [
    | inl opens ↦
        let c_eq : c ≡ open_brace = ground arith in
        let deeper : inside (suc n) cs ≡ true = ground arith in
        scan-step c n (suc n) seg res cs rest (rw c_eq (on_char-open n seg res pos))
          (scan-inside (suc n) (seg ++ c ∷ []) res cs rest (omega arith) deeper)
    | inr no_opens ↦ elim (Bool-cases (c == close_brace)) [
      | inl closes ↦
          let c_eq : c ≡ close_brace = ground arith in
          let more : 1 < n = ground arith in
          let higher : inside (n - 1) cs ≡ true = ground arith in
          scan-step c n (n - 1) seg res cs rest (rw c_eq (on_char-close n seg res more))
            (scan-inside (n - 1) (seg ++ c ∷ []) res cs rest (omega arith) higher)
      | inr no_closes ↦
          let same : inside n cs ≡ true = ground arith in
          scan-step c n n seg res cs rest (on_char-other c n seg res no_opens no_closes)
            (scan-inside n (seg ++ c ∷ []) res cs rest pos same)
    ]
  ]

  -- Outside, up to an opening brace.
  scan-outside :
      (seg res pre rest : Chars)
      → no_open pre ≡ true
      → scan f (at seg 0 res) (pre ++ rest) ≡ scan f (at (seg ++ pre) 0 res) rest
  unfolding scan on_char no_open
  scan-outside seg res [] rest h = rw (append-nil seg) refl
  scan-outside seg res (c ∷ cs) rest h =
      let no_opens : c == open_brace ≡ false = ground arith in
      let kept : on_char f c (at seg 0 res) ≡ some (at (seg ++ c ∷ []) 0 res) = ground arith in
      simp kept (scan-outside (seg ++ c ∷ []) res cs rest (ground arith) ∙ simp append_assoc)

  -- The text in front and the value of the first expression come out, and the rest goes on from there.
  scan-first :
      (pre e rest text : Chars)
      → no_open pre ≡ true
      → inside 1 e ≡ true
      → value_or_error (f e) ≡ some text
      → replace_logpoint_expressions f (pre ++ open_brace ∷ (e ++ close_brace ∷ rest))
        ≡ scan f (at [] 0 (pre ++ text)) rest
  unfolding replace_logpoint_expressions scan on_char on_open on_close
  scan-first pre e rest text a b v =
      scan-outside [] [] pre (open_brace ∷ (e ++ close_brace ∷ rest)) a
      ∙ scan-inside 1 [] pre e (close_brace ∷ rest) (omega arith) b
      ∙ simp v

  -- What came out before stays in front.
  scan-result :
      (r seg : Chars) (n : ℕ) (res cs : Chars)
      → scan f (at seg n (r ++ res)) cs ≡ Option.map (λ t. r ++ t) (scan f (at seg n res) cs)
  unfolding scan on_char on_open on_close
  scan-result r seg n res [] = simp append_assoc
  scan-result r seg n res (c ∷ cs) =
      let ih : (seg' : Chars) (n' : ℕ) (res' : Chars)
          → scan f (at seg' n' (r ++ res')) cs
            ≡ Option.map (λ t. r ++ t) (scan f (at seg' n' res') cs) =
        (λ seg' n' res'. scan-result r seg' n' res' cs) in
      elim (Bool-cases (c == open_brace)) [
        | inl opens ↦ elim (Bool-cases (n == 0)) [
          | inl top ↦ simp (opens, top, append_assoc, ih)
          | inr deep ↦ simp (opens, deep, ih)
        ]
        | inr no_opens ↦ elim (Bool-cases (c == close_brace && ltb 0 n)) [
          | inr other ↦ simp (no_opens, other, ih)
          | inl closes ↦ elim (Bool-cases (n == 1)) [
            | inr deep ↦ simp (no_opens, closes, deep, ih)
            | inl last ↦ elim (Option-cases (value_or_error (f seg))) [
              | inl crash ↦ simp (no_opens, closes, last, crash)
              | inr (text, v) ↦ simp (no_opens, closes, last, v, append_assoc, ih)
            ]
          ]
        ]
      ]

  -- Of a message, the text in front of the first opening brace is kept, the text inside the braces up
  -- to the closing brace that belongs to it is replaced by its value or error, and so on with the
  -- rest, if the evaluation does not panic.
  pub replace_logpoint_expressions-first :
      (pre e rest text : Chars)
      → no_open pre ≡ true
      → inside 1 e ≡ true
      → value_or_error (f e) ≡ some text
      → replace_logpoint_expressions f (pre ++ open_brace ∷ (e ++ close_brace ∷ rest))
        ≡ Option.map (λ t. (pre ++ text) ++ t) (replace_logpoint_expressions f rest)
  unfolding replace_logpoint_expressions
  replace_logpoint_expressions-first pre e rest text a b v =
      scan-first pre e rest text a b v
      ∙ ap (λ out. scan f (at [] 0 out) rest) (sym (append-nil (pre ++ text)))
      ∙ scan-result (pre ++ text) [] 0 [] rest
