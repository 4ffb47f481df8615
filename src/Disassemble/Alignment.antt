-- ===== src/Disassemble/Alignment.antt =====
-- Where decoding has to begin for a line to start at the base address, and where that line stands in
-- the answer.
use mathlib.Core.Path.{subst}
use codelldb.Prelude.{
  ◌∙◌, inl, inr, ℕ, zero, suc, ◌+◌, ◌-◌, ◌<◌, ◌≤◌, ◌^◌, ◌≡◌, refl, sym, ap, Bool, Option, none,
  some, List, [], ◌∷◌, map, length, take, drop, get_elem?, arith, Bool-cases, Option-cases, ◌==◌,
  some_eq,
}
use codelldb.Prelude.Int.{
  ℤ, pos, negsuc, pos_part, neg_part, IsI64, ◌+ℤ◌, wrap_i64-IsI64, wrapping_sum,
  wrapping_sum_forward,
}
use codelldb.Prelude.Exec.{Outcome, ok, panic, Exec}
use codelldb.Prelude.Done.{Done}
use codelldb.Str.Utf8.{Bytes}
use codelldb.Fsutil.{PathBuf}
use codelldb.SourceMap.{Sources}
use codelldb.SourceMap.Cached.{IsCached}
use codelldb.Disassembly.{Address}
use codelldb.Disassemble.{Process, Line}
use codelldb.Disassemble.Tiles.{Tile, Fits, disassemble_bytes-Tile}
use codelldb.Disassemble.Render.{View, show_address}
use codelldb.Disassemble.Request.{Aligned, position, pad_front, settle, align, select}
use codelldb.Disassemble.Picked.{get_elem?-append, get_elem?-drop, get_elem?-take}
use codelldb.Disassemble.Selection.{
  addresses, start_of, end_of, IsInside, wanted, length-addresses, select-Done,
}

-- A line of the list that starts at an address, at an index.
abbrev pub StartsAt : {I : Type 0} → Address → List (Line I) → ℕ → Type 0
StartsAt {I} addr ls k = (l : Line I) × (get_elem? ls k ≡ some l) × (l.start ≡ addr)

position-StartsAt :
    {I : Type 0} (addr : Address) (ls : List (Line I)) (k : ℕ)
    → position addr ls ≡ some k
    → StartsAt addr ls k
unfolding position
position-StartsAt addr [] k e = cc
position-StartsAt addr (l ∷ ls) k e = elim (Bool-cases (l.start == addr)) [
  | inl same ↦
      let zeroth : k ≡ 0 = ground arith in
      subst (StartsAt addr (l ∷ ls)) (sym zeroth) (l, refl, ground arith)
  | inr other ↦ elim (Option-cases (position addr ls)) [
    | inl nowhere ↦ (let no : ⊥ = ground arith in elim no [ ])
    | inr (j, found) ↦
        let next : k ≡ suc j = ground arith in
        subst (StartsAt addr (l ∷ ls)) (sym next) (position-StartsAt addr ls j found)
  ]
]

module _ (p : Process) (v : View p) (base_addr : Address) where
  -- The lines cover the buffer, and that at the index starts at the base address.
  pub record IsAligned (a : Aligned p v) : Type 0 where
    pub covers : Tile a.start_addr a.instructions (a.start_addr + length a.buffer)
    pub at_base : StartsAt base_addr a.instructions a.base_index

  abbrev pub EndsAligned : Outcome (Aligned p v) → Type 0
  EndsAligned (ok a) = IsAligned a
  EndsAligned (Outcome.error e) = Unit
  EndsAligned panic = ⊥

  -- The end of a search from a state on.
  abbrev pub Searched : Sources → Outcome (Aligned p v) × Sources → Type 0
  Searched s r = (r.1 ≡ s) × EndsAligned r.0

  settle-Searched :
      (start_addr : Address) (buffer : Bytes) (ls : List (Line (p.SbInstruction)))
      (next : Exec Sources (Aligned p v)) (s : Sources) (o : Option ℕ)
      → Tile start_addr ls (start_addr + length buffer)
      → position base_addr ls ≡ o
      → Searched s (next s)
      → Searched s (settle p v start_addr buffer ls next o s)
  settle-Searched start_addr buffer ls next s none covers e after = after
  settle-Searched start_addr buffer ls next s (some k) covers e after =
      (refl, record { covers = covers; at_base = position-StartsAt base_addr ls k e })

  -- The search for a place to begin at ends without a panic and changes nothing; what it finds are
  -- lines that cover the rest of the buffer without gaps, of which the one at the base index starts at
  -- the base address; if LLDB gives instructions of at least one byte each that lie inside the buffer.
  pub align-Searched :
      Fits p
      → (start_addr : Address) (buffer : Bytes) (rounds i : ℕ) (s : Sources)
      → Searched s (align p v base_addr start_addr buffer rounds i s)
  unfolding align
  align-Searched fits start_addr buffer zero i s = (refl, tt)
  align-Searched fits start_addr buffer (suc rounds) i s =
      let decoded = disassemble_bytes-Tile p fits (start_addr + i) (drop i buffer) in
      rw (decoded.1) (
        settle-Searched (start_addr + i) (drop i buffer) decoded.0
          (align p v base_addr start_addr buffer rounds (suc i)) s (position base_addr decoded.0)
          decoded.2 refl (align-Searched fits start_addr buffer rounds (suc i) s))

get_elem?-map :
    {A B : Type 0} (f : A → B) (xs : List A) (k : ℕ) {a : A}
    → get_elem? xs k ≡ some a
    → get_elem? (map f xs) k ≡ some (f a)
get_elem?-map f [] k e = cc
get_elem?-map f (x ∷ xs) zero e = ap some (ap f (some_eq e))
get_elem?-map f (x ∷ xs) (suc k) e = get_elem?-map f xs k e

get_elem?_lt : {A : Type 0} (xs : List A) (k : ℕ) {a : A} → get_elem? xs k ≡ some a → k < length xs
get_elem?_lt [] k e = cc
get_elem?_lt (x ∷ xs) zero e = omega arith
get_elem?_lt (x ∷ xs) (suc k) e = (let rest = get_elem?_lt xs k e in omega arith)

-- The first line, counted from the one at the base index back.
start_parts :
    (base_index : ℕ) (instruction_offset : ℤ)
    → base_index < 2 ^ 63
    → IsI64 instruction_offset
    → pos_part instruction_offset ≡ 0
    → (pos_part (wrapping_sum (pos base_index) instruction_offset) + neg_part instruction_offset
        ≡ neg_part (wrapping_sum (pos base_index) instruction_offset) + base_index)
      × (pos_part (wrapping_sum (pos base_index) instruction_offset) ≤ base_index)
unfolding ◌+ℤ◌
start_parts base_index (pos m) h k e = ground arith
start_parts base_index (negsuc m) h k e = ground arith

module _ (p : Process) (v : View p) (base_addr : Address) where
  wanted_base :
      (a : Aligned p v) (instruction_offset : ℤ) (n : ℕ)
      → IsAligned p v base_addr a
      → length a.instructions < 2 ^ 63
      → n < 2 ^ 63
      → IsI64 instruction_offset
      → pos_part instruction_offset ≡ 0
      → neg_part instruction_offset < n
      → IsInside p v a instruction_offset (pos n)
      → get_elem? (wanted p v a instruction_offset (pos n)) (neg_part instruction_offset)
        ≡ some (show_address base_addr)
  wanted_base a off n aligned short h k back covered inside =
      let lines = a.instructions in
      let start = start_of p v a off in
      let first : ℕ = pos_part start in
      let last : ℕ = pos_part (end_of p v a off (pos n)) in
      let forward =
        wrapping_sum_forward start n h (wrap_i64-IsI64 (pos a.base_index +ℤ off)) inside.0 in
      let sum = forward.0 in
      let found = aligned.at_base in
      let low = get_elem?_lt lines a.base_index found.1 in
      let parts = start_parts a.base_index off (omega arith) k back in
      let balance = parts.0 in
      let order = parts.1 in
      let k : ℕ = a.base_index - first in
      let front = addresses (pad_front a.start_addr (neg_part start)) in
      let picked = take (last - first) (drop first lines) in
      let len : length front ≡ neg_part start = length-addresses a.start_addr (neg_part start) in
      let behind : neg_part off ≡ length front + k = omega arith in
      let back_again : first + k ≡ a.base_index = omega arith in
      let line : get_elem? picked k ≡ some found.0 =
        get_elem?-take (last - first) (drop first lines) k (omega arith)
        ∙ get_elem?-drop first lines k
        ∙ ap (get_elem? lines) back_again
        ∙ found.1 in
      ap (get_elem? (wanted p v a off (pos n))) behind
      ∙ get_elem?-append front (map (λ l. show_address l.start) picked) k
      ∙ get_elem?-map (λ l. show_address l.start) picked k line
      ∙ ap (λ x. some (show_address x)) found.2

  -- The line at the base address stands in the answer behind as many lines as the offset goes back,
  -- if the offset goes back, the answer is long enough, and its lines end inside those decoded.
  pub select-base_address :
      (a : Aligned p v) (instruction_offset : ℤ) (n : ℕ) (resolve_symbols : Bool) (base : PathBuf)
      (s : Sources)
      → IsAligned p v base_addr a
      → length a.instructions < 2 ^ 63
      → n < 2 ^ 63
      → IsI64 instruction_offset
      → pos_part instruction_offset ≡ 0
      → neg_part instruction_offset < n
      → IsInside p v a instruction_offset (pos n)
      → IsCached v.files base s
      → Done (select p v a instruction_offset (pos n) resolve_symbols) s (λ r t.
        get_elem? (map (λ d. d.address) r) (neg_part instruction_offset)
        ≡ some (show_address base_addr))
  select-base_address a off n resolve_symbols base s aligned short h k back covered inside c =
      let d = select-Done p v a aligned.covers off n h resolve_symbols base s inside c in
      record {
        value = d.value;
        after = d.after;
        ends = d.ends;
        post =
            ap (λ as'. get_elem? as' (neg_part off)) d.post.0
            ∙ wanted_base a off n aligned short h k back covered inside;
      }
