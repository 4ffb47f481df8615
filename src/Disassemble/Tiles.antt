-- ===== src/Disassemble/Tiles.antt =====
-- The decoded lines cover the buffer without gaps.
use mathlib.Core.Path.{subst}
use codelldb.Prelude.{
  ◌∙◌, ◌⊎◌, ℕ, zero, suc, ◌+◌, ◌-◌, ◌<◌, ◌≤◌, ◌≡◌, inl, inr, refl, sym, false, some, List, [], ◌∷◌,
  ◌++◌, ltb, length, length-drop, drop, arith, All,
}
use codelldb.Str.Utf8.{Bytes}
use codelldb.Disassembly.{Address}
use codelldb.Disassemble.{
  Process, byte, Line, place_instructions, total_size, disassemble_loop, disassemble_bytes,
}

-- Lines from one address to another, each behind the one before it and none of them empty.
abbrev pub Tile : {I : Type 0} → Address → List (Line I) → Address → Type 0
Tile start [] end = start ≡ end
Tile start (l ∷ ls) end = (l.start ≡ start) × (l.start < l.end) × Tile l.end ls end

Tile-append :
    {I : Type 0} (a b c : Address) (ls ms : List (Line I))
    → Tile a ls b
    → Tile b ms c
    → Tile a (ls ++ ms) c
Tile-append a b c [] ms h k = subst (λ x. Tile x ms c) (sym h) k
Tile-append a b c (l ∷ ls) ms h k = (h.0, h.1, Tile-append l.end b c ls ms h.2 k)

List-cases : {A : Type 0} (xs : List A) → (xs ≡ []) ⊎ ((x : A) × (ys : List A) × (xs ≡ x ∷ ys))
List-cases [] = inl refl
List-cases (x ∷ ys) = inr (x, ys, refl)

module _ (p : Process) where
  -- LLDB gives instructions of at least one byte each, which lie inside the buffer.
  abbrev pub Fits : Type 0
  Fits =
      (addr : Address) (buffer : Bytes)
      → All (λ i. 0 < p.byte_size i) (p.get_instructions addr buffer)
        × (total_size p (p.get_instructions addr buffer) ≤ length buffer)

  place_instructions-Tile :
      (addr : Address) (is : List p.SbInstruction)
      → All (λ i. 0 < p.byte_size i) is
      → Tile addr (place_instructions p addr is).0 (addr + total_size p is)
        × ((place_instructions p addr is).1 ≡ addr + total_size p is)
  unfolding place_instructions total_size
  place_instructions-Tile addr [] h = (omega arith, omega arith)
  place_instructions-Tile addr (i ∷ is) h =
      let rest = place_instructions-Tile (addr + p.byte_size i) is h.1 in
      let sum : addr + p.byte_size i + total_size p is ≡ addr + (p.byte_size i + total_size p is) =
        omega arith in
      let size = h.0 in ((refl, omega arith, rw⁻¹ sum rest.0), rest.1 ∙ sum)

  module _ (fits : Fits) where
    disassemble_loop-Tile :
        (fuel : ℕ) (addr : Address) (buffer : Bytes)
        → length buffer ≤ fuel
        → (ls : List (Line p.SbInstruction)) × (disassemble_loop p fuel addr buffer ≡ some ls)
          × Tile addr ls (addr + length buffer)
    unfolding disassemble_loop total_size
    disassemble_loop-Tile fuel addr [] enough = ([], refl, omega arith)
    disassemble_loop-Tile zero addr (b ∷ buffer) enough = let no : ⊥ = omega arith in elim no [ ]
    disassemble_loop-Tile (suc fuel) addr (b ∷ buffer) enough =
        elim (List-cases (p.get_instructions addr (b ∷ buffer))) [
          | inl nothing ↦
              let rest = disassemble_loop-Tile fuel (addr + 1) buffer (omega arith) in
              let sum : addr + 1 + length buffer ≡ addr + suc (length buffer) = omega arith in
              (
                record { start = addr; end = addr + 1; decoded = byte b } ∷ rest.0,
                simp (disassemble_loop, nothing, rest.1),
                (refl, omega arith, rw⁻¹ sum rest.2),
              )
          | inr (i, is, found) ↦
              let fit = fits addr (b ∷ buffer) in
              let sizes : All (λ j. 0 < p.byte_size j) (i ∷ is) =
                subst (λ js. All (λ j. 0 < p.byte_size j) js) found fit.0 in
              let inside : total_size p (i ∷ is) ≤ suc (length buffer) =
                subst (λ js. total_size p js ≤ suc (length buffer)) found fit.1 in
              let placed = place_instructions-Tile addr (i ∷ is) sizes in
              let positive : 0 < total_size p (i ∷ is) = (let h = sizes.0 in omega arith) in
              let room : ltb (suc (length buffer)) (total_size p (i ∷ is)) ≡ false = ground arith in
              let left : length (drop (total_size p (i ∷ is)) (b ∷ buffer))
                  ≡ suc (length buffer) - total_size p (i ∷ is) =
                length-drop (total_size p (i ∷ is)) (b ∷ buffer) in
              let rest =
                disassemble_loop-Tile fuel (addr + total_size p (i ∷ is))
                  (drop (total_size p (i ∷ is)) (b ∷ buffer)) (omega arith) in
              let sum : addr
                    + total_size p (i ∷ is)
                    + length (drop (total_size p (i ∷ is)) (b ∷ buffer))
                  ≡ addr + suc (length buffer) =
                omega arith in
              (
                (place_instructions p addr (i ∷ is)).0 ++ rest.0,
                simp (disassemble_loop, found, room, placed.1, rest.1),
                Tile-append addr (addr + total_size p (i ∷ is)) (addr + suc (length buffer))
                    (place_instructions p addr (i ∷ is)).0 rest.0 placed.0 (rw⁻¹ sum rest.2),
              )
        ]

    -- The loop over a buffer ends without a panic, and its lines, each at its range of addresses,
    -- cover the buffer in order without gaps, if LLDB gives instructions of at least one byte each that
    -- lie inside the buffer.
    pub disassemble_bytes-Tile :
        (base_addr : Address) (buffer : Bytes)
        → (ls : List (Line p.SbInstruction)) × (disassemble_bytes p base_addr buffer ≡ some ls)
          × Tile base_addr ls (base_addr + length buffer)
    unfolding disassemble_bytes
    disassemble_bytes-Tile base_addr buffer =
        disassemble_loop-Tile (length buffer) base_addr buffer (omega arith)
