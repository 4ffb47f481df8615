-- ===== src/Disassemble/Request.antt =====
-- `handle_disassemble`: memory is decoded around an address such that an instruction begins there,
-- and so many lines are picked, counted from that instruction on. Addresses are `u64`, counts and
-- offsets `i64`, with the wrap-around of a release build. A vector has less than 2 ^ 63 elements, so
-- that its indices are `i64` as they are.
use codelldb.Prelude.{
  inl, inr, ℕ, zero, suc, ◌+◌, ◌-◌, ◌*◌, ◌%◌, ◌^◌, min, Bool, true, ◌||◌, ◌&&◌, Option, none, some,
  List, [], ◌∷◌, ◌++◌, leb, ◌==◌, length, take, drop, if◌then◌else◌,
}
use codelldb.Prelude.Equality.{ℕ_eq, list_eq, ◌≐◌}
use codelldb.Prelude.Int.{ℤ, pos, negsuc, pos_part, neg_part, ltb_ℤ, to_u64, wrapping_sum}
use codelldb.Prelude.Text.{Chars, chars}
use codelldb.Prelude.Exec.{Exec, pure, fail, crash, ◌>>=◌}
use codelldb.Str.Hex.{show_hex_upper}
use codelldb.Str.Utf8.{Bytes}
use codelldb.SourceMap.{Sources}
use codelldb.Disassembly.{Address}
use codelldb.Disassemble.{Process, Line, read_memory, disassemble_bytes}
use codelldb.Disassemble.Render.{View, DisassembledInstruction, invalid_memory, render}

pub record DisassembleArguments : Type 0 where
  pub memory_reference : Chars
  pub offset : Option ℤ
  pub instruction_offset : Option ℤ
  pub instruction_count : ℤ
  pub resolve_symbols : Option Bool

abbrev pub starts_with : Chars → Chars → Bool
starts_with text prefix = take (length prefix) text ≐ prefix

abbrev pub unwrap_or {ℓ} : {A : Type ℓ} → A → Option A → A
unwrap_or a none = a
unwrap_or a (some b) = b

-- A step that may panic.
abbrev pub attempt : {A : Type 0} → Option A → Exec Sources A
attempt none = crash
attempt (some a) = pure a

-- The triple up to its first dash.
unfoldable pub arch_of : Chars → Chars
arch_of [] = []
arch_of (c ∷ cs) = let rest = arch_of cs in if c == b'-' then [] else c ∷ rest

unfoldable pub max_instruction_bytes : Chars → ℕ
unfolding arch_of
max_instruction_bytes triple =
    let arch = arch_of triple in
    if starts_with arch (chars "arm")
      || (starts_with arch (chars "aarch64") || starts_with arch (chars "riscv"))
    then 4
    else 16

abbrev pub add_offset : Address → Option ℤ → Address
add_offset base_addr none = base_addr
add_offset base_addr (some offset) = (base_addr + to_u64 offset) % 2 ^ 64

-- The range that is read: its start and its size.
unfoldable pub window : Chars → Address → ℤ → ℤ → Address × ℕ
unfolding max_instruction_bytes
window triple base_addr instruction_offset instruction_count =
    let num_before : ℕ = neg_part instruction_offset in
    let num_after : ℕ = pos_part (wrapping_sum instruction_count instruction_offset) in
    let bytes_per_instruction = max_instruction_bytes triple in
    let start_addr : ℕ = base_addr - num_before * bytes_per_instruction % 2 ^ 64 in
    let end_addr : ℕ = min (base_addr + num_after * bytes_per_instruction % 2 ^ 64) (2 ^ 64 - 1) in
    (start_addr, end_addr - start_addr)

-- The index of the line that starts at an address.
unfoldable pub position : {I : Type 0} → Address → List (Line I) → Option ℕ
position addr [] = none
position addr (l ∷ ls) =
    let rest : Option ℕ = elim (position addr ls) [ some k ↦ some (suc k) | none ↦ none ] in
    if l.start == addr then some 0 else rest

-- The address in front of the first decoded line, for the lines that are `n` and less before it.
unfoldable pub pad_front : Address → ℕ → List DisassembledInstruction
unfolding invalid_memory
pad_front start_addr zero = []
pad_front start_addr (suc n) =
    invalid_memory ((start_addr + to_u64 (negsuc n)) % 2 ^ 64) ∷ pad_front start_addr n

unfoldable pub pad_back : Address → ℕ → ℕ → List DisassembledInstruction
unfolding invalid_memory
pad_back end_addr i zero = []
pad_back end_addr i (suc n) = invalid_memory ((end_addr + i) % 2 ^ 64) ∷ pad_back end_addr (suc i) n

-- The slice `[start..end]`; `none` is a panic.
unfoldable pub slice {ℓ} : {A : Type ℓ} → List A → ℕ → ℕ → Option (List A)
slice xs start end =
    if leb start end && leb end (length xs) then some (take (end - start) (drop start xs)) else none

module _ (p : Process) (v : View p) where
  -- The lines decoded from an address on, one of which begins at the base address.
  pub record Aligned : Type 0 where
    pub start_addr : Address
    pub buffer : Bytes
    pub instructions : List (Line (p.SbInstruction))
    pub base_index : ℕ

  abbrev pub settle :
      Address
      → Bytes
      → List (Line (p.SbInstruction))
      → Exec Sources Aligned
      → Option ℕ
      → Exec Sources Aligned
  settle start_addr buffer instructions next none = next
  settle start_addr buffer instructions next (some base_index) = pure record {
    start_addr = start_addr;
    buffer = buffer;
    instructions = instructions;
    base_index = base_index;
  }

  -- So many rounds, from the `i`-th on, each one byte further into the buffer.
  unfoldable pub align : Address → Address → Bytes → ℕ → ℕ → Exec Sources Aligned
  unfolding position
  align base_addr start_addr buffer zero i =
      fail (chars "Failed to disassemble memory at 0x" ++ show_hex_upper base_addr ++ chars ".")
  align base_addr start_addr buffer (suc rounds) i =
      let next = align base_addr start_addr buffer rounds (suc i) in
      attempt (disassemble_bytes p (start_addr + i) (drop i buffer)) >>= λ instructions.
      settle (start_addr + i) (drop i buffer) instructions next (position base_addr instructions)

  -- The lines in front of the first, the picked ones, and those behind the last.
  unfoldable pub select : Aligned → ℤ → ℤ → Bool → Exec Sources (List DisassembledInstruction)
  unfolding slice render pad_front pad_back
  select a instruction_offset instruction_count resolve_symbols =
      let start_idx = wrapping_sum (pos a.base_index) instruction_offset in
      let end_idx = wrapping_sum start_idx instruction_count in
      let instr_count : ℕ = length a.instructions in
      let end_addr : Address = a.start_addr + length a.buffer in
      attempt (slice a.instructions (pos_part start_idx) (to_u64 end_idx)) >>= λ picked.
      (render p v a.start_addr a.buffer resolve_symbols none picked >>= λ shown. pure (
        pad_front a.start_addr (neg_part start_idx)
        ++ shown
        ++ pad_back end_addr 0 (pos_part end_idx - instr_count)))

  unfoldable pub disassemble_around :
      Address → ℤ → ℤ → Bool → Exec Sources (List DisassembledInstruction)
  unfolding window align select
  disassemble_around base_addr instruction_offset instruction_count resolve_symbols =
      let (start_addr, count) = window v.triple base_addr instruction_offset instruction_count in
      attempt (read_memory p start_addr count) >>= λ r.
      (align base_addr r.0 r.1 (min (max_instruction_bytes v.triple) (length r.1)) 0 >>= λ a.
      select a instruction_offset instruction_count resolve_symbols)

  unfoldable pub handle_disassemble :
      DisassembleArguments → Exec Sources (List DisassembledInstruction)
  unfolding disassemble_around
  handle_disassemble args = elim (v.parse_int args.memory_reference) [
    | inl e ↦ fail e
    | inr base_addr ↦
        if ltb_ℤ args.instruction_count (pos 0)
        then fail (chars "Invalid instruction_count")
        else disassemble_around (add_offset base_addr args.offset)
            (unwrap_or (pos 0) args.instruction_offset) args.instruction_count
            (unwrap_or true args.resolve_symbols)
  ]
