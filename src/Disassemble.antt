-- ===== src/Disassemble.antt =====
-- src/codelldb/src/debug_session/disassemble.rs: memory is read and decoded around an address. The
-- range that is asked for ends below 2 ^ 64, since `handle_disassemble` saturates its ends, so no
-- sum of addresses here wraps around.
pub mod Boundary
pub mod Tiles
pub mod Readable
pub mod Render
pub mod Request
pub mod Picked
pub mod Selection
pub mod Alignment
mod Tests
use codelldb.Prelude.{
  ℕ, zero, suc, ◌+◌, ◌-◌, ◌/◌, ◌%◌, ◌^◌, Bool, true, false, Option, none, some, List, [], ◌∷◌, ◌++◌,
  map, ltb, length, take, drop, if◌then◌else◌, ◌>>=◌,
}
use codelldb.Prelude.Map.{has}
use codelldb.Str.Utf8.{Bytes}
use codelldb.Disassembly.{Address}

-- The loop of `partition_point`; `none` is the end of the fuel.
unfoldable pub bisect : ℕ → (Address → Bool) → Address → Address → Option Address
bisect zero pred low high = if ltb low high then none else some low
bisect (suc fuel) pred low high =
    let mid : ℕ = low + (high - low) / 2 in
    let right = bisect fuel pred (mid + 1) high in
    let left = bisect fuel pred low mid in
    if ltb low high then (if pred mid then right else left) else some low

-- The first address of a range for which the predicate is false.
unfoldable pub partition_point : Address → Address → (Address → Bool) → Option Address
unfolding bisect
partition_point start end pred = bisect (end - start) pred start end

-- What is asked of LLDB: the bytes that can be read from an address on, at most so many, or `none`
-- for an error; and the instructions at the head of a buffer, each with its size in bytes.
pub record Process : Type 1 where
  pub SbInstruction : Type 0
  pub byte_size : SbInstruction → ℕ
  pub read_memory : Address → ℕ → Option Bytes
  pub get_instructions : Address → Bytes → List SbInstruction

-- A byte of the buffer that is no instruction, or an instruction, at its range of addresses.
pub data Decoded (I : Type 0) : Type 0 where
  instruction : I → Decoded I
  byte : ℕ → Decoded I

pub record Line (I : Type 0) : Type 0 where
  pub start : Address
  pub end : Address
  pub decoded : Decoded I

module _ (p : Process) where
  open p use {SbInstruction, byte_size, get_instructions}

  -- Where the boundary of the readable memory was found, and what was read behind it.
  unfoldable pub read_from : ℕ → Address → Address × Bytes
  read_from count first_readable = elim (p.read_memory first_readable count) [
    | some bytes ↦ (first_readable, bytes)
    | none ↦ (first_readable, [])
  ]

  unfoldable pub is_unreadable : Address → Bool
  is_unreadable addr = elim (p.read_memory addr 1) [ none ↦ true | some bytes ↦ false ]

  -- `none` is the end of the fuel.
  unfoldable pub read_memory : Address → ℕ → Option (Address × Bytes)
  unfolding partition_point read_from is_unreadable
  read_memory start_address count = elim (p.read_memory start_address count) [
    | some bytes ↦ some (start_address, bytes)
    | none ↦ do
      first_readable ← partition_point start_address (start_address + count) is_unreadable
      some (read_from (start_address + count - first_readable) first_readable)
  ]

  -- The inner loop: the instructions one after another, and where they end.
  unfoldable pub place_instructions :
      Address → List SbInstruction → List (Line SbInstruction) × Address
  place_instructions addr [] = ([], addr)
  place_instructions addr (i ∷ is) =
      let next : ℕ = addr + byte_size i in
      let (rest, end) = place_instructions next is in
      (record { start = addr; end = next; decoded = instruction i } ∷ rest, end)

  unfoldable pub total_size : List SbInstruction → ℕ
  total_size [] = 0
  total_size (i ∷ is) = byte_size i + total_size is

  -- `none` is the end of the fuel, or the panic of an instruction that ends behind the buffer.
  unfoldable pub disassemble_loop : ℕ → Address → Bytes → Option (List (Line SbInstruction))
  unfolding place_instructions total_size
  disassemble_loop fuel addr [] = some []
  disassemble_loop zero addr (b ∷ buffer) = none
  disassemble_loop (suc fuel) addr (b ∷ buffer) = elim (get_instructions addr (b ∷ buffer)) [
    | [] ↦ do
      rest ← disassemble_loop fuel (addr + 1) buffer
      some (record { start = addr; end = addr + 1; decoded = byte b } ∷ rest)
    | i ∷ is ↦ if ltb (length (b ∷ buffer)) (total_size (i ∷ is)) then none else do
      rest ←
          disassemble_loop fuel (place_instructions addr (i ∷ is)).1
            (drop (total_size (i ∷ is)) (b ∷ buffer))
      some ((place_instructions addr (i ∷ is)).0 ++ rest)
  ]

  unfoldable pub disassemble_bytes : Address → Bytes → Option (List (Line SbInstruction))
  unfolding disassemble_loop
  disassemble_bytes base_addr buffer = disassemble_loop (length buffer) base_addr buffer
