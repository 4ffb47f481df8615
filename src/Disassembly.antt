-- ===== src/Disassembly.antt =====
-- src/codelldb/src/disassembly.rs: the ranges of instructions that were shown to the client, found
-- again by handle or by address. LLDB is a parameter. Addresses are `u64`.
pub mod Sorted
pub mod Lookup
pub mod Lines
pub mod Tests
use codelldb.Prelude.{
  ℕ, zero, suc, ◌+◌, ◌-◌, ◌%◌, ◌^◌, Bool, true, false, ◌&&◌, Option, none, some, List, [], ◌∷◌,
  ◌++◌, map, leb, ltb, ◌==◌, if◌then◌else◌, ◌>>=◌, length, get_elem?, take, drop,
}
use codelldb.Prelude.Equality.{ℕ_eq}
use codelldb.Prelude.Map.{Map, lookup, insert}
use codelldb.Prelude.Text.{Chars, chars}
use codelldb.Str.Hex.{show_hex_lower}
use codelldb.Handles.{Handle}

abbrev pub Address : Type 0
Address = ℕ

-- What the module asks of LLDB, for one target: addresses, symbols and instructions.
pub record Lldb : Type 1 where
  pub SbAddress : Type 0
  pub SbSymbol : Type 0
  pub SbInstruction : Type 0
  pub from_load_address : Address → SbAddress
  pub load_address : SbAddress → Address
  pub symbol : SbAddress → Option SbSymbol
  pub symbol_name : SbSymbol → Chars
  pub symbol_start : SbSymbol → SbAddress
  pub symbol_end : SbSymbol → SbAddress
  pub symbol_instructions : SbSymbol → List SbInstruction
  pub read_instructions : SbAddress → ℕ → List SbInstruction
  pub instruction_address : SbInstruction → SbAddress

-- `slice::partition_point` on a slice that the predicate splits: where the second part begins.
unfoldable pub partition_point {ℓ} : {A : Type ℓ} → (A → Bool) → List A → ℕ
partition_point p [] = 0
partition_point p (x ∷ xs) = if p x then suc (partition_point p xs) else 0

-- `Vec::insert`, at an index up to the length.
unfoldable pub insert_at {ℓ} : {A : Type ℓ} → ℕ → A → List A → List A
insert_at zero a xs = a ∷ xs
insert_at (suc n) a [] = a ∷ []
insert_at (suc n) a (x ∷ xs) = x ∷ insert_at n a xs

abbrev pub last_or {ℓ} : {A : Type ℓ} → A → List A → A
last_or a [] = a
last_or a (x ∷ xs) = last_or x xs

pub record AdapterData : Type 0 where
  pub start : Address
  pub end : Address
  pub line_offsets : List ℕ

module _ (lldb : Lldb) where
  open lldb use {
    SbAddress, SbSymbol, SbInstruction, from_load_address, load_address, symbol, symbol_name,
    symbol_start, symbol_end, symbol_instructions, read_instructions, instruction_address,
  }

  pub record DisassembledRange : Type 0 where
    pub handle : Handle
    pub start_addr : SbAddress
    pub range_start : Address
    pub range_end : Address
    pub source_name : Chars
    pub instructions : List SbInstruction
    pub instruction_addresses : List Address

  pub record Ranges : Type 0 where
    pub by_handle : Map Handle DisassembledRange
    pub by_address : List DisassembledRange

  abbrev pub new : Ranges
  new = record { by_handle = []; by_address = [] }

  unfoldable pub find_by_handle : Ranges → Handle → Option DisassembledRange
  find_by_handle ranges handle = lookup handle ranges.by_handle

  -- `load_range.contains(&load_addr)`
  abbrev pub contains : DisassembledRange → Address → Bool
  contains dasm addr = leb dasm.range_start addr && ltb addr dasm.range_end

  abbrev pub starts_by : Address → DisassembledRange → Bool
  starts_by addr dasm = leb dasm.range_start addr

  abbrev pub starts_before : Address → DisassembledRange → Bool
  starts_before addr dasm = ltb dasm.range_start addr

  -- The range in front of the index, if it holds the address.
  unfoldable pub range_before : List DisassembledRange → Address → ℕ → Option DisassembledRange
  range_before ds addr zero = none
  range_before ds addr (suc i) = do
    dasm ← get_elem? ds i
    if contains dasm addr then some dasm else none

  unfoldable pub find_by_address : Ranges → Address → Option DisassembledRange
  unfolding partition_point range_before
  find_by_address ranges addr =
      range_before ranges.by_address addr (partition_point (starts_by addr) ranges.by_address)

  unfoldable pub source_name_of : SbAddress → Address → Address → Chars
  source_name_of start_addr start end = elim (symbol start_addr) [
    | some s ↦ chars "@" ++ symbol_name s
    | none ↦ chars "@" ++ show_hex_lower start ++ chars ".." ++ show_hex_lower end
  ]

  unfoldable pub make_range :
      Ranges → SbAddress → SbAddress → List SbInstruction → DisassembledRange
  unfolding source_name_of
  make_range ranges start_addr end_addr instructions = record {
    handle = (length ranges.by_handle + 1000) % 2 ^ 64;
    start_addr = start_addr;
    range_start = load_address start_addr;
    range_end = load_address end_addr;
    source_name = source_name_of start_addr (load_address start_addr) (load_address end_addr);
    instructions = instructions;
    instruction_addresses = map (λ i. load_address (instruction_address i)) instructions;
  }

  -- Files a range under its handle and at its place among the addresses.
  unfoldable pub file_range : Ranges → DisassembledRange → Ranges
  unfolding partition_point insert_at
  file_range ranges dasm = record {
    by_handle = insert dasm.handle dasm ranges.by_handle;
    by_address =
        insert_at (partition_point (starts_before dasm.range_start) ranges.by_address) dasm
          ranges.by_address;
  }

  unfoldable pub add :
      Ranges → SbAddress → SbAddress → List SbInstruction → DisassembledRange × Ranges
  unfolding make_range file_range
  add ranges start_addr end_addr instructions =
      let dasm = make_range ranges start_addr end_addr instructions in
      (dasm, file_range ranges dasm)

  abbrev pub no_symbol_instructions : ℕ
  no_symbol_instructions = 32

  -- The range to disassemble around an address: its symbol, or what can be read from it on.
  unfoldable pub extent : SbAddress → SbAddress × SbAddress × List SbInstruction
  extent addr = elim (symbol addr) [
    | some s ↦ (symbol_start s, symbol_end s, symbol_instructions s)
    | none ↦
        let instructions = read_instructions addr (no_symbol_instructions + 1) in
        (addr, last_or addr (map instruction_address instructions), instructions)
  ]

  unfoldable pub add_extent :
      Ranges → SbAddress × SbAddress × List SbInstruction → Option DisassembledRange × Ranges
  add_extent ranges (start_addr, end_addr, []) = (none, ranges)
  add_extent ranges (start_addr, end_addr, i ∷ is) =
      let (dasm, ranges') = add ranges start_addr end_addr (i ∷ is) in (some dasm, ranges')

  -- `none` is the error that there are no instructions at the address.
  unfoldable pub from_address : Ranges → Address → Option DisassembledRange × Ranges
  unfolding add_extent extent
  from_address ranges load_addr = elim (find_by_address ranges load_addr) [
    | some dasm ↦ (some dasm, ranges)
    | none ↦ add_extent ranges (extent (from_load_address load_addr))
  ]

  unfoldable pub line_num_by_address : DisassembledRange → Address → ℕ
  unfolding partition_point
  line_num_by_address dasm addr =
      (partition_point (λ a. ltb a addr) dasm.instruction_addresses % 2 ^ 32 + 3) % 2 ^ 32

  -- `none` is a panic: the two header lines, and lines behind the last instruction.
  unfoldable pub address_by_line_num : DisassembledRange → ℕ → Option Address
  address_by_line_num dasm line =
      if ltb line 3 then none else get_elem? dasm.instruction_addresses (line - 3)

-- `windows(2)`, each mapped to the distance as `u32`.
unfoldable pub offsets_of : List Address → List ℕ
offsets_of [] = []
offsets_of (a ∷ []) = []
offsets_of (a ∷ b ∷ as') = ((b + 2 ^ 64 - a) % 2 ^ 64) % 2 ^ 32 ∷ offsets_of (b ∷ as')

unfoldable pub adapter_data : (lldb : Lldb) → DisassembledRange lldb → AdapterData
unfolding offsets_of
adapter_data lldb dasm = record {
  start = dasm.range_start;
  end = dasm.range_end;
  line_offsets = offsets_of dasm.instruction_addresses;
}

unfoldable pub scan_offsets : Address → List ℕ → List Address
scan_offsets addr [] = []
scan_offsets addr (d ∷ ds) = let next : ℕ = (addr + d) % 2 ^ 64 in next ∷ scan_offsets next ds

-- The address of each line, lines counted from 0: four times the start, then one for each offset.
unfoldable pub lines_from_adapter_data : AdapterData → List Address
unfolding scan_offsets
lines_from_adapter_data d =
    d.start ∷ d.start ∷ d.start ∷ d.start ∷ scan_offsets d.start d.line_offsets
