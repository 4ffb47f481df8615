-- ===== src/Disassembly/Tests.antt =====
-- The tests of disassembly.rs, over an LLDB whose addresses are numbers and whose code has symbols
-- at 1000..2000 and 3000..4000, and the theorems there.
use codelldb.Prelude.{
  ℕ, ◌≡◌, ◌≢◌, refl, Option, none, some, List, [], ◌∷◌, ltb, arith, drop, if◌then◌else◌,
}
use codelldb.Prelude.Equality.{ℕ_eq}
use codelldb.Prelude.Map.{insert}
use codelldb.Prelude.Text.{chars}
use codelldb.Handles.{Handle}
use codelldb.Disassembly.{
  Address, Lldb, DisassembledRange, Ranges, new, find_by_handle, find_by_address, add, from_address,
  adapter_data, lines_from_adapter_data,
}
use codelldb.Disassembly.Sorted.{IsValid, new-IsValid, add-IsValid}
use codelldb.Disassembly.Lines.{lines-adapter_data}

abbrev symbol_at : ℕ → Option ℕ
symbol_at a = if ltb a 2000 then some 1000 else if ltb a 4000 then some 3000 else none

abbrev numbers : Lldb
numbers = record {
  SbAddress = ℕ;
  SbSymbol = ℕ;
  SbInstruction = ℕ;
  from_load_address = λ a. a;
  load_address = λ a. a;
  symbol = symbol_at;
  symbol_name = λ s. chars "f";
  symbol_start = λ s. s;
  symbol_end = λ s. if ltb s 2000 then 2000 else 4000;
  symbol_instructions = λ s. s ∷ [];
  read_instructions = λ a n. [];
  instruction_address = λ i. i;
}

abbrev range : Handle → Address → Address → List Address → DisassembledRange numbers
range handle start end lines = record {
  handle = handle;
  start_addr = start;
  range_start = start;
  range_end = end;
  source_name = chars "@f";
  instructions = lines;
  instruction_addresses = lines;
}

abbrev dasm1 : DisassembledRange numbers
dasm1 = range 1000 1000 2000 (1000 ∷ [])

abbrev dasm2 : DisassembledRange numbers
dasm2 = range 1001 3000 4000 (3000 ∷ [])

abbrev first : Ranges numbers
first = record { by_handle = (1000, dasm1) ∷ []; by_address = dasm1 ∷ [] }

abbrev both : Ranges numbers
both = record { by_handle = (1000, dasm1) ∷ (1001, dasm2) ∷ []; by_address = dasm1 ∷ dasm2 ∷ [] }

first_added : add numbers (new numbers) 1000 2000 (1000 ∷ []) ≡ (dasm1, first)
unfolding add insert
first_added = refl

from_second : from_address numbers first 3500 ≡ (some dasm2, both)
unfolding from_address find_by_address add insert
from_second = refl

-- The start is inside a range, the end is not.
find_edges :
    (find_by_address numbers both 3000 ≡ some dasm2)
    × (find_by_address numbers both 3999 ≡ some dasm2)
    × (find_by_address numbers both 2000 ≡ none)
    × (find_by_address numbers both 4000 ≡ none)
unfolding find_by_address
find_edges = (refl, refl, refl, refl)

add-IsValid_example :
    IsValid first
    × (find_by_handle numbers first 1000 ≡ some dasm1)
    × (find_by_handle numbers (new numbers) 1000 ≡ none)
    × ((h : Handle)
        → h ≢ 1000
        → find_by_handle numbers first h ≡ find_by_handle numbers (new numbers) h)
add-IsValid_example =
    add-IsValid (new numbers) 1000 2000 (1000 ∷ []) new-IsValid (omega arith) first_added

abbrev listing : DisassembledRange numbers
listing = range 1000 10 55 (10 ∷ 20 ∷ 23 ∷ 25 ∷ 30 ∷ 35 ∷ 41 ∷ 42 ∷ 50 ∷ [])

lines-adapter_data_example :
    drop 3 (lines_from_adapter_data (adapter_data numbers listing)) ≡ listing.instruction_addresses
lines-adapter_data_example =
    lines-adapter_data numbers listing (20 ∷ 23 ∷ 25 ∷ 30 ∷ 35 ∷ 41 ∷ 42 ∷ 50 ∷ []) refl
      (omega arith)
