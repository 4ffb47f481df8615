-- ===== src/Disassembly/Lines.antt =====
-- Lines of a disassembled range: from addresses to lines and back, in one session and through the
-- data that the client keeps for the next one.
use codelldb.Prelude.{
  ℕ, zero, suc, ◌+◌, ◌-◌, ◌%◌, ◌^◌, ◌<◌, ◌≡◌, refl, ap, some, List, [], ◌∷◌, ltb, arith, get_elem?,
  drop,
}
use codelldb.Disassembly.{
  Address, Lldb, DisassembledRange, partition_point, line_num_by_address, address_by_line_num,
  offsets_of, adapter_data, scan_offsets, lines_from_adapter_data,
}

-- Addresses in 64 bits, each above the one before it by less than 2 ^ 32.
abbrev pub Ascending : Address → List Address → Type 0
Ascending a [] = a < 2 ^ 64
Ascending a (b ∷ bs) = (a < b) × (b < a + 2 ^ 32) × Ascending b bs

abbrev pub AreLines : List Address → Type 0
AreLines [] = Unit
AreLines (a ∷ bs) = Ascending a bs

Ascending-lt : (a : Address) (bs : List Address) → Ascending a bs → a < 2 ^ 64
Ascending-lt a [] h = h
Ascending-lt a (b ∷ bs) h = omega (arith, Ascending-lt b bs h.2)

-- Adding the offsets up gives the addresses again.
scan-offsets_of :
    (a : Address) (bs : List Address) → Ascending a bs → scan_offsets a (offsets_of (a ∷ bs)) ≡ bs
unfolding scan_offsets offsets_of
scan-offsets_of a [] h = refl
scan-offsets_of a (b ∷ bs) h =
    let fits = Ascending-lt b bs h.2 in
    let step : (a + ((b + 2 ^ 64 - a) % 2 ^ 64) % 2 ^ 32) % 2 ^ 64 ≡ b = omega arith in
    rw step (ap (λ r. b ∷ r) (scan-offsets_of b bs h.2))

-- Behind three lines of header, the lines that the client's data give are the addresses of the
-- instructions, if they ascend by less than 2 ^ 32 from the start of the range.
pub lines-adapter_data :
    (lldb : Lldb) (dasm : DisassembledRange lldb) (bs : List Address)
    → dasm.instruction_addresses ≡ dasm.range_start ∷ bs
    → Ascending dasm.range_start bs
    → drop 3 (lines_from_adapter_data (adapter_data lldb dasm)) ≡ dasm.instruction_addresses
unfolding lines_from_adapter_data adapter_data
lines-adapter_data lldb dasm bs e h = rw (e, scan-offsets_of dasm.range_start bs h)

Ascending-get_elem? :
    (a : Address) (bs : List Address) (i : ℕ) {x : Address}
    → Ascending a bs
    → get_elem? bs i ≡ some x
    → a < x
Ascending-get_elem? a [] i h e = cc
Ascending-get_elem? a (b ∷ bs) zero h e = ground arith
Ascending-get_elem? a (b ∷ bs) (suc i) h e = ground (arith, Ascending-get_elem? b bs i h.2 e)

partition_point-Ascending :
    (a : Address) (bs : List Address) (i : ℕ) {x : Address}
    → Ascending a bs
    → get_elem? (a ∷ bs) i ≡ some x
    → partition_point (λ y. ltb y x) (a ∷ bs) ≡ i
unfolding partition_point
partition_point-Ascending a bs zero h e = ground arith
partition_point-Ascending a [] (suc i) h e = cc
partition_point-Ascending a (b ∷ bs) (suc i) {x} h e =
    ground (arith, Ascending-get_elem? a (b ∷ bs) i h e, partition_point-Ascending b bs i h.2 e)

partition_point-lines :
    (as' : List Address) (i : ℕ) {x : Address}
    → AreLines as'
    → get_elem? as' i ≡ some x
    → partition_point (λ y. ltb y x) as' ≡ i
partition_point-lines [] i h e = cc
partition_point-lines (a ∷ bs) i h e = partition_point-Ascending a bs i h e

-- If the addresses of the instructions ascend, the line of the address of a line is that line, for
-- lines below 2 ^ 32.
pub line_num-address :
    (lldb : Lldb) (dasm : DisassembledRange lldb) (line : ℕ) {addr : Address}
    → AreLines dasm.instruction_addresses
    → line < 2 ^ 32
    → address_by_line_num lldb dasm line ≡ some addr
    → line_num_by_address lldb dasm addr ≡ line
unfolding line_num_by_address address_by_line_num
line_num-address lldb dasm line {addr} h small e =
    ground (arith, partition_point-lines dasm.instruction_addresses (line - 3) {x = addr} h)
