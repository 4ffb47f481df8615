-- ===== src/StepIn.antt =====
-- src/codelldb/src/debug_session/step_in.rs: the functions that a statement calls, and stepping into
-- one of them. LLDB and parse_int are the parameter `Lldb`; what an error of theirs says is not read.
pub mod Targets
pub mod Stepping
pub mod LineEnd
pub mod Called
pub mod Found
pub mod Ends
mod Tests
use codelldb.Prelude.{
  ℕ, zero, suc, ◌+◌, ◌*◌, ◌%◌, ◌^◌, Bool, true, false, ◌&&◌, ◌||◌, Option, none, some, List, [],
  ◌∷◌, ◌++◌, leb, ltb, ◌==◌, if◌then◌else◌, ◌>>=◌, length, take,
}
use codelldb.Prelude.Equality.{Eq, ℕ_eq, list_eq, ◌≐◌}
use codelldb.Prelude.Text.{Chars, chars}
use codelldb.Str.Utf8.{Bytes}
use codelldb.Disassembly.{Address}

pub data InstructionControlFlowKind : Type 0 where
  unknown other call far_call jump far_jump : InstructionControlFlowKind

pub record Lldb : Type 1 where
  pub SbFunction : Type 0
  pub SbAddress : Type 0
  pub SbInstruction : Type 0
  pub function_eq : Eq SbFunction
  pub triple : Chars
  pub control_flow_kind : SbInstruction → InstructionControlFlowKind
  pub mnemonic : SbInstruction → Chars
  pub operands : SbInstruction → Chars
  pub byte_size : SbInstruction → ℕ
  pub address : SbInstruction → SbAddress
  pub load_address : SbAddress → Address
  pub from_load_address : Address → SbAddress
  pub add_offset : SbAddress → ℕ → SbAddress
  pub read_instructions : SbAddress → ℕ → List SbInstruction
  pub read_memory : SbAddress → ℕ → Option Bytes
  pub function : SbAddress → Option SbFunction
  pub is_valid : SbFunction → Bool
  pub start_has_line_entry : SbFunction → Bool
  pub display_name : SbFunction → Chars
  pub parse_int : Chars → Option ℕ

abbrev pub is_xdigit : ℕ → Bool
is_xdigit c =
    (leb b'0' c && leb c b'9') || ((leb b'a' c && leb c b'f') || (leb b'A' c && leb c b'F'))

-- The hexadecimal digits at the head of a text, and what is behind them.
unfoldable pub xdigits : Chars → Chars × Chars
xdigits [] = ([], [])
xdigits (c ∷ cs) =
    let (digits, rest) = xdigits cs in if is_xdigit c then (c ∷ digits, rest) else ([], c ∷ cs)

-- `0[xX][[:xdigit:]]+` at the head of a text: the match, and what is behind it.
abbrev pub number_of : Chars → Chars × Chars → Option (Chars × Chars)
number_of prefix ([], rest) = none
number_of prefix (d ∷ ds, rest) = some (prefix ++ d ∷ ds, rest)

unfoldable pub hex_number : Chars → Option (Chars × Chars)
unfolding xdigits
hex_number (z ∷ x ∷ cs) =
    if (z == b'0') && ((x == b'x') || (x == b'X'))
    then number_of (z ∷ x ∷ []) (xdigits cs)
    else none
hex_number _ = none

-- The regular expressions `IMMED` and `RIP_REL`.
unfoldable pub match_immed : Chars → Bool
unfolding hex_number
match_immed text = elim (hex_number text) [ some m ↦ m.1 ≐ [] | none ↦ false ]

unfoldable pub match_rip_rel : Chars → Option Chars
unfolding hex_number
match_rip_rel [] = none
match_rip_rel (c ∷ cs) =
    if c == b'*'
    then (do m ← hex_number cs; if m.1 ≐ chars "(%rip)" then some m.0 else none)
    else none

-- `u64::from_le_bytes`
unfoldable pub from_le_bytes : Bytes → ℕ
from_le_bytes [] = 0
from_le_bytes (b ∷ bs) = b + 256 * from_le_bytes bs

abbrev pub is_call : InstructionControlFlowKind → Bool
is_call call = true
is_call far_call = true
is_call _ = false

abbrev pub is_jump : InstructionControlFlowKind → Bool
is_jump jump = true
is_jump far_jump = true
is_jump _ = false

-- The instruction at an address, if there is one.
abbrev pub first_instruction : {I : Type 0} → List I → Option I
first_instruction [] = none
first_instruction (i ∷ is) = some i

abbrev pub or_else : {A : Type 0} → Option A → Option A → Option A
or_else (some a) o = some a
or_else none o = o

module _ (lldb : Lldb) where
  open lldb use {SbFunction, SbAddress, SbInstruction}

  -- LLDB does not know the kinds of instructions of ARM.
  abbrev pub arm_kind : Chars → InstructionControlFlowKind
  arm_kind mnemonic =
      if mnemonic ≐ chars "bl" then call else if mnemonic ≐ chars "b" then jump else other

  abbrev pub known_kind : InstructionControlFlowKind → SbInstruction → InstructionControlFlowKind
  known_kind unknown instr =
      if take 3 lldb.triple ≐ chars "arm" then arm_kind (lldb.mnemonic instr) else unknown
  known_kind kind instr = kind

  unfoldable pub control_flow_kind : SbInstruction → InstructionControlFlowKind
  control_flow_kind instr = known_kind (lldb.control_flow_kind instr) instr

  unfoldable pub indirect_target : SbInstruction → Option ℕ
  unfolding match_rip_rel from_le_bytes
  indirect_target instr = do
    digits ← match_rip_rel (lldb.operands instr)
    offset ← lldb.parse_int digits
    buffer ←
        lldb.read_memory
          (lldb.add_offset (lldb.address instr) ((offset + lldb.byte_size instr) % 2 ^ 64)) 8
    some (from_le_bytes buffer)

  unfoldable pub instruction_target_address : SbInstruction → Option SbAddress
  unfolding indirect_target match_immed
  instruction_target_address instr = do
    load_addr ←
        (if match_immed (lldb.operands instr)
          then lldb.parse_int (lldb.operands instr)
          else indirect_target instr)
    some (lldb.from_load_address load_addr)

  unfoldable pub jump_target : SbAddress → Option SbFunction
  unfolding control_flow_kind instruction_target_address
  jump_target address = first_instruction (lldb.read_instructions address 1) >>= λ target_instr.
      if is_jump (control_flow_kind target_instr)
      then (instruction_target_address target_instr >>= λ a. lldb.function a)
      else none

  -- The function at the target, or that to which a jump at the target leads.
  unfoldable pub call_target_function : SbInstruction → Option SbFunction
  unfolding jump_target
  call_target_function instr = do
    address ← instruction_target_address instr
    or_else (lldb.function address) (jump_target address)
