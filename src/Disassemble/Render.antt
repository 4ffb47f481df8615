-- ===== src/Disassemble/Render.antt =====
-- How `handle_disassemble` shows one decoded line. LLDB's view of an instruction is a parameter.
use codelldb.Prelude.{
  ◌⊎◌, ℕ, zero, suc, ◌-◌, Bool, true, false, ◌&&◌, Option, none, some, List, [], ◌∷◌, ◌++◌, ltb,
  leb, length, take, drop, if◌then◌else◌, ◌*◌, ◌+◌,
}
use codelldb.Prelude.Text.{Chars, chars}
use codelldb.Prelude.Exec.{Exec, pure, crash, ◌>>=◌}
use codelldb.Str.Hex.{show_hex_upper}
use codelldb.Str.Utf8.{Bytes}
use codelldb.Fsutil.{PathBuf}
use codelldb.SourceMap.{Files, Sources, map_filespec_to_local}
use codelldb.Disassembly.{Address}
use codelldb.Disassemble.{Process, Decoded, instruction, byte, Line}

-- What LLDB tells of an instruction and of a line entry, and the settings that are read.
pub record View (p : Process) : Type 1 where
  pub files : Files
  pub SbLineEntry : Type 0
  pub same_line_entry : SbLineEntry → SbLineEntry → Bool
  pub line : SbLineEntry → ℕ
  pub column : SbLineEntry → ℕ
  pub file_spec : SbLineEntry → Files.SbFileSpec files
  pub filename : Files.SbFileSpec files → Chars
  pub mnemonic : p.SbInstruction → Chars
  pub operands : p.SbInstruction → Chars
  pub comment : p.SbInstruction → Chars
  pub line_entry : p.SbInstruction → Option SbLineEntry
  pub symbol_name : p.SbInstruction → Option Chars
  pub triple : Chars
  pub display : PathBuf → Chars
  pub parse_int : Chars → Chars ⊎ Address
  pub max_instr_bytes : ℕ

pub data PresentationHint : Type 0 where
  normal invalid : PresentationHint

pub record Location : Type 0 where
  pub name : Option Chars
  pub path : Option Chars

-- The protocol's `DisassembledInstruction`.
pub record DisassembledInstruction : Type 0 where
  pub address : Chars
  pub instruction_bytes : Option Chars
  pub instruction_text : Chars
  pub line : Option ℕ
  pub column : Option ℕ
  pub location : Option Location
  pub symbol : Option Chars
  pub presentation_hint : Option PresentationHint

-- `Default::default()`
abbrev pub blank : DisassembledInstruction
blank = record {
  address = [];
  instruction_bytes = none;
  instruction_text = [];
  line = none;
  column = none;
  location = none;
  symbol = none;
  presentation_hint = none;
}

-- `0x{:X}`
abbrev pub show_address : Address → Chars
show_address addr = chars "0x" ++ show_hex_upper addr

unfoldable pub invalid_memory : Address → DisassembledInstruction
invalid_memory addr = record blank {
  address = show_address addr;
  instruction_bytes = some (chars "??");
  presentation_hint = some invalid;
}

-- `{:02X}` of a byte.
abbrev pub show_byte : ℕ → Chars
show_byte b = if ltb b 16 then b'0' ∷ show_hex_upper b else show_hex_upper b

abbrev pub spaces : ℕ → Chars
spaces zero = []
spaces (suc n) = b' ' ∷ spaces n

-- `{:<width$}`
abbrev pub pad_to : ℕ → Chars → Chars
pad_to width text = text ++ spaces (width - length text)

-- At most so many bytes, and a mark that there are more.
unfoldable pub show_bytes : ℕ → Bytes → Chars
show_bytes max_bytes [] = []
show_bytes zero (b ∷ bs) = b'>' ∷ []
show_bytes (suc max_bytes) (b ∷ bs) = show_byte b ++ b' ' ∷ show_bytes max_bytes bs

-- The bytes of a range of addresses, in a buffer that begins at an address; `none` is a panic.
unfoldable pub bytes_of : Address → Bytes → Address → Address → Option Bytes
bytes_of start_addr buffer start end =
    if leb start_addr start && (leb start end && leb (end - start_addr) (length buffer))
    then some (take (end - start) (drop (start - start_addr) buffer))
    else none

module _ (p : Process) (v : View p) where
  open v use {SbLineEntry, mnemonic, operands, comment, line_entry, max_instr_bytes}

  unfoldable pub instruction_str : p.SbInstruction → Chars
  instruction_str i =
      let comment_sep : Chars = elim (comment i) [ [] ↦ [] | c ∷ cs ↦ chars "  ; " ] in
      pad_to 6 (mnemonic i) ++ chars " " ++ operands i ++ comment_sep ++ comment i

  abbrev pub show_location : Bool → SbLineEntry → Exec Sources (Option Location)
  show_location true entry = pure none
  show_location false entry = map_filespec_to_local v.files (v.file_spec entry) >>= λ local. pure (
      some record {
        name = some (v.filename (v.file_spec entry));
        path = elim local [ some q ↦ some (v.display q) | none ↦ none ];
      })

  -- The location is left out if it is that of the line before, or if that one had none.
  unfoldable pub location_of : Option SbLineEntry → SbLineEntry → Exec Sources (Option Location)
  location_of none entry = pure none
  location_of (some last) entry = show_location (v.same_line_entry last entry) entry

  unfoldable pub with_line_entry :
      Option SbLineEntry
      → Option SbLineEntry
      → DisassembledInstruction
      → Exec Sources DisassembledInstruction
  unfolding location_of
  with_line_entry last none dis_instr = pure dis_instr
  with_line_entry last (some entry) dis_instr = location_of last entry >>= λ location.
      pure (record dis_instr {
        line = some (v.line entry);
        column = some (v.column entry);
        location = location;
      })

  abbrev pub with_bytes :
      Option Bytes
      → (Bytes → Exec Sources DisassembledInstruction)
      → Exec Sources DisassembledInstruction
  with_bytes none k = crash
  with_bytes (some bs) k = k bs

  abbrev pub with_symbol :
      Bool → p.SbInstruction → DisassembledInstruction → DisassembledInstruction
  with_symbol resolve_symbols i dis_instr = record dis_instr {
    symbol = if resolve_symbols then v.symbol_name i else none;
  }

  -- One line, and the line entry that the next one is compared with.
  unfoldable pub render_decoded :
      Address
      → Bytes
      → Bool
      → Option SbLineEntry
      → Address
      → Address
      → Decoded (p.SbInstruction)
      → Exec Sources (DisassembledInstruction × Option SbLineEntry)
  unfolding with_line_entry instruction_str show_bytes bytes_of
  render_decoded start_addr buffer resolve_symbols last start end (instruction i) =
      with_bytes (bytes_of start_addr buffer start end) (λ instr_bytes.
        with_line_entry last (line_entry i) (record blank {
          address = show_address start;
          instruction_bytes =
              some (pad_to (max_instr_bytes * 3 + 2) (show_bytes max_instr_bytes instr_bytes));
          instruction_text = instruction_str i;
        }))
      >>= λ dis_instr. pure (with_symbol resolve_symbols i dis_instr, line_entry i)
  render_decoded start_addr buffer resolve_symbols last start end (byte b) = pure (
    record blank {
      address = show_address start;
      instruction_bytes = some (show_byte b);
      instruction_text = chars ".byte  " ++ show_byte b;
      presentation_hint = some invalid;
    },
    none,
  )

  unfoldable pub render :
      Address
      → Bytes
      → Bool
      → Option SbLineEntry
      → List (Line (p.SbInstruction))
      → Exec Sources (List DisassembledInstruction)
  unfolding render_decoded
  render start_addr buffer resolve_symbols last [] = pure []
  render start_addr buffer resolve_symbols last (l ∷ ls) =
      render_decoded start_addr buffer resolve_symbols last l.start l.end l.decoded >>= λ r.
      (render start_addr buffer resolve_symbols r.1 ls >>= λ rest. pure (r.0 ∷ rest))
