-- ===== src/Disassemble/Tests.antt =====
-- The test of disassemble.rs, and the theorems at a process that can read from 42 on, in which a
-- byte below 100 is an instruction of its own.
use codelldb.Prelude.{
  ℕ, ◌≡◌, refl, Bool, true, none, some, List, [], ◌∷◌, ltb, if◌then◌else◌, arith, Bool-cases, inl,
  inr, ◌⊎◌, ◌+◌, ◌==◌, length, map, get_elem?, false,
}
use codelldb.Prelude.Map.{lookup}
use codelldb.Prelude.Int.{pos, negsuc, ◌+ℤ◌}
use codelldb.Prelude.Text.{chars}
use codelldb.Prelude.Exec.{panic}
use codelldb.Prelude.Done.{Done}
use codelldb.MustInitialize.{initialized}
use codelldb.Fsutil.{root_dir, PathBuf}
use codelldb.Prelude.Equality.{list_eq}
use codelldb.Fsutil.Equality.{component_eq}
use codelldb.SourceMap.{Files, Sources}
use codelldb.SourceMap.Cached.{IsCached}
use codelldb.Str.Utf8.{Bytes}
use codelldb.Disassembly.{Address}
use codelldb.Disassemble.{bisect, partition_point, Process, Line, total_size, instruction}
use codelldb.Disassemble.Boundary.{IsBoundary, partition_point-IsBoundary}
use codelldb.Disassemble.Render.{View, show_address}
use codelldb.Disassemble.Request.{Aligned, align, select}
use codelldb.Disassemble.Selection.{IsInside, select-length}
use codelldb.Disassemble.Alignment.{IsAligned, Searched, align-Searched, select-base_address}
use codelldb.Disassemble.Tiles.{Tile, Fits}

abbrev below_42 : Address → Bool
below_42 a = ltb a 42

test_partition_point : partition_point 10 100 below_42 ≡ some 42
unfolding partition_point bisect
test_partition_point = refl

abbrev head_instructions : Bytes → List ℕ
head_instructions [] = []
head_instructions (b ∷ bs) = if ltb b 100 then b ∷ [] else []

abbrev process : Process
process = record {
  SbInstruction = ℕ;
  byte_size = λ i. 1;
  read_memory = λ a n. if ltb a 42 then none else some (0 ∷ []);
  get_instructions = λ a buffer. head_instructions buffer;
}

process-Fits : Fits process
unfolding total_size
process-Fits addr [] = (tt, omega arith)
process-Fits addr (b ∷ buffer) = elim (Bool-cases (ltb b 100)) [
  | inl decodes ↦ simp decodes ((omega arith, tt), omega arith)
  | inr fails ↦ simp fails (tt, omega arith)
]

partition_point-IsBoundary_example :
    (m : Address) × (partition_point 10 100 below_42 ≡ some m) × IsBoundary below_42 10 100 m
partition_point-IsBoundary_example =
    partition_point-IsBoundary below_42 (λ a b le e. ground arith) 10 100

abbrev files : Files
files = record {
  SbFileSpec = PathBuf;
  is_valid = λ p. true;
  path = λ p. p;
  get_fs_path_case = λ p. some p;
  is_file = λ p. true;
}

abbrev view : View process
view = record {
  files = files;
  SbLineEntry = ℕ;
  same_line_entry = λ a b. a == b;
  line = λ e. e;
  column = λ e. 0;
  file_spec = λ e. [];
  filename = λ f. [];
  mnemonic = λ i. chars "nop";
  operands = λ i. [];
  comment = λ i. [];
  line_entry = λ i. some i;
  symbol_name = λ i. none;
  triple = chars "x86_64-pc-linux";
  display = λ p. [];
  parse_int = λ t. inr 50;
  max_instr_bytes = 8;
}

abbrev sources : Sources
sources = record {
  source_map_cache = [];
  relative_path_base = initialized (root_dir ∷ []);
  suppress_missing_files = false;
}

sources-IsCached : IsCached files (root_dir ∷ []) sources
unfolding lookup
sources-IsCached = record { has_base = refl; entries = λ p m e. cc }

abbrev line_at : Address → Line ℕ
line_at addr = record { start = addr; end = addr + 1; decoded = instruction 1 }

-- Three lines, of which the one in the middle is at the base address.
abbrev three_lines : Aligned process view
three_lines = record {
  start_addr = 49;
  buffer = 1 ∷ 1 ∷ 1 ∷ [];
  instructions = line_at 49 ∷ line_at 50 ∷ line_at 51 ∷ [];
  base_index = 1;
}

three_lines-Tile : Tile 49 (three_lines.instructions) 52
three_lines-Tile = ((refl, omega arith, (refl, omega arith, (refl, omega arith, omega arith))))

three_lines-IsAligned : IsAligned process view 50 three_lines
three_lines-IsAligned = record { covers = three_lines-Tile; at_base = (line_at 50, refl, refl) }

two-IsInside : IsInside process view three_lines (negsuc 0) (pos 2)
unfolding ◌+ℤ◌
two-IsInside = (refl, omega arith)

align-Searched_example :
    Searched process view 50 sources (align process view 50 49 (1 ∷ 1 ∷ []) 2 0 sources)
align-Searched_example = align-Searched process view 50 process-Fits 49 (1 ∷ 1 ∷ []) 2 0 sources

select-length_example :
    (IsInside process view three_lines (negsuc 0) (pos 4)
      × Done
          (select process view three_lines (negsuc 0) (pos 4) true)
          sources
          (λ r t. length r ≡ 4))
    ⊎ ((¬ IsInside process view three_lines (negsuc 0) (pos 4))
        × (select process view three_lines (negsuc 0) (pos 4) true sources ≡ (panic, sources)))
select-length_example =
    select-length process view three_lines three_lines-Tile (negsuc 0) 4 (omega arith) true
      (root_dir ∷ []) sources (omega arith) sources-IsCached

select-base_address_example :
    Done
      (select process view three_lines (negsuc 0) (pos 2) true)
      sources
      (λ r t. get_elem? (map (λ d. d.address) r) 1 ≡ some (show_address 50))
select-base_address_example =
    select-base_address process view 50 three_lines (negsuc 0) 2 true (root_dir ∷ []) sources
      three_lines-IsAligned (omega arith) (omega arith) (omega arith, omega arith) refl
      (omega arith) two-IsInside sources-IsCached
