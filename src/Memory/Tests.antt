-- ===== src/Memory/Tests.antt =====
-- Memory with one region of four bytes at 100.
use codelldb.Prelude.{
  ◌≡◌, refl, inl, inr, true, false, ◌&&◌, none, some, [], ◌∷◌, leb, ltb, if◌then◌else◌, length,
  arith,
}
use codelldb.Prelude.Int.{pos}
use codelldb.Prelude.Exec.{ok}
use codelldb.Str.Utf8.{Bytes}
use codelldb.Memory.{Region, Process, up_to_end, read_at, write_at, not_written}
use codelldb.Memory.Bounds.{
  MemoryLaws, ReadInside, WrittenInside, read_at-ReadInside, write_at-WrittenInside,
}

abbrev region : Region
region = record { is_readable = true; is_writable = true; region_end = 104 }

-- The debuggee is what was written last.
abbrev process : Process
process = record {
  Debuggee = Bytes;
  memory_region_info = λ d a. if leb 100 a && ltb a 104 then some region else none;
  read_memory = λ d a n. if leb n 4 then some [] else none;
  write_memory = λ a bs d. (some (length bs), bs);
  parse_int = λ t. inl [];
  encode = λ bs. bs;
  decode = λ t. inr t;
}

process_laws : MemoryLaws process
process_laws = record {
  length-read_memory = λ d a n bs e. ground arith;
  region_end_after = λ d a r e. ground arith;
}

-- All bytes are passed on though the region ends behind the second one.
behind_the_end : write_at process 102 (1 ∷ 2 ∷ 3 ∷ []) true [] ≡ (ok 3, 1 ∷ 2 ∷ 3 ∷ [])
unfolding write_at up_to_end not_written
behind_the_end = refl

read_at-ReadInside_example :
    ReadInside process process_laws [] 102 8 (read_at process [] 102 (pos 8))
read_at-ReadInside_example = read_at-ReadInside process process_laws [] 102 8 (omega arith)

write_at-WrittenInside_example :
    WrittenInside process process_laws [] 102
      (1 ∷ [])
      false
      (write_at process 102 (1 ∷ []) false [])
write_at-WrittenInside_example =
    write_at-WrittenInside process process_laws [] 102 (1 ∷ []) false (omega arith)
