-- ===== src/Disassemble/Readable.antt =====
-- Reading memory of which the beginning may be unreadable.
use codelldb.Prelude.{ℕ, ◌+◌, ◌-◌, ◌≤◌, ◌≡◌, true, none, some}
use codelldb.Disassembly.{Address}
use codelldb.Disassemble.{Process, read_from, is_unreadable, read_memory}
use codelldb.Disassemble.Boundary.{IsBoundary, partition_point-IsBoundary}

module _ (p : Process) where
  -- Where the whole range cannot be read, and its unreadable addresses come first, the range is
  -- read from the first address that can be read, or from the end if there is none.
  pub read_memory-IsBoundary :
      (start : Address) (count : ℕ)
      → p.read_memory start count ≡ none
      → ((a b : Address) → a ≤ b → is_unreadable p b ≡ true → is_unreadable p a ≡ true)
      → (m : Address) × (read_memory p start count ≡ some (read_from p (start + count - m) m))
        × IsBoundary (is_unreadable p) start (start + count) m
  unfolding read_memory
  read_memory-IsBoundary start count fails first =
      let found = partition_point-IsBoundary (is_unreadable p) first start (start + count) in
      (found.0, simp (read_memory, fails, found.1), found.2)
