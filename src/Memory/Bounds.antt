-- ===== src/Memory/Bounds.antt =====
-- What is read and written lies inside a region of memory.
use codelldb.Prelude.{
  ◌≡◌, refl, sym, ◌∙◌, ap, ◌⊎◌, inl, inr, ℕ, ◌+◌, ◌-◌, ◌%◌, ◌^◌, ◌≤◌, ◌<◌, min, Bool, true, false,
  ◌&&◌, ◌||◌, Option, none, some, ◌==◌, length, arith, Bool-cases, branch_with,
}
use codelldb.Prelude.Int.{pos, to_u64, of_u64}
use codelldb.Prelude.Exec.{Outcome}
use codelldb.Str.Utf8.{Bytes}
use codelldb.Disassembly.{Address}
use codelldb.Memory.{
  Region, Process, ReadMemoryResponse, up_to_end, response_of, read_region, read_at, not_written,
  written_or, write_region, write_at,
}

-- LLDB reads at most as much as is asked for, and the region of an address ends behind it.
pub record MemoryLaws (p : Process) : Type 0 where
  pub length-read_memory :
      (d : p.Debuggee) (a : Address) (n : ℕ) (bs : Bytes)
      → p.read_memory d a n ≡ some bs
      → length bs ≤ n
  pub region_end_after :
      (d : p.Debuggee) (a : Address) (r : Region)
      → p.memory_region_info d a ≡ some r
      → (a ≤ r.region_end) × (r.region_end < 2 ^ 64)

up_to_end_lem :
    (count : ℕ) (r : Region) (a : Address)
    → a ≤ r.region_end
    → r.region_end < 2 ^ 64
    → up_to_end count r a ≡ min count (r.region_end - a)
unfolding up_to_end
up_to_end_lem count r a h k = ground arith

rest_of :
    (c n : ℕ) → c < 2 ^ 63 → n ≤ c → of_u64 ((to_u64 (pos c) + 2 ^ 64 - n) % 2 ^ 64) ≡ pos (c - n)
rest_of c n h k = ground arith

module _ (p : Process) (laws : MemoryLaws p) where
  -- There is no region at the address, it cannot be read, or LLDB fails to read it.
  abbrev pub NotRead : p.Debuggee → Address → ℕ → Type 0
  NotRead d address count =
      (p.memory_region_info d address ≡ none)
      ⊎ ((region : Region) × (p.memory_region_info d address ≡ some region)
          × ((region.is_readable ≡ false)
              ⊎ (p.read_memory d address (min count (region.region_end - address)) ≡ none)))

  -- Nothing was read, since that is not possible, or what LLDB reads at the address in a readable
  -- region: it is asked for the count, or for what is left in front of the region's end. What was not
  -- read of the count is reported.
  abbrev pub ReadInside : p.Debuggee → Address → ℕ → ReadMemoryResponse → Type 0
  ReadInside d address count resp =
      (NotRead d address count
        × (resp.contents ≡ none)
        × (resp.unreadable_bytes ≡ some (pos count)))
      ⊎ ((region : Region) × (bytes : Bytes) × (p.memory_region_info d address ≡ some region)
          × (region.is_readable ≡ true)
          × (p.read_memory d address (min count (region.region_end - address)) ≡ some bytes)
          × (resp.contents ≡ some (p.encode bytes))
          × (address + length bytes ≤ region.region_end)
          × (length bytes ≤ count)
          × (resp.unreadable_bytes ≡ some (pos (count - length bytes))))

  -- What LLDB is asked for.
  amount_lem :
      (d : p.Debuggee) (address : Address) (count : ℕ) (region : Region)
      → count < 2 ^ 63
      → p.memory_region_info d address ≡ some region
      → up_to_end (to_u64 (pos count)) region address ≡ min count (region.region_end - address)
  amount_lem d address count region h known =
      let ends = laws.region_end_after d address region known in
      let same : to_u64 (pos count) ≡ count = ground arith in
      up_to_end_lem (to_u64 (pos count)) region address ends.0 ends.1
      ∙ ap (λ c. min c (region.region_end - address)) same

  response_of-ReadInside :
      (d : p.Debuggee) (address : Address) (count : ℕ) (region : Region) (o : Option Bytes)
      → count < 2 ^ 63
      → p.memory_region_info d address ≡ some region
      → region.is_readable ≡ true
      → p.read_memory d address (up_to_end (to_u64 (pos count)) region address) ≡ o
      → ReadInside d address count (response_of p address (pos count) o)
  response_of-ReadInside d address count region none h known readable reads =
      let amount = amount_lem d address count region h known in
      inl (inr (region, known, inr (ap (p.read_memory d address) (sym amount) ∙ reads)), refl, refl)
  response_of-ReadInside d address count region (some bytes) h known readable reads =
      let ends = laws.region_end_after d address region known in
      let below = ends.0 in
      let size = up_to_end_lem (to_u64 (pos count)) region address ends.0 ends.1 in
      let short =
        laws.length-read_memory d address (up_to_end (to_u64 (pos count)) region address) bytes
          reads in
      let same : to_u64 (pos count) ≡ count = ground arith in
      let amount = amount_lem d address count region h known in
      let upto : length bytes ≤ min (to_u64 (pos count)) (region.region_end - address) =
        omega arith in
      inr (
        region,
        bytes,
        known,
        readable,
        ap (p.read_memory d address) (sym amount) ∙ reads,
        refl,
        omega arith,
        omega arith,
        ap some (rest_of count (length bytes) h (omega arith)),
      )

  read_region-ReadInside :
      (d : p.Debuggee) (address : Address) (count : ℕ) (o : Option Region)
      → count < 2 ^ 63
      → p.memory_region_info d address ≡ o
      → ReadInside d address count (read_region p d address (pos count) o)
  read_region-ReadInside d address count none h known = inl (inl known, refl, refl)
  read_region-ReadInside d address count (some region) h known =
      branch_with (ReadInside d address count) region.is_readable
        (λ readable. response_of-ReadInside d address count region _ h known readable refl)
        (λ closed. inl (inr (region, known, inl closed), refl, refl))

  -- For a count that is not negative, the answer has the bytes that LLDB reads at the address in a
  -- readable region, when it is asked for the count, but at most for what is left in front of the
  -- region's end: they lie in front of it. It has no bytes only if there is no region, the region
  -- cannot be read or LLDB fails. What was not read of the count is reported.
  pub read_at-ReadInside :
      (d : p.Debuggee) (address : Address) (count : ℕ)
      → count < 2 ^ 63
      → ReadInside d address count (read_at p d address (pos count))
  unfolding read_at
  read_at-ReadInside d address count h =
      read_region-ReadInside d address count (p.memory_region_info d address) h refl

  -- The debuggee as it was, or after a write of all bytes in a writable region, in front of whose end
  -- they lie unless parts may be left out.
  abbrev pub WrittenInside : p.Debuggee → Address → Bytes → Bool → Outcome ℕ × p.Debuggee → Type 0
  WrittenInside d address bytes allow_partial r =
      (r.1 ≡ d)
      ⊎ ((region : Region) × (p.memory_region_info d address ≡ some region)
          × (region.is_writable ≡ true)
          × ((allow_partial ≡ true) ⊎ (address + length bytes ≤ region.region_end))
          × (r.1 ≡ (p.write_memory address bytes d).1))

  not_written_lem :
      (d : p.Debuggee) (address : Address) (bytes : Bytes) (allow_partial : Bool)
      → (not_written p address bytes allow_partial d).1 ≡ d
  unfolding not_written
  not_written_lem d address bytes true = refl
  not_written_lem d address bytes false = refl

  written_or_lem :
      (address : Address) (bytes : Bytes) (allow_partial : Bool) (o : Option ℕ × p.Debuggee)
      → (written_or p (not_written p address bytes allow_partial) o).1 ≡ o.1
  written_or_lem address bytes allow_partial (none, d) =
      not_written_lem d address bytes allow_partial
  written_or_lem address bytes allow_partial (some n, d) = refl

  write_region-WrittenInside :
      (d : p.Debuggee) (address : Address) (bytes : Bytes) (allow_partial : Bool)
      (o : Option Region)
      → length bytes < 2 ^ 64
      → p.memory_region_info d address ≡ o
      → WrittenInside d address bytes allow_partial (write_region p address bytes allow_partial o d)
  write_region-WrittenInside d address bytes allow_partial none h known =
      inl (not_written_lem d address bytes allow_partial)
  write_region-WrittenInside d address bytes allow_partial (some region) h known =
      let test =
        region.is_writable
        && (allow_partial || (up_to_end (length bytes) region address == length bytes)) in
      elim (Bool-cases test) [
        | inr blocked ↦ inl (rw blocked (not_written_lem d address bytes allow_partial))
        | inl allowed ↦
            let ends = laws.region_end_after d address region known in
            let below = ends.0 in
            let size = up_to_end_lem (length bytes) region address ends.0 ends.1 in
            let writable : region.is_writable ≡ true = ground arith in
            let fits : (allow_partial ≡ true) ⊎ (address + length bytes ≤ region.region_end) =
              elim (Bool-cases allow_partial) [
                | inl partial ↦ inl partial
                | inr whole ↦ inr (ground arith)
              ] in
            inr (
              region,
              known,
              writable,
              fits,
              rw allowed
                  (written_or_lem address bytes allow_partial (p.write_memory address bytes d)),
            )
      ]

  -- A write leaves the debuggee as it was, or passes all bytes to LLDB, in a writable region in front
  -- of whose end they lie, unless parts may be left out: then they may reach behind the end as well.
  pub write_at-WrittenInside :
      (d : p.Debuggee) (address : Address) (bytes : Bytes) (allow_partial : Bool)
      → length bytes < 2 ^ 64
      → WrittenInside d address bytes allow_partial (write_at p address bytes allow_partial d)
  unfolding write_at
  write_at-WrittenInside d address bytes allow_partial h =
      write_region-WrittenInside d address bytes allow_partial (p.memory_region_info d address) h
        refl
