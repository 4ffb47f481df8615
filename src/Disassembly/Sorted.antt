-- ===== src/Disassembly/Sorted.antt =====
-- The table keeps its ranges in the order of their starts, and each under a handle of its own.
use mathlib.Core.Path.{subst}
use codelldb.Prelude.{
  ℕ, sym, ap, ◌%◌, ◌+◌, ◌^◌, ◌≤◌, ◌<◌, ◌≡◌, ◌≢◌, refl, inl, inr, true, none, some, List, [], ◌∷◌,
  ltb, arith, length, All, Option-cases, Bool-cases, ltb→lt,
}
use codelldb.Prelude.Equality.{ℕ_eq}
use codelldb.Prelude.Map.{
  Map, has, lookup, insert, lookup-insert_self, lookup-insert_ne, lookup-insert_cases,
  length-insert,
}
use codelldb.Handles.{Handle}
use codelldb.Disassembly.{
  Lldb, DisassembledRange, Ranges, partition_point, insert_at, starts_before, new, make_range,
  file_range, add, find_by_handle,
}

module _ {lldb : Lldb} where
  -- Every range starts no later than those behind it.
  abbrev pub IsSorted : List (DisassembledRange lldb) → Type 0
  IsSorted [] = Unit
  IsSorted (d ∷ ds) = All (λ e. d.range_start ≤ e.range_start) ds × IsSorted ds

  abbrev Filed : Map Handle (DisassembledRange lldb) → DisassembledRange lldb → Type 0
  Filed m d = lookup d.handle m ≡ some d

  pub record IsValid (r : Ranges lldb) : Type 0 where
    pub sorted : IsSorted r.by_address
    pub filed : All (Filed r.by_handle) r.by_address
    pub handle_of :
        (h : Handle) (d : DisassembledRange lldb) → lookup h r.by_handle ≡ some d → d.handle ≡ h
    pub handle_lt : (h : Handle) → has (lookup h r.by_handle) ≡ true → h < length r.by_handle + 1000

  abbrev place :
      (n : ℕ)
      → DisassembledRange lldb
      → List (DisassembledRange lldb)
      → List (DisassembledRange lldb)
  place n d ds = insert_at (partition_point (starts_before lldb n) ds) d ds

  All-place :
      (P : DisassembledRange lldb → Type 0) (n : ℕ) (d : DisassembledRange lldb)
      (ds : List (DisassembledRange lldb))
      → P d
      → All P ds
      → All P (place n d ds)
  unfolding partition_point insert_at
  All-place P n d [] hd h = (hd, tt)
  All-place P n d (e ∷ ds) hd h = ground (arith, All-place P n d ds)

  -- Behind a range that starts no earlier, all start no earlier.
  All-later :
      (n : ℕ) (e : DisassembledRange lldb) (ds : List (DisassembledRange lldb))
      → n ≤ e.range_start
      → All (λ x. e.range_start ≤ x.range_start) ds
      → All (λ x. n ≤ x.range_start) ds
  All-later n e [] le h = tt
  All-later n e (x ∷ ds) le h = (omega arith, All-later n e ds le h.1)

  place-IsSorted :
      (d : DisassembledRange lldb) (ds : List (DisassembledRange lldb))
      → IsSorted ds
      → IsSorted (place d.range_start d ds)
  unfolding partition_point insert_at
  place-IsSorted d [] h = (tt, tt)
  place-IsSorted d (e ∷ ds) h = elim (Bool-cases (ltb e.range_start d.range_start)) [
    | inl before ↦ rw before (
      All-place _ d.range_start d ds (omega (arith, ltb→lt _ _ before)) h.0,
      place-IsSorted d ds h.1,
    )
    | inr later ↦
        let le : d.range_start ≤ e.range_start = ground arith in
        rw later ((le, All-later d.range_start e ds le h.0), h)
  ]

  All-mono :
      (P Q : DisassembledRange lldb → Type 0) (ds : List (DisassembledRange lldb))
      → ((d : DisassembledRange lldb) → P d → Q d)
      → All P ds
      → All Q ds
  All-mono P Q [] f h = tt
  All-mono P Q (d ∷ ds) f h = (f d h.0, All-mono P Q ds f h.1)

  -- Filing a range under a handle that is not taken keeps what is filed.
  Filed-insert :
      (d : DisassembledRange lldb) (m : Map Handle (DisassembledRange lldb))
      → lookup d.handle m ≡ none
      → (e : DisassembledRange lldb) → Filed m e
      → Filed (insert d.handle d m) e
  Filed-insert d m free e h = rw (lookup-insert_ne d.handle e.handle d m (λ q. cc)) h

  -- The next handle is not taken.
  next_free :
      {r : Ranges lldb}
      → IsValid r
      → (h : Handle) → h ≡ length r.by_handle + 1000
      → lookup h r.by_handle ≡ none
  next_free {r} w h e = elim (Option-cases (lookup h r.by_handle)) [
    | inl q ↦ q
    | inr (d, q) ↦ absurd (omega (arith, w.handle_lt h (rw q refl)))
  ]

  pub new-IsValid : IsValid (new lldb)
  unfolding lookup
  new-IsValid = record { sorted = tt; filed = tt; handle_of = λ h d e. cc; handle_lt = λ h e. cc }

  -- Adding a range keeps the table valid, while the number of ranges stays inside `i64`.
  file_range-IsValid :
      {r : Ranges lldb} (d : DisassembledRange lldb)
      → IsValid r
      → d.handle ≡ length r.by_handle + 1000
      → IsValid (file_range lldb r d)
  unfolding file_range
  file_range-IsValid {r} d w next =
      let free = next_free w d.handle next in
      record {
        sorted = place-IsSorted d r.by_address w.sorted;
        filed =
            All-place _ d.range_start d r.by_address (lookup-insert_self d.handle d r.by_handle)
              (All-mono _ _ r.by_address (Filed-insert d r.by_handle free) w.filed);
        handle_of = λ h e q. elim (lookup-insert_cases d.handle h d r.by_handle q) [
          | inl x ↦ cc
          | inr x ↦ w.handle_of h e x.1
        ];
        handle_lt = λ h q. ground (
          arith,
          length-insert d.handle d r.by_handle free,
          lookup-insert_ne d.handle h d r.by_handle,
          w.handle_lt h,
        );
      }

  -- While the number of ranges stays inside `i64`, `add` keeps a valid table valid; the new range
  -- is found under its handle, which was not taken, and every other handle finds what it did.
  pub add-IsValid :
      (r : Ranges lldb) (start end : lldb.SbAddress) (is : List lldb.SbInstruction)
      {d : DisassembledRange lldb} {u : Ranges lldb}
      → IsValid r
      → length r.by_handle + 1000 < 2 ^ 63
      → add lldb r start end is ≡ (d, u)
      → IsValid u
        × (find_by_handle lldb u d.handle ≡ some d)
        × (find_by_handle lldb r d.handle ≡ none)
        × ((h : Handle) → h ≢ d.handle → find_by_handle lldb u h ≡ find_by_handle lldb r h)
  unfolding add find_by_handle
  add-IsValid r start end is {d} {u} w small e =
      let made : d ≡ make_range lldb r start end is = cc in
      let filed : u ≡ file_range lldb r d = cc in
      let next : d.handle ≡ length r.by_handle + 1000 =
        (let h : d.handle ≡ (length r.by_handle + 1000) % 2 ^ 64 = ap (λ x. x.handle) made in
          omega arith) in
      subst
        (λ t.
          IsValid t
          × (lookup d.handle t.by_handle ≡ some d)
          × (lookup d.handle r.by_handle ≡ none)
          × ((h : Handle) → h ≢ d.handle → lookup h t.by_handle ≡ lookup h r.by_handle))
        (sym filed)
        (
          file_range-IsValid d w next,
          lookup-insert_self d.handle d r.by_handle,
          next_free w d.handle next,
          λ h ne. lookup-insert_ne d.handle h d r.by_handle (λ q. ne (sym q)),
        )
