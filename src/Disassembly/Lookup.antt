-- ===== src/Disassembly/Lookup.antt =====
-- A look-up by address finds a range that holds the address, and the one there is if the ranges do
-- not overlap.
use mathlib.Core.Path.{subst}
use codelldb.Prelude.{
  ◌∙◌, ℕ, zero, suc, ◌≤◌, ◌<◌, ◌≡◌, refl, ap, inl, inr, Bool, true, some, List, [], ◌∷◌, arith,
  get_elem?, All, All-get_elem?, some_eq, Option-cases,
}
use codelldb.Disassembly.{
  Address, Lldb, DisassembledRange, Ranges, partition_point, contains, starts_by, range_before,
  find_by_address, insert_at, add, file_range, make_range, starts_before, add_extent, extent,
  from_address,
}

module _ {lldb : Lldb} where
  -- Every range ends before those behind it start.
  abbrev pub IsApart : List (DisassembledRange lldb) → Type 0
  IsApart [] = Unit
  IsApart (d ∷ ds) =
      All (λ e. (d.range_end ≤ e.range_start) × (d.range_start ≤ e.range_start)) ds × IsApart ds

  holds_bounds :
      (d : DisassembledRange lldb) (addr : Address)
      → contains lldb d addr ≡ true
      → (d.range_start ≤ addr) × (addr < d.range_end)
  holds_bounds d addr h = (ground arith, ground arith)

  range_before_sound :
      (ds : List (DisassembledRange lldb)) (addr : Address) (k : ℕ) {d : DisassembledRange lldb}
      → range_before lldb ds addr k ≡ some d
      → (i : ℕ) × (get_elem? ds i ≡ some d) × (contains lldb d addr ≡ true)
  unfolding range_before
  range_before_sound ds addr zero e = cc
  range_before_sound ds addr (suc i) e = (i, ground arith, ground arith)

  -- A range that is found is in the table and holds the address.
  pub find_by_address_sound :
      (r : Ranges lldb) (addr : Address) {d : DisassembledRange lldb}
      → find_by_address lldb r addr ≡ some d
      → (i : ℕ) × (get_elem? r.by_address i ≡ some d) × (contains lldb d addr ≡ true)
  unfolding find_by_address
  find_by_address_sound r addr e = range_before_sound r.by_address addr _ e

  partition_point-none :
      (addr n : Address) (ds : List (DisassembledRange lldb)) (k : ℕ)
      → addr < n
      → All (λ e. (n ≤ e.range_start) × (k ≤ e.range_start)) ds
      → partition_point (starts_by lldb addr) ds ≡ 0
  unfolding partition_point
  partition_point-none addr n [] k lt h = refl
  partition_point-none addr n (d ∷ ds) k lt h = ground arith

  -- Where the ranges are apart, the partition point is behind the range that holds the address.
  partition_point-holds :
      (addr : Address) (ds : List (DisassembledRange lldb)) (i : ℕ) {d : DisassembledRange lldb}
      → IsApart ds
      → get_elem? ds i ≡ some d
      → contains lldb d addr ≡ true
      → partition_point (starts_by lldb addr) ds ≡ suc i
  unfolding partition_point
  partition_point-holds addr [] i apart e h = cc
  partition_point-holds addr (x ∷ ds) zero {d} apart e h =
      let same : x ≡ d = some_eq e in
      let inside : contains lldb x addr ≡ true = rw same h in
      ground (
        arith,
        partition_point-none addr x.range_end ds x.range_start
            (omega (arith, holds_bounds x addr inside)) apart.0,
      )
  partition_point-holds addr (x ∷ ds) (suc i) {d} apart e h = ground (
    arith,
    All-get_elem? (λ y. (x.range_end ≤ y.range_start) × (x.range_start ≤ y.range_start)) ds i
        apart.0 e,
    partition_point-holds addr ds i apart.1 e h,
  )

  -- In a table whose ranges do not overlap, the range that holds the address is found.
  pub find_by_address_complete :
      (r : Ranges lldb) (addr : Address) (i : ℕ) {d : DisassembledRange lldb}
      → IsApart r.by_address
      → get_elem? r.by_address i ≡ some d
      → contains lldb d addr ≡ true
      → find_by_address lldb r addr ≡ some d
  unfolding find_by_address range_before
  find_by_address_complete r addr i apart e h =
      rw (partition_point-holds addr r.by_address i apart e h, e, h)

  get_elem?-insert_at :
      (p : DisassembledRange lldb → Bool) (d : DisassembledRange lldb)
      (ds : List (DisassembledRange lldb))
      → get_elem? (insert_at (partition_point p ds) d ds) (partition_point p ds) ≡ some d
  unfolding insert_at partition_point
  get_elem?-insert_at p d [] = refl
  get_elem?-insert_at p d (x ∷ ds) = ground (arith, get_elem?-insert_at p d ds)

  -- What `add` returns is in the table.
  add_member :
      (r : Ranges lldb) (x y : lldb.SbAddress) (is : List lldb.SbInstruction)
      {d : DisassembledRange lldb} {u : Ranges lldb}
      → add lldb r x y is ≡ (d, u)
      → (i : ℕ) × (get_elem? u.by_address i ≡ some d)
  unfolding add file_range
  add_member r x y is {d} {u} e =
      let made : d ≡ make_range lldb r x y is = cc in
      let filed : u ≡ file_range lldb r d = cc in
      (
        partition_point (starts_before lldb d.range_start) r.by_address,
        ap
              (λ t.
                get_elem? t.by_address
                  (partition_point (starts_before lldb d.range_start) r.by_address))
              filed
            ∙ get_elem?-insert_at (starts_before lldb d.range_start) d r.by_address,
      )

  add_extent_member :
      (r : Ranges lldb) (x : lldb.SbAddress × lldb.SbAddress × List lldb.SbInstruction)
      {d : DisassembledRange lldb} {u : Ranges lldb}
      → add_extent lldb r x ≡ (some d, u)
      → (i : ℕ) × (get_elem? u.by_address i ≡ some d)
  unfolding add_extent
  add_extent_member r (x, y, []) e = cc
  add_extent_member r (x, y, j ∷ is) {d} {u} e =
      let first : (add lldb r x y (j ∷ is)).0 ≡ d = some_eq (ap (λ t. t.0) e) in
      let second : (add lldb r x y (j ∷ is)).1 ≡ u = ap (λ t. t.1) e in
      add_member r x y (j ∷ is) {d = d} {u = u} (λ i. (first i, second i))

  -- If the ranges in the table do not overlap, a range that `from_address` returned and that holds
  -- the address is returned again for it, and nothing is added.
  pub from_address_again :
      (r : Ranges lldb) (addr : Address) {d : DisassembledRange lldb} {u : Ranges lldb}
      → from_address lldb r addr ≡ (some d, u)
      → IsApart u.by_address
      → contains lldb d addr ≡ true
      → from_address lldb u addr ≡ (some d, u)
  unfolding from_address
  from_address_again r addr {d} {u} e apart h = elim (Option-cases (find_by_address lldb r addr)) [
    | inr (d', found) ↦
        let same : d' ≡ d = some_eq (ap (λ t. t.0) (rw (found, from_address) at e)) in
        let kept : r ≡ u = ap (λ t. t.1) (rw (found, from_address) at e) in
        let again : find_by_address lldb u addr ≡ some d =
          subst (λ t. find_by_address lldb t addr ≡ some d) kept (found ∙ ap some same) in
        rw (again, from_address)
    | inl missing ↦
        let (i, member) =
          add_extent_member r (extent lldb (lldb.from_load_address addr))
            (rw (missing, from_address) at e) in
        rw (find_by_address_complete u addr i apart member h, from_address)
  ]
