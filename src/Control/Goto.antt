-- ===== src/Control/Goto.antt =====
-- `handle_goto_targets` and `handle_goto` of src/codelldb/src/debug_session.rs.
use codelldb.Prelude.{
  ◌≡◌, ◌↔◌, ◌<◌, ◌≤◌, refl, ◌⊎◌, inl, inr, ℕ, zero, suc, ◌+◌, ◌-◌, ◌%◌, ◌^◌, Bool, true, false,
  Option, none, some, List, [], ◌∷◌, length, get_elem?, ltb, if◌then◌else◌, arith, Bool-cases,
  either_branch,
}
use codelldb.Prelude.Int.{ℤ, to_u64}
use codelldb.Prelude.Text.{Chars, chars}
use codelldb.Prelude.Exec.{Outcome, ok, error, panic, pure, fail, crash, modify, ◌>>=◌, ◌>>◌}
use codelldb.Handles.{Handle}
use codelldb.Disassembly.{
  Address, Lldb, DisassembledRange, Ranges, find_by_handle, address_by_line_num,
}
use codelldb.Control.{Driver, State, M, client_display, notify, thread_by_id}

-- The fields of a goto request that are read, and what LLDB does for it.
pub record GotoDriver (v : Driver) : Type 1 where
  pub lldb : Lldb
  pub source_reference : v.Goto → Option Handle
  pub path : v.Goto → Option Chars
  pub line : v.Goto → ℤ
  pub is_valid_frame : v.SbFrame → Bool
  pub set_pc : v.SbFrame → Address → v.Debuggee → Bool × v.Debuggee
  pub jump_to_line : v.SbThread → Chars → ℕ → v.Debuggee → Option Chars × v.Debuggee

get_elem?-cases :
    {A : Type 0} (xs : List A) (k : ℕ)
    → ((get_elem? xs k ≡ none) × (length xs ≤ k))
      ⊎ ((a : A) × (get_elem? xs k ≡ some a) × (k < length xs))
get_elem?-cases [] k = inl (refl, omega arith)
get_elem?-cases (x ∷ xs) zero = inr (x, refl, omega arith)
get_elem?-cases (x ∷ xs) (suc k) = elim (get_elem?-cases xs k) [
  | inl (missing, long) ↦ inl (missing, omega arith)
  | inr (a, there, short) ↦ inr (a, there, omega arith)
]

module _ (v : Driver) (g : GotoDriver v) (ranges : Ranges (g.lldb)) where
  -- There is one target, at the line that was asked for; the request is kept.
  unfoldable pub handle_goto_targets : v.Goto → M v ℤ
  handle_goto_targets args =
      modify (λ s. record s { last_goto_request = some args }) >> pure (g.line args)

  abbrev pub line_of : v.Goto → ℕ
  line_of args = to_u64 (g.line args) % 2 ^ 32

  abbrev pub jumped : Bool × v.Debuggee → State v → Outcome (Unit {0}) × State v
  jumped (true, d) s = (ok tt, notify v client_display (record s { debuggee = d }))
  jumped (false, d) s =
      (error (chars "Failed to set the instruction pointer."), record s { debuggee = d })

  abbrev pub set_pc_of : v.SbThread → Option Address → M v (Unit {0})
  set_pc_of thread none s = crash s
  set_pc_of thread (some addr) s =
      let frame = v.frame_at_index_0 s.debuggee thread in
      if g.is_valid_frame frame
      then jumped (g.set_pc frame addr s.debuggee) s
      else fail (chars "frame 0") s

  abbrev pub goto_range : v.SbThread → v.Goto → Option (DisassembledRange (g.lldb)) → M v (Unit {0})
  goto_range thread args none s = fail (chars "source_ref") s
  goto_range thread args (some dasm) s =
      set_pc_of thread (address_by_line_num g.lldb dasm (line_of args)) s

  abbrev pub jumped_to_line : Option Chars × v.Debuggee → State v → Outcome (Unit {0}) × State v
  jumped_to_line (none, d) s =
      (ok tt, notify v client_display (record s { debuggee = d; last_goto_request = none }))
  jumped_to_line (some e, d) s = (error e, record s { debuggee = d })

  abbrev pub goto_file : v.SbThread → v.Goto → Option Chars → M v (Unit {0})
  goto_file thread args none s = fail (chars "source.path") s
  goto_file thread args (some path) s =
      jumped_to_line (g.jump_to_line thread path (line_of args) s.debuggee) s

  abbrev pub goto_source : v.SbThread → v.Goto → Option Handle → M v (Unit {0})
  goto_source thread args (some source_ref) =
      goto_range thread args (find_by_handle g.lldb ranges source_ref)
  goto_source thread args none = goto_file thread args (g.path args)

  abbrev pub goto_request : ℤ → Option v.Goto → M v (Unit {0})
  goto_request id none = fail (chars "Unexpected goto message.")
  goto_request id (some args) =
      thread_by_id v id >>= λ thread. goto_source thread args (g.source_reference args)

  unfoldable pub handle_goto : ℤ → M v (Unit {0})
  unfolding address_by_line_num
  handle_goto id s = goto_request id s.last_goto_request s

  jumped-panic : (r : Bool × v.Debuggee) (s : State v) → (jumped r s).0 ≡ panic → ⊥
  jumped-panic (true, d) s e = cc
  jumped-panic (false, d) s e = cc

  set_pc_of-panic :
      (thread : v.SbThread) (addr : Address) (s : State v)
      → (set_pc_of thread (some addr) s).0 ≡ panic
      → ⊥
  set_pc_of-panic thread addr s =
      let frame = v.frame_at_index_0 s.debuggee thread in
      either_branch (λ (r : Outcome (Unit {0}) × State v). r.0 ≡ panic → ⊥) (g.is_valid_frame frame)
        (jumped-panic (g.set_pc frame addr s.debuggee) s) (λ e. cc)

  -- The lines that have no address.
  abbrev pub IsOutside : DisassembledRange (g.lldb) → ℕ → Type 0
  IsOutside dasm n = (n < 3) ⊎ (3 + length dasm.instruction_addresses ≤ n)

  address-cases :
      (dasm : DisassembledRange (g.lldb)) (n : ℕ)
      → ((address_by_line_num g.lldb dasm n ≡ none) × IsOutside dasm n)
        ⊎ ((addr : Address) × (address_by_line_num g.lldb dasm n ≡ some addr)
            × (¬ IsOutside dasm n))
  unfolding address_by_line_num
  address-cases dasm n = elim (Bool-cases (ltb n 3)) [
    | inl header ↦ inl (rw header refl, inl (ground arith))
    | inr behind ↦ elim (get_elem?-cases dasm.instruction_addresses (n - 3)) [
      | inl (missing, long) ↦ inl (rw behind missing, inr (ground arith))
      | inr (addr, there, short) ↦ inr (addr, rw behind there, ground arith)
    ]
  ]

  -- A jump in a disassembled range, for a thread that is there, panics exactly for the lines of the
  -- header and those behind the last instruction.
  pub handle_goto-panic :
      (id : ℤ) (args : v.Goto) (thread : v.SbThread) (source_ref : Handle)
      (dasm : DisassembledRange (g.lldb)) (s : State v)
      → s.last_goto_request ≡ some args
      → v.thread_by_id s.debuggee (to_u64 id) ≡ some thread
      → g.source_reference args ≡ some source_ref
      → find_by_handle g.lldb ranges source_ref ≡ some dasm
      → ((handle_goto id s).0 ≡ panic) ↔ IsOutside dasm (line_of args)
  unfolding handle_goto thread_by_id
  handle_goto-panic id args thread source_ref dasm s asked there ref found =
      elim (address-cases dasm (line_of args)) [
        | inl (missing, outside) ↦ rw (asked, there, ref, found, missing) (λ e. outside, λ h. refl)
        | inr (addr, has, inside) ↦
            rw (asked, there, ref, found, has)
              (
                λ e.
                    elim (set_pc_of-panic thread addr (record s { last_goto_request = some args })
                      e) [ ],
                λ h. elim (inside h) [ ],
              )
      ]
