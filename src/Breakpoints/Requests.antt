-- ===== src/Breakpoints/Requests.antt =====
-- The handlers for breakpoints in disassembly, at instructions, at functions and at exceptions, the
-- choice between them, and the events of the target.
use codelldb.Prelude.{
  ℕ, ◌+◌, ◌%◌, ◌^◌, Bool, false, Option, none, some, List, [], ◌∷◌, ltb, length, take, drop,
  get_elem?, if◌then◌else◌,
}
use codelldb.Prelude.Equality.{ℕ_eq, list_eq, ◌≐◌}
use codelldb.Prelude.Map.{Map, lookup, insert}
use codelldb.Prelude.Text.{Chars, chars}
use codelldb.Prelude.Exec.{Outcome, ok, panic, pure, fail, crash, modify, ◌>>=◌}
use codelldb.Fsutil.{PathBuf}
use codelldb.Handles.{Handle}
use codelldb.Disassembly.{
  Address, DisassembledRange, AdapterData, find_by_handle, address_by_line_num,
  lines_from_adapter_data,
}
use codelldb.Breakpoints.Interface.{BreakpointId, disassembly, instruction, function}
use codelldb.Breakpoints.Target.{
  LineTable, Place, by_load_address, by_regex, by_name, Env, Response, State, M,
}
use codelldb.Breakpoints.Handlers.{
  SourceBreakpoint, InstructionBreakpoint, FunctionBreakpoint, or_default, establish, no_hint,
  each_request, delete_missing, set_source_breakpoints,
}

-- A response with nothing in it.
abbrev pub no_response : Response
no_response = record {
  id = none;
  verified = false;
  message = none;
  source = none;
  line = none;
  instruction_reference = none;
}

abbrev pub starts_with : Chars → Chars → Bool
starts_with s p = take (length p) s ≐ p

module _ (env : Env) where
  open env use {sb, lldb, Value, parse_int}

  -- A line without an instruction panics.
  unfoldable pub address_place : Option Address → Outcome Place
  address_place none = panic
  address_place (some address) = ok (by_load_address address)

  -- The address of the line is computed whether the breakpoint is there or not.
  unfoldable pub set_dasm_one :
      LineTable → DisassembledRange lldb → SourceBreakpoint → M env (ℕ × Response × BreakpointId)
  unfolding establish address_place
  set_dasm_one existing dasm req = elim (address_by_line_num lldb dasm (req.line % 2 ^ 32)) [
    | none ↦ crash
    | some laddress ↦ do
      made ←
          establish env (lookup req.line existing) (ok (by_load_address laddress)) disassembly
            req.condition req.log_message req.hit_condition (no_hint env)
      pure (req.line, made.0, made.1)
  ]

  abbrev pub put_assembly : Handle → LineTable → State env → State env
  put_assembly handle table s = record s {
    breakpoints = record (s.breakpoints) { assembly = insert handle table s.breakpoints.assembly };
  }

  unfoldable pub set_dasm_breakpoints :
      DisassembledRange lldb → List SourceBreakpoint → M env (List Response)
  unfolding each_request set_dasm_one delete_missing
  set_dasm_breakpoints dasm requested_bps s =
      let existing_bps : LineTable = or_default [] (lookup dasm.handle s.breakpoints.assembly) in
      (do
        out ← each_request env (set_dasm_one existing_bps dasm) requested_bps []
        _ ←
            modify
              (λ u. put_assembly dasm.handle out.1 (delete_missing env false existing_bps out.1 u))
        pure out.0)
        (put_assembly dasm.handle existing_bps s)

  -- A negative line is at least 2 ^ 63 as a pattern.
  unfoldable pub new_dasm_address : List Address → ℕ → Option Address
  new_dasm_address line_addresses line =
      if ltb line (2 ^ 63) then get_elem? line_addresses line else none

  unfoldable pub set_new_dasm_one : List Address → SourceBreakpoint → M env Response
  unfolding establish new_dasm_address
  set_new_dasm_one line_addresses req = elim (new_dasm_address line_addresses req.line) [
    | none ↦ pure no_response
    | some address ↦ do
      made ←
          establish env none (ok (by_load_address address)) disassembly req.condition
            req.log_message req.hit_condition (no_hint env)
      pure made.0
  ]

  unfoldable pub set_new_dasm_each : List Address → List SourceBreakpoint → M env (List Response)
  unfolding set_new_dasm_one
  set_new_dasm_each line_addresses [] = pure []
  set_new_dasm_each line_addresses (req ∷ reqs) = do
    response ← set_new_dasm_one line_addresses req
    rest ← set_new_dasm_each line_addresses reqs
    pure (response ∷ rest)

  unfoldable pub set_new_dasm_breakpoints :
      AdapterData → List SourceBreakpoint → M env (List Response)
  unfolding set_new_dasm_each
  set_new_dasm_breakpoints adapter_data requested_bps =
      set_new_dasm_each (lines_from_adapter_data adapter_data) requested_bps

  -- The number is read before anything is done for the request.
  unfoldable pub set_instruction_one :
      Map Address BreakpointId → InstructionBreakpoint → M env (Address × Response × BreakpointId)
  unfolding establish
  set_instruction_one existing req = elim (parse_int req.instruction_reference) [
    | none ↦ fail (chars "invalid number")
    | some base_addr ↦
        let address : ℕ = (base_addr + or_default 0 req.offset) % 2 ^ 64 in
        (do
          made ←
              establish env (lookup address existing) (ok (by_load_address address)) instruction
                req.condition none req.hit_condition (no_hint env)
          pure (address, made.0, made.1))
  ]

  abbrev pub put_instruction : Map Address BreakpointId → State env → State env
  put_instruction table s = record s {
    breakpoints = record (s.breakpoints) { instruction = table };
  }

  unfoldable pub set_instruction_breakpoints : List InstructionBreakpoint → M env (List Response)
  unfolding each_request set_instruction_one delete_missing
  set_instruction_breakpoints requested_bps s =
      let existing_bps : Map Address BreakpointId = s.breakpoints.instruction in
      (do
        out ← each_request env (set_instruction_one existing_bps) requested_bps []
        _ ← modify (λ u. put_instruction out.1 (delete_missing env false existing_bps out.1 u))
        pure out.0)
        s

  unfoldable pub function_place : Chars → Place
  function_place name =
      if starts_with name (chars "/re ") then by_regex (drop 4 name) else by_name name

  unfoldable pub set_function_one :
      Map Chars BreakpointId → FunctionBreakpoint → M env (Chars × Response × BreakpointId)
  unfolding establish function_place
  set_function_one existing req = do
    made ←
        establish env (lookup req.name existing) (ok (function_place req.name)) function
          req.condition none req.hit_condition (no_hint env)
    pure (req.name, made.0, made.1)

  abbrev pub put_function : Map Chars BreakpointId → State env → State env
  put_function table s = record s { breakpoints = record (s.breakpoints) { function = table } }

  unfoldable pub set_function_breakpoints : List FunctionBreakpoint → M env (List Response)
  unfolding each_request set_function_one delete_missing
  set_function_breakpoints requested_bps s =
      let existing_bps : Map Chars BreakpointId = s.breakpoints.function in
      (do
        out ← each_request env (set_function_one existing_bps) requested_bps []
        _ ← modify (λ u. put_function out.1 (delete_missing env false existing_bps out.1 u))
        pure out.0)
        s

  -- A range that is known by its reference, one from a previous session, or a file.
  unfoldable pub set_in_source :
      Option (DisassembledRange lldb)
      → Option Value
      → Option PathBuf
      → List SourceBreakpoint
      → M env (List Response)
  unfolding set_dasm_breakpoints set_new_dasm_breakpoints set_source_breakpoints
  set_in_source (some dasm) adapter_data path requested_bps =
      set_dasm_breakpoints dasm requested_bps
  set_in_source none (some value) path requested_bps = elim (env.adapter_data_from_value value) [
    | some adapter_data ↦ set_new_dasm_breakpoints adapter_data requested_bps
    | none ↦ fail (chars "invalid adapter data")
  ]
  set_in_source none none (some path) requested_bps = set_source_breakpoints env path requested_bps
  set_in_source none none none requested_bps = fail (chars "Unexpected")

  -- The range of the `source_reference`, if it is known.
  unfoldable pub referenced_range : Option Handle → State env → Option (DisassembledRange lldb)
  referenced_range none s = none
  referenced_range (some reference) s = find_by_handle lldb s.disasm_ranges reference

  unfoldable pub set_breakpoints :
      (source_reference : Option Handle) (adapter_data : Option Value) (path : Option PathBuf)
      → List SourceBreakpoint
      → M env (List Response)
  unfolding referenced_range set_in_source
  set_breakpoints source_reference adapter_data path requested_bps s =
      set_in_source (referenced_range source_reference s) adapter_data path requested_bps s
