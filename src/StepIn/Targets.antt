-- ===== src/StepIn/Targets.antt =====
-- `handle_step_in_targets`.
use codelldb.Prelude.{
  ℕ, ◌+◌, ◌-◌, ◌%◌, ◌^◌, max, Bool, false, ◌&&◌, ◌||◌, not, Option, none, some, List, [], ◌∷◌, ◌++◌,
  ltb, ◌==◌, if◌then◌else◌, length,
}
use codelldb.Prelude.Equality.{ℕ_eq, list_eq, ◌≐◌}
use codelldb.Prelude.Text.{Chars, chars}
use codelldb.Prelude.Exec.{Outcome, Exec, pure, fail, modify, ◌>>=◌, ◌>>◌}
use codelldb.Handles.{Handle, HandleTree, get}
use codelldb.Disassembly.{Address}
use codelldb.StepIn.{Lldb, control_flow_kind, is_call, call_target_function}

-- A line entry, with the load addresses of its range.
pub record LineEntry : Type 0 where
  pub line : ℕ
  pub filename : Chars
  pub start_address : Address
  pub end_address : Address

module _ (lldb : Lldb) where
  open lldb use {SbFunction, SbAddress, SbInstruction}

  pub record SbFrame : Type 0 where
    pub pc : Address
    pub pc_address : SbAddress
    pub line_entry : Option LineEntry
    pub compile_unit : Option (List LineEntry)

  -- What a handle stands for, as far as it matters here.
  pub data Container : Type 0 where
    stack_frame : SbFrame → Container
    other_container : Container

  pub record StepInTargetInternal : Type 0 where
    pub target_fn : SbFunction
    pub stmt_start : Address
    pub stmt_end : Address

  pub record State : Type 0 where
    pub var_refs : HandleTree Container
    pub step_in_targets : List StepInTargetInternal

  -- The largest end of the entries for a line.
  unfoldable pub max_end_addr : LineEntry → List LineEntry → Address
  max_end_addr curr_le [] = 0
  max_end_addr curr_le (le ∷ les) =
      let rest = max_end_addr curr_le les in
      if (le.line == curr_le.line) && (le.filename ≐ curr_le.filename)
      then max le.end_address rest
      else rest

  -- `take_while`
  unfoldable pub before_end : Address → List SbInstruction → List SbInstruction
  before_end end [] = []
  before_end end (i ∷ is) =
      let rest = before_end end is in
      if ltb (lldb.load_address (lldb.address i)) end then i ∷ rest else []

  unfoldable pub contains : List SbFunction → SbFunction → Bool
  contains [] f = false
  contains (g ∷ gs) f = lldb.function_eq.eqb g f || contains gs f

  -- Functions without line numbers are left out, and each is listed once.
  abbrev pub push_function : List SbFunction → Option SbFunction → List SbFunction
  push_function fns none = fns
  push_function fns (some f) =
      if (lldb.is_valid f && lldb.start_has_line_entry f) && not (contains fns f)
      then fns ++ f ∷ []
      else fns

  abbrev pub called_function : SbInstruction → Option SbFunction
  called_function i =
      if is_call (control_flow_kind lldb i) then call_target_function lldb i else none

  unfoldable pub collect : List SbFunction → List SbInstruction → List SbFunction
  unfolding contains call_target_function control_flow_kind
  collect fns [] = fns
  collect fns (i ∷ is) = collect (push_function fns (called_function i)) is

  -- The protocol's `StepInTarget`.
  pub record StepInTarget : Type 0 where
    pub id : ℕ
    pub label : Chars

  unfoldable pub push_targets : Address → Address → List SbFunction → Exec State (List StepInTarget)
  push_targets start end [] = pure []
  push_targets start end (f ∷ fs) = λ s.
      let target : StepInTarget = record {
        id = length s.step_in_targets;
        label = lldb.display_name f;
      } in
      ((modify (λ s. record s {
        step_in_targets =
            s.step_in_targets ++ record { target_fn = f; stmt_start = start; stmt_end = end } ∷ [];
      })
            >> push_targets start end fs)
          >>= λ rest. pure (target ∷ rest))
        s

  -- The functions that the instructions from the current one to the end of the statement call.
  unfoldable pub statement_functions : SbFrame → Address → List SbFunction
  unfolding collect before_end
  statement_functions frame end = collect [] (
      before_end end
        (lldb.read_instructions frame.pc_address ((end + 2 ^ 64 - frame.pc) % 2 ^ 64 % 2 ^ 32)))

  abbrev pub targets_of : SbFrame → LineEntry → List LineEntry → Exec State (List StepInTarget)
  targets_of frame curr_le entries =
      let end = max_end_addr curr_le entries in
      push_targets frame.pc end (statement_functions frame end)

  -- LLDB's symbols of version 16 are there, or an error says so.
  module _ (v16 : Outcome (Unit {0})) where
    abbrev pub with_compile_unit :
        SbFrame → LineEntry → Option (List LineEntry) → Exec State (List StepInTarget)
    with_compile_unit frame curr_le none = fail (chars "No compile unit for frame.")
    with_compile_unit frame curr_le (some entries) =
        (λ s. (v16, s)) >>= λ token. targets_of frame curr_le entries

    abbrev pub with_line_entry : SbFrame → Option LineEntry → Exec State (List StepInTarget)
    with_line_entry frame none = fail (chars "No line entry for frame.")
    with_line_entry frame (some curr_le) = with_compile_unit frame curr_le frame.compile_unit

    abbrev pub with_container : Option Container → Exec State (List StepInTarget)
    with_container (some (stack_frame frame)) = with_line_entry frame frame.line_entry
    with_container _ = fail (chars "Invalid frame id.")

    unfoldable pub handle_step_in_targets : Handle → Exec State (List StepInTarget)
    unfolding push_targets statement_functions max_end_addr
    handle_step_in_targets frame_id s = with_container (get frame_id s.var_refs) s
