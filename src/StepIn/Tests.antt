-- ===== src/StepIn/Tests.antt =====
-- A statement that calls one function, and a debuggee that reaches it by one step.
use codelldb.Prelude.{
  ◌≡◌, refl, inr, ℕ, suc, ◌+◌, Bool, true, false, none, some, [], ◌∷◌, ◌==◌, arith,
}
use codelldb.Prelude.Equality.{ℕ_eq}
use codelldb.Prelude.Text.{chars}
use codelldb.Prelude.Exec.{ok}
use codelldb.Prelude.Done.{Done}
use codelldb.Prelude.Map.{lookup}
use codelldb.Handles.{get}
use codelldb.Disassembly.{Address}
use codelldb.StepIn.{Lldb, call, match_immed, match_rip_rel, hex_number, xdigits}
use codelldb.StepIn.Targets.{
  LineEntry, SbFrame, stack_frame, State, StepInTargetInternal, handle_step_in_targets,
}
use codelldb.StepIn.LineEnd.{IsEnd}
use codelldb.StepIn.Found.{Answered, handle_step_in_targets-Finds}
use codelldb.StepIn.Stepping.{Stepper, Ending, step_into_target}
use codelldb.StepIn.Ends.{Reached, step_into_target-Ended}

immed_only : match_immed (chars "0x12fG") ≡ false
unfolding match_immed hex_number xdigits
immed_only = refl

rip_relative : match_rip_rel (chars "*0x1F(%rip)") ≡ some (chars "0x1F")
unfolding match_rip_rel hex_number xdigits
rip_relative = refl

-- Addresses are instructions, each of which calls the function of its number.
abbrev lldb : Lldb
lldb = record {
  SbFunction = ℕ;
  SbAddress = ℕ;
  SbInstruction = ℕ;
  function_eq = ℕ_eq;
  triple = chars "x86_64";
  control_flow_kind = λ i. call;
  mnemonic = λ i. chars "call";
  operands = λ i. chars "0x10";
  byte_size = λ i. 1;
  address = λ i. i;
  load_address = λ a. a;
  from_load_address = λ a. a;
  add_offset = λ a n. a + n;
  read_instructions = λ a n. a ∷ suc a ∷ [];
  read_memory = λ a n. none;
  function = λ a. some a;
  is_valid = λ f. true;
  start_has_line_entry = λ f. true;
  display_name = λ f. f ∷ [];
  parse_int = λ t. some 16;
}

abbrev entry : LineEntry
entry = record { line = 3; filename = chars "a.c"; start_address = 100; end_address = 110 }

abbrev frame : SbFrame lldb
frame = record {
  pc = 100;
  pc_address = 100;
  line_entry = some entry;
  compile_unit = some (entry ∷ []);
}

abbrev state : State lldb
state = record {
  var_refs = record {
    obj_by_handle = (1001, (none, "[1,0]", stack_frame frame)) ∷ [];
    handle_tree = [];
    prev_handle_tree = [];
    next_handle_value = 1001;
  };
  step_in_targets = [];
}

handle_step_in_targets-Finds_example :
    (end : Address) × IsEnd lldb entry (entry ∷ []) end
    × Done (handle_step_in_targets lldb (ok tt) 1001) state (Answered lldb frame end state)
unfolding get lookup
handle_step_in_targets-Finds_example =
    handle_step_in_targets-Finds lldb (ok tt) 1001 frame entry (entry ∷ []) state refl refl refl
      refl

-- The number of the steps made is the place where the debuggee stops.
abbrev stepper : Stepper lldb
stepper = record {
  Debuggee = ℕ;
  Frame = ℕ;
  same_frame = λ f g. true;
  frame_is_valid = λ f. true;
  function = λ f. some f;
  pc = λ f. f;
  pc_address = λ f. f;
  frame_at_index_0 = λ d. d;
  frames = λ d. d ∷ [];
  step_into = λ d. inr (suc d);
  step_out = λ d. inr d;
  set_async_mode = λ b d. d;
}

abbrev target : StepInTargetInternal lldb
target = record { target_fn = 1; stmt_start = 0; stmt_end = 10 }

abbrev after_two : ℕ → Bool
after_two i = i == 2

step_into_target-Ended_example :
    (e : Ending) × (u : ℕ) × (step_into_target lldb stepper target after_two 5 0 ≡ some (e, u))
    × Reached lldb stepper target after_two e u
step_into_target-Ended_example =
    step_into_target-Ended lldb stepper target after_two 5 2 0 refl (omega arith)
