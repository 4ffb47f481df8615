-- ===== src/Control/Tests.antt =====
-- A process with the thread 1, whose steps are counted.
use codelldb.Prelude.{
  ◌≡◌, ◌↔◌, refl, ◌⊎◌, ℕ, suc, ◌+◌, true, false, none, some, [], ◌∷◌, ◌==◌, if◌then◌else◌,
}
use codelldb.Prelude.Int.{pos, to_u64}
use codelldb.Prelude.Exec.{ok, panic}
use codelldb.MustInitialize.{not_initialized}
use codelldb.Handles.{new}
use codelldb.Fsutil.{PathBuf}
use codelldb.SourceMap.{Files}
use codelldb.Control.{
  auto, line, instruction, Driver, State, handle_continue, handle_next, handle_step_out,
  handle_step_in, thread_by_id, before_resume,
}
use codelldb.Prelude.Map.{lookup}
use codelldb.Disassembly.{Lldb, DisassembledRange, Ranges, find_by_handle}
use codelldb.Control.Goto.{GotoDriver, handle_goto, IsOutside, handle_goto-panic}
use codelldb.Control.Resumes.{Cleared, resume-Cleared, handle_step_in-target}

abbrev files : Files
files = record {
  SbFileSpec = PathBuf;
  is_valid = λ p. true;
  path = λ p. p;
  get_fs_path_case = λ p. some p;
  is_file = λ p. true;
}

abbrev driver : Driver
driver = record {
  files = files;
  Debuggee = ℕ;
  SbThread = ℕ;
  SbFrame = ℕ;
  Container = ℕ;
  StepInTarget = ℕ;
  Goto = ℕ;
  thread_by_id = λ d n. if n == 1 then some n else none;
  is_running = λ d. false;
  frame_at_index_0 = λ d t. 0;
  line_entry_file = λ f. none;
  stop = λ d. (none, d);
  resume = λ d. (none, suc d);
  step_instruction = λ t over d. (none, suc d);
  step_over = λ t d. (none, suc d);
  step_into = λ t d. (none, suc d);
  step_out = λ t d. (none, suc d);
  step_into_target = λ t target d. d + target;
}

abbrev state : State driver
state = record {
  debuggee = 0;
  var_refs = new;
  step_in_targets = 5 ∷ 7 ∷ [];
  selected_frame_changed = true;
  last_goto_request = some 3;
  sources = record {
    source_map_cache = [];
    relative_path_base = not_initialized;
    suppress_missing_files = false;
  };
  show_disassembly = auto;
  notices = [];
}

-- A step out of a thread that is not there is an error, but what was given out is cleared.
step_out_clears : (handle_step_out driver (pos 2) state).1.step_in_targets ≡ []
unfolding handle_step_out thread_by_id before_resume
step_out_clears = refl

resume-Cleared_example :
    Cleared driver state (handle_continue driver state).1
    × Cleared driver state (handle_step_out driver (pos 1) state).1
    × (((driver.thread_by_id (state.debuggee) (to_u64 (pos 1)) ≡ none)
          × ((handle_next driver (pos 1) (some instruction) state).1 ≡ state)
          × ((handle_step_in driver (pos 1) none (some instruction) state).1 ≡ state))
        ⊎ (Cleared driver state (handle_next driver (pos 1) (some instruction) state).1
            × Cleared driver state (handle_step_in driver (pos 1) none (some instruction) state).1))
resume-Cleared_example = resume-Cleared driver state (pos 1) none (some instruction)

handle_step_in-target_example :
    ((handle_step_in driver (pos 1) (some (pos 1)) (some line) state).0 ≡ ok tt)
    × ((handle_step_in driver (pos 1) (some (pos 1)) (some line) state).1.debuggee ≡ 7)
    × ((handle_step_in driver (pos 1) (some (pos 1)) (some line) state).1.step_in_targets ≡ [])
handle_step_in-target_example = handle_step_in-target driver state (pos 1) (pos 1) 1 7 refl refl

abbrev no_lldb : Lldb
no_lldb = record {
  SbAddress = ℕ;
  SbSymbol = ℕ;
  SbInstruction = ℕ;
  from_load_address = λ a. a;
  load_address = λ a. a;
  symbol = λ a. none;
  symbol_name = λ s. [];
  symbol_start = λ s. s;
  symbol_end = λ s. s;
  symbol_instructions = λ s. [];
  read_instructions = λ a n. [];
  instruction_address = λ i. i;
}

-- A goto request is a line in the range with the handle 1000.
abbrev goto_driver : GotoDriver driver
goto_driver = record {
  lldb = no_lldb;
  source_reference = λ args. some 1000;
  path = λ args. none;
  line = λ args. pos args;
  is_valid_frame = λ f. true;
  set_pc = λ f a d. (true, a);
  jump_to_line = λ t p l d. (none, d);
}

abbrev dasm : DisassembledRange no_lldb
dasm = record {
  handle = 1000;
  start_addr = 50;
  range_start = 50;
  range_end = 52;
  source_name = [];
  instructions = 50 ∷ 51 ∷ [];
  instruction_addresses = 50 ∷ 51 ∷ [];
}

abbrev ranges : Ranges no_lldb
ranges = record { by_handle = (1000, dasm) ∷ []; by_address = dasm ∷ [] }

handle_goto-panic_example :
    ((handle_goto driver goto_driver ranges (pos 1) (record state { last_goto_request = some 2 })).0
      ≡ panic)
    ↔ IsOutside driver goto_driver ranges dasm 2
unfolding find_by_handle lookup
handle_goto-panic_example =
    handle_goto-panic driver goto_driver ranges (pos 1) 2 1 1000 dasm
      (record state { last_goto_request = some 2 }) refl refl refl refl
