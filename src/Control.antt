-- ===== src/Control.antt =====
-- The requests of src/codelldb/src/debug_session.rs that let the debuggee run, and `handle_step_in`
-- of src/codelldb/src/debug_session/step_in.rs. LLDB is a parameter. Of the events to the client only
-- the calls that send them are kept.
pub mod Resumes
pub mod Goto
mod Tests
use codelldb.Prelude.{
  ℕ, zero, suc, Bool, true, false, Option, none, some, List, [], ◌∷◌, ◌++◌, if◌then◌else◌,
  get_elem?,
}
use codelldb.Prelude.Int.{ℤ, to_u64}
use codelldb.Prelude.Text.{Chars, chars}
use codelldb.Prelude.Exec.{Outcome, ok, error, panic, Exec, pure, fail, modify, ◌>>=◌, ◌>>◌}
use codelldb.Handles.{HandleTree, reset}
use codelldb.SourceMap.{Files, Sources, map_filespec_to_local}

pub data ShowDisassembly : Type 0 where
  always auto never : ShowDisassembly

pub data SteppingGranularity : Type 0 where
  statement line instruction : SteppingGranularity

-- The events that are sent without an event of LLDB.
pub data Notice : Type 0 where
  process_running process_stopped client_display : Notice

-- A call of LLDB that may fail, with the text of its error.
abbrev pub Call : Type 0 → Type 0
Call D = D → Option Chars × D

pub record Driver : Type 1 where
  pub files : Files
  pub Debuggee : Type 0
  pub SbThread : Type 0
  pub SbFrame : Type 0
  pub Container : Type 0
  pub StepInTarget : Type 0
  pub Goto : Type 0
  pub thread_by_id : Debuggee → ℕ → Option SbThread
  pub is_running : Debuggee → Bool
  pub frame_at_index_0 : Debuggee → SbThread → SbFrame
  pub line_entry_file : SbFrame → Option (Files.SbFileSpec files)
  pub stop : Call Debuggee
  pub resume : Call Debuggee
  pub step_instruction : SbThread → (over : Bool) → Call Debuggee
  pub step_over : SbThread → Call Debuggee
  pub step_into : SbThread → Call Debuggee
  pub step_out : SbThread → Call Debuggee
  -- `step_into_target` of StepIn.Stepping; its error is only logged.
  pub step_into_target : SbThread → StepInTarget → Debuggee → Debuggee

module _ (v : Driver) where
  open v use {Debuggee, SbThread, SbFrame, Container, StepInTarget, Goto}

  pub record State : Type 0 where
    pub debuggee : Debuggee
    pub var_refs : HandleTree Container
    pub step_in_targets : List StepInTarget
    pub selected_frame_changed : Bool
    pub last_goto_request : Option Goto
    pub sources : Sources
    pub show_disassembly : ShowDisassembly
    pub notices : List Notice

  abbrev pub M : Type 0 → Type 0
  M A = Exec State A

  unfoldable pub before_resume : State → State
  before_resume s = record s {
    var_refs = reset s.var_refs;
    selected_frame_changed = false;
    last_goto_request = none;
    step_in_targets = [];
  }

  abbrev pub notify : Notice → State → State
  notify n s = record s { notices = s.notices ++ n ∷ [] }

  abbrev pub finish : Option Chars × Debuggee → State → Outcome (Unit {0}) × State
  finish (none, d) s = (ok tt, record s { debuggee = d })
  finish (some e, d) s = (error e, record s { debuggee = d })

  -- `?` on a call.
  abbrev pub call : Call Debuggee → M (Unit {0})
  call c s = finish (c s.debuggee) s

  -- A thread, or an error that depends on whether the process runs.
  abbrev pub found_thread : Option SbThread → M SbThread
  found_thread (some thread) s = pure thread s
  found_thread none s =
      if v.is_running s.debuggee
      then fail (chars "Not available while the process is running.") s
      else fail (chars "Invalid thread_id.") s

  unfoldable pub thread_by_id : ℤ → M SbThread
  thread_by_id id s = found_thread (v.thread_by_id s.debuggee (to_u64 id)) s

  abbrev pub put_sources : State → Outcome Bool × Sources → Outcome Bool × State
  put_sources s (o, sources) = (o, record s { sources = sources })

  -- Whether a line entry's file is not there.
  abbrev pub file_missing : Option (Files.SbFileSpec v.files) → M Bool
  file_missing none s = pure true s
  file_missing (some file) s = put_sources s (
      (map_filespec_to_local v.files file >>= λ local.
      pure (elim local [ none ↦ true | some p ↦ false ]))
        s.sources)

  abbrev pub shows_disassembly : ShowDisassembly → SbFrame → M Bool
  shows_disassembly always frame = pure true
  shows_disassembly never frame = pure false
  shows_disassembly auto frame = file_missing (v.line_entry_file frame)

  unfoldable pub in_disassembly : SbFrame → M Bool
  in_disassembly frame s = shows_disassembly s.show_disassembly frame s

  abbrev pub by_instruction : Option SteppingGranularity → SbThread → M Bool
  by_instruction (some instruction) thread s = pure true s
  by_instruction (some statement) thread s = pure false s
  by_instruction (some line) thread s = pure false s
  by_instruction none thread s = in_disassembly (v.frame_at_index_0 s.debuggee thread) s

  unfoldable pub handle_next : ℤ → Option SteppingGranularity → M (Unit {0})
  unfolding thread_by_id before_resume in_disassembly
  handle_next id granularity = thread_by_id id >>= λ thread.
      (modify before_resume
        >> (by_instruction granularity thread >>= λ step_instruction.
            (if step_instruction
              then call (v.step_instruction thread true)
              else call (v.step_over thread))))

  unfoldable pub handle_step_out : ℤ → M (Unit {0})
  unfolding thread_by_id before_resume
  handle_step_out id =
      modify before_resume >> (thread_by_id id >>= λ thread. call (v.step_out thread))

  -- The target that an id stands for, if there still is one.
  abbrev pub step_target : Option ℤ → State → Option StepInTarget
  step_target none s = none
  step_target (some id) s = get_elem? s.step_in_targets (to_u64 id)

  abbrev pub step_to : SbThread → Option StepInTarget → M (Unit {0})
  step_to thread none = call (v.step_into thread)
  step_to thread (some target) = modify (λ s.
      notify process_stopped (record s { debuggee = v.step_into_target thread target s.debuggee }))

  abbrev pub step_in_thread :
      Option SteppingGranularity → Option StepInTarget → Option SbThread → M (Unit {0})
  step_in_thread granularity target none = fail (chars "Invalid thread id.")
  step_in_thread granularity target (some thread) =
      modify before_resume
      >> (by_instruction granularity thread >>= λ step_instruction.
          (if step_instruction
            then call (v.step_instruction thread false)
            else step_to thread target))

  -- The target is looked up before the targets are cleared.
  unfoldable pub handle_step_in : ℤ → Option ℤ → Option SteppingGranularity → M (Unit {0})
  unfolding before_resume in_disassembly
  handle_step_in id target_id granularity s =
      step_in_thread granularity (step_target target_id s) (v.thread_by_id s.debuggee (to_u64 id)) s

  -- A call that failed because its event was lost is no error.
  abbrev pub lost_or : Bool → Notice → Option Chars × Debuggee → State → Outcome (Unit {0}) × State
  lost_or lost notice (none, d) s = (ok tt, record s { debuggee = d })
  lost_or true notice (some e, d) s = (ok tt, notify notice (record s { debuggee = d }))
  lost_or false notice (some e, d) s = (error e, record s { debuggee = d })

  unfoldable pub handle_continue : M (Unit {0})
  unfolding before_resume
  handle_continue =
      modify before_resume
      >> (λ s. let r = v.resume s.debuggee in lost_or (v.is_running r.1) process_running r s)

  unfoldable pub handle_pause : M (Unit {0})
  handle_pause s =
      let r = v.stop s.debuggee in
      lost_or (if v.is_running r.1 then false else true) process_stopped r s
