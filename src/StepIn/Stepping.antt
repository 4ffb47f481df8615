-- ===== src/StepIn/Stepping.antt =====
-- `step_into_target`: the debuggee is stepped until it stops in the function. A state of the debuggee
-- is that of its threads; the cancellation of the request is looked at in each round of the loop.
-- That LLDB is new enough has been checked before.
use codelldb.Prelude.{
  ℕ, zero, suc, ◌⊎◌, inl, inr, Bool, true, false, ◌&&◌, not, Option, none, some, List, [], ◌∷◌, leb,
  ltb, if◌then◌else◌, take,
}
use codelldb.Prelude.Text.{Chars, chars}
use codelldb.Disassembly.{Address}
use codelldb.StepIn.{Lldb, control_flow_kind, is_jump, first_instruction}
use codelldb.StepIn.Targets.{StepInTargetInternal}

-- The thread that is stepped. A step may fail with an error.
pub record Stepper (lldb : Lldb) : Type 1 where
  pub Debuggee : Type 0
  pub Frame : Type 0
  pub same_frame : Frame → Frame → Bool
  pub frame_is_valid : Frame → Bool
  pub function : Frame → Option lldb.SbFunction
  pub pc : Frame → Address
  pub pc_address : Frame → lldb.SbAddress
  pub frame_at_index_0 : Debuggee → Frame
  pub frames : Debuggee → List Frame
  pub step_into : Debuggee → Chars ⊎ Debuggee
  pub step_out : Debuggee → Chars ⊎ Debuggee
  pub set_async_mode : Bool → Debuggee → Debuggee

-- How the stepping ends.
pub data Ending : Type 0 where
  success : Ending
  failure : Chars → Ending

module _ (lldb : Lldb) (st : Stepper lldb) where
  open st use {
    Debuggee, Frame, same_frame, frame_is_valid, function, pc, pc_address, frame_at_index_0, frames,
    step_into, step_out, set_async_mode,
  }

  -- What a round does with the debuggee.
  pub data Move : Type 0 where
    ends : Ending → Move
    steps_into steps_out : Move

  abbrev pub is_function : Option lldb.SbFunction → lldb.SbFunction → Bool
  is_function none f = false
  is_function (some g) f = lldb.function_eq.eqb g f

  abbrev pub is_jump_at : Option lldb.SbInstruction → Bool
  is_jump_at none = false
  is_jump_at (some i) = is_jump (control_flow_kind lldb i)

  -- The frame at which the stepping began, among some frames.
  unfoldable pub index_of : Frame → List Frame → Option ℕ
  index_of start [] = none
  index_of start (f ∷ fs) =
      let rest : Option ℕ = elim (index_of start fs) [ some i ↦ some (suc i) | none ↦ none ] in
      if same_frame f start then some 0 else rest

  abbrev pub place_move : StepInTargetInternal lldb → Frame → Option ℕ → Move
  place_move target curr none = ends (failure (chars "Stepped out of start_frame"))
  place_move target curr (some zero) =
      if leb target.stmt_start (pc curr) && ltb (pc curr) target.stmt_end
      then steps_into
      else ends (failure (chars "Stepped out of stmt_range"))
  place_move target curr (some (suc i)) = steps_out

  unfoldable pub move_of : StepInTargetInternal lldb → Frame → Bool → Debuggee → Move
  unfolding index_of control_flow_kind
  move_of target start cancelled d =
      let curr = frame_at_index_0 d in
      if cancelled
      then ends (failure (chars "Cancelled"))
      else if not (frame_is_valid curr)
      then ends (failure (chars "Invalid current frame"))
      else if is_function (function curr) target.target_fn
      then ends success
      else if is_jump_at (first_instruction (lldb.read_instructions (pc_address curr) 1))
      then steps_into
      else place_move target curr (index_of start (take 10 (frames d)))

  abbrev pub Run : Type 0
  Run = Option (Ending × Debuggee)

  -- A step, and on; an error ends the loop, with the debuggee as it was.
  abbrev pub after_step : Debuggee → Chars ⊎ Debuggee → (Debuggee → Run) → Run
  after_step d (inl e) next = some (failure e, d)
  after_step d (inr d') next = next d'

  abbrev pub follow : Debuggee → Move → (Debuggee → Run) → Run
  follow d (ends ending) next = some (ending, d)
  follow d steps_into next = after_step d (step_into d) next
  follow d steps_out next = after_step d (step_out d) next

  -- The rounds from the `i`-th on; `none` is the end of the fuel.
  unfoldable pub step_loop : StepInTargetInternal lldb → (ℕ → Bool) → Frame → ℕ → ℕ → Debuggee → Run
  unfolding move_of
  step_loop target cancelled start zero i d = none
  step_loop target cancelled start (suc fuel) i d =
      follow d (move_of target start (cancelled i) d)
        (step_loop target cancelled start fuel (suc i))

  abbrev pub set_async : Run → Run
  set_async none = none
  set_async (some (ending, d)) = some (ending, set_async_mode true d)

  -- `with_sync_mode` around the first step and the loop.
  unfoldable pub step_into_target : StepInTargetInternal lldb → (ℕ → Bool) → ℕ → Debuggee → Run
  unfolding step_loop
  step_into_target target cancelled fuel d =
      let sync = set_async_mode false d in
      let start = frame_at_index_0 sync in
      set_async (after_step sync (step_into sync) (step_loop target cancelled start fuel 0))
