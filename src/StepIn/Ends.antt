-- ===== src/StepIn/Ends.antt =====
-- A cancellation ends the stepping, and a success means that the function was reached.
use codelldb.Prelude.{
  ◌≡◌, ◌<◌, refl, ◌⊎◌, inl, inr, ℕ, zero, suc, ◌+◌, Bool, true, false, ◌&&◌, not, Option, none,
  some, leb, ltb, take, arith, Bool-cases, either_branch,
}
use codelldb.Prelude.Text.{Chars, chars}
use codelldb.StepIn.{Lldb, first_instruction}
use codelldb.StepIn.Targets.{StepInTargetInternal}
use codelldb.StepIn.Stepping.{
  Stepper, Ending, success, failure, Move, ends, steps_into, steps_out, is_function, is_jump_at,
  index_of, place_move, move_of, Run, after_step, follow, step_loop, step_into_target,
}

module _ (lldb : Lldb) (st : Stepper lldb) (target : StepInTargetInternal lldb)
    (cancelled : ℕ → Bool) where
  -- Where a success is, the debuggee stands in the function.
  abbrev pub Reached : Ending → st.Debuggee → Type 0
  Reached success d =
      is_function lldb st (st.function (st.frame_at_index_0 d)) target.target_fn ≡ true
  Reached (failure e) d = Unit

  abbrev pub EndsReached : st.Debuggee → Move lldb st → Type 0
  EndsReached d (ends e) = Reached e d
  EndsReached d _ = Unit

  place_move-EndsReached :
      (d : st.Debuggee) (curr : st.Frame) (o : Option ℕ)
      → EndsReached d (place_move lldb st target curr o)
  place_move-EndsReached d curr none = tt
  place_move-EndsReached d curr (some zero) =
      either_branch (EndsReached d)
        (leb target.stmt_start (st.pc curr) && ltb (st.pc curr) target.stmt_end) tt tt
  place_move-EndsReached d curr (some (suc i)) = tt

  move_of-EndsReached :
      (start : st.Frame) (c : Bool) (d : st.Debuggee)
      → EndsReached d (move_of lldb st target start c d)
  unfolding move_of
  move_of-EndsReached start true d = tt
  move_of-EndsReached start false d =
      let curr = st.frame_at_index_0 d in
      either_branch (EndsReached d) (not (st.frame_is_valid curr)) tt
        (elim (Bool-cases (is_function lldb st (st.function curr) target.target_fn)) [
          | inl there ↦ rw there there
          | inr away ↦ rw away (
              either_branch (EndsReached d)
                (is_jump_at lldb st
                  (first_instruction (lldb.read_instructions (st.pc_address curr) 1)))
                tt (place_move-EndsReached d curr (index_of lldb st start (take 10 (st.frames d)))))
        ])

  -- A run that has ended, well.
  abbrev pub Ended : Run lldb st → Type 0
  Ended r = (e : Ending) × (d : st.Debuggee) × (r ≡ some (e, d)) × Reached e d

  after_step-Ended :
      (d : st.Debuggee) (o : Chars ⊎ st.Debuggee) (next : st.Debuggee → Run lldb st)
      → ((d' : st.Debuggee) → Ended (next d'))
      → Ended (after_step lldb st d o next)
  after_step-Ended d (inl e) next h = (failure e, d, refl, tt)
  after_step-Ended d (inr d') next h = h d'

  follow-Ended :
      (d : st.Debuggee) (m : Move lldb st) (next : st.Debuggee → Run lldb st)
      → EndsReached d m
      → ((d' : st.Debuggee) → Ended (next d'))
      → Ended (follow lldb st d m next)
  follow-Ended d (ends e) next r h = (e, d, refl, r)
  follow-Ended d steps_into next r h = after_step-Ended d (st.step_into d) next h
  follow-Ended d steps_out next r h = after_step-Ended d (st.step_out d) next h

  step_loop-Ended :
      (start : st.Frame) (fuel i k : ℕ) (d : st.Debuggee)
      → cancelled (i + k) ≡ true
      → k < fuel
      → Ended (step_loop lldb st target cancelled start fuel i d)
  unfolding step_loop move_of
  step_loop-Ended start zero i k d c h = (let no : ⊥ = omega arith in elim no [ ])
  step_loop-Ended start (suc fuel) i zero d c h =
      let now : i + 0 ≡ i = omega arith in
      let cancelled_now : cancelled i ≡ true = rw now at c in
      (failure (chars "Cancelled"), d, rw cancelled_now refl, tt)
  step_loop-Ended start (suc fuel) i (suc k) d c h =
      let moved : i + suc k ≡ suc i + k = omega arith in
      let later : cancelled (suc i + k) ≡ true = rw moved at c in
      follow-Ended d (move_of lldb st target start (cancelled i) d)
        (step_loop lldb st target cancelled start fuel (suc i))
        (move_of-EndsReached start (cancelled i) d)
        (λ d'. step_loop-Ended start fuel (suc i) k d' later (omega arith))

  -- If the request is cancelled in some round, the stepping ends by then, with the debugger set back
  -- to its asynchronous mode; where it ends with a success, the debuggee stopped in the function.
  pub step_into_target-Ended :
      (fuel k : ℕ) (d : st.Debuggee)
      → cancelled k ≡ true
      → k < fuel
      → (e : Ending) × (u : st.Debuggee) × (step_into_target lldb st target cancelled fuel d
          ≡ some (e, st.set_async_mode true u))
        × Reached e u
  unfolding step_into_target
  step_into_target-Ended fuel k d c h =
      let sync = st.set_async_mode false d in
      let start = st.frame_at_index_0 sync in
      let none_added : k ≡ 0 + k = omega arith in
      let run =
        after_step-Ended sync (st.step_into sync) (step_loop lldb st target cancelled start fuel 0)
          (λ d'. step_loop-Ended start fuel 0 k d' (rw none_added at c) h) in
      (run.0, run.1, rw (run.2) refl, run.3)
