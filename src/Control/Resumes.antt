-- ===== src/Control/Resumes.antt =====
-- What the client was given before the debuggee runs does not outlive the request that lets it run.
use codelldb.Prelude.{
  ◌≡◌, refl, ◌⊎◌, inl, inr, Bool, true, false, Option, none, some, [], Bool-cases, Option-cases,
  either_branch, if◌then◌else◌, get_elem?,
}
use codelldb.Prelude.Int.{ℤ, to_u64}
use codelldb.Prelude.Text.{Chars}
use codelldb.Prelude.Exec.{Outcome, ok, error, panic, ◌>>=◌, bind_outcome}
use codelldb.Handles.{reset}
use codelldb.SourceMap.{Files}
use codelldb.Control.{
  ShowDisassembly, always, never, auto, SteppingGranularity, statement, line, instruction, Notice,
  Driver, State, M, before_resume, finish, call, found_thread, thread_by_id, file_missing,
  shows_disassembly, in_disassembly, by_instruction, step_target, handle_next, handle_step_out,
  step_to, handle_step_in, lost_or, handle_continue, process_running,
}

module _ (v : Driver) (s : State v) where
  -- The handles begin a new generation, and the targets of steps and jumps are gone.
  abbrev pub Cleared : State v → Type 0
  Cleared t =
      (t.var_refs ≡ reset s.var_refs)
      × (t.step_in_targets ≡ [])
      × (t.selected_frame_changed ≡ false)
      × (t.last_goto_request ≡ none)

  -- A step that keeps it so.
  abbrev pub Keeps : {A : Type 0} → M v A → Type 0
  Keeps m = (u : State v) → Cleared u → Cleared (m u).1

  bind_outcome-Keeps :
      {A B : Type 0} (o : Outcome A) (f : A → M v B)
      → ((a : A) → Keeps (f a))
      → Keeps (bind_outcome o f)
  bind_outcome-Keeps (ok a) f h u c = h a u c
  bind_outcome-Keeps (error e) f h u c = c
  bind_outcome-Keeps panic f h u c = c

  bind-Keeps :
      {A B : Type 0} (m : M v A) (f : A → M v B)
      → Keeps m
      → ((a : A) → Keeps (f a))
      → Keeps (m >>= f)
  bind-Keeps m f h k u c = bind_outcome-Keeps (m u).0 f k (m u).1 (h u c)

  finish-Keeps : (r : Option Chars × v.Debuggee) → Keeps (finish v r)
  finish-Keeps (none, d) u c = c
  finish-Keeps (some e, d) u c = c

  call-Keeps : (f : v.Debuggee → Option Chars × v.Debuggee) → Keeps (call v f)
  call-Keeps f u c = finish-Keeps (f u.debuggee) u c

  file_missing-Keeps : (o : Option (Files.SbFileSpec v.files)) → Keeps (file_missing v o)
  file_missing-Keeps none u c = c
  file_missing-Keeps (some file) u c = c

  shows_disassembly-Keeps :
      (mode : ShowDisassembly) (frame : v.SbFrame) → Keeps (shows_disassembly v mode frame)
  shows_disassembly-Keeps always frame u c = c
  shows_disassembly-Keeps never frame u c = c
  shows_disassembly-Keeps auto frame u c = file_missing-Keeps (v.line_entry_file frame) u c

  by_instruction-Keeps :
      (g : Option SteppingGranularity) (thread : v.SbThread) → Keeps (by_instruction v g thread)
  unfolding in_disassembly
  by_instruction-Keeps (some instruction) thread u c = c
  by_instruction-Keeps (some statement) thread u c = c
  by_instruction-Keeps (some line) thread u c = c
  by_instruction-Keeps none thread u c =
      shows_disassembly-Keeps u.show_disassembly (v.frame_at_index_0 u.debuggee thread) u c

  branch-Keeps :
      {A : Type 0} (b : Bool) (m n : M v A) → Keeps m → Keeps n → Keeps (if b then m else n)
  branch-Keeps true m n h k = h
  branch-Keeps false m n h k = k

  step_to-Keeps : (thread : v.SbThread) (o : Option v.StepInTarget) → Keeps (step_to v thread o)
  step_to-Keeps thread none u c = call-Keeps (v.step_into thread) u c
  step_to-Keeps thread (some target) u c = c

  found_thread-Keeps : (o : Option v.SbThread) → Keeps (found_thread v o)
  found_thread-Keeps (some thread) u c = c
  found_thread-Keeps none u c =
      either_branch (λ (r : Outcome v.SbThread × State v). Cleared r.1) (v.is_running u.debuggee) c
        c

  lost_or-Keeps :
      (lost : Bool) (n : Notice) (r : Option Chars × v.Debuggee) → Keeps (lost_or v lost n r)
  lost_or-Keeps lost n (none, d) u c = c
  lost_or-Keeps true n (some e, d) u c = c
  lost_or-Keeps false n (some e, d) u c = c

  cleared : Cleared (before_resume v s)
  unfolding before_resume
  cleared = (refl, refl, refl, refl)

  -- Behind the clearing, a choice between two kinds of steps.
  choice-Cleared :
      (g : Option SteppingGranularity) (thread : v.SbThread) (m n : M v (Unit {0}))
      → Keeps m
      → Keeps n
      → Cleared ((by_instruction v g thread >>= λ b. (if b then m else n)) (before_resume v s)).1
  choice-Cleared g thread m n h k =
      bind-Keeps (by_instruction v g thread) (λ b. (if b then m else n))
        (by_instruction-Keeps g thread) (λ b. branch-Keeps b m n h k) (before_resume v s) cleared

  found_thread-none : {A : Type 0} (f : v.SbThread → M v A) → ((found_thread v none >>= f) s).1 ≡ s
  found_thread-none f = elim (Bool-cases (v.is_running s.debuggee)) [
    | inl runs ↦ rw runs refl
    | inr stopped ↦ rw stopped refl
  ]

  step_over_or_in :
      (id : ℤ) (target_id : Option ℤ) (granularity : Option SteppingGranularity)
      → ((v.thread_by_id s.debuggee (to_u64 id) ≡ none)
          × ((handle_next v id granularity s).1 ≡ s)
          × ((handle_step_in v id target_id granularity s).1 ≡ s))
        ⊎ (Cleared (handle_next v id granularity s).1
            × Cleared (handle_step_in v id target_id granularity s).1)
  unfolding handle_next handle_step_in thread_by_id
  step_over_or_in id target_id granularity =
      elim (Option-cases (v.thread_by_id s.debuggee (to_u64 id))) [
        | inl gone ↦ inl (gone, rw gone (found_thread-none _), rw gone refl)
        | inr (thread, there) ↦ inr (
          rw there (
              choice-Cleared granularity thread _ _ (call-Keeps (v.step_instruction thread true))
                (call-Keeps (v.step_over thread))),
          rw there (
              choice-Cleared granularity thread _ _ (call-Keeps (v.step_instruction thread false))
                (step_to-Keeps thread (step_target v target_id s))),
        )
      ]

  -- Whatever comes of it, a request to continue, to step out, to step over or to step in clears what
  -- the client was given before. Only steps over or into in a thread that is not there change nothing.
  pub resume-Cleared :
      (id : ℤ) (target_id : Option ℤ) (granularity : Option SteppingGranularity)
      → Cleared (handle_continue v s).1
        × Cleared (handle_step_out v id s).1
        × (((v.thread_by_id s.debuggee (to_u64 id) ≡ none)
              × ((handle_next v id granularity s).1 ≡ s)
              × ((handle_step_in v id target_id granularity s).1 ≡ s))
            ⊎ (Cleared (handle_next v id granularity s).1
                × Cleared (handle_step_in v id target_id granularity s).1))
  unfolding handle_continue handle_step_out handle_next handle_step_in thread_by_id before_resume
  resume-Cleared id target_id granularity =
      let r = v.resume s.debuggee in
      (
        lost_or-Keeps (v.is_running r.1) process_running r (before_resume v s) cleared,
        bind-Keeps (thread_by_id v id) (λ thread. call v (v.step_out thread))
            (λ u c. found_thread-Keeps (v.thread_by_id u.debuggee (to_u64 id)) u c)
            (λ thread. call-Keeps (v.step_out thread)) (before_resume v s) cleared,
        step_over_or_in id target_id granularity,
      )

  -- A step by lines into a target that the client was given steps into that target, though the targets
  -- are cleared by then, and succeeds.
  pub handle_step_in-target :
      (id target_id : ℤ) (thread : v.SbThread) (target : v.StepInTarget)
      → v.thread_by_id s.debuggee (to_u64 id) ≡ some thread
      → get_elem? s.step_in_targets (to_u64 target_id) ≡ some target
      → ((handle_step_in v id (some target_id) (some line) s).0 ≡ ok tt)
        × ((handle_step_in v id (some target_id) (some line) s).1.debuggee
            ≡ v.step_into_target thread target s.debuggee)
        × ((handle_step_in v id (some target_id) (some line) s).1.step_in_targets ≡ [])
  unfolding handle_step_in before_resume
  handle_step_in-target id target_id thread target there found =
      rw (there, found) (refl, refl, refl)
