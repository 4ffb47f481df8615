-- ===== src/StepIn/Found.antt =====
-- What the targets of a statement are, and how they are found again by the ids that were answered.
use mathlib.Core.Path.{subst}
use codelldb.Prelude.{
  ◌∙◌, ◌≡◌, ◌↔◌, ◌<◌, zero, refl, sym, ap, inl, inr, ℕ, suc, ◌+◌, ◌-◌, ◌%◌, ◌^◌, true, false, ◌&&◌,
  Option, none, some, List, [], ◌∷◌, ◌++◌, map, length, length-append, get_elem?, arith, All,
  All-append, Bool-cases, append_assoc, append-nil,
}
use codelldb.Prelude.Exec.{Outcome, ok}
use codelldb.Prelude.Done.{Done, Done-pure}
use codelldb.Handles.{Handle, get}
use codelldb.Disassembly.{Address}
use codelldb.StepIn.{Lldb}
use codelldb.StepIn.LineEnd.{Among, Distinct, IsEnd, max_end_addr-IsEnd}
use codelldb.StepIn.Called.{CalledIn, contains-Among, collect-Among}
use codelldb.StepIn.Targets.{
  LineEntry, SbFrame, stack_frame, StepInTargetInternal, State, max_end_addr, before_end, contains,
  push_function, called_function, collect, StepInTarget, push_targets, statement_functions,
  handle_step_in_targets,
}

module _ (lldb : Lldb) where
  -- Each function is in the list once.
  abbrev pub NoDup : List lldb.SbFunction → Type 0
  NoDup [] = Unit
  NoDup (f ∷ fs) = (contains lldb fs f ≡ false) × NoDup fs

  -- Functions with line numbers, each once.
  abbrev pub IsSelection : List lldb.SbFunction → Type 0
  IsSelection fs =
      All (λ f. (lldb.is_valid f ≡ true) × (lldb.start_has_line_entry f ≡ true)) fs × NoDup fs

  -- What the code takes to be without duplicates is.
  NoDup-Distinct : (fs : List lldb.SbFunction) → NoDup fs → Distinct fs
  NoDup-Distinct [] h = tt
  NoDup-Distinct (f ∷ fs) h = (
    λ there. (let e = (contains-Among lldb fs f).1 there in ground (arith, e, h.0)),
    NoDup-Distinct fs h.1,
  )

  contains-append :
      (fs : List lldb.SbFunction) (f g : lldb.SbFunction)
      → contains lldb fs g ≡ false
      → lldb.function_eq.eqb f g ≡ false
      → contains lldb (fs ++ f ∷ []) g ≡ false
  unfolding contains
  contains-append [] f g h k = ground arith
  contains-append (x ∷ fs) f g h k = let rest = contains-append fs f g in ground (arith, rest)

  NoDup-append :
      (fs : List lldb.SbFunction) (f : lldb.SbFunction)
      → NoDup fs
      → contains lldb fs f ≡ false
      → NoDup (fs ++ f ∷ [])
  unfolding contains
  NoDup-append [] f h k = (refl, tt)
  NoDup-append (x ∷ fs) f h k =
      let differs = lldb.function_eq.eqb_iff x f in
      let back = lldb.function_eq.eqb_iff f x in
      let first : lldb.function_eq.eqb x f ≡ false = ground arith in
      let other : lldb.function_eq.eqb f x ≡ false = ground (arith, differs, back) in
      let others : contains lldb fs f ≡ false = ground arith in
      (contains-append fs f x h.0 other, NoDup-append fs f h.1 others)

  push_function-IsSelection :
      (fs : List lldb.SbFunction) (o : Option lldb.SbFunction)
      → IsSelection fs
      → IsSelection (push_function lldb fs o)
  push_function-IsSelection fs none h = h
  push_function-IsSelection fs (some f) h =
      elim (Bool-cases (lldb.is_valid f && lldb.start_has_line_entry f)) [
        | inr unfit ↦ rw unfit h
        | inl fit ↦ elim (Bool-cases (contains lldb fs f)) [
          | inl there ↦ rw (fit, there) h
          | inr new ↦
              let valid : lldb.is_valid f ≡ true = ground arith in
              let lines : lldb.start_has_line_entry f ≡ true = ground arith in
              rw (fit, new)
                (All-append _ fs (f ∷ []) h.0 ((valid, lines), tt), NoDup-append fs f h.1 new)
        ]
      ]

  collect-IsSelection :
      (fs : List lldb.SbFunction) (is : List lldb.SbInstruction)
      → IsSelection fs
      → IsSelection (collect lldb fs is)
  unfolding collect
  collect-IsSelection fs [] h = h
  collect-IsSelection fs (i ∷ is) h =
      collect-IsSelection (push_function lldb fs (called_function lldb i)) is
        (push_function-IsSelection fs (called_function lldb i) h)

  module _ (start end : Address) where
    abbrev pub internal : lldb.SbFunction → StepInTargetInternal lldb
    internal f = record { target_fn = f; stmt_start = start; stmt_end = end }

    -- The ids count on from a number.
    abbrev pub listed : ℕ → List lldb.SbFunction → List (StepInTarget lldb)
    listed n [] = []
    listed n (f ∷ fs) = record { id = n; label = lldb.display_name f } ∷ listed (suc n) fs

    abbrev pub Pushed :
        List lldb.SbFunction → State lldb → List (StepInTarget lldb) → State lldb → Type 0
    Pushed fs s ts t =
        (ts ≡ listed (length s.step_in_targets) fs)
        × (t.step_in_targets ≡ s.step_in_targets ++ map internal fs)

    push_targets-Pushed :
        (fs : List lldb.SbFunction) (s : State lldb)
        → Done (push_targets lldb start end fs) s (Pushed fs s)
    unfolding push_targets
    push_targets-Pushed [] s = Done-pure [] s _ (refl, sym (append-nil s.step_in_targets))
    push_targets-Pushed (f ∷ fs) s =
        let u : State lldb = record s { step_in_targets = s.step_in_targets ++ internal f ∷ [] } in
        let d = push_targets-Pushed fs u in
        let grown : length (s.step_in_targets ++ internal f ∷ []) ≡ suc (length s.step_in_targets) =
          length-append s.step_in_targets (internal f ∷ []) ∙ omega arith in
        record {
          value = record { id = length s.step_in_targets; label = lldb.display_name f } ∷ d.value;
          after = d.after;
          ends = rw (d.ends) refl;
          post = (
            ap (λ ts. record { id = length s.step_in_targets; label = lldb.display_name f } ∷ ts)
                (d.post.0 ∙ ap (λ n. listed n fs) grown),
            d.post.1 ∙ append_assoc s.step_in_targets (internal f ∷ []) (map internal fs),
          );
        }

    -- The id of an answer finds the function whose name is its label, with the range of the statement.
    abbrev pub Finds : List (StepInTargetInternal lldb) → StepInTarget lldb → Type 0
    Finds targets t =
        (f : lldb.SbFunction) × (get_elem? targets t.id ≡ some (internal f))
        × (t.label ≡ lldb.display_name f)

    get_elem?_middle :
        {A : Type 0} (xs : List A) (x : A) (ys : List A)
        → get_elem? (xs ++ x ∷ ys) (length xs) ≡ some x
    get_elem?_middle [] x ys = refl
    get_elem?_middle (z ∷ xs) x ys = get_elem?_middle xs x ys

    listed-Finds :
        (xs : List (StepInTargetInternal lldb)) (n : ℕ) (fs : List lldb.SbFunction)
        → length xs ≡ n
        → All (Finds (xs ++ map internal fs)) (listed n fs)
    listed-Finds xs n [] e = tt
    listed-Finds xs n (f ∷ fs) e =
        let grown : length (xs ++ internal f ∷ []) ≡ suc n =
          length-append xs (internal f ∷ []) ∙ omega arith in
        let rest = listed-Finds (xs ++ internal f ∷ []) (suc n) fs grown in
        let here : get_elem? (xs ++ internal f ∷ map internal fs) n ≡ some (internal f) =
          subst (λ k. get_elem? (xs ++ internal f ∷ map internal fs) k ≡ some (internal f)) e
            (get_elem?_middle xs (internal f) (map internal fs)) in
        (
          (f, here, refl),
          subst (λ ts. All (Finds ts) (listed (suc n) fs))
              (append_assoc xs (internal f ∷ []) (map internal fs)) rest,
        )

  statement_functions-IsSelection :
      (frame : SbFrame lldb) (end : Address) → IsSelection (statement_functions lldb frame end)
  unfolding statement_functions
  statement_functions-IsSelection frame end =
      collect-IsSelection []
        (before_end lldb end
          (lldb.read_instructions frame.pc_address ((end + 2 ^ 64 - frame.pc) % 2 ^ 64 % 2 ^ 32)))
        (tt, tt)

  -- The instructions of a frame up to an address, the size as the code casts it.
  abbrev pub instructions_to : SbFrame lldb → Address → List lldb.SbInstruction
  instructions_to frame end =
      lldb.read_instructions frame.pc_address ((end + 2 ^ 64 - frame.pc) % 2 ^ 64 % 2 ^ 32)

  -- The functions are those that the statement calls, each once.
  abbrev pub AreCalled : SbFrame lldb → Address → List lldb.SbFunction → Type 0
  AreCalled frame end fs =
      ((f : lldb.SbFunction) → Among f fs ↔ CalledIn lldb end (instructions_to frame end) f)
      × Distinct fs

  statement_functions-AreCalled :
      (frame : SbFrame lldb) (end : Address)
      → AreCalled frame end (statement_functions lldb frame end)
  unfolding statement_functions
  statement_functions-AreCalled frame end = (
    λ f.
        let q = collect-Among lldb end [] (instructions_to frame end) f in
        (
          λ h. elim (q.0 h) [ inl nothing ↦ elim nothing [ ] | inr called ↦ called ],
          λ h. q.1 (inr h),
        ),
    NoDup-Distinct (statement_functions lldb frame end)
        (statement_functions-IsSelection frame end).1,
  )

  -- What is answered for the functions of a statement, and what the session keeps of them.
  pub record Answered (frame : SbFrame lldb) (end : Address) (s : State lldb)
      (ts : List (StepInTarget lldb)) (t : State lldb) : Type 0 where
    pub functions : List lldb.SbFunction
    pub are_called : AreCalled frame end functions
    pub answers : ts ≡ listed frame.pc end (length s.step_in_targets) functions
    pub finds : All (Finds frame.pc end t.step_in_targets) ts
    pub before :
        (i : ℕ)
        → i < length s.step_in_targets
        → get_elem? t.step_in_targets i ≡ get_elem? s.step_in_targets i

  get_elem?_append :
      {A : Type 0} (xs ys : List A) (i : ℕ)
      → i < length xs
      → get_elem? (xs ++ ys) i ≡ get_elem? xs i
  get_elem?_append [] ys i h = ground arith
  get_elem?_append (x ∷ xs) ys zero h = refl
  get_elem?_append (x ∷ xs) ys (suc i) h = get_elem?_append xs ys i (omega arith)

  -- For a frame with a line entry and a compile unit, where LLDB is new enough, the request succeeds.
  -- Its statement ends where the last entry of its line ends. The answers are for exactly the functions
  -- with line numbers that an instruction in front of that end calls, of those that LLDB reads from the
  -- current address on for the distance as a u32, each once, with their names. The id of each answer
  -- finds its function, and the addresses from the current one to the end; the ids of earlier answers
  -- find what they found.
  pub handle_step_in_targets-Finds :
      (v16 : Outcome (Unit {0})) (frame_id : Handle) (frame : SbFrame lldb) (curr_le : LineEntry)
      (entries : List LineEntry) (s : State lldb)
      → v16 ≡ ok tt
      → get frame_id s.var_refs ≡ some (stack_frame frame)
      → frame.line_entry ≡ some curr_le
      → frame.compile_unit ≡ some entries
      → (end : Address) × IsEnd lldb curr_le entries end
        × Done (handle_step_in_targets lldb v16 frame_id) s (Answered frame end s)
  unfolding handle_step_in_targets
  handle_step_in_targets-Finds v16 frame_id frame curr_le entries s new found line unit =
      let end = max_end_addr lldb curr_le entries in
      let fs = statement_functions lldb frame end in
      let d = push_targets-Pushed frame.pc end fs s in
      let pushed = map (internal frame.pc end) fs in
      let found_all =
        listed-Finds frame.pc end s.step_in_targets (length s.step_in_targets) fs refl in
      (
        end,
        max_end_addr-IsEnd lldb curr_le entries,
        record {
          value = d.value;
          after = d.after;
          ends = rw (found, line, unit, new) (d.ends);
          post = record {
            functions = fs;
            are_called = statement_functions-AreCalled frame end;
            answers = d.post.0;
            finds =
                subst (λ ts. All (Finds frame.pc end ts) d.value) (sym d.post.1)
                  (subst (λ v. All (Finds frame.pc end (s.step_in_targets ++ pushed)) v)
                    (sym d.post.0) found_all);
            before = λ i lt.
                ap (λ ts. get_elem? ts i) d.post.1 ∙ get_elem?_append s.step_in_targets pushed i lt;
          };
        },
      )
