-- ===== src/Breakpoints/SetFunction.antt =====
-- `setFunctionBreakpoints`, from the table of the state before to the one after.
use codelldb.Prelude.{◌≡◌, ◌∙◌, refl, true, false, none, List, [], ◌∷◌, length, All}
use codelldb.Prelude.Equality.{ℕ_eq, list_eq}
use codelldb.Prelude.Map.{Map, lookup, has}
use codelldb.Prelude.Text.{Chars}
use codelldb.Prelude.Done.{Done, Done-pure, Done-bind}
use codelldb.Breakpoints.Interface.{BreakpointId, function}
use codelldb.Breakpoints.Target.{SbLaws, Env, Response, State}
use codelldb.Breakpoints.Handlers.{FunctionBreakpoint, no_hint, each_request, delete_missing}
use codelldb.Breakpoints.Requests.{
  function_place, set_function_one, put_function, set_function_breakpoints,
}
use codelldb.Breakpoints.Frame.{Keeps-pure}
use codelldb.Breakpoints.Establish.{establish-Done}
use codelldb.Breakpoints.Sync.{IsTable, Synced-start}
use codelldb.Breakpoints.Loop.{Fits, Looped, each_request-Done}
use codelldb.Breakpoints.Delete.{delete_missing-others, infos-left}
use codelldb.Breakpoints.Refines.{Refines, Looped-Refines}

module _ (env : Env) (laws : SbLaws env.sb) where
  set_function_one-Fits :
      (existing : Map Chars BreakpointId) (req : FunctionBreakpoint)
      → Fits env laws existing (set_function_one env existing) (λ r. r.name) req
  unfolding set_function_one
  set_function_one-Fits existing req s =
      Done-bind _ _ s _
        (establish-Done env laws (lookup req.name existing) (function_place env req.name) function
          req.condition none req.hit_condition (no_hint env) (λ info r. Keeps-pure env laws r) s)
        (λ made u est. Done-pure (req.name, made.0, made.1) u _ (refl, est))

  All-Fits :
      (existing : Map Chars BreakpointId) (reqs : List FunctionBreakpoint)
      → All (Fits env laws existing (set_function_one env existing) (λ r. r.name)) reqs
  All-Fits existing [] = tt
  All-Fits existing (req ∷ reqs) = (set_function_one-Fits existing req, All-Fits existing reqs)

  -- The outcome of the request in the state `s`.
  abbrev pub Served : List FunctionBreakpoint → State env → List Response → State env → Type 0
  Served reqs s out u =
      (length out ≡ length reqs)
      × Refines env laws (λ (r : FunctionBreakpoint). r.name) reqs s.breakpoints.function s
          u.breakpoints.function u
      × (u.breakpoints.source ≡ s.breakpoints.source)
      × (u.breakpoints.assembly ≡ s.breakpoints.assembly)
      × (u.breakpoints.instruction ≡ s.breakpoints.instruction)
      × ((j : BreakpointId)
          → has (lookup j s.breakpoints.breakpoint_infos) ≡ true
          → has (lookup j u.breakpoints.breakpoint_infos) ≡ true)

  finish :
      (reqs : List FunctionBreakpoint) (s u : State env)
      (out : List Response × Map Chars BreakpointId)
      → IsTable env laws s.breakpoints.function s
      → Looped env laws s.breakpoints.function (λ (r : FunctionBreakpoint). r.name) reqs [] s out u
      → Served reqs s out.0
          (put_function env out.1 (delete_missing env false s.breakpoints.function out.1 u))
  finish reqs s u out table loop =
      let r =
        Looped-Refines env laws (λ (r : FunctionBreakpoint). r.name) reqs s.breakpoints.function s u
          out false table loop in
      let kept = delete_missing-others env laws false out.1 s.breakpoints.function u in
      let others = loop.synced.others in
      (
        loop.responses,
        record {
          asked = r.asked;
          only = r.only;
          live = r.live;
          tracked = r.tracked;
          deleted = r.deleted;
          others = r.others;
          others_tracked = r.others_tracked;
          reused = r.reused;
          is_table = record { below = r.is_table.below; apart = r.is_table.apart };
        },
        kept.0 ∙ others.0,
        kept.1 ∙ others.1,
        kept.2 ∙ others.2,
        λ j h.
            rw (infos-left env laws false out.1 s.breakpoints.function u j refl)
              (loop.synced.still_tracked j h),
      )

  -- From a table whose ids are in use, each under one name, the request for function breakpoints
  -- succeeds with a response for each. The new table has exactly the names that were asked for, and
  -- the target has its breakpoints, which are tracked: for a name that had a breakpoint in the
  -- target, the same one. Those of names that are not asked for any more are deleted, all other
  -- breakpoints stay in the target and tracked as they were, all other tables are left, no breakpoint
  -- is untracked, and the new table is valid again.
  pub set_function_breakpoints-Refines :
      (reqs : List FunctionBreakpoint) (s : State env)
      → IsTable env laws s.breakpoints.function s
      → Done (set_function_breakpoints env reqs) s (Served reqs s)
  unfolding set_function_breakpoints
  set_function_breakpoints-Refines reqs s table =
      let d =
        Done-bind (each_request env (set_function_one env s.breakpoints.function) reqs []) _ s
          (Served reqs s)
          (each_request-Done env laws s.breakpoints.function
            (set_function_one env s.breakpoints.function) (λ r. r.name) reqs [] s s
            (All-Fits s.breakpoints.function reqs) table
            (Synced-start env laws s.breakpoints.function s))
          (λ out u loop. record {
            value = out.0;
            after =
                put_function env out.1 (delete_missing env false s.breakpoints.function out.1 u);
            ends = refl;
            post = finish reqs s u out table loop;
          }) in
      record { value = d.value; after = d.after; ends = d.ends; post = d.post }
