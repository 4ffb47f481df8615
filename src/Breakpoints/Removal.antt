-- ===== src/Breakpoints/Removal.antt =====
-- What the client hears when the target has removed a breakpoint that a handler deleted.
use codelldb.Prelude.{ℕ, ◌≡◌, ◌∙◌, sym, ap, true, false, none, some, List, [], ◌∷◌, ◌++◌, arith}
use codelldb.Prelude.Equality.{ℕ_eq, list_eq}
use codelldb.Prelude.Map.{lookup, has, contains_key}
use codelldb.Prelude.Entries.{Entry}
use codelldb.Prelude.Text.{Chars}
use codelldb.Prelude.Exec.{ok}
use codelldb.Fsutil.{PathBuf, normalize_path}
use codelldb.Breakpoints.Interface.{BreakpointId}
use codelldb.Breakpoints.Target.{SbLaws, Env, removed, Response, State}
use codelldb.Breakpoints.Handlers.{SourceBreakpoint, FunctionBreakpoint, set_source_breakpoints}
use codelldb.Breakpoints.Requests.{no_response, set_function_breakpoints}
use codelldb.Breakpoints.Exceptions.{EventType, on_removed, handle_breakpoint_event}
use codelldb.Breakpoints.Sync.{IsTable}
use codelldb.Breakpoints.Loop.{Keyed}
use codelldb.Breakpoints.SetFunction.{set_function_breakpoints-Refines}
use codelldb.Breakpoints.SetSource.{HasPlace, lines_of, set_source_breakpoints-Refines}

abbrev pub removal : EventType
removal = record {
  is_added = false;
  locations_added = false;
  locations_resolved = false;
  is_removed = true;
}

module _ (env : Env) (laws : SbLaws env.sb) where
  reported :
      (id : BreakpointId) (u : State env)
      → has (lookup id u.breakpoints.breakpoint_infos) ≡ true
      → (handle_breakpoint_event env id removal u).1.events
        ≡ u.events ++ (removed, record no_response { id = some id }) ∷ []
  unfolding handle_breakpoint_event on_removed contains_key
  reported id u h = ground (arith, h)

  silent :
      (id : BreakpointId) (u : State env)
      → lookup id u.breakpoints.breakpoint_infos ≡ none
      → (handle_breakpoint_event env id removal u).1.events ≡ u.events
  unfolding handle_breakpoint_event on_removed contains_key
  silent id u h = ground (arith, h)

  -- A source breakpoint that the client does not ask for any more is deleted in the target and not
  -- tracked any more, and the target's event about its removal is not passed on to the client.
  pub source_removal :
      (file_path : PathBuf) (reqs : List SourceBreakpoint) (s u : State env) (out : List Response)
      → HasPlace env laws (normalize_path file_path)
      → IsTable env laws (lines_of env laws file_path s) s
      → set_source_breakpoints env file_path reqs s ≡ (ok out, u)
      → (line : ℕ) (id : BreakpointId) → Entry line id (lines_of env laws file_path s)
      → (Keyed env laws (λ (r : SourceBreakpoint). r.line) line reqs → ⊥)
      → (env.sb.find u.target id ≡ false)
        × (lookup id u.breakpoints.breakpoint_infos ≡ none)
        × ((handle_breakpoint_event env id removal u).1.events ≡ u.events)
  source_removal file_path reqs s u out place table ran line id h unasked =
      let d = set_source_breakpoints-Refines env laws file_path reqs s place table in
      let ends : d.after ≡ u = ap (λ r. r.1) (sym d.ends ∙ ran) in
      let gone : lookup id u.breakpoints.breakpoint_infos ≡ none =
        ap (λ (t : State env). lookup id t.breakpoints.breakpoint_infos) (sym ends)
        ∙ d.post.untracked line id h unasked in
      (
        ap (λ (t : State env). env.sb.find t.target id) (sym ends)
            ∙ d.post.refines.deleted line id h unasked,
        gone,
        silent id u gone,
      )

  -- A tracked function breakpoint that the client does not ask for any more is deleted as well, but
  -- the event about its removal is passed on to the client.
  pub function_removal :
      (reqs : List FunctionBreakpoint) (s u : State env) (out : List Response)
      → IsTable env laws s.breakpoints.function s
      → set_function_breakpoints env reqs s ≡ (ok out, u)
      → (name : Chars) (id : BreakpointId) → Entry name id s.breakpoints.function
      → (Keyed env laws (λ (r : FunctionBreakpoint). r.name) name reqs → ⊥)
      → has (lookup id s.breakpoints.breakpoint_infos) ≡ true
      → (env.sb.find u.target id ≡ false)
        × ((handle_breakpoint_event env id removal u).1.events
            ≡ u.events ++ (removed, record no_response { id = some id }) ∷ [])
  function_removal reqs s u out table ran name id h unasked was =
      let d = set_function_breakpoints-Refines env laws reqs s table in
      let ends : d.after ≡ u = ap (λ r. r.1) (sym d.ends ∙ ran) in
      (
        ap (λ (t : State env). env.sb.find t.target id) (sym ends)
            ∙ d.post.1.deleted name id h unasked,
        reported id u (
            ap (λ (t : State env). has (lookup id t.breakpoints.breakpoint_infos)) (sym ends)
            ∙ d.post.5 id was),
      )
