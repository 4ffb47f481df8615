-- ===== src/Breakpoints/Exceptions.antt =====
-- Exception breakpoints, and the events of the target about breakpoints.
use codelldb.Prelude.{
  Bool, true, false, not, ◌||◌, Option, none, some, List, [], ◌∷◌, ◌++◌, if◌then◌else◌,
}
use codelldb.Prelude.Equality.{ℕ_eq, list_eq, ◌≐◌}
use codelldb.Prelude.Map.{Map, lookup, remove, contains_key, retain}
use codelldb.Prelude.Text.{Chars, chars}
use codelldb.Prelude.Exec.{ok, pure, modify, ◌>>=◌}
use codelldb.Breakpoints.Interface.{BreakpointId, BreakpointKind, source, exception, BreakpointInfo}
use codelldb.Breakpoints.Target.{
  Place, by_regex, for_exception, c_plus_plus, swift, Env, Reason, added, changed, removed,
  Response, State, M,
}
use codelldb.Breakpoints.Actions.{make_bp_info, init_bp_actions, make_bp_response, track}
use codelldb.Breakpoints.Requests.{no_response}

abbrev pub cpp_throw : Chars
cpp_throw = chars "cpp_throw"

abbrev pub cpp_catch : Chars
cpp_catch = chars "cpp_catch"

abbrev pub rust_panic : Chars
rust_panic = chars "rust_panic"

abbrev pub swift_throw : Chars
swift_throw = chars "swift_throw"

-- What an exception filter stands for: a place, and the name that its breakpoint gets.
unfoldable pub exception_place : Chars → Option (Place × Chars)
exception_place name =
    if name ≐ cpp_throw
    then some (for_exception c_plus_plus false true, chars "cpp_exception")
    else if name ≐ cpp_catch
    then some (for_exception c_plus_plus true false, chars "cpp_exception")
    else if name ≐ rust_panic
    then some (by_regex (chars "rust_panic$"), chars "rust_panic")
    else if name ≐ swift_throw
    then some (for_exception swift false true, chars "swift_exception")
    else none

abbrev pub is_exception_kind : BreakpointKind → Bool
is_exception_kind (exception name) = true
is_exception_kind _ = false

-- The type of an event is a set of flags.
pub record EventType : Type 0 where
  pub is_added : Bool
  pub locations_added : Bool
  pub locations_resolved : Bool
  pub is_removed : Bool

module _ (env : Env) where
  open env use {sb}

  unfoldable pub set_exception_breakpoint : Chars → M env (Option BreakpointId)
  unfolding exception_place
  set_exception_breakpoint exc_name s = elim (exception_place exc_name) [
    | none ↦ (ok none, s)
    | some (place, name) ↦
        let (bp, t) = sb.create place s.target in
        (ok (some bp), record s { target = sb.add_name bp name t })
  ]

  unfoldable pub track_exception :
      Chars → Option Chars → Option BreakpointId → M env (List Response)
  track_exception exc_name condition none = pure []
  track_exception exc_name condition (some bp) = do
    info ← make_bp_info env bp (exception exc_name) condition none none
    _ ← init_bp_actions env info
    response ← make_bp_response env info false
    _ ← track env info
    pure (response ∷ [])

  -- The filters, and those with options, which may have a condition.
  unfoldable pub each_filter : List (Chars × Option Chars) → M env (List Response)
  unfolding set_exception_breakpoint track_exception
  each_filter [] = pure []
  each_filter ((exc_name, condition) ∷ filters) = do
    bp ← set_exception_breakpoint exc_name
    made ← track_exception exc_name condition bp
    rest ← each_filter filters
    pure (made ++ rest)

  unfoldable pub delete_exceptions : Map BreakpointId BreakpointInfo → sb.Target → sb.Target
  delete_exceptions [] t = t
  delete_exceptions ((id, info) ∷ infos) t =
      delete_exceptions infos (if is_exception_kind info.kind then sb.delete info.id t else t)

  abbrev pub drop_exceptions : State env → State env
  drop_exceptions s = record s {
    target = delete_exceptions s.breakpoints.breakpoint_infos s.target;
    breakpoints = record (s.breakpoints) {
      breakpoint_infos =
          retain (λ info. not (is_exception_kind info.kind)) s.breakpoints.breakpoint_infos;
    };
  }

  abbrev pub without_condition : List Chars → List (Chars × Option Chars)
  without_condition [] = []
  without_condition (f ∷ fs) = (f, none) ∷ without_condition fs

  unfoldable pub set_exception_breakpoints :
      List Chars → List (Chars × Option Chars) → M env (List Response)
  unfolding each_filter delete_exceptions
  set_exception_breakpoints filters filter_options s =
      each_filter (without_condition filters ++ filter_options) (drop_exceptions s)

  abbrev pub send_event : Reason → Response → State env → State env
  send_event reason response s = record s { events = s.events ++ (reason, response) ∷ [] }

  unfoldable pub on_added : BreakpointId → M env (Unit {0})
  on_added bp s =
      if contains_key bp s.breakpoints.breakpoint_infos || not (sb.is_valid s.target bp)
      then (ok tt, s)
      else (do
        info ← make_bp_info env bp source none none none
        response ← make_bp_response env info true
        _ ← modify (send_event added response)
        track env info)
          s

  unfoldable pub on_locations : BreakpointId → M env (Unit {0})
  on_locations bp s = elim (lookup bp s.breakpoints.breakpoint_infos) [
    | none ↦ (ok tt, s)
    | some info ↦
        (do response ← make_bp_response env info false; modify (send_event changed response)) s
  ]

  abbrev pub cleared : BreakpointId → State env → State env
  cleared bp s = record s { target = sb.clear_callback bp s.target }

  abbrev pub forgotten : BreakpointId → State env → State env
  forgotten bp s = record s {
    breakpoints = record (s.breakpoints) {
      breakpoint_infos = remove bp s.breakpoints.breakpoint_infos;
    };
    events = s.events ++ (removed, record no_response { id = some bp }) ∷ [];
  }

  unfoldable pub on_removed : BreakpointId → M env (Unit {0})
  on_removed bp s = (
    ok tt,
    if contains_key bp s.breakpoints.breakpoint_infos
        then forgotten bp (cleared bp s)
        else cleared bp s,
  )

  unfoldable pub handle_breakpoint_event : BreakpointId → EventType → M env (Unit {0})
  unfolding on_added on_locations on_removed
  handle_breakpoint_event bp event s =
      if event.is_added
      then on_added bp s
      else if event.locations_added || event.locations_resolved
      then on_locations bp s
      else if event.is_removed
      then on_removed bp s
      else (ok tt, s)
