-- ===== src/Breakpoints/Handlers.antt =====
-- The handlers that set breakpoints: each finds or makes a breakpoint for every request, and deletes
-- those that are not requested any more.
use codelldb.Prelude.{
  ℕ, suc, ◌-◌, ◌%◌, ◌^◌, Bool, true, false, ◌&&◌, Option, none, some, List, [], ◌∷◌, ◌++◌, ltb,
  ◌==◌, if◌then◌else◌,
}
use codelldb.Prelude.Equality.{Eq, ℕ_eq, list_eq, ◌≐◌}
use codelldb.Prelude.Map.{Map, lookup, insert, remove, contains_key}
use codelldb.Prelude.Text.{Chars, chars}
use codelldb.Prelude.Exec.{Outcome, ok, error, panic, pure, modify, ◌>>=◌, ◌>>◌}
use codelldb.Str.Decimal.{show_usize}
use codelldb.Fsutil.{PathBuf, normal, normalize_path}
use codelldb.Fsutil.Equality.{component_eq}
use codelldb.Disassembly.{Address}
use codelldb.Breakpoints.Interface.{BreakpointId, BreakpointKind, source, BreakpointInfo}
use codelldb.Breakpoints.Target.{
  LineTable, BreakpointMode, path, file, Place, by_location, LineEntry, Env, Response, State, M,
}
use codelldb.Breakpoints.Actions.{
  file_name, print, make_bp_info, init_bp_actions, make_bp_response, track,
}

-- The `i64` line and column of the protocol are kept as their 64-bit patterns.
pub record SourceBreakpoint : Type 0 where
  pub line : ℕ
  pub column : Option ℕ
  pub condition : Option Chars
  pub log_message : Option Chars
  pub hit_condition : Option Chars

pub record InstructionBreakpoint : Type 0 where
  pub instruction_reference : Chars
  pub offset : Option ℕ
  pub condition : Option Chars
  pub hit_condition : Option Chars

pub record FunctionBreakpoint : Type 0 where
  pub name : Chars
  pub condition : Option Chars
  pub hit_condition : Option Chars

abbrev pub or_default : {A : Type 0} → A → Option A → A
or_default a none = a
or_default a (some b) = b

abbrev pub as_u32 : Option ℕ → Option ℕ
as_u32 none = none
as_u32 (some n) = some (n % 2 ^ 32)

module _ (env : Env) where
  open env use {sb, lldb, Value, breakpoint_mode}

  unfoldable pub create_at : Outcome Place → M env BreakpointId
  create_at (ok place) s =
      let (id, t) = sb.create place s.target in (ok id, record s { target = t })
  create_at (error e) s = (error e, s)
  create_at panic s = (panic, s)

  -- The breakpoint that is there already, if the target still has it, or a new one.
  unfoldable pub find_or_create : Option BreakpointId → Outcome Place → M env BreakpointId
  unfolding create_at
  find_or_create none place s = create_at place s
  find_or_create (some id) place s = if sb.find s.target id then (ok id, s) else create_at place s

  -- What every handler does with a request; `hint` is done between the response and the table.
  unfoldable pub establish :
      Option BreakpointId
      → Outcome Place
      → BreakpointKind
      → (condition log_message hit_condition : Option Chars)
      → (BreakpointInfo → Response → M env Response)
      → M env (Response × BreakpointId)
  unfolding find_or_create
  establish existing place kind condition log_message hit_condition hint = do
    id ← find_or_create existing place
    info ← make_bp_info env id kind condition log_message hit_condition
    _ ← init_bp_actions env info
    plain ← make_bp_response env info false
    response ← hint info plain
    _ ← track env info
    pure (response, info.id)

  abbrev pub no_hint : BreakpointInfo → Response → M env Response
  no_hint info response = pure response

  module _ {K Req : Type 0} ⦃e : Eq K⦄ where
    -- The loop over the requests, with the new table.
    unfoldable pub each_request :
        (Req → M env (K × Response × BreakpointId))
        → List Req
        → Map K BreakpointId
        → M env (List Response × Map K BreakpointId)
    each_request one [] new_bps = pure ([], new_bps)
    each_request one (req ∷ reqs) new_bps = do
      made ← one req
      rest ← each_request one reqs (insert made.0 made.2 new_bps)
      pure (made.1 ∷ rest.0, rest.1)

  module _ {K : Type 0} ⦃e : Eq K⦄ where
    -- `breakpoint_delete` for an old entry whose key is not in the new table. Only for source
    -- breakpoints the entry of `breakpoint_infos` goes too.
    unfoldable pub delete_one : Bool → Map K BreakpointId → K → BreakpointId → State env → State env
    delete_one untrack new_bps k id s = if contains_key k new_bps then s else record s {
      target = sb.delete id s.target;
      breakpoints = record (s.breakpoints) {
        breakpoint_infos =
            if untrack
            then remove id s.breakpoints.breakpoint_infos
            else s.breakpoints.breakpoint_infos;
      };
    }

    unfoldable pub delete_missing :
        Bool → Map K BreakpointId → Map K BreakpointId → State env → State env
    unfolding delete_one
    delete_missing untrack [] new_bps s = s
    delete_missing untrack ((k, id) ∷ existing) new_bps s =
        delete_missing untrack existing new_bps (delete_one untrack new_bps k id s)

  -- `get_breakpoint_hint`: the locations at the line, the path that has most in common with the
  -- file's from the end on.
  unfoldable pub common_prefix : PathBuf → PathBuf → ℕ
  common_prefix (a ∷ p) (b ∷ q) = let rest = common_prefix p q in if a ≐ b then suc rest else 0
  common_prefix _ _ = 0

  unfoldable pub reversed : PathBuf → PathBuf → PathBuf
  reversed acc [] = acc
  reversed acc (c ∷ p) = reversed (c ∷ acc) p

  unfoldable pub best_location :
      PathBuf → ℕ → ℕ × Option PathBuf → List (Address × Option LineEntry) → ℕ × Option PathBuf
  unfolding common_prefix reversed
  best_location filepath line best [] = best
  best_location filepath line best ((address, none) ∷ locations) =
      best_location filepath line best locations
  best_location filepath line best ((address, some le) ∷ locations) =
      let count : ℕ = common_prefix (reversed [] le.file_spec) (reversed [] filepath) in
      best_location filepath line
        (if le.line == line && ltb best.0 count then (count, some le.file_spec) else best) locations

  -- The temporary breakpoint at the file's name is looked at and deleted.
  unfoldable pub hint_at : PathBuf → ℕ → Option ℕ → Chars → M env (Option (PathBuf × ℕ))
  unfolding best_location
  hint_at filepath line column name s =
      let (bp, t) = sb.create (by_location (normal name ∷ []) line column) s.target in
      let best = best_location filepath line (0, none) (sb.locations t bp) in
      (
        ok (elim best.1 [ none ↦ none | some found ↦ some (found, line) ]),
        record s { target = sb.delete bp t },
      )

  unfoldable pub get_breakpoint_hint : PathBuf → ℕ → Option ℕ → M env (Option (PathBuf × ℕ))
  unfolding hint_at
  get_breakpoint_hint filepath line column s = elim (file_name filepath) [
    | none ↦ (ok none, s)
    | some name ↦ hint_at filepath (line % 2 ^ 32) (as_u32 column) name s
  ]

  -- The decimal text of the `i64` with a pattern.
  abbrev pub show_i64 : ℕ → Chars
  show_i64 n = if ltb n (2 ^ 63) then show_usize n else chars "-" ++ show_usize (2 ^ 64 - n)

  abbrev pub hint_message : PathBuf → ℕ → PathBuf × ℕ → Chars
  hint_message file_path line (found, at) =
      chars "Breakpoint at "
      ++ env.display file_path
      ++ chars ":"
      ++ show_i64 line
      ++ chars " could not be resolved, but a valid location was found at "
      ++ env.display found
      ++ chars ":"
      ++ show_usize at

  unfoldable pub report_hint : PathBuf → ℕ → Response → Option (PathBuf × ℕ) → M env Response
  report_hint file_path line response none = pure response
  report_hint file_path line response (some found) =
      let message = hint_message file_path line found in
      print env message >> pure (record response { message = some message })

  unfoldable pub hint_for :
      BreakpointMode
      → PathBuf
      → SourceBreakpoint
      → Response
      → List (Address × Option LineEntry)
      → M env Response
  unfolding get_breakpoint_hint report_hint
  hint_for path file_path req response [] =
      get_breakpoint_hint file_path req.line req.column >>= report_hint file_path req.line response
  hint_for mode file_path req response locations = pure response

  -- A breakpoint without a location is looked for in files of the same name.
  unfoldable pub hint_if_unresolved :
      PathBuf → SourceBreakpoint → BreakpointInfo → Response → M env Response
  unfolding hint_for
  hint_if_unresolved file_path req info response s =
      hint_for breakpoint_mode file_path req response (sb.locations s.target info.id) s

  -- Where a source breakpoint is made.
  unfoldable pub source_place : PathBuf → SourceBreakpoint → Outcome Place
  source_place file_path req = elim breakpoint_mode [
    | path ↦ ok (by_location file_path (req.line % 2 ^ 32) (as_u32 req.column))
    | file ↦ elim (file_name file_path) [
      | some name ↦ ok (by_location (normal name ∷ []) (req.line % 2 ^ 32) (as_u32 req.column))
      | none ↦ error (chars "Missing file name")
    ]
  ]

  unfoldable pub set_source_one :
      LineTable → PathBuf → SourceBreakpoint → M env (ℕ × Response × BreakpointId)
  unfolding establish source_place hint_if_unresolved
  set_source_one existing file_path req = do
    made ←
        establish (lookup req.line existing) (source_place file_path req) source req.condition
          req.log_message req.hit_condition (hint_if_unresolved file_path req)
    pure (req.line, made.0, made.1)

  abbrev pub put_source : PathBuf → LineTable → State env → State env
  put_source file_path table s = record s {
    breakpoints = record (s.breakpoints) { source = insert file_path table s.breakpoints.source };
  }

  unfoldable pub set_source_breakpoints : PathBuf → List SourceBreakpoint → M env (List Response)
  unfolding each_request set_source_one delete_missing
  set_source_breakpoints file_path requested_bps s =
      let existing_bps : LineTable = or_default [] (lookup file_path s.breakpoints.source) in
      (do
        out ← each_request (set_source_one existing_bps (normalize_path file_path)) requested_bps []
        _ ← modify (λ u. put_source file_path out.1 (delete_missing true existing_bps out.1 u))
        pure out.0)
        (put_source file_path existing_bps s)
