-- ===== src/Breakpoints/Actions.antt =====
-- `make_bp_info`, `init_bp_actions` and `make_bp_response`: a breakpoint as the session keeps it,
-- its condition set in the target, and its description for the client.
use codelldb.Prelude.{Bool, true, false, Option, none, some, List, [], ◌∷◌, ◌++◌}
use codelldb.Prelude.Equality.{ℕ_eq}
use codelldb.Prelude.Map.{insert}
use codelldb.Prelude.Text.{Chars, chars}
use codelldb.Prelude.Exec.{ok, pure, crash, modify, ◌>>=◌, ◌>>◌}
use codelldb.Str.Trim.{trim}
use codelldb.Str.Decimal.{show_usize}
use codelldb.Str.Hex.{show_hex_upper}
use codelldb.Fsutil.{PathBuf, normal}
use codelldb.Disassembly.{
  Address, DisassembledRange, from_address, adapter_data, line_num_by_address,
}
use codelldb.Breakpoints.Interface.{
  BreakpointId, HitCondition, BreakpointKind, source, disassembly, instruction, function, exception,
  BreakpointInfo,
}
use codelldb.Breakpoints.Target.{
  EvalContext, simple_expression, python_expression, PreparedExpression, native, simple, python,
  LineEntry, Result, success, failure, Env, of_file, of_range, Source, Response, M,
}

-- `Path::file_name`
unfoldable pub file_name : PathBuf → Option Chars
file_name [] = none
file_name (normal s ∷ []) = some s
file_name (c ∷ []) = none
file_name (c ∷ d ∷ p) = file_name (d ∷ p)

unfoldable pub not_blank : Chars → Option Chars
not_blank [] = none
not_blank (c ∷ cs) = some (c ∷ cs)

unfoldable pub empty2none : Option Chars → Option Chars
unfolding not_blank
empty2none none = none
empty2none (some s) = not_blank (trim s)

module _ (env : Env) where
  open env use {sb, lldb}

  unfoldable pub print : Chars → M env (Unit {0})
  print line s = (ok tt, record s { console = s.console ++ line ∷ [] })

  unfoldable pub update_target : (sb.Target → sb.Target) → M env (Unit {0})
  update_target f s = (ok tt, record s { target = f s.target })

  unfoldable pub accept_hit_condition : Chars → Option HitCondition → M env (Option HitCondition)
  unfolding print
  accept_hit_condition expr (some cond) = pure (some cond)
  accept_hit_condition expr none = print (chars "Invalid hit condition: " ++ expr) >> pure none

  unfoldable pub read_hit_condition : Option Chars → M env (Option HitCondition)
  unfolding accept_hit_condition
  read_hit_condition none = pure none
  read_hit_condition (some expr) = accept_hit_condition expr (env.parse_hit_condition expr)

  unfoldable pub make_bp_info :
      BreakpointId
      → BreakpointKind
      → (condition log_message hit_condition : Option Chars) → M env BreakpointInfo
  unfolding empty2none read_hit_condition
  make_bp_info id kind condition log_message hit_condition = do
    hit ← read_hit_condition (empty2none hit_condition)
    pure (record {
      id = id;
      kind = kind;
      condition = empty2none condition;
      log_message = empty2none log_message;
      hit_condition = hit;
      hit_count = 0;
      exclusions = [];
    })

  abbrev pub condition_error : Chars → Chars
  condition_error e = chars "Could not parse breakpoint condition:\n" ++ e

  unfoldable pub accept_code : EvalContext → Result sb.Code → M env (Option (sb.Code × EvalContext))
  unfolding print
  accept_code context (success code) = pure (some (code, context))
  accept_code context (failure e) = print (condition_error e) >> pure none

  -- A condition that Python evaluates: it is compiled, if there is Python.
  unfoldable pub compile_condition :
      EvalContext → Chars → Option (Chars → Result sb.Code) → M env (Option (sb.Code × EvalContext))
  unfolding accept_code
  compile_condition context expr none = pure none
  compile_condition context expr (some compile) = accept_code context (compile expr)

  -- A native condition is set in the target, any other is left to the callback.
  unfoldable pub accept_condition :
      BreakpointId → Result PreparedExpression → M env (Option (sb.Code × EvalContext))
  unfolding compile_condition update_target print
  accept_condition id (success (native expr)) =
      update_target (sb.set_condition id expr) >> pure none
  accept_condition id (success (simple expr)) = compile_condition simple_expression expr env.python
  accept_condition id (success (python expr)) = compile_condition python_expression expr env.python
  accept_condition id (failure e) = print (condition_error e) >> pure none

  unfoldable pub py_condition : BreakpointId → Option Chars → M env (Option (sb.Code × EvalContext))
  unfolding accept_condition
  py_condition id none = pure none
  py_condition id (some condition) = accept_condition id (env.prepare condition)

  unfoldable pub init_bp_actions : BreakpointInfo → M env (Unit {0})
  unfolding py_condition update_target
  init_bp_actions info = do
    condition ← py_condition info.id info.condition
    update_target (sb.set_callback info.id condition)

  -- A response with nothing but the id, whether the breakpoint is verified, and the message.
  abbrev pub plain_response : BreakpointId → Bool → Chars → Response
  plain_response id verified message = record {
    id = some id;
    verified = verified;
    message = some message;
    source = none;
    line = none;
    instruction_reference = none;
  }

  -- `file_path.file_name().unwrap()` panics on a path without a file name.
  unfoldable pub response_source : Bool → LineEntry → M env (Option Source)
  unfolding file_name
  response_source false entry = pure none
  response_source true entry = elim (file_name entry.file_spec) [
    | none ↦ crash
    | some name ↦ pure (
        some (record {
          name = name;
          path = some (of_file entry.file_spec);
          source_reference = none;
          adapter_data = none;
        }))
  ]

  unfoldable pub source_response : BreakpointInfo → Bool → Chars → Option LineEntry → M env Response
  unfolding response_source
  source_response info include_source message none = pure (plain_response info.id false message)
  source_response info include_source message (some entry) = do
    src ← response_source include_source entry
    pure (record (plain_response info.id true message) { source = src; line = some entry.line })

  abbrev pub range_source : DisassembledRange lldb → Source
  range_source dasm = record {
    name = dasm.source_name;
    path = some (of_range dasm.source_name);
    source_reference = some dasm.handle;
    adapter_data = some (adapter_data lldb dasm);
  }

  unfoldable pub range_response :
      BreakpointInfo → Chars → Address → Option (DisassembledRange lldb) → Response
  range_response info message address none = plain_response info.id false message
  range_response info message address (some dasm) = record (plain_response info.id true message) {
    line = some (line_num_by_address lldb dasm address);
    source = some (range_source dasm);
  }

  unfoldable pub disassembly_response : BreakpointInfo → Chars → Address → M env Response
  unfolding range_response
  disassembly_response info message address s =
      let (dasm, ranges) = from_address lldb s.disasm_ranges address in
      (ok (range_response info message address dasm), record s { disasm_ranges = ranges })

  -- The response for a breakpoint that has a first location.
  unfoldable pub resolved_response :
      BreakpointKind → BreakpointInfo → Bool → Chars → Address × Option LineEntry → M env Response
  unfolding source_response disassembly_response
  resolved_response source info include_source message (address, entry) =
      source_response info include_source message entry
  resolved_response disassembly info include_source message (address, entry) =
      disassembly_response info message address
  resolved_response instruction info include_source message (address, entry) =
      pure (record (plain_response info.id true message) {
        instruction_reference = some (chars "0x" ++ show_hex_upper address);
      })
  resolved_response function info include_source message (address, entry) =
      pure (plain_response info.id true message)
  resolved_response (exception name) info include_source message (address, entry) =
      pure (plain_response info.id true message)

  unfoldable pub located_response :
      BreakpointInfo → Bool → Chars → List (Address × Option LineEntry) → M env Response
  unfolding resolved_response
  located_response info include_source message [] = pure (plain_response info.id false message)
  located_response info include_source message (first ∷ rest) =
      resolved_response info.kind info include_source message first

  unfoldable pub make_bp_response : BreakpointInfo → Bool → M env Response
  unfolding located_response
  make_bp_response info include_source s =
      located_response info include_source
        (chars "Resolved locations: " ++ show_usize (sb.num_resolved_locations s.target info.id))
        (sb.locations s.target info.id) s

  -- `breakpoint_infos.insert(bp_info.id, bp_info)`
  unfoldable pub track : BreakpointInfo → M env (Unit {0})
  track info = modify (λ s. record s {
    breakpoints = record (s.breakpoints) {
      breakpoint_infos = insert info.id info s.breakpoints.breakpoint_infos;
    };
  })
