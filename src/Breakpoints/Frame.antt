-- ===== src/Breakpoints/Frame.antt =====
-- What describing a breakpoint leaves alone: the tables of the session, and which breakpoints the
-- target has.
use codelldb.Prelude.{◌≤◌, ◌≡◌, refl, ◌∙◌, false, Option, none, some, List, [], ◌∷◌, ◌++◌, arith}
use codelldb.Prelude.Text.{Chars, chars}
use codelldb.Str.Decimal.{show_usize}
use codelldb.Prelude.Exec.{pure, ◌>>=◌, ◌>>◌}
use codelldb.Prelude.Done.{Done, Done-pure, Done-bind}
use codelldb.Disassembly.{Address}
use codelldb.Breakpoints.Interface.{
  BreakpointId, HitCondition, BreakpointKind, source, disassembly, instruction, function, exception,
  BreakpointInfo,
}
use codelldb.Breakpoints.Target.{
  EvalContext, simple_expression, python_expression, PreparedExpression, native, simple, python,
  SbLaws, Result, success, failure, LineEntry, Env, State, M,
}
use codelldb.Breakpoints.Actions.{
  empty2none, print, update_target, accept_hit_condition, read_hit_condition, make_bp_info,
  accept_code, compile_condition, accept_condition, py_condition, init_bp_actions, response_source,
  source_response, disassembly_response, resolved_response, located_response, make_bp_response,
}

module _ (env : Env) (laws : SbLaws env.sb) where
  open env use {sb}
  open laws use {next_id}

  -- The tables, and what the target has, are as before.
  pub record Same (s u : State env) : Type 0 where
    pub tables : u.breakpoints ≡ s.breakpoints
    pub finds : (j : BreakpointId) → sb.find u.target j ≡ sb.find s.target j
    pub ids : next_id s.target ≤ next_id u.target

  pub Same-refl : (s : State env) → Same s s
  Same-refl s = record { tables = refl; finds = λ j. refl; ids = omega arith }

  pub Same-trans : (s t u : State env) → Same s t → Same t u → Same s u
  Same-trans s t u a b = record {
    tables = b.tables ∙ a.tables;
    finds = λ j. b.finds j ∙ a.finds j;
    ids = (let x = a.ids in let y = b.ids in omega arith);
  }

  -- Code that keeps them.
  abbrev pub Keeps : {A : Type 0} → M env A → Type 0
  Keeps m = (s : State env) → Done m s (λ a u. Same s u)

  pub Keeps-pure : {A : Type 0} (a : A) → Keeps (pure {S = State env} a)
  Keeps-pure a s = Done-pure a s _ (Same-refl s)

  pub Keeps-bind :
      {A B : Type 0} (m : M env A) (f : A → M env B)
      → Keeps m
      → ((a : A) → Keeps (f a))
      → Keeps (m >>= f)
  Keeps-bind m f km kf s =
      Done-bind m f s (λ b u. Same s u) (km s)
        (λ a t same.
          let d = kf a t in
          record {
            value = d.value;
            after = d.after;
            ends = d.ends;
            post = Same-trans s t d.after same d.post;
          })

  print-Keeps : (line : Chars) → Keeps (print env line)
  unfolding print
  print-Keeps line s = record {
    value = tt;
    after = record s { console = s.console ++ line ∷ [] };
    ends = refl;
    post = record { tables = refl; finds = λ j. refl; ids = omega arith };
  }

  pub print-none-Keeps : {A : Type 0} (line : Chars) (a : A) → Keeps (print env line >> pure a)
  print-none-Keeps line a =
      Keeps-bind (print env line) (λ _. pure a) (print-Keeps line) (λ _. Keeps-pure a)

  update_target-Keeps :
      (f : sb.Target → sb.Target)
      → ((t : sb.Target) → next_id (f t) ≡ next_id t)
      → ((t : sb.Target) (j : BreakpointId) → sb.find (f t) j ≡ sb.find t j)
      → Keeps (update_target env f)
  unfolding update_target
  update_target-Keeps f n h s = record {
    value = tt;
    after = record s { target = f s.target };
    ends = refl;
    post = record { tables = refl; finds = h s.target; ids = (let x = n s.target in omega arith) };
  }

  read_hit_condition-Keeps : (h : Option Chars) → Keeps (read_hit_condition env h)
  unfolding read_hit_condition accept_hit_condition
  read_hit_condition-Keeps none = Keeps-pure none
  read_hit_condition-Keeps (some expr) =
      accept_hit_condition-Keeps expr (env.parse_hit_condition expr)
    where
      accept_hit_condition-Keeps :
          (expr : Chars) (c : Option HitCondition) → Keeps (accept_hit_condition env expr c)
      accept_hit_condition-Keeps expr (some c) = Keeps-pure (some c)
      accept_hit_condition-Keeps expr none = print-none-Keeps _ none

  pub make_bp_info-Done :
      (id : BreakpointId) (kind : BreakpointKind) (c l h : Option Chars) (s : State env)
      → Done
          (make_bp_info env id kind c l h)
          s
          (λ info u. (info.id ≡ id) × (info.condition ≡ empty2none c) × Same s u)
  unfolding make_bp_info
  make_bp_info-Done id kind c l h s =
      Done-bind (read_hit_condition env (empty2none h)) _ s _
        (read_hit_condition-Keeps (empty2none h) s)
        (λ hit u same. Done-pure _ u _ (refl, refl, same))

  accept_code-Keeps :
      (context : EvalContext) (r : Result sb.Code) → Keeps (accept_code env context r)
  unfolding accept_code
  accept_code-Keeps context (success code) = Keeps-pure (some (code, context))
  accept_code-Keeps context (failure e) = print-none-Keeps _ none

  compile_condition-Keeps :
      (context : EvalContext) (expr : Chars) (p : Option (Chars → Result sb.Code))
      → Keeps (compile_condition env context expr p)
  unfolding compile_condition
  compile_condition-Keeps context expr none = Keeps-pure none
  compile_condition-Keeps context expr (some compile) = accept_code-Keeps context (compile expr)

  accept_condition-Keeps :
      (id : BreakpointId) (r : Result PreparedExpression) → Keeps (accept_condition env id r)
  unfolding accept_condition
  accept_condition-Keeps id (success (native expr)) =
      Keeps-bind (update_target env (sb.set_condition id expr)) (λ _. pure none)
        (update_target-Keeps (sb.set_condition id expr) (laws.set_condition-next_id id expr)
          (laws.find-set_condition id expr))
        (λ _. Keeps-pure none)
  accept_condition-Keeps id (success (simple expr)) =
      compile_condition-Keeps simple_expression expr env.python
  accept_condition-Keeps id (success (python expr)) =
      compile_condition-Keeps python_expression expr env.python
  accept_condition-Keeps id (failure e) = print-none-Keeps _ none

  py_condition-Keeps : (id : BreakpointId) (c : Option Chars) → Keeps (py_condition env id c)
  unfolding py_condition
  py_condition-Keeps id none = Keeps-pure none
  py_condition-Keeps id (some condition) = accept_condition-Keeps id (env.prepare condition)

  pub init_bp_actions-Keeps : (info : BreakpointInfo) → Keeps (init_bp_actions env info)
  unfolding init_bp_actions
  init_bp_actions-Keeps info =
      Keeps-bind (py_condition env info.id info.condition) _
        (py_condition-Keeps info.id info.condition)
        (λ c.
          update_target-Keeps (sb.set_callback info.id c) (laws.set_callback-next_id info.id c)
            (laws.find-set_callback info.id c))

  source_response-Keeps :
      (info : BreakpointInfo) (message : Chars) (le : Option LineEntry)
      → Keeps (source_response env info false message le)
  unfolding source_response response_source
  source_response-Keeps info message none s = record {
    value = _;
    after = s;
    ends = refl;
    post = Same-refl s;
  }
  source_response-Keeps info message (some le) s = record {
    value = _;
    after = s;
    ends = refl;
    post = Same-refl s;
  }

  disassembly_response-Keeps :
      (info : BreakpointInfo) (message : Chars) (address : Address)
      → Keeps (disassembly_response env info message address)
  unfolding disassembly_response
  disassembly_response-Keeps info message address s = record {
    value = _;
    after = _;
    ends = refl;
    post = record { tables = refl; finds = λ j. refl; ids = omega arith };
  }

  resolved_response-Keeps :
      (k : BreakpointKind) (info : BreakpointInfo) (message : Chars)
      (at : Address × Option LineEntry)
      → Keeps (resolved_response env k info false message at)
  unfolding resolved_response
  resolved_response-Keeps source info message (a, le) = source_response-Keeps info message le
  resolved_response-Keeps disassembly info message (a, le) =
      disassembly_response-Keeps info message a
  resolved_response-Keeps instruction info message (a, le) = Keeps-pure _
  resolved_response-Keeps function info message (a, le) = Keeps-pure _
  resolved_response-Keeps (exception n) info message (a, le) = Keeps-pure _

  located_response-Keeps :
      (info : BreakpointInfo) (message : Chars) (ls : List (Address × Option LineEntry))
      → Keeps (located_response env info false message ls)
  unfolding located_response
  located_response-Keeps info message [] = Keeps-pure _
  located_response-Keeps info message (first ∷ rest) =
      resolved_response-Keeps info.kind info message first

  -- A response without a source neither fails nor changes anything but the disassembled ranges.
  pub make_bp_response-Keeps : (info : BreakpointInfo) → Keeps (make_bp_response env info false)
  unfolding make_bp_response
  make_bp_response-Keeps info s =
      let d =
        located_response-Keeps info
          (chars "Resolved locations: " ++ show_usize (sb.num_resolved_locations s.target info.id))
          (sb.locations s.target info.id) s in
      record { value = d.value; after = d.after; ends = d.ends; post = d.post }
