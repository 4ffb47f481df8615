-- ===== src/Breakpoints/Target.antt =====
-- What the handlers of breakpoints work on: the tables of the session, the LLDB target, and the
-- functions of the expression parser, of Python and of serde_json that they call.
use codelldb.Prelude.{ℕ, Bool, Option, List, [], ◌≡◌, ◌==◌, ◌<◌, suc, true, false, if◌then◌else◌}
use codelldb.Prelude.Map.{Map}
use codelldb.Prelude.Text.{Chars}
use codelldb.Prelude.Exec.{Exec}
use codelldb.Handles.{Handle}
use codelldb.Fsutil.{PathBuf}
use codelldb.Disassembly.{Address, Lldb, Ranges, AdapterData}
use codelldb.Breakpoints.Interface.{BreakpointId, HitCondition, BreakpointInfo}

abbrev pub LineTable : Type 0
LineTable = Map ℕ BreakpointId

pub record Breakpoints : Type 0 where
  pub breakpoint_infos : Map BreakpointId BreakpointInfo
  pub source : Map PathBuf LineTable
  pub assembly : Map Handle LineTable
  pub instruction : Map Address BreakpointId
  pub function : Map Chars BreakpointId

abbrev pub new : Breakpoints
new = record { breakpoint_infos = []; source = []; assembly = []; instruction = []; function = [] }

pub data BreakpointMode : Type 0 where
  path file : BreakpointMode

pub data Language : Type 0 where
  c_plus_plus swift : Language

-- The ways in which a breakpoint is made in the target.
pub data Place : Type 0 where
  by_location : PathBuf → ℕ → Option ℕ → Place
  by_load_address : Address → Place
  by_regex by_name : Chars → Place
  for_exception : Language → (catches throws : Bool) → Place

-- How a condition is evaluated by Python.
pub data EvalContext : Type 0 where
  statement python_expression simple_expression : EvalContext

pub data PreparedExpression : Type 0 where
  native simple python : Chars → PreparedExpression

pub record LineEntry : Type 0 where
  pub file_spec : PathBuf
  pub line : ℕ

-- The LLDB target, as far as breakpoints go. A breakpoint is found by its id.
pub record SbTarget : Type 1 where
  pub Target : Type 0
  pub Code : Type 0
  pub find : Target → BreakpointId → Bool
  pub create : Place → Target → BreakpointId × Target
  pub delete : BreakpointId → Target → Target
  pub add_name : BreakpointId → Chars → Target → Target
  pub set_condition : BreakpointId → Chars → Target → Target
  pub set_callback : BreakpointId → Option (Code × EvalContext) → Target → Target
  pub clear_callback : BreakpointId → Target → Target
  pub is_valid : Target → BreakpointId → Bool
  pub num_resolved_locations : Target → BreakpointId → ℕ
  -- The locations of a breakpoint: their load addresses and line entries.
  pub locations : Target → BreakpointId → List (Address × Option LineEntry)

-- What LLDB documents of ids: they are given out in ascending order, and find what was made under
-- them until it is deleted.
pub record SbLaws (sb : SbTarget) : Type 0 where
  pub next_id : sb.Target → BreakpointId
  pub find-next_id : (t : sb.Target) (j : BreakpointId) → sb.find t j ≡ true → j < next_id t
  pub create-id : (p : Place) (t : sb.Target) → (sb.create p t).0 ≡ next_id t
  pub create-next_id : (p : Place) (t : sb.Target) → next_id (sb.create p t).1 ≡ suc (next_id t)
  pub find-create :
      (p : Place) (t : sb.Target) (j : BreakpointId)
      → sb.find (sb.create p t).1 j ≡ (if next_id t == j then true else sb.find t j)
  pub delete-next_id : (i : BreakpointId) (t : sb.Target) → next_id (sb.delete i t) ≡ next_id t
  pub find-delete :
      (i : BreakpointId) (t : sb.Target) (j : BreakpointId)
      → sb.find (sb.delete i t) j ≡ (if i == j then false else sb.find t j)
  pub set_condition-next_id :
      (i : BreakpointId) (c : Chars) (t : sb.Target) → next_id (sb.set_condition i c t) ≡ next_id t
  pub find-set_condition :
      (i : BreakpointId) (c : Chars) (t : sb.Target) (j : BreakpointId)
      → sb.find (sb.set_condition i c t) j ≡ sb.find t j
  pub set_callback-next_id :
      (i : BreakpointId) (c : Option (sb.Code × EvalContext)) (t : sb.Target)
      → next_id (sb.set_callback i c t) ≡ next_id t
  pub find-set_callback :
      (i : BreakpointId) (c : Option (sb.Code × EvalContext)) (t : sb.Target) (j : BreakpointId)
      → sb.find (sb.set_callback i c t) j ≡ sb.find t j

-- What a call that may fail, and never panics, comes to.
pub data Result (A : Type 0) : Type 0 where
  success : A → Result A
  failure : Chars → Result A

-- What else the handlers use: the session's settings, `expressions::prepare` and
-- `expressions::parse_hit_condition` over the default expression type, Python's compiler, if there
-- is Python, serde_json and parse_int, and how a path is shown. Errors are their texts.
pub record Env : Type 1 where
  pub sb : SbTarget
  pub lldb : Lldb
  pub Value : Type 0
  pub breakpoint_mode : BreakpointMode
  pub prepare : Chars → Result PreparedExpression
  pub parse_hit_condition : Chars → Option HitCondition
  pub python : Option (Chars → Result sb.Code)
  pub parse_int : Chars → Option ℕ
  pub display : PathBuf → Chars
  pub adapter_data_from_value : Value → Option AdapterData

-- An event to the client.
pub data Reason : Type 0 where
  added changed removed : Reason

-- The path of a source: that of a file, or the name of a disassembled range.
pub data SourcePath : Type 0 where
  of_file : PathBuf → SourcePath
  of_range : Chars → SourcePath

pub record Source : Type 0 where
  pub name : Chars
  pub path : Option SourcePath
  pub source_reference : Option Handle
  pub adapter_data : Option AdapterData

-- The protocol's `Breakpoint`.
pub record Response : Type 0 where
  pub id : Option BreakpointId
  pub verified : Bool
  pub message : Option Chars
  pub source : Option Source
  pub line : Option ℕ
  pub instruction_reference : Option Chars

module _ (env : Env) where
  open env use {sb, lldb}

  -- The part of the session that the handlers change.
  pub record State : Type 0 where
    pub breakpoints : Breakpoints
    pub target : sb.Target
    pub disasm_ranges : Ranges lldb
    pub console : List Chars
    pub events : List (Reason × Response)

  abbrev pub M : Type 0 → Type 0
  M A = Exec State A
