-- ===== src/Breakpoints/HandlerTests.antt =====
-- The handlers over a target that counts its ids, and the theorems there.
use codelldb.Prelude.{
  ◌++◌, ℕ, suc, ◌<◌, ◌≡◌, inl, inr, refl, Bool, true, false, ◌&&◌, none, some, List, [], ◌∷◌, ltb,
  ◌==◌, if◌then◌else◌, arith,
}
use codelldb.Prelude.Equality.{ℕ_eq, list_eq}
use codelldb.Prelude.Map.{lookup}
use codelldb.Prelude.Text.{Chars, chars}
use codelldb.Prelude.Done.{Done}
use codelldb.Fsutil.{PathBuf, root_dir, normal}
use codelldb.Fsutil.Equality.{component_eq}
use codelldb.Disassembly
use codelldb.Disassembly.{Lldb}
use codelldb.Breakpoints.Interface.{function}
use codelldb.Breakpoints.Target.{removed, new, path, native, SbTarget, SbLaws, success, Env, State}
use codelldb.Breakpoints.Handlers.{
  SourceBreakpoint, FunctionBreakpoint, each_request, set_source_breakpoints,
}
use codelldb.Breakpoints.Requests.{no_response, set_function_breakpoints}
use codelldb.Breakpoints.Sync.{IsTable}
use codelldb.Breakpoints.Exceptions.{handle_breakpoint_event}
use codelldb.Breakpoints.Removal.{removal, source_removal, function_removal}
use codelldb.Breakpoints.SetFunction
use codelldb.Breakpoints.SetFunction.{set_function_breakpoints-Refines}
use codelldb.Breakpoints.SetSource
use codelldb.Breakpoints.SetSource.{lines_of, set_source_breakpoints-Refines}

-- The next id, and which of the ids below are there.
abbrev counting : SbTarget
counting = record {
  Target = ℕ × (ℕ → Bool);
  Code = Chars;
  find = λ t j. ltb j t.0 && t.1 j;
  create = λ p t. (t.0, (suc t.0, λ j. if t.0 == j then true else t.1 j));
  delete = λ i t. (t.0, λ j. if i == j then false else t.1 j);
  add_name = λ i n t. t;
  set_condition = λ i c t. t;
  set_callback = λ i c t. t;
  clear_callback = λ i t. t;
  is_valid = λ t i. true;
  num_resolved_locations = λ t i. 0;
  locations = λ t i. [];
}

counting-find : (t : ℕ × (ℕ → Bool)) (j : ℕ) → counting.find t j ≡ true → j < t.0
counting-find t j h = ground arith

counting-create :
    (t : ℕ × (ℕ → Bool)) (j : ℕ)
    → (ltb j (suc t.0) && (if t.0 == j then true else t.1 j))
      ≡ (if t.0 == j then true else ltb j t.0 && t.1 j)
counting-create t j = ground arith

counting-delete :
    (i : ℕ) (t : ℕ × (ℕ → Bool)) (j : ℕ)
    → (ltb j t.0 && (if i == j then false else t.1 j))
      ≡ (if i == j then false else ltb j t.0 && t.1 j)
counting-delete i t j = ground arith

abbrev counting_laws : SbLaws counting
counting_laws = record {
  next_id = λ t. t.0;
  find-next_id = counting-find;
  create-id = λ p t. refl;
  create-next_id = λ p t. refl;
  find-create = λ p t j. counting-create t j;
  delete-next_id = λ i t. refl;
  find-delete = counting-delete;
  set_condition-next_id = λ i c t. refl;
  find-set_condition = λ i c t j. refl;
  set_callback-next_id = λ i c t. refl;
  find-set_callback = λ i c t j. refl;
}

abbrev no_code : Lldb
no_code = record {
  SbAddress = ℕ;
  SbSymbol = ℕ;
  SbInstruction = ℕ;
  from_load_address = λ a. a;
  load_address = λ a. a;
  symbol = λ a. none;
  symbol_name = λ s. [];
  symbol_start = λ s. s;
  symbol_end = λ s. s;
  symbol_instructions = λ s. [];
  read_instructions = λ a n. [];
  instruction_address = λ i. i;
}

abbrev env : Env
env = record {
  sb = counting;
  lldb = no_code;
  Value = ℕ;
  breakpoint_mode = path;
  prepare = λ c. success (native c);
  parse_hit_condition = λ c. none;
  python = none;
  parse_int = λ c. none;
  display = λ p. [];
  adapter_data_from_value = λ v. none;
}

abbrev main_c : PathBuf
main_c = root_dir ∷ normal (chars "main.c") ∷ []

-- Breakpoints 0 at line 3 and 1 at line 4 of main.c, and 2 at the function f.
abbrev three : State env
three = record {
  breakpoints = record new {
    source = (main_c, (3, 0) ∷ (4, 1) ∷ []) ∷ [];
    function = (chars "f", 2) ∷ [];
    breakpoint_infos =
        (
          2,
          record {
            id = 2;
            kind = function;
            condition = none;
            log_message = none;
            hit_condition = none;
            hit_count = 0;
            exclusions = [];
          },
        )
        ∷ [];
  };
  target = (3, λ j. true);
  disasm_ranges = Disassembly.new no_code;
  console = [];
  events = [];
}

abbrev at_line : ℕ → SourceBreakpoint
at_line n = record {
  line = n;
  column = none;
  condition = some (chars "x > 1");
  log_message = none;
  hit_condition = none;
}

three-source : IsTable env counting_laws (lines_of env counting_laws main_c three) three
unfolding lookup
three-source = record { below = λ k id h. ground arith; apart = λ k j id h g. ground arith }

three-function : IsTable env counting_laws three.breakpoints.function three
three-function = record { below = λ k id h. ground arith; apart = λ k j id h g. ground arith }

-- Line 3 stays, line 4 goes, line 5 is new.
set_source_breakpoints-Refines_example :
    Done
      (set_source_breakpoints env main_c (at_line 3 ∷ at_line 5 ∷ []))
      three
      (SetSource.Served env counting_laws main_c (at_line 3 ∷ at_line 5 ∷ []) three)
set_source_breakpoints-Refines_example =
    set_source_breakpoints-Refines env counting_laws main_c (at_line 3 ∷ at_line 5 ∷ []) three
      (inl refl) three-source

abbrev on_main : List FunctionBreakpoint
on_main = record { name = chars "main"; condition = none; hit_condition = none } ∷ []

set_function_breakpoints-Refines_example :
    Done
      (set_function_breakpoints env on_main)
      three
      (SetFunction.Served env counting_laws on_main three)
set_function_breakpoints-Refines_example =
    set_function_breakpoints-Refines env counting_laws on_main three three-function

abbrev after_none : State env
after_none = (set_function_breakpoints env [] three).1

function_removal_example :
    (counting.find after_none.target 2 ≡ false)
    × ((handle_breakpoint_event env 2 removal after_none).1.events
        ≡ after_none.events ++ (removed, record no_response { id = some 2 }) ∷ [])
unfolding set_function_breakpoints each_request lookup
function_removal_example =
    function_removal env counting_laws [] three after_none [] three-function refl (chars "f") 2
      (inl (refl, refl)) (λ h. h) refl

abbrev after_source : State env
after_source = (set_source_breakpoints env main_c [] three).1

source_removal_example :
    (counting.find after_source.target 1 ≡ false)
    × (lookup 1 after_source.breakpoints.breakpoint_infos ≡ none)
    × ((handle_breakpoint_event env 1 removal after_source).1.events ≡ after_source.events)
unfolding set_source_breakpoints each_request lookup
source_removal_example =
    source_removal env counting_laws main_c [] three after_source [] (inl refl) three-source refl 4
      1 (inr (inl (refl, refl))) (λ h. h)
