-- ===== src/Breakpoints/Hit.antt =====
-- `on_breakpoint_hit`: whether a hit stops the debuggee.
use codelldb.Prelude.{
  ℕ, ◌+◌, ◌%◌, ◌^◌, Bool, true, false, ◌||◌, Option, none, some, List, [], ◌∷◌, ◌++◌, ltb, leb,
  ◌==◌, if◌then◌else◌,
}
use codelldb.Prelude.Equality.{ℕ_eq, list_eq, ◌≐◌}
use codelldb.Prelude.Map.{Map, lookup, insert}
use codelldb.Prelude.Text.{Chars}
use codelldb.Prelude.Exec.{Outcome, ok, panic}
use codelldb.Breakpoints.Interface.{
  BreakpointId, HitCondition, lt, le, eq, ge, gt, modulo, BreakpointInfo,
}

-- `none` is the panic of a remainder by zero.
unfoldable pub hit_test : HitCondition → ℕ → Option Bool
hit_test (lt n) count = some (ltb count n)
hit_test (le n) count = some (leb count n)
hit_test (eq n) count = some (count == n)
hit_test (ge n) count = some (leb n count)
hit_test (gt n) count = some (ltb n count)
hit_test (modulo n) count = if n == 0 then none else some (count % n == 0)

pub data Console : Type 0 where
  condition_error message : Chars → Console

-- What the callback works on: the tracked breakpoints, and what was printed to the console.
pub record HitState : Type 0 where
  pub breakpoint_infos : Map BreakpointId BreakpointInfo
  pub console : List Console

pub data Evaluated : Type 0 where
  value : Bool → Evaluated
  failed : Chars → Evaluated

-- The place of a hit. `python` is what evaluating the condition as a boolean comes to, and `none`
-- if there is no Python; `format` is `format_logpoint_message` at the frame, which may panic.
pub record HitContext : Type 0 where
  pub symbols_on_stack : List Chars
  pub python : Option (Chars → Evaluated)
  pub format : Chars → Option Chars

unfoldable pub on_stack : List Chars → Chars → Bool
on_stack [] s = false
on_stack (t ∷ ts) s = t ≐ s || on_stack ts s

unfoldable pub is_excluded : List Chars → List Chars → Bool
unfolding on_stack
is_excluded symbols [] = false
is_excluded symbols (e ∷ es) = on_stack symbols e || is_excluded symbols es

-- Where the condition leaves the callback: it stops at once, with what it prints, or passes the hit
-- over, or goes on to count it.
pub data Verdict : Type 0 where
  stop_now : List Console → Verdict
  pass_over : Verdict
  count_it : Verdict

unfoldable pub check_condition : Option (Chars → Evaluated) → Option Chars → Verdict
check_condition python none = count_it
check_condition none (some code) = stop_now []
check_condition (some evaluate) (some code) = elim (evaluate code) [
  | value true ↦ count_it
  | value false ↦ pass_over
  | failed e ↦ stop_now (condition_error e ∷ [])
]

-- Behind the hit condition: a log message is printed instead of stopping.
unfoldable pub stop_or_log : HitContext → BreakpointInfo → HitState → Outcome Bool × HitState
stop_or_log ctx info s = elim info.log_message [
  | none ↦ (ok true, s)
  | some m ↦ elim (ctx.format m) [
    | none ↦ (panic, s)
    | some text ↦ (ok false, record s { console = message text ∷ s.console })
  ]
]

unfoldable pub counted : BreakpointInfo → BreakpointInfo
counted info = record info { hit_count = (info.hit_count + 1) % 2 ^ 32 }

unfoldable pub check_hit_condition :
    HitContext → BreakpointInfo → HitState → Outcome Bool × HitState
unfolding stop_or_log hit_test
check_hit_condition ctx info s = elim info.hit_condition [
  | none ↦ stop_or_log ctx info s
  | some c ↦ elim (hit_test c info.hit_count) [
    | none ↦ (panic, s)
    | some true ↦ stop_or_log ctx info s
    | some false ↦ (ok false, s)
  ]
]

unfoldable pub hit_tracked :
    HitContext → Option Chars → BreakpointId → BreakpointInfo → HitState → Outcome Bool × HitState
unfolding is_excluded check_condition counted check_hit_condition
hit_tracked ctx py_condition id info s =
    if is_excluded ctx.symbols_on_stack info.exclusions
    then (ok false, s)
    else elim (check_condition ctx.python py_condition) [
      | stop_now out ↦ (ok true, record s { console = out ++ s.console })
      | pass_over ↦ (ok false, s)
      | count_it ↦
          check_hit_condition ctx (counted info)
            (record s { breakpoint_infos = insert id (counted info) s.breakpoint_infos })
    ]

-- A breakpoint that is not tracked panics.
unfoldable pub on_breakpoint_hit :
    HitContext → Option Chars → BreakpointId → HitState → Outcome Bool × HitState
unfolding hit_tracked
on_breakpoint_hit ctx py_condition id s = elim (lookup id s.breakpoint_infos) [
  | none ↦ (panic, s)
  | some info ↦ hit_tracked ctx py_condition id info s
]
