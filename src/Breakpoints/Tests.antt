-- ===== src/Breakpoints/Tests.antt =====
-- Hits of breakpoints, and the theorems on them at concrete tables.
use mathlib.Core.Option
use codelldb.Prelude.{◌≡◌, refl, true, false, none, some, [], ◌∷◌, arith, ◌⊎◌, ◌↔◌, List, ◌++◌}
use codelldb.Prelude.Equality.{ℕ_eq}
use codelldb.Prelude.Map.{lookup, insert}
use codelldb.Prelude.Text.{Chars, chars}
use codelldb.Prelude.Exec.{Outcome, panic, ok}
use codelldb.Breakpoints.Interface.{source, modulo, BreakpointInfo}
use codelldb.Breakpoints.Hit.{
  hit_test, value, HitState, HitContext, message, counted, is_excluded, check_condition,
  check_hit_condition, hit_tracked, on_breakpoint_hit,
}
use codelldb.Breakpoints.Exclusions.{ExcludedCaller, first, second}
use codelldb.Breakpoints.LogMessage.{
  value_or_error, on_open, on_close, on_char, scan, replace_logpoint_expressions, no_open, inside,
  replace_logpoint_expressions-first,
}
use codelldb.Breakpoints.Counting.{Meets, hits, nth_hit, hit_panics}

abbrev bp7 : BreakpointInfo
bp7 = record {
  id = 7;
  kind = source;
  condition = none;
  log_message = none;
  hit_condition = some (modulo 3);
  hit_count = 0;
  exclusions = [];
}

abbrev logging : BreakpointInfo
logging = record bp7 {
  id = 8;
  log_message = some (chars "here");
  hit_condition = none;
  exclusions = chars "main" ∷ [];
}

abbrev table : HitState
table = record { breakpoint_infos = (7, bp7) ∷ (8, logging) ∷ []; console = [] }

abbrev frame : HitContext
frame = record {
  symbols_on_stack = chars "f" ∷ [];
  python = some (λ code. value false);
  format = λ m. some m;
}

third_stops : (on_breakpoint_hit frame none 7 (hits frame 7 2 table)).0 ≡ ok true
unfolding hits on_breakpoint_hit hit_tracked is_excluded check_condition check_hit_condition
    hit_test counted insert lookup
third_stops = refl

logs : on_breakpoint_hit frame none 8 table ≡ (
  ok false,
  record {
    breakpoint_infos = (7, bp7) ∷ (8, counted logging) ∷ [];
    console = message (chars "here") ∷ [];
  },
)
unfolding on_breakpoint_hit hit_tracked insert lookup
logs = refl

nth_hit_example :
    ((on_breakpoint_hit frame none 7 (hits frame 7 2 table)).0 ≡ ok true) × Meets (modulo 3) 3
    ⊎ ((on_breakpoint_hit frame none 7 (hits frame 7 2 table)).0 ≡ ok false)
      × (Meets (modulo 3) 3 → ⊥)
unfolding lookup
nth_hit_example =
    nth_hit frame (modulo 3) 2 table 7 bp7
      (record { tracked = refl; no_exclusion = refl; no_log = refl }) refl (ground arith)
      (omega arith)

-- With the hit condition `%0`.
abbrev by_zero : BreakpointInfo
by_zero = record bp7 { hit_condition = some (modulo 0) }

abbrev zero_table : HitState
zero_table = record { breakpoint_infos = (7, by_zero) ∷ []; console = [] }

hit_panics_example :
    ((on_breakpoint_hit frame none 7 zero_table).0 ≡ panic) ↔ (some (modulo 0) ≡ some (modulo 0))
unfolding lookup
hit_panics_example =
    hit_panics frame zero_table 7 by_zero
      (record { tracked = refl; no_exclusion = refl; no_log = refl })

-- One caller for the breakpoint 7, and one for an exception that is not tracked.
abbrev requested : List ExcludedCaller
requested =
    record { site_id = first 7; symbol = chars "f" }
    ∷ record { site_id = second (chars "rust_panic"); symbol = chars "g" }
    ∷ []

-- An expression is shown in angle brackets, and one that is empty is malformed.
abbrev show : Chars → Outcome Chars
show [] = panic
show (c ∷ cs) = ok (chars "<" ++ c ∷ cs ++ chars ">")

replaced :
    (replace_logpoint_expressions show (chars "x = {a{b}}, y = {c}")
      ≡ some (chars "x = <a{b}>, y = <c>"))
    × (replace_logpoint_expressions show (chars "{}") ≡ none)
unfolding replace_logpoint_expressions scan on_char on_open on_close value_or_error
replaced = (refl, refl)

replace_logpoint_expressions-first_example :
    replace_logpoint_expressions show (chars "x = {a{b}}!")
    ≡ Option.map (λ t. chars "x = <a{b}>" ++ t) (replace_logpoint_expressions show (chars "!"))
unfolding no_open inside value_or_error
replace_logpoint_expressions-first_example =
    replace_logpoint_expressions-first show (chars "x = ") (chars "a{b}") (chars "!")
      (chars "<a{b}>") refl refl refl
