-- ===== src/Breakpoints/Interface.antt =====
-- What the session keeps of a breakpoint.
use codelldb.Prelude.{ℕ, Option, List}
use codelldb.Prelude.Text.{Chars}

abbrev pub BreakpointId : Type 0
BreakpointId = ℕ

pub data HitCondition : Type 0 where
  lt le eq ge gt modulo : ℕ → HitCondition

pub data BreakpointKind : Type 0 where
  source disassembly instruction function : BreakpointKind
  exception : Chars → BreakpointKind

-- The `SBBreakpoint` that the source keeps beside `id` is the target's breakpoint of that id.
pub record BreakpointInfo : Type 0 where
  pub id : BreakpointId
  pub kind : BreakpointKind
  pub condition : Option Chars
  pub log_message : Option Chars
  pub hit_condition : Option HitCondition
  pub hit_count : ℕ
  pub exclusions : List Chars
