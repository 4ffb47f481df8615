-- ===== src/Breakpoints/Counts.antt =====
-- What a hit does to the hit counts: which hits are counted, and that nothing else changes.
use codelldb.Prelude.{
  ◌≡◌, ◌↔◌, ◌⊎◌, inl, inr, refl, true, false, Option, none, some, List, [], ◌∷◌, arith, Bool-cases,
}
use codelldb.Prelude.Equality.{ℕ_eq, list_eq, list_eqb_iff}
use codelldb.Prelude.Map.{Map, lookup, insert}
use codelldb.Prelude.Text.{Chars}
use codelldb.Breakpoints.Interface.{BreakpointId, BreakpointInfo}
use codelldb.Breakpoints.Hit.{
  Evaluated, value, failed, Console, condition_error, HitState, HitContext, stop_now, pass_over,
  count_it, counted, on_stack, is_excluded, check_condition, stop_or_log, check_hit_condition,
  hit_tracked, on_breakpoint_hit,
}

abbrev pub OnStack : List Chars → Chars → Type 0
OnStack [] e = ⊥
OnStack (t ∷ ts) e = (t ≡ e) ⊎ OnStack ts e

abbrev pub Excluded : List Chars → List Chars → Type 0
Excluded symbols [] = ⊥
Excluded symbols (e ∷ es) = OnStack symbols e ⊎ Excluded symbols es

on_stack_iff : (ts : List Chars) (e : Chars) → (on_stack ts e ≡ true) ↔ OnStack ts e
unfolding on_stack
on_stack_iff [] e = ground arith
on_stack_iff (t ∷ ts) e = ground (arith, list_eqb_iff t e, on_stack_iff ts e)

is_excluded_iff : (ts es : List Chars) → (is_excluded ts es ≡ true) ↔ Excluded ts es
unfolding is_excluded
is_excluded_iff ts [] = ground arith
is_excluded_iff ts (e ∷ es) = ground (arith, on_stack_iff ts e, is_excluded_iff ts es)

-- A condition for the callback, where there is Python and it evaluates to true.
abbrev pub Holds : Option (Chars → Evaluated) → Option Chars → Type 0
Holds python none = Unit
Holds none (some code) = ⊥
Holds (some evaluate) (some code) = evaluate code ≡ value true

Evaluated-cases :
    (e : Evaluated) → (e ≡ value true) ⊎ ((e ≡ value false) ⊎ ((m : Chars) × (e ≡ failed m)))
Evaluated-cases (value true) = inl refl
Evaluated-cases (value false) = inr (inl refl)
Evaluated-cases (failed m) = inr (inr (m, refl))

-- What a condition comes to.
condition-cases :
    (python : Option (Chars → Evaluated)) (py : Option Chars)
    → ((check_condition python py ≡ count_it) × Holds python py)
      ⊎ (((check_condition python py ≡ pass_over)
            ⊎ ((out : List Console) × (check_condition python py ≡ stop_now out)))
          × (Holds python py → ⊥))
unfolding check_condition
condition-cases python none = inl (refl, tt)
condition-cases none (some code) = inr (inr ([], refl), λ h. h)
condition-cases (some evaluate) (some code) = elim (Evaluated-cases (evaluate code)) [
  | inl holds ↦ inl (rw (holds, check_condition) refl, holds)
  | inr (inl fails) ↦ inr (inl (rw (fails, check_condition) refl), λ h. cc)
  | inr (inr (m, broken)) ↦
      inr (inr ((condition_error m ∷ []), rw (broken, check_condition) refl), λ h. cc)
]

module _ (ctx : HitContext) (py : Option Chars) (id : BreakpointId) (s : HitState)
    (info : BreakpointInfo) where
  abbrev infos_after : Map BreakpointId BreakpointInfo
  infos_after = (hit_tracked ctx py id info s).1.breakpoint_infos

  excluded_infos :
      is_excluded ctx.symbols_on_stack info.exclusions ≡ true → infos_after ≡ s.breakpoint_infos
  unfolding hit_tracked
  excluded_infos h = rw (h, infos_after, hit_tracked) refl

  passed_infos :
      is_excluded ctx.symbols_on_stack info.exclusions ≡ false
      → (check_condition ctx.python py ≡ pass_over)
        ⊎ ((out : List Console) × (check_condition ctx.python py ≡ stop_now out))
      → infos_after ≡ s.breakpoint_infos
  unfolding hit_tracked
  passed_infos h (inl c) = rw (h, c, infos_after, hit_tracked) refl
  passed_infos h (inr (out, c)) = rw (h, c, infos_after, hit_tracked) refl

  counted_infos :
      is_excluded ctx.symbols_on_stack info.exclusions ≡ false
      → check_condition ctx.python py ≡ count_it
      → infos_after ≡ insert id (counted info) s.breakpoint_infos
  unfolding hit_tracked check_hit_condition stop_or_log
  counted_infos h c = rw (h, c, infos_after, hit_tracked) (ground arith)

  -- A hit of a tracked breakpoint is counted, in that breakpoint alone, if no symbol on the stack is
  -- among its exclusions and its condition, if it is one for the callback, evaluates to true; any
  -- other hit leaves the tracked breakpoints as they are.
  pub hit_counts :
      lookup id s.breakpoint_infos ≡ some info
      → let infos = (on_breakpoint_hit ctx py id s).1.breakpoint_infos in
        ((Excluded ctx.symbols_on_stack info.exclusions ⊎ (Holds ctx.python py → ⊥))
          × (infos ≡ s.breakpoint_infos))
        ⊎ ((Excluded ctx.symbols_on_stack info.exclusions → ⊥)
            × Holds ctx.python py
            × (infos ≡ insert id (counted info) s.breakpoint_infos))
  unfolding on_breakpoint_hit
  hit_counts tracked =
      let excluded = is_excluded_iff ctx.symbols_on_stack info.exclusions in
      rw (tracked, on_breakpoint_hit)
        elim (Bool-cases (is_excluded ctx.symbols_on_stack info.exclusions)) [
          | inl yes_excluded ↦ inl (inl (excluded.0 yes_excluded), excluded_infos yes_excluded)
          | inr no_excluded ↦ elim (condition-cases ctx.python py) [
            | inl (counts, holds) ↦ inr (λ e. ground arith, holds, counted_infos no_excluded counts)
            | inr (passes, fails) ↦ inl (inr fails, passed_infos no_excluded passes)
          ]
        ]
