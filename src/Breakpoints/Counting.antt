-- ===== src/Breakpoints/Counting.antt =====
-- Which hits of a breakpoint stop, over a run of hits.
use native.Mathlib.Nat.{div-add-mod, mul-mod_left}
use codelldb.Prelude.{
  ap, ◌↔◌, Option, Option-cases, some_eq, Bool-cases, ℕ, zero, suc, ◌+◌, ◌*◌, ◌%◌, ◌/◌, ◌^◌, ◌≤◌,
  ◌<◌, ◌≡◌, ◌≢◌, ◌⊎◌, inl, inr, refl, sym, Bool, true, false, none, some, [], ◌==◌, arith,
}
use codelldb.Prelude.Equality.{ℕ_eq}
use codelldb.Prelude.Map.{lookup, insert, lookup-insert_self}
use codelldb.Prelude.Exec.{panic, ok}
use codelldb.Breakpoints.Interface.{
  BreakpointId, HitCondition, lt, le, eq, ge, gt, modulo, BreakpointInfo,
}
use codelldb.Breakpoints.Hit.{
  hit_test, HitState, HitContext, counted, is_excluded, check_condition, stop_or_log,
  check_hit_condition, hit_tracked, on_breakpoint_hit,
}

-- When the `k`-th hit stops.
abbrev pub Meets : HitCondition → ℕ → Type 0
Meets (lt n) k = k < n
Meets (le n) k = k ≤ n
Meets (eq n) k = k ≡ n
Meets (ge n) k = n ≤ k
Meets (gt n) k = n < k
Meets (modulo n) k = (q : ℕ) × (k ≡ q * n)

-- A remainder by zero is no condition.
abbrev pub IsProper : HitCondition → Type 0
IsProper (modulo n) = n ≢ 0
IsProper _ = Unit

hit_test-Meets :
    (c : HitCondition) (k : ℕ)
    → IsProper c
    → ((hit_test c k ≡ some true) × Meets c k) ⊎ ((hit_test c k ≡ some false) × (Meets c k → ⊥))
unfolding hit_test
hit_test-Meets (lt n) k h = ground arith
hit_test-Meets (modulo n) k h = elim (Bool-cases (k % n == 0)) [
  | inl even ↦ inl (ground arith, (k / n, grind (arith, div-add-mod k n)))
  | inr odd ↦ inr (ground arith, λ m. grind (arith, mul-mod_left m.0 n))
]
hit_test-Meets c k h = ground arith

-- A plain breakpoint: tracked under its id, no exclusion, no log message.
pub record IsPlain (s : HitState) (id : BreakpointId) (info : BreakpointInfo) : Type 0 where
  pub tracked : lookup id s.breakpoint_infos ≡ some info
  pub no_exclusion : info.exclusions ≡ []
  pub no_log : info.log_message ≡ none

-- `n` hits without a Python condition, one after another.
unfoldable pub hits : HitContext → BreakpointId → ℕ → HitState → HitState
hits ctx id zero s = s
hits ctx id (suc n) s = hits ctx id n (on_breakpoint_hit ctx none id s).1

-- Where a counted hit leaves the table.
abbrev after : HitState → BreakpointId → BreakpointInfo → HitState
after s id info = record s { breakpoint_infos = insert id (counted info) s.breakpoint_infos }

module _ (ctx : HitContext) (s : HitState) (id : BreakpointId) (info : BreakpointInfo)
    (plain : IsPlain s id info) where
  -- A hit of a plain breakpoint is counted, and its hit condition alone decides.
  plain_hit :
      on_breakpoint_hit ctx none id s ≡ check_hit_condition ctx (counted info) (after s id info)
  unfolding on_breakpoint_hit hit_tracked is_excluded check_condition
  plain_hit = rw (plain.tracked, plain.no_exclusion, on_breakpoint_hit, hit_tracked) refl

  plain_state : (on_breakpoint_hit ctx none id s).1 ≡ after s id info
  unfolding check_hit_condition stop_or_log counted
  plain_state = rw plain_hit (ground (arith, plain.no_log))

  IsPlain-after : IsPlain (after s id info) id (counted info)
  unfolding counted
  IsPlain-after = record {
    tracked = lookup-insert_self id (counted info) s.breakpoint_infos;
    no_exclusion = plain.no_exclusion;
    no_log = plain.no_log;
  }

  -- Without a hit condition every hit stops; with one, those that meet it.
  plain_outcome :
      (c : HitCondition)
      → info.hit_condition ≡ some c
      → (b : Bool) → hit_test c (counted info).hit_count ≡ some b
      → (on_breakpoint_hit ctx none id s).0 ≡ ok b
  unfolding check_hit_condition stop_or_log counted
  plain_outcome c has b decided = rw plain_hit (ground (arith, plain.no_log))

hit_test_panics : (c : HitCondition) (k : ℕ) → (hit_test c k ≡ none) ↔ (c ≡ modulo 0)
unfolding hit_test
hit_test_panics (lt n) k = (λ e. cc, λ e. cc)
hit_test_panics (le n) k = (λ e. cc, λ e. cc)
hit_test_panics (eq n) k = (λ e. cc, λ e. cc)
hit_test_panics (ge n) k = (λ e. cc, λ e. cc)
hit_test_panics (gt n) k = (λ e. cc, λ e. cc)
hit_test_panics (modulo zero) k = (λ e. refl, λ e. refl)
hit_test_panics (modulo (suc n)) k = (λ e. ground arith, λ e. cc)

module _ (ctx : HitContext) (s : HitState) (id : BreakpointId) (info : BreakpointInfo)
    (plain : IsPlain s id info) where
  condition_panics :
      (o : Option HitCondition)
      → info.hit_condition ≡ o
      → ((check_hit_condition ctx (counted info) (after s id info)).0 ≡ panic)
        ↔ (o ≡ some (modulo 0))
  unfolding check_hit_condition stop_or_log counted
  condition_panics none e =
      let stops : (check_hit_condition ctx (counted info) (after s id info)).0 ≡ ok true =
        ground (arith, plain.no_log) in
      (λ h. cc, λ h. cc)
  condition_panics (some c) e = elim (Option-cases (hit_test c (counted info).hit_count)) [
    | inl crashes ↦ (
      λ h. ap (λ d. some d) ((hit_test_panics c (counted info).hit_count).0 crashes),
      λ h. ground arith,
    )
    | inr (b, decides) ↦
        let goes_on : (check_hit_condition ctx (counted info) (after s id info)).0 ≡ ok b =
          ground (arith, plain.no_log) in
        (
          λ h. cc,
          λ h. (let zero_test = (hit_test_panics c (counted info).hit_count).1 (some_eq h) in cc),
        )
  ]

  -- A hit of a tracked breakpoint without exclusions, a log message or a Python condition panics
  -- exactly if its hit condition is a remainder by zero.
  pub hit_panics :
      ((on_breakpoint_hit ctx none id s).0 ≡ panic) ↔ (info.hit_condition ≡ some (modulo 0))
  hit_panics = rw (plain_hit ctx s id info plain) (condition_panics info.hit_condition refl)

-- A tracked breakpoint without exclusions, a log message or a Python condition, whose hit condition
-- is not a remainder by zero: after any `n` hits the next one stops the debuggee if the number of
-- hits counted by then meets the condition, and passes over it if not, as long as that number is
-- below 2 ^ 32.
pub nth_hit :
    (ctx : HitContext) (c : HitCondition) (n : ℕ) (s : HitState) (id : BreakpointId)
    (info : BreakpointInfo)
    → IsPlain s id info
    → info.hit_condition ≡ some c
    → IsProper c
    → info.hit_count + n + 1 < 2 ^ 32
    → let next = (on_breakpoint_hit ctx none id (hits ctx id n s)).0 in
      ((next ≡ ok true) × Meets c (info.hit_count + n + 1))
      ⊎ ((next ≡ ok false) × (Meets c (info.hit_count + n + 1) → ⊥))
unfolding hits counted
nth_hit ctx c zero s id info plain has proper small =
    let k_eq : (counted info).hit_count ≡ info.hit_count + 0 + 1 = ground arith in
    elim (hit_test-Meets c (info.hit_count + 0 + 1) proper) [
      | inl (met, m) ↦ inl (plain_outcome ctx s id info plain c has true (rw k_eq met), m)
      | inr (unmet, m) ↦ inr (plain_outcome ctx s id info plain c has false (rw k_eq unmet), m)
    ]
nth_hit ctx c (suc n) s id info plain has proper small =
    let one : (counted info).hit_count ≡ info.hit_count + 1 = ground arith in
    let sum : (counted info).hit_count + n + 1 ≡ info.hit_count + suc n + 1 =
      rw one (omega arith) in
    let later =
      nth_hit ctx c n (after s id info) id (counted info) (IsPlain-after ctx s id info plain) has
        proper (rw sum small) in
    rw (plain_state ctx s id info plain, sym sum) later
