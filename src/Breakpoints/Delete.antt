-- ===== src/Breakpoints/Delete.antt =====
-- The deletion of the breakpoints that are not requested any more.
use codelldb.Prelude.{
  ◌≡◌, inl, inr, refl, ◌∙◌, Bool, true, false, none, [], ◌∷◌, ◌==◌, if◌then◌else◌, arith,
  Bool-cases,
}
use codelldb.Prelude.Equality.{Eq, ℕ_eq}
use codelldb.Prelude.Map.{Map, lookup, contains_key, lookup-remove}
use codelldb.Prelude.Entries.{Entry}
use codelldb.Breakpoints.Interface.{BreakpointId}
use codelldb.Breakpoints.Target.{SbLaws, Env, State}
use codelldb.Breakpoints.Handlers.{delete_one, delete_missing}
use codelldb.Breakpoints.Sync.{OtherTables}

module _ (env : Env) (laws : SbLaws env.sb) {K : Type 0} ⦃e : Eq K⦄ (untrack : Bool)
    (new_bps : Map K BreakpointId) where
  open env use {sb}
  open laws use {next_id}

  abbrev step : K → BreakpointId → State env → State env
  step = delete_one env untrack new_bps

  abbrev pub Stays : Map K BreakpointId → BreakpointId → Type 0
  Stays existing j = (k : K) → Entry k j existing → contains_key k new_bps ≡ true

  step-next_id :
      (k : K) (id : BreakpointId) (s : State env) → next_id (step k id s).target ≡ next_id s.target
  unfolding delete_one
  step-next_id k id s = ground (arith, laws.delete-next_id id s.target)

  step-others : (k : K) (id : BreakpointId) (s : State env) → OtherTables env s (step k id s)
  unfolding delete_one
  step-others k id s = ground arith

  step-find :
      (k : K) (id : BreakpointId) (s : State env) (j : BreakpointId)
      → sb.find (step k id s).target j ≡ (
          if contains_key k new_bps
          then sb.find s.target j
          else if id == j
          then false
          else sb.find s.target j)
  unfolding delete_one
  step-find k id s j = ground (arith, laws.find-delete id s.target j)

  step-infos :
      (k : K) (id : BreakpointId) (s : State env) (j : BreakpointId)
      → lookup j (step k id s).breakpoints.breakpoint_infos ≡ (
          if contains_key k new_bps
          then lookup j s.breakpoints.breakpoint_infos
          else if untrack
          then (if id == j then none else lookup j s.breakpoints.breakpoint_infos)
          else lookup j s.breakpoints.breakpoint_infos)
  unfolding delete_one
  step-infos k id s j = ground (arith, lookup-remove id j s.breakpoints.breakpoint_infos)

  abbrev pub after : Map K BreakpointId → State env → State env
  after existing s = delete_missing env untrack existing new_bps s

  pub delete_missing-next_id :
      (existing : Map K BreakpointId) (s : State env)
      → next_id (after existing s).target ≡ next_id s.target
  unfolding delete_missing
  delete_missing-next_id [] s = refl
  delete_missing-next_id ((k, id) ∷ existing) s =
      delete_missing-next_id existing (step k id s) ∙ step-next_id k id s

  pub delete_missing-others :
      (existing : Map K BreakpointId) (s : State env) → OtherTables env s (after existing s)
  unfolding delete_missing
  delete_missing-others [] s = (refl, refl, refl, refl)
  delete_missing-others ((k, id) ∷ existing) s =
      let a = delete_missing-others existing (step k id s) in
      let b = step-others k id s in (a.0 ∙ b.0, a.1 ∙ b.1, a.2 ∙ b.2, a.3 ∙ b.3)

  find-gone :
      (existing : Map K BreakpointId) (s : State env) (j : BreakpointId)
      → sb.find s.target j ≡ false
      → sb.find (after existing s).target j ≡ false
  unfolding delete_missing
  find-gone [] s j h = h
  find-gone ((k, id) ∷ existing) s j h =
      find-gone existing (step k id s) j (step-find k id s j ∙ ground (arith, h))

  -- What is not asked for any more is deleted.
  pub find-deleted :
      (existing : Map K BreakpointId) (s : State env) (k : K) (j : BreakpointId)
      → Entry k j existing
      → contains_key k new_bps ≡ false
      → sb.find (after existing s).target j ≡ false
  unfolding delete_missing
  find-deleted [] s k j h gone = elim h [ ]
  find-deleted ((i, id) ∷ existing) s k j (inl h) gone =
      let key : contains_key i new_bps ≡ false = rw h.0 gone in
      find-gone existing (step i id s) j (step-find i id s j ∙ ground (arith, key, h.1))
  find-deleted ((i, id) ∷ existing) s k j (inr h) gone =
      find-deleted existing (step i id s) k j h gone

  -- What no entry deletes stays.
  pub find-kept :
      (existing : Map K BreakpointId) (s : State env) (j : BreakpointId)
      → Stays existing j
      → sb.find (after existing s).target j ≡ sb.find s.target j
  unfolding delete_missing
  find-kept [] s j h = refl
  find-kept ((i, id) ∷ existing) s j h =
      find-kept existing (step i id s) j (λ k en. h k (inr en))
      ∙ (step-find i id s j ∙ elim (Bool-cases (id == j)) [
        | inl same ↦ (let key = h i (inl (refl, ground arith)) in ground (arith, key))
        | inr other ↦ ground (arith, other)
      ])

  pub infos-kept :
      (existing : Map K BreakpointId) (s : State env) (j : BreakpointId)
      → Stays existing j
      → lookup j (after existing s).breakpoints.breakpoint_infos
        ≡ lookup j s.breakpoints.breakpoint_infos
  unfolding delete_missing
  infos-kept [] s j h = refl
  infos-kept ((i, id) ∷ existing) s j h =
      infos-kept existing (step i id s) j (λ k en. h k (inr en))
      ∙ (step-infos i id s j ∙ elim (Bool-cases (id == j)) [
        | inl same ↦ (let key = h i (inl (refl, ground arith)) in ground (arith, key))
        | inr other ↦ ground (arith, other)
      ])

  infos-gone :
      (existing : Map K BreakpointId) (s : State env) (j : BreakpointId)
      → lookup j s.breakpoints.breakpoint_infos ≡ none
      → lookup j (after existing s).breakpoints.breakpoint_infos ≡ none
  unfolding delete_missing
  infos-gone [] s j h = h
  infos-gone ((k, id) ∷ existing) s j h =
      infos-gone existing (step k id s) j (step-infos k id s j ∙ ground (arith, h))

  -- With untracking, what is deleted is not tracked any more.
  pub infos-deleted :
      (existing : Map K BreakpointId) (s : State env) (k : K) (j : BreakpointId)
      → untrack ≡ true
      → Entry k j existing
      → contains_key k new_bps ≡ false
      → lookup j (after existing s).breakpoints.breakpoint_infos ≡ none
  unfolding delete_missing
  infos-deleted [] s k j t h gone = elim h [ ]
  infos-deleted ((i, id) ∷ existing) s k j t (inl h) gone =
      let key : contains_key i new_bps ≡ false = rw h.0 gone in
      infos-gone existing (step i id s) j (step-infos i id s j ∙ ground (arith, key, h.1, t))
  infos-deleted ((i, id) ∷ existing) s k j t (inr h) gone =
      infos-deleted existing (step i id s) k j t h gone

  -- Without untracking, the tracked breakpoints stay.
  pub infos-left :
      (existing : Map K BreakpointId) (s : State env) (j : BreakpointId)
      → untrack ≡ false
      → lookup j (after existing s).breakpoints.breakpoint_infos
        ≡ lookup j s.breakpoints.breakpoint_infos
  unfolding delete_missing
  infos-left [] s j t = refl
  infos-left ((i, id) ∷ existing) s j t =
      infos-left existing (step i id s) j t ∙ (step-infos i id s j ∙ ground (arith, t))
