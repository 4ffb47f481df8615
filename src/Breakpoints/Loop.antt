-- ===== src/Breakpoints/Loop.antt =====
-- The loop over the requests: its table has the keys that were asked for.
use mathlib.Core.Path.{subst}
use codelldb.Prelude.{
  suc, ◌≡◌, ◌⊎◌, inl, inr, refl, sym, ◌∙◌, ap, true, List, [], ◌∷◌, length, arith, All,
}
use codelldb.Prelude.Equality.{Eq, ℕ_eq}
use codelldb.Prelude.Map.{Map, lookup, insert, contains_key, lookup-insert}
use codelldb.Prelude.Done.{Done, Done-pure, Done-bind}
use codelldb.Breakpoints.Interface.{BreakpointId}
use codelldb.Breakpoints.Target.{SbLaws, Env, Response, State, M}
use codelldb.Breakpoints.Handlers.{each_request}
use codelldb.Breakpoints.Establish.{Established}
use codelldb.Breakpoints.Sync.{IsTable, Synced, Synced-step}

module _ (env : Env) (laws : SbLaws env.sb) {K : Type 0} ⦃e : Eq K⦄ where
  open env use {sb}
  open laws use {next_id}

  -- What `one` does with a request, in any state: it fits the loop.
  abbrev pub Fits :
      {Req : Type 0}
      → Map K BreakpointId
      → (Req → M env (K × Response × BreakpointId))
      → (Req → K)
      → Req
      → Type 0
  Fits existing one key req =
      (s : State env)
      → Done (one req) s
          (λ out u. (out.0 ≡ key req) × Established env laws (lookup (key req) existing) s out.2 u)

  -- The keys of the new table, beside those that were there.
  abbrev pub Keyed : {Req : Type 0} → (Req → K) → K → List Req → Type 0
  Keyed key k [] = ⊥
  Keyed key k (req ∷ reqs) = (key req ≡ k) ⊎ Keyed key k reqs

  -- The loop's result: a response for each request, and a table whose keys are those asked for.
  pub record Looped {Req : Type 0} (existing : Map K BreakpointId) (key : Req → K) (reqs : List Req)
      (start : Map K BreakpointId) (s : State env) (out : List Response × Map K BreakpointId)
      (u : State env) : Type 0 where
    pub responses : length out.0 ≡ length reqs
    pub synced : Synced env laws existing s out.1 u
    pub asked :
        (k : K) → Keyed key k reqs ⊎ (contains_key k start ≡ true) → contains_key k out.1 ≡ true
    pub only :
        (k : K) → contains_key k out.1 ≡ true → Keyed key k reqs ⊎ (contains_key k start ≡ true)

  contains_key-insert :
      (k j : K) (id : BreakpointId) (m : Map K BreakpointId)
      → ((contains_key k (insert j id m) ≡ true) → (j ≡ k) ⊎ (contains_key k m ≡ true))
        × ((j ≡ k) ⊎ (contains_key k m ≡ true) → contains_key k (insert j id m) ≡ true)
  unfolding contains_key
  contains_key-insert k j id m = (
    λ h. ground (arith, h, lookup-insert j k id m, e.eqb_iff j k),
    λ h. ground (arith, h, lookup-insert j k id m, e.eqb_iff j k),
  )

  module _ {Req : Type 0} (existing : Map K BreakpointId)
      (one : Req → M env (K × Response × BreakpointId)) (key : Req → K) where
    pub each_request-Done :
        (reqs : List Req) (new_bps : Map K BreakpointId) (s t : State env)
        → All (Fits existing one key) reqs
        → IsTable env laws existing s
        → Synced env laws existing s new_bps t
        → Done (each_request env one reqs new_bps) t (Looped existing key reqs new_bps s)
    unfolding each_request
    each_request-Done [] new_bps s t fits table so_far =
        Done-pure ([], new_bps) t _
          (record {
            responses = refl;
            synced = so_far;
            asked = λ k h. elim h [ inl no_key ↦ elim no_key [ ] | inr there ↦ there ];
            only = λ k h. inr h;
          })
    each_request-Done (req ∷ reqs) new_bps s t fits table so_far =
        Done-bind (one req) _ t _ (fits.0 t) (λ made u fit.
          let here =
            subst (λ k. Established env laws (lookup k existing) t made.2 u) (sym fit.0) fit.1 in
          Done-bind (each_request env one reqs (insert made.0 made.2 new_bps)) _ u _
            (each_request-Done reqs (insert made.0 made.2 new_bps) s u fits.1 table
              (Synced-step env laws existing new_bps s t u made.0 made.2 table so_far here))
            (λ rest v done.
              Done-pure (made.1 ∷ rest.0, rest.1) v _
                (record {
                  responses = ap (λ n. suc n) done.responses;
                  synced = done.synced;
                  asked = λ k h. done.asked k (elim h [
                    | inl (inl same) ↦
                        inr ((contains_key-insert k made.0 made.2 new_bps).1 (inl (fit.0 ∙ same)))
                    | inl (inr later) ↦ inl later
                    | inr there ↦ inr ((contains_key-insert k made.0 made.2 new_bps).1 (inr there))
                  ]);
                  only = λ k h. elim (done.only k h) [
                    | inl later ↦ inl (inr later)
                    | inr there ↦ elim ((contains_key-insert k made.0 made.2 new_bps).0 there) [
                      | inl same ↦ inl (inl (sym fit.0 ∙ same))
                      | inr before ↦ inr before
                    ]
                  ];
                })))
