-- ===== src/Breakpoints/Refines.antt =====
-- What a handler that sets breakpoints promises: the target has exactly the breakpoints that the client
-- asked for.
use mathlib.Core.Path.{subst}
use codelldb.Prelude.{◌<◌, ◌≡◌, some, inl, inr, ◌∙◌, Bool, true, false, List, [], arith, Bool-cases}
use codelldb.Prelude.Equality.{Eq, ℕ_eq}
use codelldb.Prelude.Map.{Map, lookup, has, contains_key, lookup-empty}
use codelldb.Prelude.Entries.{Entry, Entry-contains_key}
use codelldb.Breakpoints.Interface.{BreakpointId}
use codelldb.Breakpoints.Target.{SbLaws, Env, Response, State}
use codelldb.Breakpoints.Handlers.{delete_missing}
use codelldb.Breakpoints.Sync.{IsTable}
use codelldb.Breakpoints.Loop.{Looped, Keyed}
use codelldb.Breakpoints.Delete.{Stays, delete_missing-next_id, find-deleted, find-kept, infos-kept}

module _ (env : Env) (laws : SbLaws env.sb) {K : Type 0} ⦃e : Eq K⦄ where
  open env use {sb}
  open laws use {next_id}

  -- From the table `existing` in the state `s` to the table `new_bps` in the state `u`: a key is in
  -- the table if it was asked for; what is in the table is in the target and tracked; what was in the
  -- table and was not asked for is deleted; what was in the table, is in the target and was asked for
  -- is used again; other breakpoints are left, in the target and in what is tracked; the table is
  -- valid again.
  pub record Refines {Req : Type 0} (key : Req → K) (reqs : List Req)
      (existing : Map K BreakpointId) (s : State env) (new_bps : Map K BreakpointId) (u : State env)
      : Type 0 where
    pub asked : (k : K) → Keyed env laws key k reqs → contains_key k new_bps ≡ true
    pub only : (k : K) → contains_key k new_bps ≡ true → Keyed env laws key k reqs
    pub live : (k : K) (id : BreakpointId) → Entry k id new_bps → sb.find u.target id ≡ true
    pub tracked :
        (k : K) (id : BreakpointId)
        → Entry k id new_bps
        → has (lookup id u.breakpoints.breakpoint_infos) ≡ true
    pub deleted :
        (k : K) (id : BreakpointId)
        → Entry k id existing
        → (Keyed env laws key k reqs → ⊥)
        → sb.find u.target id ≡ false
    pub others :
        (id : BreakpointId)
        → id < next_id s.target
        → ((k : K) → Entry k id existing → ⊥)
        → sb.find u.target id ≡ sb.find s.target id
    pub others_tracked :
        (id : BreakpointId)
        → id < next_id s.target
        → ((k : K) → Entry k id existing → ⊥)
        → lookup id u.breakpoints.breakpoint_infos ≡ lookup id s.breakpoints.breakpoint_infos
    pub reused :
        (k : K) (id : BreakpointId)
        → lookup k existing ≡ some id
        → sb.find s.target id ≡ true
        → Keyed env laws key k reqs
        → lookup k new_bps ≡ some id
    pub is_table : IsTable env laws new_bps u

  module _ {Req : Type 0} (key : Req → K) (reqs : List Req) (existing : Map K BreakpointId)
      (s u : State env) (out : List Response × Map K BreakpointId) (untrack : Bool)
      (table : IsTable env laws existing s)
      (loop : Looped env laws existing key reqs [] s out u) where
    new-Stays :
        (k : K) (id : BreakpointId) → Entry k id out.1 → Stays env laws untrack out.1 existing id
    new-Stays k id h j en = elim (loop.synced.origin k id h) [
      | inl was ↦
          subst (λ i. contains_key i out.1 ≡ true) (table.apart k j id was en)
            (Entry-contains_key k id out.1 h)
      | inr fresh ↦ (let a = table.below j id en in let no : ⊥ = omega arith in elim no [ ])
    ]

    only-asked : (k : K) → contains_key k out.1 ≡ true → Keyed env laws key k reqs
    unfolding contains_key
    only-asked k h = elim (loop.only k h) [
      | inl asked ↦ asked
      | inr start ↦
          (let no : ⊥ = ground (arith, start, lookup-empty {V = BreakpointId} k) in elim no [ ])
    ]

    pub not-asked : (k : K) → (Keyed env laws key k reqs → ⊥) → contains_key k out.1 ≡ false
    not-asked k h = elim (Bool-cases (contains_key k out.1)) [
      | inl there ↦ (let no = h (only-asked k there) in elim no [ ])
      | inr gone ↦ gone
    ]

    pub Looped-Refines :
        Refines key reqs existing s out.1 (delete_missing env untrack existing out.1 u)
    Looped-Refines = record {
      asked = λ k h. loop.asked k (inl h);
      only = only-asked;
      live = λ k id h.
          find-kept env laws untrack out.1 existing u id (new-Stays k id h)
          ∙ loop.synced.found k id h;
      tracked = λ k id h.
          rw (infos-kept env laws untrack out.1 existing u id (new-Stays k id h))
            (loop.synced.tracked k id h);
      deleted = λ k id h no. find-deleted env laws untrack out.1 existing u k id h (not-asked k no);
      others = λ id lt no.
          find-kept env laws untrack out.1 existing u id (λ k en. elim (no k en) [ ])
          ∙ loop.synced.old id lt;
      others_tracked = λ id lt no.
          infos-kept env laws untrack out.1 existing u id (λ k en. elim (no k en) [ ])
          ∙ loop.synced.old_infos id lt no;
      reused = λ k id h there asked. loop.synced.reuses k id h there (loop.asked k (inl asked));
      is_table = record {
        below = λ k id h.
            rw (delete_missing-next_id env laws untrack out.1 existing u)
              (loop.synced.is_table.below k id h);
        apart = loop.synced.is_table.apart;
      };
    }
