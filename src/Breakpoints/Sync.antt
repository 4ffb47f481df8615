-- ===== src/Breakpoints/Sync.antt =====
-- How far the loop over the requests has come: the new table names breakpoints that the target has, one
-- for each key.
use mathlib.Core.Path.{subst}
use codelldb.Prelude.{
  ◌≤◌, ◌<◌, ◌≡◌, ◌≢◌, some, Bool-cases, ◌⊎◌, inl, inr, refl, sym, ◌∙◌, ap, true, [], arith,
}
use codelldb.Prelude.Equality.{Eq, ℕ_eq, ◌≐◌}
use codelldb.Prelude.Map.{
  Map, lookup, insert, has, contains_key, lookup-insert, lookup-insert_ne, lookup-empty,
}
use codelldb.Prelude.Entries.{Entry, lookup-Entry, Entry-insert}
use codelldb.Breakpoints.Interface.{BreakpointId}
use codelldb.Breakpoints.Target.{Breakpoints, SbLaws, Env, State}
use codelldb.Breakpoints.Establish.{Established}

module _ (env : Env) where
  -- All tables but that of what is tracked.
  abbrev pub OtherTables : State env → State env → Type 0
  OtherTables s u =
      (u.breakpoints.source ≡ s.breakpoints.source)
      × (u.breakpoints.assembly ≡ s.breakpoints.assembly)
      × (u.breakpoints.instruction ≡ s.breakpoints.instruction)
      × (u.breakpoints.function ≡ s.breakpoints.function)

module _ (env : Env) (laws : SbLaws env.sb) {K : Type 0} ⦃e : Eq K⦄ where
  open env use {sb}
  open laws use {next_id}

  -- A table whose ids are in use, each under one key.
  pub record IsTable (table : Map K BreakpointId) (s : State env) : Type 0 where
    pub below : (k : K) (id : BreakpointId) → Entry k id table → id < next_id s.target
    pub apart : (k j : K) (id : BreakpointId) → Entry k id table → Entry j id table → k ≡ j

  -- How far the loop has come, from the state `s` to the state `u`.
  pub record Synced (existing : Map K BreakpointId) (s : State env) (new_bps : Map K BreakpointId)
      (u : State env) : Type 0 where
    pub others : OtherTables env s u
    pub found : (k : K) (id : BreakpointId) → Entry k id new_bps → sb.find u.target id ≡ true
    pub tracked :
        (k : K) (id : BreakpointId)
        → Entry k id new_bps
        → has (lookup id u.breakpoints.breakpoint_infos) ≡ true
    pub still_tracked :
        (j : BreakpointId)
        → has (lookup j s.breakpoints.breakpoint_infos) ≡ true
        → has (lookup j u.breakpoints.breakpoint_infos) ≡ true
    pub origin :
        (k : K) (id : BreakpointId)
        → Entry k id new_bps
        → Entry k id existing ⊎ (next_id s.target ≤ id)
    pub is_table : IsTable new_bps u
    pub old_infos :
        (j : BreakpointId)
        → j < next_id s.target
        → ((k : K) → Entry k j existing → ⊥)
        → lookup j u.breakpoints.breakpoint_infos ≡ lookup j s.breakpoints.breakpoint_infos
    pub reuses :
        (k : K) (id : BreakpointId)
        → lookup k existing ≡ some id
        → sb.find s.target id ≡ true
        → contains_key k new_bps ≡ true
        → lookup k new_bps ≡ some id
    pub old : (j : BreakpointId) → j < next_id s.target → sb.find u.target j ≡ sb.find s.target j
    pub ids : next_id s.target ≤ next_id u.target

  pub Synced-start : (existing : Map K BreakpointId) (s : State env) → Synced existing s [] s
  unfolding contains_key
  Synced-start existing s = record {
    others = (refl, refl, refl, refl);
    found = λ k id h. elim h [ ];
    tracked = λ k id h. elim h [ ];
    still_tracked = λ j h. h;
    origin = λ k id h. elim h [ ];
    is_table = record { below = λ k id h. elim h [ ]; apart = λ k j id h. elim h [ ] };
    old_infos = λ j lt no. refl;
    reuses = λ k id h there c. ground (arith, c, lookup-empty {V = BreakpointId} k);
    old = λ j h. refl;
    ids = omega arith;
  }

  module _ (existing new_bps : Map K BreakpointId) (s t u : State env) (k : K) (id : BreakpointId)
      (table : IsTable existing s) (so_far : Synced existing s new_bps t)
      (made : Established env laws (lookup k existing) t id u) where
    new-origin : Entry k id existing ⊎ (next_id s.target ≤ id)
    new-origin = elim (made.comes) [
      | inl there ↦ inl (lookup-Entry k id existing there.0)
      | inr fresh ↦ inr (let a = so_far.ids in let b = fresh.0 in omega arith)
    ]

    -- The new id under another key of the table would have been that key's before.
    new-apart : (j : K) → Entry j id new_bps → k ≡ j
    new-apart j h = elim (made.comes) [
      | inr fresh ↦
          (let a = so_far.is_table.below j id h in
            let b = fresh.0 in let no : ⊥ = omega arith in elim no [ ])
      | inl there ↦
          let mine : Entry k id existing = lookup-Entry k id existing there.0 in
          elim (so_far.origin j id h) [
            | inl theirs ↦ table.apart k j id mine theirs
            | inr fresh ↦ (let a = table.below k id mine in let no : ⊥ = omega arith in elim no [ ])
          ]
    ]

    -- An id that was known to be found still is.
    still-found : (i : BreakpointId) → sb.find t.target i ≡ true → sb.find u.target i ≡ true
    still-found i h = made.finds i ∙ ground (arith, h)

    step-others : OtherTables env s u
    step-others =
        let b = so_far.others in
        (
          ap (λ (x : Breakpoints). x.source) made.tables ∙ b.0,
          ap (λ (x : Breakpoints). x.assembly) made.tables ∙ b.1,
          ap (λ (x : Breakpoints). x.instruction) made.tables ∙ b.2,
          ap (λ (x : Breakpoints). x.function) made.tables ∙ b.3,
        )

    step-tracked :
        (i : BreakpointId)
        → (id ≡ i) ⊎ (has (lookup i t.breakpoints.breakpoint_infos) ≡ true)
        → has (lookup i u.breakpoints.breakpoint_infos) ≡ true
    step-tracked i h =
        let infos : u.breakpoints.breakpoint_infos
            ≡ insert id made.info t.breakpoints.breakpoint_infos =
          ap (λ (x : Breakpoints). x.breakpoint_infos) made.tables in
        rw infos (ground (arith, lookup-insert id i made.info t.breakpoints.breakpoint_infos, h))

    step-old : (j : BreakpointId) → j < next_id s.target → sb.find u.target j ≡ sb.find s.target j
    step-old j lt = elim (made.comes) [
      | inl there ↦
          made.finds j
          ∙ ground (arith, so_far.old j lt, there.1, ap (sb.find t.target) {x = id} {y = j})
      | inr fresh ↦
          (let a = so_far.ids in let b = fresh.0 in made.finds j ∙ ground (arith, so_far.old j lt))
    ]

    -- What no entry of the table names is another breakpoint than the one established.
    step-other :
        (j : BreakpointId) → j < next_id s.target → ((i : K) → Entry i j existing → ⊥) → id ≢ j
    step-other j lt unnamed e = elim (made.comes) [
      | inl there ↦
          unnamed k (subst (λ x. Entry k x existing) e (lookup-Entry k id existing there.0))
      | inr fresh ↦ (let a = so_far.ids in let b = fresh.0 in omega arith)
    ]

    step-old_infos :
        (j : BreakpointId)
        → j < next_id s.target
        → ((i : K) → Entry i j existing → ⊥)
        → lookup j u.breakpoints.breakpoint_infos ≡ lookup j s.breakpoints.breakpoint_infos
    step-old_infos j lt unnamed =
        ap (λ (x : Breakpoints). lookup j x.breakpoint_infos) made.tables
        ∙ (lookup-insert_ne id j made.info t.breakpoints.breakpoint_infos (step-other j lt unnamed)
            ∙ so_far.old_infos j lt unnamed)

    -- A breakpoint of the table that the target has is the one established.
    step-reused :
        (i : BreakpointId) → lookup k existing ≡ some i → sb.find s.target i ≡ true → id ≡ i
    step-reused i h there = elim (made.comes) [
      | inl mine ↦ ground (arith, mine.0, h)
      | inr fresh ↦
          let before = so_far.old i (laws.find-next_id s.target i there) in
          let gone = fresh.1 i h in let no : ⊥ = ground (arith, before, gone, there) in elim no [ ]
    ]

    step-reuses :
        (j : K) (i : BreakpointId)
        → lookup j existing ≡ some i
        → sb.find s.target i ≡ true
        → contains_key j (insert k id new_bps) ≡ true
        → lookup j (insert k id new_bps) ≡ some i
    unfolding contains_key
    step-reuses j i h there c = elim (Bool-cases (k ≐ j)) [
      | inl same ↦
          let q = (e.eqb_iff k j).0 same in
          let mine = step-reused i (ap (λ x. lookup x existing) q ∙ h) there in
          ground (arith, lookup-insert k j id new_bps, same, mine)
      | inr other ↦
          let found = so_far.reuses j i h there in
          ground (arith, lookup-insert k j id new_bps, other, found, c)
    ]

    pub Synced-step : Synced existing s (insert k id new_bps) u
    Synced-step = record {
      others = step-others;
      found = λ j i h. elim (Entry-insert j i k id new_bps h) [
        | inl (a, b) ↦ made.finds i ∙ ground (arith, b)
        | inr was ↦ still-found i (so_far.found j i was)
      ];
      tracked = λ j i h. elim (Entry-insert j i k id new_bps h) [
        | inl (a, b) ↦ step-tracked i (inl b)
        | inr was ↦ step-tracked i (inr (so_far.tracked j i was))
      ];
      still_tracked = λ j h. step-tracked j (inr (so_far.still_tracked j h));
      origin = λ j i h. elim (Entry-insert j i k id new_bps h) [
        | inl (a, b) ↦
            subst (λ x. Entry x i existing ⊎ (next_id s.target ≤ i)) a
              (subst (λ x. Entry k x existing ⊎ (next_id s.target ≤ x)) b new-origin)
        | inr was ↦ so_far.origin j i was
      ];
      is_table = record {
        below = λ j i h. elim (Entry-insert j i k id new_bps h) [
          | inl (a, b) ↦ rw⁻¹ b made.below
          | inr was ↦ (let x = so_far.is_table.below j i was in let y = made.ids in omega arith)
        ];
        apart = λ j l i h g. elim (Entry-insert j i k id new_bps h) [
          | inl (a, b) ↦ elim (Entry-insert l i k id new_bps g) [
            | inl (c, d) ↦ sym a ∙ c
            | inr was ↦ sym a ∙ new-apart l (rw b was)
          ]
          | inr was ↦ elim (Entry-insert l i k id new_bps g) [
            | inl (c, d) ↦ sym (new-apart j (rw d was)) ∙ c
            | inr other ↦ so_far.is_table.apart j l i was other
          ]
        ];
      };
      old_infos = step-old_infos;
      reuses = step-reuses;
      old = step-old;
      ids = (let a = so_far.ids in let b = made.ids in omega arith);
    }
