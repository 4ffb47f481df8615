-- ===== src/Breakpoints/Establish.antt =====
-- What is done for one request: the breakpoint is in the target and tracked, and is the one that was
-- there or a new one.
use codelldb.Prelude.{
  ◌≤◌, ◌<◌, ◌≡◌, ◌⊎◌, inl, inr, refl, ◌∙◌, ap, true, false, Option, none, some, ◌==◌, if◌then◌else◌,
  arith, Bool-cases,
}
use codelldb.Prelude.Equality.{ℕ_eq}
use codelldb.Prelude.Map.{insert}
use codelldb.Prelude.Text.{Chars}
use codelldb.Prelude.Exec.{ok, pure, ◌>>=◌}
use codelldb.Prelude.Done.{Done, Done-bind}
use codelldb.Breakpoints.Interface.{BreakpointId, BreakpointKind, BreakpointInfo}
use codelldb.Breakpoints.Target.{Breakpoints, Place, SbLaws, Env, Response, State, M}
use codelldb.Breakpoints.Actions.{make_bp_info, init_bp_actions, make_bp_response, track}
use codelldb.Breakpoints.Handlers.{create_at, find_or_create, establish}
use codelldb.Breakpoints.Frame.{
  Same, Same-trans, Keeps, make_bp_info-Done, init_bp_actions-Keeps, make_bp_response-Keeps,
}

module _ (env : Env) (laws : SbLaws env.sb) where
  open env use {sb}
  open laws use {next_id}

  -- The breakpoint is the one asked for, when the target has it, or has a new id.
  abbrev pub Comes : Option BreakpointId → State env → BreakpointId → Type 0
  Comes existing s id =
      ((existing ≡ some id) × (sb.find s.target id ≡ true))
      ⊎ ((next_id s.target ≤ id)
          × ((j : BreakpointId) → existing ≡ some j → sb.find s.target j ≡ false))

  -- The target has the breakpoint, and otherwise what it had.
  pub record Found (existing : Option BreakpointId) (s : State env) (id : BreakpointId)
      (u : State env) : Type 0 where
    pub tables : u.breakpoints ≡ s.breakpoints
    pub finds :
        (j : BreakpointId) → sb.find u.target j ≡ (if id == j then true else sb.find s.target j)
    pub comes : Comes existing s id
    pub below : id < next_id u.target
    pub ids : next_id s.target ≤ next_id u.target

  create_at-Found :
      (existing : Option BreakpointId) (p : Place) (s : State env)
      → ((j : BreakpointId) → existing ≡ some j → sb.find s.target j ≡ false)
      → Done (create_at env (ok p)) s (λ id u. Found existing s id u)
  unfolding create_at
  create_at-Found existing p s missing =
      let new_id = laws.create-id p s.target in
      let grows = laws.create-next_id p s.target in
      record {
        value = (sb.create p s.target).0;
        after = record s { target = (sb.create p s.target).1 };
        ends = refl;
        post = record {
          tables = refl;
          finds = λ j. rw new_id (laws.find-create p s.target j);
          comes = inr (omega arith, missing);
          below = omega arith;
          ids = omega arith;
        };
      }

  find_or_create-Found :
      (existing : Option BreakpointId) (p : Place) (s : State env)
      → Done (find_or_create env existing (ok p)) s (λ id u. Found existing s id u)
  unfolding find_or_create
  find_or_create-Found none p s = create_at-Found none p s (λ j h. cc)
  find_or_create-Found (some id) p s = elim (Bool-cases (sb.find s.target id)) [
    | inl there ↦ record {
      value = id;
      after = s;
      ends = simp (find_or_create, there);
      post = record {
        tables = refl;
        finds = λ j. ground (arith, there, ap (sb.find s.target) {x = id} {y = j});
        comes = inl (refl, there);
        below = laws.find-next_id s.target id there;
        ids = omega arith;
      };
    }
    | inr gone ↦
        let d =
          create_at-Found (some id) p s
            (λ j h. ground (arith, gone, h, ap (sb.find s.target) {x = id} {y = j})) in
        record {
          value = d.value;
          after = d.after;
          ends = simp (find_or_create, gone, d.ends);
          post = d.post;
        }
  ]

  -- The breakpoint is in the target and tracked, and nothing else has changed.
  pub record Established (existing : Option BreakpointId) (s : State env) (id : BreakpointId)
      (u : State env) : Type 0 where
    pub info : BreakpointInfo
    pub tables : u.breakpoints ≡ record (s.breakpoints) {
      breakpoint_infos = insert id info s.breakpoints.breakpoint_infos;
    }
    pub finds :
        (j : BreakpointId) → sb.find u.target j ≡ (if id == j then true else sb.find s.target j)
    pub comes : Comes existing s id
    pub below : id < next_id u.target
    pub ids : next_id s.target ≤ next_id u.target

  track-Established :
      (existing : Option BreakpointId) (s t u : State env) (id : BreakpointId)
      (info : BreakpointInfo) (response : Response)
      → Found existing s id t
      → Same env laws t u
      → info.id ≡ id
      → Done {A = Response × BreakpointId}
          (track env info >>= (λ _. pure (response, info.id)))
          u
          (λ out v. Established existing s out.1 v)
  unfolding track
  track-Established existing s t u id info response found same e = record {
    value = (response, info.id);
    after = record u {
      breakpoints = record (u.breakpoints) {
        breakpoint_infos = insert info.id info u.breakpoints.breakpoint_infos;
      };
    };
    ends = refl;
    post = record {
      info = info;
      tables =
          ap {B = Breakpoints}
            (λ (b : Breakpoints). record b {
              breakpoint_infos = insert info.id info b.breakpoint_infos;
            })
            (same.tables ∙ found.tables);
      finds = λ j. rw e (same.finds j ∙ found.finds j);
      comes = rw e found.comes;
      below = (let a = found.below in let b = same.ids in rw e (omega arith));
      ids = (let a = found.ids in let b = same.ids in omega arith);
    };
  }

  pub establish-Done :
      (existing : Option BreakpointId) (p : Place) (kind : BreakpointKind) (c l h : Option Chars)
      (hint : BreakpointInfo → Response → M env Response)
      → ((info : BreakpointInfo) (r : Response) → Keeps env laws (hint info r))
      → (s : State env)
      → Done
          (establish env existing (ok p) kind c l h hint)
          s
          (λ out u. Established existing s out.1 u)
  unfolding establish
  establish-Done existing p kind c l h hint keeps s =
      Done-bind (find_or_create env existing (ok p)) _ s _ (find_or_create-Found existing p s)
        (λ id t found.
          Done-bind (make_bp_info env id kind c l h) _ t _
            (make_bp_info-Done env laws id kind c l h t)
            (λ info t1 made.
              Done-bind (init_bp_actions env info) _ t1 _ (init_bp_actions-Keeps env laws info t1)
                (λ _ t2 same2.
                  Done-bind (make_bp_response env info false) _ t2 _
                    (make_bp_response-Keeps env laws info t2)
                    (λ plain t3 same3.
                      Done-bind (hint info plain) _ t3 _ (keeps info plain t3) (λ response t4 same4.
                        let same : Same env laws t t4 = Same-trans env laws t t1 t4 made.2 (
                          Same-trans env laws t1 t2 t4 same2
                            (Same-trans env laws t2 t3 t4 same3 same4)) in
                        track-Established existing s t t4 id info response found same made.0)))))
