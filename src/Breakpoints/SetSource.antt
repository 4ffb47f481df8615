-- ===== src/Breakpoints/SetSource.antt =====
-- `setBreakpoints` for a source file, from the table of the file before to the one after.
use mathlib.Core.Path.{subst}
use codelldb.Prelude.{
  ℕ, ◌%◌, ◌^◌, ◌≡◌, ◌≢◌, ◌⊎◌, inl, inr, ◌∙◌, refl, sym, ap, true, Option, none, some, List, [], ◌∷◌,
  length, arith, All, Bool-cases, Option-cases,
}
use codelldb.Prelude.Equality.{ℕ_eq, list_eq}
use codelldb.Prelude.Map.{lookup, lookup-insert_self, lookup-insert_ne}
use codelldb.Prelude.Entries.{Entry}
use codelldb.Prelude.Text.{Chars}
use codelldb.Prelude.Exec.{ok}
use codelldb.Prelude.Done.{Done, Done-bind}
use codelldb.Fsutil.{PathBuf, normal, normalize_path}
use codelldb.Fsutil.Equality.{component_eq}
use codelldb.Disassembly.{Address}
use codelldb.Breakpoints.Interface.{BreakpointId, source, BreakpointInfo}
use codelldb.Breakpoints.Target.{
  LineTable, BreakpointMode, path, file, Place, by_location, LineEntry, SbLaws, Env, Response,
  State,
}
use codelldb.Breakpoints.Actions.{file_name}
use codelldb.Breakpoints.Handlers.{
  SourceBreakpoint, or_default, as_u32, each_request, delete_missing, hint_at, get_breakpoint_hint,
  report_hint, hint_for, hint_if_unresolved, source_place, set_source_one, put_source,
  set_source_breakpoints,
}
use codelldb.Breakpoints.Frame.{Same-refl, Keeps, Keeps-pure, Keeps-bind, print-none-Keeps}
use codelldb.Breakpoints.Establish.{establish-Done}
use codelldb.Breakpoints.Sync.{IsTable, Synced-start}
use codelldb.Breakpoints.Loop.{Fits, Keyed, Looped, each_request-Done}
use codelldb.Breakpoints.Delete.{delete_missing-others, infos-deleted}
use codelldb.Breakpoints.Refines.{Refines, Looped-Refines, not-asked}

module _ (env : Env) (laws : SbLaws env.sb) where
  open env use {sb}
  open laws use {next_id}

  -- The breakpoint made for a hint is deleted again.
  hint_at-Keeps :
      (p : PathBuf) (line : ℕ) (column : Option ℕ) (name : Chars)
      → Keeps env laws (hint_at env p line column name)
  unfolding hint_at
  hint_at-Keeps p line column name s =
      let place = by_location (normal name ∷ []) line column in
      let made = sb.create (by_location (normal name ∷ []) line column) s.target in
      let new_id = laws.create-id place s.target in
      let grows = laws.create-next_id place s.target in
      let kept = laws.delete-next_id made.0 made.1 in
      record {
        value = _;
        after = _;
        ends = refl;
        post = record {
          tables = refl;
          finds = λ j.
              laws.find-delete made.0 made.1 j
              ∙ ground (
                arith,
                new_id,
                laws.find-create place s.target j,
                laws.find-next_id s.target j,
                Bool-cases (sb.find s.target j),
              );
          ids = omega arith;
        };
      }

  get_breakpoint_hint-Keeps :
      (p : PathBuf) (line : ℕ) (column : Option ℕ)
      → Keeps env laws (get_breakpoint_hint env p line column)
  unfolding get_breakpoint_hint
  get_breakpoint_hint-Keeps p line column s = elim (Option-cases (file_name p)) [
    | inl no_name ↦ record {
      value = none;
      after = s;
      ends = simp (get_breakpoint_hint, no_name);
      post = Same-refl env laws s;
    }
    | inr (name, named) ↦
        let d = hint_at-Keeps p (line % 2 ^ 32) (as_u32 column) name s in
        record {
          value = d.value;
          after = d.after;
          ends = simp (get_breakpoint_hint, named, d.ends);
          post = d.post;
        }
  ]

  report_hint-Keeps :
      (p : PathBuf) (line : ℕ) (r : Response) (h : Option (PathBuf × ℕ))
      → Keeps env laws (report_hint env p line r h)
  unfolding report_hint
  report_hint-Keeps p line r none = Keeps-pure env laws r
  report_hint-Keeps p line r (some found) = print-none-Keeps env laws _ _

  hint_for-Keeps :
      (mode : BreakpointMode) (p : PathBuf) (req : SourceBreakpoint) (r : Response)
      (ls : List (Address × Option LineEntry))
      → Keeps env laws (hint_for env mode p req r ls)
  unfolding hint_for
  hint_for-Keeps path p req r [] =
      Keeps-bind env laws (get_breakpoint_hint env p req.line req.column) _
        (get_breakpoint_hint-Keeps p req.line req.column) (report_hint-Keeps p req.line r)
  hint_for-Keeps path p req r (l ∷ ls) = Keeps-pure env laws r
  hint_for-Keeps file p req r [] = Keeps-pure env laws r
  hint_for-Keeps file p req r (l ∷ ls) = Keeps-pure env laws r

  hint_if_unresolved-Keeps :
      (p : PathBuf) (req : SourceBreakpoint) (info : BreakpointInfo) (r : Response)
      → Keeps env laws (hint_if_unresolved env p req info r)
  unfolding hint_if_unresolved
  hint_if_unresolved-Keeps p req info r s =
      let d = hint_for-Keeps env.breakpoint_mode p req r (sb.locations s.target info.id) s in
      record { value = d.value; after = d.after; ends = d.ends; post = d.post }

  -- There is a place to make breakpoints of the file at: in the mode that goes by file names, the
  -- path must have one.
  abbrev pub HasPlace : PathBuf → Type 0
  HasPlace p = (env.breakpoint_mode ≡ path) ⊎ ((name : Chars) × (file_name p ≡ some name))

  source_place-HasPlace :
      (p : PathBuf) (req : SourceBreakpoint) (m : BreakpointMode)
      → env.breakpoint_mode ≡ m
      → HasPlace p
      → (place : Place) × (source_place env p req ≡ ok place)
  unfolding source_place
  source_place-HasPlace p req path e h =
      (by_location p (req.line % 2 ^ 32) (as_u32 req.column), simp (source_place, e))
  source_place-HasPlace p req file e (inl by_path) = cc
  source_place-HasPlace p req file e (inr (name, named)) = (
    by_location (normal name ∷ []) (req.line % 2 ^ 32) (as_u32 req.column),
    simp (source_place, e, named),
  )

  set_source_one-Fits :
      (existing : LineTable) (p : PathBuf)
      → HasPlace p
      → (req : SourceBreakpoint)
      → Fits env laws existing (set_source_one env existing p) (λ r. r.line) req
  unfolding set_source_one
  set_source_one-Fits existing p has_place req s =
      let at = source_place-HasPlace p req env.breakpoint_mode refl has_place in
      let d =
        establish-Done env laws (lookup req.line existing) at.0 source req.condition req.log_message
          req.hit_condition (hint_if_unresolved env p req) (hint_if_unresolved-Keeps p req) s in
      record {
        value = (req.line, d.value.0, d.value.1);
        after = d.after;
        ends = simp (set_source_one, at.1, d.ends);
        post = (refl, d.post);
      }

  All-Fits :
      (existing : LineTable) (p : PathBuf)
      → HasPlace p
      → (reqs : List SourceBreakpoint)
      → All (Fits env laws existing (set_source_one env existing p) (λ r. r.line)) reqs
  All-Fits existing p h [] = tt
  All-Fits existing p h (req ∷ reqs) =
      (set_source_one-Fits existing p h req, All-Fits existing p h reqs)

  -- The lines of a file in a state.
  abbrev pub lines_of : PathBuf → State env → LineTable
  lines_of p s = or_default [] (lookup p s.breakpoints.source)

  -- The outcome of the request for a file in the state `s`.
  pub record Served (file_path : PathBuf) (reqs : List SourceBreakpoint) (s : State env)
      (out : List Response) (u : State env) : Type 0 where
    pub responses : length out ≡ length reqs
    pub refines :
        Refines env laws
          (λ (r : SourceBreakpoint). r.line)
          reqs
          (lines_of file_path s)
          s
          (lines_of file_path u)
          u
    pub untracked :
        (line : ℕ) (id : BreakpointId)
        → Entry line id (lines_of file_path s)
        → (Keyed env laws (λ (r : SourceBreakpoint). r.line) line reqs → ⊥)
        → lookup id u.breakpoints.breakpoint_infos ≡ none
    pub other_files :
        (p : PathBuf)
        → file_path ≢ p
        → lookup p u.breakpoints.source ≡ lookup p s.breakpoints.source
    pub other_tables :
        (u.breakpoints.assembly ≡ s.breakpoints.assembly)
        × (u.breakpoints.instruction ≡ s.breakpoints.instruction)
        × (u.breakpoints.function ≡ s.breakpoints.function)

  module _ (file_path : PathBuf) (reqs : List SourceBreakpoint) (s : State env)
      (table : IsTable env laws (lines_of file_path s) s) where
    abbrev begun : State env
    begun = put_source env file_path (lines_of file_path s) s

    begun-IsTable : IsTable env laws (lines_of file_path s) begun
    begun-IsTable = record { below = table.below; apart = table.apart }

    finish :
        (u : State env) (out : List Response × LineTable)
        → Looped env laws
            (lines_of file_path s)
            (λ (r : SourceBreakpoint). r.line)
            reqs
            []
            begun
            out
            u
        → Served file_path reqs s out.0 (
            put_source env file_path out.1 (delete_missing env true (lines_of file_path s) out.1 u))
    finish u out loop =
        let r =
          Looped-Refines env laws (λ (r : SourceBreakpoint). r.line) reqs (lines_of file_path s)
            begun u out true begun-IsTable loop in
        let kept = delete_missing-others env laws true out.1 (lines_of file_path s) u in
        let others = loop.synced.others in
        let own : lines_of file_path (
              put_source env file_path out.1
                (delete_missing env true (lines_of file_path s) out.1 u))
            ≡ out.1 =
          ap (or_default []) (
            lookup-insert_self file_path out.1
              (delete_missing env true (lines_of file_path s) out.1 u).breakpoints.source) in
        record {
          responses = loop.responses;
          refines =
              subst
                (λ lines.
                  Refines env laws (λ (r : SourceBreakpoint). r.line) reqs (lines_of file_path s) s
                    lines
                    (put_source env file_path out.1
                      (delete_missing env true (lines_of file_path s) out.1 u)))
                (sym own)
                (record {
                  asked = r.asked;
                  only = r.only;
                  live = r.live;
                  tracked = r.tracked;
                  deleted = r.deleted;
                  others = r.others;
                  others_tracked = r.others_tracked;
                  reused = r.reused;
                  is_table = record { below = r.is_table.below; apart = r.is_table.apart };
                });
          untracked = λ line id h no.
              infos-deleted env laws true out.1 (lines_of file_path s) u line id refl h (
                not-asked env laws (λ (r : SourceBreakpoint). r.line) reqs (lines_of file_path s)
                  begun u out true begun-IsTable loop line no);
          other_files = λ p ne.
              lookup-insert_ne file_path p out.1
                (delete_missing env true (lines_of file_path s) out.1 u).breakpoints.source ne
              ∙ ap (lookup p) (kept.0 ∙ others.0)
              ∙ lookup-insert_ne file_path p (lines_of file_path s) s.breakpoints.source ne;
          other_tables = (kept.1 ∙ others.1, kept.2 ∙ others.2, kept.3 ∙ others.3);
        }

  -- From a table of the file whose ids are in use, each at one line, the request for breakpoints in
  -- a file that has a place succeeds with a response for each. The new table of the file has exactly
  -- the lines that were asked for, and the target has its breakpoints, which are tracked: for a line
  -- that had a breakpoint in the target, the same one. Those of lines that are not asked for any more
  -- are deleted and not tracked any more, all other breakpoints stay in the target and tracked as they
  -- were, the tables of other files and of other kinds are left, and the new table is valid again.
  pub set_source_breakpoints-Refines :
      (file_path : PathBuf) (reqs : List SourceBreakpoint) (s : State env)
      → HasPlace (normalize_path file_path)
      → IsTable env laws (lines_of file_path s) s
      → Done (set_source_breakpoints env file_path reqs) s (Served file_path reqs s)
  unfolding set_source_breakpoints
  set_source_breakpoints-Refines file_path reqs s has_place table =
      let begun_table : IsTable env laws (lines_of file_path s)
          (put_source env file_path (lines_of file_path s) s) =
        record { below = table.below; apart = table.apart } in
      let d =
        Done-bind
          (each_request env (set_source_one env (lines_of file_path s) (normalize_path file_path))
            reqs [])
          _ (put_source env file_path (lines_of file_path s) s) (Served file_path reqs s)
          (each_request-Done env laws (lines_of file_path s)
            (set_source_one env (lines_of file_path s) (normalize_path file_path)) (λ r. r.line)
            reqs [] (put_source env file_path (lines_of file_path s) s)
            (put_source env file_path (lines_of file_path s) s)
            (All-Fits (lines_of file_path s) (normalize_path file_path) has_place reqs) begun_table
            (Synced-start env laws (lines_of file_path s)
              (put_source env file_path (lines_of file_path s) s)))
          (λ out u loop. record {
            value = out.0;
            after =
                put_source env file_path out.1
                  (delete_missing env true (lines_of file_path s) out.1 u);
            ends = refl;
            post = finish file_path reqs s table u out loop;
          }) in
      record { value = d.value; after = d.after; ends = d.ends; post = d.post }
