-- ===== src/Breakpoints/Exclusions.antt =====
-- `handle_set_excluded_callers`: the callers under which a breakpoint does not stop.
use codelldb.Prelude.{
  ◌∙◌, ℕ, ◌%◌, ◌^◌, ◌≡◌, refl, inl, inr, Bool, false, none, some, List, [], ◌∷◌, ◌++◌, append_assoc,
  append-nil, ◌==◌, if◌then◌else◌, arith, Bool-cases, Option-cases,
}
use codelldb.Prelude.Equality.{ℕ_eq, list_eq, ◌≐◌}
use codelldb.Prelude.Map.{Map, lookup, insert, map_values, lookup-map_values, lookup-insert}
use codelldb.Prelude.Text.{Chars}
use codelldb.Breakpoints.Interface.{BreakpointId, BreakpointKind, exception, BreakpointInfo}

-- `Either<i64, String>`: the id of a breakpoint, as a 64-bit pattern, or the name of an exception.
pub data SiteId : Type 0 where
  first : ℕ → SiteId
  second : Chars → SiteId

pub record ExcludedCaller : Type 0 where
  pub site_id : SiteId
  pub symbol : Chars

unfoldable pub push_exclusion : Chars → BreakpointInfo → BreakpointInfo
push_exclusion symbol info = record info { exclusions = info.exclusions ++ symbol ∷ [] }

unfoldable pub is_exception : Chars → BreakpointKind → Bool
is_exception name (exception name2) = name ≐ name2
is_exception name _ = false

unfoldable pub exclude :
    ExcludedCaller → Map BreakpointId BreakpointInfo → Map BreakpointId BreakpointInfo
unfolding push_exclusion is_exception
exclude e infos = elim e.site_id [
  | first bp_id ↦ elim (lookup (bp_id % 2 ^ 32) infos) [
    | none ↦ infos
    | some info ↦ insert (bp_id % 2 ^ 32) (push_exclusion e.symbol info) infos
  ]
  | second name ↦
      map_values
        (λ info. if is_exception name info.kind then push_exclusion e.symbol info else info) infos
]

unfoldable pub exclude_each :
    List ExcludedCaller → Map BreakpointId BreakpointInfo → Map BreakpointId BreakpointInfo
unfolding exclude
exclude_each [] infos = infos
exclude_each (e ∷ es) infos = exclude_each es (exclude e infos)

abbrev pub clear_exclusions : BreakpointInfo → BreakpointInfo
clear_exclusions info = record info { exclusions = [] }

unfoldable pub set_excluded_callers :
    List ExcludedCaller → Map BreakpointId BreakpointInfo → Map BreakpointId BreakpointInfo
unfolding exclude_each
set_excluded_callers exclusions infos = exclude_each exclusions (map_values clear_exclusions infos)

-- Whether an exclusion is meant for a breakpoint.
abbrev pub addresses : SiteId → BreakpointId → BreakpointKind → Bool
addresses (first bp_id) id kind = bp_id % 2 ^ 32 == id
addresses (second name) id kind = is_exception name kind

-- The symbols that are meant for a breakpoint, in order.
abbrev pub meant_for : BreakpointId → BreakpointKind → List ExcludedCaller → List Chars
meant_for id kind [] = []
meant_for id kind (e ∷ es) =
    (if addresses e.site_id id kind then e.symbol ∷ [] else []) ++ meant_for id kind es

abbrev with_exclusions : BreakpointInfo → List Chars → BreakpointInfo
with_exclusions info symbols = record info { exclusions = info.exclusions ++ symbols }

lookup-exclude :
    (e : ExcludedCaller) (site : SiteId) (id : BreakpointId) (info : BreakpointInfo)
    (infos : Map BreakpointId BreakpointInfo)
    → e.site_id ≡ site
    → lookup id infos ≡ some info
    → lookup id (exclude e infos)
      ≡ some (with_exclusions info (if addresses site id info.kind then e.symbol ∷ [] else []))
unfolding exclude push_exclusion
lookup-exclude e (first bp_id) id info infos s h = elim (Bool-cases (bp_id % 2 ^ 32 == id)) [
  | inl same ↦
      let key : bp_id % 2 ^ 32 ≡ id = ground arith in
      let found : lookup (bp_id % 2 ^ 32) infos ≡ some info = rw key h in
      simp (exclude, s, found, lookup-insert, same)
  | inr other ↦ elim (Option-cases (lookup (bp_id % 2 ^ 32) infos)) [
    | inl absent ↦ simp (exclude, s, absent, h, other, append-nil)
    | inr (info', found) ↦ simp (exclude, s, found, lookup-insert, other, h, append-nil)
  ]
]
lookup-exclude e (second name) id info infos s h = elim (Bool-cases (is_exception name info.kind)) [
  | inl named ↦ simp (exclude, s, lookup-map_values, h, named)
  | inr other ↦ simp (exclude, s, lookup-map_values, h, other, append-nil)
]

lookup-exclude_each :
    (es : List ExcludedCaller) (id : BreakpointId) (info : BreakpointInfo)
    (infos : Map BreakpointId BreakpointInfo)
    → lookup id infos ≡ some info
    → lookup id (exclude_each es infos) ≡ some (with_exclusions info (meant_for id info.kind es))
unfolding exclude_each
lookup-exclude_each [] id info infos h = simp (h, append-nil)
lookup-exclude_each (e ∷ es) id info infos h =
    lookup-exclude_each es id
      (with_exclusions info (if addresses e.site_id id info.kind then e.symbol ∷ [] else []))
      (exclude e infos) (lookup-exclude e e.site_id id info infos refl h)
    ∙ simp append_assoc

-- After `setExcludedCallers` each tracked breakpoint is as it was, but that its exclusions are the
-- symbols that the request means for it, in order: by its id, or as an exception breakpoint by its name.
pub lookup-set_excluded_callers :
    (es : List ExcludedCaller) (infos : Map BreakpointId BreakpointInfo) (id : BreakpointId)
    (info : BreakpointInfo)
    → lookup id infos ≡ some info
    → lookup id (set_excluded_callers es infos)
      ≡ some (record info { exclusions = meant_for id info.kind es })
unfolding set_excluded_callers
lookup-set_excluded_callers es infos id info h =
    lookup-exclude_each es id (clear_exclusions info) (map_values clear_exclusions infos)
      (simp (lookup-map_values, h))
