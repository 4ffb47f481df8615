-- ===== src/SourceMap.antt =====
-- src/codelldb/src/debug_session.rs: the local file of a source file that LLDB names, which is
-- looked for once and then kept. The file system and LLDB's file specifications are parameters.
-- Paths are those of Unix, where a path is relative if it has no root.
pub mod Cached
mod Tests
use codelldb.Prelude.{Bool, true, false, not, Option, none, some, [], ◌∷◌, ◌++◌, if◌then◌else◌}
use codelldb.Prelude.Map.{Map, lookup, insert}
use codelldb.Prelude.Exec.{Outcome, ok, panic, Exec, pure, modify, ◌>>=◌, ◌>>◌}
use codelldb.MustInitialize.{MustInitialize, deref}
use codelldb.Fsutil.{Component, root_dir, PathBuf, normalize_path}
use codelldb.Prelude.Equality.{list_eq}
use codelldb.Fsutil.Equality.{component_eq}

-- `get_fs_path_case` is that of platform.rs, which has one for each system; `none` is an error.
pub record Files : Type 1 where
  pub SbFileSpec : Type 0
  pub is_valid : SbFileSpec → Bool
  pub path : SbFileSpec → PathBuf
  pub get_fs_path_case : PathBuf → Option PathBuf
  pub is_file : PathBuf → Bool

-- The part of the session that is used and changed.
pub record Sources : Type 0 where
  pub source_map_cache : Map PathBuf (Option PathBuf)
  pub relative_path_base : MustInitialize PathBuf
  pub suppress_missing_files : Bool

abbrev pub is_relative : PathBuf → Bool
is_relative (root_dir ∷ p) = false
is_relative _ = true

abbrev pub map_outcome : {A B : Type 0} → (A → B) → Outcome A → Outcome B
map_outcome f (ok a) = ok (f a)
map_outcome f (Outcome.error e) = Outcome.error e
map_outcome f panic = panic

-- `join` of a relative path.
unfoldable pub ensure_absolute_path : PathBuf → Sources → Outcome PathBuf
ensure_absolute_path p s =
    if is_relative p then map_outcome (λ base. base ++ p) (deref s.relative_path_base) else ok p

module _ (files : Files) where
  open files use {SbFileSpec, is_valid, path, get_fs_path_case, is_file}

  -- The path as the file system has it, if there is a file; else the path itself, unless missing
  -- files are suppressed.
  unfoldable pub probe : Bool → PathBuf → Option PathBuf
  probe suppress p =
      let missing : Option PathBuf = if suppress then none else some p in
      elim (get_fs_path_case p) [ some q ↦ if is_file q then some q else missing | none ↦ missing ]

  abbrev pub remember : PathBuf → Option PathBuf → Exec Sources (Option PathBuf)
  remember source_path mapped_path =
      modify
        (λ s. record s { source_map_cache = insert source_path mapped_path s.source_map_cache })
      >> pure mapped_path

  unfoldable pub probe_source : PathBuf → Exec Sources (Option PathBuf)
  unfolding probe ensure_absolute_path
  probe_source source_path = (λ s. (ensure_absolute_path source_path s, s)) >>= λ p.
      (λ s. remember source_path (probe s.suppress_missing_files (normalize_path p)) s)

  abbrev pub from_cache : PathBuf → Option (Option PathBuf) → Exec Sources (Option PathBuf)
  from_cache source_path (some mapped_path) = pure mapped_path
  from_cache source_path none = probe_source source_path

  unfoldable pub map_filespec_to_local : SbFileSpec → Exec Sources (Option PathBuf)
  unfolding probe_source
  map_filespec_to_local filespec s =
      if not (is_valid filespec)
      then (ok none, s)
      else from_cache (path filespec) (lookup (path filespec) s.source_map_cache) s
