-- ===== src/SourceMap/Tests.antt =====
-- The theorems on the source map, where every path is that of a file.
use codelldb.Prelude.{◌≡◌, refl, true, false, some, [], ◌∷◌}
use codelldb.Prelude.Map.{lookup}
use codelldb.Prelude.Exec.{ok}
use codelldb.Prelude.Done.{Done}
use codelldb.Prelude.Text.{chars}
use codelldb.Prelude.Equality.{list_eq}
use codelldb.MustInitialize.{initialized}
use codelldb.Fsutil.{root_dir, parent_dir, normal, PathBuf, normalize_path, normalize_from, pop}
use codelldb.Fsutil.Equality.{component_eq}
use codelldb.SourceMap.{
  Files, Sources, ensure_absolute_path, probe, probe_source, map_filespec_to_local,
}
use codelldb.SourceMap.Cached.{
  IsCached, answer, look_again, map_filespec_to_local-IsCached, map_filespec_to_local-set_suppress,
}

abbrev files : Files
files = record {
  SbFileSpec = PathBuf;
  is_valid = λ p. true;
  path = λ p. p;
  get_fs_path_case = λ p. some p;
  is_file = λ p. false;
}

abbrev base : PathBuf
base = root_dir ∷ normal (chars "src") ∷ []

abbrev sources : Sources
sources = record {
  source_map_cache = [];
  relative_path_base = initialized base;
  suppress_missing_files = false;
}

sources-IsCached : IsCached files base sources
unfolding lookup
sources-IsCached = record { has_base = refl; entries = λ p m e. cc }

abbrev spec : PathBuf
spec = parent_dir ∷ normal (chars "a") ∷ []

relative_file :
    (map_filespec_to_local files spec sources).0 ≡ ok (some (root_dir ∷ normal (chars "a") ∷ []))
unfolding map_filespec_to_local probe_source probe ensure_absolute_path normalize_path
    normalize_from pop lookup
relative_file = refl

map_filespec_to_local-IsCached_example : Done (map_filespec_to_local files spec) sources (λ m t.
    (m ≡ answer files base spec sources)
    × IsCached files base t
    × (t.suppress_missing_files ≡ false))
map_filespec_to_local-IsCached_example =
    map_filespec_to_local-IsCached files base sources spec sources-IsCached

map_filespec_to_local-set_suppress_example :
    Done
      (look_again files true spec)
      sources
      (λ r t. (r.1 ≡ r.0) × (t.suppress_missing_files ≡ true))
map_filespec_to_local-set_suppress_example =
    map_filespec_to_local-set_suppress files base sources spec true sources-IsCached
