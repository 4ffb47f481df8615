-- ===== src/SourceMap/Cached.antt =====
-- What was found once is found again: the cache changes nothing, as long as the settings and the
-- file system stay the same.
use codelldb.Prelude.{
  ◌∙◌, ◌≡◌, refl, inl, inr, Bool, Option, none, some, ◌++◌, if◌then◌else◌, arith, Bool-cases,
  Option-cases,
}
use codelldb.Prelude.Equality.{Eq, list_eq}
use codelldb.Prelude.Map.{lookup, insert, lookup-insert, lookup-insert_self}
use codelldb.Prelude.Exec.{ok, Exec, pure, modify, ◌>>=◌, ◌>>◌}
use codelldb.Prelude.Done.{Done}
use codelldb.MustInitialize.{initialized}
use codelldb.Fsutil.{PathBuf, normalize_path}
use codelldb.Fsutil.Equality.{component_eq}
use codelldb.SourceMap.{
  Files, Sources, is_relative, ensure_absolute_path, probe, probe_source, map_filespec_to_local,
}

abbrev component_paths : Eq PathBuf
component_paths = list_eq

module _ (files : Files) where
  -- The local file of a path, without a cache.
  abbrev pub local_file : PathBuf → Bool → PathBuf → Option PathBuf
  local_file base suppress p =
      probe files suppress (normalize_path (if is_relative p then base ++ p else p))

  -- Each entry of the cache is what would be found.
  pub record IsCached (base : PathBuf) (s : Sources) : Type 0 where
    pub has_base : s.relative_path_base ≡ initialized base
    pub entries :
        (p : PathBuf) (m : Option PathBuf)
        → lookup p s.source_map_cache ≡ some m
        → m ≡ local_file base s.suppress_missing_files p

  IsCached-remember :
      (base p : PathBuf) (s : Sources)
      → IsCached base s
      → IsCached base (record s {
        source_map_cache = insert p (local_file base s.suppress_missing_files p) s.source_map_cache;
      })
  IsCached-remember base p s c = record {
    has_base = c.has_base;
    entries = λ q m e.
        let found =
          lookup-insert p q (local_file base s.suppress_missing_files p) s.source_map_cache in
        let same = component_paths.eqb_iff p q in
        let old = c.entries q m in ground (arith, found, same, old);
  }

  probe_source_lem :
      (base p : PathBuf) (s : Sources)
      → s.relative_path_base ≡ initialized base
      → probe_source files p s ≡ (
        ok (local_file base s.suppress_missing_files p),
        record s {
          source_map_cache =
              insert p (local_file base s.suppress_missing_files p) s.source_map_cache;
        },
      )
  unfolding probe_source ensure_absolute_path
  probe_source_lem base p s e = elim (Bool-cases (is_relative p)) [
    | inl relative ↦ simp (probe_source, ensure_absolute_path, relative, e)
    | inr absolute ↦ simp (probe_source, ensure_absolute_path, absolute)
  ]

  abbrev pub answer : PathBuf → Files.SbFileSpec files → Sources → Option PathBuf
  answer base filespec s =
      if files.is_valid filespec
      then local_file base s.suppress_missing_files (files.path filespec)
      else none

  -- With a cache filled under the present settings, the local file of a file specification is found
  -- as without one, none for one that is not valid; the cache stays such a one, and the settings the
  -- same.
  pub map_filespec_to_local-IsCached :
      (base : PathBuf) (s : Sources) (filespec : files.SbFileSpec)
      → IsCached base s
      → Done (map_filespec_to_local files filespec) s (λ m t.
        (m ≡ answer base filespec s)
        × IsCached base t
        × (t.suppress_missing_files ≡ s.suppress_missing_files))
  unfolding map_filespec_to_local
  map_filespec_to_local-IsCached base s filespec c = elim (Bool-cases (files.is_valid filespec)) [
    | inr invalid ↦ record {
      value = none;
      after = s;
      ends = simp (map_filespec_to_local, invalid);
      post = (simp invalid, c, refl);
    }
    | inl valid ↦ elim (Option-cases (lookup (files.path filespec) s.source_map_cache)) [
      | inr (m, found) ↦ record {
        value = m;
        after = s;
        ends = simp (map_filespec_to_local, valid, found);
        post = (c.entries (files.path filespec) m found ∙ simp valid, c, refl);
      }
      | inl unknown ↦ record {
        value = local_file base s.suppress_missing_files (files.path filespec);
        after = record s {
          source_map_cache =
              insert (files.path filespec)
                (local_file base s.suppress_missing_files (files.path filespec)) s.source_map_cache;
        };
        ends = simp (
          map_filespec_to_local,
          valid,
          unknown,
          probe_source_lem base (files.path filespec) s (c.has_base),
        );
        post = (simp valid, IsCached-remember base (files.path filespec) s c, refl);
      }
    ]
  ]

  abbrev pub set_suppress : Bool → Sources → Sources
  set_suppress b s = record s { suppress_missing_files = b }

  -- A second look at a file after the setting was changed.
  abbrev pub look_again : Bool → files.SbFileSpec → Exec Sources (Option PathBuf × Option PathBuf)
  look_again b filespec = map_filespec_to_local files filespec >>= λ m.
      (modify (set_suppress b) >> (map_filespec_to_local files filespec >>= λ n. pure (m, n)))

  -- A change of the setting on missing files does not change what is found for a file that was
  -- looked for before it, from a cache filled under the settings of the time.
  pub map_filespec_to_local-set_suppress :
      (base : PathBuf) (s : Sources) (filespec : files.SbFileSpec) (b : Bool)
      → IsCached base s
      → Done (look_again b filespec) s (λ r t. (r.1 ≡ r.0) × (t.suppress_missing_files ≡ b))
  unfolding map_filespec_to_local
  map_filespec_to_local-set_suppress base s filespec b c =
      elim (Bool-cases (files.is_valid filespec)) [
        | inr invalid ↦ record {
          value = (none, none);
          after = set_suppress b s;
          ends = simp (map_filespec_to_local, invalid);
          post = (refl, refl);
        }
        | inl valid ↦ elim (Option-cases (lookup (files.path filespec) s.source_map_cache)) [
          | inr (m, found) ↦ record {
            value = (m, m);
            after = set_suppress b s;
            ends = simp (map_filespec_to_local, valid, found);
            post = (refl, refl);
          }
          | inl unknown ↦
              let p = files.path filespec in
              let m = local_file base s.suppress_missing_files p in
              record {
                value = (m, m);
                after = record s {
                  source_map_cache = insert p m s.source_map_cache;
                  suppress_missing_files = b;
                };
                ends = simp (
                  map_filespec_to_local,
                  valid,
                  unknown,
                  probe_source_lem base p s (c.has_base),
                  lookup-insert_self p m s.source_map_cache,
                );
                post = (refl, refl);
              }
        ]
      ]
