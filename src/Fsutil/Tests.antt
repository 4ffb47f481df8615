-- ===== src/Fsutil/Tests.antt =====
-- The tests of fsutil.rs, and the theorems at concrete paths and texts.
use codelldb.Prelude.{◌≡◌, refl, [], ◌∷◌, ◌++◌}
use codelldb.Prelude.Text.{chars}
use codelldb.Fsutil.{
  root_dir, cur_dir, parent_dir, normal, PathBuf, pop, normalize_from, normalize_path, escape,
  lldb_quoted_string,
}

abbrev foo_bar : PathBuf
foo_bar = root_dir ∷ normal (chars "foo") ∷ normal (chars "bar") ∷ []

-- /foo/bar/./baz/./../
abbrev detour : PathBuf
detour = foo_bar ++ (cur_dir ∷ normal (chars "baz") ∷ cur_dir ∷ parent_dir ∷ [])

test_normalize_path : (normalize_path foo_bar ≡ foo_bar) × (normalize_path detour ≡ foo_bar)
unfolding normalize_path normalize_from pop
test_normalize_path = (refl, refl)

test_lldb_quoting :
    lldb_quoted_string (chars "foo \" 'bar \\ baz") ≡ chars "\"foo \\\" 'bar \\\\ baz\""
unfolding lldb_quoted_string escape
test_lldb_quoting = refl
