-- ===== src/Fsutil.antt =====
-- src/codelldb/src/fsutil.rs: paths, and text quoted for a command of LLDB. A `PathBuf` is the list
-- of its components, as which Rust compares paths.
pub mod Equality
pub mod Normal
pub mod Quote
mod Tests
use codelldb.Prelude.{
  ℕ, Bool, true, false, Option, none, some, List, [], ◌∷◌, ◌++◌, ◌==◌, if◌then◌else◌,
}
use codelldb.Prelude.Text.{Chars}

-- `std::path::Component`
pub data Component : Type 0 where
  prefix : Chars → Component
  root_dir cur_dir parent_dir : Component
  normal : Chars → Component

abbrev pub PathBuf : Type 0
PathBuf = List Component

-- `PathBuf::pop`: a root and a prefix stay.
unfoldable pub pop : PathBuf → PathBuf
pop [] = []
pop (prefix s ∷ []) = prefix s ∷ []
pop (root_dir ∷ []) = root_dir ∷ []
pop (c ∷ []) = []
pop (c ∷ d ∷ p) = c ∷ pop (d ∷ p)

-- `PathBuf::push` of components in the order in which a path has them.
abbrev pub push : PathBuf → Component → PathBuf
push p c = p ++ c ∷ []

unfoldable pub normalize_from : PathBuf → PathBuf → PathBuf
unfolding pop
normalize_from normalized [] = normalized
normalize_from normalized (cur_dir ∷ p) = normalize_from normalized p
normalize_from normalized (parent_dir ∷ p) = normalize_from (pop normalized) p
normalize_from normalized (c ∷ p) = normalize_from (push normalized c) p

unfoldable pub normalize_path : PathBuf → PathBuf
unfolding normalize_from
normalize_path p = normalize_from [] p

abbrev pub quote : ℕ
quote = 34

abbrev pub backslash : ℕ
backslash = 92

-- A character, with a backslash before a backslash or a quote.
unfoldable pub escape : Chars → Chars
escape [] = []
escape (c ∷ cs) =
    let rest = escape cs in
    if c == backslash
    then backslash ∷ backslash ∷ rest
    else if c == quote
    then backslash ∷ quote ∷ rest
    else c ∷ rest

unfoldable pub lldb_quoted_string : Chars → Chars
unfolding escape
lldb_quoted_string input = quote ∷ (escape input ++ quote ∷ [])
