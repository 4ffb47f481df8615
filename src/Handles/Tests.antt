-- ===== src/Handles/Tests.antt =====
-- The tests of handles.rs, and the theorems at concrete tables.
use codelldb.Prelude.{ℕ, ◌≡◌, ◌≢◌, refl, Option, none, some, [], ◌∷◌, ◌>>=◌, arith}
use codelldb.Handles.{HandleTree, Handle, TreeKey, new, reset, create, get, parent_exists}
use codelldb.Handles.Valid.{
  IsValid, Created, new-IsValid, create-IsValid, create-Created, get-create,
}
use codelldb.Handles.Reuse.{create_all, reset_reuse, reset_keeps_key}
use codelldb.Prelude.Equality.{text_eq, ℕ_eq, option_eq, pair_eq, pair_eqb_iff}
use codelldb.Prelude.Map.{lookup, insert, contains_key}

abbrev fresh : HandleTree ℕ
fresh = record {
  obj_by_handle = [];
  handle_tree = [];
  prev_handle_tree = [];
  next_handle_value = 1000;
}

abbrev root : TreeKey
root = (none, "1")

-- One object, made in an empty table.
abbrev one : HandleTree ℕ
one = record {
  obj_by_handle = (1001, (none, "1", 0xa1)) ∷ [];
  handle_tree = (root, 1001) ∷ [];
  prev_handle_tree = [];
  next_handle_value = 1001;
}

-- After `reset` another key comes first, with a new handle.
abbrev again : HandleTree ℕ
again = record {
  obj_by_handle = (1002, (none, "2", 0xb2)) ∷ [];
  handle_tree = ((none, "2"), 1002) ∷ [];
  prev_handle_tree = (root, 1001) ∷ [];
  next_handle_value = 1002;
}

new_lem : new ≡ fresh
unfolding new
new_lem = refl

create-fresh : create none "1" 0xa1 fresh ≡ some (1001, one)
unfolding create lookup insert contains_key
create-fresh = refl

create-again : create_all ((none, "2", 0xb2) ∷ []) (reset one) ≡ some again
unfolding create reset lookup insert contains_key
create-again = refl

fresh-IsValid : IsValid fresh
fresh-IsValid = rw new_lem at (new-IsValid {Value = ℕ})

one-IsValid : IsValid one
one-IsValid = create-IsValid none "1" 0xa1 fresh fresh-IsValid (omega arith) create-fresh

test1 : Option ℕ
unfolding create reset get
test1 = do
  (a1, t) ← create none "1" 0xa1 fresh
  (a11, t) ← create (some a1) "1.1" 0xa11 t
  (b1, t) ← create none "1" 0xb1 (reset t)
  get b1 t

test1_lem : test1 ≡ some 0xb1
unfolding test1 contains_key lookup insert
test1_lem = refl

test2_lem : create (some 1001) "12345" 12345 fresh ≡ none
unfolding create contains_key lookup
test2_lem = refl

new-IsValid_example : IsValid fresh
new-IsValid_example = fresh-IsValid

create-Created_example : Created none "1" 0xa1 fresh 1001 one
create-Created_example = create-Created none "1" 0xa1 fresh fresh-IsValid (omega arith) create-fresh

create-IsValid_example : IsValid one
create-IsValid_example = create-IsValid none "1" 0xa1 fresh fresh-IsValid (omega arith) create-fresh

get-create_example :
    (get 1001 one ≡ some 0xa1)
    × (get 1001 fresh ≡ none)
    × ((j : Handle) → j ≢ 1001 → get j one ≡ get j fresh)
get-create_example = get-create none "1" 0xa1 fresh fresh-IsValid (omega arith) create-fresh

one-lookup : lookup root one.handle_tree ≡ some 1001
unfolding lookup
one-lookup = refl

reset_reuse_example : (w : HandleTree ℕ) × (create none "1" 0xc1 again ≡ some (1001, w))
unfolding parent_exists
reset_reuse_example =
    reset_reuse root 0xc1 ((none, "2", 0xb2) ∷ []) one again 1001 one-IsValid (omega arith)
      one-lookup ((λ e. cc ((pair_eqb_iff (none, "2") root).1 e), tt)) create-again refl

-- The first key comes back under its handle.
abbrev both : HandleTree ℕ
both = record again {
  obj_by_handle = (1002, (none, "2", 0xb2)) ∷ (1001, (none, "1", 0xc1)) ∷ [];
  handle_tree = ((none, "2"), 1002) ∷ (root, 1001) ∷ [];
}

create-both : create_all ((none, "2", 0xb2) ∷ (none, "1", 0xc1) ∷ []) (reset one) ≡ some both
unfolding create reset lookup insert contains_key
create-both = refl

reset_keeps_key_example : root ≡ root
unfolding lookup
reset_keeps_key_example =
    reset_keeps_key root root ((none, "2", 0xb2) ∷ (none, "1", 0xc1) ∷ []) one both 1001 one-IsValid
      (omega arith) one-lookup create-both refl
