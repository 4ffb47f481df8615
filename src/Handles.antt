-- ===== src/Handles.antt =====
-- src/codelldb/src/handles.rs: the table of the handles that a debug adapter gives out for frames,
-- scopes and variables. A handle is an `i64`, kept here as its 64-bit pattern. `none` is a panic.
pub mod Valid
pub mod Reuse
pub mod Tests
use Prim.Native.String.{String}
use codelldb.Prelude.{
  ℕ, ◌+◌, ◌%◌, ◌^◌, Bool, true, false, Option, none, some, [], if◌then◌else◌, ◌>>=◌,
}
use codelldb.Prelude.Equality.{text_eq, ℕ_eq, option_eq, pair_eq}
use codelldb.Prelude.Map.{Map, lookup, insert, contains_key}

abbrev pub Handle : Type 0
Handle = ℕ

-- `(Option<Handle>, Rc<String>)`: the parent's handle, and the key below it.
abbrev pub TreeKey : Type 0
TreeKey = Option Handle × String

pub record HandleTree (Value : Type 0) : Type 0 where
  pub obj_by_handle : Map Handle (Option Handle × String × Value)
  pub handle_tree : Map TreeKey Handle
  pub prev_handle_tree : Map TreeKey Handle
  pub next_handle_value : ℕ

module _ {Value : Type 0} where
  unfoldable pub new : HandleTree Value
  new = record {
    obj_by_handle = [];
    handle_tree = [];
    prev_handle_tree = [];
    next_handle_value = 1000;
  }

  -- The trees are swapped after the previous one has been cleared.
  unfoldable pub reset : HandleTree Value → HandleTree Value
  reset t = record t { obj_by_handle = []; handle_tree = []; prev_handle_tree = t.handle_tree }

  unfoldable pub create_new_handle : HandleTree Value → Handle × HandleTree Value
  create_new_handle t =
      let next : ℕ = (t.next_handle_value + 1) % 2 ^ 64 in
      (next, record t { next_handle_value = next })

  -- The handle that the previous generation gave to the key, or a new one.
  unfoldable pub pick : TreeKey → HandleTree Value → Handle × HandleTree Value
  pick key t = elim (lookup key t.prev_handle_tree) [ some h ↦ (h, t) | none ↦ create_new_handle t ]

  -- An occupied entry is left alone, and a second handle is made.
  unfoldable pub place :
      Option Handle → String → Value → Handle × HandleTree Value → Handle × HandleTree Value
  place parent key value (h, t) = elim (contains_key h t.obj_by_handle) [
    | false ↦ (h, record t { obj_by_handle = insert h (parent, key, value) t.obj_by_handle })
    | true ↦
        let (h', t') = create_new_handle t in
        (h', record t' { obj_by_handle = insert h' (parent, key, value) t'.obj_by_handle })
  ]

  unfoldable pub register : TreeKey → Handle × HandleTree Value → Handle × HandleTree Value
  register key (h, t) = (h, record t { handle_tree = insert key h t.handle_tree })

  -- `assert!(self.obj_by_handle.contains_key(&ph))`
  unfoldable pub parent_exists : Option Handle → HandleTree Value → Bool
  parent_exists none t = true
  parent_exists (some ph) t = contains_key ph t.obj_by_handle

  unfoldable pub create :
      Option Handle → String → Value → HandleTree Value → Option (Handle × HandleTree Value)
  unfolding create_new_handle pick place register parent_exists
  create parent key value t =
      if parent_exists parent t
      then some (register (parent, key) (place parent key value (pick (parent, key) t)))
      else none

  unfoldable pub get : Handle → HandleTree Value → Option Value
  get h t = do v ← lookup h t.obj_by_handle; some v.2

  unfoldable pub get_full_info : Handle → HandleTree Value → Option (Option Handle × String × Value)
  get_full_info h t = lookup h t.obj_by_handle
