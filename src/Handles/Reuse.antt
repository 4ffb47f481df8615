-- ===== src/Handles/Reuse.antt =====
-- Across `reset`, a key below the same parent gets back the handle that it had, whatever else is
-- created before it, so that a client may keep what it shows by handle.
use Prim.Native.String.{String}
use mathlib.Core.Path.{subst}
use codelldb.Prelude.{
  ◌+◌, ◌^◌, ◌≤◌, ◌<◌, ◌≡◌, ◌≢◌, refl, inl, inr, true, Option-cases, Option, none, some, List, [],
  ◌∷◌, arith, ◌>>=◌, length, sym, ◌∙◌,
}
use codelldb.Prelude.Equality.{text_eq, ℕ_eq, option_eq, pair_eq}
use codelldb.Prelude.Map.{lookup, insert, contains_key}
use codelldb.Handles.{Handle, TreeKey, HandleTree, reset, parent_exists, create}
use codelldb.Handles.Valid.{
  IsValid, Created, Created-IsValid, key_of, key_of-Created, obj, create-Created, reset-IsValid,
}

module _ {Value : Type 0} where
  -- Calls of `create` one after another; `none` if one of them panics.
  abbrev pub create_all :
      List (Option Handle × String × Value) → HandleTree Value → Option (HandleTree Value)
  create_all [] t = some t
  create_all (c ∷ cs) t = do (h, u) ← create c.0 c.1 c.2 t; create_all cs u

  -- No live object was made under the key.
  abbrev Unused : TreeKey → HandleTree Value → Type 0
  Unused k t = (h : Handle) → key_of t h ≢ some k

  abbrev pub Others : TreeKey → List (Option Handle × String × Value) → Type 0
  Others k [] = Unit
  Others k (c ∷ cs) = ((c.0, c.1) ≢ k) × Others k cs

  create_prev :
      (p : Option Handle) (s : String) (v : Value) (t : HandleTree Value) (h : Handle)
      → lookup (p, s) t.prev_handle_tree ≡ some h
      → obj t h ≡ none
      → parent_exists p t ≡ true
      → (u : HandleTree Value) × (create p s v t ≡ some (h, u))
  unfolding create contains_key
  create_prev p s v t h found free live = (
    record t {
      obj_by_handle = insert h (p, s, v) t.obj_by_handle;
      handle_tree = insert (p, s) h t.handle_tree;
    },
    ground arith,
  )

  Created-next :
      {p : Option Handle} {s : String} {v : Value} {t : HandleTree Value} {h : Handle}
      {u : HandleTree Value}
      → Created p s v t h u
      → u.next_handle_value ≤ t.next_handle_value + 1
  Created-next c = elim c.source [ inl q ↦ omega arith | inr q ↦ omega arith ]

  Created-Unused :
      {p : Option Handle} {s : String} {v : Value} {t : HandleTree Value} {h : Handle}
      {u : HandleTree Value} (k : TreeKey)
      → IsValid t
      → Created p s v t h u
      → (p, s) ≢ k
      → Unused k t
      → Unused k u
  Created-Unused k w c ne unused j e = elim (key_of-Created w c j k e) [
    | inl q ↦ ne (sym q.1)
    | inr q ↦ unused j q.1
  ]

  -- What holds after any calls of `create` that stay inside `i64`.
  record After (k : TreeKey) (cs : List (Option Handle × String × Value)) (t u : HandleTree Value)
      : Type 0 where
    valid : IsValid u
    prev : u.prev_handle_tree ≡ t.prev_handle_tree
    unused : Others k cs → Unused k t → Unused k u

  After-step :
      (k : TreeKey) (c : Option Handle × String × Value)
      (cs : List (Option Handle × String × Value)) {t : HandleTree Value} {h : Handle}
      {u z : HandleTree Value}
      → IsValid t
      → Created c.0 c.1 c.2 t h u
      → After k cs u z
      → After k (c ∷ cs) t z
  After-step k c cs w made a = record {
    valid = a.valid;
    prev = a.prev ∙ made.prev;
    unused = λ ne free. a.unused ne.1 (Created-Unused k w made ne.0 free);
  }

  create_all-After :
      (k : TreeKey) (cs : List (Option Handle × String × Value)) (t : HandleTree Value)
      {u : HandleTree Value}
      → IsValid t
      → t.next_handle_value + length cs < 2 ^ 63
      → create_all cs t ≡ some u
      → After k cs t u
  create_all-After k [] t {u} w bound e =
      let same : t ≡ u = cc in
      subst (After k [] t) same (record { valid = w; prev = refl; unused = λ _ free. free })
  create_all-After k (c ∷ cs) t w bound e = elim (Option-cases (create c.0 c.1 c.2 t)) [
    | inl x ↦ cc (rw x at e)
    | inr ((h, t'), x) ↦
        let made = create-Created c.0 c.1 c.2 t w (omega arith) x in
        let more = Created-next made in
        After-step k c cs w made
          (create_all-After k cs t' (Created-IsValid w made) (omega arith) (rw x at e))
  ]

  module _ (k : TreeKey) (t : HandleTree Value) where
    -- What `reset` leaves: no object, and the tree as the previous one.
    reset_state :
        ((h : Handle) → obj (reset t) h ≡ none)
        × ((reset t).prev_handle_tree ≡ t.handle_tree)
        × ((reset t).next_handle_value ≡ t.next_handle_value)
    unfolding reset lookup
    reset_state = (λ h. refl, refl, refl)

    reset-Unused : Unused k (reset t)
    reset-Unused h e = cc (reset_state.0 h)

  prev_free :
      {t : HandleTree Value} (k : TreeKey) (h : Handle)
      → IsValid t
      → Unused k t
      → lookup k t.prev_handle_tree ≡ some h
      → obj t h ≡ none
  prev_free {t} k h w unused found = elim (Option-cases (obj t h)) [
    | inl e ↦ e
    | inr (o, e) ↦ absurd (
        unused h
          let j : TreeKey = (o.0, o.1) in
            let e' : key_of t h ≡ some j = rw e refl in rw (w.prev_key k j h found e') e')
  ]

  -- In a valid table whose tree gives `h` to the parent and key `k`: after `reset`, and then any
  -- calls of `create` under other parents or keys that do not panic and stay inside `i64`,
  -- creating `k` again returns `h`, if its parent is live.
  pub reset_reuse :
      (k : TreeKey) (v : Value) (cs : List (Option Handle × String × Value))
      (t u : HandleTree Value) (h : Handle)
      → IsValid t
      → t.next_handle_value + length cs < 2 ^ 63
      → lookup k t.handle_tree ≡ some h
      → Others k cs
      → create_all cs (reset t) ≡ some u
      → parent_exists k.0 u ≡ true
      → (w : HandleTree Value) × (create k.0 k.1 v u ≡ some (h, w))
  reset_reuse k v cs t u h w bound found ne made live =
      let a =
        create_all-After k cs (reset t) (reset-IsValid w) (omega (arith, (reset_state k t).2))
          made in
      let prev : lookup k u.prev_handle_tree ≡ some h = rw (a.prev, (reset_state k t).1) found in
      create_prev k.0 k.1 v u h prev (prev_free k h a.valid (a.unused ne (reset-Unused k t)) prev)
        live

  -- In a valid table whose tree gives `h` to the parent and key `k`: after `reset`, and then any
  -- calls of `create` that do not panic and stay inside `i64`, if `h` is live it was made under `k`.
  pub reset_keeps_key :
      (k j : TreeKey) (cs : List (Option Handle × String × Value)) (t u : HandleTree Value)
      (h : Handle)
      → IsValid t
      → t.next_handle_value + length cs < 2 ^ 63
      → lookup k t.handle_tree ≡ some h
      → create_all cs (reset t) ≡ some u
      → key_of u h ≡ some j
      → k ≡ j
  reset_keeps_key k j cs t u h w bound found made live =
      let a =
        create_all-After k cs (reset t) (reset-IsValid w) (omega (arith, (reset_state k t).2))
          made in
      a.valid.prev_key k j h (rw (a.prev, (reset_state k t).1) found) live
