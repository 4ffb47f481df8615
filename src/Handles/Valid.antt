-- ===== src/Handles/Valid.antt =====
-- The invariant of the handle table, and what `create` does on every branch.
use Prim.Native.String.{String}
use codelldb.Prelude.{
  ◌↔◌, ℕ, ◌+◌, ◌^◌, ◌≤◌, ◌<◌, ◌≡◌, ◌≢◌, refl, ◌⊎◌, inl, inr, true, Option, none, some, arith, ◌>>=◌,
  ◌==◌, Bool-cases, Option-cases, sym,
}
use codelldb.Prelude.Equality.{text_eq, ℕ_eq, option_eq, pair_eq}
use codelldb.Prelude.Map.{
  has, lookup, insert, contains_key, lookup-insert_self, lookup-insert_ne, lookup-insert_cases,
}
use codelldb.Handles.{Handle, TreeKey, HandleTree, new, reset, parent_exists, create, get}

module _ {Value : Type 0} where
  abbrev pub obj : HandleTree Value → Handle → Option (Option Handle × String × Value)
  obj t h = lookup h t.obj_by_handle

  -- The parent and key under which a live handle was made.
  abbrev pub key_of : HandleTree Value → Handle → Option TreeKey
  key_of t h = do o ← obj t h; some (o.0, o.1)

  pub record IsValid (t : HandleTree Value) : Type 0 where
    pub obj_le : (h : Handle) → has (obj t h) ≡ true → h ≤ t.next_handle_value
    pub tree_key :
        (k : TreeKey) (h : Handle) → lookup k t.handle_tree ≡ some h → key_of t h ≡ some k
    pub prev_le :
        (k : TreeKey) (h : Handle) → lookup k t.prev_handle_tree ≡ some h → h ≤ t.next_handle_value
    pub prev_unique :
        (k j : TreeKey) (h : Handle)
        → lookup k t.prev_handle_tree ≡ some h
        → lookup j t.prev_handle_tree ≡ some h
        → k ≡ j
    pub prev_key :
        (k j : TreeKey) (h : Handle)
        → lookup k t.prev_handle_tree ≡ some h
        → key_of t h ≡ some j
        → k ≡ j
    pub parent_live :
        (h p : Handle) (s : String) → key_of t h ≡ some (some p, s) → has (obj t p) ≡ true

  -- Where `create` takes its handle from.
  abbrev pub Source : TreeKey → HandleTree Value → Handle → ℕ → Type 0
  Source k t h next =
      ((lookup k t.prev_handle_tree ≡ some h) × (obj t h ≡ none) × (next ≡ t.next_handle_value))
      ⊎ ((h ≡ t.next_handle_value + 1) × (next ≡ t.next_handle_value + 1))

  pub record Created (p : Option Handle) (s : String) (v : Value) (t : HandleTree Value)
      (h : Handle) (u : HandleTree Value) : Type 0 where
    pub parent : parent_exists p t ≡ true
    pub objs : u.obj_by_handle ≡ insert h (p, s, v) t.obj_by_handle
    pub tree : u.handle_tree ≡ insert (p, s) h t.handle_tree
    pub prev : u.prev_handle_tree ≡ t.prev_handle_tree
    pub source : Source (p, s) t h u.next_handle_value

  above_free :
      {t : HandleTree Value} → IsValid t → (h : Handle) → t.next_handle_value < h → obj t h ≡ none
  above_free {t} w h above = elim (Option-cases (obj t h)) [
    | inl e ↦ e
    | inr (o, e) ↦ absurd (omega (arith, w.obj_le h (rw e refl)))
  ]

  module _ (p : Option Handle) (s : String) (v : Value) (t : HandleTree Value) where
    create_on :
        {h : Handle} {u : HandleTree Value}
        → t.next_handle_value + 1 < 2 ^ 63
        → obj t (t.next_handle_value + 1) ≡ none
        → create p s v t ≡ some (h, u)
        → Created p s v t h u
    unfolding create contains_key
    create_on {h} {u} bound free e = ground arith

    -- While the counter has not reached the end of `i64`, a handle that `create` returns is the
    -- one that the previous generation had for that parent and key, if no live object has it, and
    -- one above all that were given out, if not.
    pub create-Created :
        {h : Handle} {u : HandleTree Value}
        → IsValid t
        → t.next_handle_value + 1 < 2 ^ 63
        → create p s v t ≡ some (h, u)
        → Created p s v t h u
    create-Created w bound e = create_on bound (above_free w _ (omega arith)) e

  module _ {p : Option Handle} {s : String} {v : Value} {t : HandleTree Value} {h : Handle}
      {u : HandleTree Value} (w : IsValid t) (c : Created p s v t h u) where
    Created-free : obj t h ≡ none
    Created-free = elim c.source [ inl q ↦ q.1 | inr q ↦ above_free w h (omega arith) ]

    Created-obj_self : obj u h ≡ some (p, s, v)
    Created-obj_self = rw (c.objs, lookup-insert_self)

    Created-obj_ne : (j : Handle) → j ≢ h → obj u j ≡ obj t j
    Created-obj_ne j ne =
        rw c.objs (lookup-insert_ne h j (p, s, v) t.obj_by_handle (λ q. ne (sym q)))

    pub key_of-Created :
        (j : Handle) (k : TreeKey)
        → key_of u j ≡ some k
        → ((j ≡ h) × (k ≡ (p, s))) ⊎ ((j ≢ h) × (key_of t j ≡ some k))
    key_of-Created j k e = elim (Bool-cases (j == h)) [
      | inl eq ↦ inl (ground arith, ground (arith, Created-obj_self))
      | inr ne ↦ inr (ground arith, ground (arith, Created-obj_ne j))
    ]

    Created-keep : (j : Handle) (k : TreeKey) → key_of t j ≡ some k → key_of u j ≡ some k
    Created-keep j k e = ground (arith, Created-free, Created-obj_ne j)

    Created-bounds : (h ≤ u.next_handle_value) × (t.next_handle_value ≤ u.next_handle_value)
    Created-bounds = elim c.source [
      | inl q ↦ let fits = w.prev_le (p, s) h q.0 in omega arith
      | inr q ↦ omega arith
    ]

    Created-obj_le : (j : Handle) → has (obj u j) ≡ true → j ≤ u.next_handle_value
    Created-obj_le j e = ground (arith, Created-bounds, Created-obj_ne j, w.obj_le j)

    Created-tree_key :
        (k : TreeKey) (j : Handle) → lookup k u.handle_tree ≡ some j → key_of u j ≡ some k
    Created-tree_key k j e = elim (lookup-insert_cases (p, s) k h t.handle_tree (rw c.tree at e)) [
      | inl q ↦ ground (arith, Created-obj_self)
      | inr q ↦ Created-keep j k (w.tree_key k j q.1)
    ]

    Created-prev_key :
        (k i : TreeKey) (j : Handle)
        → lookup k u.prev_handle_tree ≡ some j
        → key_of u j ≡ some i
        → k ≡ i
    Created-prev_key k i j e f = elim (key_of-Created j i f) [
      | inr q ↦ w.prev_key k i j (rw c.prev at e) q.1
      | inl q ↦ elim c.source [
        | inl r ↦ rw q.1 (w.prev_unique k (p, s) j (rw c.prev at e) (rw q.0 r.0))
        | inr r ↦ let fits = w.prev_le k j (rw c.prev at e) in absurd (omega arith)
      ]
    ]

    Created-has : (q : Handle) → has (obj t q) ≡ true → has (obj u q) ≡ true
    Created-has q e = ground (arith, Created-free, Created-obj_ne q)

    Created-parent : (q : Handle) → p ≡ some q → has (obj t q) ≡ true
    unfolding parent_exists contains_key
    Created-parent q e = ground (arith, c.parent)

    Created-parent_live :
        (j q : Handle) (r : String) → key_of u j ≡ some (some q, r) → has (obj u q) ≡ true
    Created-parent_live j q r e = elim (key_of-Created j (some q, r) e) [
      | inl x ↦ Created-has q (Created-parent q (cc (x.1)))
      | inr x ↦ Created-has q (w.parent_live j q r x.1)
    ]

    pub Created-IsValid : IsValid u
    Created-IsValid = record {
      obj_le = Created-obj_le;
      tree_key = Created-tree_key;
      prev_le = λ k j e.
          let fits = w.prev_le k j (rw c.prev at e) in let up = Created-bounds in omega arith;
      prev_unique = λ k i j. rw c.prev (w.prev_unique k i j);
      prev_key = Created-prev_key;
      parent_live = Created-parent_live;
    }

  -- `new` and `reset` give valid tables, and while the counter is inside `i64` so does `create`.
  pub new-IsValid : IsValid (new {Value = Value})
  unfolding new lookup
  new-IsValid = grind arith

  pub reset-IsValid : {t : HandleTree Value} → IsValid t → IsValid (reset t)
  unfolding reset lookup
  reset-IsValid {t} w = record {
    obj_le = λ h e. cc;
    tree_key = λ k h e. cc;
    prev_le = λ k h e. w.obj_le h (ground (arith, w.tree_key k h e));
    prev_unique = λ k j h e f. ground (arith, w.tree_key k h e, w.tree_key j h f);
    prev_key = λ k j h e f. cc;
    parent_live = λ h p s e. cc;
  }

  -- As long as the counter is inside `i64`, a `create` that does not panic keeps a valid table
  -- valid.
  pub create-IsValid :
      (p : Option Handle) (s : String) (v : Value) (t : HandleTree Value) {h : Handle}
      {u : HandleTree Value}
      → IsValid t
      → t.next_handle_value + 1 < 2 ^ 63
      → create p s v t ≡ some (h, u)
      → IsValid u
  create-IsValid p s v t w bound e = Created-IsValid w (create-Created p s v t w bound e)

  -- `create` panics exactly when the parent is given and is not live.
  pub create_panics :
      (p : Option Handle) (s : String) (v : Value) (t : HandleTree Value)
      → (create p s v t ≡ none) ↔ ((q : Handle) × (p ≡ some q) × (get q t ≡ none))
  unfolding create get contains_key
  create_panics none s v t = (λ e. cc, λ q. ground arith)
  create_panics (some q) s v t = (λ e. (q, refl, ground arith), λ x. ground arith)

  -- In a valid table with the counter inside `i64`, a `create` that does not panic stores the value
  -- under a handle that no live object had, and leaves the value of every other handle.
  pub get-create :
      (p : Option Handle) (s : String) (v : Value) (t : HandleTree Value) {h : Handle}
      {u : HandleTree Value}
      → IsValid t
      → t.next_handle_value + 1 < 2 ^ 63
      → create p s v t ≡ some (h, u)
      → (get h u ≡ some v) × (get h t ≡ none) × ((j : Handle) → j ≢ h → get j u ≡ get j t)
  unfolding get
  get-create p s v t {h} {u} w bound e =
      let c = create-Created p s v t w bound e in
      (rw (Created-obj_self w c), rw (Created-free w c), λ j ne. rw (Created-obj_ne w c j ne))
