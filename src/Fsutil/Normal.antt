-- ===== src/Fsutil/Normal.antt =====
-- A normalized path has no `.` and no `..`, and is its own normalization.
use codelldb.Prelude.{
  ◌∙◌, ◌≡◌, ap, refl, sym, [], ◌∷◌, ◌++◌, append_assoc, append-nil, All, All-append,
}
use codelldb.Prelude.Text.{Chars}
use codelldb.Fsutil.{
  Component, prefix, root_dir, cur_dir, parent_dir, normal, PathBuf, pop, push, normalize_from,
  normalize_path,
}

abbrev pub IsPlain : Component → Type 0
IsPlain cur_dir = ⊥
IsPlain parent_dir = ⊥
IsPlain _ = Unit

All-pop : (p : PathBuf) → All IsPlain p → All IsPlain (pop p)
unfolding pop
All-pop [] h = tt
All-pop (prefix s ∷ []) h = h
All-pop (root_dir ∷ []) h = h
All-pop (cur_dir ∷ []) h = tt
All-pop (parent_dir ∷ []) h = tt
All-pop (normal s ∷ []) h = tt
All-pop (c ∷ d ∷ p) h = (h.0, All-pop (d ∷ p) h.1)

All-normalize_from : (acc p : PathBuf) → All IsPlain acc → All IsPlain (normalize_from acc p)
unfolding normalize_from
All-normalize_from acc [] h = h
All-normalize_from acc (prefix s ∷ p) h =
    All-normalize_from (push acc (prefix s)) p (All-append IsPlain acc _ h (tt, tt))
All-normalize_from acc (root_dir ∷ p) h =
    All-normalize_from (push acc root_dir) p (All-append IsPlain acc _ h (tt, tt))
All-normalize_from acc (cur_dir ∷ p) h = All-normalize_from acc p h
All-normalize_from acc (parent_dir ∷ p) h = All-normalize_from (pop acc) p (All-pop acc h)
All-normalize_from acc (normal s ∷ p) h =
    All-normalize_from (push acc (normal s)) p (All-append IsPlain acc _ h (tt, tt))

normalize_from-plain : (acc p : PathBuf) → All IsPlain p → normalize_from acc p ≡ acc ++ p
unfolding normalize_from
normalize_from-plain acc [] h = sym (append-nil acc)
normalize_from-plain acc (prefix s ∷ p) h =
    normalize_from-plain (push acc (prefix s)) p h.1 ∙ append_assoc acc (prefix s ∷ []) p
normalize_from-plain acc (root_dir ∷ p) h =
    normalize_from-plain (push acc root_dir) p h.1 ∙ append_assoc acc (root_dir ∷ []) p
normalize_from-plain acc (cur_dir ∷ p) h = elim h.0 [ ]
normalize_from-plain acc (parent_dir ∷ p) h = elim h.0 [ ]
normalize_from-plain acc (normal s ∷ p) h =
    normalize_from-plain (push acc (normal s)) p h.1 ∙ append_assoc acc (normal s ∷ []) p

-- A normalized path has no component `.` or `..`, and normalizing it again changes nothing.
pub normalize_path_twice :
    (p : PathBuf)
    → All IsPlain (normalize_path p) × (normalize_path (normalize_path p) ≡ normalize_path p)
unfolding normalize_path
normalize_path_twice p =
    let plain = All-normalize_from [] p tt in
    (plain, normalize_from-plain [] (normalize_from [] p) plain)

normalize_from-append :
    (acc p q : PathBuf) → normalize_from acc (p ++ q) ≡ normalize_from (normalize_from acc p) q
unfolding normalize_from
normalize_from-append acc [] q = refl
normalize_from-append acc (prefix s ∷ p) q = normalize_from-append (push acc (prefix s)) p q
normalize_from-append acc (root_dir ∷ p) q = normalize_from-append (push acc root_dir) p q
normalize_from-append acc (cur_dir ∷ p) q = normalize_from-append acc p q
normalize_from-append acc (parent_dir ∷ p) q = normalize_from-append (pop acc) p q
normalize_from-append acc (normal s ∷ p) q = normalize_from-append (push acc (normal s)) p q

pop-push : (p : PathBuf) (s : Chars) → pop (push p (normal s)) ≡ p
unfolding pop
pop-push [] s = refl
pop-push (prefix t ∷ []) s = refl
pop-push (root_dir ∷ []) s = refl
pop-push (cur_dir ∷ []) s = refl
pop-push (parent_dir ∷ []) s = refl
pop-push (normal t ∷ []) s = refl
pop-push (c ∷ d ∷ p) s = ap (λ r. c ∷ r) (pop-push (d ∷ p) s)

-- Anywhere in a path, a name with `..` behind it, and a `.`, may be left out before normalizing.
pub normalize_path_steps :
    (p q : PathBuf) (s : Chars)
    → (normalize_path (p ++ normal s ∷ parent_dir ∷ q) ≡ normalize_path (p ++ q))
      × (normalize_path (p ++ cur_dir ∷ q) ≡ normalize_path (p ++ q))
unfolding normalize_path normalize_from
normalize_path_steps p q s =
    let whole = normalize_from-append [] p q in
    (
      normalize_from-append [] p (normal s ∷ parent_dir ∷ q)
          ∙ ap (λ acc. normalize_from acc q) (pop-push (normalize_from [] p) s)
          ∙ sym whole,
      normalize_from-append [] p (cur_dir ∷ q) ∙ sym whole,
    )
