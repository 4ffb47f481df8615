-- ===== src/Prelude/Done.antt =====
-- Total correctness of stateful code: a run ends with a value, and the value and the state after it
-- fulfil a condition.
use mathlib.Core.Path.{◌≡◌, refl}
use codelldb.Prelude.Exec.{ok, Exec, pure, ◌>>=◌}

pub record Done {S A : Type 0} (m : Exec S A) (s : S) (Q : A → S → Type 0) : Type 0 where
  pub value : A
  pub after : S
  pub ends : m s ≡ (ok value, after)
  pub post : Q value after

module _ {S A : Type 0} where
  pub Done-pure : (a : A) (s : S) (Q : A → S → Type 0) → Q a s → Done (pure a) s Q
  Done-pure a s Q q = record { value = a; after = s; ends = refl; post = q }

module _ {S A B : Type 0} (m : Exec S A) (f : A → Exec S B) (s : S) {P : A → S → Type 0}
    (Q : B → S → Type 0) where
  -- One step, and what follows from where it ended.
  pub Done-bind : Done m s P → ((a : A) (u : S) → P a u → Done (f a) u Q) → Done (m >>= f) s Q
  Done-bind d k =
      let next = k d.value d.after d.post in
      record {
        value = next.value;
        after = next.after;
        ends = rw (d.ends) (next.ends);
        post = next.post;
      }
