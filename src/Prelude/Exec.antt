-- ===== src/Prelude/Exec.antt =====
-- Code that mutates the session, may return an error by `?`, and may panic. What was changed before
-- an error stays changed.
use codelldb.Prelude.Text.{Chars}

pub data Outcome (A : Type 0) : Type 0 where
  ok : A → Outcome A
  error : Chars → Outcome A
  panic : Outcome A

abbrev pub Exec : Type 0 → Type 0 → Type 0
Exec S A = S → Outcome A × S

module _ {S A : Type 0} where
  abbrev pub pure : A → Exec S A
  pure a s = (ok a, s)

  abbrev pub fail : Chars → Exec S A
  fail e s = (error e, s)

  abbrev pub crash : Exec S A
  crash s = (panic, s)

module _ {S A B : Type 0} where
  abbrev pub bind_outcome : Outcome A → (A → Exec S B) → Exec S B
  bind_outcome (ok a) f s = f a s
  bind_outcome (error e) f s = (error e, s)
  bind_outcome panic f s = (panic, s)

  infixl 5 ◌>>=◌
  abbrev pub ◌>>=◌ : Exec S A → (A → Exec S B) → Exec S B
  ◌>>=◌ m f s = bind_outcome (m s).0 f (m s).1

infixl 5 ◌>>◌
abbrev pub ◌>>◌ : {S B : Type 0} → Exec S (Unit {0}) → Exec S B → Exec S B
m >> k = m >>= λ _. k

-- A change that cannot fail.
abbrev pub modify : {S : Type 0} → (S → S) → Exec S (Unit {0})
modify f s = (ok tt, f s)

abbrev pub state : {S : Type 0} → Exec S S
state s = (ok s, s)
