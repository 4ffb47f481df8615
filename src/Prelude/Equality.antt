-- ===== src/Prelude/Equality.antt =====
-- Equality tests as an interface (Rust's `Eq`), with the instances that the maps' keys need.
use Prim.Native.Nat.{ℕ}
use Prim.Native.String.{String}
use mathlib.Core.Path.{◌≡◌, refl}
use mathlib.Core.Logic.{◌↔◌, ◌≢◌}
use mathlib.Core.Bool.{Bool, true, false, ◌&&◌}
use mathlib.Core.Option.{Option, none, some}
use mathlib.Core.List.{List, [], ◌∷◌}
use native.Mathlib.Omega.{arith}
use text.Mathlib.Text.{◌==◌ as text_eqb}
use text.Mathlib.TextEquality.{eq_iff}
use codelldb.Prelude.Tests.{◌==◌ as ℕ_eqb, ==_iff}

pub record Eq {ℓ} (A : Type ℓ) : Type ℓ where
  pub eqb : A → A → Bool
  pub eqb_iff : (a b : A) → (eqb a b ≡ true) ↔ (a ≡ b)

infix 50 ◌≐◌
abbrev pub ◌≐◌ {ℓ} : {A : Type ℓ} ⦃eq : Eq A⦄ → A → A → Bool
◌≐◌ ⦃eq⦄ = eq.eqb

module _ {ℓ} {A : Type ℓ} ⦃e : Eq A⦄ where
  pub eqb_self : (a : A) → (a ≐ a) ≡ true
  eqb_self a = (e.eqb_iff a a).1 refl

  pub eqb_ne : (a b : A) → a ≢ b → (a ≐ b) ≡ false
  eqb_ne a b h = ground (arith, e.eqb_iff a b)

instance abbrev pub ℕ_eq : Eq ℕ
ℕ_eq = record { eqb = ℕ_eqb; eqb_iff = ==_iff }

instance abbrev pub text_eq : Eq String
text_eq = record { eqb = text_eqb; eqb_iff = eq_iff }

module _ {ℓ} {A : Type ℓ} ⦃e : Eq A⦄ where
  abbrev pub option_eqb : Option A → Option A → Bool
  option_eqb none none = true
  option_eqb (some a) (some b) = a ≐ b
  option_eqb _ _ = false

  pub option_eqb_iff : (a b : Option A) → (option_eqb a b ≡ true) ↔ (a ≡ b)
  option_eqb_iff none none = ground arith
  option_eqb_iff none (some b) = ground arith
  option_eqb_iff (some a) none = ground arith
  option_eqb_iff (some a) (some b) = ground (arith, e.eqb_iff a b)

  instance abbrev pub option_eq : Eq (Option A)
  option_eq = record { eqb = option_eqb; eqb_iff = option_eqb_iff }

module _ {ℓ κ} {A : Type ℓ} {B : Type κ} ⦃e : Eq A⦄ ⦃f : Eq B⦄ where
  abbrev pub pair_eqb : A × B → A × B → Bool
  pair_eqb p q = e.eqb p.0 q.0 && f.eqb p.1 q.1

  pub pair_eqb_iff : (p q : A × B) → (pair_eqb p q ≡ true) ↔ (p ≡ q)
  pair_eqb_iff (a, b) (c, d) = ground (arith, e.eqb_iff a c, f.eqb_iff b d)

  instance abbrev pub pair_eq : Eq (A × B)
  pair_eq = record { eqb = pair_eqb; eqb_iff = pair_eqb_iff }

module _ {ℓ} {A : Type ℓ} ⦃e : Eq A⦄ where
  abbrev pub list_eqb : List A → List A → Bool
  list_eqb [] [] = true
  list_eqb (a ∷ s) (b ∷ t) = e.eqb a b && list_eqb s t
  list_eqb _ _ = false

  pub list_eqb_iff : (s t : List A) → (list_eqb s t ≡ true) ↔ (s ≡ t)
  list_eqb_iff [] [] = ground arith
  list_eqb_iff [] (b ∷ t) = ground arith
  list_eqb_iff (a ∷ s) [] = ground arith
  list_eqb_iff (a ∷ s) (b ∷ t) = ground (arith, e.eqb_iff a b, list_eqb_iff s t)

  instance abbrev pub list_eq : Eq (List A)
  list_eq = record { eqb = list_eqb; eqb_iff = list_eqb_iff }
