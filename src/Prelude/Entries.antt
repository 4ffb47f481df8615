-- ===== src/Prelude/Entries.antt =====
-- The entries of an association list, shadowed ones included.
use mathlib.Core.Path.{◌≡◌}
use mathlib.Core.Logic.{◌⊎◌, inl, inr}
use mathlib.Core.Bool.{true}
use mathlib.Core.Option.{some}
use mathlib.Core.List.{[], ◌∷◌}
use native.Mathlib.Omega.{arith}
use codelldb.Prelude.Tests.{Bool-cases}
use codelldb.Prelude.Equality.{Eq, ◌≐◌}
use codelldb.Prelude.Map.{Map, lookup, insert, contains_key}

module _ {K V : Type 0} ⦃e : Eq K⦄ where
  abbrev pub Entry : K → V → Map K V → Type 0
  Entry k v [] = ⊥
  Entry k v ((j, w) ∷ m) = ((j ≡ k) × (w ≡ v)) ⊎ Entry k v m

  -- What is found is an entry.
  pub lookup-Entry : (k : K) (v : V) (m : Map K V) → lookup k m ≡ some v → Entry k v m
  unfolding lookup
  lookup-Entry k v [] h = cc
  lookup-Entry k v ((j, w) ∷ m) h = elim (Bool-cases (j ≐ k)) [
    | inl same ↦ inl ((e.eqb_iff j k).0 same, ground arith)
    | inr other ↦ inr (lookup-Entry k v m (ground arith))
  ]

  -- An entry behind an insertion is the new one, or was there.
  pub Entry-insert :
      (k : K) (v : V) (j : K) (w : V) (m : Map K V)
      → Entry k v (insert j w m)
      → ((j ≡ k) × (w ≡ v)) ⊎ Entry k v m
  unfolding insert
  Entry-insert k v j w [] (inl h) = inl h
  Entry-insert k v j w [] (inr h) = elim h [ ]
  Entry-insert k v j w ((i, u) ∷ m) h = ground (arith, Entry-insert k v j w m)

  -- A key that has an entry is found.
  pub Entry-contains_key : (k : K) (v : V) (m : Map K V) → Entry k v m → contains_key k m ≡ true
  unfolding contains_key lookup
  Entry-contains_key k v [] h = elim h [ ]
  Entry-contains_key k v ((j, w) ∷ m) (inl h) = ground (arith, e.eqb_iff j k, h.0)
  Entry-contains_key k v ((j, w) ∷ m) (inr h) = ground (arith, Entry-contains_key k v m h)
