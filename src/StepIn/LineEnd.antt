-- ===== src/StepIn/LineEnd.antt =====
-- Where a statement ends, without the code's loop.
use mathlib.Core.Path.{subst}
use codelldb.Prelude.{
  ◌≡◌, ◌⊎◌, inl, inr, refl, sym, ◌≤◌, max, ◌&&◌, List, [], ◌∷◌, ◌++◌, ltb, ◌==◌, arith, All,
  Bool-cases,
}
use codelldb.Prelude.Equality.{ℕ_eq, list_eq, ◌≐◌}
use codelldb.Disassembly.{Address}
use codelldb.StepIn.{Lldb}
use codelldb.StepIn.Targets.{LineEntry, max_end_addr}

module _ {A : Type 0} where
  abbrev pub Among : A → List A → Type 0
  Among x [] = ⊥
  Among x (y ∷ ys) = (y ≡ x) ⊎ Among x ys

  -- No element is there twice.
  abbrev pub Distinct : List A → Type 0
  Distinct [] = Unit
  Distinct (x ∷ xs) = (Among x xs → ⊥) × Distinct xs

  pub Among-append :
      (x y : A) (ys : List A)
      → (Among x (ys ++ y ∷ []) → Among x ys ⊎ (y ≡ x))
        × (Among x ys ⊎ (y ≡ x) → Among x (ys ++ y ∷ []))
  Among-append x y [] = (λ h. ground (arith, h), λ h. ground (arith, h))
  Among-append x y (z ∷ ys) =
      let rest = Among-append x y ys in
      (
        λ h. elim h [
          | inl here ↦ inl (inl here)
          | inr later ↦ elim (rest.0 later) [ inl there ↦ inl (inr there) | inr last ↦ inr last ]
        ],
        λ h. elim h [
          | inl (inl here) ↦ inl here
          | inl (inr there) ↦ inr (rest.1 (inl there))
          | inr last ↦ inr (rest.1 (inr last))
        ],
      )

module _ (lldb : Lldb) where
  -- The entries that belong to the line of another.
  abbrev pub OnLine : LineEntry → LineEntry → Type 0
  OnLine curr_le le = (le.line ≡ curr_le.line) × (le.filename ≡ curr_le.filename)

  abbrev pub IsLast : LineEntry → List LineEntry → Address → Type 0
  IsLast curr_le entries end =
      (end ≡ 0) ⊎ ((le : LineEntry) × Among le entries × OnLine curr_le le × (le.end_address ≡ end))

  -- The last address at which an entry of the line ends, or 0 without such an entry.
  abbrev pub IsEnd : LineEntry → List LineEntry → Address → Type 0
  IsEnd curr_le entries end =
      All (λ le. OnLine curr_le le → le.end_address ≤ end) entries × IsLast curr_le entries end

  All-below :
      (curr_le : LineEntry) (n m : Address) (entries : List LineEntry)
      → n ≤ m
      → All (λ le. OnLine curr_le le → le.end_address ≤ n) entries
      → All (λ le. OnLine curr_le le → le.end_address ≤ m) entries
  All-below curr_le n m [] h all = tt
  All-below curr_le n m (le ∷ entries) h all =
      (λ on. (let a = all.0 on in omega arith), All-below curr_le n m entries h all.1)

  IsEnd-later :
      (curr_le le : LineEntry) (entries : List LineEntry) (end : Address)
      → IsLast curr_le entries end
      → IsLast curr_le (le ∷ entries) end
  IsEnd-later curr_le le entries end (inl zero_end) = inl zero_end
  IsEnd-later curr_le le entries end (inr (e, among, on, ends)) = inr (e, inr among, on, ends)

  pub max_end_addr-IsEnd :
      (curr_le : LineEntry) (entries : List LineEntry)
      → IsEnd curr_le entries (max_end_addr lldb curr_le entries)
  unfolding max_end_addr
  max_end_addr-IsEnd curr_le [] = (tt, inl refl)
  max_end_addr-IsEnd curr_le (le ∷ entries) =
      let rest = max_end_addr-IsEnd curr_le entries in
      let end = max_end_addr lldb curr_le entries in
      let names = list_eq.eqb_iff le.filename curr_le.filename in
      elim (Bool-cases ((le.line == curr_le.line) && (le.filename ≐ curr_le.filename))) [
        | inr apart ↦
            let kept : max_end_addr lldb curr_le (le ∷ entries) ≡ end = ground (arith, apart) in
            subst (IsEnd curr_le (le ∷ entries)) (sym kept) (
              (λ on. (let no : ⊥ = ground (arith, on.0, names, on.1) in elim no [ ]), rest.0),
              IsEnd-later curr_le le entries end rest.1,
            )
        | inl same ↦
            let on : OnLine curr_le le = (ground arith, ground (arith, names)) in
            let kept : max_end_addr lldb curr_le (le ∷ entries) ≡ max le.end_address end =
              ground (arith, same) in
            subst (IsEnd curr_le (le ∷ entries)) (sym kept) (
              (
                λ on. omega arith,
                All-below curr_le end (max le.end_address end) entries (omega arith) rest.0,
              ),
              elim (Bool-cases (ltb end le.end_address)) [
                | inl larger ↦ inr (le, inl refl, on, ground arith)
                | inr smaller ↦
                    let last : end ≡ max le.end_address end = ground arith in
                    IsEnd-later curr_le le entries (max le.end_address end)
                      (subst (IsLast curr_le entries) last rest.1)
              ],
            )
      ]
