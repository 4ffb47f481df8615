-- ===== src/StepIn/Called.antt =====
-- Which functions a statement calls, without the code's loops.
use mathlib.Core.Path.{subst}
use codelldb.Prelude.{
  ◌≡◌, ◌⊎◌, inl, inr, refl, ◌∙◌, sym, ap, ◌<◌, true, ◌&&◌, Option, none, some, List, [], ◌∷◌, ltb,
  arith, Bool-cases,
}
use codelldb.Prelude.Equality.{ℕ_eq, list_eq}
use codelldb.Disassembly.{Address}
use codelldb.StepIn.{
  Lldb, InstructionControlFlowKind, unknown, other, call, far_call, jump, far_jump,
  control_flow_kind, call_target_function,
}
use codelldb.StepIn.Targets.{before_end, contains, push_function, called_function, collect}
use codelldb.StepIn.LineEnd.{Among, Among-append}

module _ (lldb : Lldb) where
  -- An instruction that calls a function with line numbers.
  abbrev pub CallsFunction : lldb.SbInstruction → lldb.SbFunction → Type 0
  CallsFunction i f =
      ((control_flow_kind lldb i ≡ call) ⊎ (control_flow_kind lldb i ≡ far_call))
      × (call_target_function lldb i ≡ some f)
      × (lldb.is_valid f ≡ true)
      × (lldb.start_has_line_entry f ≡ true)

  -- An instruction of the list calls the function, and it and all in front of it lie before the end.
  abbrev pub CalledIn : Address → List lldb.SbInstruction → lldb.SbFunction → Type 0
  CalledIn end [] f = ⊥
  CalledIn end (i ∷ is) f =
      (lldb.load_address (lldb.address i) < end) × (CallsFunction i f ⊎ CalledIn end is f)

  pub contains-Among :
      (fs : List lldb.SbFunction) (f : lldb.SbFunction)
      → ((contains lldb fs f ≡ true) → Among f fs) × (Among f fs → contains lldb fs f ≡ true)
  unfolding contains
  contains-Among [] f = (λ h. cc, λ h. elim h [ ])
  contains-Among (g ∷ fs) f =
      let rest = contains-Among fs f in
      let q = lldb.function_eq.eqb_iff g f in
      (
        λ h. elim (Bool-cases (lldb.function_eq.eqb g f)) [
          | inl same ↦ inl (q.0 same)
          | inr apart ↦ inr (rest.0 (ground (arith, apart, h)))
        ],
        λ h. elim h [
          | inl same ↦ (let e = q.1 same in ground (arith, e))
          | inr there ↦ (let e = rest.1 there in ground (arith, e))
        ],
      )

  get_some : {A : Type 0} {x y : A} → some x ≡ some y → x ≡ y
  get_some h = cc

  abbrev Pushes : Option lldb.SbFunction → lldb.SbFunction → Type 0
  Pushes o f = (o ≡ some f) × (lldb.is_valid f ≡ true) × (lldb.start_has_line_entry f ≡ true)

  push_function-Among :
      (fs : List lldb.SbFunction) (o : Option lldb.SbFunction) (f : lldb.SbFunction)
      → (Among f (push_function lldb fs o) → Among f fs ⊎ Pushes o f)
        × (Among f fs ⊎ Pushes o f → Among f (push_function lldb fs o))
  push_function-Among fs none f =
      (λ h. inl h, λ h. elim h [ inl there ↦ there | inr (a, b, c) ↦ cc ])
  push_function-Among fs (some g) f =
      elim (Bool-cases (lldb.is_valid g && lldb.start_has_line_entry g)) [
        | inr unfit ↦ rw unfit (
          λ h. inl h,
          λ h. elim h [
            | inl there ↦ there
            | inr (same, valid, lines) ↦
                let e = get_some same in
                let no : ⊥ = ground (arith, ap lldb.is_valid e, ap lldb.start_has_line_entry e) in
                elim no [ ]
          ],
        )
        | inl fit ↦
            let valid : lldb.is_valid g ≡ true = ground arith in
            let lines : lldb.start_has_line_entry g ≡ true = ground arith in
            elim (Bool-cases (contains lldb fs g)) [
              | inl there ↦
                  rw (fit, there)
                    (
                      λ h. inl h,
                      λ h. elim h [
                        | inl before ↦ before
                        | inr (same, _, _) ↦
                            subst (λ x. Among x fs) (get_some same) ((contains-Among fs g).0 there)
                      ],
                    )
              | inr fresh ↦
                  let ends = Among-append f g fs in
                  rw (fit, fresh)
                    (
                      λ h. elim (ends.0 h) [
                        | inl before ↦ inl before
                        | inr same ↦ inr (
                          ap some same,
                          ap lldb.is_valid (sym same) ∙ valid,
                          ap lldb.start_has_line_entry (sym same) ∙ lines,
                        )
                      ],
                      λ h. elim h [
                        | inl before ↦ ends.1 (inl before)
                        | inr (same, _, _) ↦ ends.1 (inr (get_some same))
                      ],
                    )
            ]
      ]

  called_function-CallsFunction :
      (i : lldb.SbInstruction) (f : lldb.SbFunction)
      → (Pushes (called_function lldb i) f → CallsFunction i f)
        × (CallsFunction i f → Pushes (called_function lldb i) f)
  called_function-CallsFunction i f = by_kind (control_flow_kind lldb i) refl
    where
      by_kind :
          (k : InstructionControlFlowKind)
          → control_flow_kind lldb i ≡ k
          → (Pushes (called_function lldb i) f → CallsFunction i f)
            × (CallsFunction i f → Pushes (called_function lldb i) f)
      by_kind call e = rw e (λ h. (inl refl, h.0, h.1, h.2), λ h. (h.1, h.2, h.3))
      by_kind far_call e = rw e (λ h. (inr refl, h.0, h.1, h.2), λ h. (h.1, h.2, h.3))
      by_kind unknown e = rw e (λ h. cc, λ h. elim (h.0) [ inl q ↦ cc | inr q ↦ cc ])
      by_kind other e = rw e (λ h. cc, λ h. elim (h.0) [ inl q ↦ cc | inr q ↦ cc ])
      by_kind jump e = rw e (λ h. cc, λ h. elim (h.0) [ inl q ↦ cc | inr q ↦ cc ])
      by_kind far_jump e = rw e (λ h. cc, λ h. elim (h.0) [ inl q ↦ cc | inr q ↦ cc ])

  -- What is collected in front of the end is what was there, and what is called.
  pub collect-Among :
      (end : Address) (fs : List lldb.SbFunction) (is : List lldb.SbInstruction)
      (f : lldb.SbFunction)
      → (Among f (collect lldb fs (before_end lldb end is)) → Among f fs ⊎ CalledIn end is f)
        × (Among f fs ⊎ CalledIn end is f → Among f (collect lldb fs (before_end lldb end is)))
  unfolding collect before_end
  collect-Among end fs [] f =
      (λ h. inl h, λ h. elim h [ inl there ↦ there | inr none_called ↦ elim none_called [ ] ])
  collect-Among end fs (i ∷ is) f =
      elim (Bool-cases (ltb (lldb.load_address (lldb.address i)) end)) [
        | inr behind ↦ rw behind (
          λ h. inl h,
          λ h. elim h [
            | inl there ↦ there
            | inr (lt, _) ↦ (let no : ⊥ = ground arith in elim no [ ])
          ],
        )
        | inl before ↦
            let lt : lldb.load_address (lldb.address i) < end = ground arith in
            let rest = collect-Among end (push_function lldb fs (called_function lldb i)) is f in
            let pushed = push_function-Among fs (called_function lldb i) f in
            let calls = called_function-CallsFunction i f in
            rw before (
              λ h. elim (rest.0 h) [
                | inr later ↦ inr (lt, inr later)
                | inl p ↦ elim (pushed.0 p) [
                  | inl there ↦ inl there
                  | inr here ↦ inr (lt, inl (calls.0 here))
                ]
              ],
              λ h. elim h [
                | inl there ↦ rest.1 (inl (pushed.1 (inl there)))
                | inr (_, inl here) ↦ rest.1 (inl (pushed.1 (inr (calls.1 here))))
                | inr (_, inr later) ↦ rest.1 (inr later)
              ],
            )
      ]
