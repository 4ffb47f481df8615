-- ===== src/Disassemble/Selection.antt =====
-- Which lines `handle_disassemble` answers with.
use codelldb.Prelude.{
  ◌∙◌, ◌⊎◌, inl, inr, ℕ, zero, suc, ◌+◌, ◌-◌, ◌<◌, ◌≤◌, ◌^◌, ◌≡◌, refl, sym, ap, Bool, none, List,
  [], ◌∷◌, ◌++◌, map, ltb, length, length-append, take, drop, arith, append-nil, Bool-cases,
}
use codelldb.Prelude.Int.{
  ℤ, pos, pos_part, neg_part, to_u64, wrapping_sum, ◌+ℤ◌, wrap_i64-IsI64, wrapping_sum_forward,
  to_u64_forward, to_u64_negative,
}
use codelldb.Prelude.Text.{Chars}
use codelldb.Prelude.Exec.{panic}
use codelldb.Prelude.Done.{Done, Done-pure, Done-bind}
use codelldb.Fsutil.{PathBuf}
use codelldb.SourceMap.{Sources}
use codelldb.SourceMap.Cached.{IsCached}
use codelldb.Disassembly.{Address}
use codelldb.Disassemble.{Process}
use codelldb.Disassemble.Tiles.{Tile}
use codelldb.Disassemble.Render.{View, DisassembledInstruction, show_address, render}
use codelldb.Disassemble.Request.{slice, Aligned, pad_front, pad_back, select}
use codelldb.Disassemble.Picked.{
  slice_inside, slice_outside, length-take-drop, All-take, All-drop, Tile-Inside, render-Done,
}

length-pad_front : (start_addr : Address) (n : ℕ) → length (pad_front start_addr n) ≡ n
unfolding pad_front
length-pad_front start_addr zero = refl
length-pad_front start_addr (suc n) = ap suc (length-pad_front start_addr n)

length-map : {A B : Type 0} (f : A → B) (xs : List A) → length (map f xs) ≡ length xs
length-map f [] = refl
length-map f (x ∷ xs) = ap suc (length-map f xs)

map-append : {A B : Type 0} (f : A → B) (xs ys : List A) → map f (xs ++ ys) ≡ map f xs ++ map f ys
map-append f [] ys = refl
map-append f (x ∷ xs) ys = ap (λ zs. f x ∷ zs) (map-append f xs ys)

abbrev pub addresses : List DisassembledInstruction → List Chars
addresses ds = map (λ d. d.address) ds

address_list :
    (front shown : List DisassembledInstruction) {picked : List Chars}
    → addresses shown ≡ picked
    → addresses (front ++ shown ++ []) ≡ addresses front ++ picked
address_list front shown e =
    ap addresses (append-nil (front ++ shown))
    ∙ map-append (λ d. d.address) front shown
    ∙ ap (λ zs. addresses front ++ zs) e

-- Only the addresses in front of the first line count.
pub length-addresses :
    (start_addr : Address) (n : ℕ) → length (addresses (pad_front start_addr n)) ≡ n
length-addresses start_addr n =
    length-map (λ d. d.address) (pad_front start_addr n) ∙ length-pad_front start_addr n

module _ (p : Process) (v : View p) where
  -- The index of the first line that is asked for, and the one behind the last.
  abbrev pub start_of : Aligned p v → ℤ → ℤ
  start_of a instruction_offset = wrapping_sum (pos a.base_index) instruction_offset

  abbrev pub end_of : Aligned p v → ℤ → ℤ → ℤ
  end_of a instruction_offset instruction_count =
      wrapping_sum (start_of a instruction_offset) instruction_count

  -- The lines end at or in front of the end of those that were decoded.
  abbrev pub IsInside : Aligned p v → ℤ → ℤ → Type 0
  IsInside a instruction_offset instruction_count =
      (neg_part (end_of a instruction_offset instruction_count) ≡ 0)
      × (pos_part (end_of a instruction_offset instruction_count) ≤ length a.instructions)

  -- The addresses of the lines in front of the first, and of those that are picked.
  abbrev pub wanted : Aligned p v → ℤ → ℤ → List Chars
  wanted a instruction_offset instruction_count =
      let first : ℕ = pos_part (start_of a instruction_offset) in
      let last : ℕ = pos_part (end_of a instruction_offset instruction_count) in
      map (λ d. d.address) (pad_front a.start_addr (neg_part (start_of a instruction_offset)))
      ++ map (λ l. show_address l.start) (take (last - first) (drop first a.instructions))

  IsInside-cases :
      (a : Aligned p v) (instruction_offset : ℤ) (n : ℕ)
      → IsInside a instruction_offset (pos n) ⊎ (¬ IsInside a instruction_offset (pos n))
  IsInside-cases a instruction_offset n = omega arith

  module _ (a : Aligned p v)
      (covers : Tile a.start_addr a.instructions (a.start_addr + length a.buffer))
      (instruction_offset : ℤ) (n : ℕ) (n_IsI64 : n < 2 ^ 63) (resolve_symbols : Bool)
      (base : PathBuf) (s : Sources) where
    pub select-Done :
        IsInside a instruction_offset (pos n)
        → IsCached v.files base s
        → Done (select p v a instruction_offset (pos n) resolve_symbols) s (λ r t.
          (map (λ d. d.address) r ≡ wanted a instruction_offset (pos n)) × IsCached v.files base t)
    unfolding select pad_back
    select-Done inside c =
        let start = start_of a instruction_offset in
        let end = end_of a instruction_offset (pos n) in
        let first : ℕ = pos_part start in
        let last : ℕ = pos_part end in
        let forward =
          wrapping_sum_forward start n n_IsI64
            (wrap_i64-IsI64 (pos a.base_index +ℤ instruction_offset)) inside.0 in
        let cast = to_u64_forward end (wrap_i64-IsI64 (start +ℤ pos n)) inside.0 in
        let cut = slice_inside a.instructions first last forward.1 inside.1 in
        let upto = inside.1 in
        let none_behind : last - length a.instructions ≡ 0 = omega arith in
        let lines =
          Tile-Inside a.start_addr a.start_addr (a.start_addr + length a.buffer) a.instructions
            (omega arith) covers in
        rw (cast, cut, none_behind)
          (Done-bind
            (render p v a.start_addr a.buffer resolve_symbols none
              (take (last - first) (drop first a.instructions)))
            _ s _
            (render-Done p v base a.start_addr a.buffer resolve_symbols none
              (take (last - first) (drop first a.instructions)) s
              (All-take _ (last - first) _ (All-drop _ first _ lines)) c)
            (λ shown u k. Done-pure _ u _ (address_list _ shown k.0, k.1)))

    length-wanted :
        IsInside a instruction_offset (pos n) → length (wanted a instruction_offset (pos n)) ≡ n
    length-wanted inside =
        let start = start_of a instruction_offset in
        let first : ℕ = pos_part start in
        let last : ℕ = pos_part (end_of a instruction_offset (pos n)) in
        let forward =
          wrapping_sum_forward start n n_IsI64
            (wrap_i64-IsI64 (pos a.base_index +ℤ instruction_offset)) inside.0 in
        let sum = forward.0 in
        let order = forward.1 in
        let front = pad_front a.start_addr (neg_part start) in
        let picked = take (last - first) (drop first a.instructions) in
        let parts = length-append (addresses front) (map (λ l. show_address l.start) picked) in
        let one =
          length-map (λ d. d.address) front ∙ length-pad_front a.start_addr (neg_part start) in
        let two =
          length-map (λ l. show_address l.start) picked
          ∙ length-take-drop a.instructions first last order inside.1 in
        omega arith

    outside :
        length a.instructions < 2 ^ 63
        → ¬ IsInside a instruction_offset (pos n)
        → slice a.instructions
            (pos_part (start_of a instruction_offset))
            (to_u64 (end_of a instruction_offset (pos n)))
          ≡ none
    outside fits no_room =
        let end = end_of a instruction_offset (pos n) in
        let i64 = wrap_i64-IsI64 (start_of a instruction_offset +ℤ pos n) in
        slice_outside a.instructions (pos_part (start_of a instruction_offset)) (to_u64 end)
          (elim (Bool-cases (ltb 0 (neg_part end))) [
            | inl negative ↦ (let large = to_u64_negative end i64 (ground arith) in omega arith)
            | inr forward ↦ (let cast = to_u64_forward end i64 (ground arith) in ground arith)
          ])

    -- Where the lines that are asked for end inside those that were decoded, the answer has exactly as
    -- many lines as the request asks for. Where they do not, the handler panics.
    pub select-length :
        length a.instructions < 2 ^ 63
        → IsCached v.files base s
        → (IsInside a instruction_offset (pos n)
            × Done
                (select p v a instruction_offset (pos n) resolve_symbols)
                s
                (λ r t. length r ≡ n))
          ⊎ ((¬ IsInside a instruction_offset (pos n))
              × (select p v a instruction_offset (pos n) resolve_symbols s ≡ (panic, s)))
    unfolding select
    select-length fits c = elim (IsInside-cases a instruction_offset n) [
      | inl inside ↦
          let d = select-Done inside c in
          inl (
            inside,
            record {
              value = d.value;
              after = d.after;
              ends = d.ends;
              post =
                  sym (length-map (λ d. d.address) d.value)
                  ∙ ap length d.post.0
                  ∙ length-wanted inside;
            },
          )
      | inr crosses ↦ inr (crosses, rw (outside fits crosses) refl)
    ]
