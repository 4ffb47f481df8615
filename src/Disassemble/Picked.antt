-- ===== src/Disassemble/Picked.antt =====
-- Slices of lists, and the lines of a slice shown one by one.
use codelldb.Prelude.{
  ℕ, zero, suc, ◌+◌, ◌-◌, ◌<◌, ◌≤◌, ◌≡◌, refl, Bool, true, false, Option, none, some, List, [], ◌∷◌,
  ◌++◌, map, leb, length, length-take, length-drop, take, drop, get_elem?, arith, All, inl, inr,
  Bool-cases,
}
use codelldb.Prelude.Done.{Done, Done-pure, Done-bind}
use codelldb.Str.Utf8.{Bytes}
use codelldb.Fsutil.{PathBuf}
use codelldb.SourceMap.{Sources, map_filespec_to_local}
use codelldb.SourceMap.Cached.{IsCached, map_filespec_to_local-IsCached}
use codelldb.Disassembly.{Address}
use codelldb.Disassemble.{Process, Decoded, instruction, byte, Line}
use codelldb.Disassemble.Tiles.{Tile}
use codelldb.Disassemble.Render.{
  View, DisassembledInstruction, show_address, bytes_of, show_location, location_of,
  with_line_entry, render_decoded, render,
}
use codelldb.Disassemble.Request.{slice}

module _ {ℓ} {A : Type ℓ} where
  pub slice_inside :
      (xs : List A) (start end : ℕ)
      → start ≤ end
      → end ≤ length xs
      → slice xs start end ≡ some (take (end - start) (drop start xs))
  unfolding slice
  slice_inside xs start end h k =
      let low : leb start end ≡ true = ground arith in
      let high : leb end (length xs) ≡ true = ground arith in simp (slice, low, high)

  pub slice_outside : (xs : List A) (start end : ℕ) → length xs < end → slice xs start end ≡ none
  unfolding slice
  slice_outside xs start end h =
      let high : leb end (length xs) ≡ false = ground arith in
      elim (Bool-cases (leb start end)) [
        | inl low ↦ simp (slice, low, high)
        | inr low ↦ simp (slice, low)
      ]

  pub length-take-drop :
      (xs : List A) (start end : ℕ)
      → start ≤ end
      → end ≤ length xs
      → length (take (end - start) (drop start xs)) ≡ end - start
  length-take-drop xs start end h k =
      omega (arith, length-take (end - start) (drop start xs), length-drop start xs)

  pub get_elem?-drop :
      (n : ℕ) (xs : List A) (k : ℕ) → get_elem? (drop n xs) k ≡ get_elem? xs (n + k)
  get_elem?-drop zero xs k = (let none_added : 0 + k ≡ k = omega arith in rw none_added refl)
  get_elem?-drop (suc n) [] k = refl
  get_elem?-drop (suc n) (x ∷ xs) k =
      let moved : suc n + k ≡ suc (n + k) = omega arith in rw moved (get_elem?-drop n xs k)

  pub get_elem?-take :
      (n : ℕ) (xs : List A) (k : ℕ) → k < n → get_elem? (take n xs) k ≡ get_elem? xs k
  get_elem?-take zero xs k h = elim h [ ]
  get_elem?-take (suc n) [] k h = refl
  get_elem?-take (suc n) (x ∷ xs) zero h = refl
  get_elem?-take (suc n) (x ∷ xs) (suc k) h = get_elem?-take n xs k (omega arith)

  pub get_elem?-append :
      (xs ys : List A) (k : ℕ) → get_elem? (xs ++ ys) (length xs + k) ≡ get_elem? ys k
  get_elem?-append [] ys k = (let none_added : 0 + k ≡ k = omega arith in rw none_added refl)
  get_elem?-append (x ∷ xs) ys k =
      let moved : suc (length xs) + k ≡ suc (length xs + k) = omega arith in
      rw moved (get_elem?-append xs ys k)

module _ {ℓ κ} {A : Type ℓ} (P : A → Type κ) where
  pub All-take : (n : ℕ) (xs : List A) → All P xs → All P (take n xs)
  All-take zero xs h = tt
  All-take (suc n) [] h = tt
  All-take (suc n) (x ∷ xs) h = (h.0, All-take n xs h.1)

  pub All-drop : (n : ℕ) (xs : List A) → All P xs → All P (drop n xs)
  All-drop zero xs h = h
  All-drop (suc n) [] h = tt
  All-drop (suc n) (x ∷ xs) h = All-drop n xs h.1

-- A line whose range is not empty and lies between two addresses.
abbrev pub Inside : {I : Type 0} → Address → Address → Line I → Type 0
Inside start end l = (start ≤ l.start) × (l.start < l.end) × (l.end ≤ end)

Tile-le : {I : Type 0} (start end : Address) (ls : List (Line I)) → Tile start ls end → start ≤ end
Tile-le start end [] h = omega arith
Tile-le start end (l ∷ ls) h =
    let rest = Tile-le l.end end ls h.2 in let first = h.0 in let some_bytes = h.1 in omega arith

pub Tile-Inside :
    {I : Type 0} (low start end : Address) (ls : List (Line I))
    → low ≤ start
    → Tile start ls end
    → All (Inside low end) ls
Tile-Inside low start end [] h t = tt
Tile-Inside low start end (l ∷ ls) h t =
    let first = t.0 in
    let some_bytes = t.1 in
    let rest = Tile-le l.end end ls t.2 in
    ((omega arith, some_bytes, rest), Tile-Inside low l.end end ls (omega arith) t.2)

module _ (p : Process) (v : View p) (base : PathBuf) where
  show_location-Done :
      (same : Bool) (entry : v.SbLineEntry) (s : Sources)
      → IsCached v.files base s
      → Done (show_location p v same entry) s (λ l t. IsCached v.files base t)
  show_location-Done true entry s c = Done-pure none s _ c
  show_location-Done false entry s c =
      Done-bind (map_filespec_to_local v.files (v.file_spec entry)) _ s _
        (map_filespec_to_local-IsCached v.files base s (v.file_spec entry) c)
        (λ m u k. Done-pure _ u _ k.1)

  location_of-Done :
      (last : Option (v.SbLineEntry)) (entry : v.SbLineEntry) (s : Sources)
      → IsCached v.files base s
      → Done (location_of p v last entry) s (λ l t. IsCached v.files base t)
  unfolding location_of
  location_of-Done none entry s c = Done-pure none s _ c
  location_of-Done (some last) entry s c =
      show_location-Done (v.same_line_entry last entry) entry s c

  with_line_entry-Done :
      (last entry : Option (v.SbLineEntry)) (d : DisassembledInstruction) (s : Sources)
      → IsCached v.files base s
      → Done
          (with_line_entry p v last entry d)
          s
          (λ r t. (r.address ≡ d.address) × IsCached v.files base t)
  unfolding with_line_entry
  with_line_entry-Done last none d s c = Done-pure d s _ (refl, c)
  with_line_entry-Done last (some entry) d s c =
      Done-bind (location_of p v last entry) _ s _ (location_of-Done last entry s c)
        (λ l u k. Done-pure _ u _ (refl, k))

  module _ (start_addr : Address) (buffer : Bytes) (resolve_symbols : Bool) where
    render_decoded-Done :
        (last : Option (v.SbLineEntry)) (start end : Address) (d : Decoded (p.SbInstruction))
        (s : Sources)
        → start_addr ≤ start
        → start ≤ end
        → end ≤ start_addr + length buffer
        → IsCached v.files base s
        → Done
            (render_decoded p v start_addr buffer resolve_symbols last start end d)
            s
            (λ r t. (r.0.address ≡ show_address start) × IsCached v.files base t)
    unfolding render_decoded bytes_of
    render_decoded-Done last start end (byte b) s h k g c = Done-pure _ s _ (refl, c)
    render_decoded-Done last start end (instruction i) s h k g c =
        let low : leb start_addr start ≡ true = ground arith in
        let mid : leb start end ≡ true = ground arith in
        let high : leb (end - start_addr) (length buffer) ≡ true = ground arith in
        rw (low, mid, high)
          (Done-bind _ _ s _ (with_line_entry-Done last (v.line_entry i) _ s c)
            (λ d u e. Done-pure _ u _ e))

    -- Lines inside the buffer are shown one by one, at their addresses.
    pub render-Done :
        (last : Option (v.SbLineEntry)) (ls : List (Line (p.SbInstruction))) (s : Sources)
        → All (Inside start_addr (start_addr + length buffer)) ls
        → IsCached v.files base s
        → Done (render p v start_addr buffer resolve_symbols last ls) s (λ r t.
          (map (λ d. d.address) r ≡ map (λ l. show_address l.start) ls) × IsCached v.files base t)
    unfolding render
    render-Done last [] s h c = Done-pure [] s _ (refl, c)
    render-Done last (l ∷ ls) s h c =
        Done-bind
          (render_decoded p v start_addr buffer resolve_symbols last l.start l.end l.decoded) _ s _
          (render_decoded-Done last l.start l.end l.decoded s h.0.0 (let lt = h.0.1 in omega arith)
            h.0.2 c)
          (λ r u k.
            Done-bind (render p v start_addr buffer resolve_symbols r.1 ls) _ u _
              (render-Done r.1 ls u h.1 k.1)
              (λ rest w g. Done-pure _ w _ (let a = k.0 in let b = g.0 in cc, g.1)))
