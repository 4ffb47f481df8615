-- ===== src/Disassemble/Boundary.antt =====
-- The binary search finds where a predicate that turns false stays false.
use codelldb.Prelude.{
  ℕ, zero, suc, ◌+◌, ◌-◌, ◌/◌, ◌<◌, ◌≤◌, ◌≡◌, inl, inr, refl, Bool, true, false, some, ltb, max,
  arith, Bool-cases,
}
use codelldb.Disassembly.{Address}
use codelldb.Disassemble.{bisect, partition_point}

-- Below the address the predicate is true, from it on false, within the range.
pub record IsBoundary (pred : Address → Bool) (low high m : Address) : Type 0 where
  pub above : low ≤ m
  pub below : m ≤ max low high
  pub before : (a : Address) → low ≤ a → a < m → pred a ≡ true
  pub behind : (a : Address) → m ≤ a → a < high → pred a ≡ false

module _ (pred : Address → Bool)
    (turns : (a b : Address) → a ≤ b → pred b ≡ true → pred a ≡ true) where
  -- An empty range.
  IsBoundary-empty : (low high : Address) → high ≤ low → IsBoundary pred low high low
  IsBoundary-empty low high h = record {
    above = omega arith;
    below = omega arith;
    before = λ a g k. ground arith;
    behind = λ a g k. ground arith;
  }

  -- The search goes on to the right of an address that passes, and to the left of one that does not.
  IsBoundary-right :
      (low mid high m : Address)
      → low ≤ mid
      → mid < high
      → pred mid ≡ true
      → IsBoundary pred (mid + 1) high m
      → IsBoundary pred low high m
  IsBoundary-right low mid high m h k e b =
      let above = b.above in
      let below = b.below in
      record {
        above = omega arith;
        below = omega arith;
        before = λ a g l. elim (Bool-cases (ltb mid a)) [
          | inl after ↦ b.before a (ground arith) l
          | inr upto ↦ turns a mid (ground arith) e
        ];
        behind = b.behind;
      }

  IsBoundary-left :
      (low mid high m : Address)
      → low ≤ mid
      → mid < high
      → pred mid ≡ false
      → IsBoundary pred low mid m
      → IsBoundary pred low high m
  IsBoundary-left low mid high m h k e b =
      let above = b.above in
      let below = b.below in
      record {
        above = omega arith;
        below = omega arith;
        before = b.before;
        behind = λ a g l. elim (Bool-cases (ltb a mid)) [
          | inl front ↦ b.behind a g (ground arith)
          | inr from ↦ elim (Bool-cases (pred a)) [
            | inl passes ↦ (let back = turns mid a (ground arith) passes in ground arith)
            | inr fails ↦ fails
          ]
        ];
      }

  bisect-IsBoundary :
      (fuel low high : ℕ)
      → high ≤ low + fuel
      → (m : Address) × (bisect fuel pred low high ≡ some m) × IsBoundary pred low high m
  unfolding bisect
  bisect-IsBoundary zero low high enough =
      (low, ground arith, IsBoundary-empty low high (omega arith))
  bisect-IsBoundary (suc fuel) low high enough = elim (Bool-cases (ltb low high)) [
    | inr crossed ↦ (low, rw (crossed, bisect) refl, IsBoundary-empty low high (ground arith))
    | inl wide ↦
        let lt : low < high = ground arith in
        elim (Bool-cases (pred (low + (high - low) / 2))) [
          | inl passes ↦
              let found = bisect-IsBoundary fuel (low + (high - low) / 2 + 1) high (omega arith) in
              (
                found.0,
                simp (bisect, wide, passes, found.1),
                IsBoundary-right low (low + (high - low) / 2) high found.0 (omega arith)
                    (omega arith) passes found.2,
              )
          | inr fails ↦
              let found = bisect-IsBoundary fuel low (low + (high - low) / 2) (omega arith) in
              (
                found.0,
                simp (bisect, wide, fails, found.1),
                IsBoundary-left low (low + (high - low) / 2) high found.0 (omega arith)
                    (omega arith) fails found.2,
              )
        ]
  ]

  -- For a predicate that never turns true again, the search ends, at the address of the range
  -- below which it is true and from which on it is false.
  pub partition_point-IsBoundary :
      (start end : Address)
      → (m : Address) × (partition_point start end pred ≡ some m) × IsBoundary pred start end m
  unfolding partition_point
  partition_point-IsBoundary start end = bisect-IsBoundary (end - start) start end (omega arith)
