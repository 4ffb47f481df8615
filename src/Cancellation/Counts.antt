-- ===== src/Cancellation/Counts.antt =====
-- The receiver count of a token is the number of its receivers, in every run of the operations.
use codelldb.Prelude.{
  ℕ, suc, ◌%◌, ◌^◌, ◌<◌, ◌≤◌, ◌≡◌, refl, ap, true, false, List, [], ◌∷◌, ◌++◌, ◌==◌, if◌then◌else◌,
  arith, All,
}
use codelldb.Cancellation.{
  Heap, Sender, Receiver, Callback, new, subscribe, send, receiver_count, is_cancelled,
  add_callback, clone, drop,
}

-- A heap with the receivers that are held.
pub record World : Type 0 where
  pub heap : Heap
  pub receivers : List Receiver

abbrev pub empty : World
empty = record {
  heap = record {
    cells = λ i. record { flag = false; receiver_count = 0; callbacks = [] };
    next = 0;
    called = [];
  };
  receivers = [];
}

-- Somebody calls an operation on a sender of a cell in use, or on a receiver that is held.
pub data Step : World → World → Type 0 where
  making :
      (h : Heap) (rs : List Receiver)
      → Step (record { heap = h; receivers = rs }) (record { heap = (new h).1; receivers = rs })
  subscribing :
      (h : Heap) (rs : List Receiver) (s : Sender)
      → s < h.next
      → Step
          (record { heap = h; receivers = rs })
          (record { heap = (subscribe s h).1; receivers = (subscribe s h).0 ∷ rs })
  sending :
      (h : Heap) (rs : List Receiver) (s : Sender)
      → s < h.next
      → Step (record { heap = h; receivers = rs }) (record { heap = send s h; receivers = rs })
  watching :
      (h : Heap) (rs : List Receiver) (r : Receiver) (callback : Callback)
      → r < h.next
      → Step
          (record { heap = h; receivers = rs })
          (record { heap = add_callback r callback h; receivers = rs })
  cloning :
      (h : Heap) (before after : List Receiver) (r : Receiver)
      → Step
          (record { heap = h; receivers = before ++ r ∷ after })
          (record { heap = (clone r h).1; receivers = (clone r h).0 ∷ (before ++ r ∷ after) })
  dropping :
      (h : Heap) (before after : List Receiver) (r : Receiver)
      → Step
          (record { heap = h; receivers = before ++ r ∷ after })
          (record { heap = drop r h; receivers = before ++ after })

pub data Steps : World → World → Type 0 where
  done : (w : World) → Steps w w
  more : {u v w : World} → Steps u v → Step v w → Steps u w

unfoldable pub occurrences : ℕ → List ℕ → ℕ
occurrences i [] = 0
occurrences i (r ∷ rs) = let rest = occurrences i rs in if r == i then suc rest else rest

occurrences-middle :
    (i r : ℕ) (before after : List ℕ)
    → occurrences i (before ++ r ∷ after) ≡ occurrences i (r ∷ (before ++ after))
unfolding occurrences
occurrences-middle i r [] after = refl
occurrences-middle i r (b ∷ before) after = ground (arith, occurrences-middle i r before after)

occurrences-above : (i n : ℕ) (rs : List ℕ) → All (λ r. r < n) rs → n ≤ i → occurrences i rs ≡ 0
unfolding occurrences
occurrences-above i n [] h le = refl
occurrences-above i n (r ∷ rs) h le = ground (arith, occurrences-above i n rs)

record IsCounted (w : World) : Type 0 where
  counts : (i : ℕ) → i < w.heap.next → receiver_count i w.heap ≡ occurrences i w.receivers % 2 ^ 16
  in_use : All (λ r. r < w.heap.next) w.receivers

All-weaken : (n : ℕ) (rs : List ℕ) → All (λ r. r < n) rs → All (λ r. r < suc n) rs
All-weaken n [] h = tt
All-weaken n (r ∷ rs) h = let lt = h.0 in (omega arith, All-weaken n rs h.1)

All-without :
    (n r : ℕ) (before after : List ℕ)
    → All (λ r. r < n) (before ++ r ∷ after)
    → All (λ r. r < n) (before ++ after)
All-without n r [] after h = h.1
All-without n r (b ∷ before) after h = (h.0, All-without n r before after h.1)

All-middle : (n r : ℕ) (before after : List ℕ) → All (λ r. r < n) (before ++ r ∷ after) → r < n
All-middle n r [] after h = h.0
All-middle n r (b ∷ before) after h = All-middle n r before after h.1

Step-IsCounted : {u v : World} → Step u v → IsCounted u → IsCounted v
unfolding new subscribe send receiver_count add_callback clone drop occurrences
Step-IsCounted (making h rs) c = record {
  counts = λ i lt. ground (arith, c.counts i, occurrences-above i h.next rs c.in_use);
  in_use = All-weaken h.next rs c.in_use;
}
Step-IsCounted (subscribing h rs s lt) c = record {
  counts =
      λ i lt'. ground (arith, c.counts i lt', ap (λ j. (h.cells j).receiver_count) {x = s} {y = i});
  in_use = (lt, c.in_use);
}
Step-IsCounted (sending h rs s lt) c = record {
  counts =
      λ i lt'. ground (arith, c.counts i lt', ap (λ j. (h.cells j).receiver_count) {x = s} {y = i});
  in_use = c.in_use;
}
Step-IsCounted (watching h rs r callback lt) c = record {
  counts =
      λ i lt'. ground (arith, c.counts i lt', ap (λ j. (h.cells j).receiver_count) {x = r} {y = i});
  in_use = c.in_use;
}
Step-IsCounted (cloning h before after r) c = record {
  counts =
      λ i lt'. ground (arith, c.counts i lt', ap (λ j. (h.cells j).receiver_count) {x = r} {y = i});
  in_use = (All-middle h.next r before after c.in_use, c.in_use);
}
Step-IsCounted (dropping h before after r) c = record {
  counts = λ i lt'. ground (
    arith,
    c.counts i lt',
    occurrences-middle i r before after,
    ap (λ j. (h.cells j).receiver_count) {x = r} {y = i},
  );
  in_use = All-without h.next r before after c.in_use;
}

Steps-IsCounted : {u v : World} → Steps u v → IsCounted u → IsCounted v
Steps-IsCounted (done w) c = c
Steps-IsCounted (more ss s) c = Step-IsCounted s (Steps-IsCounted ss c)

-- In every run that starts without tokens, the receiver count of a token is the number of its
-- receivers that are held, modulo 2 ^ 16.
pub receiver_count-occurrences :
    {w : World}
    → Steps empty w
    → (s : Sender) → s < w.heap.next
    → receiver_count s w.heap ≡ occurrences s w.receivers % 2 ^ 16
receiver_count-occurrences run s lt =
    (Steps-IsCounted run (record { counts = λ i lt'. omega arith; in_use = tt })).counts s lt

stays_cancelled :
    {u v : World}
    → Step u v
    → (s : Sender) → s < u.heap.next
    → is_cancelled s u.heap ≡ true
    → is_cancelled s v.heap ≡ true
unfolding new subscribe send is_cancelled add_callback clone drop
stays_cancelled (making h rs) s lt e = ground arith
stays_cancelled (subscribing h rs t lt') s lt e =
    ground (arith, ap (λ j. (h.cells j).flag) {x = t} {y = s})
stays_cancelled (sending h rs t lt') s lt e = ground arith
stays_cancelled (watching h rs r callback lt') s lt e =
    ground (arith, ap (λ j. (h.cells j).flag) {x = r} {y = s})
stays_cancelled (cloning h before after r) s lt e =
    ground (arith, ap (λ j. (h.cells j).flag) {x = r} {y = s})
stays_cancelled (dropping h before after r) s lt e =
    ground (arith, ap (λ j. (h.cells j).flag) {x = r} {y = s})

Step-next : {u v : World} → Step u v → (s : Sender) → s < u.heap.next → s < v.heap.next
unfolding new subscribe send add_callback clone drop
Step-next (making h rs) s lt = omega arith
Step-next (subscribing h rs t lt') s lt = lt
Step-next (sending h rs t lt') s lt = lt
Step-next (watching h rs r callback lt') s lt = lt
Step-next (cloning h before after r) s lt = lt
Step-next (dropping h before after r) s lt = lt

Steps-next : {u v : World} → Steps u v → (s : Sender) → s < u.heap.next → s < v.heap.next
Steps-next (done w) s lt = lt
Steps-next (more ss s') s lt = Step-next s' s (Steps-next ss s lt)

-- A token that is cancelled stays so in every run.
pub Steps-keep_cancelled :
    {u v : World}
    → Steps u v
    → (s : Sender) → s < u.heap.next
    → is_cancelled s u.heap ≡ true
    → is_cancelled s v.heap ≡ true
Steps-keep_cancelled (done w) s lt e = e
Steps-keep_cancelled (more ss s') s lt e =
    stays_cancelled s' s (Steps-next ss s lt) (Steps-keep_cancelled ss s lt e)
