-- ===== src/Cancellation.antt =====
-- src/codelldb/src/cancellation.rs: cancellation tokens. The `Inner` that senders and receivers
-- share is a cell of a heap; a sender or a receiver is the number of its cell.
pub mod Filter
pub mod Cells
pub mod Counts
pub mod Reaches
pub mod Stops
mod Tests
use codelldb.Prelude.{
  ℕ, zero, suc, ◌+◌, ◌-◌, ◌%◌, ◌^◌, Bool, true, false, List, [], ◌∷◌, ◌++◌, ◌==◌, if◌then◌else◌,
}

-- `Box<dyn Fn()>`, known by a number.
abbrev pub Callback : Type 0
Callback = ℕ

-- `receiver_count` is an `AtomicU16`, which wraps around.
pub record Inner : Type 0 where
  pub flag : Bool
  pub receiver_count : ℕ
  pub callbacks : List Callback

-- The cells in use are those below `next`; `called` is which callbacks ran, the last one last.
pub record Heap : Type 0 where
  pub cells : ℕ → Inner
  pub next : ℕ
  pub called : List Callback

abbrev pub Sender : Type 0
Sender = ℕ

abbrev pub Receiver : Type 0
Receiver = ℕ

abbrev pub set_cell : ℕ → Inner → Heap → Heap
set_cell i inner h = record h { cells = λ j. if i == j then inner else h.cells j }

unfoldable pub new : Heap → Sender × Heap
new h = (
  h.next,
  record {
    cells = λ j.
        if h.next == j
        then record { flag = false; receiver_count = 0; callbacks = [] }
        else h.cells j;
    next = suc h.next;
    called = h.called;
  },
)

unfoldable pub subscribe : Sender → Heap → Receiver × Heap
subscribe s h = (
  s,
  set_cell s (record (h.cells s) { receiver_count = ((h.cells s).receiver_count + 1) % 2 ^ 16 }) h,
)

unfoldable pub send : Sender → Heap → Heap
send s h = record {
  cells = λ j. if s == j then record (h.cells s) { flag = true } else h.cells j;
  next = h.next;
  called = h.called ++ (h.cells s).callbacks;
}

unfoldable pub receiver_count : Sender → Heap → ℕ
receiver_count s h = (h.cells s).receiver_count

unfoldable pub is_cancelled : Receiver → Heap → Bool
is_cancelled r h = (h.cells r).flag

unfoldable pub add_callback : Receiver → Callback → Heap → Heap
add_callback r callback h =
    set_cell r (record (h.cells r) { callbacks = (h.cells r).callbacks ++ callback ∷ [] }) h

-- `Receiver::clone`
unfoldable pub clone : Receiver → Heap → Receiver × Heap
clone r h = (
  r,
  set_cell r (record (h.cells r) { receiver_count = ((h.cells r).receiver_count + 1) % 2 ^ 16 }) h,
)

-- `Receiver::drop`
unfoldable pub drop : Receiver → Heap → Heap
drop r h =
    set_cell r
      (record (h.cells r) { receiver_count = ((h.cells r).receiver_count + 2 ^ 16 - 1) % 2 ^ 16 }) h

-- The sender is dropped at once.
unfoldable pub dummy : Heap → Receiver × Heap
unfolding new subscribe
dummy h = let (s, h') = new h in subscribe s h'
