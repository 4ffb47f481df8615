-- ===== src/Cancellation/Reaches.antt =====
-- A cancellation reaches the request that it names, as long as that request's receiver is there.
use codelldb.Prelude.{
  ℕ, ◌%◌, ◌^◌, ◌<◌, ◌≡◌, ◌≢◌, refl, true, Option, none, some, List, [], ◌∷◌, ◌++◌, arith, All,
}
use codelldb.Prelude.Equality.{ℕ_eq}
use codelldb.Prelude.Map.{
  lookup, remove, lookup-insert, lookup-remove, lookup-retain-some, lookup-insert_self,
}
use codelldb.Cancellation.{
  Heap, Sender, Receiver, new, subscribe, send, receiver_count, is_cancelled, drop,
}
use codelldb.Cancellation.Cells.{
  opened, opened-next, opened-cells, send-count, send_all-next, send_all-count, drop-count,
}
use codelldb.Cancellation.Filter.{
  RequestArguments, cancel, Filter, Class, cancels_one, may_be_cancelled, cancels_all, plain,
  classify, has_receivers, clean, cancel_one, send_all, forward, handle, on_request, finish, Event,
  request, finished, on_event, run,
}

-- The token of the request is pending under its number, and somebody holds its receiver.
pub record Tracked (seq : ℕ) (s : Sender) (f : Filter) : Type 0 where
  pub pending : lookup seq f.pending_requests ≡ some s
  pub old : s < f.heap.next
  pub held : 0 < receiver_count s f.heap

-- A request that neither replaces a pending one nor cancels it.
abbrev pub Leaves : ℕ → ℕ → Class → Type 0
Leaves seq n (cancels_one none) = Unit
Leaves seq n (cancels_one (some id)) = id % 2 ^ 32 ≢ seq
Leaves seq n may_be_cancelled = n ≢ seq
Leaves seq n cancels_all = n ≢ seq
Leaves seq n plain = n ≢ seq

-- The session is not done with the request, and nothing replaces or cancels it.
abbrev pub Keeps : ℕ → Sender → Event → Type 0
Keeps seq s (request n r) = Leaves seq n (classify r)
Keeps seq s (finished r) = r ≢ s

drop-cancelled :
    {s : Sender} (r : Receiver) (h : Heap)
    → r ≢ s
    → is_cancelled s h ≡ true
    → is_cancelled s (drop r h) ≡ true
unfolding is_cancelled drop
drop-cancelled {s} r h ne e = ground arith

module _ {seq : ℕ} {s : Sender} where
  clean-Tracked : (f : Filter) → Tracked seq s f → Tracked seq s (clean (opened f.heap) f)
  unfolding clean has_receivers receiver_count
  clean-Tracked f t =
      let same = opened-cells f.heap s t.old in
      let held : 0 < ((opened f.heap).cells s).receiver_count = rw same t.held in
      record {
        pending =
            lookup-retain-some seq (has_receivers (opened f.heap)) f.pending_requests t.pending
              (ground arith);
        old = rw (opened-next f.heap) (let o = t.old in omega arith);
        held = held;
      }

  -- Sending leaves the count, and so the table.
  heap-Tracked :
      (f : Filter) (h : Heap)
      → h.next ≡ f.heap.next
      → receiver_count s h ≡ receiver_count s f.heap
      → Tracked seq s f
      → Tracked seq s (record f { heap = h })
  heap-Tracked f h n c t = record { pending = t.pending; old = rw n t.old; held = rw c t.held }

  forward-Tracked :
      (n : ℕ) (r : RequestArguments) (sender : Sender) (receiver : Receiver) (f : Filter)
      → n ≢ seq
      → Tracked seq s f
      → Tracked seq s (forward n r sender receiver f)
  unfolding forward
  forward-Tracked n r sender receiver f ne t = record {
    pending = ground (arith, lookup-insert n seq sender f.pending_requests, t.pending);
    old = t.old;
    held = t.held;
  }

  cancel_one-Tracked :
      (id : Option ℕ) (n : ℕ) (f : Filter)
      → Leaves seq n (cancels_one id)
      → Tracked seq s f
      → Tracked seq s (cancel_one id f)
  unfolding cancel_one send
  cancel_one-Tracked none n f l t = t
  cancel_one-Tracked (some id) n f l t =
      elim (lookup (id % 2 ^ 32) f.pending_requests)
        as (λ o. Tracked seq s (elim o [
          | none ↦ f
          | some s' ↦ record f {
            heap = send s' f.heap;
            pending_requests = remove (id % 2 ^ 32) f.pending_requests;
          }
        ])) [
          | none ↦ t
          | some s' ↦ record {
            pending = ground (arith, lookup-remove (id % 2 ^ 32) seq f.pending_requests, t.pending);
            old = t.old;
            held = rw (send-count s' s f.heap) t.held;
          }
        ]

  handle-Tracked :
      (n : ℕ) (r : RequestArguments) (sender : Sender) (receiver : Receiver) (c : Class)
      (f : Filter)
      → receiver ≢ s
      → Leaves seq n c
      → Tracked seq s f
      → Tracked seq s (handle n r sender receiver c f)
  unfolding handle drop
  handle-Tracked n r sender receiver (cancels_one id) f ne l t =
      let done = cancel_one id f in
      heap-Tracked done (drop receiver done.heap) refl (drop-count receiver s done.heap ne)
        (cancel_one-Tracked id n f l t)
  handle-Tracked n r sender receiver may_be_cancelled f ne l t =
      forward-Tracked n r sender receiver _ l
        (record { pending = t.pending; old = t.old; held = t.held })
  handle-Tracked n r sender receiver cancels_all f ne l t =
      forward-Tracked n r sender receiver _ l (
        heap-Tracked f (send_all f.cancellable_requests f.heap)
          (send_all-next f.cancellable_requests f.heap)
          (send_all-count f.cancellable_requests s f.heap) t)
  handle-Tracked n r sender receiver plain f ne l t = forward-Tracked n r sender receiver f l t

  on_request-Tracked :
      (n : ℕ) (r : RequestArguments) (f : Filter)
      → Leaves seq n (classify r)
      → Tracked seq s f
      → Tracked seq s (on_request n r f)
  unfolding on_request new subscribe
  on_request-Tracked n r f l t =
      let o = t.old in
      handle-Tracked n r f.heap.next f.heap.next (classify r) (clean (opened f.heap) f)
        (λ q. omega arith) l (clean-Tracked f t)

  run-Tracked :
      (es : List Event) (f : Filter)
      → All (Keeps seq s) es
      → Tracked seq s f
      → Tracked seq s (run es f)
  unfolding run on_event finish drop
  run-Tracked [] f h t = t
  run-Tracked (request n r ∷ es) f h t =
      run-Tracked es (on_request n r f) h.1 (on_request-Tracked n r f h.0 t)
  run-Tracked (finished r ∷ es) f h t =
      run-Tracked es _ h.1 (heap-Tracked f (drop r f.heap) refl (drop-count r s f.heap h.0) t)

  cancel-sends :
      (id : ℕ) (f : Filter)
      → id % 2 ^ 32 ≡ seq
      → lookup seq f.pending_requests ≡ some s
      → is_cancelled s (cancel_one (some id) f).heap ≡ true
  unfolding cancel_one is_cancelled send
  cancel-sends id f e h = rw (e, h, cancel_one) (ground arith)

  cancelled :
      (n id : ℕ) (f : Filter)
      → id % 2 ^ 32 ≡ seq
      → Tracked seq s f
      → is_cancelled s (on_request n (cancel (some id)) f).heap ≡ true
  unfolding on_request handle classify new subscribe
  cancelled n id f e t =
      let cleaned = clean-Tracked f t in
      let o = t.old in
      drop-cancelled f.heap.next _ (λ q. omega arith)
        (cancel-sends id (clean (opened f.heap) f) e cleaned.pending)

-- What goes to the session.
abbrev pub Goes : Class → Type 0
Goes (cancels_one id) = ⊥
Goes _ = Unit

forward-Tracked_new :
    (seq : ℕ) (r : RequestArguments) (f : Filter)
    → (s : Sender) → s < f.heap.next
    → 0 < receiver_count s f.heap
    → Tracked seq s (forward seq r s s f)
      × ((forward seq r s s f).forwarded ≡ f.forwarded ++ (seq, r, s) ∷ [])
unfolding forward
forward-Tracked_new seq r f s lt held =
    (record { pending = lookup-insert_self seq s f.pending_requests; old = lt; held = held }, refl)

handle-Tracked_new :
    (seq : ℕ) (r : RequestArguments) (c : Class) (f : Filter) (s : Sender)
    → Goes c
    → s < f.heap.next
    → 0 < receiver_count s f.heap
    → Tracked seq s (handle seq r s s c f)
      × ((handle seq r s s c f).forwarded ≡ f.forwarded ++ (seq, r, s) ∷ [])
unfolding handle
handle-Tracked_new seq r (cancels_one id) f s g lt held = elim g [ ]
handle-Tracked_new seq r may_be_cancelled f s g lt held = forward-Tracked_new seq r _ s lt held
handle-Tracked_new seq r cancels_all f s g lt held =
    forward-Tracked_new seq r _ s (rw (send_all-next f.cancellable_requests f.heap) lt)
      (rw (send_all-count f.cancellable_requests s f.heap) held)
handle-Tracked_new seq r plain f s g lt held = forward-Tracked_new seq r f s lt held

pub on_request-Tracked_new :
    (seq : ℕ) (r : RequestArguments) (f : Filter)
    → Goes (classify r)
    → Tracked seq f.heap.next (on_request seq r f)
      × ((on_request seq r f).forwarded ≡ f.forwarded ++ (seq, r, f.heap.next) ∷ [])
unfolding on_request clean new subscribe receiver_count
on_request-Tracked_new seq r f g =
    handle-Tracked_new seq r (classify r) (clean (opened f.heap) f) f.heap.next g (omega arith)
      (ground arith)

-- A request other than a cancellation is forwarded with a receiver of its own. Whatever comes
-- after it, a cancellation of its number cancels that receiver, unless the session was done with
-- the request, or another request of its number or a cancellation of it came before.
pub cancel_reaches :
    (f : Filter) (seq : ℕ) (r : RequestArguments) (es : List Event) (n id : ℕ)
    → Goes (classify r)
    → All (Keeps seq f.heap.next) es
    → id % 2 ^ 32 ≡ seq
    → ((on_request seq r f).forwarded ≡ f.forwarded ++ (seq, r, f.heap.next) ∷ [])
      × (is_cancelled f.heap.next
            (on_request n (cancel (some id)) (run es (on_request seq r f))).heap
          ≡ true)
cancel_reaches f seq r es n id g h e =
    let made = on_request-Tracked_new seq r f g in
    (
      made.1,
      cancelled n id (run es (on_request seq r f)) e (run-Tracked es (on_request seq r f) h made.0),
    )
