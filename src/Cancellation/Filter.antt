-- ===== src/Cancellation/Filter.antt =====
-- `cancellation_filter` of src/codelldb/src/debug_session.rs: each request is paired with a
-- cancellation token on its way to the session.
use codelldb.Prelude.{
  ℕ, ◌%◌, ◌^◌, Bool, Option, none, some, List, [], ◌∷◌, ◌++◌, ltb, if◌then◌else◌,
}
use codelldb.Prelude.Equality.{ℕ_eq}
use codelldb.Prelude.Map.{Map, lookup, insert, remove, retain}
use codelldb.Cancellation.{Heap, Sender, Receiver, new, subscribe, send, receiver_count, drop}

-- The requests that the filter tells apart; a cancellation has the `i64` id of its request, if any,
-- as a 64-bit pattern.
pub data RequestArguments : Type 0 where
  cancel : Option ℕ → RequestArguments
  scopes variables evaluate : RequestArguments
  continue pause next step_in step_out step_back reverse_continue terminate disconnect :
      RequestArguments
  other : RequestArguments

-- `forwarded` is the channel to the session, the last request last.
pub record Filter : Type 0 where
  pub heap : Heap
  pub pending_requests : Map ℕ Sender
  pub cancellable_requests : List Sender
  pub forwarded : List (ℕ × RequestArguments × Receiver)

abbrev pub start : Heap → Filter
start h = record { heap = h; pending_requests = []; cancellable_requests = []; forwarded = [] }

-- What is done with a request.
pub data Class : Type 0 where
  cancels_one : Option ℕ → Class
  may_be_cancelled cancels_all plain : Class

unfoldable pub classify : RequestArguments → Class
classify (cancel id) = cancels_one id
classify scopes = may_be_cancelled
classify variables = may_be_cancelled
classify evaluate = may_be_cancelled
classify other = plain
classify _ = cancels_all

-- `Vec::retain`
unfoldable pub retain_vec {ℓ} : {A : Type ℓ} → (A → Bool) → List A → List A
retain_vec p [] = []
retain_vec p (x ∷ xs) = let rest = retain_vec p xs in if p x then x ∷ rest else rest

unfoldable pub has_receivers : Heap → Sender → Bool
unfolding receiver_count
has_receivers h s = ltb 0 (receiver_count s h)

-- The entries without receivers go.
unfoldable pub clean : Heap → Filter → Filter
unfolding retain_vec has_receivers
clean h f = record {
  heap = h;
  pending_requests = retain (has_receivers h) f.pending_requests;
  cancellable_requests = retain_vec (has_receivers h) f.cancellable_requests;
  forwarded = f.forwarded;
}

unfoldable pub cancel_one : Option ℕ → Filter → Filter
cancel_one none f = f
cancel_one (some id) f = elim (lookup (id % 2 ^ 32) f.pending_requests) [
  | none ↦ f
  | some s ↦ record f {
    heap = send s f.heap;
    pending_requests = remove (id % 2 ^ 32) f.pending_requests;
  }
]

unfoldable pub send_all : List Sender → Heap → Heap
send_all [] h = h
send_all (s ∷ ss) h = send_all ss (send s h)

unfoldable pub forward : ℕ → RequestArguments → Sender → Receiver → Filter → Filter
forward seq request sender receiver f = record f {
  pending_requests = insert seq sender f.pending_requests;
  forwarded = f.forwarded ++ (seq, request, receiver) ∷ [];
}

-- A cancellation is not forwarded: its own token goes.
unfoldable pub handle : ℕ → RequestArguments → Sender → Receiver → Class → Filter → Filter
unfolding cancel_one send_all forward
handle seq request sender receiver (cancels_one id) f =
    let done = cancel_one id f in record done { heap = drop receiver done.heap }
handle seq request sender receiver may_be_cancelled f =
    forward seq request sender receiver
      (record f { cancellable_requests = f.cancellable_requests ++ sender ∷ [] })
handle seq request sender receiver cancels_all f =
    forward seq request sender receiver (record f { heap = send_all f.cancellable_requests f.heap })
handle seq request sender receiver plain f = forward seq request sender receiver f

-- One round of the loop.
unfoldable pub on_request : ℕ → RequestArguments → Filter → Filter
unfolding clean handle classify
on_request seq request f =
    let (sender, h) = new f.heap in
    let (receiver, h') = subscribe sender h in
    handle seq request sender receiver (classify request) (clean h' f)

-- The session drops the receiver of a request that it is done with.
unfoldable pub finish : Receiver → Filter → Filter
finish r f = record f { heap = drop r f.heap }

-- What happens to the filter: a request comes in, or the session is done with one.
pub data Event : Type 0 where
  request : ℕ → RequestArguments → Event
  finished : Receiver → Event

unfoldable pub on_event : Event → Filter → Filter
unfolding on_request finish
on_event (request seq r) f = on_request seq r f
on_event (finished r) f = finish r f

unfoldable pub run : List Event → Filter → Filter
unfolding on_event
run [] f = f
run (e ∷ es) f = run es (on_event e f)
