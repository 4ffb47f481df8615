-- ===== src/Cancellation/Stops.antt =====
-- Requests that resume or end the debuggee cancel those that look at its state.
use codelldb.Prelude.{
  ℕ, ◌%◌, ◌^◌, ◌<◌, ◌≡◌, ◌≢◌, ◌⊎◌, inl, inr, refl, ap, ◌∙◌, Bool, true, Option, none, some, List,
  [], ◌∷◌, ◌++◌, arith, Bool-cases, All,
}
use codelldb.Prelude.Equality.{ℕ_eq}
use codelldb.Prelude.Map.{lookup, remove}
use codelldb.Cancellation.{
  Heap, Sender, Receiver, new, subscribe, send, receiver_count, is_cancelled, drop,
}
use codelldb.Cancellation.Filter.{
  RequestArguments, scopes, variables, evaluate, continue, pause, next, step_in, step_out,
  step_back, reverse_continue, terminate, disconnect, Filter, Class, cancels_one, may_be_cancelled,
  cancels_all, plain, classify, retain_vec, has_receivers, clean, cancel_one, send_all, forward,
  handle, on_request, finish, Event, request, finished, on_event, run,
}
use codelldb.Cancellation.Cells.{
  opened, opened-next, opened-cells, send-count, send_all-next, send_all-count, drop-count,
}

abbrev pub Among : Sender → List Sender → Type 0
Among s [] = ⊥
Among s (t ∷ ts) = (t ≡ s) ⊎ Among s ts

Among-append : (s : Sender) (ts us : List Sender) → Among s ts → Among s (ts ++ us)
Among-append s [] us h = elim h [ ]
Among-append s (t ∷ ts) us (inl e) = inl e
Among-append s (t ∷ ts) us (inr h) = inr (Among-append s ts us h)

Among-last : (s : Sender) (ts : List Sender) → Among s (ts ++ s ∷ [])
Among-last s [] = inl refl
Among-last s (t ∷ ts) = inr (Among-last s ts)

Among-retain_vec :
    (p : Sender → Bool) (s : Sender) (ts : List Sender)
    → p s ≡ true
    → Among s ts
    → Among s (retain_vec p ts)
unfolding retain_vec
Among-retain_vec p s [] e h = elim h [ ]
Among-retain_vec p s (t ∷ ts) e (inl same) = rw (ap p same ∙ e, retain_vec) (inl same)
Among-retain_vec p s (t ∷ ts) e (inr h) = elim (Bool-cases (p t)) [
  | inl kept ↦ rw (kept, retain_vec) (inr (Among-retain_vec p s ts e h))
  | inr gone ↦ rw (gone, retain_vec) (Among-retain_vec p s ts e h)
]

-- A token once cancelled stays so when others are sent.
send-keeps : (t s : Sender) (h : Heap) → is_cancelled s h ≡ true → is_cancelled s (send t h) ≡ true
unfolding is_cancelled send
send-keeps t s h e = ground arith

send_all-keeps :
    (ts : List Sender) (s : Sender) (h : Heap)
    → is_cancelled s h ≡ true
    → is_cancelled s (send_all ts h) ≡ true
unfolding send_all
send_all-keeps [] s h e = e
send_all-keeps (t ∷ ts) s h e = send_all-keeps ts s (send t h) (send-keeps t s h e)

send-cancels : (t s : Sender) (h : Heap) → t ≡ s → is_cancelled s (send t h) ≡ true
unfolding is_cancelled send
send-cancels t s h e = ground arith

send_all-cancels :
    (ts : List Sender) (s : Sender) (h : Heap) → Among s ts → is_cancelled s (send_all ts h) ≡ true
unfolding send_all
send_all-cancels [] s h m = elim m [ ]
send_all-cancels (t ∷ ts) s h (inl e) = send_all-keeps ts s (send t h) (send-cancels t s h e)
send_all-cancels (t ∷ ts) s h (inr m) = send_all-cancels ts s (send t h) m

-- The token may be cancelled, and somebody holds its receiver.
pub record Listed (s : Sender) (f : Filter) : Type 0 where
  pub listed : Among s f.cancellable_requests
  pub old : s < f.heap.next
  pub held : 0 < receiver_count s f.heap

module _ {s : Sender} where
  clean-Listed : (f : Filter) → Listed s f → Listed s (clean (opened f.heap) f)
  unfolding clean has_receivers receiver_count
  clean-Listed f t =
      let held : 0 < ((opened f.heap).cells s).receiver_count =
        rw (opened-cells f.heap s t.old) t.held in
      record {
        listed =
            Among-retain_vec (has_receivers (opened f.heap)) s f.cancellable_requests (ground arith)
              t.listed;
        old = rw (opened-next f.heap) (let o = t.old in omega arith);
        held = held;
      }

  heap-Listed :
      (f : Filter) (h : Heap)
      → h.next ≡ f.heap.next
      → receiver_count s h ≡ receiver_count s f.heap
      → Listed s f
      → Listed s (record f { heap = h })
  heap-Listed f h n c t = record { listed = t.listed; old = rw n t.old; held = rw c t.held }

  forward-Listed :
      (n : ℕ) (r : RequestArguments) (sender : Sender) (receiver : Receiver) (f : Filter)
      → Listed s f
      → Listed s (forward n r sender receiver f)
  unfolding forward
  forward-Listed n r sender receiver f t = record { listed = t.listed; old = t.old; held = t.held }

  cancel_one-Listed : (id : Option ℕ) (f : Filter) → Listed s f → Listed s (cancel_one id f)
  unfolding cancel_one send
  cancel_one-Listed none f t = t
  cancel_one-Listed (some id) f t =
      elim (lookup (id % 2 ^ 32) f.pending_requests)
        as (λ o. Listed s (elim o [
          | none ↦ f
          | some s' ↦ record f {
            heap = send s' f.heap;
            pending_requests = remove (id % 2 ^ 32) f.pending_requests;
          }
        ])) [
          | none ↦ t
          | some s' ↦ record {
            listed = t.listed;
            old = t.old;
            held = rw (send-count s' s f.heap) t.held;
          }
        ]

  handle-Listed :
      (n : ℕ) (r : RequestArguments) (sender : Sender) (receiver : Receiver) (c : Class)
      (f : Filter)
      → receiver ≢ s
      → Listed s f
      → Listed s (handle n r sender receiver c f)
  unfolding handle drop
  handle-Listed n r sender receiver (cancels_one id) f ne t =
      let done = cancel_one id f in
      heap-Listed done (drop receiver done.heap) refl (drop-count receiver s done.heap ne)
        (cancel_one-Listed id f t)
  handle-Listed n r sender receiver may_be_cancelled f ne t =
      forward-Listed n r sender receiver _ (record {
        listed = Among-append s f.cancellable_requests _ t.listed;
        old = t.old;
        held = t.held;
      })
  handle-Listed n r sender receiver cancels_all f ne t = forward-Listed n r sender receiver _ (
      heap-Listed f (send_all f.cancellable_requests f.heap)
        (send_all-next f.cancellable_requests f.heap)
        (send_all-count f.cancellable_requests s f.heap) t)
  handle-Listed n r sender receiver plain f ne t = forward-Listed n r sender receiver f t

  on_request-Listed :
      (n : ℕ) (r : RequestArguments) (f : Filter) → Listed s f → Listed s (on_request n r f)
  unfolding on_request new subscribe
  on_request-Listed n r f t =
      let o = t.old in
      handle-Listed n r f.heap.next f.heap.next (classify r) (clean (opened f.heap) f)
        (λ q. omega arith) (clean-Listed f t)

-- The session is not done with the request of the token.
abbrev pub Holds : Sender → Event → Type 0
Holds s (request n r) = Unit
Holds s (finished r) = r ≢ s

run-Listed :
    (s : Sender) (es : List Event) (f : Filter)
    → All (Holds s) es
    → Listed s f
    → Listed s (run es f)
unfolding run on_event finish drop
run-Listed s [] f h t = t
run-Listed s (request n r ∷ es) f h t =
    run-Listed s es (on_request n r f) h.1 (on_request-Listed n r f t)
run-Listed s (finished r ∷ es) f h t =
    run-Listed s es _ h.1 (heap-Listed f (drop r f.heap) refl (drop-count r s f.heap h.0) t)

-- A new request that may be cancelled is listed.
on_request-Listed_new :
    (seq : ℕ) (r : RequestArguments) (f : Filter)
    → classify r ≡ may_be_cancelled
    → Listed f.heap.next (on_request seq r f)
unfolding on_request handle forward clean new subscribe receiver_count
on_request-Listed_new seq r f e =
    rw (e, on_request, handle)
      (record { listed = Among-last f.heap.next _; old = omega arith; held = ground arith })

stopped :
    (s : Sender) (n : ℕ) (r : RequestArguments) (f : Filter)
    → classify r ≡ cancels_all
    → Listed s f
    → is_cancelled s (on_request n r f).heap ≡ true
unfolding on_request handle forward
stopped s n r f e t =
    let cleaned = clean-Listed f t in
    rw (e, on_request, handle)
      (send_all-cancels (clean (opened f.heap) f).cancellable_requests s (opened f.heap)
        cleaned.listed)

-- The requests that look at the state of the debuggee.
abbrev pub Looks : RequestArguments → Type 0
Looks r = (r ≡ scopes) ⊎ (r ≡ variables) ⊎ (r ≡ evaluate)

-- The requests that let the debuggee run, stop it or end it.
abbrev pub Resumes : RequestArguments → Type 0
Resumes r =
    (r ≡ continue)
    ⊎ (r ≡ pause)
    ⊎ (r ≡ next)
    ⊎ (r ≡ step_in)
    ⊎ (r ≡ step_out)
    ⊎ (r ≡ step_back)
    ⊎ (r ≡ reverse_continue)
    ⊎ (r ≡ terminate)
    ⊎ (r ≡ disconnect)

classify-Looks : (r : RequestArguments) → Looks r → classify r ≡ may_be_cancelled
unfolding classify
classify-Looks r h = ground (arith, h)

classify-Resumes : (r : RequestArguments) → Resumes r → classify r ≡ cancels_all
unfolding classify
classify-Resumes r h = ground (arith, h)

-- Whatever comes after a request for scopes, variables or an evaluation, each of the requests
-- continue, pause, next, stepIn, stepOut, stepBack, reverseContinue, terminate and disconnect cancels
-- its receiver, unless the session was done with it before.
pub resume_stops :
    (f : Filter) (seq : ℕ) (r : RequestArguments) (es : List Event) (n : ℕ)
    (resume : RequestArguments)
    → Looks r
    → All (Holds f.heap.next) es
    → Resumes resume
    → is_cancelled f.heap.next (on_request n resume (run es (on_request seq r f))).heap ≡ true
resume_stops f seq r es n resume looks h resumes =
    stopped f.heap.next n resume (run es (on_request seq r f)) (classify-Resumes resume resumes) (
      run-Listed f.heap.next es (on_request seq r f) h
        (on_request-Listed_new seq r f (classify-Looks r looks)))
