-- ===== src/Cancellation/Tests.antt =====
-- The test of cancellation.rs, and the theorems at concrete runs.
use codelldb.Prelude.{◌≡◌, refl, true, some, inl, inr, [], ◌∷◌, arith}
use codelldb.Cancellation.{
  Heap, new, subscribe, send, receiver_count, is_cancelled, add_callback, drop,
}
use codelldb.Cancellation.Filter.{
  cancel, scopes, step_in, other, Filter, start, classify, on_request, request, finished, run,
}
use codelldb.Cancellation.Reaches.{cancel_reaches}
use codelldb.Cancellation.Stops.{resume_stops}
use codelldb.Cancellation.Counts.{
  empty, making, subscribing, dropping, Steps, done, more, occurrences, receiver_count-occurrences,
}

abbrev fresh : Heap
fresh = empty.heap

-- refcounts
refcounts :
    let h = (new fresh).1 in
    let h1 = (subscribe 0 h).1 in
    let h2 = (subscribe 0 h1).1 in
    let h3 = drop 0 h2 in
    (receiver_count 0 h ≡ 0)
    × (receiver_count 0 h1 ≡ 1)
    × (receiver_count 0 h2 ≡ 2)
    × (receiver_count 0 h3 ≡ 1)
    × (receiver_count 0 (drop 0 (drop 0 (subscribe 0 h3).1)) ≡ 0)
unfolding new subscribe receiver_count drop
refcounts = (refl, refl, refl, refl, refl)

-- A watcher is called when the token is sent.
watched : (send 0 (add_callback 0 7 (new fresh).1)).called ≡ 7 ∷ []
unfolding new send add_callback
watched = refl

abbrev filter : Filter
filter = start fresh

cancel_reaches_example :
    ((on_request 5 scopes filter).forwarded ≡ (5, scopes, 0) ∷ [])
    × (is_cancelled 0
          (on_request 8
            (cancel (some 5))
            (run (request 6 other ∷ finished 1 ∷ []) (on_request 5 scopes filter))).heap
        ≡ true)
unfolding classify
cancel_reaches_example =
    cancel_reaches filter 5 scopes (request 6 other ∷ finished 1 ∷ []) 8 5 tt
      (λ e. cc, (λ e. cc, tt)) refl

resume_stops_example :
    is_cancelled 0
      (on_request 8 step_in
        (run (request 6 other ∷ finished 1 ∷ []) (on_request 5 scopes filter))).heap
    ≡ true
resume_stops_example =
    resume_stops filter 5 scopes (request 6 other ∷ finished 1 ∷ []) 8 step_in (inl refl)
      (tt, (λ e. cc, tt)) (inr (inr (inr (inl refl))))

-- One token with two receivers, one of them dropped.
abbrev made : Heap
made = (new fresh).1

abbrev subscribed : Heap
subscribed = (subscribe 0 made).1

first-Steps : Steps empty (record { heap = subscribed; receivers = 0 ∷ [] })
unfolding new subscribe
first-Steps = more (more (done empty) (making fresh [])) (subscribing made [] 0 (omega arith))

receiver_count-occurrences_example : receiver_count 0 subscribed ≡ 1
unfolding new subscribe occurrences
receiver_count-occurrences_example = receiver_count-occurrences first-Steps 0 (omega arith)

last-Steps :
    Steps
      (record { heap = send 0 subscribed; receivers = 0 ∷ [] })
      (record { heap = drop 0 (send 0 subscribed); receivers = [] })
last-Steps = more (done _) (dropping (send 0 subscribed) [] [] 0)
