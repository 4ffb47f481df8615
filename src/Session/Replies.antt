-- ===== src/Session/Replies.antt =====
-- A response goes to the one who sent the request with its number, once.
use codelldb.Prelude.{
  ℕ, ◌+◌, ◌%◌, ◌^◌, ◌<◌, ◌≤◌, ◌≡◌, ◌≢◌, inl, inr, refl, false, Option, none, some, List, [], ◌∷◌,
  ◌++◌, arith, Option-cases, either_branch,
}
use codelldb.Prelude.Equality.{ℕ_eq}
use codelldb.Prelude.Map.{lookup, remove, lookup-insert, lookup-insert_self, lookup-remove}
use codelldb.Codec
use codelldb.Codec.{DecoderResult}
use codelldb.Session.{
  Protocol, Response, ProtocolMessageType, request, response, event, ProtocolMessage,
}
use codelldb.Session.Dispatch.{
  Waiter, Dispatcher, send, on_response, on_message, request_seq, malformed, on_serde_error,
  Incoming, item, frame_error, end_of_stream, on_incoming, note_waiter, on_outgoing, enqueue,
  send_request, try_send_response, try_send_event, Action, incoming, outgoing, requesting,
  responding, notifying, act, run,
}

module _ (p : Protocol) where
  -- Whether an action brings the response to request `seq`.
  abbrev pub Answers : ℕ → ProtocolMessageType p → Type 0
  Answers seq (response r) = r.request_seq ≡ seq
  Answers seq _ = ⊥

  abbrev pub Brings : ℕ → Action p → Type 0
  Brings seq (incoming (item (Codec.message m))) = Answers seq m.type_
  Brings seq _ = ⊥

  -- Nothing answers the request, and the counter does not wrap around.
  abbrev pub Unanswered : ℕ → List (Action p) → Dispatcher p → Type 0
  Unanswered seq [] d = Unit
  Unanswered seq (a ∷ es) d =
      (Brings seq a → ⊥) × (d.message_seq + 1 < 2 ^ 32) × Unanswered seq es (act p a d)

  -- A waiter is pending under a number that was given out.
  record Waiting (seq : ℕ) (w : Waiter) (d : Dispatcher p) : Type 0 where
    pending : lookup seq d.pending_requests ≡ some w
    given : seq ≤ d.message_seq

  module _ {seq : ℕ} {w : Waiter} where
    same-Waiting :
        (d u : Dispatcher p)
        → u.pending_requests ≡ d.pending_requests
        → u.message_seq ≡ d.message_seq
        → Waiting seq w d
        → Waiting seq w u
    same-Waiting d u e f t = record { pending = rw e t.pending; given = rw f t.given }

    send-Waiting :
        (t : ProtocolMessageType p) (d : Dispatcher p)
        → d.message_seq + 1 < 2 ^ 32
        → Waiting seq w d
        → Waiting seq w (send p t d)
    unfolding send
    send-Waiting t d room h = let g = h.given in record { pending = h.pending; given = omega arith }

    on_response-Waiting :
        (r : Response p) (d : Dispatcher p)
        → r.request_seq ≢ seq
        → Waiting seq w d
        → Waiting seq w (on_response p r d)
    unfolding on_response
    on_response-Waiting r d ne h = elim (Option-cases (lookup r.request_seq d.pending_requests)) [
      | inl absent ↦ rw (absent, on_response) h
      | inr (v, found) ↦
          rw (found, on_response)
            (record {
              pending =
                  ground (arith, lookup-remove r.request_seq seq d.pending_requests, h.pending);
              given = h.given;
            })
    ]

    on_message-Waiting :
        (m : ProtocolMessage p) (t : ProtocolMessageType p) (d : Dispatcher p)
        → m.type_ ≡ t
        → (Answers seq t → ⊥)
        → Waiting seq w d
        → Waiting seq w (on_message p m d)
    unfolding on_message
    on_message-Waiting m (request r) d e a h =
        rw (e, on_message)
          (same-Waiting d (record d { requests = d.requests ++ (m.seq, r) ∷ [] }) refl refl h)
    on_message-Waiting m (response r) d e a h = rw (e, on_message) (on_response-Waiting r d a h)
    on_message-Waiting m (event b) d e a h =
        rw (e, on_message) (same-Waiting d (record d { events = d.events ++ b ∷ [] }) refl refl h)

    on_serde_error-Waiting :
        (v : p.Value) (d : Dispatcher p)
        → d.message_seq + 1 < 2 ^ 32
        → Waiting seq w d
        → Waiting seq w (on_serde_error p v d)
    unfolding on_serde_error
    on_serde_error-Waiting v d room h = elim (Option-cases (request_seq p v)) [
      | inl absent ↦ rw (absent, on_serde_error) h
      | inr (n, found) ↦ rw (found, on_serde_error) (send-Waiting (malformed p n) d room h)
    ]

    on_incoming-Waiting :
        (i : Incoming p) (d : Dispatcher p)
        → (Brings seq (incoming i) → ⊥)
        → d.message_seq + 1 < 2 ^ 32
        → Waiting seq w d
        → Waiting seq w (on_incoming p i d)
    unfolding on_incoming
    on_incoming-Waiting (item (Codec.message m)) d b room h =
        on_message-Waiting m m.type_ d refl b h
    on_incoming-Waiting (item (Codec.serde_error e v)) d b room h =
        on_serde_error-Waiting v d room h
    on_incoming-Waiting frame_error d b room h = same-Waiting d _ refl refl h
    on_incoming-Waiting end_of_stream d b room h = same-Waiting d _ refl refl h

    -- A new waiter stands under a new number.
    outgoing-Waiting :
        (t : ProtocolMessageType p) (v : Option Waiter) (d : Dispatcher p)
        → d.message_seq + 1 < 2 ^ 32
        → Waiting seq w d
        → Waiting seq w (note_waiter p v (send p t d))
    unfolding note_waiter send
    outgoing-Waiting t none d room h = send-Waiting t d room h
    outgoing-Waiting t (some v) d room h =
        let g = h.given in
        record {
          pending = ground (
            arith,
            lookup-insert ((d.message_seq + 1) % 2 ^ 32) seq v d.pending_requests,
            h.pending,
          );
          given = omega arith;
        }

    on_outgoing-Waiting :
        (q : List (ProtocolMessageType p × Option Waiter)) (d : Dispatcher p)
        → d.out_queue ≡ q
        → d.message_seq + 1 < 2 ^ 32
        → Waiting seq w d
        → Waiting seq w (on_outgoing p d)
    unfolding on_outgoing
    on_outgoing-Waiting [] d e room h = rw (e, on_outgoing) h
    on_outgoing-Waiting ((t, v) ∷ q) d e room h =
        let rest : Dispatcher p = record d { out_queue = q } in
        rw (e, on_outgoing) (outgoing-Waiting t v rest room (same-Waiting d rest refl refl h))

    act-Waiting :
        (a : Action p) (d : Dispatcher p)
        → (Brings seq a → ⊥)
        → d.message_seq + 1 < 2 ^ 32
        → Waiting seq w d
        → Waiting seq w (act p a d)
    unfolding act send_request try_send_response try_send_event enqueue
    act-Waiting (incoming i) d b room h =
        either_branch (Waiting seq w) d.disconnected h (on_incoming-Waiting i d b room h)
    act-Waiting outgoing d b room h =
        either_branch (Waiting seq w) d.disconnected h
          (on_outgoing-Waiting d.out_queue d refl room h)
    act-Waiting (requesting r) d b room h =
        same-Waiting d (act p (requesting r) d) (ground arith) (ground arith) h
    act-Waiting (responding r) d b room h =
        same-Waiting d (act p (responding r) d) (ground arith) (ground arith) h
    act-Waiting (notifying e) d b room h =
        same-Waiting d (act p (notifying e) d) (ground arith) (ground arith) h

    run-Waiting :
        (es : List (Action p)) (d : Dispatcher p)
        → Unanswered seq es d
        → Waiting seq w d
        → Waiting seq w (run p es d)
    unfolding run
    run-Waiting [] d u h = h
    run-Waiting (a ∷ es) d u h = run-Waiting es (act p a d) u.2 (act-Waiting a d u.0 u.1 h)

    answer :
        (m : ProtocolMessage p) (r : Response p) (d : Dispatcher p)
        → m.type_ ≡ response r
        → r.request_seq ≡ seq
        → d.disconnected ≡ false
        → Waiting seq w d
        → let u = act p (incoming (item (Codec.message m))) d in
          (u.delivered ≡ d.delivered ++ (w, r.result) ∷ []) × (lookup seq u.pending_requests ≡ none)
    unfolding act on_incoming on_message on_response
    answer m r d e s live h =
        let found : lookup r.request_seq d.pending_requests ≡ some w = rw s h.pending in
        let gone : lookup seq (remove r.request_seq d.pending_requests) ≡ none =
          ground (arith, lookup-remove r.request_seq seq d.pending_requests) in
        simp (act, live, e, on_message, found, on_response, gone) (refl, refl)

  -- The dispatcher sends the request under the next number, and its waiter stands under it.
  sent-Waiting :
      (d : Dispatcher p) (r : p.RequestArguments) (w : Waiter)
      (rest : List (ProtocolMessageType p × Option Waiter))
      → d.out_queue ≡ (request r, some w) ∷ rest
      → d.disconnected ≡ false
      → d.message_seq + 1 < 2 ^ 32
      → Waiting (d.message_seq + 1) w (act p outgoing d)
  unfolding act on_outgoing note_waiter send
  sent-Waiting d r w rest q live room =
      let next : (d.message_seq + 1) % 2 ^ 32 ≡ d.message_seq + 1 = omega arith in
      simp (act, live, on_outgoing, q, next)
        (record {
          pending = lookup-insert_self (d.message_seq + 1) w d.pending_requests;
          given = omega arith;
        })

  -- The message that goes out has the request and the number.
  sent_next :
      (d : Dispatcher p) (r : p.RequestArguments) (w : Waiter)
      (rest : List (ProtocolMessageType p × Option Waiter))
      → d.out_queue ≡ (request r, some w) ∷ rest
      → d.disconnected ≡ false
      → d.message_seq + 1 < 2 ^ 32
      → (act p outgoing d).sent
        ≡ d.sent ++ record { seq = d.message_seq + 1; type_ = request r } ∷ []
  unfolding act on_outgoing note_waiter send
  sent_next d r w rest q live room =
      let next : (d.message_seq + 1) % 2 ^ 32 ≡ d.message_seq + 1 = omega arith in
      simp (act, live, on_outgoing, q, next)

  -- The first request of the queue is sent to the client, under the next number, and the first
  -- response with this number goes to its waiter alone, who is not pending any more, whatever came
  -- between without a response to it, if fewer than 2 ^ 32 messages are sent by then and the client
  -- is still connected.
  pub reply_reaches :
      (d : Dispatcher p) (r : p.RequestArguments) (w : Waiter)
      (rest : List (ProtocolMessageType p × Option Waiter)) (es : List (Action p))
      (m : ProtocolMessage p) (reply : Response p)
      → d.out_queue ≡ (request r, some w) ∷ rest
      → d.disconnected ≡ false
      → d.message_seq + 1 < 2 ^ 32
      → Unanswered (d.message_seq + 1) es (act p outgoing d)
      → (run p es (act p outgoing d)).disconnected ≡ false
      → m.type_ ≡ response reply
      → reply.request_seq ≡ d.message_seq + 1
      → let before = run p es (act p outgoing d) in
        let after = act p (incoming (item (Codec.message m))) before in
        ((act p outgoing d).sent
          ≡ d.sent ++ record { seq = d.message_seq + 1; type_ = request r } ∷ [])
        × (after.delivered ≡ before.delivered ++ (w, reply.result) ∷ [])
        × (lookup (d.message_seq + 1) after.pending_requests ≡ none)
  reply_reaches d r w rest es m reply q live room u still e s =
      let done =
        answer m reply (run p es (act p outgoing d)) e s still
          (run-Waiting es (act p outgoing d) u (sent-Waiting d r w rest q live room)) in
      (sent_next d r w rest q live room, done.0, done.1)
