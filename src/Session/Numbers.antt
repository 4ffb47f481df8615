-- ===== src/Session/Numbers.antt =====
-- The messages to the client are numbered in order.
use codelldb.Prelude.{
  ℕ, zero, suc, ◌+◌, ◌%◌, ◌^◌, ◌≡◌, ◌⊎◌, inl, inr, refl, ap, Option, none, some, List, [], ◌∷◌,
  ◌++◌, length, length-append, get_elem?, arith, Option-cases, either_branch, sym,
}
use codelldb.Prelude.Equality.{ℕ_eq}
use codelldb.Codec
use codelldb.Codec.{DecoderResult}
use codelldb.Session.{
  Protocol, Response, ProtocolMessageType, request, response, event, ProtocolMessage,
}
use codelldb.Session.Dispatch.{
  Waiter, Dispatcher, new, send, on_response, on_message, request_seq, malformed, on_serde_error,
  Incoming, item, frame_error, end_of_stream, on_incoming, note_waiter, on_outgoing, enqueue,
  send_request, try_send_response, try_send_event, Action, incoming, outgoing, requesting,
  responding, notifying, act, run,
}

get_elem?-snoc :
    {A : Type 0} (xs : List A) (x : A) (i : ℕ) {y : A}
    → get_elem? (xs ++ x ∷ []) i ≡ some y
    → (get_elem? xs i ≡ some y) ⊎ ((i ≡ length xs) × (x ≡ y))
get_elem?-snoc [] x zero e = inr (refl, cc)
get_elem?-snoc [] x (suc i) e = cc
get_elem?-snoc (z ∷ xs) x zero e = inl e
get_elem?-snoc (z ∷ xs) x (suc i) e = elim (get_elem?-snoc xs x i e) [
  | inl found ↦ inl found
  | inr (last, same) ↦ inr (ap (λ k. suc k) last, same)
]

module _ (p : Protocol) where
  record Numbered (seq : ℕ) (sent : List (ProtocolMessage p)) : Type 0 where
    counter : seq ≡ length sent % 2 ^ 32
    numbers : (i : ℕ) (m : ProtocolMessage p) → get_elem? sent i ≡ some m → m.seq ≡ (i + 1) % 2 ^ 32

  abbrev IsNumbered : Dispatcher p → Type 0
  IsNumbered d = Numbered d.message_seq d.sent

  send-IsNumbered :
      (t : ProtocolMessageType p) (d : Dispatcher p) → IsNumbered d → IsNumbered (send p t d)
  unfolding send
  send-IsNumbered t d n =
      let c = n.counter in
      record {
        counter = rw (length-append d.sent, c) (omega arith);
        numbers = λ i m e. elim (get_elem?-snoc d.sent _ i e) [
          | inl found ↦ n.numbers i m found
          | inr (last, same) ↦ rw (sym (ap (λ x. x.seq) same), last, c) (omega arith)
        ];
      }

  -- What sends nothing.
  quiet-IsNumbered :
      (d u : Dispatcher p)
      → u.sent ≡ d.sent
      → u.message_seq ≡ d.message_seq
      → IsNumbered d
      → IsNumbered u
  quiet-IsNumbered d u e f n = record { counter = rw (f, e) n.counter; numbers = rw e n.numbers }

  on_response-IsNumbered :
      (r : Response p) (d : Dispatcher p) → IsNumbered d → IsNumbered (on_response p r d)
  unfolding on_response
  on_response-IsNumbered r d n =
      quiet-IsNumbered d (on_response p r d) (ground arith) (ground arith) n

  on_message-IsNumbered :
      (m : ProtocolMessage p) (t : ProtocolMessageType p) (d : Dispatcher p)
      → m.type_ ≡ t
      → IsNumbered d
      → IsNumbered (on_message p m d)
  unfolding on_message
  on_message-IsNumbered m (request r) d e n = rw (e, on_message) n
  on_message-IsNumbered m (response r) d e n = rw (e, on_message) (on_response-IsNumbered r d n)
  on_message-IsNumbered m (event b) d e n = rw (e, on_message) n

  on_serde_error-IsNumbered :
      (v : p.Value) (d : Dispatcher p) → IsNumbered d → IsNumbered (on_serde_error p v d)
  unfolding on_serde_error
  on_serde_error-IsNumbered v d n = elim (Option-cases (request_seq p v)) [
    | inl absent ↦ rw (absent, on_serde_error) n
    | inr (seq, found) ↦ rw (found, on_serde_error) (send-IsNumbered (malformed p seq) d n)
  ]

  on_incoming-IsNumbered :
      (i : Incoming p) (d : Dispatcher p) → IsNumbered d → IsNumbered (on_incoming p i d)
  unfolding on_incoming
  on_incoming-IsNumbered (item (Codec.message m)) d n = on_message-IsNumbered m m.type_ d refl n
  on_incoming-IsNumbered (item (Codec.serde_error e v)) d n = on_serde_error-IsNumbered v d n
  on_incoming-IsNumbered frame_error d n = n
  on_incoming-IsNumbered end_of_stream d n = n

  note_waiter-IsNumbered :
      (w : Option Waiter) (d : Dispatcher p) → IsNumbered d → IsNumbered (note_waiter p w d)
  unfolding note_waiter
  note_waiter-IsNumbered none d n = n
  note_waiter-IsNumbered (some w) d n = n

  on_outgoing-IsNumbered :
      (q : List (ProtocolMessageType p × Option Waiter)) (d : Dispatcher p)
      → d.out_queue ≡ q
      → IsNumbered d
      → IsNumbered (on_outgoing p d)
  unfolding on_outgoing
  on_outgoing-IsNumbered [] d e n = rw (e, on_outgoing) n
  on_outgoing-IsNumbered ((t, w) ∷ q) d e n =
      rw (e, on_outgoing)
        (note_waiter-IsNumbered w _ (send-IsNumbered t (record d { out_queue = q }) n))

  act-IsNumbered : (a : Action p) (d : Dispatcher p) → IsNumbered d → IsNumbered (act p a d)
  unfolding act send_request try_send_response try_send_event enqueue
  act-IsNumbered (incoming i) d n =
      either_branch IsNumbered d.disconnected n (on_incoming-IsNumbered i d n)
  act-IsNumbered outgoing d n =
      either_branch IsNumbered d.disconnected n (on_outgoing-IsNumbered d.out_queue d refl n)
  act-IsNumbered (requesting r) d n =
      quiet-IsNumbered d (act p (requesting r) d) (ground arith) (ground arith) n
  act-IsNumbered (responding r) d n =
      quiet-IsNumbered d (act p (responding r) d) (ground arith) (ground arith) n
  act-IsNumbered (notifying e) d n =
      quiet-IsNumbered d (act p (notifying e) d) (ground arith) (ground arith) n

  run-IsNumbered :
      (es : List (Action p)) (d : Dispatcher p) → IsNumbered d → IsNumbered (run p es d)
  unfolding run
  run-IsNumbered [] d n = n
  run-IsNumbered (a ∷ es) d n = run-IsNumbered es (act p a d) (act-IsNumbered a d n)

  -- In every run the messages to the client, replies to malformed ones among them, are numbered
  -- 1, 2, 3 and so on, modulo 2 ^ 32.
  pub sent_in_order :
      (es : List (Action p)) (i : ℕ) (m : ProtocolMessage p)
      → get_elem? (run p es (new p)).sent i ≡ some m
      → m.seq ≡ (i + 1) % 2 ^ 32
  sent_in_order es i m e =
      (run-IsNumbered es (new p) (record { counter = refl; numbers = λ j x h. cc })).numbers i m e
