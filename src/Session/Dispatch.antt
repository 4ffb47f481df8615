-- ===== src/Session/Dispatch.antt =====
-- The loop of the dispatcher: what a message from the client and a message to the client do, and
-- the calls by which messages get into the queue.
use codelldb.Prelude.{
  ℕ, suc, ◌+◌, ◌%◌, ◌^◌, Bool, true, false, Option, none, some, List, [], ◌∷◌, ◌++◌, ltb, length,
  not, ◌&&◌, if◌then◌else◌, ◌>>=◌,
}
use codelldb.Prelude.Equality.{ℕ_eq}
use codelldb.Prelude.Map.{Map, lookup, insert, remove}
use codelldb.Prelude.Text.{chars}
use codelldb.Codec
use codelldb.Codec.{DecoderResult}
use codelldb.Session.{
  Protocol, ResponseResult, error, Response, ProtocolMessageType, request, response, event,
  ProtocolMessage,
}

-- The sender of a `oneshot` channel, known by a number: who waits for a response.
abbrev pub Waiter : Type 0
Waiter = ℕ

abbrev pub out_capacity : ℕ
out_capacity = 1000

module _ (p : Protocol) where
  open p use {RequestArguments, EventBody, Value, Error, as_object, get, as_u64}

  -- The dispatcher's variables and its channels, each as the list of what went through it, the last
  -- one last: to the client, to those who wait for responses, to the subscribers of requests and of
  -- events. `out_queue` is what the dispatcher has not taken yet.
  pub record Dispatcher : Type 0 where
    pub pending_requests : Map ℕ Waiter
    pub message_seq : ℕ
    pub out_queue : List (ProtocolMessageType p × Option Waiter)
    pub sent : List (ProtocolMessage p)
    pub delivered : List (Waiter × ResponseResult p)
    pub requests : List (ℕ × RequestArguments)
    pub events : List EventBody
    pub next_waiter : Waiter
    pub disconnected : Bool

  abbrev pub new : Dispatcher
  new = record {
    pending_requests = [];
    message_seq = 0;
    out_queue = [];
    sent = [];
    delivered = [];
    requests = [];
    events = [];
    next_waiter = 0;
    disconnected = false;
  }

  -- `message_seq` is a `u32`.
  unfoldable pub send : ProtocolMessageType p → Dispatcher → Dispatcher
  send type_ d =
      let seq : ℕ = (d.message_seq + 1) % 2 ^ 32 in
      record d { message_seq = seq; sent = d.sent ++ record { seq = seq; type_ = type_ } ∷ [] }

  -- A response goes to the one who waits for it.
  unfoldable pub on_response : Response p → Dispatcher → Dispatcher
  on_response r d = elim (lookup r.request_seq d.pending_requests) [
    | none ↦ d
    | some waiter ↦ record d {
      pending_requests = remove r.request_seq d.pending_requests;
      delivered = d.delivered ++ (waiter, r.result) ∷ [];
    }
  ]

  unfoldable pub on_message : ProtocolMessage p → Dispatcher → Dispatcher
  unfolding on_response
  on_message m d = elim m.type_ [
    | request r ↦ record d { requests = d.requests ++ (m.seq, r) ∷ [] }
    | event e ↦ record d { events = d.events ++ e ∷ [] }
    | response r ↦ on_response r d
  ]

  unfoldable pub request_seq : Value → Option ℕ
  request_seq value = do obj ← as_object value; seq ← get obj (chars "seq"); as_u64 seq

  abbrev pub malformed : ℕ → ProtocolMessageType p
  malformed seq = response (record {
    request_seq = seq % 2 ^ 32;
    success = false;
    result = error (chars "") (chars "Malformed message") none;
  })

  -- A message that serde_json did not read is answered, if it has a number.
  unfoldable pub on_serde_error : Value → Dispatcher → Dispatcher
  unfolding send request_seq
  on_serde_error value d = elim (request_seq value) [ none ↦ d | some seq ↦ send (malformed seq) d ]

  -- What `channel.next()` gives: an item of the decoder, its error, or the end of the stream.
  pub data Incoming : Type 0 where
    item : DecoderResult (ProtocolMessage p) Value Error → Incoming
    frame_error end_of_stream : Incoming

  unfoldable pub on_incoming : Incoming → Dispatcher → Dispatcher
  unfolding on_message on_serde_error
  on_incoming (item (Codec.message m)) d = on_message m d
  on_incoming (item (Codec.serde_error e value)) d = on_serde_error value d
  on_incoming frame_error d = record d { disconnected = true }
  on_incoming end_of_stream d = record d { disconnected = true }

  unfoldable pub note_waiter : Option Waiter → Dispatcher → Dispatcher
  note_waiter none d = d
  note_waiter (some w) d = record d { pending_requests = insert d.message_seq w d.pending_requests }

  -- The dispatcher takes the first message of the queue.
  unfoldable pub on_outgoing : Dispatcher → Dispatcher
  unfolding send note_waiter
  on_outgoing d = elim d.out_queue [
    | [] ↦ d
    | (type_, waiter) ∷ rest ↦ note_waiter waiter (send type_ (record d { out_queue = rest }))
  ]

  unfoldable pub enqueue : ProtocolMessageType p → Option Waiter → Dispatcher → Option Dispatcher
  enqueue type_ waiter d =
      if not d.disconnected && ltb (length d.out_queue) out_capacity
      then some (record d { out_queue = d.out_queue ++ (type_, waiter) ∷ [] })
      else none

  -- `none` is a full queue, for which `send_request` waits, or the end of the loop; the `try_`
  -- functions return an error.
  unfoldable pub send_request : RequestArguments → Dispatcher → Option (Waiter × Dispatcher)
  unfolding enqueue
  send_request args d = do
    d' ← enqueue (request args) (some d.next_waiter) d
    some (d.next_waiter, record d' { next_waiter = suc d.next_waiter })

  unfoldable pub try_send_response : Response p → Dispatcher → Option Dispatcher
  unfolding enqueue
  try_send_response r d = enqueue (response r) none d

  unfoldable pub try_send_event : EventBody → Dispatcher → Option Dispatcher
  unfolding enqueue
  try_send_event body d = enqueue (event body) none d

  -- A step of the dispatcher or of its clients.
  pub data Action : Type 0 where
    incoming : Incoming → Action
    outgoing : Action
    requesting : RequestArguments → Action
    responding : Response p → Action
    notifying : EventBody → Action

  abbrev pub or_else {ℓ} : {A : Type ℓ} → A → Option A → A
  or_else a none = a
  or_else a (some b) = b

  abbrev pub queued : Dispatcher → Option (Waiter × Dispatcher) → Dispatcher
  queued d none = d
  queued d (some (w, d')) = d'

  -- Behind the end of its loop the dispatcher does nothing.
  unfoldable pub act : Action → Dispatcher → Dispatcher
  unfolding on_incoming on_outgoing send_request try_send_response try_send_event
  act (incoming i) d = if d.disconnected then d else on_incoming i d
  act outgoing d = if d.disconnected then d else on_outgoing d
  act (requesting r) d = queued d (send_request r d)
  act (responding r) d = or_else d (try_send_response r d)
  act (notifying e) d = or_else d (try_send_event e d)

  unfoldable pub run : List Action → Dispatcher → Dispatcher
  unfolding act
  run [] d = d
  run (a ∷ as') d = run as' (act a d)
