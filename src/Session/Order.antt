-- ===== src/Session/Order.antt =====
-- Messages reach the client in the order in which they were put into the queue.
use mathlib.Core.List.{map-append}
use codelldb.Prelude.{
  ◌≡◌, inl, inr, refl, sym, ap, ◌∙◌, Bool, not, ◌&&◌, Option, none, some, List, [], ◌∷◌, ◌++◌, map,
  append_assoc, append-nil, ltb, length, if◌then◌else◌, arith, Bool-cases, All, either_branch,
}
use codelldb.Prelude.Equality.{ℕ_eq}
use codelldb.Codec
use codelldb.Codec.{DecoderResult}
use codelldb.Session.{Protocol, ProtocolMessageType, request, response, event, ProtocolMessage}
use codelldb.Session.Dispatch.{
  Waiter, out_capacity, Dispatcher, send, on_response, on_message, Incoming, item, frame_error,
  end_of_stream, on_incoming, note_waiter, on_outgoing, enqueue, send_request, try_send_response,
  try_send_event, Action, incoming, outgoing, requesting, responding, notifying, act, run,
}

module _ (p : Protocol) where
  -- No reply of the dispatcher's own comes between.
  abbrev pub IsReadable : Action p → Type 0
  IsReadable (incoming (item (Codec.serde_error e v))) = ⊥
  IsReadable _ = Unit

  abbrev pub queue_open : Dispatcher p → Bool
  queue_open d = not d.disconnected && ltb (length d.out_queue) out_capacity

  -- What an action puts into the queue.
  abbrev pub accepted : Action p → Dispatcher p → List (ProtocolMessageType p)
  accepted (requesting r) d = if queue_open d then request r ∷ [] else []
  accepted (responding r) d = if queue_open d then response r ∷ [] else []
  accepted (notifying e) d = if queue_open d then event e ∷ [] else []
  accepted _ d = []

  abbrev pub accepted_all : List (Action p) → Dispatcher p → List (ProtocolMessageType p)
  accepted_all [] d = []
  accepted_all (a ∷ es) d = accepted a d ++ accepted_all es (act p a d)

  -- What was sent, and behind it what waits.
  abbrev pub line : Dispatcher p → List (ProtocolMessageType p)
  line d = map (λ m. m.type_) d.sent ++ map (λ q. q.0) d.out_queue

  on_message-line :
      (m : ProtocolMessage p) (t : ProtocolMessageType p) (d : Dispatcher p)
      → m.type_ ≡ t
      → line (on_message p m d) ≡ line d
  unfolding on_message on_response
  on_message-line m (request r) d e = rw (e, on_message) refl
  on_message-line m (response r) d e = rw (e, on_message) (ground arith)
  on_message-line m (event b) d e = rw (e, on_message) refl

  on_incoming-line :
      (i : Incoming p) (d : Dispatcher p)
      → IsReadable (incoming i)
      → line (on_incoming p i d) ≡ line d
  unfolding on_incoming
  on_incoming-line (item (Codec.message m)) d h = on_message-line m m.type_ d refl
  on_incoming-line (item (Codec.serde_error e v)) d h = elim h [ ]
  on_incoming-line frame_error d h = refl
  on_incoming-line end_of_stream d h = refl

  note_waiter-line : (w : Option Waiter) (d : Dispatcher p) → line (note_waiter p w d) ≡ line d
  unfolding note_waiter
  note_waiter-line none d = refl
  note_waiter-line (some w) d = refl

  send-line :
      (t : ProtocolMessageType p) (w : Option Waiter)
      (q : List (ProtocolMessageType p × Option Waiter)) (d : Dispatcher p)
      → d.out_queue ≡ (t, w) ∷ q
      → line (send p t (record d { out_queue = q })) ≡ line d
  unfolding send
  send-line t w q d e =
      let waits : map (λ (x : ProtocolMessageType p × Option Waiter). x.0) d.out_queue
          ≡ t ∷ map (λ x. x.0) q =
        ap (map (λ x. x.0)) e in
      simp (map-append, append_assoc, waits)

  on_outgoing-line :
      (q : List (ProtocolMessageType p × Option Waiter)) (d : Dispatcher p)
      → d.out_queue ≡ q
      → line (on_outgoing p d) ≡ line d
  unfolding on_outgoing
  on_outgoing-line [] d e = ap line {x = on_outgoing p d} {y = d} (simp (on_outgoing, e))
  on_outgoing-line ((t, w) ∷ q) d e =
      let out : on_outgoing p d ≡ note_waiter p w (send p t (record d { out_queue = q })) =
        simp (on_outgoing, e) in
      ap line out ∙ note_waiter-line w (send p t (record d { out_queue = q })) ∙ send-line t w q d e

  enqueue-line :
      (t : ProtocolMessageType p) (w : Option Waiter) (d : Dispatcher p)
      → line (record d { out_queue = d.out_queue ++ (t, w) ∷ [] }) ≡ line d ++ t ∷ []
  enqueue-line t w d = simp (map-append, append_assoc)

  act-line :
      (a : Action p) (d : Dispatcher p) → IsReadable a → line (act p a d) ≡ line d ++ accepted a d
  unfolding act send_request try_send_response try_send_event enqueue
  act-line (incoming i) d h =
      either_branch (λ u. line u ≡ line d ++ []) d.disconnected (sym (append-nil (line d)))
        (on_incoming-line i d h ∙ sym (append-nil (line d)))
  act-line outgoing d h =
      either_branch (λ u. line u ≡ line d ++ []) d.disconnected (sym (append-nil (line d)))
        (on_outgoing-line d.out_queue d refl ∙ sym (append-nil (line d)))
  act-line (requesting r) d h = elim (Bool-cases (queue_open d)) [
    | inl room ↦ simp (act, room, enqueue-line)
    | inr full ↦ simp (act, full, append-nil)
  ]
  act-line (responding r) d h = elim (Bool-cases (queue_open d)) [
    | inl room ↦ simp (act, room, enqueue-line)
    | inr full ↦ simp (act, full, append-nil)
  ]
  act-line (notifying e) d h = elim (Bool-cases (queue_open d)) [
    | inl room ↦ simp (act, room, enqueue-line)
    | inr full ↦ simp (act, full, append-nil)
  ]

  -- In a run in which serde_json reads every message, what was sent to the client and what waits in
  -- the queue is, in this order, what was sent and waited before and then what the queue took in.
  pub run_keeps_order :
      (es : List (Action p)) (d : Dispatcher p)
      → All IsReadable es
      → line (run p es d) ≡ line d ++ accepted_all es d
  unfolding run
  run_keeps_order [] d h = sym (append-nil (line d))
  run_keeps_order (a ∷ es) d h =
      run_keeps_order es (act p a d) h.1
      ∙ ap (λ l. l ++ accepted_all es (act p a d)) (act-line a d h.0)
      ∙ append_assoc (line d) (accepted a d) (accepted_all es (act p a d))
