-- ===== src/Session/Tests.antt =====
-- Runs of the dispatcher over a protocol whose bodies are numbers, and the theorems there.
use codelldb.Prelude.{ℕ, ◌+◌, ◌%◌, ◌^◌, ◌≡◌, refl, true, none, some, [], ◌∷◌, ◌++◌, arith}
use codelldb.Prelude.Equality.{ℕ_eq}
use codelldb.Prelude.Map.{lookup}
use codelldb.Codec
use codelldb.Codec.{DecoderResult}
use codelldb.Session.{Protocol, success, Response, request, response, event, ProtocolMessage}
use codelldb.Session.Dispatch.{
  Dispatcher, new, send, request_seq, malformed, on_serde_error, item, on_incoming, note_waiter,
  on_outgoing, enqueue, send_request, try_send_event, incoming, outgoing, responding, notifying,
  act, run,
}
use codelldb.Session.Numbers.{sent_in_order}
use codelldb.Session.Replies.{reply_reaches}
use codelldb.Session.Order.{line, accepted_all, run_keeps_order}

-- A value is a number, and an object whose field "seq" is that number.
abbrev numbers : Protocol
numbers = record {
  RequestArguments = ℕ;
  EventBody = ℕ;
  ResponseBody = ℕ;
  Value = ℕ;
  Error = ℕ;
  Object = ℕ;
  as_object = λ v. some v;
  get = λ o key. some o;
  as_u64 = λ v. some v;
}

abbrev start : Dispatcher numbers
start = new numbers

abbrev queued_request : Dispatcher numbers
queued_request = record start { out_queue = (request 7, some 0) ∷ []; next_waiter = 1 }

requested : send_request numbers 7 start ≡ some (0, queued_request)
unfolding send_request enqueue
requested = refl

-- A message that cannot be read is answered under its number.
answered :
    (run numbers (incoming (item (Codec.serde_error 0 5)) ∷ []) start).sent
    ≡ record { seq = 1; type_ = malformed numbers 5 } ∷ []
unfolding run act on_incoming on_serde_error request_seq send
answered = refl

sent_in_order_example : 2 ≡ (1 + 1) % 2 ^ 32
unfolding run act on_incoming on_serde_error request_seq send try_send_event enqueue on_outgoing
    note_waiter
sent_in_order_example =
    sent_in_order numbers (notifying 3 ∷ incoming (item (Codec.serde_error 0 5)) ∷ outgoing ∷ []) 1
      (record { seq = 2; type_ = event 3 }) refl

abbrev reply : Response numbers
reply = record { request_seq = 1; success = true; result = success 9 }

abbrev reply_message : ProtocolMessage numbers
reply_message = record { seq = 4; type_ = response reply }

reply_reaches_example :
    let before = run numbers (notifying 3 ∷ outgoing ∷ []) (act numbers outgoing queued_request) in
    let after = act numbers (incoming (item (Codec.message reply_message))) before in
    ((act numbers outgoing queued_request).sent
      ≡ queued_request.sent ++ record { seq = 1; type_ = request 7 } ∷ [])
    × (after.delivered ≡ before.delivered ++ (0, success 9) ∷ [])
    × (lookup 1 after.pending_requests ≡ none)
unfolding run act on_incoming send try_send_event enqueue on_outgoing note_waiter
reply_reaches_example =
    reply_reaches numbers queued_request 7 0 [] (notifying 3 ∷ outgoing ∷ []) reply_message reply
      refl refl (omega arith) (λ b. b, omega arith, (λ b. b, omega arith, tt)) refl refl refl

run_keeps_order_example :
    line numbers (run numbers (notifying 3 ∷ outgoing ∷ responding reply ∷ []) start)
    ≡ [] ++ accepted_all numbers (notifying 3 ∷ outgoing ∷ responding reply ∷ []) start
run_keeps_order_example =
    run_keeps_order numbers (notifying 3 ∷ outgoing ∷ responding reply ∷ []) start
      (tt, (tt, (tt, tt)))
