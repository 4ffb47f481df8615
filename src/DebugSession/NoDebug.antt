-- ===== src/DebugSession/NoDebug.antt =====
-- Requests that a session without debugging refuses, and what the client is shown of an error.
use codelldb.Prelude.{◌≡◌, ◌↔◌, ◌⊎◌, ℕ, Bool, true, false, arith}
use codelldb.Prelude.Text.{chars}
use codelldb.Cancellation.{Receiver}
use codelldb.DebugSession.Blame.{
  internal, user, nobody, Error, str_error, blamed, async_response, blamed_from,
}
use codelldb.DebugSession.Dispatch.{
  Handlers, success, failure, Command, adapter_settings, initialize, launch, attach, restart,
  configuration_done, terminate, disconnect, request, ResponseResult, success_result, error_result,
  Response, Session, make_response, handle_request,
}
use codelldb.DebugSession.Once.{SentOrLost}

-- The requests for a session with or without debugging.
abbrev pub ForEveryMode : Command → Type 0
ForEveryMode c =
    (c ≡ adapter_settings)
    ⊎ (c ≡ initialize)
    ⊎ (c ≡ launch)
    ⊎ (c ≡ attach)
    ⊎ (c ≡ restart)
    ⊎ (c ≡ configuration_done)
    ⊎ (c ≡ terminate)
    ⊎ (c ≡ disconnect)

module _ (h : Handlers) where
  abbrev pub refusal : ℕ → Response h
  refusal seq = record {
    request_seq = seq;
    success = false;
    result = error_result (chars "Internal debugger error: Not supported in noDebug mode.") true;
  }

  -- What a refused request does: an error is given to the queue, and no handler runs.
  abbrev pub Refused : ℕ → Session h → Session h → Type 0
  Refused seq s t = (t.inner ≡ s.inner) × SentOrLost h (refusal seq) s t × (t.tasks ≡ s.tasks)

  -- The session in the other mode.
  abbrev pub in_mode : Bool → Session h → Session h
  in_mode b s = record s { no_debug = b }

  -- What a request of every mode does: the same as in a session with debugging, in the other mode.
  abbrev pub Served : ℕ → (c : Command) → h.Args c → Receiver → Session h → Session h → Type 0
  Served seq c args token s t =
      t ≡ in_mode true (handle_request h seq (request c args) token (in_mode false s))

  abbrev pub shows : ResponseResult h → Bool
  shows (success_result b) = false
  shows (error_result message show_user) = show_user

  -- The client shows every error but those that blame nobody: internal errors as well as errors of
  -- the user.
  pub make_response-nobody :
      (seq : ℕ) (err : Error h.Future)
      → (shows (make_response h seq (failure err)).result ≡ false)
        ↔ ((blamed_from h.Future err).blame ≡ nobody)
  unfolding make_response
  make_response-nobody seq (str_error m) = ground arith
  make_response-nobody seq (async_response fut) = ground arith
  make_response-nobody seq (blamed internal e) = ground arith
  make_response-nobody seq (blamed user e) = ground arith
  make_response-nobody seq (blamed nobody e) = ground arith
