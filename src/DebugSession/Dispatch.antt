-- ===== src/DebugSession/Dispatch.antt =====
-- `handle_request`, `handle_request_args` and `send_response` of src/codelldb/src/debug_session.rs.
-- The handlers of the single requests are a parameter; what they do to the session apart from the
-- fields named here is the state `S`.
use codelldb.Prelude.{
  Bool, true, false, Option, none, some, List, [], ◌∷◌, ◌++◌, ℕ, suc, if◌then◌else◌,
}
use codelldb.Prelude.Text.{Chars, chars}
use codelldb.Cancellation.{Heap, Callback, Receiver, is_cancelled, add_callback, drop, dummy}
use codelldb.DebugSession.Blame.{
  internal, user, nobody, Error, str_error, async_response, BlamedError, blamed_from, display,
}

-- The requests of the protocol.
pub data Command : Type 0 where
  initialize cancel launch attach restart set_breakpoints set_instruction_breakpoints : Command
  set_function_breakpoints set_exception_breakpoints exception_info configuration_done : Command
  pause continue next step_in_targets step_in step_out step_back reverse_continue : Command
  threads stack_trace scopes source modules variables completions goto_targets goto : Command
  restart_frame evaluate set_variable data_breakpoint_info set_data_breakpoints : Command
  disassemble read_memory write_memory terminate disconnect : Command
  run_in_terminal start_debugging : Command
  adapter_settings symbols exclude_caller set_excluded_callers python_message : Command

-- Where a request stands in `handle_request_args`.
pub data Route : Type 0 where
  in_every_mode with_debugging not_implemented : Route

unfoldable pub route : Command → Route
route adapter_settings = in_every_mode
route initialize = in_every_mode
route launch = in_every_mode
route attach = in_every_mode
route restart = in_every_mode
route configuration_done = in_every_mode
route terminate = in_every_mode
route disconnect = in_every_mode
route cancel = not_implemented
route run_in_terminal = not_implemented
route start_debugging = not_implemented
route _ = with_debugging

-- The handlers that give a whole response body; the others give what its command carries.
unfoldable pub gives_body : Command → Bool
gives_body launch = true
gives_body attach = true
gives_body evaluate = true
gives_body _ = false

pub data Result (Future A : Type 0) : Type 0 where
  success : A → Result Future A
  failure : Error Future → Result Future A

abbrev pub map_result : {Future A B : Type 0} → (A → B) → Result Future A → Result Future B
map_result f (success a) = success (f a)
map_result f (failure e) = failure e

pub data ResponseBody (Reply : Command → Type 0) : Type 0 where
  body : (c : Command) → Reply c → ResponseBody Reply

-- The arguments of each request, or the JSON of those that do not fit, and its handler.
pub record Handlers : Type 1 where
  pub Args : Command → Type 0
  pub Reply : Command → Type 0
  pub Json : Type 0
  pub Future : Type 0
  pub S : Type 0
  pub handle : (c : Command) → Args c → Receiver → Heap × S → Result Future (Reply c) × Heap × S
  pub handle_body :
      (c : Command) → Args c → Receiver → Heap × S → Result Future (ResponseBody Reply) × Heap × S
  pub report_launch_cfg_error :
      Command → Json → Heap × S → Result Future (ResponseBody Reply) × Heap × S

module _ (h : Handlers) where
  open h use {Args, Reply, Json, Future, S, handle, handle_body, report_launch_cfg_error}

  pub data RequestArguments : Type 0 where
    request : (c : Command) → Args c → RequestArguments
    bad_config : Command → Json → RequestArguments
    unknown : RequestArguments

  pub data ResponseResult : Type 0 where
    success_result : ResponseBody Reply → ResponseResult
    error_result : Chars → (show_user : Bool) → ResponseResult

  pub record Response : Type 0 where
    pub request_seq : ℕ
    pub success : Bool
    pub result : ResponseResult

  -- `accepts` tells which tries to put a response into the queue of outgoing messages succeed: they
  -- fail when it is full or closed. The responses of the tries that did, and of those that did not,
  -- the last one last, and the tasks that will send one.
  pub record Session : Type 0 where
    pub heap : Heap
    pub inner : S
    pub current_cancellation : Receiver
    pub interrupt_sender : Option Callback
    pub no_debug : Bool
    pub accepts : ℕ → Bool
    pub attempts : ℕ
    pub responses : List Response
    pub lost : List Response
    pub tasks : List (ℕ × Future)

  unfoldable pub perform :
      Bool
      → (c : Command) → Args c
      → Receiver
      → Heap × S
      → Result Future (ResponseBody Reply) × Heap × S
  perform true c args token w = handle_body c args token w
  perform false c args token w =
      let r = handle c args token w in (map_result (body c) r.0, r.1, r.2)

  abbrev pub bail : Chars → Heap × S → Result Future (ResponseBody Reply) × Heap × S
  bail msg w = (failure (str_error msg), w.0, w.1)

  abbrev pub dispatch :
      Route
      → Bool
      → (c : Command) → Args c
      → Receiver
      → Heap × S
      → Result Future (ResponseBody Reply) × Heap × S
  dispatch in_every_mode no_debug c args token w = perform (gives_body c) c args token w
  dispatch with_debugging no_debug c args token w =
      if no_debug
      then bail (chars "Not supported in noDebug mode.") w
      else perform (gives_body c) c args token w
  dispatch not_implemented no_debug c args token w =
      if no_debug
      then bail (chars "Not supported in noDebug mode.") w
      else bail (chars "Not implemented.") w

  -- Arguments that do not fit a launch, attach or restart request are reported.
  unfoldable pub handle_request_args :
      Bool → RequestArguments → Receiver → Heap × S → Result Future (ResponseBody Reply) × Heap × S
  unfolding route gives_body perform
  handle_request_args no_debug (request c args) token w = dispatch (route c) no_debug c args token w
  handle_request_args no_debug (bad_config c json) token w = report_launch_cfg_error c json w
  handle_request_args no_debug unknown token w =
      if no_debug
      then bail (chars "Not supported in noDebug mode.") w
      else bail (chars "Not implemented.") w

  abbrev pub message_of : BlamedError Future → Chars × Bool
  message_of e = elim (e.blame) [
    | internal ↦ (chars "Internal debugger error: " ++ display Future e.inner, true)
    | user ↦ (display Future e.inner, true)
    | nobody ↦ (display Future e.inner, false)
  ]

  unfoldable pub make_response : ℕ → Result Future (ResponseBody Reply) → Response
  unfolding display
  make_response seq (success b) = record {
    request_seq = seq;
    success = true;
    result = success_result b;
  }
  make_response seq (failure err) =
      let m = message_of (blamed_from Future err) in
      record { request_seq = seq; success = false; result = error_result m.0 m.1 }

  -- What becomes of a response by a try that succeeds or fails: a failure is only logged.
  abbrev pub try_send_response : Bool → Response → Session → Session
  try_send_response true response s = record s {
    attempts = suc s.attempts;
    responses = s.responses ++ response ∷ [];
  }
  try_send_response false response s = record s {
    attempts = suc s.attempts;
    lost = s.lost ++ response ∷ [];
  }

  unfoldable pub send_response : ℕ → Result Future (ResponseBody Reply) → Session → Session
  unfolding make_response
  send_response seq r s = try_send_response (s.accepts s.attempts) (make_response seq r) s

  -- An asynchronous response becomes a task, any other result is sent at once.
  unfoldable pub answer : ℕ → Result Future (ResponseBody Reply) → Session → Session
  unfolding send_response
  answer seq (failure (async_response fut)) s = record s { tasks = s.tasks ++ (seq, fut) ∷ [] }
  answer seq r s = send_response seq r s

  -- A variable that holds a receiver gets another one, and the old one is dropped.
  abbrev pub set_cancellation : Receiver → Session → Session
  set_cancellation token s = record s {
    heap = drop s.current_cancellation s.heap;
    current_cancellation = token;
  }

  abbrev pub set_dummy : Session → Session
  set_dummy s = let d = dummy s.heap in set_cancellation d.0 (record s { heap = d.1 })

  -- With Python, a cancellation interrupts it.
  abbrev pub interrupt_by : Option Callback → Receiver → Session → Session
  interrupt_by (some callback) token s = record s { heap = add_callback token callback s.heap }
  interrupt_by none token s = s

  abbrev pub run_handler : RequestArguments → Session → Result Future (ResponseBody Reply) × Session
  run_handler args s =
      let r = handle_request_args s.no_debug args s.current_cancellation (s.heap, s.inner) in
      (r.0, record s { heap = r.1; inner = r.2 })

  abbrev pub handle_known : ℕ → RequestArguments → Session → Session
  handle_known seq args s = let r = run_handler args s in answer seq r.0 (set_dummy r.1)

  abbrev pub handle_live : ℕ → RequestArguments → Session → Session
  handle_live seq unknown s = send_response seq (failure (str_error (chars "Not implemented."))) s
  handle_live seq args s = handle_known seq args s

  unfoldable pub handle_request : ℕ → RequestArguments → Receiver → Session → Session
  unfolding answer handle_request_args send_response
  handle_request seq args token s =
      if is_cancelled token s.heap
      then (let t = send_response seq (failure (str_error (chars "canceled"))) s in
          record t { heap = drop token t.heap })
      else handle_live seq args (set_cancellation token (interrupt_by s.interrupt_sender token s))

  -- A task that has come to its end.
  unfoldable pub finish_task : ℕ × Result Future (ResponseBody Reply) → Session → Session
  unfolding send_response
  finish_task task s = send_response task.0 task.1 s
