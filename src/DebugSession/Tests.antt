-- ===== src/DebugSession/Tests.antt =====
-- Requests to a session whose handlers count their calls, and the theorems there.
use codelldb.Prelude.{◌≡◌, ◌↔◌, refl, ℕ, suc, ◌+◌, true, false, none, [], ◌∷◌, ◌==◌}
use codelldb.Cancellation.{Heap, is_cancelled}
use codelldb.DebugSession.Blame.{str_error, async_response, nobody, blamed_from}
use codelldb.DebugSession.Dispatch.{
  Handlers, success, failure, body, threads, launch, route, gives_body, perform, request, unknown,
  Session, handle_request_args, make_response, send_response, answer, handle_request, finish_task,
}
use codelldb.DebugSession.Once.{
  count_by, AnsweredOnce, Steps, stop, handles, finishes, answers, LostByFailure,
  handle_request-AnsweredOnce, Steps-answers,
}
use codelldb.DebugSession.NoDebug.{shows, make_response-nobody}

-- Every request succeeds, but those for a whole body, which answer later.
abbrev handlers : Handlers
handlers = record {
  Args = λ c. ℕ;
  Reply = λ c. ℕ;
  Json = ℕ;
  Future = ℕ;
  S = ℕ;
  handle = λ c n token w. (success n, w.0, suc w.1);
  handle_body = λ c n token w. (failure (async_response n), w.0, suc w.1);
  report_launch_cfg_error = λ c n w. (failure (str_error []), w.0, w.1);
}

abbrev heap : Heap
heap = record {
  cells = λ i. record { flag = false; receiver_count = 1; callbacks = [] };
  next = 2;
  called = [];
}

abbrev session : Session handlers
session = record {
  heap = heap;
  inner = 0;
  current_cancellation = 0;
  interrupt_sender = none;
  no_debug = true;
  accepts = λ n. n == 0;
  attempts = 0;
  responses = [];
  lost = [];
  tasks = [];
}

-- In a session without debugging a launch waits, and threads are refused.
launch_waits : (handle_request handlers 7 (request launch 3) 1 session).tasks ≡ (7, 3) ∷ []
unfolding handle_request handle_request_args route gives_body perform answer is_cancelled
launch_waits = refl

threads_refused : (handle_request handlers 7 (request threads 3) 1 session).inner ≡ 0
unfolding handle_request handle_request_args route perform answer send_response is_cancelled
threads_refused = refl

handle_request-AnsweredOnce_example :
    AnsweredOnce handlers 7 session (handle_request handlers 7 unknown 1 session)
handle_request-AnsweredOnce_example = handle_request-AnsweredOnce handlers 7 unknown 1 session

abbrev after_launch : Session handlers
after_launch = handle_request handlers 7 (request launch 3) 1 session

abbrev after_answer : Session handlers
after_answer =
    finish_task handlers (7, success (body launch 3)) (record after_launch { tasks = [] })

launch_Steps : Steps handlers session (7 ∷ []) after_answer
launch_Steps =
    handles 7 (request launch 3) 1 (finishes [] [] 7 3 (success (body launch 3)) launch_waits stop)

Steps-answers_example :
    (answers handlers 7 after_answer ≡ answers handlers 7 session + count_by (λ n. n) 7 (7 ∷ []))
    × LostByFailure handlers session after_answer
Steps-answers_example = Steps-answers handlers 7 session after_answer (7 ∷ []) launch_Steps

make_response-nobody_example :
    (shows handlers (make_response handlers 7 (failure (str_error []))).result ≡ false)
    ↔ ((blamed_from ℕ (str_error [])).blame ≡ nobody)
make_response-nobody_example = make_response-nobody handlers 7 (str_error [])
