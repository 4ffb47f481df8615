-- ===== src/DebugSession/Once.antt =====
-- Each request is answered once, whatever its handler does, and none is answered that was not made.
use codelldb.Prelude.{
  ◌∙◌, ◌⊎◌, inl, inr, ◌≡◌, refl, ap, ℕ, zero, suc, ◌+◌, Bool, true, false, length, length-append,
  Option, none, some, List, [], ◌∷◌, ◌++◌, ◌==◌, if◌then◌else◌, arith, either_branch,
}
use codelldb.Prelude.Text.{chars}
use codelldb.Cancellation.{Callback, Receiver, is_cancelled}
use codelldb.DebugSession.Blame.{str_error, blamed, async_response}
use codelldb.DebugSession.Dispatch.{
  Handlers, Result, success, failure, ResponseBody, RequestArguments, request, bad_config, unknown,
  Response, Session, make_response, try_send_response, send_response, answer, set_dummy,
  set_cancellation, interrupt_by, run_handler, handle_live, handle_request, finish_task,
}

-- How many elements of a list have a number as their key.
unfoldable pub count_by : {A : Type 0} → (A → ℕ) → ℕ → List A → ℕ
count_by key q [] = 0
count_by key q (x ∷ xs) = let rest = count_by key q xs in if key x == q then suc rest else rest

pub count_by-append :
    {A : Type 0} (key : A → ℕ) (q : ℕ) (xs ys : List A)
    → count_by key q (xs ++ ys) ≡ count_by key q xs + count_by key q ys
unfolding count_by
count_by-append key q [] ys = omega arith
count_by-append key q (x ∷ xs) ys = ground (arith, count_by-append key q xs ys)

abbrev pub count : ℕ → List ℕ → ℕ
count q ns = count_by (λ n. n) q ns

-- How many of the first tries fail.
unfoldable pub failures : (ℕ → Bool) → ℕ → ℕ
failures accepts zero = 0
failures accepts (suc n) =
    let before = failures accepts n in if accepts n then before else suc before

module _ (h : Handlers) where
  -- A try to send a response: it is sent, or lost if the try fails.
  abbrev pub SentOrLost : Response h → Session h → Session h → Type 0
  SentOrLost r s t =
      (t.attempts ≡ suc s.attempts)
      × (((s.accepts s.attempts ≡ true) × (t.responses ≡ s.responses ++ r ∷ []) × (t.lost ≡ s.lost))
          ⊎ ((s.accepts s.attempts ≡ false)
              × (t.responses ≡ s.responses)
              × (t.lost ≡ s.lost ++ r ∷ [])))

  pub try_send_response-SentOrLost :
      (r : Response h) (s : Session h) (b : Bool)
      → s.accepts s.attempts ≡ b
      → SentOrLost r s (try_send_response h b r s)
  try_send_response-SentOrLost r s true e = (refl, inl (e, refl, refl))
  try_send_response-SentOrLost r s false e = (refl, inr (e, refl, refl))

  try_send_response-kept :
      (r : Response h) (s : Session h) (b : Bool)
      → ((try_send_response h b r s).tasks ≡ s.tasks)
        × ((try_send_response h b r s).accepts ≡ s.accepts)
  try_send_response-kept r s true = (refl, refl)
  try_send_response-kept r s false = (refl, refl)

  -- A try to send one response for a request, or one more task for it, and no other.
  abbrev pub AnsweredOnce : ℕ → Session h → Session h → Type 0
  AnsweredOnce seq s t =
      (t.accepts ≡ s.accepts)
      × (((r : Response h) × (r.request_seq ≡ seq) × SentOrLost r s t × (t.tasks ≡ s.tasks))
          ⊎ ((fut : h.Future) × (t.attempts ≡ s.attempts)
              × (t.responses ≡ s.responses)
              × (t.lost ≡ s.lost)
              × (t.tasks ≡ s.tasks ++ (seq, fut) ∷ [])))

  make_response-request_seq :
      (seq : ℕ) (r : Result h.Future (ResponseBody h.Reply))
      → (make_response h seq r).request_seq ≡ seq
  unfolding make_response
  make_response-request_seq seq (success b) = refl
  make_response-request_seq seq (failure e) = refl

  send_response-AnsweredOnce :
      (seq : ℕ) (r : Result h.Future (ResponseBody h.Reply)) (s : Session h)
      → AnsweredOnce seq s (send_response h seq r s)
  unfolding send_response
  send_response-AnsweredOnce seq r s =
      let response = make_response h seq r in
      let kept = try_send_response-kept response s (s.accepts s.attempts) in
      (
        kept.1,
        inl (
          response,
          make_response-request_seq seq r,
          try_send_response-SentOrLost response s (s.accepts s.attempts) refl,
          kept.0,
        ),
      )

  answer-AnsweredOnce :
      (seq : ℕ) (r : Result h.Future (ResponseBody h.Reply)) (s : Session h)
      → AnsweredOnce seq s (answer h seq r s)
  unfolding answer
  answer-AnsweredOnce seq (success b) s = send_response-AnsweredOnce seq (success b) s
  answer-AnsweredOnce seq (failure (str_error m)) s =
      send_response-AnsweredOnce seq (failure (str_error m)) s
  answer-AnsweredOnce seq (failure (blamed b e)) s =
      send_response-AnsweredOnce seq (failure (blamed b e)) s
  answer-AnsweredOnce seq (failure (async_response fut)) s =
      (refl, inr (fut, refl, refl, refl, refl))

  handle_live-AnsweredOnce :
      (seq : ℕ) (args : RequestArguments h) (s : Session h)
      → AnsweredOnce seq s (handle_live h seq args s)
  handle_live-AnsweredOnce seq unknown s = send_response-AnsweredOnce seq _ s
  handle_live-AnsweredOnce seq (bad_config c json) s =
      let r = run_handler h (bad_config c json) s in answer-AnsweredOnce seq r.0 (set_dummy h r.1)
  handle_live-AnsweredOnce seq (request c args) s =
      let r = run_handler h (request c args) s in answer-AnsweredOnce seq r.0 (set_dummy h r.1)

  interrupt_by-AnsweredOnce :
      (seq : ℕ) (args : RequestArguments h) (token : Receiver) (s : Session h) (o : Option Callback)
      → AnsweredOnce seq s
          (handle_live h seq args (set_cancellation h token (interrupt_by h o token s)))
  interrupt_by-AnsweredOnce seq args token s none =
      handle_live-AnsweredOnce seq args (set_cancellation h token s)
  interrupt_by-AnsweredOnce seq args token s (some callback) =
      handle_live-AnsweredOnce seq args
        (set_cancellation h token (interrupt_by h (some callback) token s))

  -- Every request, cancelled and unknown ones included, gets one response or one task that will
  -- send it, and nothing else is answered.
  pub handle_request-AnsweredOnce :
      (seq : ℕ) (args : RequestArguments h) (token : Receiver) (s : Session h)
      → AnsweredOnce seq s (handle_request h seq args token s)
  unfolding handle_request
  handle_request-AnsweredOnce seq args token s =
      either_branch (AnsweredOnce seq s) (is_cancelled token s.heap)
        (send_response-AnsweredOnce seq (failure (str_error (chars "canceled"))) s)
        (interrupt_by-AnsweredOnce seq args token s s.interrupt_sender)

  -- Requests and ends of tasks, in any order, with the numbers of the requests.
  pub data Steps : Session h → List ℕ → Session h → Type 0 where
    stop : {s : Session h} → Steps s [] s
    handles :
        {s u : Session h} {qs : List ℕ} (seq : ℕ) (args : RequestArguments h) (token : Receiver)
        → Steps (handle_request h seq args token s) qs u
        → Steps s (seq ∷ qs) u
    finishes :
        {s u : Session h} {qs : List ℕ} (before after : List (ℕ × h.Future)) (seq : ℕ)
        (fut : h.Future) (r : Result h.Future (ResponseBody h.Reply))
        → s.tasks ≡ before ++ (seq, fut) ∷ after
        → Steps (finish_task h (seq, r) (record s { tasks = before ++ after })) qs u
        → Steps s qs u

  -- The responses to a number, the lost ones among them, and the tasks that will send one.
  abbrev pub answers : ℕ → Session h → ℕ
  answers q s =
      count_by (λ r. r.request_seq) q s.responses
      + count_by (λ r. r.request_seq) q s.lost
      + count_by (λ (t : ℕ × h.Future). t.0) q s.tasks

  -- The responses that were lost are as many as the tries that failed.
  abbrev pub LostByFailure : Session h → Session h → Type 0
  LostByFailure s t =
      length t.lost + failures s.accepts s.attempts ≡ length s.lost + failures s.accepts t.attempts

  count-response :
      (q seq : ℕ) (r : Response h) (rs : List (Response h))
      → r.request_seq ≡ seq
      → count_by (λ r. r.request_seq) q (rs ++ r ∷ [])
        ≡ count_by (λ r. r.request_seq) q rs + count q (seq ∷ [])
  unfolding count_by
  count-response q seq r rs e =
      let one : count_by (λ r. r.request_seq) q (r ∷ []) ≡ count q (seq ∷ []) =
        ap (λ n. count q (n ∷ [])) e in
      count_by-append (λ r. r.request_seq) q rs (r ∷ []) ∙ omega arith

  SentOrLost-answers :
      (q seq : ℕ) (r : Response h) (s t : Session h)
      → r.request_seq ≡ seq
      → t.tasks ≡ s.tasks
      → SentOrLost r s t
      → (answers q t ≡ answers q s + count q (seq ∷ [])) × LostByFailure s t
  unfolding failures
  SentOrLost-answers q seq r s t e ts (tries, inl (ok, rs, ls)) =
      let sent = ap (count_by (λ r. r.request_seq) q) rs ∙ count-response q seq r s.responses e in
      let same = ap (count_by (λ r. r.request_seq) q) ls in
      let waits = ap (count_by (λ (t : ℕ × h.Future). t.0) q) ts in
      let size = ap length ls in
      let failed = ap (failures s.accepts) tries in (omega arith, ground (arith, ok))
  SentOrLost-answers q seq r s t e ts (tries, inr (failing, rs, ls)) =
      let same = ap (count_by (λ r. r.request_seq) q) rs in
      let gone = ap (count_by (λ r. r.request_seq) q) ls ∙ count-response q seq r s.lost e in
      let waits = ap (count_by (λ (t : ℕ × h.Future). t.0) q) ts in
      let size = ap length ls ∙ length-append s.lost (r ∷ []) in
      let failed = ap (failures s.accepts) tries in (omega arith, ground (arith, failing))

  AnsweredOnce-answers :
      (q seq : ℕ) (s t : Session h)
      → AnsweredOnce seq s t
      → (answers q t ≡ answers q s + count q (seq ∷ [])) × LostByFailure s t
  unfolding count_by
  AnsweredOnce-answers q seq s t (kept, inl (r, e, sent, ts)) =
      SentOrLost-answers q seq r s t e ts sent
  AnsweredOnce-answers q seq s t (kept, inr (fut, tries, rs, ls, ts)) =
      let same = ap (count_by (λ r. r.request_seq) q) rs in
      let same_lost = ap (count_by (λ r. r.request_seq) q) ls in
      let spawned =
        ap (count_by (λ (t : ℕ × h.Future). t.0) q) ts
        ∙ count_by-append (λ (t : ℕ × h.Future). t.0) q s.tasks ((seq, fut) ∷ []) in
      let size = ap length ls in
      let failed = ap (failures s.accepts) tries in (omega arith, omega arith)

  LostByFailure-trans :
      (s t u : Session h)
      → t.accepts ≡ s.accepts
      → LostByFailure s t
      → LostByFailure t u
      → LostByFailure s u
  LostByFailure-trans s t u e a b =
      let here = ap (λ f. failures f t.attempts) e in
      let there = ap (λ f. failures f u.attempts) e in omega arith

  -- At any time of a run, each number has as many responses, sent or lost, and waiting tasks more than
  -- at the start as there were requests with it: once no task waits, there was one response for each
  -- request, sent or lost. As many were lost as tries to put one into the queue failed.
  pub Steps-answers :
      (q : ℕ) (s u : Session h) (qs : List ℕ)
      → Steps s qs u
      → (answers q u ≡ answers q s + count q qs) × LostByFailure s u
  unfolding count_by finish_task
  Steps-answers q s u qs stop = (omega arith, refl)
  Steps-answers q s u qs (handles {qs = rs} seq args token steps) =
      let t = handle_request h seq args token s in
      let rest = Steps-answers q t u rs steps in
      let answered = handle_request-AnsweredOnce seq args token s in
      let one = AnsweredOnce-answers q seq s t answered in
      let parts = count_by-append (λ n. n) q (seq ∷ []) rs in
      let total = rest.0 in
      let here = one.0 in (omega arith, LostByFailure-trans s t u answered.0 one.1 rest.1)
  Steps-answers q s u qs (finishes before after seq fut r e steps) =
      let left : Session h = record s { tasks = before ++ after } in
      let t = finish_task h (seq, r) left in
      let rest = Steps-answers q t u qs steps in
      let answered = send_response-AnsweredOnce seq r left in
      let one = AnsweredOnce-answers q seq left t answered in
      let waited = ap (count_by (λ (t : ℕ × h.Future). t.0) q) e in
      let parts = count_by-append (λ (t : ℕ × h.Future). t.0) q before ((seq, fut) ∷ after) in
      let task = count_by-append (λ (t : ℕ × h.Future). t.0) q ((seq, fut) ∷ []) after in
      let kept = count_by-append (λ (t : ℕ × h.Future). t.0) q before after in
      let total = rest.0 in
      let here = one.0 in (omega arith, LostByFailure-trans left t u answered.0 one.1 rest.1)
