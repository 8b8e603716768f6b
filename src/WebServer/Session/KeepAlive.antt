-- ===== src/WebServer/Session/KeepAlive.antt =====
-- http_server/session.cpp: one session, from its first read to its end.
use license_checker.Prelude.{
  Text, codes, ◌++◌, append_assoc, append-nil, Bool, true, false, none, some, List, [], ◌∷◌, All,
  Outcome, ok, throws, fault, and_then, ◌≡◌, ◌⊎◌, inl, inr, refl, ap, sym, ◌∙◌, if◌then◌else◌,
}
use license_checker.WebHandler.{Request, Response}
use license_checker.WebServer.Session.{
  ErrorCode, no_error, end_of_stream, other_error, Pending, reading, writing, idle, Session,
  Completion, read_done, write_done, do_read, do_close, fail, deliver, on_write, send, send_handled,
  on_read, complete, step, run,
}

-- What the session has, by what it waits for: a read starts with nothing left of what was before,
-- within 30 seconds; a write has its response, and closes as this asks for; a session that has
-- ended was shut down, or its error was reported.
abbrev pub Fits : (Response → Bool) → Pending → Session → Type 0
Fits need_eof reading s = (s.request ≡ none) × (s.response ≡ none) × (s.expires_after ≡ 30)
Fits need_eof (writing close) s = (r : Response) × (s.response ≡ some r) × (close ≡ need_eof r)
Fits need_eof idle s =
    (s.is_shut_down ≡ true)
    ⊎ ((before : List Text) × (message : Text) × (s.log ≡ before ++ message ∷ []))

module _ (handle : Request → Outcome Response) (need_eof : Response → Bool) where
  abbrev pub IsConsistent : Session → Type 0
  IsConsistent s = Fits need_eof s.pending s

  -- what is done, if it is done
  abbrev pub Upholds : Outcome Session → Type 0
  Upholds (ok s) = IsConsistent s
  Upholds _ = Unit {0}

  fail-IsConsistent : (message what : Text) (s : Session) → IsConsistent (fail message what s)
  unfolding fail
  fail-IsConsistent message what s = inr (s.log, _, refl)

  send_handled-Upholds :
      (r : Outcome Response) (s : Session) → Upholds (send_handled handle need_eof r s)
  unfolding send_handled send
  send_handled-Upholds (ok r) s = (r, refl, refl)
  send_handled-Upholds (throws e) s = tt
  send_handled-Upholds fault s = tt

  on_read-Upholds :
      (ec : ErrorCode) (r : Request) (s : Session) → Upholds (on_read handle need_eof ec r s)
  unfolding on_read do_close
  on_read-Upholds no_error r s = send_handled-Upholds (handle r) s
  on_read-Upholds end_of_stream r s = inl refl
  on_read-Upholds (other_error message) r s = fail-IsConsistent message (codes "read") s

  on_write-IsConsistent :
      (close : Bool) (ec : ErrorCode) (s : Session) → IsConsistent (on_write close ec s)
  unfolding on_write do_read do_close
  on_write-IsConsistent true no_error s = inl refl
  on_write-IsConsistent false no_error s = (refl, refl, refl)
  on_write-IsConsistent close end_of_stream s = fail-IsConsistent _ (codes "write") s
  on_write-IsConsistent close (other_error message) s = fail-IsConsistent message (codes "write") s

  complete-Upholds :
      (p : Pending) (e : Completion) (s : Session)
      → s.pending ≡ p
      → IsConsistent s
      → Upholds (complete handle need_eof p e s)
  unfolding complete
  complete-Upholds reading (read_done ec r) s k h = on_read-Upholds ec r s
  complete-Upholds reading (write_done ec) s k h = h
  complete-Upholds (writing close) (read_done ec r) s k h = h
  complete-Upholds (writing close) (write_done ec) s k h = on_write-IsConsistent close ec s
  complete-Upholds idle (read_done ec r) s k h = h
  complete-Upholds idle (write_done ec) s k h = h

  run_on-Upholds :
      (events : List Completion) (r : Outcome Session)
      → ((s : Session) → IsConsistent s → Upholds (run handle need_eof events s))
      → Upholds r
      → Upholds (and_then (run handle need_eof events) r)
  run_on-Upholds events (ok t) h k = h t k
  run_on-Upholds events (throws x) h k = tt
  run_on-Upholds events fault h k = tt

  -- Whatever completes in whatever way, a session that starts consistent stays so, as long as its
  -- handler is defined: each read starts with no request and no response, and within 30 seconds; each
  -- write has a response, after which it closes exactly if the response asks for it; and a session
  -- ends only by a shutdown or with an error that is reported.
  pub run-IsConsistent :
      (events : List Completion) (s : Session)
      → IsConsistent s
      → Upholds (run handle need_eof events s)
  unfolding run step
  run-IsConsistent [] s h = h
  run-IsConsistent (e ∷ events) s h =
      run_on-Upholds events (complete handle need_eof s.pending e s) (run-IsConsistent events)
        (complete-Upholds s.pending e s refl h)

-- the responses up to the first after which the session closes
unfoldable pub until_close : (Response → Bool) → List Response → List Response
until_close need_eof [] = []
until_close need_eof (r ∷ rs) =
    let rest = until_close need_eof rs in if need_eof r then r ∷ [] else r ∷ rest

unfoldable pub closes : (Response → Bool) → List Response → Bool
closes need_eof [] = false
closes need_eof (r ∷ rs) = let rest = closes need_eof rs in if need_eof r then true else rest

-- Each request is read, and then its response written, without an error.
unfoldable pub conversation : List Request → List Completion
conversation [] = []
conversation (r ∷ rs) = read_done no_error r ∷ write_done no_error ∷ conversation rs

unfoldable pub all_responses : (Request → Response) → List Request → List Response
all_responses respond [] = []
all_responses respond (r ∷ rs) = respond r ∷ all_responses respond rs

-- What a session `s` that reads has become after `rs` was answered.
pub record Answered (need_eof : Response → Bool) (rs : List Response) (s t : Session) : Type 0 where
  pub written : t.written ≡ s.written ++ until_close need_eof rs
  pub pending : t.pending ≡ (if closes need_eof rs then idle else reading)
  pub shut_down : t.is_shut_down ≡ (if closes need_eof rs then true else s.is_shut_down)
  pub log : t.log ≡ s.log

module _ (handle : Request → Outcome Response) (need_eof : Response → Bool) where
  complete-idle :
      (e : Completion) (s : Session) (p : Pending)
      → p ≡ idle
      → complete handle need_eof p e s ≡ ok s
  unfolding complete
  complete-idle (read_done ec r) s p h = rw h refl
  complete-idle (write_done ec) s p h = rw h refl

  run-idle :
      (events : List Completion) (s : Session)
      → s.pending ≡ idle
      → run handle need_eof events s ≡ ok s
  unfolding run step complete
  run-idle [] s h = refl
  run-idle (e ∷ events) s h =
      ap (and_then (run handle need_eof events)) (complete-idle e s s.pending h)
      ∙ run-idle events s h

  run_reading :
      (r : Request) (events : List Completion) (s : Session) (x : Response)
      → s.pending ≡ reading
      → handle r ≡ ok x
      → run handle need_eof (read_done no_error r ∷ write_done no_error ∷ events) s
        ≡ run handle need_eof events (on_write (need_eof x) no_error (send handle need_eof x s))
  unfolding run step complete on_read send_handled send
  run_reading r events s x h e =
      ap
        (λ p.
          and_then (run handle need_eof (write_done no_error ∷ events))
            (complete handle need_eof p (read_done no_error r) s))
        h
      ∙ ap
          (λ y.
            and_then (run handle need_eof (write_done no_error ∷ events))
              (send_handled handle need_eof y s))
          e

  step-Answered :
      (b : Bool) (x : Response) (xs : List Response) (events : List Completion) (s : Session)
      → need_eof x ≡ b
      → ((u : Session)
          → u.pending ≡ reading
          → (t : Session) × (run handle need_eof events u ≡ ok t) × Answered need_eof xs u t)
      → (t : Session) × (run handle need_eof events (on_write b no_error (send handle need_eof x s))
          ≡ ok t)
        × Answered need_eof (x ∷ xs) s t
  unfolding on_write send deliver do_close do_read until_close closes
  step-Answered true x xs events s e next = (
    do_close (deliver (some x) (send handle need_eof x s)),
    run-idle events _ refl,
    record { written = rw e refl; pending = rw e refl; shut_down = rw e refl; log = refl },
  )
  step-Answered false x xs events s e next =
      let u = do_read (record (deliver (some x) (send handle need_eof x s)) { response = none }) in
      let (t, ran, h) = next u refl in
      (
        t,
        ran,
        record {
          written = rw e (h.written ∙ append_assoc s.written (x ∷ []) (until_close need_eof xs));
          pending = rw e h.pending;
          shut_down = rw e h.shut_down;
          log = h.log;
        },
      )

  -- Where the handler gives a response to each request, and reading and writing succeed, a session
  -- that reads sends the responses in the order of the requests, up to the first that asks for the
  -- connection to be closed. After that one it is shut down and waits for nothing; where there is
  -- none it reads the next request. Nothing is reported.
  pub conversation-Answered :
      (respond : Request → Response) (rs : List Request) (s : Session)
      → All (λ r. handle r ≡ ok (respond r)) rs
      → s.pending ≡ reading
      → (t : Session) × (run handle need_eof (conversation rs) s ≡ ok t)
        × Answered need_eof (all_responses respond rs) s t
  unfolding conversation all_responses until_close closes run
  conversation-Answered respond [] s h k = (
    s,
    refl,
    record { written = sym (append-nil s.written); pending = k; shut_down = refl; log = refl },
  )
  conversation-Answered respond (r ∷ rs) s (h, hs) k =
      let (t, ran, done) =
        step-Answered (need_eof (respond r)) (respond r) (all_responses respond rs)
          (conversation rs) s refl (λ u. conversation-Answered respond rs u hs) in
      (t, run_reading r (conversation rs) s (respond r) k h ∙ ran, done)
