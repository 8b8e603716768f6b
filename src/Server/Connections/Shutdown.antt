-- ===== src/Server/Connections/Shutdown.antt =====
-- server/server.cpp: the server accepts until a signal comes, and nothing more afterwards.
use license_checker.Prelude.{
  ℕ, ◌+◌, ◌<◌, ◌≤◌, length, and_then, Text, true, false, Bool-cases, inl, inr, Option, List, [],
  ◌∷◌, Outcome, ok, throws, fault, ◌≡◌, arith,
}
use license_checker.Server.Connections.{
  Connection, Handled, Server, Event, ErrorCode, no_error, operation_aborted, other_error, accepted,
  received, sent, signalled, step, run, on_accept, set_connections, stop_all, complete_handler,
  undefined_read,
}

-- After a signal: the acceptor is closed, the manager has no connection, and at most `n` connections
-- wait for their last handlers.
pub record IsStopped (n : ℕ) (s : Server) : Type 0 where
  pub is_closed : s.is_open ≡ false
  pub removed : s.connections ≡ []
  pub closing : length s.closing ≤ n

-- while the acceptor is open, an accept is outstanding
abbrev pub IsServing : Server → Type 0
IsServing s = s.is_open ≡ true → s.accepting ≡ true

-- What the handlers leave, if they are defined, has the property `P`.
abbrev pub Upholds : (Server → Type 0) → Outcome Server → Type 0
Upholds P (ok s) = P s
Upholds P _ = Unit {0}

on_accept-IsServing : (ec : ErrorCode) (c : Connection) (s : Server) → IsServing (on_accept ec c s)
unfolding on_accept
on_accept-IsServing no_error c s e = elim (Bool-cases s.is_open) [
  | inl o ↦ ground arith
  | inr o ↦ ground arith
]
on_accept-IsServing operation_aborted c s e = ground arith
on_accept-IsServing other_error c s e = ground arith

set_both-IsServing :
    (s : Server) (r t : Outcome (List Connection))
    → IsServing s
    → Upholds IsServing (and_then (λ cs. and_then (set_connections s cs) t) r)
unfolding set_connections
set_both-IsServing s (ok cs) (ok ds) h = h
set_both-IsServing s (ok cs) (throws e) h = tt
set_both-IsServing s (ok cs) fault h = tt
set_both-IsServing s (throws e) t h = tt
set_both-IsServing s fault t h = tt

-- What the handler of one connection makes of a list: it gets no longer, and it is undefined only
-- where the handler is.
abbrev Shrinks : (Connection → Handled) → ℕ → Outcome (List Connection) → Type 0
Shrinks f n (ok cs) = length cs ≤ n
Shrinks f n (throws e) = ⊥
Shrinks f n fault = (c : Connection) × (f c ≡ undefined_read)

-- whether an event is a read that succeeded
unfoldable pub reads_of : Event → ℕ
reads_of (received id no_error bytes) = 1
reads_of _ = 0

unfoldable pub successful_reads : List Event → ℕ
successful_reads [] = 0
successful_reads (e ∷ events) = reads_of e + successful_reads events

module _ (split : ℕ → Text → List Text) (read_file : Text → Option Text) (doc_root : Text) where
  step-IsServing :
      (e : Event) (s : Server) → IsServing s → Upholds IsServing (step split read_file doc_root e s)
  unfolding step complete_handler stop_all
  step-IsServing (accepted ec c) s h = on_accept-IsServing ec c s
  step-IsServing (received id ec bytes) s h = set_both-IsServing s _ _ h
  step-IsServing (sent id ec) s h = set_both-IsServing s _ _ h
  step-IsServing signalled s h = λ e. ground (arith, e)

  -- What handlers leave of a stopped server. None of them throws, and they are undefined only where
  -- some of them are for reads that succeeded.
  abbrev pub Stays : ℕ → ℕ → Outcome Server → Type 0
  Stays n reads (ok s) = IsStopped n s
  Stays n reads (throws e) = ⊥
  Stays n reads fault = 0 < reads

  run-Upholds :
      (events : List Event) (r : Outcome Server)
      → ((s : Server) → IsServing s → Upholds IsServing (run split read_file doc_root events s))
      → Upholds IsServing r
      → Upholds IsServing (elim r [
        | ok t ↦ run split read_file doc_root events t
        | throws x ↦ throws x
        | fault ↦ fault
      ])
  run-Upholds events (ok t) h k = h t k
  run-Upholds events (throws x) h k = tt
  run-Upholds events fault h k = tt

  -- While the acceptor is open, an accept is outstanding: where this holds before a sequence of
  -- handlers, it holds after it.
  pub run-IsServing :
      (events : List Event) (s : Server)
      → IsServing s
      → Upholds IsServing (run split read_file doc_root events s)
  unfolding run
  run-IsServing [] s h = h
  run-IsServing (e ∷ events) s h =
      run-Upholds events (step split read_file doc_root e s) (run-IsServing events)
        (step-IsServing e s h)
