-- ===== src/WebServer/Listener/Interleaving.antt =====
-- http_server/listener.cpp: accepts that succeed or fail between the completions of the sessions.
use license_checker.Prelude.{
  ℕ, zero, suc, codes, length, length-append, ◌+◌, Bool, true, false, List, [], ◌∷◌, Outcome, ok,
  throws, fault, and_then, ◌≡◌, refl, ap, sym, ◌∙◌, arith,
}
use license_checker.WebHandler.{Request, Response}
use license_checker.WebServer.Listener.{
  Listener, Event, accepted, completed, take_socket, on_accept, do_accept, complete_accept, fail,
  update_at, step, run,
}
use license_checker.WebServer.Session.{
  ErrorCode, no_error, end_of_stream, other_error, Session, new_session, start, Completion,
}
use license_checker.WebServer.Session

and_then-eq_ok :
    {A B : Type 0} (f : A → Outcome B) (r : Outcome A) (b : B)
    → and_then f r ≡ ok b
    → (a : A) × (r ≡ ok a) × (f a ≡ ok b)
and_then-eq_ok f (ok a) b h = (a, refl, h)
and_then-eq_ok f (throws e) b h = cc
and_then-eq_ok f fault b h = cc

-- the accepts that succeed
unfoldable pub successes : List Event → ℕ
successes [] = 0
successes (accepted no_error ∷ events) = suc (successes events)
successes (e ∷ events) = successes events

-- and those that fail
unfoldable pub failed_accepts : List Event → ℕ
failed_accepts [] = 0
failed_accepts (accepted no_error ∷ events) = failed_accepts events
failed_accepts (accepted end_of_stream ∷ events) = suc (failed_accepts events)
failed_accepts (accepted (other_error message) ∷ events) = suc (failed_accepts events)
failed_accepts (completed j e ∷ events) = failed_accepts events

length-update_at :
    (i : ℕ) (f : Session → Outcome Session) (ss ts : List Session)
    → update_at i f ss ≡ ok ts
    → length ts ≡ length ss
unfolding update_at
length-update_at i f [] ts h =
    ap (λ r. elim r [ ok us ↦ length us | throws e ↦ 0 | fault ↦ 0 ]) (sym h)
length-update_at zero f (s ∷ ss) ts h =
    let (t, e, k) = and_then-eq_ok _ (f s) ts h in
    ap (λ r. elim r [ ok us ↦ length us | throws e ↦ 0 | fault ↦ 0 ]) (sym k)
length-update_at (suc i) f (s ∷ ss) ts h =
    let (us, e, k) = and_then-eq_ok _ (update_at i f ss) ts h in
    ap (λ r. elim r [ ok us ↦ length us | throws e ↦ 0 | fault ↦ 0 ]) (sym k)
    ∙ ap suc (length-update_at i f ss us e)

-- What a sequence of events has made of a listener that accepts.
pub record Accepts (events : List Event) (l m : Listener) : Type 0 where
  pub accepting : m.accepting ≡ true
  pub counted : length m.sessions ≡ length l.sessions + successes events
  pub reported : length m.log ≡ length l.log + failed_accepts events

module _ (handle : Request → Outcome Response) (need_eof : Response → Bool) where
  nothing : Listener
  nothing = record { is_listening = true; accepting = true; sessions = []; log = [] }

  on_accept-Accepts :
      (ec : ErrorCode) (events : List Event) (l m : Listener)
      → Accepts events (on_accept ec (record l { accepting = false })) m
      → Accepts (accepted ec ∷ events) l m
  unfolding nothing on_accept take_socket do_accept fail successes failed_accepts
  on_accept-Accepts no_error events l m h =
      let k = h.counted in
      let n = length-append l.sessions (start new_session ∷ []) in
      record { accepting = h.accepting; counted = omega arith; reported = h.reported }
  on_accept-Accepts end_of_stream events l m h =
      let k = h.reported in
      let n = length-append l.log (fail (codes "end of stream") (codes "accept") nothing).log in
      record { accepting = h.accepting; counted = h.counted; reported = omega arith }
  on_accept-Accepts (other_error message) events l m h =
      let k = h.reported in
      let n = length-append l.log (fail message (codes "accept") nothing).log in
      record { accepting = h.accepting; counted = h.counted; reported = omega arith }

  complete_accept-on_accept :
      (ec : ErrorCode) (l : Listener)
      → l.accepting ≡ true
      → on_accept ec (record l { accepting = false }) ≡ complete_accept ec l
  unfolding complete_accept
  complete_accept-on_accept ec l a = rw a refl

  on_accept-accepting : (ec : ErrorCode) (l : Listener) → (on_accept ec l).accepting ≡ true
  unfolding on_accept do_accept
  on_accept-accepting ec l = refl

  -- A listener with an accept outstanding has one again after every sequence of events that is
  -- defined, however often accepting fails: each accept that completes is followed by another. It has
  -- one more session for each accept that succeeded, and one more report for each that failed.
  pub run-Accepts :
      (events : List Event) (l m : Listener)
      → run handle need_eof events l ≡ ok m
      → l.accepting ≡ true
      → Accepts events l m
  unfolding run step successes failed_accepts
  run-Accepts [] l m h a =
      let same = ap (λ r. elim r [ ok k ↦ k | throws e ↦ l | fault ↦ l ]) h in
      record {
        accepting = rw⁻¹ same a;
        counted = rw⁻¹ same (omega arith);
        reported = rw⁻¹ same (omega arith);
      }
  run-Accepts (accepted ec ∷ events) l m h a = on_accept-Accepts ec events l m (
      run-Accepts events (on_accept ec (record l { accepting = false })) m
        (ap (run handle need_eof events) (complete_accept-on_accept ec l a) ∙ h)
        (on_accept-accepting ec _))
  run-Accepts (completed j e ∷ events) l m h a =
      let (k, stepped, ran) =
        and_then-eq_ok (run handle need_eof events) (step handle need_eof (completed j e) l) m h in
      let (ss, updated, made) =
        and_then-eq_ok _ (update_at j (Session.step handle need_eof e) l.sessions) k stepped in
      let done =
        run-Accepts events (record l { sessions = ss }) m
          (ap (and_then (run handle need_eof events)) made ∙ ran) a in
      let n = length-update_at j _ l.sessions ss updated in
      let c = done.counted in
      record { accepting = done.accepting; counted = omega arith; reported = done.reported }
