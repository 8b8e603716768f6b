-- ===== src/WebServer/Exchange.antt =====
-- http_server/: a session of session.cpp with the handler of handle_request.h, from the requests that
-- a client sends to what it gets.
use license_checker.Prelude.{
  ℕ, Text, ◌++◌, Bool, true, false, not, Bool-cases, Option, some, List, [], ◌∷◌, All, Outcome, ok,
  ◌≡◌, ◌≢◌, refl, ap, subst, sym, ◌∙◌, inl, inr, arith, if◌then◌else◌,
}
use license_checker.WebHandler.Pages.{Replies, handle_request-Replies_to}
use license_checker.WebHandler.{post, Request, Response, Opened, bad_request, handle_request}
use license_checker.WebServer.Session.KeepAlive.{
  until_close, closes, all_responses, conversation, conversation-Answered,
}
use license_checker.WebServer.Session.{Session, reading, idle, run}

abbrev pub IsNotPost : Request → Type 0
IsNotPost r = r.method ≢ post

-- the requests up to the first that does not ask to keep the connection, and whether there is one
unfoldable pub asked : List Request → List Request
asked [] = []
asked (r ∷ rs) = let rest = asked rs in if r.keep_alive then r ∷ rest else r ∷ []

unfoldable pub ends : List Request → Bool
ends [] = false
ends (r ∷ rs) = let rest = ends rs in if r.keep_alive then rest else true

module _ (split : ℕ → Text → List Text) (open_file : Text → Opened) (read_file : Text → Option Text)
    (doc_root : Text) where
  abbrev pub handle : Request → Outcome Response
  handle r = handle_request split open_file read_file doc_root r

  -- the response to a request, where there is one
  response_of : Outcome Response → Request → Response
  response_of (ok x) r = x
  response_of _ r = bad_request [] r

  respond : Request → Response
  respond r = response_of (handle r) r

  respond-Replies :
      (r : Request)
      → r.method ≢ post
      → (handle r ≡ ok (respond r)) × Replies split open_file read_file doc_root r (respond r)
  unfolding respond response_of
  respond-Replies r ne =
      let (x, e, h) = handle_request-Replies_to split open_file read_file doc_root r ne in
      let same = ap (λ o. response_of o r) e in
      (e ∙ ap ok (sym same), subst (Replies split open_file read_file doc_root r) (sym same) h)

  -- each request with its response
  abbrev pub AllReplies : List Request → List Response → Type 0
  AllReplies [] [] = Unit
  AllReplies (r ∷ rs) (x ∷ xs) = Replies split open_file read_file doc_root r x × AllReplies rs xs
  AllReplies _ _ = ⊥

  all_handled : (rs : List Request) → All IsNotPost rs → All (λ r. handle r ≡ ok (respond r)) rs
  all_handled [] h = tt
  all_handled (r ∷ rs) (h, hs) = ((respond-Replies r h).0, all_handled rs hs)

  module _ (need_eof : Response → Bool)
      (eof-keep_alive : (x : Response) (b : Bool)
        → x.keep_alive ≡ some b
        → need_eof x ≡ not b) where
    need_eof-respond : (r : Request) → IsNotPost r → need_eof (respond r) ≡ not r.keep_alive
    need_eof-respond r h = eof-keep_alive (respond r) r.keep_alive (respond-Replies r h).1.kept

    until_close-AllReplies :
        (rs : List Request)
        → All IsNotPost rs
        → AllReplies (asked rs) (until_close need_eof (all_responses respond rs))
    unfolding asked until_close all_responses
    until_close-AllReplies [] h = tt
    until_close-AllReplies (r ∷ rs) (h, hs) = elim (Bool-cases r.keep_alive) [
      | inl keep ↦
          simp (need_eof-respond r h, keep) ((respond-Replies r h).1, until_close-AllReplies rs hs)
      | inr close ↦ simp (need_eof-respond r h, close) ((respond-Replies r h).1, tt)
    ]

    closes-ends :
        (rs : List Request)
        → All IsNotPost rs
        → closes need_eof (all_responses respond rs) ≡ ends rs
    unfolding closes all_responses ends
    closes-ends [] h = refl
    closes-ends (r ∷ rs) (h, hs) = ground (arith, need_eof-respond r h, closes-ends rs hs)

    -- What the session `s` has become after the requests `rs`.
    pub record Served (rs : List Request) (s t : Session) : Type 0 where
      pub responses : List Response
      pub replied : AllReplies (asked rs) responses
      pub written : t.written ≡ s.written ++ responses
      pub pending : t.pending ≡ (if ends rs then idle else reading)
      pub shut_down : t.is_shut_down ≡ (if ends rs then true else s.is_shut_down)
      pub log : t.log ≡ s.log

    -- Where `need_eof` is the opposite of what a response says of keeping the connection, and reading and
    -- writing succeed, a session that reads answers requests that are no POST in their order, up to the
    -- first that does not ask to keep the connection: each with an error where its method is unknown or
    -- its target not legal, or where the file cannot be opened, and else with the file. After that one the
    -- connection is shut down; where there is none the session reads the next request.
    pub run-Served :
        (rs : List Request) (s : Session)
        → All IsNotPost rs
        → s.pending ≡ reading
        → (t : Session) × (run handle need_eof (conversation rs) s ≡ ok t) × Served rs s t
    run-Served rs s h k =
        let (t, ran, done) =
          conversation-Answered handle need_eof respond rs s (all_handled rs h) k in
        let same = closes-ends rs h in
        (
          t,
          ran,
          record {
            responses = until_close need_eof (all_responses respond rs);
            replied = until_close-AllReplies rs h;
            written = done.written;
            pending = done.pending ∙ ap (λ b. if b then idle else reading) same;
            shut_down = done.shut_down ∙ ap (λ b. if b then true else s.is_shut_down) same;
            log = done.log;
          },
        )
