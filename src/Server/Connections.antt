-- ===== src/Server/Connections.antt =====
-- server/connection.cpp, server/connection_manager.cpp and server/server.cpp: the handlers of the
-- asynchronous calls, each a function of the state that it finds. The sockets are Boost.Asio's: a
-- completion carries its error code and what was read, and comes as an event.
pub mod Reads
pub mod Shutdown
use license_checker.Prelude.{
  ℕ, suc, Text, codes, text_eq, length, drop, ◌==◌, ◌+◌, ◌++◌, Bool, true, false, Option, none,
  some, List, [], ◌∷◌, Outcome, ok, throws, fault, and_then, c_str, ◌||◌, not, if◌then◌else◌,
}
use license_checker.Server.Handler.{handle_request}
use license_checker.Server.Message.{Request}
use license_checker.Server.Parameters.{parse_parameters}
use license_checker.Server.Parser.{Parser, new_parser, ParseResult, good, bad, indeterminate, parse}
use license_checker.Server.Reply.{Reply, bad_request, stock_reply}

pub data ErrorCode : Type 0 where
  no_error : ErrorCode
  operation_aborted : ErrorCode
  other_error : ErrorCode

-- the asynchronous call that a connection waits for
pub data Pending : Type 0 where
  reading : Pending
  writing : Pending

-- `connection`; `id` stands for its address
pub record Connection : Type 0 where
  pub id : ℕ
  pub parser : Parser
  pub reply : Reply
  pub buffer : Text
  pub pending : Pending

abbrev pub do_read : Connection → Connection
do_read c = record c { pending = reading }

abbrev pub do_write : Connection → Connection
do_write c = record c { pending = writing }

-- what `async_read_some` makes of the buffer
abbrev pub fill_buffer : Text → Text → Text
fill_buffer bytes buffer = bytes ++ drop (length bytes) buffer

-- `post_parameters = begin`: a `char *` up to the first NUL of the buffer. With no NUL it is read
-- past the end, which is undefined.
has_nul : Text → Bool
has_nul [] = false
has_nul (c ∷ s) = let rest = has_nul s in c == 0 || rest

unfoldable pub read_parameters : Text → Outcome Text
unfolding has_nul
read_parameters s = if has_nul s then ok (c_str s) else fault

-- `connection_manager::start`, on the set of connections
unfoldable pub start : Connection → List Connection → List Connection
start c connections = do_read c ∷ connections

-- what a handler makes of its connection: `none` where it asks the manager to stop it
pub data Handled : Type 0 where
  kept : Connection → Handled
  stopped : Handled
  undefined_read : Handled

-- `acceptor_.is_open()`, whether an accept is outstanding, and the set of the manager. `closing` has
-- the connections that `stop_all` has removed and that the `self` of an outstanding handler keeps
-- alive; an `id` is in one of the lists at most. A connection whose last handler was aborted and has
-- done nothing stays on its list.
pub record Server : Type 0 where
  pub is_open : Bool
  pub accepting : Bool
  pub connections : List Connection
  pub closing : List Connection

-- `connection_manager::stop_all`: the sockets are closed, and the set is empty.
unfoldable pub stop_all : Server → Server
stop_all s = record s { connections = []; closing = s.connections ++ s.closing }

put : Handled → List Connection → Outcome (List Connection)
put (kept c) rest = ok (c ∷ rest)
put stopped rest = ok rest
put undefined_read rest = fault

keep_first : Connection → Outcome (List Connection) → Outcome (List Connection)
keep_first c (ok rest) = ok (c ∷ rest)
keep_first c (throws e) = throws e
keep_first c fault = fault

-- the handler of the connection `id`, and `erase` where it is stopped: a handler that stops its own
-- connection has started no other call, so nothing of it is outstanding then
unfoldable pub update : ℕ → (Connection → Handled) → List Connection → Outcome (List Connection)
unfolding put keep_first
update id f [] = ok []
update id f (c ∷ rest) =
    let later = keep_first c (update id f rest) in if c.id == id then put (f c) rest else later

-- what can happen next; `accepted` brings a new connection
pub data Event : Type 0 where
  accepted : ErrorCode → Connection → Event
  received : ℕ → ErrorCode → Text → Event
  sent : ℕ → ErrorCode → Event
  signalled : Event

unfoldable pub on_accept : ErrorCode → Connection → Server → Server
on_accept no_error c s =
    if not s.is_open
    then record s { accepting = false }
    else record s { accepting = true; connections = start c s.connections }
on_accept _ c s =
    if not s.is_open then record s { accepting = false } else record s { accepting = true }

set_connections : Server → List Connection → List Connection → Outcome Server
set_connections s connections closing =
    ok (record s { connections = connections; closing = closing })

-- The handler of the connection `id`. One that `stop_all` has removed runs its handler all the same.
unfoldable pub complete_handler : ℕ → (Connection → Handled) → Server → Outcome Server
unfolding set_connections
complete_handler id f s =
    and_then (λ cs. and_then (set_connections s cs) (update id f s.closing))
      (update id f s.connections)

module _ (split : ℕ → Text → List Text) (read_file : Text → Option Text) (doc_root : Text) where
  read_post : Text → Request → Outcome Request
  read_post params r =
      if text_eq r.method (codes "POST") then parse_parameters split r params else ok r

  abbrev set_request : Connection → Request → Connection
  set_request c r = record c { parser = record c.parser { request = r } }

  reply_to : Connection → Outcome Request → Handled
  reply_to c (ok r) =
      kept (
        do_write (record (set_request c r) { reply = handle_request read_file doc_root r c.reply }))
  reply_to c _ = undefined_read

  -- what is done with the result of the parser
  unfoldable pub answer : ParseResult → Text → Connection → Handled
  unfolding read_post reply_to
  answer good params c = reply_to c (read_post params c.parser.request)
  answer bad params c = kept (do_write (record c { reply = stock_reply bad_request }))
  answer indeterminate params c = kept (do_read c)

  with_parameters : ParseResult → Connection → Outcome Text → Handled
  with_parameters result c (ok params) = answer result params c
  with_parameters result c (throws e) = undefined_read
  with_parameters result c fault = undefined_read

  parsed : Connection → Text → Outcome (ParseResult × Text) × Parser → Handled
  unfolding with_parameters
  parsed c unread (ok (result, rest), p) =
      with_parameters result (record c { parser = p }) (read_parameters (rest ++ unread))
  parsed c unread (throws e, p) = undefined_read
  parsed c unread (fault, p) = undefined_read

  -- the handler of `async_read_some`
  unfoldable pub on_read : ErrorCode → Text → Connection → Handled
  unfolding parsed
  on_read no_error bytes c =
      let unread = drop (length bytes) c.buffer in
      parsed (record c { buffer = fill_buffer bytes c.buffer }) unread (parse bytes c.parser)
  on_read operation_aborted bytes c = kept c
  on_read other_error bytes c = stopped

  -- the handler of `async_write`: the connection is stopped whether or not the write succeeded
  unfoldable pub on_write : ErrorCode → Connection → Handled
  on_write no_error c = stopped
  on_write operation_aborted c = kept c
  on_write other_error c = stopped

  unfoldable pub step : Event → Server → Outcome Server
  step (accepted ec c) s = ok (on_accept ec c s)
  step (received id ec bytes) s = complete_handler id (on_read ec bytes) s
  step (sent id ec) s = complete_handler id (on_write ec) s
  step signalled s = ok (stop_all (record s { is_open = false }))

  -- `run`: the handlers run one after another
  unfoldable pub run : List Event → Server → Outcome Server
  run [] s = ok s
  run (e ∷ events) s = elim (step e s) [ ok t ↦ run events t | throws x ↦ throws x | fault ↦ fault ]
