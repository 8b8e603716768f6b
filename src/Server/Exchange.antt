-- ===== src/Server/Exchange.antt =====
-- server: a request from its first read to the bytes of its reply.
use license_checker.Prelude.{
  ℕ, Text, codes, text_eq, length, ◌≤◌, All, false, Option, some, List, ◌≡◌, ap, ◌∙◌,
}
use license_checker.Server.Connections.Reads.{join, EndsInNul, feed, feed-replies}
use license_checker.Server.Connections.{Connection, reading, writing, kept}
use license_checker.Server.Handler.Headers.{handle_request-IsSendable}
use license_checker.Server.Handler.{handle_request}
use license_checker.Server.Message.{Request}
use license_checker.Server.Parser.RoundTrip.{IsRequest, print_request}
use license_checker.Server.Parser.{new_parser}
use license_checker.Server.Reply.Wire.{Received, wire, read_reply, read_reply-wire}
use license_checker.Server.Reply.{Reply, status_number}

-- what a client is to make of a reply
abbrev pub received_of : Reply → Received
received_of r = record { code = status_number r.status; headers = r.headers; content = r.content }

module _ (split : ℕ → Text → List Text) (read_file : Text → Option Text) (doc_root : Text) where
  -- A client writes out a request whose method is not POST, with anything after it, and the server
  -- reads it in any pieces, with a new connection whose buffer ends in 0 and is never filled. Then
  -- the server writes, and the client reads back from the bytes sent the status, the headers and the
  -- content of the handler's reply to this request.
  pub feed-read_reply :
      (n : ℕ) (bs : List Text) (c : Connection) (r : Request) (body : Text)
      → IsRequest r
      → text_eq r.method (codes "POST") ≡ false
      → join bs ≡ print_request r body
      → All (λ b. length b ≤ n) bs
      → EndsInNul n c.buffer
      → c.pending ≡ reading
      → c.parser ≡ new_parser
      → (d : Connection) × (feed split read_file doc_root bs c ≡ kept d)
        × (d.pending ≡ writing)
        × (read_reply (wire d.reply)
            ≡ some (received_of (handle_request read_file doc_root r c.reply)))
  feed-read_reply n bs c r body h plain whole shorts ends_in idle fresh =
      let (d, fed, writes, replied) =
        feed-replies split read_file doc_root n bs c r body h plain whole shorts ends_in idle
          fresh in
      (
        d,
        fed,
        writes,
        ap (λ x. read_reply (wire x)) replied
            ∙ read_reply-wire (handle_request read_file doc_root r c.reply)
                (handle_request-IsSendable read_file doc_root r c.reply),
      )
