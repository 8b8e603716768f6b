-- ===== src/Server/Connections/Reads.antt =====
-- server/connection.cpp: a request that comes in several reads is handled as the whole of it.
use license_checker.Prelude.{
  ℕ, zero, suc, Text, codes, text_eq, length, length-append, drop, ◌+◌, ◌≤◌, ◌++◌, true, false,
  List, [], ◌∷◌, Option, All, c_str, Outcome, ok, throws, fault, ◌≡◌, refl, ap, sym, subst, ◌∙◌,
  append_assoc, inl, arith,
}
use license_checker.Server.Connections.{
  Connection, Pending, Handled, kept, stopped, undefined_read, no_error, reading, writing, on_read,
  answer, parsed, read_parameters, has_nul, fill_buffer, read_post, reply_to, with_parameters,
}
use license_checker.Server.Handler.{handle_request}
use license_checker.Server.Parser.Chunks.{parse_more, parse-append}
use license_checker.Server.Parser.Safety.{has_back, IsWellFormed, EndsWell, ends, parse-EndsWell}
use license_checker.Server.Parser.{
  Parser, ParseResult, good, bad, indeterminate, parse, new_parser, expecting_newline_3,
}
use license_checker.Server.Message.{Request}
use license_checker.Server.Parser.RoundTrip.{IsRequest, print_request, parse-print_request}
use license_checker.Server.Reply.{Reply, bad_request, stock_reply}

-- the reads of a request one after another
unfoldable pub join : List Text → Text
join [] = []
join (b ∷ bs) = b ++ join bs

-- A buffer of `n + 1` bytes, the last of which is 0.
pub record EndsInNul (n : ℕ) (buffer : Text) : Type 0 where
  pub front : Text
  pub is_long : length front ≡ n
  pub split_at : buffer ≡ front ++ 0 ∷ []

drop-front :
    (k : ℕ) (s : Text)
    → k ≤ length s
    → (t : Text) × (drop k (s ++ 0 ∷ []) ≡ t ++ 0 ∷ []) × (k + length t ≡ length s)
unfolding drop
drop-front zero s h = (s, refl, omega arith)
drop-front (suc k) [] h = ground (arith, h)
drop-front (suc k) (c ∷ s) h = let (t, e, l) = drop-front k s (omega arith) in (t, e, omega arith)

has_nul_last : (s : Text) → has_nul (s ++ 0 ∷ []) ≡ true
unfolding has_nul
has_nul_last [] = refl
has_nul_last (c ∷ s) = rw (has_nul_last s) (ground arith)

-- What a read of at most `n` bytes leaves: the buffer ends in 0 again, and so does what was not
-- overwritten.
fill_buffer-EndsInNul :
    (n : ℕ) (bytes buffer : Text)
    → EndsInNul n buffer
    → length bytes ≤ n
    → EndsInNul n (fill_buffer bytes buffer)
      × ((rest : Text) → has_nul (rest ++ drop (length bytes) buffer) ≡ true)
fill_buffer-EndsInNul n bytes buffer h k =
    let (t, e, l) = drop-front (length bytes) h.front (rw h.is_long k) in
    let tail = ap (drop (length bytes)) h.split_at ∙ e in
    (
      record {
        front = bytes ++ t;
        is_long = length-append bytes t ∙ l ∙ h.is_long;
        split_at = ap (◌++◌ bytes) tail ∙ sym (append_assoc bytes t (0 ∷ []));
      },
      λ rest.
          ap (λ x. has_nul (rest ++ x)) tail
          ∙ ap has_nul (sym (append_assoc rest t (0 ∷ [])))
          ∙ has_nul_last (rest ++ t),
    )

read_parameters_lem : (s : Text) → has_nul s ≡ true → read_parameters s ≡ ok (c_str s)
unfolding read_parameters
read_parameters_lem s h = rw h refl

-- No read is outstanding while the connection writes.
read_on : Pending → (Connection → Handled) → Connection → Handled
read_on reading next c = next c
read_on writing next c = kept c

go_on : (Connection → Handled) → Handled → Handled
unfolding read_on
go_on next (kept c) = read_on c.pending next c
go_on next stopped = stopped
go_on next undefined_read = undefined_read

module _ (split : ℕ → Text → List Text) (read_file : Text → Option Text) (doc_root : Text) where
  -- the reads up to the one after which the connection writes
  unfoldable pub feed : List Text → Connection → Handled
  unfolding go_on read_on
  feed [] c = kept c
  feed (b ∷ bs) c = go_on (feed bs) (on_read split read_file doc_root no_error b c)

  -- What a connection with the reply `old` does with a text that the parser has read: it writes the
  -- reply to the request or the stock reply to a bad one, or waits for more. Where the parser is
  -- undefined, which only too long a version number makes it, so is the handler.
  pub data Serves (old : Reply) : Outcome (ParseResult × Text) × Parser → Handled → Type 0 where
    replied :
        {rest : Text} {p : Parser} {c : Connection}
        → c.pending ≡ writing
        → c.reply ≡ handle_request read_file doc_root p.request old
        → Serves old (ok (good, rest), p) (kept c)
    refused :
        {rest : Text} {p : Parser} {c : Connection}
        → c.pending ≡ writing
        → c.reply ≡ stock_reply bad_request
        → Serves old (ok (bad, rest), p) (kept c)
    waiting :
        {rest : Text} {p : Parser} {c : Connection}
        → c.pending ≡ reading
        → c.reply ≡ old
        → c.parser ≡ p
        → Serves old (ok (indeterminate, rest), p) (kept c)
    overflowing : {p : Parser} → Serves old (fault, p) undefined_read

  -- The method of a request that has been read is not POST.
  abbrev pub IsPlain : Outcome (ParseResult × Text) × Parser → Type 0
  IsPlain (ok (good, rest), p) = text_eq p.request.method (codes "POST") ≡ false
  IsPlain _ = Unit {0}

  on_read_lem :
      (b rest : Text) (r : ParseResult) (q : Parser) (c : Connection)
      → parse b c.parser ≡ (ok (r, rest), q)
      → has_nul (rest ++ drop (length b) c.buffer) ≡ true
      → on_read split read_file doc_root no_error b c
        ≡ answer split read_file doc_root r
            (c_str (rest ++ drop (length b) c.buffer))
            (record c { parser = q; buffer = fill_buffer b c.buffer })
  unfolding on_read parsed with_parameters
  on_read_lem b rest r q c e k = rw e (
      ap
        (with_parameters split read_file doc_root r
          (record c { parser = q; buffer = fill_buffer b c.buffer }))
        (read_parameters_lem (rest ++ drop (length b) c.buffer) k))

  on_read_undefined :
      (b : Text) (q : Parser) (c : Connection)
      → parse b c.parser ≡ (fault, q)
      → on_read split read_file doc_root no_error b c ≡ undefined_read
  unfolding on_read parsed
  on_read_undefined b q c e = rw e refl

  Serves-subst :
      (old : Reply) (x y : Outcome (ParseResult × Text) × Parser) (h k : Handled)
      → x ≡ y
      → h ≡ k
      → Serves old y k
      → Serves old x h
  Serves-subst old x y h k e f s = rw (e, f) s

  abbrev Continues : ℕ → Reply → List Text → Type 0
  Continues n old bs =
      (c : Connection)
      → EndsInNul n c.buffer
      → c.pending ≡ reading
      → c.reply ≡ old
      → IsWellFormed c.parser
      → IsPlain (parse (join bs) c.parser)
      → Serves old (parse (join bs) c.parser) (feed bs c)

  after_read-Serves :
      (n : ℕ) (old : Reply) (b : Text) (bs : List Text) (c : Connection)
      (x : Outcome (ParseResult × Text) × Parser)
      → Continues n old bs
      → EndsInNul n (fill_buffer b c.buffer)
      → ((rest : Text) → has_nul (rest ++ drop (length b) c.buffer) ≡ true)
      → c.reply ≡ old
      → EndsWell x
      → parse b c.parser ≡ x
      → IsPlain (parse_more (join bs) x)
      → Serves old (parse_more (join bs) x) (feed (b ∷ bs) c)
  unfolding feed answer read_post reply_to
  after_read-Serves n old b bs c (ok (good, rest), p) next ends_in nul same w e plain =
      let f = on_read_lem b rest good p c e (nul rest) in
      Serves-subst old _ _ _ _ refl (ap (go_on (feed bs)) f)
        (rw plain (replied refl (ap (handle_request read_file doc_root p.request) same)))
  after_read-Serves n old b bs c (ok (bad, rest), p) next ends_in nul same w e plain =
      let f = on_read_lem b rest bad p c e (nul rest) in
      Serves-subst old _ _ _ _ refl (ap (go_on (feed bs)) f) (refused refl refl)
  after_read-Serves n old b bs c (ok (indeterminate, rest), p) next ends_in nul same (ends w) e
        plain =
      let f = on_read_lem b rest indeterminate p c e (nul rest) in
      Serves-subst old _ _ _ _ refl (ap (go_on (feed bs)) f) (
        next (record c { parser = p; buffer = fill_buffer b c.buffer; pending = reading }) ends_in
          refl same w plain)
  after_read-Serves n old b bs c (throws x, p) next ends_in nul same w e plain = elim w [ ]
  after_read-Serves n old b bs c (fault, p) next ends_in nul same w e plain =
      Serves-subst old _ _ _ _ refl (ap (go_on (feed bs)) (on_read_undefined b p c e)) overflowing

  feed_on : (n : ℕ) (old : Reply) (bs : List Text) → All (λ b. length b ≤ n) bs → Continues n old bs
  unfolding join feed parse
  feed_on n old [] shorts c ends_in idle same w plain = waiting idle same refl
  feed_on n old (b ∷ bs) (short, shorts) c ends_in idle same w plain =
      let (filled, nul) = fill_buffer-EndsInNul n b c.buffer ends_in short in
      let e = parse-append b (join bs) c.parser in
      Serves-subst old _ _ _ _ e refl (
        after_read-Serves n old b bs c (parse b c.parser) (feed_on n old bs shorts) filled nul same
          (parse-EndsWell b c.parser w) refl (subst IsPlain e plain))

  -- Let the buffer end in 0, no read fill it, the parser be well formed, and what has been read be no
  -- POST request. Then a connection that reads a request in pieces does what the whole of it asks
  -- for: with a request it writes the reply of the handler to it, with a bad one the stock reply, and
  -- otherwise it goes on reading, with the parser where the text has brought it; and the handler is
  -- undefined exactly where the parser is.
  pub feed-Serves :
      (n : ℕ) (bs : List Text) (c : Connection)
      → All (λ b. length b ≤ n) bs
      → EndsInNul n c.buffer
      → c.pending ≡ reading
      → IsWellFormed c.parser
      → IsPlain (parse (join bs) c.parser)
      → Serves c.reply (parse (join bs) c.parser) (feed bs c)
  feed-Serves n bs c shorts ends_in idle w plain =
      feed_on n c.reply bs shorts c ends_in idle refl w plain

  Serves-reply :
      (old : Reply) (x : Outcome (ParseResult × Text) × Parser) (rest : Text) (p : Parser)
      (h : Handled)
      → x ≡ (ok (good, rest), p)
      → Serves old x h
      → (d : Connection) × (h ≡ kept d)
        × (d.pending ≡ writing)
        × (d.reply ≡ handle_request read_file doc_root p.request old)
  Serves-reply old (ok (good, rest'), q) rest p h e (replied {c = c} w same) = (
    c,
    refl,
    w,
    same ∙ ap (λ r. handle_request read_file doc_root r old) (ap (λ y. y.1.request) e),
  )
  Serves-reply old (ok (bad, rest'), q) rest p h e s = cc
  Serves-reply old (ok (indeterminate, rest'), q) rest p h e s = cc
  Serves-reply old (throws x, q) rest p h e s = cc
  Serves-reply old (fault, q) rest p h e s = cc

  -- A new connection whose buffer ends in 0, which no read fills, and which reads a request that was
  -- written out, in any pieces and with whatever follows it, writes the reply of the handler to this
  -- request, if its method is not POST.
  pub feed-replies :
      (n : ℕ) (bs : List Text) (c : Connection) (r : Request) (body : Text)
      → IsRequest r
      → text_eq r.method (codes "POST") ≡ false
      → join bs ≡ print_request r body
      → All (λ b. length b ≤ n) bs
      → EndsInNul n c.buffer
      → c.pending ≡ reading
      → c.parser ≡ new_parser
      → (d : Connection) × (feed bs c ≡ kept d)
        × (d.pending ≡ writing)
        × (d.reply ≡ handle_request read_file doc_root r c.reply)
  feed-replies n bs c r body h plain whole shorts ends_in idle fresh =
      Serves-reply c.reply (parse (join bs) c.parser) body
        (record { state = expecting_newline_3; request = r }) (feed bs c) (read_whole)
        (feed-Serves n bs c shorts ends_in idle (inl (ap (λ p. has_back p.state) fresh))
          (subst IsPlain (sym read_whole) plain))
    where
      read_whole :
          parse (join bs) c.parser
          ≡ (ok (good, body), record { state = expecting_newline_3; request = r })
      read_whole = rw (whole, fresh) (parse-print_request r body h)
