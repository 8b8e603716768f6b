-- ===== src/WebHandler/Pages.antt =====
-- http_server/handle_request.h: what a request that is not a POST is answered with.
use license_checker.Prelude.{
  ℕ, Text, codes, c_str, Bool-cases, Option, some, List, ok, ◌≡◌, ◌≢◌, refl, inl, inr, arith,
}
use license_checker.Server.Handler.{has_dots, is_rooted}
use license_checker.WebHandler.Safety.{IsLegal}
use license_checker.WebHandler.{
  Method, get, post, other, Request, Response, Opened, opened, no_such_file, open_error, mime_type,
  bad_request, not_found, server_error, error_response, full_path, answer_opened, respond_get,
  respond, check_target, handle_request,
}

module _ (split : ℕ → Text → List Text) (open_file : Text → Opened) (read_file : Text → Option Text)
    (doc_root : Text) where
  -- the file that is opened for a request
  abbrev pub path_of : Request → Text
  path_of r = full_path split open_file read_file doc_root r.target

  -- What the response `x` is to the request `r`.
  pub data Answers (r : Request) (x : Response) : Type 0 where
    unknown_method : r.method ≡ other → x.status ≡ 400 → Answers r x
    illegal_target : ¬ IsLegal split open_file read_file doc_root r → x.status ≡ 400 → Answers r x
    absent :
        IsLegal split open_file read_file doc_root r
        → open_file (c_str (path_of r)) ≡ no_such_file
        → x.status ≡ 404
        → Answers r x
    unreadable :
        (what : Text)
        → IsLegal split open_file read_file doc_root r
        → open_file (c_str (path_of r)) ≡ open_error what
        → x.status ≡ 500
        → Answers r x
    found :
        IsLegal split open_file read_file doc_root r
        → open_file (c_str (path_of r)) ≡ opened x.body
        → x.content_type ≡ some (mime_type (path_of r))
        → x.status ≡ 200
        → Answers r x

  -- the same, with the wish to keep the connection given back
  pub record Replies (r : Request) (x : Response) : Type 0 where
    pub answers : Answers r x
    pub kept : x.keep_alive ≡ some r.keep_alive

  opened-Replies :
      (r : Request) (o : Opened)
      → IsLegal split open_file read_file doc_root r
      → open_file (c_str (path_of r)) ≡ o
      → Replies r (answer_opened split open_file read_file doc_root (path_of r) o r)
  unfolding answer_opened not_found server_error error_response
  opened-Replies r (opened bytes) l e = record { answers = found l e refl refl; kept = refl }
  opened-Replies r no_such_file l e = record { answers = absent l e refl; kept = refl }
  opened-Replies r (open_error what) l e = record {
    answers = unreadable what l e refl;
    kept = refl;
  }

  check_target-Replies :
      (r : Request)
      → r.method ≡ get
      → (x : Response) × (check_target split open_file read_file doc_root r ≡ ok x) × Replies r x
  unfolding check_target respond respond_get bad_request error_response
  check_target-Replies r e = elim (Bool-cases (is_rooted r.target)) [
    | inr off ↦ (
      bad_request (codes "Illegal request-target") r,
      simp off refl,
      record { answers = illegal_target (λ l. ground (arith, l, off)) refl; kept = refl },
    )
    | inl rooted ↦ elim (Bool-cases (has_dots r.target)) [
      | inl dots ↦ (
        bad_request (codes "Illegal request-target") r,
        simp (rooted, dots) refl,
        record { answers = illegal_target (λ l. ground (arith, l, dots)) refl; kept = refl },
      )
      | inr clean ↦ (
        respond_get split open_file read_file doc_root r,
        simp (rooted, clean, e) refl,
        opened-Replies r (open_file (c_str (path_of r))) (rooted, clean) refl,
      )
    ]
  ]

  -- the same of a method `m`
  method-Replies :
      (r : Request) (m : Method)
      → r.method ≡ m
      → m ≢ post
      → (x : Response) × (elim m [
        | other ↦ ok (bad_request (codes "Unknown HTTP-method") r)
        | get ↦ check_target split open_file read_file doc_root r
        | post ↦ check_target split open_file read_file doc_root r
      ]
          ≡ ok x)
        × Replies r x
  unfolding bad_request error_response
  method-Replies r get e ne = check_target-Replies r e
  method-Replies r other e ne = (
    bad_request (codes "Unknown HTTP-method") r,
    refl,
    record { answers = unknown_method e refl; kept = refl },
  )
  method-Replies r post e ne = elim (ne refl) [ ]

  -- Every request whose method is not POST gets a response: an error for an unknown method or a target
  -- that is not legal, and else the file below the root, or an error where it cannot be opened.
  pub handle_request-Replies_to :
      (r : Request)
      → r.method ≢ post
      → (x : Response) × (handle_request split open_file read_file doc_root r ≡ ok x) × Replies r x
  unfolding handle_request
  handle_request-Replies_to r = method-Replies r r.method refl
