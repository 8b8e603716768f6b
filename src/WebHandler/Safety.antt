-- ===== src/WebHandler/Safety.antt =====
-- http_server/handle_request.h: which requests are answered with 200.
use license_checker.Prelude.{
  ℕ, Text, codes, true, false, Bool-cases, inl, inr, Option, List, Outcome, ok, fault, throws, ◌≡◌,
  refl, arith,
}
use license_checker.Server.Handler.{has_dots, is_rooted}
use license_checker.WebHandler.{
  Method, get, post, other, Request, Response, Opened, bad_request, check_target, handle_request,
  error_response,
}

module _ (split : ℕ → Text → List Text) (open_file : Text → Opened) (read_file : Text → Option Text)
    (doc_root : Text) where
  -- a target that may be answered
  abbrev pub IsLegal : Request → Type 0
  IsLegal r = (is_rooted r.target ≡ true) × (has_dots r.target ≡ false)

  abbrev pub IsGranted : Outcome Response → Type 0
  IsGranted (ok a) = a.status ≡ 200
  IsGranted (throws e) = ⊥
  IsGranted fault = ⊥

  check_target-IsLegal :
      (r : Request) → IsGranted (check_target split open_file read_file doc_root r) → IsLegal r
  unfolding check_target bad_request error_response
  check_target-IsLegal r h = elim (Bool-cases (is_rooted r.target)) [
    | inl rooted ↦ elim (Bool-cases (has_dots r.target)) [
      | inl dots ↦ ground (arith, rooted, dots, h)
      | inr clean ↦ (rooted, clean)
    ]
    | inr off ↦ ground (arith, off, h)
  ]

  -- the same of a method `m`
  IsLegal-for :
      (r : Request) (m : Method)
      → r.method ≡ m
      → IsGranted (elim m [
        | other ↦ ok (bad_request (codes "Unknown HTTP-method") r)
        | get ↦ check_target split open_file read_file doc_root r
        | post ↦ check_target split open_file read_file doc_root r
      ])
      → IsLegal r × ¬ (r.method ≡ other)
  unfolding bad_request error_response
  IsLegal-for r other e h = ground (arith, h)
  IsLegal-for r get e h = (check_target-IsLegal r h, λ k. ground (arith, e, k))
  IsLegal-for r post e h = (check_target-IsLegal r h, λ k. ground (arith, e, k))

  -- A request is answered with 200 only if its method is GET or POST and its target starts with a
  -- slash and has no two dots in a row.
  pub handle_request-IsLegal :
      (r : Request)
      → IsGranted (handle_request split open_file read_file doc_root r)
      → IsLegal r × ¬ (r.method ≡ other)
  unfolding handle_request
  handle_request-IsLegal r h = IsLegal-for r r.method refl h
