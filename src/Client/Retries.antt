-- ===== src/Client/Retries.antt =====
-- client/client_license.cpp, `send_request`: the repetition of a failed call.
use license_checker.Client.{retry, no_errors, LicenseResult}
use license_checker.Platform.{Calls, HttpResponse, answered, failed}
use license_checker.Prelude.{
  ℕ, ℤ, Text, ◌<◌, ◌≤◌, arith, Outcome, Bool-cases, inl, inr, ltb, ok, throws, http_exception, some,
}

-- `Answers n calls response`: the calls are answered by `response` after failures, none of them
-- later than `n`.
pub data Answers {J : Type 0} (n : ℕ) : Calls J → HttpResponse J → Type 0 where
  at_once : (response : HttpResponse J) → Answers n (answered response) response
  after :
      (code : ℤ) (what : Text) (now : ℕ) {later : Calls J} {response : HttpResponse J}
      → now ≤ n
      → Answers n later response
      → Answers n (failed code what now later) response

-- `Expires n calls code what`: the first failure that is later than `n` has this code and text, and
-- no call before it is answered.
pub data Expires {J : Type 0} (n : ℕ) : Calls J → ℤ → Text → Type 0 where
  past :
      (code : ℤ) (what : Text) (now : ℕ) (later : Calls J)
      → n < now
      → Expires n (failed code what now later) code what
  after :
      (code : ℤ) (what : Text) (now : ℕ) {later : Calls J} {last_code : ℤ} {last : Text}
      → now ≤ n
      → Expires n later last_code last
      → Expires n (failed code what now later) last_code last

-- How the repetition of `calls` ends, with `r` as the result before: by the first answer that comes
-- before any failure later than `n`, or by throwing the first failure that is later, whose code is
-- kept in the result.
pub data Retried {J : Type 0} (n : ℕ) (calls : Calls J) (r : LicenseResult)
    : Outcome (HttpResponse J) → LicenseResult → Type 0 where
  is_answered :
      (response : HttpResponse J) → Answers n calls response → Retried n calls r (ok response) r
  is_expired :
      (code : ℤ) (what : Text)
      → Expires n calls code what
      → Retried n calls r
          (throws (http_exception code what))
          (record r { errors = some (record no_errors { code = some code }) })

module _ {J : Type 0} (deadline : ℕ) (r : LicenseResult) where
  later_too :
      (code : ℤ) (what : Text) (now : ℕ) (later : Calls J) {o : Outcome (HttpResponse J)}
      {t : LicenseResult}
      → now ≤ deadline
      → Retried deadline later r o t
      → Retried deadline (failed code what now later) r o t
  later_too code what now later h (is_answered response a) =
      is_answered response (Answers.after code what now h a)
  later_too code what now later h (is_expired last_code last a) =
      is_expired last_code last (Expires.after code what now h a)

  -- Whatever the calls do: the repetition ends with the first answer that comes before any failure
  -- later than the deadline, and changes nothing then, or it throws the first such failure.
  pub retry-Retried :
      (calls : Calls J)
      → Retried deadline calls r (retry deadline calls r).0 (retry deadline calls r).1
  unfolding retry
  retry-Retried (answered response) = is_answered response (at_once response)
  retry-Retried (failed code what now later) = elim (Bool-cases (ltb deadline now)) [
    | inl late ↦ simp late (is_expired code what (past code what now later (ground arith)))
    | inr early ↦ simp early (later_too code what now later (ground arith) (retry-Retried later))
  ]
