-- ===== src/Client/Reads.antt =====
-- client/client_license.cpp, what the steps that only read leave of the result.
use license_checker.Client.{
  Extractor, HostLicense, HostStatus, LicenseResult, ErrorReport, retry, send_request, at_text,
  member_text, read_field_error, read_field_errors, read_unless_null, set_errors, explain,
  processing_http_errors, text_or, int_or, read_host_license,
}
use license_checker.Platform.{Platform, Calls, HttpResponse, answered, failed}
use license_checker.Prelude.Frames.{Leaves, Leaves-same, Leaves-if, Leaves-bind}
use license_checker.Prelude.{
  ℕ, ℤ, Text, Option, List, [], ◌∷◌, Outcome, lift, pure, throw, Exception, ltb, ◌≡◌, refl,
  Bool-cases, inl, inr,
}

-- what the steps that only read leave alone
abbrev pub Kept : Type 0
Kept = Option HostLicense × (Option ℕ × Option HostStatus)

abbrev pub kept : LicenseResult → Kept
kept r = (r.host_license, (r.status_code, r.host_status))

pub lift-Leaves : {A X : Type 0} {f : LicenseResult → X} (o : Outcome A) → Leaves f (lift o)
lift-Leaves o = Leaves-same _ (λ r. refl)

pure-Leaves : {A X : Type 0} {f : LicenseResult → X} (a : A) → Leaves f (pure a)
pure-Leaves a = Leaves-same _ (λ r. refl)

throw-Leaves : {A X : Type 0} {f : LicenseResult → X} (e : Exception) → Leaves f (throw {A = A} e)
throw-Leaves e = Leaves-same _ (λ r. refl)

retry-kept :
    {J : Type 0} (deadline : ℕ) (calls : Calls J) (r : LicenseResult)
    → kept (retry deadline calls r).1 ≡ kept r
unfolding retry
retry-kept deadline (answered response) r = refl
retry-kept deadline (failed code what now later) r = elim (Bool-cases (ltb deadline now)) [
  | inl late ↦ simp late refl
  | inr early ↦ simp early (retry-kept deadline later r)
]

retry-Leaves : {J : Type 0} (deadline : ℕ) (calls : Calls J) → Leaves kept (retry deadline calls)
retry-Leaves deadline calls = record { at = retry-kept deadline calls }

module _ {D J : Type 0} (os : Platform D J) where
  pub send_request-Leaves : (x : Extractor) (d : D) → Leaves kept (send_request os x d)
  unfolding send_request
  send_request-Leaves x d = search (Leaves-if, throw-Leaves, retry-Leaves)

  at_text-Leaves : (j : J) (key : Text) → Leaves kept (at_text os j key)
  unfolding at_text
  at_text-Leaves j key = search (Leaves-bind, lift-Leaves)

  pub member_text-Leaves : (j : J) (key : Text) → Leaves kept (member_text os j key)
  unfolding member_text
  member_text-Leaves j key = search (Leaves-bind, lift-Leaves)

  read_field_error-Leaves : (j : J) → Leaves kept (read_field_error os j)
  unfolding read_field_error
  read_field_error-Leaves j = search (Leaves-bind, lift-Leaves, at_text-Leaves, pure-Leaves)

  read_field_errors-Leaves :
      (fields : List J) (report : ErrorReport) (error : Text)
      → Leaves kept (read_field_errors os fields report error)
  unfolding read_field_errors
  read_field_errors-Leaves [] report error = pure-Leaves _
  read_field_errors-Leaves (j ∷ fields) report error =
      Leaves-bind _ _ (read_field_error-Leaves j) (λ e. read_field_errors-Leaves fields _ _)

  read_unless_null-Leaves :
      (fields : J) (report : ErrorReport) (error : Text)
      → Leaves kept (read_unless_null os fields report error)
  unfolding read_unless_null
  read_unless_null-Leaves fields report error =
      search (Leaves-if, Leaves-bind, lift-Leaves, read_field_errors-Leaves, pure-Leaves)

  set_errors-Leaves : (report : ErrorReport) → Leaves kept (set_errors os report)
  unfolding set_errors
  set_errors-Leaves report = record { at = λ r. refl }

  explain-Leaves :
      (response : HttpResponse J) (report : ErrorReport) (error : Text)
      → Leaves kept (explain os response report error)
  unfolding explain
  explain-Leaves response report error =
      search
        (Leaves-bind, lift-Leaves, member_text-Leaves, read_unless_null-Leaves, set_errors-Leaves)

  pub processing_http_errors-Leaves :
      (response : HttpResponse J) → Leaves kept (processing_http_errors os response)
  unfolding processing_http_errors
  processing_http_errors-Leaves response =
      search (Leaves-if, Leaves-bind, explain-Leaves, set_errors-Leaves, throw-Leaves)

  text_or-Leaves : (old : Text) (v : J) → Leaves kept (text_or os old v)
  unfolding text_or
  text_or-Leaves old v = search (Leaves-if, lift-Leaves, pure-Leaves)

  int_or-Leaves : (old : ℤ) (v : J) → Leaves kept (int_or os old v)
  unfolding int_or
  int_or-Leaves old v = search (Leaves-if, lift-Leaves, pure-Leaves)

  pub read_host_license-Leaves : (json : J) → Leaves kept (read_host_license os json)
  unfolding read_host_license
  read_host_license-Leaves json =
      search (Leaves-bind, lift-Leaves, text_or-Leaves, int_or-Leaves, pure-Leaves)
