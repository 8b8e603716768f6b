-- ===== src/Client/Answers.antt =====
-- client/client_license.cpp, `processing_license`: what an answer of the license server leaves in the
-- result.
use license_checker.Client.{
  mime_types_code, Extractor, HostLicense, HostStatus, LicenseResult, set_errors,
  processing_http_errors, read_host_license, set_host_license, set_host_status,
  read_license_unless_null, read_host_status, read_license_if, set_message, is_active, read_answer,
  set_status_code, set_error_type, accept, processing, new_result,
}
use license_checker.Client.Reads.{
  Kept, kept, lift-Leaves, send_request-Leaves, member_text-Leaves, processing_http_errors-Leaves,
  read_host_license-Leaves,
}
use license_checker.Platform.{Platform, HttpResponse}
use license_checker.Prelude.Frames.{Ends, Ends-bind, Ends-then, Ends-if}
use license_checker.Prelude.{
  ℕ, Bool, true, false, Option, none, some, Outcome, Action, ok, throws, fault, lift, pure, throw,
  undefined, http_exception, not, text_eq, ◌>>=◌, ◌>>◌, ◌++◌, ◌≡◌, refl, ap, ◌∙◌, codes, ◌==◌,
  ==_iff,
}

-- What a call leaves in the result: a license only where it returns, for an answer with status 200
-- and an active host.
abbrev pub IsAnswer : Outcome (Unit {0}) → LicenseResult → Type 0
IsAnswer (ok _) r =
    (r.status_code ≡ some 200)
    × (s : HostStatus) × (r.host_status ≡ some s)
    × (is_active s ≡ false → r.host_license ≡ none)
IsAnswer (throws e) r = r.host_license ≡ none
IsAnswer fault r = r.host_license ≡ none

-- what is known of a result before the status of the host is read, and after it
abbrev blank : Kept
blank = (none, (some 200, none))

abbrev told : HostStatus → Kept
told s = (none, (some 200, some s))

-- what reading the status of the host ends in
IsTold : Outcome HostStatus → LicenseResult → Type 0
IsTold (ok s) r = kept r ≡ told s
IsTold (throws e) r = r.host_license ≡ none
IsTold fault r = r.host_license ≡ none

told-IsAnswer : (s : HostStatus) (r : LicenseResult) → kept r ≡ told s → IsAnswer (ok tt) r
told-IsAnswer s r h = (ap (λ k. k.1.0) h, s, ap (λ k. k.1.1) h, λ idle. ap (λ k. k.0) h)

unread :
    {k : Option ℕ × Option HostStatus} (r : LicenseResult)
    → kept r ≡ (none, k)
    → r.host_license ≡ none
unread r h = ap (λ k. k.0) h

lift-IsTold :
    {A : Type 0} (o : Outcome A) (g : A → Action LicenseResult HostStatus) (r : LicenseResult)
    → kept r ≡ blank
    → ((a : A) (t : LicenseResult) → kept t ≡ blank → Ends IsTold (g a t))
    → Ends IsTold ((lift o >>= g) r)
unfolding IsTold
lift-IsTold o g r h = Ends-bind IsTold blank (lift o) g r (lift-Leaves o) h (λ e. unread) unread

module _ {D J : Type 0} (os : Platform D J) where
  read_host_status-IsTold :
      (json : J) (r : LicenseResult) → kept r ≡ blank → Ends IsTold (read_host_status os json r)
  unfolding read_host_status IsTold set_host_status
  read_host_status-IsTold json r h = lift-IsTold (os.as_object json) _ r h λ object t ht.
      lift-IsTold (os.at object (codes "id")) _ t ht λ id_json t ht.
        lift-IsTold (os.as_integer id_json) _ t ht λ id t ht.
          lift-IsTold (os.at object (codes "name")) _ t ht λ name_json t ht.
            lift-IsTold (os.as_string name_json) _ t ht
              λ name t ht. ap (λ k. (k.0, (k.1.0, some (record { id = id; name = name })))) ht

  set_host_license-IsAnswer :
      (s : HostStatus) (x : HostLicense) (r : LicenseResult)
      → is_active s ≡ true
      → kept r ≡ told s
      → Ends IsAnswer (set_host_license os x r)
  unfolding set_host_license
  set_host_license-IsAnswer s x r active h = (ap (λ k. k.1.0) h, s, ap (λ k. k.1.1) h, λ idle. cc)

  read_license_unless_null-IsAnswer :
      (s : HostStatus) (json : J) (r : LicenseResult)
      → is_active s ≡ true
      → kept r ≡ told s
      → Ends IsAnswer (read_license_unless_null os json r)
  unfolding read_license_unless_null
  read_license_unless_null-IsAnswer s json r active h =
      Ends-if IsAnswer (not (os.is_null json)) (read_host_license os json >>= set_host_license os)
        (pure tt) r
        (λ given.
          Ends-bind IsAnswer (told s) (read_host_license os json) (set_host_license os) r
            (read_host_license-Leaves os json) h (λ e. unread) unread
            λ x t. set_host_license-IsAnswer s x t active)
        (λ null. told-IsAnswer s r h)

  read_license_if-IsAnswer :
      (b : Bool) (s : HostStatus) (json : J) (r : LicenseResult)
      → is_active s ≡ b
      → kept r ≡ told s
      → Ends IsAnswer (read_license_if os b json r)
  unfolding read_license_if
  read_license_if-IsAnswer true s json r active h =
      Ends-bind IsAnswer (told s) _ _ r (lift-Leaves (os.member json (codes "hostLicense"))) h
        (λ e. unread) unread λ license t ht. read_license_unless_null-IsAnswer s license t active ht
  read_license_if-IsAnswer false s json r active h = told-IsAnswer s r h

  -- after the status of the host is read
  status-IsAnswer :
      (json : J) (s : HostStatus) (r : LicenseResult)
      → kept r ≡ told s
      → Ends IsAnswer (read_license_if os (is_active s) json r)
  status-IsAnswer json s r = read_license_if-IsAnswer (is_active s) s json r refl

  read_answer-IsAnswer :
      (json : J) (r : LicenseResult) → kept r ≡ blank → Ends IsAnswer (read_answer os json r)
  unfolding read_answer IsTold set_message
  read_answer-IsAnswer json r h =
      Ends-bind IsAnswer blank _ _ r (member_text-Leaves os json (codes "message")) h (λ e. unread)
        unread
        λ message t ht.
          Ends-bind IsAnswer blank _ _ (record t { message = message })
            (lift-Leaves (os.member json (codes "hostStatus"))) ht (λ e. unread) unread
            λ status t ht.
              Ends-if IsAnswer (not (os.is_null status))
                (read_host_status os status >>= λ s. read_license_if os (is_active s) json)
                undefined t
                (λ given.
                  Ends-then IsTold IsAnswer (read_host_status os status)
                    (λ s. read_license_if os (is_active s) json) t
                    (read_host_status-IsTold status t ht) (λ e t k. k) (λ t k. k)
                    (status-IsAnswer json))
                (λ null. unread t ht)

  accept-IsAnswer :
      (response : HttpResponse J) (r : LicenseResult)
      → kept r ≡ blank
      → Ends IsAnswer (accept os response r)
  unfolding accept set_error_type set_errors
  accept-IsAnswer response r h =
      Ends-if IsAnswer (not (text_eq response.content_type os.application_json))
        (do
          set_error_type os
          throw (
              http_exception mime_types_code
                (codes "ERROR: server returned " ++ os.text_plain_utf8)))
        (lift response.body >>= read_answer os) r (λ other. unread r h)
        (λ json.
          Ends-bind IsAnswer blank (lift response.body) (read_answer os) r
            (lift-Leaves response.body) h (λ e. unread) unread (read_answer-IsAnswer))

  -- Whatever the server answers: where the call returns, the answer had status 200 and gave the
  -- status of the host, and the result has a license only if that host is active; where the call
  -- throws, or ends with no `return`, the result has no license.
  pub processing-IsAnswer : (x : Extractor) (d : D) → Ends IsAnswer (processing os x d new_result)
  unfolding processing set_status_code
  processing-IsAnswer x d =
      Ends-bind IsAnswer (none, (none, none)) _ _ new_result (send_request-Leaves os x d) refl
        (λ e. unread) unread
        λ response t ht.
          let received = ap (λ k. (k.0, (some response.status_code, k.1.1))) ht in
          Ends-if IsAnswer (response.status_code == 200) (accept os response)
            (do processing_http_errors os response; undefined)
            (record t { status_code = some response.status_code })
            (λ good. accept-IsAnswer response _ (
              received
              ∙ ap (λ n. (none, (some n, none))) ((==_iff response.status_code 200).0 good)))
            (λ bad.
              Ends-bind IsAnswer (none, (some response.status_code, none))
                (processing_http_errors os response) (λ _. undefined) _
                (processing_http_errors-Leaves os response) received (λ e. unread) unread
                (λ u. unread))
