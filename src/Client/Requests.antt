-- ===== src/Client/Requests.antt =====
-- license/license_checker.cpp and client/client_license.cpp: the requests that the agent makes.
use license_checker.Client.{
  Extractor, LicenseRequest, is_valid, raise, new_extractor, make_license_extractor,
}
use license_checker.Config.{Options}
use license_checker.Config.Bounds.{IsAccepted}
use license_checker.License.{check_uid, generate_machine_uid, run_proc, make_machine_uid_cmd}
use license_checker.Platform.{Platform, World}
use license_checker.Prelude.{
  ℕ, Text, Option, none, some, Exception, uri_exception, invalid_argument, length, is_empty, true,
  false, Outcome, ok, throws, fault, Action, continue, ◌≡◌, refl, arith, [], ◌∷◌,
}

-- What an outcome says of its value, if it has one.
abbrev pub Gives : {A : Type 0} → (A → Type 0) → Outcome A → Type 0
Gives P (ok a) = P a
Gives P _ = Unit

module _ {S A B : Type 0} (P : A → Type 0) (Q : B → Type 0) where
  Gives-continue :
      (f : A → Action S B) (r : Outcome A) (s : S)
      → Gives P r
      → ((a : A) (t : S) → P a → Gives Q (f a t).0)
      → Gives Q (continue f r s).0
  Gives-continue f (ok a) s p h = h a s p
  Gives-continue f (throws e) s p h = tt
  Gives-continue f fault s p h = tt

raise-Gives :
    {S : Type 0} (e : Text → Exception) (m : Option Text) (s : S)
    → Gives (λ _. Unit {0}) (raise e m s).0
raise-Gives e none s = tt
raise-Gives e (some what) s = tt

-- a request that the client sends, with a machine id of the length that `lic` prints
pub record IsReady (x : Extractor) : Type 0 where
  pub uid_length : length x.request_license.uid ≡ 58
  pub is_sent : is_valid x.request_license ≡ true

is_empty-length : (s : Text) → length s ≡ 58 → is_empty s ≡ false
is_empty-length [] h = ground (arith, h)
is_empty-length (c ∷ s) h = refl

is_valid-length :
    (r : LicenseRequest)
    → length r.uid ≡ 58
    → is_empty r.unp ≡ false
    → is_empty r.agent ≡ false
    → is_empty r.host_type ≡ false
    → is_valid r ≡ true
unfolding is_valid
is_valid-length r h u a t = rw (is_empty-length r.uid h, u, a, t) refl

module _ {D J : Type 0} (os : Platform D J) (o : Options) where
  check_uid-length :
      (line : Text) (w : World D) → Gives (λ uid. length uid ≡ 58) (check_uid os o line w).0
  unfolding check_uid
  check_uid-length line w = ground arith

  generate_machine_uid-length :
      (w : World D) → Gives (λ uid. length uid ≡ 58) (generate_machine_uid os o w).0
  unfolding generate_machine_uid
  generate_machine_uid-length w =
      let (r, v) = run_proc os o (make_machine_uid_cmd os o) w in
      Gives-continue (λ _. Unit {0}) (λ uid. length uid ≡ 58) (check_uid os o) r v (any r)
        (λ line t _. check_uid-length line t)
    where
      any : (r : Outcome Text) → Gives (λ _. Unit {0}) r
      any (ok a) = tt
      any (throws e) = tt
      any fault = tt

  new_extractor-IsReady :
      IsAccepted o
      → (attempt : ℕ) (uid : Text) (w : World D) → length uid ≡ 58
      → Gives IsReady (new_extractor os o attempt uid w).0
  unfolding new_extractor
  new_extractor-IsReady h attempt uid w e =
      let (r, v) = raise {S = World D} invalid_argument (os.client_error o.license_manager_uri) w in
      Gives-continue {S = World D} (λ _. Unit {0}) IsReady (λ _ s. (ok (made uid), s)) r v
        (raise-Gives invalid_argument (os.client_error o.license_manager_uri) w)
        λ _ u _. record {
          uid_length = e;
          is_sent = is_valid-length _ e h.unp_given h.agent_given h.prod_given;
        }
    where
      made : Text → Extractor
      made uid = record {
        address = o.license_manager_uri;
        attempt = attempt;
        request_license = record { uid = uid; unp = o.unp; agent = o.agent_id; host_type = o.prod };
      }

  -- With a configuration that was accepted, a request for a license that is made is one that is
  -- sent: no field of it is empty, and its machine id has 58 bytes. A machine id of another length
  -- is an exception, and no request is made.
  pub make_license_extractor-IsReady :
      IsAccepted o
      → (attempt : ℕ) (w : World D) → Gives IsReady (make_license_extractor os o attempt w).0
  unfolding make_license_extractor
  make_license_extractor-IsReady h attempt w =
      let (r, v) = raise {S = World D} uri_exception (os.uri_error o.license_manager_uri) w in
      Gives-continue (λ _. Unit {0}) IsReady _ r v
        (raise-Gives uri_exception (os.uri_error o.license_manager_uri) w)
        λ _ v _.
          let (r, t) = generate_machine_uid os o v in
          Gives-continue (λ uid. length uid ≡ 58) IsReady (new_extractor os o attempt) r t
            (generate_machine_uid-length v) (λ uid t e. new_extractor-IsReady h attempt uid t e)
