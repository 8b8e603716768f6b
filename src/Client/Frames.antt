-- ===== src/Client/Frames.antt =====
-- client/client_license.cpp: asking for a license changes nothing in the world but what the command
-- for the machine's id changes.
use license_checker.Client.{
  Extractor, raise, new_extractor, make_license_extractor, processing, processing_license,
  new_result,
}
use license_checker.Config.{Options}
use license_checker.License.Frames.{IsKeptByExec, generate_machine_uid-Leaves}
use license_checker.License.{generate_machine_uid}
use license_checker.Platform.{Platform, World}
use license_checker.Prelude.Frames.{Leaves, Leaves-same, Leaves-bind}
use license_checker.Prelude.{
  ℕ, Outcome, Text, Option, none, some, Exception, uri_exception, invalid_argument, ok, throws,
  fault, ◌≡◌, refl, lift, pure, ◌>>=◌,
}

module _ {D J X : Type 0} (os : Platform D J) (o : Options) (f : World D → X) where
  lift-pure_state :
      {A B : Type 0} (r : Outcome A) (b : B) (w : World D) → ((lift r >>= λ _. pure b) w).1 ≡ w
  lift-pure_state (ok a) b w = refl
  lift-pure_state (throws e) b w = refl
  lift-pure_state fault b w = refl

  pub processing_license-Leaves : (x : Extractor) → Leaves f (processing_license os x)
  unfolding processing_license
  processing_license-Leaves x =
      Leaves-same _
        λ w. let (r, result) = processing os x w.disk new_result in lift-pure_state r result w

  raise-Leaves : (e : Text → Exception) (m : Option Text) → Leaves f (raise e m)
  raise-Leaves e none = Leaves-same _ (λ w. refl)
  raise-Leaves e (some what) = Leaves-same _ (λ w. refl)

  new_extractor-Leaves : (attempt : ℕ) (uid : Text) → Leaves f (new_extractor os o attempt uid)
  unfolding new_extractor
  new_extractor-Leaves attempt uid =
      Leaves-bind (raise invalid_argument (os.client_error o.license_manager_uri)) _
        (raise-Leaves invalid_argument (os.client_error o.license_manager_uri))
        (λ u. Leaves-same _ (λ w. refl))

  pub make_license_extractor-Leaves :
      IsKeptByExec os o f → (attempt : ℕ) → Leaves f (make_license_extractor os o attempt)
  unfolding make_license_extractor
  make_license_extractor-Leaves kept attempt =
      Leaves-bind (raise uri_exception (os.uri_error o.license_manager_uri)) _
        (raise-Leaves uri_exception (os.uri_error o.license_manager_uri))
        λ u.
          Leaves-bind (generate_machine_uid os o) (new_extractor os o attempt)
            (generate_machine_uid-Leaves os o f kept) (λ uid. new_extractor-Leaves attempt uid)
