-- ===== src/Tasks/Shared/Frames.antt =====
-- What looking for a valid license leaves alone.
use license_checker.Config.{Options}
use license_checker.License.Frames.{IsKeptByExec, is_license_file-Leaves, verify_license-Leaves}
use license_checker.Platform.{Platform, World}
use license_checker.Prelude.Frames.{Leaves, Leaves-same, Leaves-bind, Leaves-if}
use license_checker.Prelude.{not, refl}
use license_checker.Tasks.Shared.{lacks_license}

module _ {D J X : Type 0} (os : Platform D J) (o : Options) (f : World D → X) where
  pub lacks_license-Leaves : IsKeptByExec os o f → Leaves f (lacks_license os o)
  unfolding lacks_license
  lacks_license-Leaves kept = Leaves-bind _ _ (is_license_file-Leaves os o f) λ b.
      Leaves-if (not b) _ _ (Leaves-same _ (λ w. refl))
        (Leaves-bind _ _ (verify_license-Leaves os o f kept) (λ v. Leaves-same _ (λ w. refl)))
