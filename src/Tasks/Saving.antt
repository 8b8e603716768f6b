-- ===== src/Tasks/Saving.antt =====
-- The license file under the two tasks that write it.
use license_checker.Client.Frames.{make_license_extractor-Leaves, processing_license-Leaves}
use license_checker.Client.{
  Extractor, HostLicense, HostStatus, LicenseResult, status_active, processing_license,
  make_license_extractor,
}
use license_checker.Config.{Options}
use license_checker.License.Frames.{IsKeptByExec}
use license_checker.License.{save_license_to_file, strip_nul}
use license_checker.Platform.{Platform, World}
use license_checker.Prelude.Frames.{Leaves, Leaves-same, Leaves-then, Keeps-bind}
use license_checker.Prelude.{
  ℕ, ℤ, Text, text_eq, is_empty, Bool, true, false, Option, none, some, ok, Action, pure, deref,
  ◌>>=◌, ◌≡◌, ◌⊎◌, inl, inr, refl, ap, sym, ◌∙◌, pos, negsuc, if◌then◌else◌, Option-cases,
}
use license_checker.Tasks.GetLicense.{eq_ℤ}
use license_checker.Tasks.Shared.{write_license}

module _ {D J : Type 0} (os : Platform D J) (path : Text) where
  -- what the file at `path` holds
  abbrev pub saved : World D → Option Text
  saved w = os.read_file w.disk path

  -- A file that is written is read back, and every other file is as it was.
  abbrev pub IsReadBack : Type 0
  IsReadBack =
      (d d' : D) (file text : Text)
      → os.write_file d file text ≡ some d'
      → os.read_file d' path ≡ (if text_eq file path then some text else os.read_file d path)

module _ {D J : Type 0} (os : Platform D J) (o : Options) where
  -- `h` is a license that is not empty, in the answer of the server for an active host.
  pub record IsReceived (h : HostLicense) : Type 0 where
    pub extractor : Extractor
    pub seen : World D
    pub result : LicenseResult
    pub status : HostStatus
    pub answered : processing_license os extractor seen ≡ (ok result, seen)
    pub has_status : result.host_status ≡ some status
    pub is_active : eq_ℤ status.id status_active ≡ true
    pub has_license : result.host_license ≡ some h
    pub is_given : is_empty h.license ≡ false

module _ {D J : Type 0} (os : Platform D J) (o : Options) (path : Text) where
  -- What a file may hold that held `old`: the same, or, where it is the license file, a license
  -- received that `New` allows.
  abbrev pub Stores : (HostLicense → Type 0) → Option Text → Option Text → Type 0
  Stores New old now =
      (now ≡ old)
      ⊎ ((text_eq o.lic_file path ≡ true)
          × (h : HostLicense) × IsReceived os o h
          × New h
          × (now ≡ some (strip_nul h.license)))

  -- what is left of the file by writing `text` to the license file
  abbrev Writes : Text → Option Text → Option Text → Type 0
  Writes text old now =
      (now ≡ old) ⊎ ((text_eq o.lic_file path ≡ true) × (now ≡ some (strip_nul text)))

  written_or_kept :
      (text : Text) (b : Bool) (old now : Option Text)
      → text_eq o.lic_file path ≡ b
      → now ≡ (if b then some (strip_nul text) else old)
      → Writes text old now
  written_or_kept text true old now e k = inr (e, k)
  written_or_kept text false old now e k = inl k

  module _ (read-write : IsReadBack os path) where
    pub saved-save :
        (text : Text) (w : World D)
        → Writes text (saved os path w) (saved os path (save_license_to_file os o text w).1)
    unfolding save_license_to_file
    saved-save text w = elim (Option-cases (os.write_file w.disk o.lic_file (strip_nul text))) [
      | inl failed ↦ inl (rw failed refl)
      | inr (d, written) ↦ rw written (
          written_or_kept text _ (saved os path w) (os.read_file d path) refl
            (read-write w.disk d o.lic_file (strip_nul text) written))
    ]

    saved-write_license :
        (h : HostLicense) (w : World D)
        → Writes h.license (saved os path w) (saved os path (write_license os o h w).1)
    unfolding write_license
    saved-write_license h w =
        Leaves-then {B = ℤ} {f = saved os path} (Writes h.license (saved os path w))
          (save_license_to_file os o h.license) (λ b. pure (if b then pos 0 else negsuc 0)) w
          (λ b. Leaves-same _ (λ v. refl)) (saved-save h.license w)

    -- Writing a license that may be written, with nothing after it that touches the file.
    pub write_license-Stores :
        {B : Type 0} (New : HostLicense → Type 0) (old : Option Text) (h : HostLicense)
        → IsReceived os o h
        → New h
        → (g : ℤ → Action (World D) B) → ((n : ℤ) → Leaves (saved os path) (g n))
        → (w : World D) → saved os path w ≡ old
        → Stores New old (saved os path ((write_license os o h >>= g) w).1)
    write_license-Stores New old h received new g later w e =
        Leaves-then {f = saved os path} (Stores New old) (write_license os o h) g w later
          (elim (saved-write_license h w) [
            | inl same ↦ inl (same ∙ e)
            | inr (same_file, written) ↦ inr (same_file, h, received, new, written)
          ])

  deref-state : {A : Type 0} (a : Option A) (w : World D) → (deref {S = World D} a w).1 ≡ w
  deref-state none w = refl
  deref-state (some a) w = refl

  deref-eq_ok :
      {A : Type 0} (m : Option A) (a : A) (w v : World D) → deref m w ≡ (ok a, v) → m ≡ some a
  deref-eq_ok none a w v e = cc
  deref-eq_ok (some b) a w v e = cc

  processing_license-state : (x : Extractor) (w : World D) → (processing_license os x w).1 ≡ w
  processing_license-state x = (processing_license-Leaves os o (λ w. w) x).at

  -- The requests of both tasks: up to the answer they leave the file alone, and what they do next
  -- may use what the server answered.
  pub received_then :
      (kept : IsKeptByExec os o (saved os path)) (New : HostLicense → Type 0) (old : Option Text)
      (attempt : ℕ) (k : LicenseResult → HostStatus → Action (World D) (Unit {0}))
      → ((r : LicenseResult) (s : HostStatus) (w : World D)
          → saved os path w ≡ old
          → r.host_status ≡ some s
          → ((x : Extractor) × (v : World D) × (processing_license os x v ≡ (ok r, v)))
          → Stores New old (saved os path (k r s w).1))
      → (w : World D) → saved os path w ≡ old
      → Stores New old (
          saved os path
            ((make_license_extractor os o attempt >>= λ x.
                processing_license os x >>= λ r. deref r.host_status >>= λ s. k r s)
              w).1)
  received_then kept New old attempt k h w e =
      Keeps-bind (Stores New old) old _ _ w
        (make_license_extractor-Leaves os o (saved os path) kept attempt) e (inl refl)
        λ x v ev _.
          Keeps-bind (Stores New old) old _ _ v (processing_license-Leaves os o (saved os path) x)
            ev (inl refl)
            λ r u eu answer.
              Keeps-bind (Stores New old) old (deref r.host_status) _ u
                (Leaves-same _ (deref-state r.host_status)) eu (inl refl)
                λ s t et status. h r s t et (deref-eq_ok r.host_status s u t status) (
                  x,
                  v,
                  answer
                      ∙ ap (λ z. (ok r, z))
                          (sym (ap (λ z. z.1) answer) ∙ processing_license-state x v),
                )
