-- ===== src/License/Verdicts.antt =====
-- license/license_checker.cpp: what the program `lic` is taken to say of a license.
use license_checker.Config.{Options}
use license_checker.License.{read_verdict}
use license_checker.Platform.{Platform, World}
use license_checker.Prelude.{
  Text, codes, text_eq_iff, take_before, Bool, true, false, Outcome, ok, throws, ℕ, ◌≡◌, ◌≢◌, ◌↔◌,
  ◌⊎◌, arith, [], ◌∷◌,
}

-- the word in front of the first colon of a line
abbrev pub code_of : Text → Text
code_of line = take_before b':' line

abbrev pub is_thrown : Outcome Bool → Bool
is_thrown (throws e) = true
is_thrown _ = false

-- the four ways in which a verification ends
abbrev pub IsVerdict : Text → Outcome Bool → Type 0
IsVerdict line r =
    ((r ≡ ok true)
      ↔ ((line ≢ []) × (code_of line ≢ codes "ERROR") × (code_of line ≢ codes "SUCCESS")))
    × ((r ≡ ok false) ↔ (code_of line ≡ codes "ERROR"))
    × ((is_thrown r ≡ true) ↔ ((line ≡ []) ⊎ (code_of line ≡ codes "SUCCESS")))

module _ {D J : Type 0} (os : Platform D J) (o : Options) (cmd : Text) (w : World D) where
  words_lem : (codes "ERROR" ≢ codes "SUCCESS") × (codes "ERROR" ≢ []) × (codes "SUCCESS" ≢ [])
  unfolding codes
  words_lem = ground arith

  empty_lem : ((read_verdict os o cmd [] w).1 ≡ w) × IsVerdict [] (read_verdict os o cmd [] w).0
  unfolding read_verdict take_before
  empty_lem = ground (arith, words_lem)

  filled_lem :
      (c : ℕ) (s : Text)
      → ((read_verdict os o cmd (c ∷ s) w).1 ≡ w)
        × IsVerdict (c ∷ s) (read_verdict os o cmd (c ∷ s) w).0
  unfolding read_verdict
  filled_lem c s =
      let code = code_of (c ∷ s) in
      ground
        (arith, words_lem, text_eq_iff code (codes "ERROR"), text_eq_iff code (codes "SUCCESS"))

  -- The verification of a license changes nothing. It says yes exactly where the printed line is
  -- not empty and the word in front of its first colon is neither ERROR nor SUCCESS; it says no
  -- exactly where that word is ERROR; it throws exactly where the line is empty or the word is
  -- SUCCESS.
  pub read_verdict_lem :
      (line : Text)
      → ((read_verdict os o cmd line w).1 ≡ w) × IsVerdict line (read_verdict os o cmd line w).0
  read_verdict_lem [] = empty_lem
  read_verdict_lem (c ∷ s) = filled_lem c s
