-- ===== src/Tools/Paths.antt =====
-- tools/tools.cpp, `namespace Files`: how the two halves of a path fit together.
use license_checker.Prelude.{
  ℕ, zero, suc, Text, ◌≡◌, refl, ap, find_last, take, drop, last?, none, some, [], ◌∷◌, ◌++◌, arith,
  Option-cases, inl, inr, ◌⊎◌,
}
use license_checker.Tools.{split_file_name, split_file_path}

take-append-drop : (n : ℕ) (s : Text) → take n s ++ drop n s ≡ s
unfolding take drop
take-append-drop zero s = refl
take-append-drop (suc n) [] = refl
take-append-drop (suc n) (c ∷ s) = ap (◌∷◌ c) (take-append-drop n s)

find_last-drop :
    (x : ℕ) (s : Text) (i : ℕ) → find_last x s ≡ some i → find_last x (drop (suc i) s) ≡ none
unfolding find_last drop
find_last-drop x [] i h = cc
find_last-drop x (c ∷ s) zero h = ground arith
find_last-drop x (c ∷ s) (suc i) h = ground (arith, find_last-drop x s i)

last?-take : (x : ℕ) (s : Text) (i : ℕ) → find_last x s ≡ some i → last? (take (suc i) s) ≡ some x
unfolding find_last take
last?-take x [] i h = cc
last?-take x (c ∷ s) zero h = ground arith
last?-take x (c ∷ []) (suc i) h = ground arith
last?-take x (c ∷ d ∷ s) (suc i) h = ground (arith, last?-take x (d ∷ s) i)

-- A path is either a bare name, whose directory is "." and which has no slash, or its directory,
-- which ends in a slash, followed by its name, which has no slash.
pub split_file_lem :
    (s : Text)
    → (split_file_path s ≡ b'.' ∷ []) × (split_file_name s ≡ s) × (find_last b'/' s ≡ none)
      ⊎ (split_file_path s ++ split_file_name s ≡ s)
        × (last? (split_file_path s) ≡ some b'/')
        × (find_last b'/' (split_file_name s) ≡ none)
unfolding split_file_name split_file_path
split_file_lem s = elim (Option-cases (find_last b'/' s)) [
  | inl e ↦ inl (rw (e, split_file_path) refl, rw (e, split_file_name) refl, e)
  | inr (i, e) ↦ inr (
    rw (e, split_file_path, split_file_name) (take-append-drop (suc i) s),
    rw (e, split_file_path) (last?-take b'/' s i e),
    rw (e, split_file_name) (find_last-drop b'/' s i e),
  )
]
