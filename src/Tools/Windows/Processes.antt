-- ===== src/Tools/Windows/Processes.antt =====
-- tools/tools.cpp, `terminate_process` on Windows: which processes it ends.
use license_checker.Prelude.{
  ℕ, Text, length, c_str, text_eq, ltb, ◌==◌, ◌≤◌, ◌<◌, ◌⊎◌, fault, Bool, true, false, not, ◌&&◌,
  ◌||◌, List, [], ◌∷◌, ok, ◌≡◌, refl, sym, ◌∙◌, arith, Bool-cases, inl, inr,
}
use license_checker.Tools.Windows.{Windows, ProcessEntry, visit, walk, terminate_process}

-- What is documented of the calls: a handle is given for a process that runs and that this one may
-- terminate, and to terminate a process ends that one and no other.
pub record IsWindows {D : Type 0} (os : Windows D) (runs : D → ℕ → Bool) (may : ℕ → Bool)
    : Type 0 where
  pub opened : (d : D) (id : ℕ) → os.opens d id ≡ (runs d id && may id)
  pub terminated : (d : D) (id j : ℕ) → runs (os.terminate d id) j ≡ (runs d j && not (id == j))

-- whether an entry of the list has the name and the number
unfoldable pub lists : Text → List ProcessEntry → ℕ → Bool
lists name [] j = false
lists name (e ∷ entries) j =
    text_eq (c_str e.exe_file) name && e.process_id == j || lists name entries j

-- whether an entry of the list has the name, and its process runs and may be terminated
unfoldable pub has_target : Text → (ℕ → Bool) → List ProcessEntry → Bool
has_target name alive [] = false
has_target name alive (e ∷ entries) =
    text_eq (c_str e.exe_file) name && alive e.process_id || has_target name alive entries

module _ {D : Type 0} (os : Windows D) (runs : D → ℕ → Bool) (may : ℕ → Bool)
    (laws : IsWindows os runs may) where
  alive : D → ℕ → Bool
  alive d j = runs d j && may j

  visit-runs :
      (name : Text) (e : ProcessEntry) (r : Bool) (d : D) (j : ℕ)
      → runs (visit os name e r d).1 j
        ≡ (runs d j && not (text_eq (c_str e.exe_file) name && e.process_id == j && may j))
  unfolding visit
  visit-runs name e r d j =
      grind (arith, laws.opened d e.process_id, laws.terminated d e.process_id j)

  walk-runs :
      (name : Text) (entries : List ProcessEntry) (r : Bool) (d : D) (j : ℕ)
      → runs (walk os name entries (r, d)).1 j ≡ (runs d j && not (lists name entries j && may j))
  unfolding walk lists
  walk-runs name [] r d j = ground arith
  walk-runs name (e ∷ entries) r d j =
      let (r', d') = visit os name e r d in
      ground (arith, walk-runs name entries r' d' j, visit-runs name e r d j)

  walk-result :
      (name : Text) (entries : List ProcessEntry) (r : Bool) (d : D)
      → (walk os name entries (r, d)).0 ≡ (r || has_target name (alive d) entries)
  unfolding walk visit has_target alive
  walk-result name [] r d = ground arith
  walk-result name (e ∷ entries) r d = elim (Bool-cases (text_eq (c_str e.exe_file) name)) [
    | inr other ↦ simp other (walk-result name entries r d)
    | inl same ↦ elim (Bool-cases (os.opens d e.process_id)) [
      | inl opened ↦
          simp (same, opened, sym (laws.opened d e.process_id) ∙ opened)
            (let known = walk-result name entries true (os.terminate d e.process_id) in
              ground (arith, known))
      | inr closed ↦
          simp (same, closed, sym (laws.opened d e.process_id) ∙ closed)
            (walk-result name entries r d)
    ]
  ]

  -- Where the name has fewer than 20 characters: exactly the listed processes of that name that run and
  -- that this one may terminate are ended, all of them, and the result is whether there was one. A longer
  -- name ends the caller.
  pub terminate_process-ends :
      (name : Text) (d : D)
      → ((length (c_str name) ≤ 19)
          × (b : Bool) × (d' : D) × (terminate_process os name d ≡ ok (b, d'))
          × (b ≡ has_target (c_str name) (λ j. runs d j && may j) (os.snapshot d))
          × ((j : ℕ)
              → runs d' j ≡ (runs d j && not (lists (c_str name) (os.snapshot d) j && may j))))
        ⊎ ((19 < length (c_str name)) × (terminate_process os name d ≡ fault))
  unfolding terminate_process alive
  terminate_process-ends name d = elim (Bool-cases (ltb 19 (length (c_str name)))) [
    | inl long ↦ inr (ground arith, rw long refl)
    | inr short ↦ inl (
      ground arith,
      (walk os (c_str name) (os.snapshot d) (false, d)).0,
      (walk os (c_str name) (os.snapshot d) (false, d)).1,
      rw short refl,
      walk-result (c_str name) (os.snapshot d) false d,
      walk-runs (c_str name) (os.snapshot d) false d,
    )
  ]
