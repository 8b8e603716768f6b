-- ===== src/Tools/Processes.antt =====
-- tools/tools.cpp, `namespace System`: which process is found and signalled.
use license_checker.Platform.{Platform, ProcEntry, World}
use license_checker.Prelude.{
  ℤ, pos, negsuc, Text, ◌≡◌, ◌<◌, ◌++◌, refl, [], ◌∷◌, List, none, some, arith, atoi, Bool, false,
  ok, Option-cases, inl, inr, ◌⊎◌, is_empty, Bool-cases, sym, ap, ◌∙◌, text_eq, text_eq_iff,
  pos_part, ltb_ℤ, All,
}
use license_checker.Tools.{program_name, find_proc_id, get_proc_id_by_name, terminate_process}

-- an entry of /proc that is a process running the program `name`
pub record Runs (name : Text) (e : ProcEntry) : Type 0 where
  pub id_pos : 0 < pos_part (atoi e.name)
  pub has_cmdline : is_empty e.cmdline ≡ false
  pub named : program_name e.cmdline ≡ name

-- `e` is the first process of the list that runs `name`.
pub record IsFirst (name : Text) (entries : List ProcEntry) (e : ProcEntry) : Type 0 where
  pub before : List ProcEntry
  pub after : List ProcEntry
  pub splits : entries ≡ before ++ e ∷ after
  pub none_before : All (λ x. ¬ Runs name x) before
  pub runs : Runs name e

find_proc_id-Runs :
    (name : Text) (e : ProcEntry) (entries : List ProcEntry)
    → Runs name e
    → find_proc_id name (e ∷ entries) ≡ atoi e.name
unfolding find_proc_id
find_proc_id-Runs name e entries r =
    ground (arith, text_eq_iff name (program_name e.cmdline), r.id_pos, r.has_cmdline, r.named)

-- The entry is passed over, or it runs the program.
find_proc_id-cases :
    (name : Text) (e : ProcEntry) (entries : List ProcEntry)
    → Runs name e
      ⊎ ((Runs name e → ⊥) × (find_proc_id name (e ∷ entries) ≡ find_proc_id name entries))
unfolding find_proc_id
find_proc_id-cases name e entries = elim (Bool-cases (ltb_ℤ (pos 0) (atoi e.name))) [
  | inr low ↦ inr (λ r. ground (arith, r.id_pos), ground arith)
  | inl high ↦ elim (Bool-cases (is_empty e.cmdline)) [
    | inl bare ↦ inr (λ r. ground (arith, r.has_cmdline), ground arith)
    | inr line ↦ elim (Bool-cases (text_eq name (program_name e.cmdline))) [
      | inl same ↦ inl (record {
        id_pos = ground arith;
        has_cmdline = line;
        named = sym ((text_eq_iff name (program_name e.cmdline)).0 same);
      })
      | inr other ↦
          inr
            (λ r. ground (arith, text_eq_iff name (program_name e.cmdline), r.named), ground arith)
    ]
  ]
]

-- The search gives the number of the first process that runs the program, and -1 if none does.
pub find_proc_id_lem :
    (name : Text) (entries : List ProcEntry)
    → ((e : ProcEntry) × IsFirst name entries e × (find_proc_id name entries ≡ atoi e.name))
      ⊎ (All (λ e. ¬ Runs name e) entries × (find_proc_id name entries ≡ negsuc 0))
unfolding find_proc_id
find_proc_id_lem name [] = inr (tt, refl)
find_proc_id_lem name (e ∷ entries) = elim (find_proc_id-cases name e entries) [
  | inl r ↦ inl (
    e,
    record { before = []; after = entries; splits = refl; none_before = tt; runs = r },
    find_proc_id-Runs name e entries r,
  )
  | inr (idle, same) ↦ elim (find_proc_id_lem name entries) [
    | inl (f, first, found) ↦ inl (
      f,
      record {
        before = e ∷ first.before;
        after = first.after;
        splits = ap (◌∷◌ e) first.splits;
        none_before = (idle, first.none_before);
        runs = first.runs;
      },
      same ∙ found,
    )
    | inr (all, none_found) ↦ inr ((idle, all), same ∙ none_found)
  ]
]

-- What `terminate_process` has done to the machine `d`: it has signalled the first process that
-- runs the program, or, where /proc has no such process, nothing.
pub data Terminates {D J : Type 0} (os : Platform D J) (name : Text) (d : D)
    : Bool → D → Type 0 where
  signalled :
      (entries : List ProcEntry) (e : ProcEntry) {b : Bool} {d' : D}
      → os.proc d ≡ some entries
      → IsFirst name entries e
      → b ≡ (os.kill d (atoi e.name)).0
      → d' ≡ (os.kill d (atoi e.name)).1
      → Terminates os name d b d'
  absent :
      (entries : List ProcEntry) {b : Bool} {d' : D}
      → os.proc d ≡ some entries
      → All (λ e. ¬ Runs name e) entries
      → b ≡ false
      → d' ≡ d
      → Terminates os name d b d'
  unreadable :
      {b : Bool} {d' : D} → os.proc d ≡ none → b ≡ false → d' ≡ d → Terminates os name d b d'

module _ {D J : Type 0} (os : Platform D J) (name : Text) (w : World D) where
  terminate_process-absent :
      get_proc_id_by_name os name w.disk ≡ negsuc 0 → terminate_process os name w ≡ (ok false, w)
  unfolding terminate_process
  terminate_process-absent e = rw e

  terminate_process_found :
      (id : ℤ)
      → get_proc_id_by_name os name w.disk ≡ id
      → 0 < pos_part id
      → terminate_process os name w
        ≡ (ok (os.kill w.disk id).0, record w { disk = (os.kill w.disk id).1 })
  unfolding terminate_process
  terminate_process_found id e h = rw e (ground arith)

  -- Exactly the first process that runs `name` is signalled, and none if there is no such process or
  -- /proc cannot be read. The call gives back whether the signal was sent; nothing else changes.
  pub terminate_process-Terminates :
      (b : Bool) × (d : D) × (terminate_process os name w ≡ (ok b, record w { disk = d }))
      × Terminates os name w.disk b d
  unfolding get_proc_id_by_name
  terminate_process-Terminates = elim (Option-cases (os.proc w.disk)) [
    | inl closed ↦ (
      false,
      w.disk,
      terminate_process-absent (rw (closed, get_proc_id_by_name) refl),
      unreadable closed refl refl,
    )
    | inr (entries, open_dir) ↦ elim (find_proc_id_lem name entries) [
      | inl (e, first, found) ↦ (
        (os.kill w.disk (atoi e.name)).0,
        (os.kill w.disk (atoi e.name)).1,
        terminate_process_found (atoi e.name) (rw (open_dir, get_proc_id_by_name) found)
            first.runs.id_pos,
        signalled entries e open_dir first refl refl,
      )
      | inr (idle, missing) ↦ (
        false,
        w.disk,
        terminate_process-absent (rw (open_dir, get_proc_id_by_name) missing),
        absent entries open_dir idle refl refl,
      )
    ]
  ]
