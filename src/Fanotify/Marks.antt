-- ===== src/Fanotify/Marks.antt =====
-- event_sink_linux/notificator_linux.cpp: the start of the program, which marks the directories, and the
-- destructor of its object.
pub mod Exit
use license_checker.Fanotify.{Kernel, is_negative}
use license_checker.Prelude.{
  ℕ, zero, suc, ℤ, pos, negsuc, Text, Bool, true, false, Option, none, some, List, [], ◌∷◌, length,
  Outcome, ok, fault, and_then, if◌then◌else◌,
}

-- The object: `numbers`, `monitors`, where a path that was never set is `none`, and `fanotify_fd`. It is
-- static, so it starts with zeros and null. Messages on errors are left out.
pub record LinuxNotificator : Type 0 where
  pub numbers : ℕ
  pub monitors : Option (List (Option Text))
  pub fanotify_fd : ℤ

abbrev pub new_notificator : LinuxNotificator
new_notificator = record { numbers = 0; monitors = none; fanotify_fd = pos 0 }

unset : List Text → List (Option Text)
unset [] = []
unset (p ∷ paths) = none ∷ unset paths

module _ {D : Type 0} (os : Kernel D) where
  -- the loop over the directories: whether all marks were set, and the monitors
  add_path : Text → Bool × List (Option Text) × D → Bool × List (Option Text) × D
  add_path p (b, monitors, d) = (b, some p ∷ monitors, d)

  mark_next :
      Text
      → List Text
      → (D → Bool × List (Option Text) × D)
      → Bool × D
      → Bool × List (Option Text) × D
  unfolding add_path unset
  mark_next p paths next (true, d) = add_path p (next d)
  mark_next p paths next (false, d) = (false, some p ∷ unset paths, d)

  unfoldable pub add_marks : ℤ → List Text → D → Bool × List (Option Text) × D
  unfolding mark_next
  add_marks fd [] d = (true, [], d)
  add_marks fd (p ∷ paths) d = mark_next p paths (add_marks fd paths) (os.add_mark d fd p)

  -- -1 where a mark fails; the descriptor stays open
  after_marks : ℤ → ℕ → Bool × List (Option Text) × D → LinuxNotificator × D
  after_marks fd numbers (b, monitors, d) = (
    record {
      numbers = numbers;
      monitors = some monitors;
      fanotify_fd = if b then fd else negsuc 0;
    },
    d,
  )

  mark_all : List Text → ℤ × D → LinuxNotificator × D
  unfolding add_marks after_marks
  mark_all paths (pos n, d) = after_marks (pos n) (length paths) (add_marks (pos n) paths d)
  mark_all paths (negsuc n, d) =
      (record { numbers = length paths; monitors = none; fanotify_fd = negsuc 0 }, d)

  -- `run_notify` up to its loop, with `initialize_fanotify`, for the arguments after the program's
  -- name; it goes on to the loop where the first value is true, and else calls `exit`
  go_on : LinuxNotificator × D → Bool × LinuxNotificator × D
  go_on (n, d) = (if is_negative n.fanotify_fd then false else true, n, d)

  unfoldable pub start : List Text → D → Bool × LinuxNotificator × D
  unfolding mark_all go_on
  start [] d = (false, new_notificator, d)
  start (p ∷ paths) d = go_on (mark_all (p ∷ paths) (os.fanotify_init d))

  -- `shutdown_fanotify`: to free what was never set is undefined
  unfoldable pub free_paths : ℕ → ℤ → List (Option Text) → D → Outcome D
  free_paths zero fd monitors d = ok d
  free_paths (suc n) fd [] d = fault
  free_paths (suc n) fd (none ∷ monitors) d = fault
  free_paths (suc n) fd (some p ∷ monitors) d = free_paths n fd monitors (os.remove_mark d fd p)

  unfoldable pub free_monitors : ℕ → ℤ → Option (List (Option Text)) → D → Outcome D
  unfolding free_paths
  free_monitors zero fd none d = ok d
  free_monitors (suc n) fd none d = fault
  free_monitors n fd (some monitors) d = free_paths n fd monitors d

  -- the destructor, which `exit` runs
  unfoldable pub shutdown_fanotify : LinuxNotificator → D → Outcome D
  unfolding free_monitors
  shutdown_fanotify n d =
      and_then (λ e. ok (os.close_file e n.fanotify_fd))
        (free_monitors n.numbers n.fanotify_fd n.monitors d)
