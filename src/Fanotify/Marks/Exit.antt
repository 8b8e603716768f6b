-- ===== src/Fanotify/Marks/Exit.antt =====
-- event_sink_linux/notificator_linux.cpp: the end of the program where it does not get to its loop.
use license_checker.Fanotify.{Kernel}
use license_checker.Fanotify.Marks.{
  LinuxNotificator, new_notificator, unset, add_path, mark_next, add_marks, after_marks, mark_all,
  go_on, start, free_paths, free_monitors, shutdown_fanotify,
}
use license_checker.Prelude.{
  suc, ℤ, pos, negsuc, Text, Bool, true, false, ◌||◌, Option, none, List, [], ◌∷◌, length, Outcome,
  ok, throws, fault, and_then, ◌≡◌, refl, ap, ◌∙◌, if◌then◌else◌,
}

-- Whether the outcome is defined.
abbrev pub is_defined : {D : Type 0} → Outcome D → Bool
is_defined (ok d) = true
is_defined _ = false

abbrev pub is_nil : List Text → Bool
is_nil [] = true
is_nil (p ∷ paths) = false

module _ {D : Type 0} (os : Kernel D) where
  -- whether no mark fails, but at most the last one
  unfoldable pub marks_but_last : ℤ → List Text → D → Bool
  marks_but_last fd [] d = true
  marks_but_last fd (p ∷ paths) d =
      let rest = marks_but_last fd paths (os.add_mark d fd p).1 in
      if (os.add_mark d fd p).0 then rest else is_nil paths

  free_paths-unset :
      (fd : ℤ) (paths : List Text) (d : D)
      → is_defined (free_paths os (length paths) fd (unset paths) d) ≡ is_nil paths
  unfolding free_paths unset
  free_paths-unset fd [] d = refl
  free_paths-unset fd (p ∷ paths) d = refl

  free_paths-mark_next :
      (out : ℤ) (p : Text) (paths : List Text) (e : D) (next : D → Bool × List (Option Text) × D)
      (r : Bool × D)
      → is_defined (free_paths os (suc (length paths)) out (mark_next os p paths next r).1 e) ≡ (
          let rest =
            is_defined (free_paths os (length paths) out (next r.1).1 (os.remove_mark e out p)) in
          if r.0 then rest else is_nil paths)
  unfolding free_paths mark_next add_path
  free_paths-mark_next out p paths e next (true, d) = refl
  free_paths-mark_next out p paths e next (false, d) =
      free_paths-unset out paths (os.remove_mark e out p)

  -- whatever descriptor the marks are removed from, and on whatever machine
  free_paths-add_marks :
      (fd out : ℤ) (paths : List Text) (d e : D)
      → is_defined (free_paths os (length paths) out (add_marks os fd paths d).1 e)
        ≡ marks_but_last fd paths d
  unfolding free_paths add_marks marks_but_last
  free_paths-add_marks fd out [] d e = refl
  free_paths-add_marks fd out (p ∷ paths) d e =
      let r = os.add_mark d fd p in
      free_paths-mark_next out p paths e (add_marks os fd paths) r
      ∙ ap (λ b. if r.0 then b else is_nil paths)
          (free_paths-add_marks fd out paths r.1 (os.remove_mark e out p))

  shutdown-defined :
      (n : LinuxNotificator) (d : D)
      → is_defined (shutdown_fanotify os n d)
        ≡ is_defined (free_monitors os n.numbers n.fanotify_fd n.monitors d)
  unfolding shutdown_fanotify
  shutdown-defined n d = and_then-defined (free_monitors os n.numbers n.fanotify_fd n.monitors d)
    where
      and_then-defined :
          (o : Outcome D)
          → is_defined (and_then (λ e. ok (os.close_file e n.fanotify_fd)) o) ≡ is_defined o
      and_then-defined (ok e) = refl
      and_then-defined (throws x) = refl
      and_then-defined fault = refl

  -- Whether the end is defined after a start that ended with `fd` from `fanotify_init`.
  unfoldable pub is_safe : List Text → ℤ × D → Bool
  unfolding marks_but_last
  is_safe paths (pos n, d) = marks_but_last (pos n) paths d
  is_safe paths (negsuc n, d) = false

  -- The destructor, on any machine after `run_notify` has started, is defined exactly where there was no
  -- directory, or where fanotify was set up and no mark failed, but at most the last one. Otherwise it
  -- uses monitors that were never set.
  pub shutdown_fanotify-start :
      (paths : List Text) (d e : D)
      → is_defined (shutdown_fanotify os (start os paths d).1 e)
        ≡ (is_nil paths || is_safe paths (os.fanotify_init d))
  unfolding start go_on free_monitors is_safe marks_but_last
  shutdown_fanotify-start [] d e = shutdown-defined new_notificator e
  shutdown_fanotify-start (p ∷ paths) d e = mark_all-safe (os.fanotify_init d)
    where
      mark_all-safe :
          (r : ℤ × D)
          → is_defined (shutdown_fanotify os (go_on os (mark_all os (p ∷ paths) r)).1 e)
            ≡ is_safe (p ∷ paths) r
      mark_all-safe (pos n, d) =
          let marked = add_marks os (pos n) (p ∷ paths) d in
          let left = after_marks os (pos n) (suc (length paths)) marked in
          shutdown-defined left.0 e
          ∙ free_paths-add_marks (pos n) left.0.fanotify_fd (p ∷ paths) d e
      mark_all-safe (negsuc n, d) =
          shutdown-defined
            (record { numbers = suc (length paths); monitors = none; fanotify_fd = negsuc 0 }) e
