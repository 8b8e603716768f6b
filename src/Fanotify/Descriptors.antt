-- ===== src/Fanotify/Descriptors.antt =====
-- event_sink_linux/notificator_linux.cpp: which descriptors are open after a batch of events.
use license_checker.Fanotify.{
  Kernel, Event, Process, close_read, read_name, get_program_name_from_pid, print, print_if,
  print_mask, print_program, print_path, get_file_path_from_fd, close, event_process, close_again,
  process_events, Round, watch,
}
use license_checker.Prelude.{
  ℕ, ℤ, pos, negsuc, ltb_ℤ, Text, codes, to_string, ◌++◌, ◌==◌, Bool, true, false, not, ◌&&◌, ◌||◌,
  Option, none, some, List, [], ◌∷◌, ◌≡◌, refl, ap, ◌∙◌, arith, Bool-cases, inl, inr, if◌then◌else◌,
}

unfoldable pub names : ℤ → ℕ → Bool
names (pos n) j = n == j
names (negsuc n) j = false

-- What is documented of the calls: a file that opens gets a descriptor that was not in use, to read
-- changes no descriptor, and to close ends that one and no other.
pub record IsKernel {D : Type 0} (os : Kernel D) (is_open : D → ℕ → Bool) : Type 0 where
  pub opened :
      (d : D) (path : Text) (j : ℕ)
      → is_open (os.open_file d path).1 j ≡ (is_open d j || names (os.open_file d path).0 j)
  pub unused :
      (d : D) (path : Text) (j : ℕ) → names (os.open_file d path).0 j ≡ true → is_open d j ≡ false
  pub read : (d : D) (fd : ℤ) (n j : ℕ) → is_open (os.read_file d fd n).1 j ≡ is_open d j
  pub closed :
      (d : D) (fd : ℤ) (j : ℕ) → is_open (os.close_file d fd) j ≡ (is_open d j && not (names fd j))

-- whether one of the events has the descriptor
unfoldable pub carries : List Event → ℕ → Bool
carries [] j = false
carries (e ∷ events) j = names e.fd j || carries events j

-- the same of the events that are read before `poll` fails
unfoldable pub delivers : List Round → ℕ → Bool
unfolding carries
delivers [] j = false
delivers (r ∷ rounds) j =
    let rest = delivers rounds j in if r.is_polled then carries r.events j || rest else false

module _ {D : Type 0} (os : Kernel D) (is_open : D → ℕ → Bool) (laws : IsKernel os is_open) where
  disk-print_if : (b : Bool) (s : Text) (p : Process D) → (print_if os b s p).disk ≡ p.disk
  unfolding print_if print
  disk-print_if true s p = refl
  disk-print_if false s p = refl

  disk-print_mask : (e : Event) (p : Process D) → (print_mask os e p).disk ≡ p.disk
  unfolding print_mask
  disk-print_mask e p = simp (disk-print_if) refl

  close_read-open :
      (fd : ℤ) (r : Option Text × D) (j : ℕ)
      → is_open (close_read os fd r).1 j ≡ (is_open r.1 j && not (names fd j))
  unfolding close_read
  close_read-open fd (none, d) j = laws.closed d fd j
  close_read-open fd (some s, d) j = laws.closed d fd j

  read_name-open :
      (r : ℤ × D) (size j : ℕ)
      → is_open (read_name os size r).1 j ≡ (is_open r.1 j && not (names r.0 j))
  unfolding read_name names
  read_name-open (pos n, d) size j =
      close_read-open (pos n) (os.read_file d (pos n) size) j
      ∙ ap (λ b. b && not (names (pos n) j)) (laws.read d (pos n) size j)
  read_name-open (negsuc n, d) size j = ground arith

  -- Looking up the name of a program leaves no descriptor open.
  get_program_name-open :
      (pid : ℕ) (d : D) (j : ℕ) → is_open (get_program_name_from_pid os pid d).1 j ≡ is_open d j
  unfolding get_program_name_from_pid
  get_program_name-open pid d j =
      let path = codes "/proc/" ++ (to_string pid ++ codes "/cmdline") in
      ground (
        arith,
        read_name-open (os.open_file d path) 4095 j,
        laws.opened d path j,
        laws.unused d path j,
      )

  close-open :
      (fd : ℤ) (p : Process D) (j : ℕ)
      → is_open (close os fd p).disk j ≡ (is_open p.disk j && not (names fd j))
  unfolding close
  close-open fd p j = laws.closed p.disk fd j

  event_process-open :
      (e : Event) (p : Process D) (j : ℕ)
      → is_open (event_process os e p).disk j ≡ (is_open p.disk j && not (names e.fd j))
  unfolding event_process print_program
  event_process-open e p j =
      let name = get_program_name_from_pid os e.pid p.disk in
      let printed =
        print_program os e name (print_path os (get_file_path_from_fd os e.fd p.disk) p) in
      close-open e.fd (print_mask os e printed) j
      ∙ ap (λ b. b && not (names e.fd j))
          (ap (λ d. is_open d j) (disk-print_mask e printed) ∙ get_program_name-open e.pid p.disk j)

  -- To close a descriptor again changes nothing.
  close_again-open :
      (fd : ℤ) (p : Process D) (j : ℕ) (b : Bool)
      → is_open p.disk j ≡ (b && not (names fd j))
      → is_open (close_again os fd p).disk j ≡ (b && not (names fd j))
  unfolding close_again
  close_again-open fd p j b h = elim (Bool-cases (ltb_ℤ (pos 0) fd)) [
    | inl above ↦ simp above (close-open fd p j ∙ ground (arith, h))
    | inr below ↦ simp below h
  ]

  process_events-open :
      (events : List Event) (p : Process D) (j : ℕ)
      → is_open (process_events os events p).disk j ≡ (is_open p.disk j && not (carries events j))
  unfolding process_events carries
  process_events-open [] p j = ground arith
  process_events-open (e ∷ events) p j =
      let q = event_process os e p in
      process_events-open events (close_again os e.fd q) j
      ∙ ap (λ b. b && not (carries events j))
          (close_again-open e.fd q j (is_open p.disk j) (event_process-open e p j))
      ∙ ground arith

  -- The loop closes exactly the descriptors of the events that are read until `poll` fails or nothing
  -- comes any more: none of them is left open, nor one of the files that are read for a name, and no other
  -- descriptor is closed.
  pub watch-open :
      (rounds : List Round) (p : Process D) (j : ℕ)
      → is_open (watch os rounds p).1.disk j ≡ (is_open p.disk j && not (delivers rounds j))
  unfolding watch delivers
  watch-open [] p j = ground arith
  watch-open (r ∷ rounds) p j = elim (Bool-cases r.is_polled) [
    | inl polled ↦ simp polled (
        watch-open rounds (process_events os r.events p) j
        ∙ ap (λ b. b && not (delivers rounds j)) (process_events-open r.events p j)
        ∙ ground arith)
    | inr failed ↦ simp failed (ground arith)
  ]
