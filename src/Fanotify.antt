-- ===== src/Fanotify.antt =====
-- event_sink_linux/notificator_linux.cpp: a program that watches directories by fanotify. What Linux
-- does comes in `Kernel`, and the events are those that FAN_EVENT_OK and FAN_EVENT_NEXT walk along.
pub mod Descriptors
pub mod Marks
use license_checker.Prelude.{
  ℕ, zero, suc, ℤ, pos, negsuc, ltb_ℤ, Text, codes, to_string, c_str, is_empty, take, ◌==◌, Bool,
  true, false, ◌&&◌, Option, none, some, List, [], ◌∷◌, ◌++◌, length, Outcome, ok, fault, and_then,
  if◌then◌else◌,
}

-- The system calls on machines `D`. A descriptor that is below 0 is an error, and so is `none`.
pub record Kernel (D : Type 0) : Type 0 where
  pub open_file : D → Text → ℤ × D
  pub read_file : D → ℤ → ℕ → Option Text × D
  pub read_link : D → Text → Option Text
  pub close_file : D → ℤ → D
  pub fanotify_init : D → ℤ × D
  pub add_mark : D → ℤ → Text → Bool × D
  pub remove_mark : D → ℤ → Text → D

-- `fanotify_event_metadata`, with the six bits of its mask that are looked at
pub record Event : Type 0 where
  pub fd : ℤ
  pub pid : ℕ
  pub is_open : Bool
  pub is_access : Bool
  pub is_modify : Bool
  pub is_close_write : Bool
  pub is_close_nowrite : Bool
  pub is_open_exec : Bool

-- the machine, and what was printed and logged
pub record Process (D : Type 0) : Type 0 where
  pub disk : D
  pub lines : List Text

-- the text up to `^@`
before_caret : Text → Text
before_caret [] = []
before_caret (c ∷ []) = c ∷ []
before_caret (c ∷ d ∷ s) =
    let rest = before_caret (d ∷ s) in if c == b'^' && d == b'@' then [] else c ∷ rest

print_int : ℤ → Text
print_int (pos n) = to_string n
print_int (negsuc n) = b'-' ∷ to_string (suc n)

abbrev pub is_negative : ℤ → Bool
is_negative (pos n) = false
is_negative (negsuc n) = true

or_unknown : Option Text → Text
or_unknown none = codes "unknown"
or_unknown (some s) = s

module _ {D : Type 0} (os : Kernel D) where
  -- after `read`: a file with nothing to read, or that cannot be read, gives no name
  close_read : ℤ → Option Text × D → Option Text × D
  unfolding before_caret
  close_read fd (none, d) = (none, os.close_file d fd)
  close_read fd (some s, d) =
      (if is_empty s then none else some (before_caret (c_str s)), os.close_file d fd)

  read_name : ℕ → ℤ × D → Option Text × D
  unfolding close_read
  read_name size (fd, d) =
      let closed = close_read fd (os.read_file d fd size) in
      if is_negative fd then (none, d) else closed

  unfoldable pub get_program_name_from_pid : ℕ → D → Option Text × D
  unfolding read_name
  get_program_name_from_pid pid d =
      read_name 4095 (os.open_file d (codes "/proc/" ++ (to_string pid ++ codes "/cmdline")))

  cut_path : Option Text → Option Text
  cut_path none = none
  cut_path (some s) = some (take 4095 s)

  unfoldable pub get_file_path_from_fd : ℤ → D → Option Text
  unfolding cut_path print_int
  get_file_path_from_fd fd d =
      if ltb_ℤ (pos 0) fd
      then cut_path (os.read_link d (codes "/proc/self/fd/" ++ print_int fd))
      else none

  print : Text → Process D → Process D
  print s p = record p { lines = p.lines ++ s ∷ [] }

  print_if : Bool → Text → Process D → Process D
  unfolding print
  print_if true s p = print s p
  print_if false s p = p

  print_mask : Event → Process D → Process D
  unfolding print_if
  print_mask e p = print_if e.is_open_exec (codes "\tFAN_OPEN_EXEC\n") (
      print_if e.is_close_nowrite (codes "\tFAN_CLOSE_NOWRITE\n") (
        print_if e.is_close_write (codes "\tFAN_CLOSE_WRITE\n") (
          print_if e.is_modify (codes "\tFAN_MODIFY\n") (
            print_if e.is_access (codes "\tFAN_ACCESS\n")
              (print_if e.is_open (codes "\tFAN_OPEN\n") p)))))

  print_program : Event → Option Text × D → Process D → Process D
  unfolding print or_unknown
  print_program e (name, d) p =
      print
        (codes " pid=" ++ (to_string e.pid ++ (codes " (" ++ (or_unknown name ++ codes "): \n"))))
        (record p { disk = d })

  close : ℤ → Process D → Process D
  close fd p = record p { disk = os.close_file p.disk fd }

  -- The path is printed and then logged, there up to 511 bytes.
  print_path : Option Text → Process D → Process D
  unfolding print or_unknown
  print_path path p =
      let line = codes "Received event in path '" ++ (or_unknown path ++ codes "'") in
      print (take 511 line) (print line p)

  unfoldable pub event_process : Event → Process D → Process D
  unfolding print_program print_mask print_path close
  event_process e p =
      let named = print_path (get_file_path_from_fd e.fd p.disk) p in
      close e.fd (print_mask e (print_program e (get_program_name_from_pid e.pid p.disk) named))

  close_again : ℤ → Process D → Process D
  unfolding close
  close_again fd p = let closed = close fd p in if ltb_ℤ (pos 0) fd then closed else p

  -- the loop over what was read
  unfoldable pub process_events : List Event → Process D → Process D
  unfolding close_again
  process_events [] p = p
  process_events (e ∷ events) p = process_events events (close_again e.fd (event_process e p))

-- What one round of the loop gets from the system: whether `poll` succeeds, and what is read, which is
-- empty where there is nothing to read.
pub record Round : Type 0 where
  pub is_polled : Bool
  pub events : List Event

module _ {D : Type 0} (os : Kernel D) where
  -- The loop of `run_notify`: `exit` is called where `poll` fails, and after the last round given the
  -- loop waits, which is `false`.
  unfoldable pub watch : List Round → Process D → Bool × Process D
  unfolding process_events
  watch [] p = (false, p)
  watch (r ∷ rounds) p =
      let next = watch rounds (process_events os r.events p) in
      if r.is_polled then next else (true, p)
