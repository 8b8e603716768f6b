-- ===== src/Windows.antt =====
-- nt_service/config_change.cpp: the Windows service watches the directory of its configuration.
-- The buffer of ReadDirectoryChangesW is a text of bytes; what the system calls return comes in
-- `Round`.
pub mod Changes
pub mod Rounds
pub mod Notifications
pub mod NtService
pub mod Sink
pub mod Scm
use license_checker.Prelude.{
  ℕ, zero, suc, Text, c_str, text_eq, drop, ltb, leb, ◌==◌, ◌+◌, ◌*◌, ◌/◌, ◌%◌, ◌-◌, Bool, true,
  false, Option, none, some, List, [], ◌∷◌, Outcome, ok, throws, fault, not, if◌then◌else◌,
}

-- a DWORD, least byte first, and what follows it
read_word : Text → Option (ℕ × Text)
read_word (a ∷ b ∷ c ∷ d ∷ s) = some (a + 256 * b + 65536 * c + 16777216 * d, s)
read_word _ = none

-- `FILE_NOTIFY_INFORMATION`; `rest` starts with the bytes of `FileName`.
pub record Entry : Type 0 where
  pub next_entry_offset : ℕ
  pub action : ℕ
  pub file_name_length : ℕ
  pub rest : Text

read_length : ℕ → ℕ → Option (ℕ × Text) → Option Entry
read_length next action none = none
read_length next action (some (n, s)) =
    some (record { next_entry_offset = next; action = action; file_name_length = n; rest = s })

read_action : ℕ → Option (ℕ × Text) → Option Entry
unfolding read_word read_length
read_action next none = none
read_action next (some (action, s)) = read_length next action (read_word s)

read_next : Option (ℕ × Text) → Option Entry
unfolding read_word read_action
read_next none = none
read_next (some (next, s)) = read_action next (read_word s)

-- what the pointer at `s` points to; `none` where it is read past the end of the buffer
unfoldable pub read_entry : Text → Option Entry
unfolding read_word read_next
read_entry s = read_next (read_word s)

add_char : ℕ → Option Text → Option Text
add_char c none = none
add_char c (some s) = some (c ∷ s)

-- `wcsncpy`: at most `n` characters of two bytes, up to a NUL
unfoldable pub copy_name : ℕ → Text → Option Text
unfolding add_char
copy_name zero s = some []
copy_name (suc n) (a ∷ b ∷ s) =
    let rest = copy_name n s in if a + 256 * b == 0 then some [] else add_char (a + 256 * b) rest
copy_name (suc n) _ = none

abbrev pub max_path : ℕ
max_path = 260

module _ (file_name : Text) where
  -- The terminating NUL is written at the length, which may lie beyond the array.
  compare_name : ℕ → ℕ → Option Text → Option (Outcome Bool) → Option (Outcome Bool)
  compare_name count next none later = some fault
  compare_name count next (some name) later =
      if leb max_path count
      then some fault
      else if text_eq name (c_str file_name)
      then some (ok true)
      else if next == 0
      then some (ok false)
      else later

  -- one round of the loop; `seek` is a DWORD, and `next` goes on from another one
  look : Option Entry → ℕ → (ℕ → Option (Outcome Bool)) → Option (Outcome Bool)
  unfolding compare_name
  look none seek next = some fault
  look (some e) seek next =
      let later = next ((seek + e.next_entry_offset) % 4294967296) in
      if ltb 5 e.action
      then some (ok false)
      else (let count = e.file_name_length / 2 in
          compare_name count e.next_entry_offset (copy_name count e.rest) later)

  -- The loop of `processing`, from the offset `seek` on: whether the file is among the changes, and
  -- `none` where the fuel runs out.
  unfoldable pub processing : ℕ → Text → ℕ → ℕ → Option (Outcome Bool)
  unfolding look
  processing zero buffer size seek = none
  processing (suc fuel) buffer size seek =
      let next = processing fuel buffer size in
      if ltb seek size then look (read_entry (drop seek buffer)) seek next else some (ok false)

-- `bStop`, whether `event_` and `active_handler_` are signalled, and how many handles of the
-- directory are open
pub record Watcher : Type 0 where
  pub is_stopped : Bool
  pub is_signalled : Bool
  pub is_active : Bool
  pub open_handles : ℕ

-- What the calls give in one round of `svc`: whether the directory opens, whether the wait ends with
-- the event, and the buffer.
pub record Round : Type 0 where
  pub is_opened : Bool
  pub is_waited : Bool
  pub buffer : Text

-- the end of `svc`
unfoldable pub finish : Watcher → Watcher
finish w = record w { is_active = true }

unfoldable pub create_file : Watcher → Watcher
create_file w = record w { open_handles = suc w.open_handles }

stop : Watcher → Watcher
stop w = record w { is_stopped = true }

-- what `processing` does with its members
unfoldable pub take_changes : Watcher → Option (Outcome Bool) → Option (Outcome Watcher)
unfolding stop
take_changes w none = none
take_changes w (some (ok true)) =
    some
      (ok (record w { is_stopped = true; is_signalled = true; open_handles = w.open_handles - 1 }))
take_changes w (some (ok false)) = some (ok w)
take_changes w (some (throws e)) = some (throws e)
take_changes w (some fault) = some fault

-- `while (!bStop)`, after a round
unfoldable pub go_on :
    (Watcher → Option (Outcome Watcher)) → Option (Outcome Watcher) → Option (Outcome Watcher)
unfolding finish
go_on next none = none
go_on next (some (ok w)) =
    let later = next w in if w.is_stopped then some (ok (finish w)) else later
go_on next (some (throws e)) = some (throws e)
go_on next (some fault) = some fault

module _ (file_name : Text) (fuel : ℕ) where
  -- The size that `processing` is given is that of the buffer, whatever was read into it.
  unfoldable pub round : Round → Watcher → Option (Outcome Watcher)
  unfolding create_file stop take_changes
  round r w =
      let changes = processing file_name fuel r.buffer 61440 0 in
      if not r.is_opened
      then some (ok (stop w))
      else if r.is_waited
      then take_changes (create_file w) changes
      else some (ok (stop (create_file w)))

  -- `svc`; after the last round given it waits.
  unfoldable pub watch : List Round → Watcher → Option (Outcome Watcher)
  unfolding go_on
  watch [] w = some (ok w)
  watch (r ∷ rounds) w = go_on (watch rounds) (round r w)

  unfoldable pub svc : List Round → Watcher → Option (Outcome Watcher)
  svc rounds w = watch rounds (record w { is_stopped = false })
