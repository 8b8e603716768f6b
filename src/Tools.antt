-- ===== src/Tools.antt =====
-- tools/tools.cpp and tools/message_sender.h, as built for Linux.
pub mod Paths
pub mod Processes
pub mod Windows
use license_checker.Platform.{Platform, ProcEntry, World}
use license_checker.Prelude.{
  Text, codes, find_last, take, drop, c_str, text_eq, is_empty, atoi, ltb_ℤ, ℤ, pos, negsuc, suc,
  ◌+◌, Option, none, some, List, [], ◌∷◌, ◌++◌, Bool, true, false, if◌then◌else◌, ok, Action, ◌≡◌,
}

-- `npos + 1` is 0, so a name with no slash is taken whole.
unfoldable pub split_file_name : Text → Text
split_file_name buffer = elim (find_last b'/' buffer) [
  | none ↦ buffer
  | some i ↦ drop (suc i) buffer
]

-- `pos` is an `int`; converted back, -1 is `npos` again.
unfoldable pub split_file_path : Text → Text
split_file_path buffer = elim (find_last b'/' buffer) [
  | none ↦ b'.' ∷ []
  | some i ↦ take (suc i) buffer
]

-- the program name in the first line of a `cmdline` file
unfoldable pub program_name : Text → Text
unfolding split_file_name
program_name cmdline = split_file_name (c_str cmdline)

unfoldable pub find_proc_id : Text → List ProcEntry → ℤ
find_proc_id name [] = negsuc 0
find_proc_id name (e ∷ entries) =
    let id = atoi e.name in
    let next = find_proc_id name entries in
    if ltb_ℤ (pos 0) id
    then if is_empty e.cmdline
      then next
      else if text_eq name (program_name e.cmdline)
      then id
      else next
    else next

module _ {D J : Type 0} (os : Platform D J) where
  unfoldable pub get_proc_id_by_name : Text → D → ℤ
  get_proc_id_by_name name d = elim (os.proc d) [
    | none ↦ negsuc 0
    | some entries ↦ find_proc_id name entries
  ]

  unfoldable pub terminate_process : Text → Action (World D) Bool
  terminate_process name w =
      let pid = get_proc_id_by_name name w.disk in
      let (killed, d) = os.kill w.disk pid in
      if ltb_ℤ (pos 0) pid then (ok killed, record w { disk = d }) else (ok false, w)

-- `Net::send_message`, which opens a connection for each message. Its result is never read, and a
-- failure to connect is only logged, so the attempt is what is recorded.
unfoldable pub send_message : {D : Type 0} → Text → Action (World D) (Unit {0})
send_message message w = (ok tt, record w { sent = w.sent ++ message ∷ [] })

-- `Message_Sender::send`: the result, and the bytes that the monitor is sent, with the NUL. A `send_n`
-- that fails is waited for and changes no result.
unfoldable pub send : Bool → Bool → Text → ℤ × Option Text
send is_connected is_sent message =
    if is_connected
    then (pos 0, if is_sent then some (message ++ 0 ∷ []) else none)
    else (negsuc 0, none)

-- `current_module_path`, from what `getcwd` gives
unfoldable pub current_module_path : Text → Text
current_module_path directory = directory ++ codes "/"
