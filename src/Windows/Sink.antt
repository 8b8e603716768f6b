-- ===== src/Windows/Sink.antt =====
-- nt_service/eventsink.h and nt_service/eventsink.cpp: the object that WMI tells of new processes. It
-- counts the references to itself, and calls `open` of the worker task once for each object it is told
-- of. That call starts a thread only where the task is not active.
pub mod Promise
use license_checker.Prelude.{
  ℕ, zero, suc, ◌+◌, ◌%◌, ◌==◌, ℤ, pos_part, Text, Bool, true, false, Option, List, [], ◌∷◌, ◌++◌,
  Outcome, ok, fault, and_then, if◌then◌else◌,
}

-- `m_lRef` as the bits of a LONG; `is_deleted` is whether `delete this` has run. `opens` counts the
-- calls of `open` of the worker task, whether or not they start a thread, and `classes` has the logged class names, `none` for an error.
pub record EventSink : Type 0 where
  pub reference_count : ℕ
  pub is_in_progress : Bool
  pub is_deleted : Bool
  pub opens : ℕ
  pub classes : List (Option Text)

unfoldable pub new_event_sink : EventSink
new_event_sink = record {
  reference_count = 0;
  is_in_progress = true;
  is_deleted = false;
  opens = 0;
  classes = [];
}

-- `InterlockedIncrement` and `InterlockedDecrement`
increment : ℕ → ℕ
increment n = (n + 1) % 4294967296

decrement : ℕ → ℕ
decrement n = (n + 4294967295) % 4294967296

unfoldable pub add_ref : EventSink → ℕ × EventSink
unfolding increment
add_ref s = let n = increment s.reference_count in (n, record s { reference_count = n })

-- what follows the decrement
delete_if : ℕ → EventSink → ℕ × EventSink
delete_if n s = (
  n,
  if n == 0
      then record s { reference_count = n; is_deleted = true }
      else record s { reference_count = n },
)

unfoldable pub release : EventSink → ℕ × EventSink
unfolding decrement delete_if
release s = delete_if (decrement s.reference_count) s

pub data InterfaceId : Type 0 where
  iid_unknown iid_object_sink iid_other : InterfaceId

-- `false` is E_NOINTERFACE
unfoldable pub query_interface : InterfaceId → EventSink → Bool × EventSink
query_interface iid_unknown s = (true, (add_ref s).1)
query_interface iid_object_sink s = (true, (add_ref s).1)
query_interface iid_other s = (false, s)

-- one round of the loop of `Indicate`; `apObjArray` is never advanced
indicate_one : List (Option Text) → EventSink → Outcome EventSink
indicate_one [] s = fault
indicate_one (name ∷ objects) s =
    ok (record s { opens = suc s.opens; classes = s.classes ++ name ∷ [] })

indicate_loop : ℕ → List (Option Text) → EventSink → Outcome EventSink
unfolding indicate_one
indicate_loop zero objects s = ok s
indicate_loop (suc n) objects s = and_then (indicate_loop n objects) (indicate_one objects s)

-- `Indicate`, with the class name of each object, or `none` where `Get` gives no text
unfoldable pub indicate : ℤ → List (Option Text) → EventSink → Outcome EventSink
unfolding indicate_loop
indicate count objects s = indicate_loop (pos_part count) objects s

pub data StatusFlag : Type 0 where
  status_complete status_progress status_other : StatusFlag

unfoldable pub set_status : StatusFlag → EventSink → EventSink
set_status status_complete s = record s { is_in_progress = false }
set_status status_progress s = s
set_status status_other s = s

-- a call of one of the methods
pub data Call : Type 0 where
  call_add_ref : Call
  call_release : Call
  call_query : InterfaceId → Call
  call_indicate : ℤ → List (Option Text) → Call
  call_status : StatusFlag → Call

-- the method that a call is dispatched to
unfoldable pub perform : Call → EventSink → Outcome EventSink
unfolding indicate set_status
perform call_add_ref s = ok (add_ref s).1
perform call_release s = ok (release s).1
perform (call_query id) s = ok (query_interface id s).1
perform (call_indicate count objects) s = indicate count objects s
perform (call_status flag) s = ok (set_status flag s)

-- A call of a sink that is deleted uses freed memory.
unfoldable pub call : Call → EventSink → Outcome EventSink
unfolding perform
call c s = let done = perform c s in if s.is_deleted then fault else done

unfoldable pub run : List Call → EventSink → Outcome EventSink
unfolding call
run [] s = ok s
run (c ∷ calls) s = and_then (run calls) (call c s)
