-- ===== src/Windows/Sink/Promise.antt =====
-- nt_service/eventsink.cpp against what a COM object promises: it lives as long as someone holds a
-- reference to it.
pub mod Kept
use license_checker.Prelude.{
  ℕ, zero, suc, ◌+◌, ◌-◌, ◌<◌, ◌==◌, ◌≡◌, refl, pos_part, Text, Bool, true, not, Option, none, some,
  List, [], ◌∷◌, ◌++◌, length, append_assoc, append-nil, sym, ap, subst, ◌∙◌, Outcome, ok, throws,
  fault, and_then, arith, Bool-cases, inl, inr, if◌then◌else◌,
}
use license_checker.Windows.Sink.{
  EventSink, InterfaceId, iid_unknown, iid_object_sink, iid_other, StatusFlag, status_complete,
  status_progress, status_other, Call, call_add_ref, call_release, call_query, call_indicate,
  call_status, increment, decrement, add_ref, delete_if, release, query_interface, indicate_one,
  indicate_loop, indicate, set_status, perform, call, run,
}

-- The promise: how many references are held, how often `open` of the worker task was called, what was
-- logged, and whether WMI has ended its call.
pub record Contract : Type 0 where
  pub holders : ℕ
  pub opens : ℕ
  pub classes : List (Option Text)
  pub is_complete : Bool

repeat : ℕ → Option Text → List (Option Text)
repeat zero name = []
repeat (suc n) name = name ∷ repeat n name

-- Every object is logged by the name of the first.
promise_objects : ℕ → List (Option Text) → Contract → Option Contract
unfolding repeat
promise_objects zero objects p = some p
promise_objects (suc n) [] p = none
promise_objects (suc n) (name ∷ objects) p =
    some (record p { opens = p.opens + suc n; classes = p.classes ++ repeat (suc n) name })

holds : InterfaceId → ℕ
holds iid_unknown = 1
holds iid_object_sink = 1
holds iid_other = 0

completes : StatusFlag → Bool → Bool
completes status_complete b = true
completes status_progress b = b
completes status_other b = b

unfoldable pub promise : Call → Contract → Option Contract
unfolding promise_objects holds completes
promise call_add_ref p = some (record p { holders = p.holders + 1 })
promise call_release p = some (record p { holders = p.holders - 1 })
promise (call_query id) p = some (record p { holders = p.holders + holds id })
promise (call_indicate count objects) p = promise_objects (pos_part count) objects p
promise (call_status flag) p = some (record p { is_complete = completes flag p.is_complete })

and_some : (Contract → Option Contract) → Option Contract → Option Contract
and_some f none = none
and_some f (some p) = f p

-- Nobody can call what nobody holds: `none`.
allowed : Call → Contract → Option Contract
unfolding promise
allowed c p = let next = promise c p in if p.holders == 0 then none else next

unfoldable pub promises : List Call → Contract → Option Contract
unfolding and_some allowed
promises [] p = some p
promises (c ∷ calls) p = and_some (promises calls) (allowed c p)

pub record Refines (s : EventSink) (p : Contract) : Type 0 where
  pub counted : s.reference_count ≡ p.holders
  pub deleted : s.is_deleted ≡ (p.holders == 0)
  pub opened : s.opens ≡ p.opens
  pub logged : s.classes ≡ p.classes
  pub progressed : s.is_in_progress ≡ not p.is_complete

-- both undefined, or both defined and related
abbrev pub Matches : Outcome EventSink → Option Contract → Type 0
Matches (ok s) (some p) = Refines s p
Matches fault none = Unit
Matches _ _ = ⊥
