-- ===== src/Windows/Sink/Promise/Kept.antt =====
-- nt_service/eventsink.cpp: the sink does what it promises.
use license_checker.Prelude.{
  ℕ, zero, suc, ◌+◌, ◌-◌, ◌<◌, ◌==◌, ◌≡◌, refl, pos_part, Text, Option, none, some, List, [], ◌∷◌,
  ◌++◌, length, append_assoc, append-nil, sym, ap, subst, ◌∙◌, Outcome, ok, throws, fault, and_then,
  arith, Bool-cases, inl, inr,
}
use license_checker.Windows.Sink.Promise.{
  Contract, Refines, Matches, repeat, promise_objects, holds, completes, promise, and_some, allowed,
  promises,
}
use license_checker.Windows.Sink.{
  EventSink, InterfaceId, iid_unknown, iid_object_sink, iid_other, StatusFlag, status_complete,
  status_progress, status_other, Call, call_add_ref, call_release, call_query, call_indicate,
  call_status, increment, decrement, add_ref, delete_if, release, query_interface, indicate_one,
  indicate_loop, indicate, set_status, perform, call, run,
}

same_log :
    (s : EventSink) {m n : ℕ} {xs ys : List (Option Text)}
    → m ≡ n
    → xs ≡ ys
    → ok (record s { opens = m; classes = xs }) ≡ ok (record s { opens = n; classes = ys })
same_log s {m = m} {ys = ys} e h =
    ap (λ l. ok (record s { opens = m; classes = l })) h
    ∙ ap (λ r. ok (record s { opens = r; classes = ys })) e

indicate_loop-append :
    (n : ℕ) (name : Option Text) (objects : List (Option Text)) (s : EventSink)
    → indicate_loop n (name ∷ objects) s
      ≡ ok (record s { opens = s.opens + n; classes = s.classes ++ repeat n name })
unfolding indicate_loop indicate_one repeat
indicate_loop-append zero name objects s = same_log s (omega arith) (sym (append-nil s.classes))
indicate_loop-append (suc n) name objects s =
    indicate_loop-append n name objects
      (record s { opens = suc s.opens; classes = s.classes ++ name ∷ [] })
    ∙ same_log s (omega arith) (append_assoc s.classes (name ∷ []) (repeat n name))

indicate-Matches :
    (n : ℕ) (objects : List (Option Text)) (s : EventSink) (p : Contract)
    → Refines s p
    → Matches (indicate_loop n objects s) (promise_objects n objects p)
unfolding indicate_loop indicate_one promise_objects
indicate-Matches zero objects s p r = r
indicate-Matches (suc n) [] s p r = tt
indicate-Matches (suc n) (name ∷ objects) s p r =
    subst (λ o. Matches o (promise_objects (suc n) (name ∷ objects) p))
      (sym (indicate_loop-append (suc n) name objects s))
      (record {
        counted = r.counted;
        deleted = r.deleted;
        opened = ap (λ k. k + suc n) r.opened;
        logged = ap (λ l. l ++ repeat (suc n) name) r.logged;
        progressed = r.progressed;
      })

add_ref-Refines :
    (s : EventSink) (p : Contract)
    → 0 < p.holders
    → p.holders + 1 < 4294967296
    → Refines s p
    → Refines (add_ref s).1 (record p { holders = p.holders + 1 })
unfolding add_ref increment
add_ref-Refines s p held low r =
    let e = r.counted in
    let d = r.deleted in
    record {
      counted = ground arith;
      deleted = ground arith;
      opened = r.opened;
      logged = r.logged;
      progressed = r.progressed;
    }

release-Refines :
    (s : EventSink) (p : Contract)
    → 0 < p.holders
    → p.holders < 4294967296
    → Refines s p
    → Refines (release s).1 (record p { holders = p.holders - 1 })
unfolding release decrement delete_if
release-Refines s p held low r =
    let e = r.counted in
    let d = r.deleted in
    record {
      counted = ground arith;
      deleted = ground arith;
      opened = ground (arith, r.opened);
      logged = ground (arith, r.logged);
      progressed = ground (arith, r.progressed);
    }

query-Refines :
    (id : InterfaceId) (s : EventSink) (p : Contract)
    → 0 < p.holders
    → p.holders + 1 < 4294967296
    → Refines s p
    → Refines (query_interface id s).1 (record p { holders = p.holders + holds id })
unfolding query_interface holds
query-Refines iid_unknown s p held low r = add_ref-Refines s p held low r
query-Refines iid_object_sink s p held low r = add_ref-Refines s p held low r
query-Refines iid_other s p held low r =
    let d = r.deleted in
    record {
      counted = ground (arith, r.counted);
      deleted = ground arith;
      opened = r.opened;
      logged = r.logged;
      progressed = r.progressed;
    }

status-Refines :
    (flag : StatusFlag) (s : EventSink) (p : Contract)
    → Refines s p
    → Refines (set_status flag s) (record p { is_complete = completes flag p.is_complete })
unfolding set_status completes
status-Refines status_complete s p r = record {
  counted = r.counted;
  deleted = r.deleted;
  opened = r.opened;
  logged = r.logged;
  progressed = refl;
}
status-Refines status_progress s p r = r
status-Refines status_other s p r = r

perform-Matches :
    (c : Call) (s : EventSink) (p : Contract)
    → 0 < p.holders
    → p.holders + 1 < 4294967296
    → Refines s p
    → Matches (perform c s) (promise c p)
unfolding perform promise indicate
perform-Matches call_add_ref s p held low r = add_ref-Refines s p held low r
perform-Matches call_release s p held low r = release-Refines s p held (omega arith) r
perform-Matches (call_query id) s p held low r = query-Refines id s p held low r
perform-Matches (call_indicate count objects) s p held low r =
    indicate-Matches (pos_part count) objects s p r
perform-Matches (call_status flag) s p held low r = status-Refines flag s p r

-- at most one reference more than before
AtMost : ℕ → Option Contract → Type 0
AtMost n none = Unit
AtMost n (some p) = p.holders < n + 2

promise-AtMost : (c : Call) (p : Contract) → AtMost p.holders (promise c p)
unfolding AtMost promise promise_objects holds
promise-AtMost call_add_ref p = omega arith
promise-AtMost call_release p = omega arith
promise-AtMost (call_query iid_unknown) p = omega arith
promise-AtMost (call_query iid_object_sink) p = omega arith
promise-AtMost (call_query iid_other) p = omega arith
promise-AtMost (call_indicate count objects) p = objects-AtMost (pos_part count) objects
  where
    objects-AtMost :
        (n : ℕ) (objects : List (Option Text)) → AtMost p.holders (promise_objects n objects p)
    objects-AtMost zero objects = omega arith
    objects-AtMost (suc n) [] = tt
    objects-AtMost (suc n) (name ∷ objects) = omega arith
promise-AtMost (call_status flag) p = omega arith

-- what follows a call, where the next calls keep the promise
next-Matches :
    (calls : List Call) (n : ℕ)
    → ((s : EventSink) (p : Contract)
        → Refines s p
        → p.holders < n + 2
        → Matches (run calls s) (promises calls p))
    → (o : Outcome EventSink) (q : Option Contract) → Matches o q
    → AtMost n q
    → Matches (and_then (run calls) o) (and_some (promises calls) q)
unfolding and_some AtMost
next-Matches calls n keep (ok s) (some p) r low = keep s p r low
next-Matches calls n keep fault none r low = tt
next-Matches calls n keep (ok s) none r low = elim r [ ]
next-Matches calls n keep (throws e) none r low = elim r [ ]
next-Matches calls n keep (throws e) (some p) r low = elim r [ ]
next-Matches calls n keep fault (some p) r low = elim r [ ]

call-Matches :
    (c : Call) (s : EventSink) (p : Contract)
    → p.holders + 1 < 4294967296
    → Refines s p
    → Matches (call c s) (allowed c p) × AtMost p.holders (allowed c p)
unfolding call allowed AtMost
call-Matches c s p low r = elim (Bool-cases (p.holders == 0)) [
  | inl unheld ↦ rw (r.deleted ∙ unheld, unheld) (tt, tt)
  | inr held ↦
      simp (r.deleted ∙ held, held) (perform-Matches c s p (ground arith) low r, promise-AtMost c p)
]

-- From a sink that is as promised, and as long as fewer than 2^32 references can be held, a sink does in every sequence of calls what it
-- promises: it is deleted exactly if no reference is held any more, it is used after that exactly if
-- somebody calls what nobody holds, `open` of the worker task is called once for each object that it is
-- told of, each object is logged by the name of the first one, and the call of WMI counts as ended from its last status on.
pub run-Refines :
    (calls : List Call) (s : EventSink) (p : Contract)
    → Refines s p
    → p.holders + length calls < 4294967296
    → Matches (run calls s) (promises calls p)
unfolding run promises
run-Refines [] s p r low = r
run-Refines (c ∷ calls) s p r low =
    let (matched, bounded) = call-Matches c s p (omega arith) r in
    next-Matches calls p.holders (λ t q h k. run-Refines calls t q h (omega arith)) (call c s)
      (allowed c p) matched bounded
