-- ===== src/Prelude/Frames.antt =====
-- Actions that leave a part of the state alone, whether they return or throw; one rule for each way
-- to build an action.
use license_checker.Prelude.Actions.{
  Action, Exception, Outcome, ok, throws, fault, continue, catch, ◌>>=◌,
}
use license_checker.Prelude.Tests.{if◌then◌else◌}
use mathlib.Core.Bool.{Bool, true, false}
use mathlib.Core.Path.{◌≡◌, refl, sym, subst, ◌∙◌}

-- `f` is the part of the state that `m` leaves alone.
pub record Leaves {S A X : Type 0} (f : S → X) (m : Action S A) : Type 0 where
  pub at : (s : S) → f (m s).1 ≡ f s

module _ {S A X : Type 0} {f : S → X} where
  -- any action whose state does not change, a `throw` or a `lift` too
  pub Leaves-same : (m : Action S A) → ((s : S) → (m s).1 ≡ s) → Leaves f m
  Leaves-same m h = record { at = λ s i. f (h s i) }

  pub Leaves-if :
      (b : Bool) (m n : Action S A) → Leaves f m → Leaves f n → Leaves f (if b then m else n)
  Leaves-if true m n hm hn = hm
  Leaves-if false m n hm hn = hn

module _ {S A B X : Type 0} {f : S → X} where
  Leaves-continue :
      (g : A → Action S B) (r : Outcome A) (s : S)
      → ((a : A) → Leaves f (g a))
      → f (continue g r s).1 ≡ f s
  Leaves-continue g (ok a) s h = (h a).at s
  Leaves-continue g (throws e) s h = refl
  Leaves-continue g fault s h = refl

  pub Leaves-bind :
      (m : Action S A) (g : A → Action S B)
      → Leaves f m
      → ((a : A) → Leaves f (g a))
      → Leaves f (m >>= g)
  Leaves-bind m g hm hg = record { at = λ s. Leaves-continue g (m s).0 (m s).1 hg ∙ hm.at s }

-- What an action ends in: `Q` relates its outcome to the state it leaves.
abbrev pub Ends : {S A : Type 0} → (Outcome A → S → Type 0) → Outcome A × S → Type 0
Ends Q x = Q x.0 x.1

module _ {S A B X : Type 0} {f : S → X} (Q : Outcome B → S → Type 0) (x : X) where
  Ends-continue :
      (g : A → Action S B) (r : Outcome A) (s : S)
      → f s ≡ x
      → ((e : Exception) (t : S) → f t ≡ x → Q (throws e) t)
      → ((t : S) → f t ≡ x → Q fault t)
      → ((a : A) (t : S) → f t ≡ x → Ends Q (g a t))
      → Ends Q (continue g r s)
  Ends-continue g (ok a) s k ht hf hg = hg a s k
  Ends-continue g (throws e) s k ht hf hg = ht e s k
  Ends-continue g fault s k ht hf hg = hf s k

  -- After an action that leaves `f` alone, what follows starts with the same `f`.
  pub Ends-bind :
      (m : Action S A) (g : A → Action S B) (s : S)
      → Leaves f m
      → f s ≡ x
      → ((e : Exception) (t : S) → f t ≡ x → Q (throws e) t)
      → ((t : S) → f t ≡ x → Q fault t)
      → ((a : A) (t : S) → f t ≡ x → Ends Q (g a t))
      → Ends Q ((m >>= g) s)
  Ends-bind m g s l k = Ends-continue g (m s).0 (m s).1 (l.at s ∙ k)

module _ {S A B : Type 0} (R : Outcome A → S → Type 0) (Q : Outcome B → S → Type 0) where
  continue-Ends :
      (g : A → Action S B) (r : Outcome A) (s : S)
      → R r s
      → ((e : Exception) (t : S) → R (throws e) t → Q (throws e) t)
      → ((t : S) → R fault t → Q fault t)
      → ((a : A) (t : S) → R (ok a) t → Ends Q (g a t))
      → Ends Q (continue g r s)
  continue-Ends g (ok a) s k ht hf hg = hg a s k
  continue-Ends g (throws e) s k ht hf hg = ht e s k
  continue-Ends g fault s k ht hf hg = hf s k

  -- What follows an action may use what the action ends in.
  pub Ends-then :
      (m : Action S A) (g : A → Action S B) (s : S)
      → Ends R (m s)
      → ((e : Exception) (t : S) → R (throws e) t → Q (throws e) t)
      → ((t : S) → R fault t → Q fault t)
      → ((a : A) (t : S) → R (ok a) t → Ends Q (g a t))
      → Ends Q ((m >>= g) s)
  Ends-then m g s = continue-Ends g (m s).0 (m s).1

module _ {S A : Type 0} (Q : Outcome A → S → Type 0) where
  pub Ends-if :
      (b : Bool) (m n : Action S A) (s : S)
      → (b ≡ true → Ends Q (m s))
      → (b ≡ false → Ends Q (n s))
      → Ends Q ((if b then m else n) s)
  Ends-if true m n s hm hn = hm refl
  Ends-if false m n s hm hn = hn refl

module _ {S A B X : Type 0} {f : S → X} where
  -- what is left of `f` after `m`, where what follows leaves it alone
  Leaves_after :
      (P : X → Type 0) (g : A → Action S B) (r : Outcome A) (s : S)
      → ((a : A) → Leaves f (g a))
      → P (f s)
      → P (f (continue g r s).1)
  Leaves_after P g (ok a) s h p = subst P (sym ((h a).at s)) p
  Leaves_after P g (throws e) s h p = p
  Leaves_after P g fault s h p = p

  pub Leaves-then :
      (P : X → Type 0) (m : Action S A) (g : A → Action S B) (s : S)
      → ((a : A) → Leaves f (g a))
      → P (f (m s).1)
      → P (f ((m >>= g) s).1)
  Leaves-then P m g s = Leaves_after P g (m s).0 (m s).1

  Keeps-continue :
      (P : X → Type 0) (x : X) (m : Action S A) (g : A → Action S B) (s : S) (r : Outcome A) (t : S)
      → m s ≡ (r, t)
      → f t ≡ x
      → P x
      → ((a : A) (u : S) → f u ≡ x → m s ≡ (ok a, u) → P (f (g a u).1))
      → P (f (continue g r t).1)
  Keeps-continue P x m g s (ok a) t e k p h = h a t k e
  Keeps-continue P x m g s (throws z) t e k p h = subst P (sym k) p
  Keeps-continue P x m g s fault t e k p h = subst P (sym k) p

  -- After an action that leaves `f` alone, what follows may use what the action returned.
  pub Keeps-bind :
      (P : X → Type 0) (x : X) (m : Action S A) (g : A → Action S B) (s : S)
      → Leaves f m
      → f s ≡ x
      → P x
      → ((a : A) (u : S) → f u ≡ x → m s ≡ (ok a, u) → P (f (g a u).1))
      → P (f ((m >>= g) s).1)
  Keeps-bind P x m g s l k = Keeps-continue P x m g s (m s).0 (m s).1 refl (l.at s ∙ k)

module _ {S A X : Type 0} {f : S → X} where
  Leaves_handle :
      (P : X → Type 0) (h : Exception → Action S A) (r : Outcome A) (s : S)
      → ((e : Exception) → Leaves f (h e))
      → P (f s)
      → P (f (catch (λ _. (r, s)) h s).1)
  Leaves_handle P h (ok a) s l p = p
  Leaves_handle P h (throws e) s l p = subst P (sym ((l e).at s)) p
  Leaves_handle P h fault s l p = p

  -- what is left of `f` after a `try` block whose `catch` clauses leave it alone
  pub Leaves-catch :
      (P : X → Type 0) (m : Action S A) (h : Exception → Action S A) (s : S)
      → ((e : Exception) → Leaves f (h e))
      → P (f (m s).1)
      → P (f (catch m h s).1)
  Leaves-catch P m h s = Leaves_handle P h (m s).0 (m s).1
