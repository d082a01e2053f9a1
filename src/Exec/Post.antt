-- ===== src/Exec/Post.antt =====
-- What holds after an action: `Q` of its result and state, or `X` of what it raised and the state.
-- `Z` is what is said of an action that is stuck: `⊥` for total correctness, `Unit` for partial.
-- `Triple Z P X Q m` adds a precondition, and has a rule for each way to build an action.
use allora_sdk_py.Prelude.{Bool, true, false, if◌then◌else◌}
use allora_sdk_py.Exec.{
  Result, ok, raise, stuck, Exec, pure, throw, after, rescue, try_except, ◌>>=◌,
}

module _ {S E : Type 0} where
  abbrev pub Post :
      {A : Type 0} → Type 0 → (E → S → Type 0) → (A → S → Type 0) → Result E A × S → Type 0
  Post Z X Q (ok a, s) = Q a s
  Post Z X Q (raise e, s) = X e s
  Post Z X Q (stuck, s) = Z

  pub Post-after :
      {A B : Type 0} (Z : Type 0) (X : E → S → Type 0) (R : A → S → Type 0) (Q : B → S → Type 0)
      (f : A → Exec S E B) (r : Result E A × S)
      → Post Z X R r
      → ((a : A) (s : S) → R a s → Post Z X Q (f a s))
      → Post Z X Q (after r f)
  Post-after Z X R Q f (ok a, s) h k = k a s h
  Post-after Z X R Q f (raise e, s) h k = h
  Post-after Z X R Q f (stuck, s) h k = h

  Post-rescue :
      {A : Type 0} (Z : Type 0) (Y X : E → S → Type 0) (Q : A → S → Type 0) (h : E → Exec S E A)
      (r : Result E A × S)
      → Post Z Y Q r
      → ((e : E) (s : S) → Y e s → Post Z X Q (h e s))
      → Post Z X Q (rescue r h)
  Post-rescue Z Y X Q h (ok a, s) p k = p
  Post-rescue Z Y X Q h (raise e, s) p k = k e s p
  Post-rescue Z Y X Q h (stuck, s) p k = p

  pub Post-weaken :
      {A : Type 0} (Z : Type 0) (Y X : E → S → Type 0) (R Q : A → S → Type 0) (r : Result E A × S)
      → Post Z Y R r
      → ((e : E) (s : S) → Y e s → X e s)
      → ((a : A) (s : S) → R a s → Q a s)
      → Post Z X Q r
  Post-weaken Z Y X R Q (ok a, s) p f g = g a s p
  Post-weaken Z Y X R Q (raise e, s) p f g = f e s p
  Post-weaken Z Y X R Q (stuck, s) p f g = p

  pub record Triple {A : Type 0} (Z : Type 0) (P : S → Type 0) (X : E → S → Type 0)
      (Q : A → S → Type 0) (m : Exec S E A) : Type 0 where
    pub at : (s : S) → P s → Post Z X Q (m s)

  module _ {A : Type 0} {Z : Type 0} {P : S → Type 0} {X : E → S → Type 0} where
    pub Triple-pure :
        {Q : A → S → Type 0} (a : A) → ((s : S) → P s → Q a s) → Triple Z P X Q (pure a)
    Triple-pure a h = record { at = h }

    pub Triple-throw :
        {Q : A → S → Type 0} (e : E) → ((s : S) → P s → X e s) → Triple Z P X Q (throw e)
    Triple-throw e h = record { at = h }

    pub Triple-if :
        {Q : A → S → Type 0} (b : Bool) {m n : Exec S E A}
        → Triple Z P X Q m
        → Triple Z P X Q n
        → Triple Z P X Q (if b then m else n)
    Triple-if true h k = h
    Triple-if false h k = k

    pub Triple-bind :
        {B : Type 0} (R : A → S → Type 0) {Q : B → S → Type 0} {m : Exec S E A} {f : A → Exec S E B}
        → Triple Z P X R m
        → ((a : A) → Triple Z (R a) X Q (f a))
        → Triple Z P X Q (m >>= f)
    Triple-bind R {Q} {m} {f} h k = record {
      at = λ s p. Post-after Z X R Q f (m s) (h.at s p) (λ a t r. (k a).at t r);
    }

    pub Triple-try :
        (Y : E → S → Type 0) {Q : A → S → Type 0} {m : Exec S E A} {h : E → Exec S E A}
        → Triple Z P Y Q m
        → ((e : E) → Triple Z (Y e) X Q (h e))
        → Triple Z P X Q (try_except m h)
    Triple-try Y {Q} {m} {h} p k = record {
      at = λ s q. Post-rescue Z Y X Q h (m s) (p.at s q) (λ e t r. (k e).at t r);
    }

    pub Triple-weaken :
        {P' : S → Type 0} {Y : E → S → Type 0} {R Q : A → S → Type 0} {m : Exec S E A}
        → Triple Z P' Y R m
        → ((s : S) → P s → P' s)
        → ((e : E) (s : S) → Y e s → X e s)
        → ((a : A) (s : S) → R a s → Q a s)
        → Triple Z P X Q m
    Triple-weaken {P'} {Y} {R} {Q} {m} h f g k = record {
      at = λ s p. Post-weaken Z Y X R Q (m s) (h.at s (f s p)) g k;
    }

module _ {S E A : Type 0} where
  pub Post-and :
      (W : Type 0) (X Y : E → S → Type 0) (Q R : A → S → Type 0) (r : Result E A × S)
      → Post W X Q r
      → Post W Y R r
      → Post W (λ e s. X e s × Y e s) (λ a s. Q a s × R a s) r
  Post-and W X Y Q R (ok a, s) p q = (p, q)
  Post-and W X Y Q R (raise e, s) p q = (p, q)
  Post-and W X Y Q R (stuck, s) p q = p

module _ {S E A : Type 0} {Z : Type 0} where
  -- Two triples of one action, from both preconditions.
  pub Triple-and :
      {P P' : S → Type 0} {X Y : E → S → Type 0} {Q R : A → S → Type 0} {m : Exec S E A}
      → Triple Z P X Q m
      → Triple Z P' Y R m
      → Triple Z (λ s. P s × P' s) (λ e s. X e s × Y e s) (λ a s. Q a s × R a s) m
  Triple-and {P} {P'} {X} {Y} {Q} {R} {m} h k = record {
    at = λ s p. Post-and Z X Y Q R (m s) (h.at s p.0) (k.at s p.1);
  }

module _ {S E A : Type 0} where
  Post-trivial :
      (r : Result E A × S) → Post Unit (λ (_ : E) (_ : S). Unit {0}) (λ (_ : A) (_ : S). Unit {0}) r
  Post-trivial (ok a, s) = tt
  Post-trivial (raise e, s) = tt
  Post-trivial (stuck, s) = tt

  pub Triple-trivial :
      {P : S → Type 0} (m : Exec S E A) → Triple Unit P (λ _ _. Unit) (λ _ _. Unit) m
  Triple-trivial m = record { at = λ s p. Post-trivial (m s) }
