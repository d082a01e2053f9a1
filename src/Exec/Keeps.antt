-- ===== src/Exec/Keeps.antt =====
-- Predicates of the state that an action keeps, however it ends: with a result, an exception, or out
-- of fuel. There is a rule for each way to build an action.
use allora_sdk_py.Prelude.{Bool, true, false, if◌then◌else◌}
use allora_sdk_py.Exec.{Result, ok, raise, stuck, Exec, after, rescue, try_except, ◌>>=◌, ◌>>◌}

pub record Keeps {S E A : Type 0} (I : S → Type 0) (m : Exec S E A) : Type 0 where
  pub at : (s : S) → I s → I (m s).1

module _ {S E : Type 0} {I : S → Type 0} where
  after-keeps :
      {A B : Type 0} (f : A → Exec S E B) (r : Result E A × S)
      → I r.1
      → ((a : A) → Keeps I (f a))
      → I (after r f).1
  after-keeps f (ok a, s) p k = (k a).at s p
  after-keeps f (raise e, s) p k = p
  after-keeps f (stuck, s) p k = p

  rescue-keeps :
      {A : Type 0} (f : E → Exec S E A) (r : Result E A × S)
      → I r.1
      → ((e : E) → Keeps I (f e))
      → I (rescue r f).1
  rescue-keeps f (ok a, s) p k = p
  rescue-keeps f (raise e, s) p k = (k e).at s p
  rescue-keeps f (stuck, s) p k = p

  pub Keeps-bind :
      {A B : Type 0} {m : Exec S E A} {f : A → Exec S E B}
      → Keeps I m
      → ((a : A) → Keeps I (f a))
      → Keeps I (m >>= f)
  Keeps-bind {m = m} {f} h k = record { at = λ s p. after-keeps f (m s) (h.at s p) k }

  pub Keeps-then :
      {A B : Type 0} {m : Exec S E A} {n : Exec S E B} → Keeps I m → Keeps I n → Keeps I (m >> n)
  Keeps-then h k = Keeps-bind h (λ _. k)

  pub Keeps-try :
      {A : Type 0} {m : Exec S E A} {f : E → Exec S E A}
      → Keeps I m
      → ((e : E) → Keeps I (f e))
      → Keeps I (try_except m f)
  Keeps-try {m = m} {f} h k = record { at = λ s p. rescue-keeps f (m s) (h.at s p) k }

  pub Keeps-if :
      {A : Type 0} (b : Bool) {m n : Exec S E A}
      → Keeps I m
      → Keeps I n
      → Keeps I (if b then m else n)
  Keeps-if true h k = h
  Keeps-if false h k = k

  -- an action that leaves the state, or changes it in a way that the predicate does not see
  pub Keeps-same : {A : Type 0} {m : Exec S E A} → ((s : S) → I s → I (m s).1) → Keeps I m
  Keeps-same h = record { at = h }
