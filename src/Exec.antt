-- ===== src/Exec.antt =====
-- Coroutines that mutate objects and may raise. What was written before a raise stays written, so
-- the state comes back beside the exception too. `E` is the type of exceptions. `stuck` is not
-- Python's: it marks a loop of the model that ran out of fuel, and no handler sees it.
pub mod Post
pub mod Keeps

pub data Result {ℓ κ} (E : Type κ) (A : Type ℓ) : Type (ℓ ⊔ κ) where
  ok : A → Result E A
  raise : E → Result E A
  stuck : Result E A

-- What a call of outside code ends with; it is never stuck.
pub data Reply {ℓ κ} (E : Type κ) (A : Type ℓ) : Type (ℓ ⊔ κ) where
  answer : A → Reply E A
  fault : E → Reply E A

abbrev pub outcome : {E A : Type 0} → Reply E A → Result E A
outcome (answer a) = ok a
outcome (fault e) = raise e

abbrev pub Exec : Type 0 → Type 0 → Type 0 → Type 0
Exec S E A = S → Result E A × S

module _ {S E : Type 0} where
  abbrev pub pure : {A : Type 0} → A → Exec S E A
  pure a s = (ok a, s)

  abbrev pub throw : {A : Type 0} → E → Exec S E A
  throw e s = (raise e, s)

  abbrev pub diverge : {A : Type 0} → Exec S E A
  diverge s = (stuck, s)

  abbrev pub gets : {A : Type 0} → (S → A) → Exec S E A
  gets f s = (ok (f s), s)

  abbrev pub modify : (S → S) → Exec S E (Unit {0})
  modify f s = (ok tt, f s)

  -- What follows an outcome.
  abbrev pub after : {A B : Type 0} → Result E A × S → (A → Exec S E B) → Result E B × S
  after (ok a, s) f = f a s
  after (raise e, s) f = (raise e, s)
  after (stuck, s) f = (stuck, s)

  -- `try: m except …: h`; the handler by clauses on the exception
  abbrev pub rescue : {A : Type 0} → Result E A × S → (E → Exec S E A) → Result E A × S
  rescue (ok a, s) h = (ok a, s)
  rescue (raise e, s) h = h e s
  rescue (stuck, s) h = (stuck, s)

  abbrev pub try_except : {A : Type 0} → Exec S E A → (E → Exec S E A) → Exec S E A
  try_except m h s = rescue (m s) h

infixl 5 ◌>>=◌ ◌>>◌
abbrev pub ◌>>=◌ : {S E A B : Type 0} → Exec S E A → (A → Exec S E B) → Exec S E B
◌>>=◌ m f s = after (m s) f

abbrev pub ◌>>◌ : {S E A B : Type 0} → Exec S E A → Exec S E B → Exec S E B
m >> k = m >>= λ _. k
