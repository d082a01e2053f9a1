-- ===== src/Worker/Polling.antt =====
-- src/allora_sdk/worker/worker.py: how often a worker polls, `_derive_polling_interval`. The topic's
-- answer comes as an argument: its submission window in blocks, if the response has a topic.
use allora_sdk_py.Prelude.{
  ℕ, ◌≤◌, ◌≡◌, sym, subst, min, max, Bool, true, false, Option, none, some, arith, ◌==◌,
  if◌then◌else◌, get_or, Bool-cases, inl, inr,
}
use allora_sdk_py.Exec.{Reply, answer, fault}
use allora_sdk_py.Tx.Float.{Float}
use allora_sdk_py.Worker.Host.{Failure, is_exception}

abbrev pub default_polling_interval_secs : ℕ
default_polling_interval_secs = 120

abbrev pub polls_per_window : ℕ
polls_per_window = 3

abbrev pub min_polling_interval_secs : ℕ
min_polling_interval_secs = 5

pub record Polling : Type 0 where
  pub explicit_polling_interval : Option ℕ
  pub polling_interval : ℕ
  pub polling_interval_derived : Bool

-- `__init__`
unfoldable pub new_polling : Option ℕ → Polling
new_polling explicit = record {
  explicit_polling_interval = explicit;
  polling_interval = get_or explicit default_polling_interval_secs;
  polling_interval_derived = false;
}

-- what an interval has to be: the explicit one, or between the least and the default
abbrev pub IsSound : Option ℕ → Polling → Type 0
IsSound none p =
    (p.explicit_polling_interval ≡ none)
    × ((min_polling_interval_secs ≤ p.polling_interval)
        × (p.polling_interval ≤ default_polling_interval_secs))
IsSound (some n) p = (p.explicit_polling_interval ≡ some n) × (p.polling_interval ≡ n)

abbrev pub Answers : (Polling → Type 0) → Reply Failure Polling → Type 0
Answers P (answer p) = P p
Answers P (fault e) = is_exception e ≡ false

module _ (float : Float) (block_duration_secs : float.F) where
  -- `int(window_blocks * block_duration_secs / POLLS_PER_WINDOW)`
  unfoldable pub slice_secs : ℕ → ℕ
  slice_secs window_blocks = float.trunc (
      float.divide (float.times (float.of_int window_blocks) block_duration_secs)
        (float.of_int polls_per_window))

  unfoldable pub clamped : ℕ → ℕ
  unfolding slice_secs
  clamped window_blocks =
      max min_polling_interval_secs (min (slice_secs window_blocks) default_polling_interval_secs)

  -- `worker_submission_window or 0`, of a topic that may be missing
  unfoldable pub from_window : Polling → ℕ → Polling
  unfolding clamped
  from_window p window_blocks =
      if window_blocks == 0
      then p
      else record p { polling_interval = clamped window_blocks; polling_interval_derived = true }

  unfoldable pub derive : Polling → Option ℕ → ℕ → Polling
  unfolding from_window
  derive p none window_blocks = from_window p window_blocks
  derive p (some explicit) window_blocks = record p { polling_interval_derived = true }

  -- `_derive_polling_interval`; a `fault` is an exception that is no `Exception`
  unfoldable pub derive_polling_interval :
      Reply Failure (Option ℕ) → Polling → Reply Failure Polling
  unfolding derive is_exception
  derive_polling_interval (answer topic) p =
      answer (derive p p.explicit_polling_interval (get_or topic 0))
  derive_polling_interval (fault e) p =
      if is_exception e then answer (derive p p.explicit_polling_interval 0) else fault e

  derive-IsSound :
      (explicit : Option ℕ) (p : Polling) (window_blocks : ℕ)
      → IsSound explicit p
      → IsSound explicit (derive p explicit window_blocks)
  unfolding derive
  derive-IsSound none p w h = ground arith
  derive-IsSound (some n) p w h = h

  sound-explicit :
      (explicit : Option ℕ) (p : Polling)
      → IsSound explicit p
      → p.explicit_polling_interval ≡ explicit
  sound-explicit none p h = h.0
  sound-explicit (some n) p h = h.0

  -- Whatever the topic query answers, an interval that is the explicit one, or lies between 5 and
  -- 120 seconds where none was given, stays so; and only what is no `Exception` is raised.
  pub derive_polling_interval-IsSound :
      (topic : Reply Failure (Option ℕ)) (explicit : Option ℕ) (p : Polling)
      → IsSound explicit p
      → Answers (IsSound explicit) (derive_polling_interval topic p)
  unfolding derive_polling_interval
  derive_polling_interval-IsSound (answer topic) explicit p h =
      subst (λ x. IsSound explicit (derive p x (get_or topic 0)))
        (sym (sound-explicit explicit p h)) (derive-IsSound explicit p (get_or topic 0) h)
  derive_polling_interval-IsSound (fault e) explicit p h = elim (Bool-cases (is_exception e)) [
    | inl caught ↦ rw caught (
        subst (λ x. IsSound explicit (derive p x 0)) (sym (sound-explicit explicit p h))
          (derive-IsSound explicit p 0 h))
    | inr fatal ↦ rw fatal fatal
  ]
