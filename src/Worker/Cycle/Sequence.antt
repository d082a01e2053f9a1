-- ===== src/Worker/Cycle/Sequence.antt =====
-- About src/allora_sdk/worker/worker.py: one submission with its bookkeeping, and the numbering of
-- nonces.
use allora_sdk_py.Prelude.{ℕ, ◌+◌, ◌≡◌, refl, Option, none, some, List, [], ◌∷◌, ◌++◌, arith}
use allora_sdk_py.Exec.{
  Result, ok, raise, stuck, Reply, answer, fault, outcome, ◌>>=◌, ◌>>◌, try_except,
}
use allora_sdk_py.Exec.Post.{Post, Triple-pure, Triple-bind, Triple-try}
use allora_sdk_py.Worker.Host.{
  Failure, Submission, already_submitted, tx_error, tx_timeout, unknown_error, submitted, Host,
  Setup, Worker, ask, log_failure,
}
use allora_sdk_py.Worker.Quiet.{
  stamped, asked_balance, IsQuiet, Holds, Keeps, ask-Keeps, log_failure-Keeps, log_balance-Keeps,
  maybe_faucet_request-Keeps,
}
use allora_sdk_py.Worker.Cycle.{
  mark, note, forget, publish, finally_publish, top_up, settle, submit,
}

module _ (h : Host) (I : h.World → Type 0) (quiet : IsQuiet h I) where
  mark-Keeps : (n : ℕ) → Keeps h I (mark {h = h} n)
  unfolding mark
  mark-Keeps n = record { at = λ s p. quiet s.world (h.stamp s.world).1 (stamped s.world) p }

  note-Keeps : (n : ℕ) (r : Option Submission) → Keeps h I (note {h = h} n r)
  unfolding note
  note-Keeps n none = Triple-pure tt (λ s p. p)
  note-Keeps n (some already_submitted) = mark-Keeps n
  note-Keeps n (some tx_error) = mark-Keeps n
  note-Keeps n (some tx_timeout) = Triple-pure tt (λ s p. p)
  note-Keeps n (some unknown_error) = mark-Keeps n
  note-Keeps n (some submitted) = mark-Keeps n

  world-publish : (r : Option Submission) (s : Worker h) → (publish r s).world ≡ s.world
  unfolding publish
  world-publish none s = refl
  world-publish (some r) s = ground arith

  wrapped : (r : Option Submission) (s : Worker h) → I s.world → I (publish r (forget s)).world
  unfolding forget
  wrapped r s p =
      rw (world-publish r (forget s)) (quiet s.world (h.stamp s.world).1 (stamped s.world) p)

  finally_publish-Post :
      (r : Option Submission) (x : Result Failure (Unit {0}) × Worker h)
      → Post ⊥ (λ _. Holds h I) (λ _. Holds h I) x
      → Post ⊥ (λ _. Holds h I) (λ _. Holds h I) (finally_publish r x)
  unfolding finally_publish
  finally_publish-Post r (ok a, s) p = wrapped r s p
  finally_publish-Post r (raise e, s) p = wrapped r s p
  finally_publish-Post r (stuck, s) p = p

  module _ (setup : Setup) where
    top_up-Keeps : (b : Option ℕ) → Keeps h I (top_up {h = h} setup b)
    unfolding top_up
    top_up-Keeps none = Triple-pure tt (λ s p. p)
    top_up-Keeps (some b) =
        Triple-bind (λ _. Holds h I) (log_balance-Keeps h I quiet)
          (λ _. maybe_faucet_request-Keeps h I quiet setup)

    body-Keeps :
        (n : ℕ) (r : Option Submission)
        → Keeps h I (try_except (note n r >> (ask h.balance >>= top_up {h = h} setup)) log_failure)
    body-Keeps n r =
        Triple-try (λ _. Holds h I)
          (Triple-bind (λ _. Holds h I) (note-Keeps n r)
            (λ _.
              Triple-bind (λ _. Holds h I) (ask-Keeps h I quiet h.balance asked_balance)
                top_up-Keeps))
          (log_failure-Keeps h I quiet)

    settle-Post :
        (n : ℕ) (x : Reply Failure (Option Submission)) (s : Worker h)
        → I s.world
        → Post ⊥ (λ _. Holds h I) (λ _. Holds h I) (settle setup n (outcome x, s))
    unfolding settle
    settle-Post n (answer r) s p = finally_publish-Post r _ ((body-Keeps n r).at s p)
    settle-Post n (fault e) s p =
        finally_publish-Post none _ ((log_failure-Keeps h I quiet e).at s p)

    -- What holds after the use case's call holds when the submission has ended.
    pub submit-Post :
        (n q : ℕ) (s : Worker h)
        → I (h.submit n q s.world).1
        → Post ⊥ (λ _. Holds h I) (λ _. Holds h I) (submit setup n q s)
    unfolding submit
    submit-Post n q s p =
        settle-Post n (h.submit n q s.world).0 (record s { world = (h.submit n q s.world).1 }) p

-- the nonces with their sequences: the i-th gets `q + i`
abbrev pub numbered : ℕ → List ℕ → List (ℕ × ℕ)
numbered q [] = []
numbered q (n ∷ l) = (n, q) ∷ numbered (q + 1) l

abbrev pub IsPrefix : List (ℕ × ℕ) → List (ℕ × ℕ) → Type 0
IsPrefix l m = (rest : List (ℕ × ℕ)) × (m ≡ l ++ rest)
