-- ===== src/Worker/Quiet.antt =====
-- About src/allora_sdk/worker/worker.py: what the calls that are no submission leave alone. A
-- predicate is quiet if every call but `submit` keeps it.
use allora_sdk_py.Prelude.{ℕ, zero, suc, true, false, ◌&&◌, Option, none, some, leb, ◌==◌}
use allora_sdk_py.Exec.{Reply, answer, fault, outcome, pure, ◌>>◌}
use allora_sdk_py.Exec.Post.{
  Post, Triple, Triple-pure, Triple-throw, Triple-if, Triple-bind, Triple-try,
}
use allora_sdk_py.Worker.Host.{
  Failure, cancelled, system_exit, timeout_error, worker_not_whitelisted, http_error, failed, Host,
  Setup, Worker, W, ask, stop, log_failure,
}
use allora_sdk_py.Worker.Faucet.{
  max_faucet_retries, max_balance_polls, min_allo, is_funded, log_balance, poll_balance,
  on_faucet_error, request_faucet, faucet_attempts, fund, maybe_faucet_request,
}

-- every call but `submit`
pub data Asks (h : Host) : h.World → h.World → Type 0 where
  stamped : (w : h.World) → Asks h w (h.stamp w).1
  slept : (d : ℕ) (w : h.World) → Asks h w (h.sleep d w).1
  locked : (w : h.World) → Asks h w (h.acquire_lock w).1
  asked_balance : (w : h.World) → Asks h w (h.balance w).1
  asked_account : (w : h.World) → Asks h w (h.account_info w).1
  requested_funds : (w : h.World) → Asks h w (h.request_funds w).1
  asked_whitelist : (w : h.World) → Asks h w (h.worker_is_whitelisted w).1
  asked_nonces : (w : h.World) → Asks h w (h.get_unfulfilled_nonces w).1

abbrev pub IsQuiet : (h : Host) → (h.World → Type 0) → Type 0
IsQuiet h I = (w w' : h.World) → Asks h w w' → I w → I w'

module _ (h : Host) (I : h.World → Type 0) where
  abbrev pub Holds : Worker h → Type 0
  Holds s = I s.world

  -- it ends, and keeps the predicate also where it raises
  abbrev pub Keeps : {A : Type 0} → W h A → Type 0
  Keeps m = Triple ⊥ Holds (λ _. Holds) (λ _. Holds) m

module _ (h : Host) (I : h.World → Type 0) (quiet : IsQuiet h I) where
  outcome-Post :
      {A : Type 0} (r : Reply Failure A) (s : Worker h)
      → I s.world
      → Post ⊥ (λ _. Holds h I) (λ _. Holds h I) (outcome r, s)
  outcome-Post (answer a) s p = p
  outcome-Post (fault e) s p = p

  pub ask-Keeps :
      {A : Type 0} (f : h.World → Reply Failure A × h.World)
      → ((w : h.World) → Asks h w (f w).1)
      → Keeps h I (ask f)
  ask-Keeps f asks = record {
    at = λ s p.
        outcome-Post (f s.world).0 (record s { world = (f s.world).1 })
          (quiet s.world (f s.world).1 (asks s.world) p);
  }

  pub stop-Keeps : Keeps h I (stop {h = h})
  unfolding stop
  stop-Keeps = record { at = λ s p. p }

  pub log_failure-Keeps : (e : Failure) → Keeps h I (log_failure {h = h} e)
  unfolding log_failure
  log_failure-Keeps e = Triple-if _ (Triple-pure tt (λ s p. p)) (Triple-throw e (λ s p. p))

  then_pure-Keeps : {A B : Type 0} (m : W h A) (b : B) → Keeps h I m → Keeps h I (m >> pure b)
  then_pure-Keeps m b k = Triple-bind (λ _. Holds h I) k (λ _. Triple-pure b (λ s p. p))

  pub log_balance-Keeps : Keeps h I (log_balance {h = h})
  unfolding log_balance
  log_balance-Keeps = then_pure-Keeps (ask h.balance) tt (ask-Keeps h.balance asked_balance)

  poll_balance-Keeps : (n : ℕ) → Keeps h I (poll_balance {h = h} n)
  unfolding poll_balance
  poll_balance-Keeps zero = Triple-pure false (λ s p. p)
  poll_balance-Keeps (suc n) =
      let rest = poll_balance-Keeps n in
      Triple-bind (λ _. Holds h I) (ask-Keeps (h.sleep 5) (slept 5))
        (λ _.
          Triple-bind (λ _. Holds h I) (ask-Keeps h.balance asked_balance)
            (λ b. Triple-if (is_funded b) (Triple-pure true (λ s p. p)) rest))

  on_faucet_error-Keeps : (e : Failure) → Keeps h I (on_faucet_error {h = h} e)
  unfolding on_faucet_error
  on_faucet_error-Keeps cancelled = then_pure-Keeps _ false (log_failure-Keeps cancelled)
  on_faucet_error-Keeps system_exit = then_pure-Keeps _ false (log_failure-Keeps system_exit)
  on_faucet_error-Keeps timeout_error = then_pure-Keeps _ false (log_failure-Keeps timeout_error)
  on_faucet_error-Keeps worker_not_whitelisted =
      then_pure-Keeps _ false (log_failure-Keeps worker_not_whitelisted)
  on_faucet_error-Keeps (http_error none) =
      then_pure-Keeps _ false (log_failure-Keeps (http_error none))
  on_faucet_error-Keeps (http_error (some status)) =
      Triple-if (status == 429)
        (Triple-bind (λ _. Holds h I) stop-Keeps (λ _. Triple-throw system_exit (λ s p. p)))
        (Triple-pure false (λ s p. p))
  on_faucet_error-Keeps failed = then_pure-Keeps _ false (log_failure-Keeps failed)

  request_faucet-Keeps : Keeps h I (request_faucet {h = h})
  unfolding request_faucet
  request_faucet-Keeps =
      Triple-try (λ _. Holds h I)
        (Triple-bind (λ _. Holds h I) (ask-Keeps h.request_funds requested_funds)
          (λ _. poll_balance-Keeps max_balance_polls))
        on_faucet_error-Keeps

  faucet_attempts-Keeps : (n : ℕ) → Keeps h I (faucet_attempts {h = h} n)
  unfolding faucet_attempts
  faucet_attempts-Keeps zero = Triple-throw failed (λ s p. p)
  faucet_attempts-Keeps (suc n) =
      let rest = faucet_attempts-Keeps n in
      Triple-bind (λ _. Holds h I) request_faucet-Keeps
        (λ b.
          Triple-if b (Triple-pure tt (λ s p. p))
            (Triple-bind (λ _. Holds h I) (ask-Keeps (h.sleep 15) (slept 15)) (λ _. rest)))

  fund-Keeps : (b : Option ℕ) → Keeps h I (fund {h = h} b)
  unfolding fund
  fund-Keeps none = Triple-throw failed (λ s p. p)
  fund-Keeps (some b) =
      Triple-if (leb min_allo b) (Triple-pure tt (λ s p. p))
        (faucet_attempts-Keeps max_faucet_retries)

  pub maybe_faucet_request-Keeps : (setup : Setup) → Keeps h I (maybe_faucet_request {h = h} setup)
  unfolding maybe_faucet_request
  maybe_faucet_request-Keeps setup =
      Triple-if (setup.is_testnet && setup.has_faucet)
        (Triple-bind (λ _. Holds h I) (ask-Keeps h.balance asked_balance) fund-Keeps)
        (Triple-pure tt (λ s p. p))
