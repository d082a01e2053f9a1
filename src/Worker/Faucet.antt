-- ===== src/Worker/Faucet.antt =====
-- src/allora_sdk/worker/worker.py: the balance that a worker logs, and the funds that it asks of
-- the testnet's faucet. The worker is initialised. Both loops count, so they recurse on the rounds
-- that are left.
use allora_sdk_py.Prelude.{
  ℕ, zero, suc, Bool, true, false, ◌&&◌, Option, none, some, leb, ◌==◌, if◌then◌else◌,
}
use allora_sdk_py.Exec.{pure, throw, try_except, ◌>>=◌, ◌>>◌}
use allora_sdk_py.Worker.Host.{
  Failure, system_exit, http_error, failed, Host, Setup, W, ask, stop, log_failure,
}

abbrev pub min_allo : ℕ
min_allo = 100000000

abbrev pub max_faucet_retries : ℕ
max_faucet_retries = 5

abbrev pub max_balance_polls : ℕ
max_balance_polls = 12

unfoldable pub is_funded : Option ℕ → Bool
is_funded none = false
is_funded (some balance) = leb min_allo balance

module _ {h : Host} where
  -- `_log_balance`; it only logs what it reads
  unfoldable pub log_balance : W h (Unit {0})
  log_balance = ask h.balance >> pure tt

  -- the polls after a request: whether the balance came
  unfoldable pub poll_balance : ℕ → W h Bool
  unfolding is_funded
  poll_balance zero = pure false
  poll_balance (suc left) =
      let rest : W h Bool = poll_balance left in
      do ask (h.sleep 5); balance ← ask h.balance; if is_funded balance then pure true else rest

  -- the `except` clauses of a request
  unfoldable pub on_faucet_error : Failure → W h Bool
  unfolding stop log_failure
  on_faucet_error (http_error (some status)) =
      if status == 429 then stop >> throw system_exit else pure false
  on_faucet_error e = log_failure e >> pure false

  unfoldable pub request_faucet : W h Bool
  unfolding poll_balance on_faucet_error
  request_faucet =
      try_except (ask h.request_funds >> poll_balance max_balance_polls) on_faucet_error

  -- the loop over the requests, and the error after it
  unfoldable pub faucet_attempts : ℕ → W h (Unit {0})
  unfolding request_faucet
  faucet_attempts zero = throw failed
  faucet_attempts (suc left) =
      let rest : W h (Unit {0}) = faucet_attempts left in
      do funded ← request_faucet; if funded then pure tt else ask (h.sleep 15) >> rest

  unfoldable pub fund : Option ℕ → W h (Unit {0})
  unfolding faucet_attempts
  fund none = throw failed
  fund (some balance) = if leb min_allo balance then pure tt else faucet_attempts max_faucet_retries

  -- `_maybe_faucet_request`
  unfoldable pub maybe_faucet_request : Setup → W h (Unit {0})
  unfolding fund
  maybe_faucet_request setup =
      if setup.is_testnet && setup.has_faucet then ask h.balance >>= fund else pure tt
