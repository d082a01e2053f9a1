-- ===== src/Worker/Host.antt =====
-- src/allora_sdk/worker/worker.py: the state of a worker, and what it calls. The node, the faucet,
-- the clock and the use case (predict or loss code and its transaction) are a `Host`: calls on a
-- world, which answer or raise. Other tasks act between the calls, so a worker reads in the world
-- whether another task cancelled the context or cleaned up.
use allora_sdk_py.Prelude.{ℕ, Bool, true, false, ◌||◌, Option, List, if◌then◌else◌}
use allora_sdk_py.Exec.{Reply, Exec, outcome, pure, throw, modify}
use allora_sdk_py.OrderedSet.{TimestampOrderedSet}

-- What a worker's calls raise. `cancelled` and `system_exit` are no `Exception`; an HTTP error has
-- the status of its response, if it has a response.
pub data Failure : Type 0 where
  cancelled : Failure
  system_exit : Failure
  timeout_error : Failure
  worker_not_whitelisted : Failure
  http_error : Option ℕ → Failure
  failed : Failure

-- `except Exception`
unfoldable pub is_exception : Failure → Bool
is_exception cancelled = false
is_exception system_exit = false
is_exception _ = true

-- What the use case returns: `AlreadySubmittedError`, which is a `TxError`, any other `TxError`,
-- `TxTimeoutError`, any other exception, or a result.
pub data Submission : Type 0 where
  already_submitted tx_error tx_timeout unknown_error submitted : Submission

pub record Host : Type 1 where
  pub World : Type 0
  pub Stamp : Type 0
  -- `<` on timestamps, and a timestamp some seconds earlier
  pub before : Stamp → Stamp → Bool
  pub earlier : Stamp → ℕ → Stamp
  -- `time.time()`
  pub stamp : World → Stamp × World
  pub sleep : ℕ → World → Reply Failure (Unit {0}) × World
  -- whether another task cancelled the context
  pub is_cancelled : World → Bool
  -- `self._ctx` and `self._queue` are there
  pub has_ctx : World → Bool
  pub has_queue : World → Bool
  -- `hold.expired`
  pub hold_expired : World → Bool
  pub acquire_lock : World → Reply Failure (Unit {0}) × World
  -- the node: the balance in uallo and the account sequence, where the response has one
  pub balance : World → Reply Failure (Option ℕ) × World
  pub account_info : World → Reply Failure (Option ℕ) × World
  -- the POST to the faucet with `raise_for_status`
  pub request_funds : World → Reply Failure (Unit {0}) × World
  -- the use case
  pub worker_is_whitelisted : World → Reply Failure Bool × World
  pub get_unfulfilled_nonces : World → Reply Failure (List ℕ) × World
  pub submit : ℕ → ℕ → World → Reply Failure (Option Submission) × World

-- What a worker is built with.
pub record Setup : Type 0 where
  pub requires_sequential_nonces : Bool
  pub max_nonces : ℕ
  -- the chain is "allora-testnet-1", and the network has a faucet
  pub is_testnet : Bool
  pub has_faucet : Bool

-- `stopped`: `stop` cancelled the context. `results` is what was put in the queue.
pub record Worker (h : Host) : Type 0 where
  pub world : h.World
  pub submitted_nonces : TimestampOrderedSet h.Stamp
  pub stopped : Bool
  pub results : List Submission

abbrev pub W : Host → Type 0 → Type 0
W h = Exec (Worker h) Failure

module _ {h : Host} where
  abbrev pub ask : {A : Type 0} → (h.World → Reply Failure A × h.World) → W h A
  ask f s = let (r, w) = f s.world in (outcome r, record s { world = w })

  -- `ctx.is_cancelled()`
  unfoldable pub is_stopped : Worker h → Bool
  is_stopped s = s.stopped || h.is_cancelled s.world

  -- `stop`
  unfoldable pub stop : W h (Unit {0})
  stop = modify (λ s. record s { stopped = s.stopped || h.has_ctx s.world })

  -- `except Exception: log`
  unfoldable pub log_failure : Failure → W h (Unit {0})
  unfolding is_exception
  log_failure e = if is_exception e then pure tt else throw e
