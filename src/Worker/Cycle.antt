-- ===== src/Worker/Cycle.antt =====
-- src/allora_sdk/worker/worker.py: one submission cycle, `_maybe_submit_impl`, and its callers
-- `_maybe_submit`, `_polling_worker` and `_handle_submission_window_opened_event`. The worker is
-- initialised, and its context is the one of the cycle.
pub mod Sequence
pub mod Runs
pub mod Marks
pub mod Once
use allora_sdk_py.Prelude.{
  ℕ, zero, suc, ◌+◌, ◌*◌, Bool, true, false, not, ◌&&◌, ◌||◌, Option, none, some, List, [], ◌∷◌,
  ◌++◌, if◌then◌else◌,
}
use allora_sdk_py.Exec.{
  Result, ok, raise, stuck, pure, throw, diverge, gets, rescue, try_except, after, ◌>>=◌, ◌>>◌,
}
use allora_sdk_py.OrderedSet.{TimestampOrderedSet, add, prune_older_than}
use allora_sdk_py.Worker.Nonces.{choose}
use allora_sdk_py.Worker.Host.{
  Failure, cancelled, timeout_error, worker_not_whitelisted, is_exception, Submission, tx_timeout,
  Host, Setup, Worker, W, ask, is_stopped, stop, log_failure,
}
use allora_sdk_py.Worker.Faucet.{log_balance, maybe_faucet_request}

abbrev pub day : ℕ
day = 24 * 60 * 60

module _ {h : Host} where
  -- `self.submitted_nonces.add(nonce)`
  unfoldable pub mark : ℕ → W h (Unit {0})
  mark nonce s =
      let (t, w) = h.stamp s.world in
      (ok tt, record s { world = w; submitted_nonces = add nonce t s.submitted_nonces })

  -- what is noted of the use case's answer
  unfoldable pub note : ℕ → Option Submission → W h (Unit {0})
  unfolding mark
  note nonce none = pure tt
  note nonce (some tx_timeout) = pure tt
  note nonce (some _) = mark nonce

  -- the `finally` of `submit`, in the state the body left
  unfoldable pub forget : Worker h → Worker h
  unfolding prune_older_than
  forget s =
      let (t, w) = h.stamp s.world in
      record s {
        world = w;
        submitted_nonces = (prune_older_than h.before (h.earlier t) day s.submitted_nonces).1;
      }

  unfoldable pub publish : Option Submission → Worker h → Worker h
  unfolding is_stopped
  publish none s = s
  publish (some r) s =
      if not (is_stopped s) && h.has_queue s.world
      then record s { results = s.results ++ r ∷ [] }
      else s

  unfoldable pub finally_publish :
      Option Submission
      → Result Failure (Unit {0}) × Worker h
      → Result Failure (Unit {0}) × Worker h
  unfolding forget publish
  finally_publish result (r, s) = (r, publish result (forget s))

module _ {h : Host} (setup : Setup) where
  top_up : Option ℕ → W h (Unit {0})
  unfolding log_balance maybe_faucet_request
  top_up none = pure tt
  top_up (some balance) = log_balance >> maybe_faucet_request setup

  -- the body of `submit` behind the use case's answer
  unfoldable pub settle :
      ℕ → Result Failure (Option Submission) × Worker h → Result Failure (Unit {0}) × Worker h
  unfolding note top_up log_failure finally_publish
  settle nonce (ok result, s) =
      finally_publish result
        (try_except (note nonce result >> (ask h.balance >>= top_up)) log_failure s)
  settle nonce (raise e, s) = finally_publish none (log_failure e s)
  settle nonce (stuck, s) = (stuck, s)

  -- `submit`
  unfoldable pub submit : ℕ → ℕ → W h (Unit {0})
  unfolding settle
  submit nonce account_seq s = settle nonce (ask (h.submit nonce account_seq) s)

  -- the test before each submission
  unfoldable pub is_active : Worker h → Bool
  unfolding is_stopped
  is_active s = h.has_ctx s.world && not (is_stopped s)

  -- the loop over the nonces; the i-th has the sequence `base + i`
  unfoldable pub submit_all : ℕ → List ℕ → W h (Unit {0})
  unfolding submit is_active
  submit_all seq [] = pure tt
  submit_all seq (nonce ∷ l) =
      let rest : W h (Unit {0}) = submit_all (seq + 1) l in
      do active ← gets is_active; if active then submit nonce seq >> rest else pure tt

  unfoldable pub submit_from : List ℕ → Option ℕ → W h (Unit {0})
  unfolding submit_all
  submit_from new_nonces none = pure tt
  submit_from new_nonces (some base_sequence) = submit_all base_sequence new_nonces

  -- the handler of the nonces query: `none` skips the cycle
  unfoldable pub on_query_error : Failure → W h (Option (List ℕ))
  unfolding is_exception
  on_query_error e =
      if is_exception e
      then pure (if setup.requires_sequential_nonces then none else some [])
      else throw e

  unfoldable pub submit_new : Option ℕ → Option (List ℕ) → W h (Unit {0})
  unfolding choose submit_from
  submit_new event none = pure tt
  submit_new event (some nonces) = do
    new_nonces ← gets (λ s.
        choose s.submitted_nonces setup.requires_sequential_nonces setup.max_nonces nonces event)
    info ← ask h.account_info
    submit_from new_nonces info

  unfoldable pub run_cycle : Option ℕ → W h (Unit {0})
  unfolding on_query_error submit_new
  run_cycle event = do
    nonces ← try_except (ask h.get_unfulfilled_nonces >>= λ l. pure (some l)) on_query_error
    submit_new event nonces

  -- `_maybe_submit_impl`
  unfoldable pub maybe_submit_impl : Option ℕ → W h (Unit {0})
  unfolding is_stopped run_cycle stop
  maybe_submit_impl event = do
    over ← gets is_stopped
    if over then pure tt else do
      can_submit ← ask h.worker_is_whitelisted
      if can_submit then run_cycle event else stop

  -- the end of `async with hold`: its own cancellation becomes a timeout
  unfoldable pub leave_hold : Failure → W h (Unit {0})
  leave_hold cancelled s =
      if h.hold_expired s.world then throw timeout_error s else throw cancelled s
  leave_hold e s = throw e s

  -- `except asyncio.TimeoutError`
  unfoldable pub swallow_own_timeout : Failure → W h (Unit {0})
  swallow_own_timeout timeout_error s =
      if h.hold_expired s.world then pure tt s else throw timeout_error s
  swallow_own_timeout e s = throw e s

  -- `_maybe_submit`
  unfoldable pub maybe_submit : Option ℕ → W h (Unit {0})
  unfolding is_stopped maybe_submit_impl leave_hold swallow_own_timeout
  maybe_submit event = do
    over ← gets is_stopped
    if over then pure tt else do
      ask h.acquire_lock
      try_except (try_except (maybe_submit_impl event) leave_hold) swallow_own_timeout

  -- the `except` clauses of a poll: whether to go on
  unfoldable pub on_poll_error : Failure → W h Bool
  unfolding stop log_failure
  on_poll_error cancelled = stop >> pure false
  on_poll_error worker_not_whitelisted = stop >> pure false
  on_poll_error e = log_failure e >> pure true

  -- one round of the loop of `_polling_worker`: whether to go on
  unfoldable pub poll_round : ℕ → W h Bool
  unfolding maybe_submit on_poll_error
  poll_round interval = do
    more ← try_except (maybe_submit none >> pure true) on_poll_error
    if more then ask (h.sleep interval) >> pure true else pure false

  -- `_polling_worker`, for so many rounds
  unfoldable pub polling_worker : ℕ → ℕ → W h (Unit {0})
  unfolding is_stopped poll_round
  polling_worker zero interval = diverge
  polling_worker (suc rounds) interval =
      let rest : W h (Unit {0}) = polling_worker rounds interval in
      do
        over ← gets is_stopped
        if over then pure tt else do more ← poll_round interval; if more then rest else pure tt

  -- `_handle_submission_window_opened_event`; `mine`: the event is of this use case's type
  unfoldable pub handle_submission_window_opened_event : Bool → ℕ → W h (Unit {0})
  unfolding is_active maybe_submit log_failure
  handle_submission_window_opened_event mine nonce = do
    active ← gets is_active
    if mine && active then try_except (maybe_submit (some nonce)) log_failure else pure tt
