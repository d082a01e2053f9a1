-- ===== src/Tx/Manager.antt =====
-- src/allora_sdk/rpc_client/tx_manager.py: `submit_transaction` and `close`, with the transactions in
-- flight. A submission task is `attempt_submissions` on the session that `task_session` makes. While
-- `close` waits, other code runs: what it does is a list that `close` takes.
pub mod Close
pub mod Forgotten
use allora_sdk_py.Prelude.{
  ℕ, suc, Bool, true, false, Option, none, some, List, [], ◌∷◌, ◌++◌, map, ◌==◌, if◌then◌else◌,
}
use allora_sdk_py.Exec.{
  Reply, Result, ok, raise, stuck, Exec, outcome, after, pure, throw, ◌>>=◌, ◌>>◌, try_except,
}
use allora_sdk_py.Tx.Errors.{Text, codes, Exc, max_fees_exceeded, other, is_fatal}
use allora_sdk_py.Tx.Chain.{Chain}
use allora_sdk_py.Tx.State.{
  PendingTx, TxManager, Session, FeeTier, M, Outcome, future_cancelled, resolve,
}
use allora_sdk_py.Tx.Landed.{catch}
use allora_sdk_py.Tx.Fees.{fee_multiplier_of, calculate_optimal_fee}
use allora_sdk_py.Tx.Simulate.{simulate_transaction, no_wallet}

-- The fields of `TxManager` that `submit_transaction` and `close` change, and the objects behind
-- them: each `PendingTx` that was made, under its `parent_tx_id`, which is also the name of its
-- task; the `_inflight` set; and the tasks that `close` called `cancel` on.
pub record InFlight (ch : Chain) : Type 0 where
  pub parent_tx_id : ℕ
  pub pendings : List (PendingTx ch)
  pub inflight : List ℕ
  pub cancel_requested : List ℕ

module _ {ch : Chain} (mgr : TxManager ch) where
  -- `except MaxFeesExceededError: raise` before `except Exception`
  unfoldable pub keep_cap_error : Exc → M ch (Option ℕ)
  unfolding is_fatal
  keep_cap_error max_fees_exceeded = throw max_fees_exceeded
  keep_cap_error e = catch (λ _. pure none) e

  -- the gas estimate of the first attempt; the fee is computed for the cap alone
  unfoldable pub first_estimate : Text → ch.Messages → FeeTier → M ch (Option ℕ)
  unfolding keep_cap_error
  first_estimate type_url msgs fee_tier =
      if mgr.simulate_gas_from_start
      then try_except
          (do
            gas ← simulate_transaction mgr type_url msgs
            calculate_optimal_fee mgr gas (fee_multiplier_of mgr fee_tier)
            pure (some gas))
          keep_cap_error
      else pure none

  unfoldable pub new_pending : ℕ → Text → ch.Messages → FeeTier → ℕ → Option ℕ → PendingTx ch
  new_pending id type_url msgs fee_tier max_retries timeout = record {
    parent_tx_id = id;
    type_url = type_url;
    msgs = msgs;
    fee_tier = fee_tier;
    max_retries = max_retries;
    timeout = timeout;
    last_tx_hash = none;
    last_gas_limit = none;
    last_fee = none;
    last_landed_error = none;
    attempt = 0;
    final_future = none;
    same_seq_rebroadcast = false;
  }

  -- the arguments of the task, in the session that it starts from
  unfoldable pub task_session : PendingTx ch → Option ℕ → Option ℕ → Session ch → Session ch
  task_session p gas_limit account_seq s = record s {
    pending = p;
    current_gas_limit = gas_limit;
    next_account_seq = account_seq;
  }

  -- `self._inflight.add(pending)`, for a new object
  unfoldable pub add_pending : PendingTx ch → InFlight ch → InFlight ch
  add_pending p reg = record reg {
    parent_tx_id = suc reg.parent_tx_id;
    pendings = p ∷ reg.pendings;
    inflight = p.parent_tx_id ∷ reg.inflight;
  }

  -- what is left to do with the estimate: a new identifier, the pending transaction, and its task
  unfoldable pub register :
      Text
      → ch.Messages
      → FeeTier
      → ℕ
      → Option ℕ
      → Option ℕ
      → InFlight ch
      → Result Exc (Option ℕ) × Session ch
      → Result Exc (PendingTx ch) × InFlight ch × Session ch
  unfolding new_pending add_pending task_session
  register type_url msgs tier retries timeout seq reg (raise e, s) = (raise e, reg, s)
  register type_url msgs tier retries timeout seq reg (stuck, s) = (stuck, reg, s)
  register type_url msgs tier retries timeout seq reg (ok gas, s) =
      let p = new_pending reg.parent_tx_id type_url msgs tier retries timeout in
      (ok p, add_pending p reg, task_session p gas seq s)

  -- `submit_transaction`: the pending transaction, the manager, and the session of the new task
  unfoldable pub submit_transaction :
      Text
      → ch.Messages
      → FeeTier
      → ℕ
      → Option ℕ
      → Option ℕ
      → InFlight ch
      → Session ch
      → Result Exc (PendingTx ch) × InFlight ch × Session ch
  unfolding register
  submit_transaction type_url msgs tier retries timeout seq reg s =
      if mgr.has_wallet
      then register type_url msgs tier retries timeout seq reg (first_estimate type_url msgs tier s)
      else (raise (other (codes no_wallet)), reg, s)

-- What other code does while `close` waits for the tasks: a task or its caller resolves a future, a
-- task ends and its done callback runs, or a caller submits another transaction.
pub data Happening (ch : Chain) : Type 0 where
  resolves : ℕ → Outcome → Happening ch
  task_done : ℕ → Happening ch
  submits : Text → ch.Messages → FeeTier → ℕ → Option ℕ → Happening ch

-- `set.discard`
unfoldable pub discard : ℕ → List ℕ → List ℕ
discard id [] = []
discard id (n ∷ ns) = let rest = discard id ns in if n == id then rest else n ∷ rest

module _ {ch : Chain} (mgr : TxManager ch) where
  -- a future is resolved through each reference to its object
  unfoldable pub touch : ℕ → Outcome → PendingTx ch → PendingTx ch
  unfolding resolve
  touch id o p = if p.parent_tx_id == id then resolve o p else p

  unfoldable pub happen : Happening ch → InFlight ch → InFlight ch
  unfolding touch discard new_pending add_pending
  happen (resolves id o) reg = record reg { pendings = map (touch id o) reg.pendings }
  happen (task_done id) reg = record reg { inflight = discard id reg.inflight }
  happen (submits type_url msgs tier retries timeout) reg =
      add_pending mgr (new_pending mgr reg.parent_tx_id type_url msgs tier retries timeout) reg

  unfoldable pub happen_all : List (Happening ch) → InFlight ch → InFlight ch
  unfolding happen
  happen_all [] reg = reg
  happen_all (x ∷ xs) reg = happen_all xs (happen x reg)

  -- `if not pending._final_future.done(): pending._final_future.cancel()` over the snapshot
  unfoldable pub cancel_futures : List ℕ → List (PendingTx ch) → List (PendingTx ch)
  unfolding touch
  cancel_futures [] ps = ps
  cancel_futures (id ∷ ids) ps = cancel_futures ids (map (touch id future_cancelled) ps)

  unfoldable pub cancel_tasks : List ℕ → InFlight ch → InFlight ch
  cancel_tasks ids reg = record reg { cancel_requested = ids ++ reg.cancel_requested }

  -- `asyncio.gather`, which is not called without a task, as what happens until it answers or
  -- raises
  unfoldable pub gather :
      List ℕ
      → List (Happening ch)
      → Reply Exc (Unit {0})
      → InFlight ch
      → Result Exc (Unit {0}) × InFlight ch
  unfolding happen_all
  gather [] during ending reg = (ok tt, reg)
  gather (id ∷ ids) during ending reg = (outcome ending, happen_all during reg)

  -- `close` behind the gather
  unfoldable pub settle_snapshot : List ℕ → Unit {0} → Exec (InFlight ch) Exc (Unit {0})
  unfolding cancel_futures
  settle_snapshot ids _ reg =
      (ok tt, record reg { pendings = cancel_futures ids reg.pendings; inflight = [] })

  -- `close`; `ids` is the snapshot `pendings`, each with its task
  unfoldable pub close :
      List (Happening ch) → Reply Exc (Unit {0}) → Exec (InFlight ch) Exc (Unit {0})
  unfolding cancel_tasks gather settle_snapshot
  close during ending reg =
      let ids = reg.inflight in
      after (gather ids during ending (cancel_tasks ids reg)) (settle_snapshot ids)
