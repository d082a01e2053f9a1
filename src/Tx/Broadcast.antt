-- ===== src/Tx/Broadcast.antt =====
-- src/allora_sdk/rpc_client/tx_manager.py: `_pre_flight_checks`, `_build_and_broadcast` and
-- `wait_for_tx`, the steps of one submission attempt.
pub mod Ends
use allora_sdk_py.Prelude.{
  ℕ, zero, suc, ◌+◌, ◌-◌, ◌*◌, ◌/◌, Bool, true, false, Option, none, some, ◌==◌, ltb, leb, get_or,
  if◌then◌else◌,
}
use allora_sdk_py.Exec.{Result, ok, raise, stuck, pure, throw, diverge, ◌>>=◌, ◌>>◌, try_except}
use allora_sdk_py.Tx.Errors.{
  Text, codes, Exc, insufficient_balance, tx_not_found, tx_timeout, timeout_error, other,
  TxResponse, exception_from_tx_response, is_fatal,
}
use allora_sdk_py.Tx.Chain.{Chain, AccountInfo, scaled}
use allora_sdk_py.Tx.State.{TxManager, Session, M, priority, call, time}
use allora_sdk_py.Tx.Landed.{get_tx_checked, catch}
use allora_sdk_py.Tx.Fees.{fee_multiplier_of, estimate_gas, calculate_optimal_fee}

-- What `_build_and_broadcast` returns.
pub record Broadcast : Type 0 where
  pub tx_hash : Text
  pub gas_limit : ℕ
  pub fee : ℕ
  pub sequence : ℕ

-- `x if x else default`
unfoldable pub or_default : Option ℕ → ℕ → ℕ
or_default none d = d
or_default (some t) d = if t == 0 then d else t

abbrev pub seconds : ℕ → ℕ
seconds n = n * 1000000

-- the polls after which `wait_for_tx` has used up its time
unfoldable pub polls : ℕ → ℕ → ℕ
polls timeout poll_period = suc (timeout / poll_period + 1)

module _ {ch : Chain} where
  -- `except InsufficientBalanceError: raise` before `except Exception`
  unfoldable pub keep_balance_error : Exc → M ch (Unit {0})
  unfolding is_fatal
  keep_balance_error insufficient_balance = throw insufficient_balance
  keep_balance_error e = catch (λ _. pure tt) e

  -- a call that `asyncio.wait_for` cuts off: its effects stay
  unfoldable pub cut : {A : Type 0} → Bool → Result Exc A × Session ch → Result Exc A × Session ch
  cut true (ok a, s) = (raise timeout_error, s)
  cut true (raise e, s) = (raise timeout_error, s)
  cut true (stuck, s) = (stuck, s)
  cut false (r, s) = (r, s)

  -- `asyncio.wait_for`: with no time left it does not make the call
  unfoldable pub wait_for : {A : Type 0} → ℕ → M ch A → M ch A
  unfolding cut
  wait_for zero m s = (raise timeout_error, s)
  wait_for (suc r) m s = cut (ch.cut_off (suc r) s.world (m s).1.world) (m s)

  -- the handlers of the poll: `none` where the transaction is not there yet
  unfoldable pub poll_error : Exc → M ch (Option TxResponse)
  poll_error tx_not_found = pure none
  poll_error timeout_error = throw tx_timeout
  poll_error e = throw e

  unfoldable pub poll : Text → ℕ → ℕ → M ch (Option TxResponse)
  unfolding wait_for get_tx_checked poll_error
  poll hash start timeout = do
    t ← time
    try_except (do resp ← wait_for (start + timeout - t) (get_tx_checked hash); pure (some resp))
        poll_error

  -- the rest of a round: the deadline, the pause and the next round
  unfoldable pub unless_found : ℕ → ℕ → M ch TxResponse → Option TxResponse → M ch TxResponse
  unless_found deadline poll_period next (some resp) = pure resp
  unless_found deadline poll_period next none = do
    t ← time
    if leb deadline t then throw tx_timeout else call (ch.sleep poll_period) >> next

  -- the loop of `wait_for_tx`, on the polls left
  unfoldable pub poll_loop : ℕ → Text → ℕ → ℕ → ℕ → M ch TxResponse
  unfolding poll unless_found
  poll_loop zero hash start timeout poll_period = diverge
  poll_loop (suc n) hash start timeout poll_period = do
    found ← poll hash start timeout
    unless_found (start + timeout) poll_period (poll_loop n hash start timeout poll_period) found

module _ {ch : Chain} (mgr : TxManager ch) where
  -- `wait_for_tx`
  unfoldable pub wait_for_tx : Text → Option ℕ → Option ℕ → M ch TxResponse
  unfolding poll_loop polls or_default
  wait_for_tx hash timeout poll_period = do
    let limit = or_default timeout mgr.query_timeout
    let period = or_default poll_period mgr.query_interval
    start ← time
    poll_loop (polls limit period) hash start limit period

  -- `int(300000 * price * multiplier)`
  unfoldable pub estimated_fee : ℕ
  unfolding fee_multiplier_of
  estimated_fee = ch.trunc (
      ch.times (ch.times (ch.of_int 300000) mgr.fee_minimum_gas_price)
        (fee_multiplier_of mgr priority))

  unfoldable pub check_balance : Option ℕ → M ch (Unit {0})
  unfolding estimated_fee
  check_balance none = pure tt
  check_balance (some amount) =
      if ltb amount estimated_fee then throw insufficient_balance else pure tt

  -- With a fee granter both balances are only logged.
  unfoldable pub payer_checks : Option Text → M ch (Unit {0})
  unfolding check_balance
  payer_checks (some granter) = do call (ch.balance granter); call (ch.balance mgr.address); pure tt
  payer_checks none = do amount ← call (ch.balance mgr.address); check_balance amount

  -- `_pre_flight_checks`
  unfoldable pub pre_flight_checks : M ch (Unit {0})
  unfolding payer_checks keep_balance_error
  pre_flight_checks =
      if mgr.has_wallet
      then try_except (call ch.account >> payer_checks mgr.fee_granter) keep_balance_error
      else throw (other (codes "No wallet configured"))

  unfoldable pub info_or_raise : Option AccountInfo → M ch AccountInfo
  info_or_raise none = throw (other (codes "account_info query response is none"))
  info_or_raise (some info) = pure info

  -- CheckTx: a non-zero code raises, so that no hash is returned
  unfoldable pub checked_hash : Option TxResponse → M ch Text
  unfolding exception_from_tx_response
  checked_hash none =
      throw (other (codes "broadcast_tx returned None - check network connectivity"))
  checked_hash (some resp) = elim (exception_from_tx_response resp) [
    | none ↦ pure resp.txhash
    | some err ↦ throw err
  ]

  -- The handler stands round the call alone, so it does not see what `checked_hash` raises. A
  -- deadline of the broadcast gives the hash of the bytes that were sent.
  unfoldable pub broadcast_outcome :
      ch.TxBytes → Result Exc (Option TxResponse) × Session ch → Result Exc Text × Session ch
  unfolding checked_hash
  broadcast_outcome tx_bytes (ok reply, s) = checked_hash reply s
  broadcast_outcome tx_bytes (raise timeout_error, s) = (ok (ch.hash_hex tx_bytes), s)
  broadcast_outcome tx_bytes (raise e, s) = (raise e, s)
  broadcast_outcome tx_bytes (stuck, s) = (stuck, s)

  unfoldable pub broadcast : ch.TxBytes → M ch Text
  unfolding broadcast_outcome
  broadcast tx_bytes s = broadcast_outcome tx_bytes (call (ch.broadcast_tx tx_bytes) s)

  -- `_build_and_broadcast`
  unfoldable pub build_and_broadcast :
      Text → ch.Messages → Option ℕ → ch.F → ch.F → Option ℕ → M ch Broadcast
  unfolding broadcast info_or_raise
  build_and_broadcast type_url msgs gas_limit fee_multiplier gas_multiplier account_seq = do
    let base = get_or gas_limit (estimate_gas mgr type_url)
    let used_gas = scaled ch base gas_multiplier
    fee ← calculate_optimal_fee mgr used_gas fee_multiplier
    found ← call ch.account_info
    info ← info_or_raise found
    let seq = get_or account_seq info.sequence
    tx_bytes ← call (ch.sign msgs type_url used_gas fee seq info.account_number)
    hash ← broadcast tx_bytes
    pure (record { tx_hash = hash; gas_limit = used_gas; fee = fee; sequence = seq })
