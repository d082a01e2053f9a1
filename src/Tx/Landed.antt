-- ===== src/Tx/Landed.antt =====
-- src/allora_sdk/rpc_client/tx_manager.py: finding out whether a broadcast landed (`_get_tx`,
-- `_try_confirm_landed`, `_bail_if_landed`, `_confirm_landed_with_grace`, `_consume_landed_gas_seed`,
-- `_resolve_landed`).
use allora_sdk_py.Prelude.{
  ℕ, zero, suc, Bool, true, false, ◌&&◌, Option, none, some, [], ◌∷◌, ◌==◌, ltb, if◌then◌else◌,
}
use allora_sdk_py.Exec.{pure, throw, gets, ◌>>=◌, ◌>>◌, try_except}
use allora_sdk_py.Tx.Errors.{
  Text, codes, Exc, out_of_gas, tx_not_found, timeout_error, rpc_error, other, TxResponse, occurs,
  exception_from_tx_response, is_retryable, is_fatal,
}
use allora_sdk_py.Tx.Chain.{Chain, scaled}
use allora_sdk_py.Tx.State.{TxManager, M, resolve, call, update_pending, set_result, set_exception}

pub data LandedOutcome : Type 0 where
  finalized retry_new_sequence not_landed : LandedOutcome

-- The handlers of `_get_tx`: which failures mean that the transaction is not found.
unfoldable pub get_tx_error : Exc → Exc
unfolding occurs
get_tx_error (rpc_error none) = rpc_error none
get_tx_error (rpc_error (some details)) =
    if occurs (codes "not found") details then tx_not_found else rpc_error (some details)
get_tx_error timeout_error = tx_not_found
get_tx_error (other details) =
    if occurs (codes "tx") details && occurs (codes "not found") details
    then tx_not_found
    else other details
get_tx_error e = e

-- `isinstance(err, _RETRYABLE_TX_ERRORS)`, where `None` is no instance
unfoldable pub retryable : Option Exc → Bool
unfolding is_retryable
retryable none = false
retryable (some e) = is_retryable e

-- `int(gas_wanted * 1.2)`; a `gas_wanted` of 0 is false in Python
unfoldable pub gas_seed : (ch : Chain) → Option Exc → Option ℕ
gas_seed ch (some (out_of_gas (some wanted) _)) =
    if wanted == 0 then none else some (scaled ch wanted (ch.literal 12 1))
gas_seed ch _ = none

module _ {ch : Chain} where
  unfoldable pub found_or_raise : Option TxResponse → M ch TxResponse
  found_or_raise none = throw tx_not_found
  found_or_raise (some resp) = pure resp

  -- `_get_tx`
  unfoldable pub get_tx_checked : Text → M ch TxResponse
  unfolding found_or_raise get_tx_error
  get_tx_checked hash =
      try_except (call (ch.get_tx hash) >>= found_or_raise) (λ e. throw (get_tx_error e))

  -- `except Exception`: `h` handles what is no `BaseException`
  abbrev pub catch : {A : Type 0} → (Exc → M ch A) → Exc → M ch A
  catch h e = if is_fatal e then throw e else h e

  -- `_try_confirm_landed`
  unfoldable pub try_confirm_landed : Text → M ch (Option TxResponse)
  unfolding get_tx_checked is_fatal
  try_confirm_landed hash =
      try_except (do resp ← get_tx_checked hash; pure (some resp)) (catch (λ _. pure none))

  unfoldable pub resolve_with : TxResponse → Option Exc → M ch (Unit {0})
  unfolding resolve
  resolve_with resp none = set_result resp
  resolve_with resp (some err) = set_exception err

  -- `_resolve_landed`
  unfoldable pub resolve_landed : TxResponse → M ch (Unit {0})
  unfolding resolve_with exception_from_tx_response
  resolve_landed resp = resolve_with resp (exception_from_tx_response resp)

  -- a retryable failure with attempts left is kept for the retry, all else resolves the future
  unfoldable pub keep_or_resolve : TxResponse → Bool → M ch LandedOutcome
  unfolding resolve_landed
  keep_or_resolve resp true = do
    update_pending (λ q. record q { last_landed_error = exception_from_tx_response resp })
    pure retry_new_sequence
  keep_or_resolve resp false = do resolve_landed resp; pure finalized

  unfoldable pub landed : TxResponse → M ch LandedOutcome
  unfolding retryable keep_or_resolve
  landed resp = do
    p ← gets (λ s. s.pending)
    keep_or_resolve resp
        (retryable (exception_from_tx_response resp) && ltb p.attempt p.max_retries)

  unfoldable pub landed_or_not : Option TxResponse → M ch LandedOutcome
  unfolding landed
  landed_or_not none = pure not_landed
  landed_or_not (some resp) = landed resp

  unfoldable pub bail_on_hash : Option Text → M ch LandedOutcome
  unfolding landed_or_not try_confirm_landed
  bail_on_hash none = pure not_landed
  bail_on_hash (some []) = pure not_landed
  bail_on_hash (some (c ∷ h)) = do resp ← try_confirm_landed (c ∷ h); landed_or_not resp

  -- `_bail_if_landed`
  unfoldable pub bail_if_landed : M ch LandedOutcome
  unfolding bail_on_hash
  bail_if_landed = do
    update_pending (λ p. record p { last_landed_error = none })
    hash ← gets (λ s. s.pending.last_tx_hash)
    bail_on_hash hash

  unfoldable pub unless_landed : LandedOutcome → M ch LandedOutcome → M ch LandedOutcome
  unless_landed finalized next = pure finalized
  unless_landed retry_new_sequence next = pure retry_new_sequence
  unless_landed not_landed next = next

  -- `_confirm_landed_with_grace`, on the attempts left
  unfoldable pub confirm_landed_with_grace : TxManager ch → ℕ → M ch LandedOutcome
  unfolding bail_if_landed unless_landed
  confirm_landed_with_grace mgr zero = pure not_landed
  confirm_landed_with_grace mgr (suc n) = do
    call (ch.sleep mgr.query_interval)
    outcome ← bail_if_landed
    unless_landed outcome (confirm_landed_with_grace mgr n)

  -- `_consume_landed_gas_seed`
  unfoldable pub consume_landed_gas_seed : M ch (Option ℕ)
  unfolding gas_seed
  consume_landed_gas_seed = do
    err ← gets (λ s. s.pending.last_landed_error)
    update_pending (λ p. record p { last_landed_error = none })
    pure (gas_seed ch err)
