-- ===== src/Tx/Simulate.antt =====
-- src/allora_sdk/rpc_client/tx_manager.py: `simulate_transaction`, whose loop raises the gas limit
-- until the simulation fits or the limit has reached its maximum.
pub mod Ends
use allora_sdk_py.Prelude.{
  ℕ, zero, suc, ◌+◌, ◌-◌, ◌*◌, Bool, true, false, ◌&&◌, Option, none, some, [], ◌∷◌, ltb, max, min,
  String, if◌then◌else◌,
}
use allora_sdk_py.Exec.{Result, ok, raise, stuck, pure, throw, ◌>>=◌, ◌>>◌}
use allora_sdk_py.Tx.Errors.{
  Text, codes, Exc, out_of_gas, rpc_error, other, exception_from_simulation_error,
}
use allora_sdk_py.Tx.Chain.{Chain, scaled}
use allora_sdk_py.Tx.State.{TxManager, Session, M, call}
use allora_sdk_py.Tx.Broadcast.{info_or_raise}
use allora_sdk_py.Tx.Fees.{estimate_gas}

abbrev pub no_wallet : String
no_wallet = "No wallet configured. Initialize client with private key or mnemonic."

-- `isinstance(err, OutOfGasError)`
unfoldable pub is_out_of_gas : Exc → Bool
is_out_of_gas (out_of_gas _ _) = true
is_out_of_gas _ = false

-- the bound on the gas limit of a simulation that starts at `limit`
unfoldable pub max_simulation_gas : ℕ → ℕ
max_simulation_gas limit = max (limit * 5) 2000000

module _ {ch : Chain} (mgr : TxManager ch) where
  -- `int(gas_used * self.gas_adjustment)`
  unfoldable pub gas_or_raise : Option ℕ → M ch ℕ
  gas_or_raise none = throw (other (codes "Simulation response is None or missing gas_info"))
  gas_or_raise (some gas_used) = pure (scaled ch gas_used mgr.gas_adjustment)

  -- `error.details() or str(error)`
  unfoldable pub details_or_str : Option Text → Exc → Text
  details_or_str none e = ch.text_of e
  details_or_str (some []) e = ch.text_of e
  details_or_str (some (c ∷ r)) e = c ∷ r

  unfoldable pub simulation_error : Option Text → Exc → Exc
  unfolding exception_from_simulation_error details_or_str
  simulation_error details e =
      exception_from_simulation_error (details_or_str details e) (ch.status_of e)

  -- `min(max_simulation_gas, int(current_gas_limit * 1.5))`
  unfoldable pub next_limit : ℕ → ℕ → ℕ
  next_limit max_gas limit = min max_gas (scaled ch limit (ch.literal 15 1))

  -- `except grpc.RpcError`: raise the limit and go on, or raise
  unfoldable pub retry_or_raise : ℕ → ℕ → Exc → M ch ℕ → M ch ℕ
  unfolding is_out_of_gas
  retry_or_raise max_gas limit err next =
      if is_out_of_gas err && ltb limit max_gas then next else throw err

  -- what the round does with the outcome of the call
  unfoldable pub judge :
      ℕ → ℕ → M ch ℕ → Result Exc (Option ℕ) × Session ch → Result Exc ℕ × Session ch
  unfolding gas_or_raise simulation_error retry_or_raise
  judge max_gas limit next (ok used, s) = gas_or_raise used s
  judge max_gas limit next (raise (rpc_error details), s) =
      retry_or_raise max_gas limit (simulation_error details (rpc_error details)) next s
  judge max_gas limit next (raise e, s) = (raise e, s)
  judge max_gas limit next (stuck, s) = (stuck, s)

  -- the loop, on the rounds left
  unfoldable pub simulation_loop : ℕ → ch.Messages → Text → ℕ → ℕ → ℕ → M ch ℕ
  unfolding judge
  simulation_loop zero msgs type_url sequence max_gas limit s = (stuck, s)
  simulation_loop (suc n) msgs type_url sequence max_gas limit s =
      let next = simulation_loop n msgs type_url sequence max_gas (next_limit max_gas limit) in
      judge max_gas limit next (call (ch.simulate (ch.sign_empty msgs type_url limit sequence)) s)

  -- `simulate_transaction`; each round but the last raises the limit, so the distance to the
  -- maximum bounds the rounds
  unfoldable pub simulate_transaction : Text → ch.Messages → M ch ℕ
  unfolding info_or_raise
  simulate_transaction type_url msgs =
      if mgr.has_wallet
      then (do
        found ← call ch.account_info
        info ← info_or_raise mgr found
        let limit = max (estimate_gas mgr type_url) 200000
        let max_gas = max_simulation_gas limit
        simulation_loop (suc (max_gas - limit)) msgs type_url info.sequence max_gas limit)
      else throw (other (codes no_wallet))
