-- ===== src/Tx/Simulate/Ends.antt =====
-- About src/allora_sdk/rpc_client/tx_manager.py: the gas limits of the simulation loop, and its
-- end.
use allora_sdk_py.Prelude.{
  ℕ, zero, suc, ◌+◌, ◌-◌, ◌≤◌, ◌<◌, Option, none, some, arith, max, ltb, Bool-cases, inl, inr, ◌&&◌,
}
use allora_sdk_py.Exec.{Result, ok, raise, stuck}
use allora_sdk_py.Exec.Post.{Post, Triple-bind, Triple-if}
use allora_sdk_py.Tx.Errors.{Text, Exc, rpc_error}
use allora_sdk_py.Tx.Chain.{Chain, scaled}
use allora_sdk_py.Tx.State.{TxManager, Session, M, call}
use allora_sdk_py.Tx.Fees.{estimate_gas}
use allora_sdk_py.Tx.Broadcast.Ends.{Raises, Any, Ends, call-Ends, info_or_raise-Ends}
use allora_sdk_py.Tx.Simulate.{
  next_limit, is_out_of_gas, retry_or_raise, judge, simulation_loop, max_simulation_gas,
  simulate_transaction,
}

-- `int(n * 1.5)` is above `n` for `n` of two or more.
abbrev pub Grows : Chain → Type 0
Grows ch = (n : ℕ) → 2 ≤ n → n < scaled ch n (ch.literal 15 1)

max_simulation_gas-bound : (limit : ℕ) → limit ≤ max_simulation_gas limit
unfolding max_simulation_gas
max_simulation_gas-bound limit = omega arith

module _ {ch : Chain} (mgr : TxManager ch) where
  retry_or_raise-Post :
      (max_gas limit : ℕ) (err : Exc) (next : M ch ℕ) (s : Session ch)
      → (limit < max_gas → Post ⊥ Raises Any (next s))
      → Post ⊥ Raises Any (retry_or_raise mgr max_gas limit err next s)
  unfolding retry_or_raise
  retry_or_raise-Post max_gas limit err next s h =
      elim (Bool-cases (is_out_of_gas err && ltb limit max_gas)) [
        | inl again ↦ rw again (h (ground arith))
        | inr over ↦ rw over tt
      ]

  judge-Post :
      (max_gas limit : ℕ) (next : M ch ℕ) (p : Result Exc (Option ℕ) × Session ch)
      → Post ⊥ Raises Any p
      → (limit < max_gas → Post ⊥ Raises Any (next p.1))
      → Post ⊥ Raises Any (judge mgr max_gas limit next p)
  unfolding judge
  judge-Post max_gas limit next (ok none, s) e h = tt
  judge-Post max_gas limit next (ok (some used), s) e h = tt
  judge-Post max_gas limit next (raise (rpc_error d), s) e h =
      retry_or_raise-Post max_gas limit _ next s h
  judge-Post max_gas limit next (raise x, s) e h = tt
  judge-Post max_gas limit next (stuck, s) e h = e

  module _ (grows : Grows ch) where
    next_limit-bounds :
        (max_gas limit : ℕ)
        → 2 ≤ limit
        → limit < max_gas
        → (limit < next_limit mgr max_gas limit) × (next_limit mgr max_gas limit ≤ max_gas)
    unfolding next_limit
    next_limit-bounds max_gas limit two below = omega (arith, grows limit two)

    simulation_loop-Post :
        (n : ℕ) (m : ch.Messages) (u : Text) (q max_gas limit : ℕ) (s : Session ch)
        → 2 ≤ limit
        → limit ≤ max_gas
        → max_gas < n + limit
        → Post ⊥ Raises Any (simulation_loop mgr n m u q max_gas limit s)
    unfolding simulation_loop
    simulation_loop-Post zero m u q max_gas limit s two below fuel = absurd (omega arith)
    simulation_loop-Post (suc n) m u q max_gas limit s two below fuel =
        let rest = simulation_loop-Post n m u q max_gas (next_limit mgr max_gas limit) in
        judge-Post max_gas limit _ (call (ch.simulate (ch.sign_empty m u limit q)) s) (ground arith)
          (λ more.
            rest (call (ch.simulate (ch.sign_empty m u limit q)) s).1
              (omega (arith, next_limit-bounds max_gas limit two more))
              (omega (arith, next_limit-bounds max_gas limit two more))
              (omega (arith, next_limit-bounds max_gas limit two more)))

    -- If `int(n * 1.5)` is above `n` from 2 on, a simulation ends: it returns an estimate or
    -- raises, whatever the node answers.
    pub simulate_transaction-Ends :
        (u : Text) (m : ch.Messages) → Ends (simulate_transaction mgr u m)
    unfolding simulate_transaction
    simulate_transaction-Ends u m =
        let limit = max (estimate_gas mgr u) 200000 in
        let max_gas = max_simulation_gas limit in
        Triple-if mgr.has_wallet
          (Triple-bind Any (call-Ends mgr ch.account_info) (λ found.
            Triple-bind Any (info_or_raise-Ends mgr found) (λ info. record {
              at = λ s _.
                  simulation_loop-Post (suc (max_gas - limit)) m u info.sequence max_gas limit s
                    (omega arith) (max_simulation_gas-bound limit)
                    (omega (arith, max_simulation_gas-bound limit));
            })))
          (record { at = λ s _. tt })
