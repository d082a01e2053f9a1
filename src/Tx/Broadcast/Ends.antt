-- ===== src/Tx/Broadcast/Ends.antt =====
-- About src/allora_sdk/rpc_client/tx_manager.py: the end of the steps of an attempt, with the fuel
-- of `wait_for_tx`.
use native.Mathlib.Nat.{div-add-mod, mod-lt}
use allora_sdk_py.Prelude.{
  ℕ, zero, suc, ◌+◌, ◌*◌, ◌/◌, ◌≤◌, ◌<◌, ◌≡◌, refl, Option, none, some, arith, leb, Bool-cases, inl,
  inr,
}
use allora_sdk_py.Exec.{Reply, answer, fault, outcome, after}
use allora_sdk_py.Exec.Post.{Post, Triple, Triple-bind, Triple-pure, Post-after}
use allora_sdk_py.Tx.Errors.{Exc, Text, TxResponse}
use allora_sdk_py.Tx.Chain.{Chain, IsTimed, AccountInfo}
use allora_sdk_py.Tx.State.{TxManager, Session, M, call}
use allora_sdk_py.Tx.Fees.{get_current_gas_price, check_network_congestion, calculate_optimal_fee}
use allora_sdk_py.Tx.Broadcast.{
  poll, unless_found, poll_loop, polls, or_default, wait_for_tx, pre_flight_checks, broadcast,
  info_or_raise, build_and_broadcast,
}

module _ {ch : Chain} where
  abbrev pub Raises : Exc → Session ch → Type 0
  Raises _ _ = Unit

  abbrev pub Any : {A : Type 0} → A → Session ch → Type 0
  Any _ _ = Unit

  -- it returns or raises
  abbrev pub Ends : {A : Type 0} → M ch A → Type 0
  Ends m = Triple ⊥ (λ _. Unit) Raises Any m

  abbrev clock : Session ch → ℕ
  clock s = (ch.now s.world).0

module _ {ch : Chain} (timed : IsTimed ch) where
  poll-Post :
      (hash : Text) (start timeout : ℕ) (s : Session ch)
      → Post ⊥ Raises (λ _ s'. clock s ≤ clock s') (poll hash start timeout s)
  unfolding poll
  poll-Post hash start timeout s =
      ground (arith, timed.now_monotone s.world, timed.get_tx_monotone hash (ch.now s.world).1)

  paused-Post :
      (r : Reply Exc (Unit {0})) (next : M ch TxResponse) (s' : Session ch)
      → (r ≡ answer tt → Post ⊥ Raises Any (next s'))
      → Post ⊥ Raises Any (after (outcome r, s') (λ _. next))
  paused-Post (answer tt) next s' h = h refl
  paused-Post (fault e) next s' h = tt

  unless_found-Post :
      (deadline period : ℕ) (next : M ch TxResponse) (found : Option TxResponse) (s : Session ch)
      → ((s' : Session ch)
          → clock s < deadline
          → clock s + period ≤ clock s'
          → Post ⊥ Raises Any (next s'))
      → Post ⊥ Raises Any (unless_found deadline period next found s)
  unfolding unless_found
  unless_found-Post deadline period next (some resp) s k = tt
  unless_found-Post deadline period next none s k = elim (Bool-cases (leb deadline (clock s))) [
    | inl late ↦ rw late tt
    | inr early ↦
        let w = (ch.now s.world).1 in
        rw early (
          paused-Post (ch.sleep period w).0 next (record s { world = (ch.sleep period w).1 })
            (λ slept.
              k (record s { world = (ch.sleep period w).1 }) (ground arith)
                (omega (arith, timed.now_monotone s.world, timed.sleep_lasts period w slept))))
  ]

  -- Enough fuel for the time that is left.
  poll_loop-Post :
      (n : ℕ) (hash : Text) (start timeout period : ℕ) (s : Session ch)
      → start + timeout ≤ clock s + n * period
      → Post ⊥ Raises Any (poll_loop (suc n) hash start timeout period s)
  unfolding poll_loop
  poll_loop-Post zero hash start timeout period s h =
      Post-after ⊥ Raises (λ _ s'. clock s ≤ clock s') Any _ (poll hash start timeout s)
        (poll-Post hash start timeout s)
        (λ found s' later.
          unless_found-Post (start + timeout) period _ found s'
            (λ s'' early _. absurd (omega arith)))
  poll_loop-Post (suc n) hash start timeout period s h =
      let rest = poll_loop-Post n hash start timeout period in
      Post-after ⊥ Raises (λ _ s'. clock s ≤ clock s') Any _ (poll hash start timeout s)
        (poll-Post hash start timeout s)
        (λ found s' later.
          unless_found-Post (start + timeout) period _ found s'
            (λ s'' early passed. rest s'' (omega arith)))

enough_polls : (timeout period : ℕ) → 0 < period → timeout ≤ (timeout / period + 1) * period
enough_polls timeout period h = grind (arith, div-add-mod, mod-lt)

module _ {ch : Chain} (timed : IsTimed ch) (mgr : TxManager ch) where
  -- With a positive poll period, `wait_for_tx` returns a response or raises.
  pub wait_for_tx-Ends :
      (hash : Text) (timeout period : Option ℕ)
      → 0 < or_default period mgr.query_interval
      → Ends (wait_for_tx mgr hash timeout period)
  unfolding wait_for_tx polls
  wait_for_tx-Ends hash timeout period h = record {
    at = λ s _.
        let limit = or_default timeout mgr.query_timeout in
        let step = or_default period mgr.query_interval in
        poll_loop-Post timed (limit / step + 1) hash (clock s) limit step
          (record s { world = (ch.now s.world).1 })
          (omega (arith, timed.now_monotone s.world, enough_polls limit step h));
  }

module _ {ch : Chain} (mgr : TxManager ch) where
  pub pre_flight_checks-Ends : Ends (pre_flight_checks mgr)
  unfolding pre_flight_checks
  pre_flight_checks-Ends = record { at = λ s _. ground arith }

  get_current_gas_price-Ends : Ends (get_current_gas_price mgr)
  unfolding get_current_gas_price
  get_current_gas_price-Ends = record { at = λ s _. ground arith }

  check_network_congestion-Ends : Ends (check_network_congestion mgr)
  unfolding check_network_congestion
  check_network_congestion-Ends = record { at = λ s _. ground arith }

  pub calculate_optimal_fee-Ends : (g : ℕ) (x : ch.F) → Ends (calculate_optimal_fee mgr g x)
  unfolding calculate_optimal_fee
  calculate_optimal_fee-Ends g x = Triple-bind Any get_current_gas_price-Ends (λ p.
      Triple-bind Any check_network_congestion-Ends (λ c. record { at = λ s _. ground arith }))

  pub call-Ends : {A : Type 0} (f : ch.World → Reply Exc A × ch.World) → Ends {ch = ch} (call f)
  call-Ends f = record { at = λ s _. ground arith }

  pub info_or_raise-Ends : (i : Option AccountInfo) → Ends (info_or_raise mgr i)
  unfolding info_or_raise
  info_or_raise-Ends i = record { at = λ s _. ground arith }

  broadcast-Ends : (b : ch.TxBytes) → Ends (broadcast mgr b)
  unfolding broadcast
  broadcast-Ends b = record { at = λ s _. ground arith }

  pub build_and_broadcast-Ends :
      (u : Text) (m : ch.Messages) (g : Option ℕ) (x y : ch.F) (q : Option ℕ)
      → Ends (build_and_broadcast mgr u m g x y q)
  unfolding build_and_broadcast
  build_and_broadcast-Ends u m g x y q = Triple-bind Any (calculate_optimal_fee-Ends _ x) (λ fee.
      record {
        at = λ s _.
            (Triple-bind Any (call-Ends ch.account_info) (λ found.
                Triple-bind Any (info_or_raise-Ends found) (λ info.
                  Triple-bind Any (call-Ends _) (λ tx_bytes.
                    Triple-bind Any (broadcast-Ends tx_bytes)
                      (λ hash. Triple-pure _ (λ s' _. tt)))))).at
              s tt;
      })
