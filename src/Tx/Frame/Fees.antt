-- ===== src/Tx/Frame/Fees.antt =====
-- About src/allora_sdk/rpc_client/tx_manager.py: the poll, the checks and the fee, each with a
-- frame.
use allora_sdk_py.Prelude.{
  ℕ, zero, suc, ◌+◌, ◌-◌, Bool, true, false, not, ◌&&◌, ◌||◌, Option, none, some, [], ◌∷◌, List,
  leb, ltb, ◌==◌,
}
use allora_sdk_py.Exec.{Result, ok, raise, stuck, pure, outcome}
use allora_sdk_py.Exec.Post.{Post, Triple-if, Triple-try}
use allora_sdk_py.Tx.Errors.{
  Text, Exc, insufficient_balance, max_fees_exceeded, tx_not_found, tx_timeout, timeout_error,
  TxResponse,
}
use allora_sdk_py.Tx.Chain.{Chain, scaled}
use allora_sdk_py.Tx.State.{TxManager, Session, M}
use allora_sdk_py.Tx.Landed.{get_tx_checked}
use allora_sdk_py.Tx.Fees.{
  store_price, priced, query_price, price_at, cached_or_query, over_cap, congested,
  get_current_gas_price, congestion, judge_params, judge_state, check_network_congestion,
  calculate_optimal_fee,
}
use allora_sdk_py.Tx.Broadcast.{
  keep_balance_error, cut, wait_for, poll_error, poll, unless_found, poll_loop, polls, wait_for_tx,
  or_default, check_balance, payer_checks, pre_flight_checks,
}
use allora_sdk_py.Tx.Frame.{
  Predicate, IsFrame, On, Keeps, call-Keeps, time-Keeps, reply-Post, slept, asked_account,
  asked_balance, asked_price, asked_state, asked_params,
}
use allora_sdk_py.Tx.Frame.Steps.{
  Keeps-pure, Keeps-throw, Keeps-catch, Keeps-bind, get_tx_checked-Keeps,
}

module _ (ch : Chain) (I : Predicate ch) (frame : IsFrame ch I) where
  abbrev pub AfterOn : {A : Type 0} → Result Exc A × Session ch → Type 0
  AfterOn = Post Unit (λ _. On ch I) (λ _. On ch I)

  cut_off-Post :
      {A : Type 0} (b : Bool) (p : Result Exc A × Session ch) → AfterOn p → AfterOn (cut b p)
  unfolding cut
  cut_off-Post true (ok a, s) h = h
  cut_off-Post true (raise x, s) h = h
  cut_off-Post true (stuck, s) h = tt
  cut_off-Post false p h = h

  wait_for-Keeps : {A : Type 0} (r : ℕ) (m : M ch A) → Keeps ch I m → Keeps ch I (wait_for r m)
  unfolding wait_for
  wait_for-Keeps zero m h = record { at = λ s p. p }
  wait_for-Keeps (suc r) m h = record {
    at = λ s p. cut_off-Post (ch.cut_off (suc r) s.world (m s).1.world) (m s) (h.at s p);
  }

  poll_error-Keeps : (e : Exc) → Keeps ch I (poll_error {ch = ch} e)
  unfolding poll_error
  poll_error-Keeps tx_not_found = Keeps-pure ch I frame none
  poll_error-Keeps timeout_error = Keeps-throw ch I frame tx_timeout
  poll_error-Keeps e = Keeps-throw ch I frame e

  poll-Keeps : (hash : Text) (start timeout : ℕ) → Keeps ch I (poll {ch = ch} hash start timeout)
  unfolding poll
  poll-Keeps hash start timeout = Keeps-bind ch I frame (time-Keeps ch I frame) (λ t.
      Triple-try (λ _. On ch I)
        (Keeps-bind ch I frame
          (wait_for-Keeps (start + timeout - t) (get_tx_checked hash)
            (get_tx_checked-Keeps ch I frame hash))
          (λ r. Keeps-pure ch I frame (some r)))
        poll_error-Keeps)

  unless_found-Keeps :
      (deadline period : ℕ) (next : M ch TxResponse) (o : Option TxResponse)
      → Keeps ch I next
      → Keeps ch I (unless_found deadline period next o)
  unfolding unless_found
  unless_found-Keeps deadline period next (some r) h = Keeps-pure ch I frame r
  unless_found-Keeps deadline period next none h =
      Keeps-bind ch I frame (time-Keeps ch I frame) (λ t.
        Triple-if (leb deadline t) (Keeps-throw ch I frame tx_timeout)
          (Keeps-bind ch I frame (call-Keeps ch I frame (ch.sleep period) (slept period)) (λ _. h)))

  poll_loop-Keeps :
      (n : ℕ) (hash : Text) (start timeout period : ℕ)
      → Keeps ch I (poll_loop {ch = ch} n hash start timeout period)
  unfolding poll_loop
  poll_loop-Keeps zero hash start timeout period = record { at = λ s h. tt }
  poll_loop-Keeps (suc n) hash start timeout period =
      let rest = poll_loop-Keeps n hash start timeout period in
      Keeps-bind ch I frame (poll-Keeps hash start timeout)
        (λ o. unless_found-Keeps (start + timeout) period _ o rest)

  pub wait_for_tx-Keeps :
      (mgr : TxManager ch) (hash : Text) (t p : Option ℕ) → Keeps ch I (wait_for_tx mgr hash t p)
  unfolding wait_for_tx
  wait_for_tx-Keeps mgr hash t p = Keeps-bind ch I frame (time-Keeps ch I frame) (λ start.
      let limit = or_default t mgr.query_timeout in
      let period = or_default p mgr.query_interval in
      poll_loop-Keeps (polls limit period) hash start limit period)

module _ (ch : Chain) (I : Predicate ch) (frame : IsFrame ch I) (mgr : TxManager ch) where
  keep_balance_error-Keeps : (e : Exc) → Keeps ch I (keep_balance_error {ch = ch} e)
  unfolding keep_balance_error
  keep_balance_error-Keeps insufficient_balance = record { at = λ s h. h }
  keep_balance_error-Keeps e = Keeps-catch ch I frame (λ _. pure tt) e (Keeps-pure ch I frame tt)

  check_balance-Keeps : (o : Option ℕ) → Keeps ch I (check_balance mgr o)
  unfolding check_balance
  check_balance-Keeps none = Keeps-pure ch I frame tt
  check_balance-Keeps (some a) =
      Triple-if (ltb a _) (Keeps-throw ch I frame insufficient_balance) (Keeps-pure ch I frame tt)

  payer_checks-Keeps : (g : Option Text) → Keeps ch I (payer_checks mgr g)
  unfolding payer_checks
  payer_checks-Keeps (some g) =
      Keeps-bind ch I frame (call-Keeps ch I frame (ch.balance g) (asked_balance g)) (λ _.
        Keeps-bind ch I frame
          (call-Keeps ch I frame (ch.balance mgr.address) (asked_balance mgr.address))
          (λ _. Keeps-pure ch I frame tt))
  payer_checks-Keeps none =
      Keeps-bind ch I frame
        (call-Keeps ch I frame (ch.balance mgr.address) (asked_balance mgr.address))
        check_balance-Keeps

  pub pre_flight_checks-Keeps : Keeps ch I (pre_flight_checks mgr)
  unfolding pre_flight_checks
  pre_flight_checks-Keeps =
      Triple-if mgr.has_wallet
        (Triple-try (λ _. On ch I)
          (Keeps-bind ch I frame (call-Keeps ch I frame ch.account asked_account)
            (λ _. payer_checks-Keeps mgr.fee_granter))
          keep_balance_error-Keeps)
        (Keeps-throw ch I frame _)

  price_at-Keeps : (x : Option ch.decimal.F) (a : Option ℕ) → Keeps ch I (price_at mgr x a)
  unfolding price_at
  price_at-Keeps (some x) (some a) = record { at = λ s h. (time-Keeps ch I frame).at s h }
  price_at-Keeps _ _ = Keeps-pure ch I frame none

  store_price-Keeps : (x : ch.decimal.F) → Keeps ch I (store_price mgr x)
  unfolding store_price
  store_price-Keeps x = record { at = λ s h. (time-Keeps ch I frame).at s h }

  parse-Keeps : (t : Text) → Keeps ch I (λ s. (outcome (ch.parse_decimal t), s))
  parse-Keeps t = record { at = λ s h. reply-Post ch I frame (ch.parse_decimal t) s h }

  priced-Keeps : (a : Option Text) → Keeps ch I (priced mgr a)
  unfolding priced
  priced-Keeps none = Keeps-pure ch I frame mgr.fee_minimum_gas_price
  priced-Keeps (some t) = Keeps-bind ch I frame (parse-Keeps t) store_price-Keeps

  static_price-Keeps : Keeps ch I (pure mgr.fee_minimum_gas_price)
  static_price-Keeps = Keeps-pure ch I frame mgr.fee_minimum_gas_price

  query_price-Keeps : Keeps ch I (query_price mgr)
  unfolding query_price
  query_price-Keeps =
      Triple-if (mgr.use_dynamic_gas_price && mgr.has_feemarket)
        (Triple-try (λ _. On ch I)
          (Keeps-bind ch I frame (call-Keeps ch I frame ch.gas_price asked_price) priced-Keeps)
          (λ e. Keeps-catch ch I frame (λ _. pure mgr.fee_minimum_gas_price) e static_price-Keeps))
        static_price-Keeps

  cached_or_query-Keeps : (x : Option ch.decimal.F) → Keeps ch I (cached_or_query mgr x)
  unfolding cached_or_query
  cached_or_query-Keeps (some x) = Keeps-pure ch I frame (ch.to_float x)
  cached_or_query-Keeps none = query_price-Keeps

  get_current_gas_price-Keeps : Keeps ch I (get_current_gas_price mgr)
  unfolding get_current_gas_price
  get_current_gas_price-Keeps =
      Keeps-bind ch I frame
        (record { at = λ s h. (price_at-Keeps s.cached_gas_price s.gas_price_cache_time).at s h })
        cached_or_query-Keeps

  judge_params-Keeps : (w : List ℕ) (p : Option ℕ) → Keeps ch I (judge_params mgr w p)
  unfolding judge_params
  judge_params-Keeps w none = Keeps-pure ch I frame none
  judge_params-Keeps w (some m) =
      Triple-if (m == 0) (Keeps-pure ch I frame none) (Keeps-pure ch I frame (congestion mgr w m))

  judge_state-Keeps : (o : Option (List ℕ)) → Keeps ch I (judge_state mgr o)
  unfolding judge_state
  judge_state-Keeps none = Keeps-pure ch I frame none
  judge_state-Keeps (some []) = Keeps-pure ch I frame none
  judge_state-Keeps (some (x ∷ xs)) =
      Keeps-bind ch I frame (call-Keeps ch I frame ch.feemarket_params asked_params)
        (judge_params-Keeps (x ∷ xs))

  check_network_congestion-Keeps : Keeps ch I (check_network_congestion mgr)
  unfolding check_network_congestion
  check_network_congestion-Keeps =
      Triple-if (not mgr.congestion_aware_fees || not mgr.has_feemarket)
        (Keeps-pure ch I frame none)
        (Triple-try (λ _. On ch I)
          (Keeps-bind ch I frame (call-Keeps ch I frame ch.feemarket_state asked_state)
            judge_state-Keeps)
          (λ e. Keeps-catch ch I frame (λ _. pure none) e (Keeps-pure ch I frame none)))

  pub calculate_optimal_fee-Keeps : (g : ℕ) (x : ch.F) → Keeps ch I (calculate_optimal_fee mgr g x)
  unfolding calculate_optimal_fee
  calculate_optimal_fee-Keeps g x = Keeps-bind ch I frame get_current_gas_price-Keeps (λ p.
      Keeps-bind ch I frame check_network_congestion-Keeps (λ c.
        let fee = scaled ch g (congested mgr (ch.times p x) c) in
        Triple-if (over_cap mgr mgr.max_fees fee) (Keeps-throw ch I frame max_fees_exceeded)
          (Keeps-pure ch I frame fee)))
