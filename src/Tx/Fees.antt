-- ===== src/Tx/Fees.antt =====
-- src/allora_sdk/rpc_client/tx_manager.py: gas estimates, the cached gas price, the congestion
-- multiplier and the fee.
use allora_sdk_py.Prelude.{
  ℕ, ◌+◌, ◌^◌, Bool, false, not, ◌&&◌, ◌||◌, Option, none, some, List, [], ◌∷◌, String, ◌==◌, ltb,
  length, if◌then◌else◌,
}
use allora_sdk_py.Exec.{outcome, pure, throw, modify, ◌>>=◌, ◌>>◌, try_except}
use allora_sdk_py.Tx.Errors.{Text, codes, max_fees_exceeded, text_eq, is_fatal}
use allora_sdk_py.Tx.Chain.{Chain, scaled}
use allora_sdk_py.Tx.State.{TxManager, FeeTier, eco, standard, priority, M, call, time}
use allora_sdk_py.Tx.Landed.{catch}

-- `_default_gas_limits`
abbrev pub default_gas_limits : List (String × ℕ)
default_gas_limits =
    ("/emissions.v10.InsertWorkerPayloadRequest", 250000)
    ∷ ("/emissions.v10.CreateNewTopicRequest", 300000)
    ∷ ("/emissions.v10.FundTopicRequest", 150000)
    ∷ ("/emissions.v10.BulkAddToTopicWorkerWhitelistRequest", 200000)
    ∷ ("/emissions.v10.BulkAddToTopicReputerWhitelistRequest", 200000)
    ∷ ("/cosmos.bank.v1beta1.MsgSend", 250000)
    ∷ ("/cosmos.staking.v1beta1.MsgDelegate", 100000)
    ∷ ("/cosmos.staking.v1beta1.MsgUndelegate", 100000)
    ∷ []

-- `self._default_gas_limits.get(type_url, 200000)`
unfoldable pub gas_limit_of : List (String × ℕ) → Text → ℕ
gas_limit_of [] type_url = 200000
gas_limit_of ((k, v) ∷ d) type_url =
    if text_eq (codes k) type_url then v else gas_limit_of d type_url

abbrev pub sum : List ℕ → ℕ
sum [] = 0
sum (x ∷ xs) = x + sum xs

module _ {ch : Chain} (mgr : TxManager ch) where
  -- `_fee_multipliers`
  unfoldable pub fee_multiplier_of : FeeTier → ch.F
  fee_multiplier_of eco = ch.literal 10 1
  fee_multiplier_of standard = ch.literal 15 1
  fee_multiplier_of priority = ch.literal 25 1

  -- `_estimate_gas`
  unfoldable pub estimate_gas : Text → ℕ
  unfolding gas_limit_of
  estimate_gas type_url = elim mgr.base_gas [
    | some base ↦ scaled ch base mgr.gas_adjustment
    | none ↦ scaled ch (gas_limit_of default_gas_limits type_url) mgr.gas_adjustment
  ]

  -- the cached price, if it is younger than its time to live; the clock is read only if both
  -- fields of the cache are set
  unfoldable pub price_at : Option ch.decimal.F → Option ℕ → M ch (Option ch.decimal.F)
  price_at (some price) (some at) = do
    t ← time
    pure (if ltb t (at + mgr.gas_price_cache_ttl) then some price else none)
  price_at _ _ = pure none

  unfoldable pub cached_price : M ch (Option ch.decimal.F)
  unfolding price_at
  cached_price s = price_at s.cached_gas_price s.gas_price_cache_time s

  -- `price_raw / 10 ** 18 * multiplier`, kept in the cache
  unfoldable pub store_price : ch.decimal.F → M ch ch.F
  store_price raw = do
    let one = ch.decimal.of_int (10 ^ 18)
    let adjusted =
        ch.decimal.times (ch.decimal.divide raw one) mgr.dynamic_gas_price_default_multiplier
    modify (λ s. record s { cached_gas_price = some adjusted })
    t ← time
    modify (λ s. record s { gas_price_cache_time = some t })
    pure (ch.to_float adjusted)

  unfoldable pub priced : Option Text → M ch ch.F
  unfolding store_price
  priced none = pure mgr.fee_minimum_gas_price
  priced (some amount) = do raw ← (λ s. (outcome (ch.parse_decimal amount), s)); store_price raw

  unfoldable pub query_price : M ch ch.F
  unfolding priced is_fatal
  query_price =
      if mgr.use_dynamic_gas_price && mgr.has_feemarket
      then try_except (call ch.gas_price >>= priced) (catch (λ _. pure mgr.fee_minimum_gas_price))
      else pure mgr.fee_minimum_gas_price

  unfoldable pub cached_or_query : Option ch.decimal.F → M ch ch.F
  unfolding query_price
  cached_or_query (some price) = pure (ch.to_float price)
  cached_or_query none = query_price

  -- `_get_current_gas_price`
  unfoldable pub get_current_gas_price : M ch ch.F
  unfolding cached_price cached_or_query
  get_current_gas_price = do cached ← cached_price; cached_or_query cached

  -- the verdict on the utilization
  unfoldable pub congestion : List ℕ → ℕ → Option ch.F
  congestion window max_utilization =
      let average = ch.divide (ch.of_int (sum window)) (ch.of_int (length window)) in
      let ratio = ch.divide average (ch.of_int max_utilization) in
      if ch.below (ch.literal 9 1) ratio
      then some (ch.literal 20 1)
      else if ch.below (ch.literal 8 1) ratio
      then some (ch.literal 15 1)
      else some (ch.literal 10 1)

  unfoldable pub judge_params : List ℕ → Option ℕ → M ch (Option ch.F)
  unfolding congestion
  judge_params window none = pure none
  judge_params window (some max_utilization) =
      if max_utilization == 0 then pure none else pure (congestion window max_utilization)

  unfoldable pub judge_state : Option (List ℕ) → M ch (Option ch.F)
  unfolding judge_params
  judge_state none = pure none
  judge_state (some []) = pure none
  judge_state (some (x ∷ xs)) = do params ← call ch.feemarket_params; judge_params (x ∷ xs) params

  -- `_check_network_congestion`
  unfoldable pub check_network_congestion : M ch (Option ch.F)
  unfolding judge_state is_fatal
  check_network_congestion =
      if not mgr.congestion_aware_fees || not mgr.has_feemarket
      then pure none
      else try_except (call ch.feemarket_state >>= judge_state) (catch (λ _. pure none))

  -- the price with the congestion multiplier, if that is above 1.0
  unfoldable pub congested : ch.F → Option ch.F → ch.F
  congested price none = price
  congested price (some m) = if ch.below (ch.literal 10 1) m then ch.times price m else price

  unfoldable pub over_cap : Option ℕ → ℕ → Bool
  over_cap none fee = false
  over_cap (some cap) fee = ltb cap fee

  -- `_calculate_optimal_fee`; a `Coin` is its amount, always in `config.fee_denom`
  unfoldable pub calculate_optimal_fee : ℕ → ch.F → M ch ℕ
  unfolding get_current_gas_price check_network_congestion congested over_cap
  calculate_optimal_fee gas_limit fee_multiplier = do
    base_price ← get_current_gas_price
    congestion_multiplier ← check_network_congestion
    let price = congested (ch.times base_price fee_multiplier) congestion_multiplier
    let fee_amount = scaled ch gas_limit price
    if over_cap mgr.max_fees fee_amount then throw max_fees_exceeded else pure fee_amount
