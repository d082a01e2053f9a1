-- ===== src/Tx/State.antt =====
-- The objects of src/allora_sdk/rpc_client/tx_manager.py: `PendingTx`, the settings and the price
-- cache of `TxManager`, and the variables of one run of `_attempt_submissions`, in one record that
-- its calls pass on. One submission task is followed; other tasks act through the world.
use allora_sdk_py.Prelude.{ℕ, Bool, Option, some, if◌then◌else◌, is_some}
use allora_sdk_py.Exec.{Reply, outcome, ok, Exec}
use allora_sdk_py.Tx.Errors.{Text, Exc, TxResponse}
use allora_sdk_py.Tx.Chain.{Chain}

pub data FeeTier : Type 0 where
  eco standard priority : FeeTier

-- The final future: a result, an exception, or cancelled by `close`.
pub data Outcome : Type 0 where
  done : TxResponse → Outcome
  failed : Exc → Outcome
  future_cancelled : Outcome

pub record PendingTx (ch : Chain) : Type 0 where
  pub parent_tx_id : ℕ
  pub type_url : Text
  pub msgs : ch.Messages
  pub fee_tier : FeeTier
  pub max_retries : ℕ
  pub timeout : Option ℕ
  pub last_tx_hash : Option Text
  pub last_gas_limit : Option ℕ
  pub last_fee : Option ℕ
  pub last_landed_error : Option Exc
  pub attempt : ℕ
  pub final_future : Option Outcome
  pub same_seq_rebroadcast : Bool

-- What the constructor of `TxManager` keeps and nothing changes.
pub record TxManager (ch : Chain) : Type 0 where
  pub has_wallet : Bool
  pub address : Text
  pub fee_granter : Option Text
  pub max_fees : Option ℕ
  pub account_sequence_retry_delay : Option ch.F
  pub gas_adjustment : ch.F
  pub base_gas : Option ℕ
  pub simulate_gas_from_start : Bool
  pub query_interval : ℕ
  pub query_timeout : ℕ
  pub has_feemarket : Bool
  pub use_dynamic_gas_price : Bool
  pub congestion_aware_fees : Bool
  pub fee_minimum_gas_price : ch.F
  pub dynamic_gas_price_default_multiplier : ch.decimal.F
  pub gas_price_cache_ttl : ℕ

pub record Session (ch : Chain) : Type 0 where
  pub world : ch.World
  pub cached_gas_price : Option ch.decimal.F
  pub gas_price_cache_time : Option ℕ
  pub pending : PendingTx ch
  pub fee_multiplier : ch.F
  pub current_gas_limit : Option ℕ
  pub next_account_seq : Option ℕ

abbrev pub M : Chain → Type 0 → Type 0
M ch = Exec (Session ch) Exc

module _ {ch : Chain} where
  -- `_set_result`, `_set_exception`: a future that is done stays as it is
  unfoldable pub resolve : Outcome → PendingTx ch → PendingTx ch
  resolve o p = if is_some p.final_future then p else record p { final_future = some o }

  -- a call of the world
  abbrev pub call : {A : Type 0} → (ch.World → Reply Exc A × ch.World) → M ch A
  call f s = let (r, w) = f s.world in (outcome r, record s { world = w })

  -- `datetime.now()`
  abbrev pub time : M ch ℕ
  time s = let (t, w) = ch.now s.world in (ok t, record s { world = w })

  abbrev pub update_pending : (PendingTx ch → PendingTx ch) → M ch (Unit {0})
  update_pending f s = (ok tt, record s { pending = f s.pending })

  abbrev pub set_result : TxResponse → M ch (Unit {0})
  set_result resp = update_pending (resolve (done resp))

  abbrev pub set_exception : Exc → M ch (Unit {0})
  set_exception e = update_pending (resolve (failed e))
