-- ===== src/UseCase/Predictor.antt =====
-- src/allora_sdk/worker/inferer.py and forecaster.py: what both use cases call, their registration, and
-- their settled rewards.
use allora_sdk_py.Prelude.{get_or, [], ℕ, Bool, true, false, Option, none, some, List}
use allora_sdk_py.Tx.Errors.{Text, TxResponse}
use allora_sdk_py.Tx.State.{FeeTier}
use allora_sdk_py.Exec.{Result, ok, raise, stuck, Reply, Exec, outcome, pure, ◌>>=◌, ◌>>◌}
use allora_sdk_py.Canonical.{Decimals, DecInput}
use allora_sdk_py.Subscriber.Dict.{Dict}
use allora_sdk_py.Autostake.Key.{
  AutoStakeRole, AutoStakeConfig, EventRewardsSettled, AutoStakeKey, LastKey, full,
}
use allora_sdk_py.Autostake.Handler.{
  StakeFailure, StakeHost, validate_autostake_config, process_autostake_rewards_settled,
}
use allora_sdk_py.Worker.Nonces.{set_of}
use allora_sdk_py.UseCase.{UseFailure, failed, RunContext}

-- a value, or one for each label
pub data Prediction (F : Type 0) : Type 0 where
  scalar : DecInput F → Prediction F
  labels : Dict (DecInput F) → Prediction F

-- the labeled values of an inference, or the elements of a forecast
pub data Payload : Type 0 where
  inference : List (Text × Text) → Payload
  forecast : List (Text × Text) → Payload

pub record PredictorHost : Type 1 where
  -- the chain and the world, as autostaking sees them
  pub staking : StakeHost
  pub lib : Decimals
  -- `float(value)`; `none` is a `ValueError` or `TypeError`
  pub float_of : DecInput lib.F → Option lib.F
  pub float_of_text : Text → Option lib.F
  pub Secs : Type 0
  pub minus : Secs → Secs → Secs
  pub below : Secs → Secs → Bool
  pub monotonic : staking.World → Secs × staking.World
  pub is_worker_registered : staking.World → Reply UseFailure Bool × staking.World
  pub register : staking.World → Reply UseFailure (Unit {0}) × staking.World
  pub can_submit_worker_payload : staking.World → Reply UseFailure Bool × staking.World
  -- the block heights of the unfulfilled nonces, if the response has any
  pub get_unfulfilled_worker_nonces :
      staking.World → Reply UseFailure (Option (List ℕ)) × staking.World
  pub insert_worker_payload :
      Payload → ℕ → ℕ → staking.World → Reply UseFailure TxResponse × staking.World
  -- the texts of each inferer's values; none where there are no network inferences
  pub get_latest_network_inferences :
      staking.World → Reply UseFailure (List (List Text)) × staking.World
  -- the user's functions, where they are configured
  pub predict_fn :
      Option (RunContext → staking.World → Reply UseFailure (Prediction lib.F) × staking.World)
  pub forecast_fn :
      Option (RunContext → staking.World → Reply UseFailure (Dict (DecInput lib.F)) × staking.World)

-- how a use case is built
pub record Options : Type 0 where
  pub topic_id : ℕ
  pub address : Text
  pub fee_tier : FeeTier
  pub autostake : Option AutoStakeConfig

unfoldable pub use_failure : StakeFailure → UseFailure
use_failure StakeFailure.cancelled = UseFailure.cancelled
use_failure _ = failed

module _ (h : PredictorHost) where
  abbrev pub P : Type 0 → Type 0
  P = Exec h.staking.World UseFailure

  abbrev pub ask : {A : Type 0} → (h.staking.World → Reply UseFailure A × h.staking.World) → P A
  ask f w = let (r, w') = f w in (outcome r, w')

  abbrev pub staked : {A W : Type 0} → Result StakeFailure A × W → Result UseFailure A × W
  staked (ok a, w) = (ok a, w)
  staked (raise e, w) = (raise (use_failure e), w)
  staked (stuck, w) = (stuck, w)

  unfoldable pub register_unless : Bool → P Bool
  register_unless true = pure false
  register_unless false = ask h.register >> pure true

  -- `worker_is_whitelisted`
  unfoldable pub is_predictor_whitelisted : P Bool
  is_predictor_whitelisted = ask h.can_submit_worker_payload

  -- `get_unfulfilled_nonces`
  unfoldable pub unfulfilled_nonces : P (List ℕ)
  unfolding set_of
  unfulfilled_nonces =
      ask h.get_unfulfilled_worker_nonces >>= λ nonces. pure (set_of (λ n. true) (get_or nonces []))

  -- `initialize`
  unfoldable pub initialize_predictor : Options → P Bool
  unfolding register_unless validate_autostake_config use_failure
  initialize_predictor o =
      (λ w. staked (validate_autostake_config h.staking o.autostake o.topic_id w))
      >> ask h.is_worker_registered
      >>= register_unless

  -- the last key behind `handle_rewards_settled`
  unfoldable pub kept : Option LastKey → Option AutoStakeKey → Option LastKey
  kept last none = last
  kept last (some key) = some (full key)

  unfoldable pub after_event :
      Option LastKey
      → Result UseFailure (Option AutoStakeKey) × h.staking.World
      → Result UseFailure (Option LastKey) × h.staking.World
  unfolding kept
  after_event last (ok k, v) = (ok (kept last k), v)
  after_event last (raise e, v) = (raise e, v)
  after_event last (stuck, v) = (stuck, v)

  -- `handle_rewards_settled`, on the last key
  unfoldable pub settle :
      AutoStakeRole → Options → EventRewardsSettled → Option LastKey → P (Option LastKey)
  unfolding after_event process_autostake_rewards_settled use_failure
  settle role o event last w = after_event last (
      staked (
        process_autostake_rewards_settled h.staking role event o.topic_id o.address o.autostake
          o.fee_tier last w))
