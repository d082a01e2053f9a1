-- ===== src/Autostake/Handler.antt =====
-- src/allora_sdk/worker/autostake.py: the validation of the configuration, and the handler of a
-- settled reward. A call answers or raises; `pending.wait()` is part of the delegation.
use allora_sdk_py.Prelude.{
  ℕ, suc, Bool, true, false, Option, none, some, ◌==◌, ltb, if◌then◌else◌, get_or,
}
use allora_sdk_py.Exec.{Reply, outcome, Exec, pure, throw, try_except, ◌>>=◌, ◌>>◌}
use allora_sdk_py.Tx.Errors.{Text, codes, text_eq, TxResponse}
use allora_sdk_py.Tx.State.{FeeTier}
use allora_sdk_py.Autostake.Text.{normalize_actor_type}
use allora_sdk_py.Prelude.Int.{ℤ, pos}
use allora_sdk_py.Autostake.Key.{
  AutoStakeTargetType, reputer, validator, AutoStakeRole, inferer, forecaster, AutoStakeConfig,
  EventRewardsSettled, Numbers, extract_reward_amount_uallo, compute_stake_amount_uallo,
  AutoStakeKey, make_autostake_key, LastKey, keys_match,
}

-- `InvalidAutoStakeConfigError`, any other `Exception`, and `asyncio.CancelledError`
pub data StakeFailure : Type 0 where
  invalid_config failed cancelled : StakeFailure

pub record StakeHost : Type 1 where
  pub numbers : Numbers
  pub World : Type 0
  pub is_reputer_registered_in_topic_id : ℕ → Text → World → Reply StakeFailure Bool × World
  -- whether the client has a staking query service, and whether it knows the validator
  pub has_staking_query : Bool
  pub validator : Text → World → Reply StakeFailure Bool × World
  -- the amount of the balance, if the response has one
  pub balance : Text → World → Reply StakeFailure (Option ℕ) × World
  pub delegate_stake : Text → ℕ → Text → ℕ → FeeTier → World → Reply StakeFailure TxResponse × World
  pub delegate : Text → ℕ → Text → FeeTier → World → Reply StakeFailure TxResponse × World

-- `_EXPECTED_ACTOR_TYPES_BY_ROLE`
unfoldable pub expected_actor_type : AutoStakeRole → Text
expected_actor_type inferer = codes "ACTOR_TYPE_INFERER_UNSPECIFIED"
expected_actor_type forecaster = codes "ACTOR_TYPE_FORECASTER"

unfoldable pub same_topic : Option ℕ → ℕ → Bool
same_topic none topic_id = false
same_topic (some t) topic_id = t == topic_id

-- the reward, if it is positive
unfoldable pub positive : Option ℤ → Option ℕ
positive (some (pos (suc n))) = some (suc n)
positive _ = none

module _ (h : StakeHost) where
  abbrev pub K : Type 0 → Type 0
  K = Exec h.World StakeFailure

  abbrev pub ask : {A : Type 0} → (h.World → Reply StakeFailure A × h.World) → K A
  ask f w = let (r, w') = f w in (outcome r, w')

  unfoldable pub require : Bool → K (Unit {0})
  require found = if found then pure tt else throw invalid_config

  on_validator_error : StakeFailure → K (Unit {0})
  on_validator_error cancelled = throw cancelled
  on_validator_error _ = throw invalid_config

  unfoldable pub validate_target : AutoStakeTargetType → Text → ℕ → K (Unit {0})
  unfolding require on_validator_error
  validate_target reputer address topic_id =
      ask (h.is_reputer_registered_in_topic_id topic_id address) >>= require
  validate_target validator address topic_id =
      if h.has_staking_query
      then try_except (ask (h.validator address) >>= require) on_validator_error
      else pure tt

  -- `validate_autostake_config`
  unfoldable pub validate_autostake_config : Option AutoStakeConfig → ℕ → K (Unit {0})
  unfolding validate_target
  validate_autostake_config none topic_id = pure tt
  validate_autostake_config (some autostake) topic_id =
      validate_target autostake.target_type autostake.target_address topic_id

  -- the `except Exception` of a balance check and of a delegation: go on with what is given
  unfoldable pub carry_on : {A : Type 0} → A → StakeFailure → K A
  carry_on a cancelled = throw cancelled
  carry_on a _ = pure a

  -- whether the balance is enough, or could not be read
  unfoldable pub can_afford : Text → ℕ → K Bool
  unfolding carry_on
  can_afford wallet_addr amount =
      try_except
        (ask (h.balance wallet_addr) >>= λ available.
          pure (if ltb (get_or available 0) amount then false else true))
        (carry_on true)

  -- the transaction; a response with an error code is only logged
  unfoldable pub stake : AutoStakeTargetType → Text → ℕ → Text → ℕ → FeeTier → K (Unit {0})
  unfolding carry_on
  stake reputer wallet_addr topic_id address amount tier =
      try_except (ask (h.delegate_stake wallet_addr topic_id address amount tier) >> pure tt)
        (carry_on tt)
  stake validator wallet_addr topic_id address amount tier =
      try_except (ask (h.delegate address amount wallet_addr tier) >> pure tt) (carry_on tt)

  module _ (role : AutoStakeRole) (event : EventRewardsSettled) (topic_id : ℕ) (wallet_addr : Text)
      (autostake : AutoStakeConfig) (default_fee_tier : FeeTier) where
    -- what follows the checks of the event and of the key
    unfoldable pub stake_amount : AutoStakeKey → ℕ → K (Option AutoStakeKey)
    unfolding can_afford stake
    stake_amount key amount = if amount == 0 then pure none else do
      affordable ← can_afford wallet_addr amount
      if affordable
          then stake autostake.target_type wallet_addr topic_id autostake.target_address amount
              (get_or autostake.fee_tier default_fee_tier)
            >> pure (some key)
          else pure none

    unfoldable pub event_key : ℕ → AutoStakeKey
    unfolding make_autostake_key
    event_key reward =
        make_autostake_key role topic_id autostake.target_type autostake.target_address
          (get_or event.block_height 0) event.block_height_tx (pos reward)

    unfoldable pub stake_reward : Option LastKey → Option ℕ → K (Option AutoStakeKey)
    unfolding stake_amount event_key keys_match compute_stake_amount_uallo
    stake_reward last none = pure none
    stake_reward last (some reward) =
        if keys_match last (event_key reward)
        then pure none
        else stake_amount (event_key reward)
            (compute_stake_amount_uallo (pos reward) autostake.fee_reserve_uallo)

    unfoldable pub process_event : Option LastKey → K (Option AutoStakeKey)
    unfolding normalize_actor_type expected_actor_type same_topic positive stake_reward
        extract_reward_amount_uallo
    process_event last =
        if text_eq (normalize_actor_type event.actor_type) (expected_actor_type role)
        then if same_topic event.topic_id topic_id
          then stake_reward last
              (positive (extract_reward_amount_uallo h.numbers event wallet_addr))
          else pure none
        else pure none

  -- `process_autostake_rewards_settled`
  unfoldable pub process_autostake_rewards_settled :
      AutoStakeRole
      → EventRewardsSettled
      → ℕ
      → Text
      → Option AutoStakeConfig
      → FeeTier
      → Option LastKey
      → K (Option AutoStakeKey)
  unfolding process_event
  process_autostake_rewards_settled role event topic_id wallet_addr none tier last = pure none
  process_autostake_rewards_settled role event topic_id wallet_addr (some autostake) tier last =
      process_event role event topic_id wallet_addr autostake tier last
