-- ===== src/Autostake/Amount.antt =====
-- About src/allora_sdk/worker/autostake.py: the amount that the handler of a settled reward
-- delegates.
use allora_sdk_py.Prelude.{
  ℕ, ◌+◌, ◌-◌, ◌≤◌, ◌≡◌, ◌≢◌, refl, Bool, true, false, Option, none, some, arith, Bool-cases, inl,
  inr, ◌⊎◌, get_or, if◌then◌else◌,
}
use allora_sdk_py.Exec.{Result, pure}
use allora_sdk_py.Tx.Errors.{Text, text_eq}
use allora_sdk_py.Tx.State.{FeeTier}
use allora_sdk_py.Autostake.Text.{normalize_actor_type}
use allora_sdk_py.Prelude.Int.{pos}
use allora_sdk_py.Autostake.Key.{
  at_least_zero, AutoStakeTargetType, reputer, validator, AutoStakeRole, AutoStakeConfig,
  EventRewardsSettled, AutoStakeKey, LastKey, extract_reward_amount_uallo,
  compute_stake_amount_uallo, keys_match,
}
use allora_sdk_py.Autostake.Handler.{
  StakeHost, expected_actor_type, same_topic, StakeFailure, invalid_config, failed, cancelled,
  positive, carry_on, can_afford, stake, stake_amount, event_key, stake_reward, process_event,
}

module _ (h : StakeHost) (staked : h.World → ℕ) (event : EventRewardsSettled) (wallet_addr : Text)
    (autostake : AutoStakeConfig) where
  -- Nothing was staked, or the wallet has a positive reward in the event, and what was staked and
  -- the reserve are within it.
  abbrev pub IsCovered : h.World → h.World → Type 0
  IsCovered w w' =
      (staked w' ≡ staked w)
      ⊎ ((reward : ℕ) × ((positive (extract_reward_amount_uallo h.numbers event wallet_addr)
              ≡ some reward)
            × (staked w' + at_least_zero autostake.fee_reserve_uallo ≤ staked w + reward)))

module _ (h : StakeHost) (staked : h.World → ℕ)
    (reads : (a : Text) (w : h.World) → staked (h.balance a w).1 ≡ staked w)
    (to_reputer : (a : Text) (t : ℕ) (r : Text) (n : ℕ) (f : FeeTier) (w : h.World)
      → staked (h.delegate_stake a t r n f w).1 ≤ staked w + n)
    (to_validator : (v : Text) (n : ℕ) (a : Text) (f : FeeTier) (w : h.World)
      → staked (h.delegate v n a f w).1 ≤ staked w + n) where
  carry_on-world : {A : Type 0} (a : A) (e : StakeFailure) (w : h.World) → (carry_on h a e w).1 ≡ w
  unfolding carry_on
  carry_on-world a invalid_config w = refl
  carry_on-world a failed w = refl
  carry_on-world a cancelled w = refl

  can_afford-staked : (a : Text) (n : ℕ) (w : h.World) → staked (can_afford h a n w).1 ≡ staked w
  unfolding can_afford
  can_afford-staked a n w = ground (arith, reads a w)

  stake-staked :
      (t : AutoStakeTargetType) (a : Text) (i : ℕ) (r : Text) (n : ℕ) (f : FeeTier) (w : h.World)
      → staked (stake h t a i r n f w).1 ≤ staked w + n
  unfolding stake
  stake-staked reputer a i r n f w = ground (arith, to_reputer a i r n f w)
  stake-staked validator a i r n f w = ground (arith, to_validator r n a f w)

  module _ (role : AutoStakeRole) (event : EventRewardsSettled) (topic_id : ℕ) (wallet_addr : Text)
      (autostake : AutoStakeConfig) (tier : FeeTier) where
    abbrev reserve : ℕ
    reserve = at_least_zero autostake.fee_reserve_uallo

    -- unchanged, or by at most `n`, where something is left of it
    abbrev IsWithin : ℕ → h.World → h.World → Type 0
    IsWithin reward w w' = (staked w' ≡ staked w) ⊎ (staked w' + reserve ≤ staked w + reward)

    stake_amount-staked :
        (key : AutoStakeKey) (n : ℕ) (w : h.World)
        → (staked (stake_amount h role event topic_id wallet_addr autostake tier key n w).1
            ≡ staked w)
          ⊎ ((n ≢ 0)
              × (staked (stake_amount h role event topic_id wallet_addr autostake tier key n w).1
                  ≤ staked w + n))
    unfolding stake_amount
    stake_amount-staked key n w = ground (
      arith,
      can_afford-staked wallet_addr n w,
      stake-staked autostake.target_type wallet_addr topic_id autostake.target_address n
          (get_or autostake.fee_tier tier) (can_afford h wallet_addr n w).1,
    )

    stake_reward-IsWithin :
        (last : Option LastKey) (reward : ℕ) (w : h.World)
        → IsWithin reward w
            (stake_reward h role event topic_id wallet_addr autostake tier last (some reward) w).1
    unfolding stake_reward compute_stake_amount_uallo
    stake_reward-IsWithin last reward w =
        let key : AutoStakeKey =
          event_key h role event topic_id wallet_addr autostake tier reward in
        elim (Bool-cases (keys_match last key)) [
          | inl seen ↦ rw seen (inl refl)
          | inr new ↦
              rw new
                (ground (arith, stake_amount-staked key (at_least_zero (pos reward) - reserve) w))
        ]

    stake_reward-IsCovered :
        (last : Option LastKey) (reward : Option ℕ) (w : h.World)
        → positive (extract_reward_amount_uallo h.numbers event wallet_addr) ≡ reward
        → IsCovered h staked event wallet_addr autostake w
            (stake_reward h role event topic_id wallet_addr autostake tier last reward w).1
    stake_reward-IsCovered last none w e = unfold stake_reward in inl refl
    stake_reward-IsCovered last (some reward) w e = elim (stake_reward-IsWithin last reward w) [
      | inl same ↦ inl same
      | inr within ↦ inr (reward, (e, within))
    ]

    gate :
        (b : Bool) (m : h.World → Result StakeFailure (Option AutoStakeKey) × h.World) (w : h.World)
        → IsCovered h staked event wallet_addr autostake w (m w).1
        → IsCovered h staked event wallet_addr autostake w ((if b then m else pure none) w).1
    gate true m w c = c
    gate false m w c = inl refl

    -- Let the amount staked be left by a balance query and raised by at most its amount by a
    -- delegation. Then the handler of an event stakes nothing, or what it stakes and the fee
    -- reserve are within the wallet's positive reward in the event.
    pub process_event-IsCovered :
        (last : Option LastKey) (w : h.World)
        → IsCovered h staked event wallet_addr autostake w
            (process_event h role event topic_id wallet_addr autostake tier last w).1
    unfolding process_event
    process_event-IsCovered last w =
        gate (text_eq (normalize_actor_type event.actor_type) (expected_actor_type role)) _ w (
          gate (same_topic event.topic_id topic_id) _ w (
            stake_reward-IsCovered last
              (positive (extract_reward_amount_uallo h.numbers event wallet_addr)) w refl))
