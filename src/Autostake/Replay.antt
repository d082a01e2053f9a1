-- ===== src/Autostake/Replay.antt =====
-- About src/allora_sdk/worker/autostake.py: an event that comes again, and the equality of keys.
use allora_sdk_py.Prelude.{
  ℕ, ◌≡◌, refl, Bool, true, false, Option, none, some, [], ◌∷◌, arith, Bool-cases, inl, inr,
  if◌then◌else◌,
}
use allora_sdk_py.Exec.{Result, ok, raise, stuck, pure}
use allora_sdk_py.Exec.Post.{Post}
use allora_sdk_py.Tx.Errors.{Text, text_eq}
use allora_sdk_py.Tx.State.{FeeTier}
use allora_sdk_py.Autostake.Text.{normalize_actor_type}
use allora_sdk_py.Prelude.Int.{ℤ, pos, negsuc}
use allora_sdk_py.Autostake.Key.{
  AutoStakeTargetType, reputer, validator, AutoStakeRole, inferer, forecaster, AutoStakeConfig,
  EventRewardsSettled, int_eq, role_eq, target_eq, AutoStakeKey, key_eq, keys_match, LastKey, full,
  extract_reward_amount_uallo, compute_stake_amount_uallo,
}
use allora_sdk_py.Autostake.Handler.{
  StakeHost, StakeFailure, expected_actor_type, same_topic, positive, stake_amount, event_key,
  stake_reward, process_event, process_autostake_rewards_settled,
}

text_eq_refl : (t : Text) → text_eq t t ≡ true
unfolding text_eq
text_eq_refl [] = refl
text_eq_refl (c ∷ t) = ground (arith, text_eq_refl t)

int_eq_refl : (n : ℤ) → int_eq n n ≡ true
unfolding int_eq
int_eq_refl (pos n) = ground arith
int_eq_refl (negsuc n) = ground arith

role_eq_refl : (r : AutoStakeRole) → role_eq r r ≡ true
unfolding role_eq
role_eq_refl inferer = refl
role_eq_refl forecaster = refl

target_eq_refl : (t : AutoStakeTargetType) → target_eq t t ≡ true
unfolding target_eq
target_eq_refl reputer = refl
target_eq_refl validator = refl

key_eq_refl : (k : AutoStakeKey) → key_eq k k ≡ true
unfolding key_eq
key_eq_refl k =
    rw
      (
        role_eq_refl k.role,
        target_eq_refl k.target_type,
        text_eq_refl k.target_address,
        int_eq_refl k.reward_uallo,
      )
      (ground arith)

-- it decided on no key, or on this one
abbrev IsKey : AutoStakeKey → Option AutoStakeKey → Type 0
IsKey key none = Unit
IsKey key (some k) = k ≡ key

module _ (h : StakeHost) (role : AutoStakeRole) (event : EventRewardsSettled) (topic_id : ℕ)
    (wallet_addr : Text) (autostake : AutoStakeConfig) (tier : FeeTier) where
  stake_amount-IsKey :
      (key : AutoStakeKey) (amount : ℕ) (w : h.World)
      → Post Unit
          (λ _ _. Unit)
          (λ o _. IsKey key o)
          (stake_amount h role event topic_id wallet_addr autostake tier key amount w)
  unfolding stake_amount
  stake_amount-IsKey key amount w = ground arith

  key_of :
      (key k : AutoStakeKey) (r : Result StakeFailure (Option AutoStakeKey) × h.World)
      → Post Unit (λ _ _. Unit) (λ o _. IsKey key o) r
      → r.0 ≡ ok (some k)
      → k ≡ key
  key_of key k (ok none, w) p e = ground arith
  key_of key k (ok (some l), w) p e = ground (arith, p)
  key_of key k (raise f, w) p e = ground arith
  key_of key k (stuck, w) p e = ground arith

  abbrev own_key : ℕ → AutoStakeKey
  own_key reward = event_key h role event topic_id wallet_addr autostake tier reward

  stake_reward-key :
      (reward : ℕ) (last : Option LastKey) (w : h.World) (k : AutoStakeKey)
      → (stake_reward h role event topic_id wallet_addr autostake tier last (some reward) w).0
        ≡ ok (some k)
      → k ≡ own_key reward
  unfolding stake_reward
  stake_reward-key reward last w k e = elim (Bool-cases (keys_match last (own_key reward))) [
    | inl seen ↦ absurd (ground arith)
    | inr new ↦
        key_of (own_key reward) k _
          (stake_amount-IsKey (own_key reward)
            (compute_stake_amount_uallo (pos reward) autostake.fee_reserve_uallo) w)
          (ground arith)
  ]

  replayed :
      (reward : Option ℕ) (last : Option LastKey) (w v : h.World) (k : AutoStakeKey)
      → (stake_reward h role event topic_id wallet_addr autostake tier last reward w).0
        ≡ ok (some k)
      → stake_reward h role event topic_id wallet_addr autostake tier (some (full k)) reward v
        ≡ (ok none, v)
  unfolding stake_reward keys_match
  replayed none last w v k e = refl
  replayed (some reward) last w v k e =
      rw (stake_reward-key reward last w k e, key_eq_refl (own_key reward)) refl

  gate :
      (b : Bool) (m m' : h.World → Result StakeFailure (Option AutoStakeKey) × h.World)
      (w v : h.World) (k : AutoStakeKey)
      → ((m w).0 ≡ ok (some k) → m' v ≡ (ok none, v))
      → ((if b then m else pure none) w).0 ≡ ok (some k)
      → (if b then m' else pure none) v ≡ (ok none, v)
  gate true m m' w v k f e = f e
  gate false m m' w v k f e = refl

  process_event-replayed :
      (last : Option LastKey) (w v : h.World) (k : AutoStakeKey)
      → (process_event h role event topic_id wallet_addr autostake tier last w).0 ≡ ok (some k)
      → process_event h role event topic_id wallet_addr autostake tier (some (full k)) v
        ≡ (ok none, v)
  unfolding process_event
  process_event-replayed last w v k e =
      let reward : Option ℕ = positive (extract_reward_amount_uallo h.numbers event wallet_addr) in
      gate (text_eq (normalize_actor_type event.actor_type) (expected_actor_type role)) _ _ w v k
        (gate (same_topic event.topic_id topic_id) _ _ w v k (replayed reward last w v k)) e

-- If the handler of a settled reward answered a key, then the same event with that key as the last
-- one answers none, and leaves any world as it is: nothing is staked twice.
pub process_autostake_rewards_settled-replayed :
    (h : StakeHost) (role : AutoStakeRole) (event : EventRewardsSettled) (topic_id : ℕ)
    (wallet_addr : Text) (autostake : Option AutoStakeConfig) (tier : FeeTier)
    (last : Option LastKey) (w v : h.World) (k : AutoStakeKey)
    → (process_autostake_rewards_settled h role event topic_id wallet_addr autostake tier last w).0
      ≡ ok (some k)
    → process_autostake_rewards_settled h role event topic_id wallet_addr autostake tier
        (some (full k))
        v
      ≡ (ok none, v)
unfolding process_autostake_rewards_settled
process_autostake_rewards_settled-replayed h role event topic_id wallet_addr none tier last w v k
      e =
    refl
process_autostake_rewards_settled-replayed h role event topic_id wallet_addr (some a) tier last w v
      k e =
    process_event-replayed h role event topic_id wallet_addr a tier last w v k e
