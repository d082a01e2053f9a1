-- ===== src/Autostake/Key.antt =====
-- src/allora_sdk/worker/autostake.py: the configuration, the events, the amounts and the key that
-- tells an event which was handled before.
use allora_sdk_py.Prelude.{
  ℕ, zero, suc, ◌-◌, Bool, true, false, ◌&&◌, Option, none, some, List, [], ◌∷◌, ◌==◌,
  if◌then◌else◌, get_or,
}
use allora_sdk_py.Prelude.Int.{ℤ, pos, negsuc}
use allora_sdk_py.Tx.Errors.{Text, text_eq}
use allora_sdk_py.Tx.State.{FeeTier}
use allora_sdk_py.Autostake.Text.{ActorType}

-- `max(0, n)`
unfoldable pub at_least_zero : ℤ → ℕ
at_least_zero (pos n) = n
at_least_zero (negsuc n) = 0

unfoldable pub int_eq : ℤ → ℤ → Bool
int_eq (pos a) (pos b) = a == b
int_eq (negsuc a) (negsuc b) = a == b
int_eq _ _ = false

pub data AutoStakeTargetType : Type 0 where
  reputer validator : AutoStakeTargetType

pub data AutoStakeRole : Type 0 where
  inferer forecaster : AutoStakeRole

pub record AutoStakeConfig : Type 0 where
  pub target_type : AutoStakeTargetType
  pub target_address : Text
  pub fee_tier : Option FeeTier
  pub fee_reserve_uallo : ℤ

-- The attributes of `EventRewardsSettled` that the code reads; those read by `getattr` may be absent.
pub record EventRewardsSettled : Type 0 where
  pub actor_type : ActorType
  pub topic_id : Option ℕ
  pub addresses : List Text
  pub rewards : List Text
  pub block_height : Option ℕ
  pub block_height_tx : Option ℕ

-- `int(s)` and `Decimal(s)`: `none` is the exception that the code catches
pub record Numbers : Type 1 where
  pub Decimal : Type 0
  pub parse_int : Text → Option ℤ
  pub parse_decimal : Text → Option Decimal
  pub is_finite : Decimal → Bool
  pub truncated : Decimal → ℤ

-- `list.index`, if the text is in the list
unfoldable pub index_of : Text → List Text → Option ℕ
index_of t [] = none
index_of t (u ∷ l) =
    let rest = index_of t l in
    if text_eq t u then some 0 else elim rest [ none ↦ none | some i ↦ some (suc i) ]

unfoldable pub get_elem? : List Text → ℕ → Option Text
get_elem? [] i = none
get_elem? (t ∷ l) zero = some t
get_elem? (t ∷ l) (suc i) = get_elem? l i

module _ (numbers : Numbers) where
  from_decimal : Option numbers.Decimal → Option ℤ
  from_decimal none = none
  from_decimal (some d) = if numbers.is_finite d then some (numbers.truncated d) else none

  parse_reward : Text → Option ℤ → Option ℤ
  unfolding from_decimal
  parse_reward raw (some n) = some n
  parse_reward raw none = from_decimal (numbers.parse_decimal raw)

  reward_of : Option Text → Option ℤ
  unfolding parse_reward
  reward_of none = none
  reward_of (some raw) = parse_reward raw (numbers.parse_int raw)

  reward_at : List Text → Option ℕ → Option ℤ
  unfolding reward_of get_elem?
  reward_at rewards none = none
  reward_at rewards (some i) = reward_of (get_elem? rewards i)

  -- `extract_reward_amount_uallo`
  unfoldable pub extract_reward_amount_uallo : EventRewardsSettled → Text → Option ℤ
  unfolding reward_at index_of
  extract_reward_amount_uallo event wallet_addr =
      reward_at event.rewards (index_of wallet_addr event.addresses)

-- `compute_stake_amount_uallo`: `max(0, reward - max(0, reserve))`, which subtraction on ℕ is, once
-- a negative reward counts as 0
unfoldable pub compute_stake_amount_uallo : ℤ → ℤ → ℕ
unfolding at_least_zero
compute_stake_amount_uallo reward_uallo fee_reserve_uallo =
    at_least_zero reward_uallo - at_least_zero fee_reserve_uallo

pub record AutoStakeKey : Type 0 where
  pub role : AutoStakeRole
  pub topic_id : ℕ
  pub target_type : AutoStakeTargetType
  pub target_address : Text
  pub block_height_tx : ℕ
  pub block_height : ℕ
  pub reward_uallo : ℤ

-- `make_autostake_key`
unfoldable pub make_autostake_key :
    AutoStakeRole → ℕ → AutoStakeTargetType → Text → ℕ → Option ℕ → ℤ → AutoStakeKey
make_autostake_key role topic_id target_type target_address block_height block_height_tx reward =
    record {
      role = role;
      topic_id = topic_id;
      target_type = target_type;
      target_address = target_address;
      block_height_tx = get_or block_height_tx 0;
      block_height = block_height;
      reward_uallo = reward;
    }

-- a key, or the legacy pair of height and reward
pub data LastKey : Type 0 where
  full : AutoStakeKey → LastKey
  legacy : ℕ → ℤ → LastKey

unfoldable pub role_eq : AutoStakeRole → AutoStakeRole → Bool
role_eq inferer inferer = true
role_eq forecaster forecaster = true
role_eq _ _ = false

unfoldable pub target_eq : AutoStakeTargetType → AutoStakeTargetType → Bool
target_eq reputer reputer = true
target_eq validator validator = true
target_eq _ _ = false

-- `==` on the tuples
unfoldable pub key_eq : AutoStakeKey → AutoStakeKey → Bool
unfolding role_eq target_eq text_eq int_eq
key_eq a b =
    role_eq a.role b.role
    && (a.topic_id == b.topic_id)
    && target_eq a.target_type b.target_type
    && text_eq a.target_address b.target_address
    && (a.block_height_tx == b.block_height_tx)
    && (a.block_height == b.block_height)
    && int_eq a.reward_uallo b.reward_uallo

-- `_keys_match`
unfoldable pub keys_match : Option LastKey → AutoStakeKey → Bool
unfolding key_eq int_eq
keys_match none new = false
keys_match (some (legacy height reward)) new =
    (height == new.block_height) && int_eq reward new.reward_uallo
keys_match (some (full last)) new = key_eq last new
