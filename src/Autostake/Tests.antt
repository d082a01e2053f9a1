-- ===== src/Autostake/Tests.antt =====
-- A node that takes every delegation, and rewards in whole uallo: the theorems at concrete inputs.
use allora_sdk_py.Prelude.{ℕ, ◌+◌, ◌≡◌, refl, ap, true, none, some, [], ◌∷◌, arith}
use allora_sdk_py.Exec.{ok, answer}
use allora_sdk_py.Tx.Errors.{Text, codes, TxResponse}
use allora_sdk_py.Tx.State.{standard}
use allora_sdk_py.Prelude.Int.{pos}
use allora_sdk_py.Autostake.Key.{
  reputer, forecaster, AutoStakeConfig, EventRewardsSettled, Numbers, AutoStakeKey, full,
}
use allora_sdk_py.Autostake.Handler.{StakeHost, process_event, process_autostake_rewards_settled}
use allora_sdk_py.Autostake.Replay.{process_autostake_rewards_settled-replayed}
use allora_sdk_py.Autostake.Amount.{IsCovered, process_event-IsCovered}

-- a reward reads as the number of its characters
abbrev tally : Numbers
tally = record {
  Decimal = ℕ;
  parse_int = λ t. some (pos (count t));
  parse_decimal = λ t. none;
  is_finite = λ d. true;
  truncated = λ d. pos d;
}
  where
    count : Text → ℕ
    count [] = 0
    count (c ∷ t) = count t + 1

abbrev pub taken : TxResponse
taken = record {
  code = 0;
  codespace = [];
  raw_log = [];
  txhash = codes "AB";
  gas_wanted = 1;
  gas_used = 1;
}

-- The world is what was staked so far.
abbrev pub node : StakeHost
node = record {
  numbers = tally;
  World = ℕ;
  is_reputer_registered_in_topic_id = λ t a w. (answer true, w);
  has_staking_query = true;
  validator = λ a w. (answer true, w);
  balance = λ a w. (answer (some 1000), w);
  delegate_stake = λ a t r n f w. (answer taken, w + n);
  delegate = λ v n a f w. (answer taken, w + n);
}

abbrev pub event : EventRewardsSettled
event = record {
  actor_type = record { name = some (codes "ACTOR_TYPE_FORECASTER"); as_str = [] };
  topic_id = some 3;
  addresses = codes "b" ∷ codes "a" ∷ [];
  rewards = codes "--" ∷ codes "-----" ∷ [];
  block_height = some 12;
  block_height_tx = none;
}

abbrev pub config : AutoStakeConfig
config = record {
  target_type = reputer;
  target_address = codes "r";
  fee_tier = none;
  fee_reserve_uallo = pos 2;
}

abbrev pub key : AutoStakeKey
key = record {
  role = forecaster;
  topic_id = 3;
  target_type = reputer;
  target_address = codes "r";
  block_height_tx = 0;
  block_height = 12;
  reward_uallo = pos 5;
}

handled :
    process_autostake_rewards_settled node forecaster event 3
      (codes "a")
      (some config)
      standard
      none
      7
    ≡ (ok (some key), 10)
unfolding process_autostake_rewards_settled
handled = refl

process_autostake_rewards_settled-replayed_example :
    process_autostake_rewards_settled node forecaster event 3
      (codes "a")
      (some config)
      standard
      (some (full key))
      10
    ≡ (ok none, 10)
process_autostake_rewards_settled-replayed_example =
    process_autostake_rewards_settled-replayed node forecaster event 3 (codes "a") (some config)
      standard none 7 10 key (ap (λ r. r.0) handled)

process_event-IsCovered_example :
    IsCovered node
      (λ w. w)
      event
      (codes "a")
      config
      7
      (process_event node forecaster event 3 (codes "a") config standard none 7).1
process_event-IsCovered_example =
    process_event-IsCovered node (λ w. w) (λ a w. refl) (λ a t r n f w. omega arith)
      (λ v n a f w. omega arith) forecaster event 3 (codes "a") config standard none 7
