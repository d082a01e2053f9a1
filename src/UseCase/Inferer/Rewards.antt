-- ===== src/UseCase/Inferer/Rewards.antt =====
-- About src/allora_sdk/worker/inferer.py: a settled reward that is told twice.
use allora_sdk_py.Prelude.{◌≡◌, ap, ◌∙◌, Option, some}
use allora_sdk_py.Exec.{Result, ok, raise, stuck}
use allora_sdk_py.Autostake.Key.{inferer, EventRewardsSettled, AutoStakeKey, LastKey, full}
use allora_sdk_py.Autostake.Handler.{StakeFailure, process_autostake_rewards_settled}
use allora_sdk_py.Autostake.Replay.{process_autostake_rewards_settled-replayed}
use allora_sdk_py.UseCase.Predictor.{PredictorHost, Options, settle, kept, after_event, staked}
use allora_sdk_py.UseCase.Inferer.{Inferer, remember, handle_rewards_settled}

module _ (h : PredictorHost) (o : Options) (event : EventRewardsSettled) where
  -- the handler of autostaking
  abbrev process :
      Option LastKey → h.staking.World → Result StakeFailure (Option AutoStakeKey) × h.staking.World
  process last w =
      process_autostake_rewards_settled h.staking inferer event o.topic_id o.address o.autostake
        o.fee_tier last w

  remembered :
      (s : Inferer h) (k : AutoStakeKey)
      (r : Result StakeFailure (Option AutoStakeKey) × h.staking.World)
      → r.0 ≡ ok (some k)
      → (remember h s (after_event h s.last_autostake_key (staked h r))).1.last_autostake_key
        ≡ some (full k)
  unfolding remember after_event kept
  remembered s k (ok x, w) e = let same : x ≡ some k = cc in ap (kept h s.last_autostake_key) same
  remembered s k (raise f, w) e = absurd cc
  remembered s k (stuck, w) e = absurd cc

  told_twice :
      (s t : Inferer h) (k : AutoStakeKey)
      → (process s.last_autostake_key s.world).0 ≡ ok (some k)
      → t.last_autostake_key ≡ some (full k)
      → handle_rewards_settled h o event t ≡ (ok tt, t)
  unfolding handle_rewards_settled settle remember after_event kept
  told_twice s t k e p =
      ap (λ r. remember h t (after_event h t.last_autostake_key (staked h r)))
        (ap (λ last. process last t.world) p
          ∙ process_autostake_rewards_settled-replayed h.staking inferer event o.topic_id o.address
              o.autostake o.fee_tier s.last_autostake_key s.world t.world k e)

  -- If the handler of autostaking answers a key for a settled reward, then an inferer that handled
  -- the reward and is told of it again stakes nothing more: handling it again returns and changes
  -- nothing.
  pub handle_rewards_settled-again :
      (s : Inferer h) (k : AutoStakeKey)
      → (process_autostake_rewards_settled h.staking inferer event o.topic_id o.address o.autostake
          o.fee_tier s.last_autostake_key s.world).0
        ≡ ok (some k)
      → handle_rewards_settled h o event (handle_rewards_settled h o event s).1
        ≡ (ok tt, (handle_rewards_settled h o event s).1)
  unfolding handle_rewards_settled settle
  handle_rewards_settled-again s k e =
      told_twice s (handle_rewards_settled h o event s).1 k e
        (remembered s k (process s.last_autostake_key s.world) e)
