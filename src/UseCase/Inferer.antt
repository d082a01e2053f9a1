-- ===== src/UseCase/Inferer.antt =====
-- src/allora_sdk/worker/inferer.py: a prediction, its throttled sanity check, and its submission. What the
-- check finds is only logged; it changes the cache of the network's inferences.
pub mod Rewards
pub mod Throttle
use allora_sdk_py.Prelude.{
  ℕ, Bool, true, false, ◌&&◌, Option, none, some, List, [], ◌∷◌, if◌then◌else◌,
}
use allora_sdk_py.Tx.Errors.{Text, codes, TxResponse}
use allora_sdk_py.Exec.{
  Result, ok, raise, stuck, Reply, Exec, outcome, pure, throw, gets, modify, try_except, ◌>>=◌,
  ◌>>◌,
}
use allora_sdk_py.Canonical.{DecInput, Fallible, value, error, canonicalize_dec}
use allora_sdk_py.Subscriber.Dict.{Dict}
use allora_sdk_py.Autostake.Key.{inferer, EventRewardsSettled, LastKey}
use allora_sdk_py.UseCase.{
  UseFailure, failed, Submission, worker_result, error_value, on_submit_error, ignore_failure,
  or_return, RunContext,
}
use allora_sdk_py.UseCase.Predictor.{
  Prediction, scalar, labels, Payload, inference, PredictorHost, Options, settle,
}

pub record SanityCheckConfig (h : PredictorHost) : Type 0 where
  pub enabled : Bool
  pub throttle_interval : h.Secs

pub record Inferer (h : PredictorHost) : Type 0 where
  pub world : h.staking.World
  pub last_autostake_key : Option LastKey
  pub sanity_cache : Option (h.Secs × List h.lib.F)

-- the texts that are the first of an inferer, and a float
unfoldable pub first_floats : (h : PredictorHost) → List (List Text) → List h.lib.F
first_floats h [] = []
first_floats h ([] ∷ vs) = first_floats h vs
first_floats h ((t ∷ _) ∷ vs) =
    let rest = first_floats h vs in elim (h.float_of_text t) [ none ↦ rest | some x ↦ x ∷ rest ]

-- whether the cache is younger than the interval
unfoldable pub is_throttled :
    (h : PredictorHost) → h.Secs → h.Secs → Option (h.Secs × List h.lib.F) → Bool
is_throttled h interval now none = false
is_throttled h interval now (some (at, _)) = h.below (h.minus now at) interval

module _ (h : PredictorHost) where
  abbrev pub I : Type 0 → Type 0
  I = Exec (Inferer h) UseFailure

  abbrev pub ask : {A : Type 0} → (h.staking.World → Reply UseFailure A × h.staking.World) → I A
  ask f s = let (r, w) = f s.world in (outcome r, record s { world = w })

  abbrev pub read : {A : Type 0} → (h.staking.World → A × h.staking.World) → I A
  read f s = let (a, w) = f s.world in pure a (record s { world = w })

  unfoldable pub refresh : h.Secs → Bool → I (Unit {0})
  unfolding first_floats
  refresh now true = pure tt
  refresh now false = ask h.get_latest_network_inferences >>= λ found.
      modify (λ s. record s { sanity_cache = some (now, first_floats h found) })

  -- `_sanity_check_submission`
  unfoldable pub sanity_check_submission : SanityCheckConfig h → I (Unit {0})
  unfolding refresh is_throttled ignore_failure
  sanity_check_submission c =
      try_except
        (read h.monotonic >>= λ now.
          gets (λ s. is_throttled h c.throttle_interval now s.sanity_cache) >>= refresh now)
        ignore_failure

  -- a prediction that is a float is checked
  unfoldable pub check_prediction : SanityCheckConfig h → Prediction h.lib.F → I (Unit {0})
  unfolding sanity_check_submission
  check_prediction c (labels d) = pure tt
  check_prediction c (scalar v) =
      if c.enabled
      then elim (h.float_of v) [ none ↦ pure tt | some x ↦ sanity_check_submission c ]
      else pure tt

  unfoldable pub labeled : Text → Fallible Text → I (Text × Text)
  labeled label (value t) = pure (label, t)
  labeled label (error e) = throw failed

  unfoldable pub labeled_all : Dict (DecInput h.lib.F) → I (List (Text × Text))
  unfolding labeled canonicalize_dec
  labeled_all [] = pure []
  labeled_all ((label, v) ∷ d) =
      labeled label (canonicalize_dec h.lib v) >>= λ x. labeled_all d >>= λ xs. pure (x ∷ xs)

  -- `prediction_dict`
  unfoldable pub labeled_values : Prediction h.lib.F → I (List (Text × Text))
  unfolding labeled_all
  labeled_values (scalar v) = labeled_all ((codes "y", v) ∷ [])
  labeled_values (labels d) = labeled_all d

  -- the exception of `canonicalize_dec` leaves `submit`
  unfoldable pub submit_prediction :
      SanityCheckConfig h → ℕ → ℕ → Prediction h.lib.F → I (Submission (Prediction h.lib.F))
  unfolding check_prediction labeled_values on_submit_error
  submit_prediction c nonce account_seq prediction =
      check_prediction c prediction >> labeled_values prediction >>= λ values.
      try_except
        (ask (h.insert_worker_payload (inference values) nonce account_seq) >>= λ response.
          pure (worker_result prediction response))
        on_submit_error

  unfoldable pub predicted_by :
      Option
        (RunContext → h.staking.World → Reply UseFailure (Prediction h.lib.F) × h.staking.World)
      → SanityCheckConfig h
      → Options
      → ℕ
      → ℕ
      → I (Submission (Prediction h.lib.F))
  unfolding submit_prediction
  predicted_by none c o nonce account_seq = pure (error_value failed)
  predicted_by (some predict) c o nonce account_seq =
      or_return (ask (predict (record { run_topic = o.topic_id; run_nonce = nonce })))
        (submit_prediction c nonce account_seq)

  -- `submit`
  unfoldable pub submit_inference :
      SanityCheckConfig h → Options → ℕ → ℕ → I (Submission (Prediction h.lib.F))
  unfolding predicted_by
  submit_inference c o nonce account_seq = predicted_by h.predict_fn c o nonce account_seq

  unfoldable pub remember :
      Inferer h
      → Result UseFailure (Option LastKey) × h.staking.World
      → Result UseFailure (Unit {0}) × Inferer h
  remember s (ok last, w) = (ok tt, record s { world = w; last_autostake_key = last })
  remember s (raise e, w) = (raise e, record s { world = w })
  remember s (stuck, w) = (stuck, record s { world = w })

  -- `handle_rewards_settled`
  unfoldable pub handle_rewards_settled : Options → EventRewardsSettled → I (Unit {0})
  unfolding remember settle
  handle_rewards_settled o event s =
      remember s (settle h inferer o event s.last_autostake_key s.world)
