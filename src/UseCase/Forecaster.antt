-- ===== src/UseCase/Forecaster.antt =====
-- src/allora_sdk/worker/forecaster.py: forecasts of inferers, and their submission.
use allora_sdk_py.Prelude.{
  ℕ, Bool, true, false, ◌&&◌, ◌||◌, Option, none, some, List, [], ◌∷◌, ltb, ◌==◌, if◌then◌else◌,
}
use allora_sdk_py.Tx.Errors.{Text}
use allora_sdk_py.Exec.{Reply, pure, throw, try_except, ◌>>=◌}
use allora_sdk_py.Canonical.{DecInput, Fallible, value, error, canonicalize_dec}
use allora_sdk_py.Subscriber.Dict.{Dict}
use allora_sdk_py.Autostake.Key.{forecaster, EventRewardsSettled, LastKey}
use allora_sdk_py.UseCase.{
  UseFailure, failed, Submission, worker_result, error_value, on_submit_error, or_return,
  RunContext,
}
use allora_sdk_py.UseCase.Predictor.{forecast, PredictorHost, Options, P, ask, settle}

-- `<` on texts
unfoldable pub text_before : Text → Text → Bool
text_before [] [] = false
text_before [] (d ∷ u) = true
text_before (c ∷ t) [] = false
text_before (c ∷ t) (d ∷ u) = ltb c d || (c == d && text_before t u)

module _ {A : Type 0} where
  unfoldable pub insert_sorted : Text → A → Dict A → Dict A
  unfolding text_before
  insert_sorted k a [] = (k, a) ∷ []
  insert_sorted k a ((l, b) ∷ d) =
      let rest = insert_sorted k a d in
      if text_before l k then (l, b) ∷ rest else (k, a) ∷ (l, b) ∷ d

  -- `sorted(items, key=…)`; the keys of a dict differ
  unfoldable pub sorted_items : Dict A → Dict A
  unfolding insert_sorted
  sorted_items [] = []
  sorted_items ((k, a) ∷ d) = insert_sorted k a (sorted_items d)

module _ (h : PredictorHost) where
  unfoldable pub element : Text → Fallible Text → P h (Text × Text)
  element inferer (value t) = pure (inferer, t)
  element inferer (error e) = throw failed

  -- `forecast_elements`
  unfoldable pub forecast_elements : Dict (DecInput h.lib.F) → P h (List (Text × Text))
  unfolding element canonicalize_dec
  forecast_elements [] = pure []
  forecast_elements ((inferer, v) ∷ d) = element inferer (canonicalize_dec h.lib v) >>= λ x.
      forecast_elements d >>= λ xs. pure (x ∷ xs)

  unfoldable pub submit_forecasts :
      ℕ → ℕ → Dict (DecInput h.lib.F) → P h (Submission (Dict (DecInput h.lib.F)))
  unfolding forecast_elements sorted_items on_submit_error
  submit_forecasts nonce account_seq [] = pure (error_value failed)
  submit_forecasts nonce account_seq (f ∷ fs) =
      try_except
        (forecast_elements (sorted_items (f ∷ fs)) >>= λ elements.
          ask h (h.insert_worker_payload (forecast elements) nonce account_seq) >>= λ response.
          pure (worker_result (f ∷ fs) response))
        on_submit_error

  unfoldable pub forecast_by :
      Option (
        RunContext → h.staking.World → Reply UseFailure (Dict (DecInput h.lib.F)) × h.staking.World)
      → Options
      → ℕ
      → ℕ
      → P h (Submission (Dict (DecInput h.lib.F)))
  unfolding submit_forecasts
  forecast_by none o nonce account_seq = pure (error_value failed)
  forecast_by (some run) o nonce account_seq =
      or_return (ask h (run (record { run_topic = o.topic_id; run_nonce = nonce })))
        (submit_forecasts nonce account_seq)

  -- `submit`
  unfoldable pub submit_forecast : Options → ℕ → ℕ → P h (Submission (Dict (DecInput h.lib.F)))
  unfolding forecast_by
  submit_forecast o nonce account_seq = forecast_by h.forecast_fn o nonce account_seq

  -- `handle_rewards_settled`, on the last key
  unfoldable pub settle_forecaster :
      Options → EventRewardsSettled → Option LastKey → P h (Option LastKey)
  unfolding settle
  settle_forecaster o event last = settle h forecaster o event last
