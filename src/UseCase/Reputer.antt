-- ===== src/UseCase/Reputer.antt =====
-- src/allora_sdk/worker/reputer.py: the losses of the network's inferences, their submission, and the
-- stake of a reputer.
pub mod Counted
pub mod Payloads
pub mod Stake
use allora_sdk_py.Prelude.{
  ℕ, zero, suc, ◌+◌, ◌-◌, Bool, true, false, Option, none, some, List, [], ◌∷◌, map, leb, get_or,
  if◌then◌else◌,
}
use allora_sdk_py.Tx.Errors.{Text, codes, TxResponse}
use allora_sdk_py.Tx.State.{FeeTier}
use allora_sdk_py.Exec.{
  Result, ok, raise, stuck, Reply, Exec, outcome, pure, throw, try_except, ◌>>=◌, ◌>>◌,
}
use allora_sdk_py.Subscriber.Dict.{Dict, lookup, insert}
use allora_sdk_py.Canonical.{Decimals, DecInput, Fallible, value, error, canonicalize_dec}
use allora_sdk_py.Subscriber.Conditions.{and_then}
use allora_sdk_py.Worker.Nonces.{set_of}
use allora_sdk_py.UseCase.{
  UseFailure, failed, cancelled, Submission, worker_result, error_value, on_submit_error,
  return_error, ignore_failure, or_return, RunContext,
}

pub record LabeledValue : Type 0 where
  pub label_name : Text
  pub labeled : Text

-- values of one worker, or without it
pub record WorkerValues : Type 0 where
  pub worker : Text
  pub values : List LabeledValue

pub record OneOutInfererForecasterValue : Type 0 where
  pub forecaster : Text
  pub withheld_inferer : Text
  pub combined_inference : List LabeledValue

pub record NetworkInferenceBundle : Type 0 where
  pub nonce : ℕ
  pub combined_value : List LabeledValue
  pub naive_value : List LabeledValue
  pub inferer_values : List WorkerValues
  pub forecaster_values : List WorkerValues
  pub one_out_inferer_values : List WorkerValues
  pub one_out_forecaster_values : List WorkerValues
  pub one_in_forecaster_values : List WorkerValues
  pub one_out_inferer_forecaster_values : List OneOutInfererForecasterValue

pub record InputValueBundle : Type 0 where
  pub topic_id : ℕ
  pub reputer : Text
  pub combined_loss : Text
  pub naive_loss : Text
  pub inferer_losses : List (Text × Text)
  pub forecaster_losses : List (Text × Text)
  pub one_out_inferer_losses : List (Text × Text)
  pub one_out_forecaster_losses : List (Text × Text)
  pub one_in_forecaster_losses : List (Text × Text)
  -- by forecaster, and then by the inferer left out
  pub one_out_inferer_forecaster_losses : Dict (Dict Text)

pub record ReputerHost : Type 1 where
  pub World : Type 0
  -- decimals, `float(text)`, and `int(text)`, where they parse
  pub lib : Decimals
  pub float_of : Text → Option lib.F
  pub int_of : Text → Option ℕ
  -- the chain
  pub is_reputer_registered : World → Reply UseFailure Bool × World
  pub register : World → Reply UseFailure (Unit {0}) × World
  pub get_network_inferences_at_block :
      ℕ → World → Reply UseFailure (Option NetworkInferenceBundle) × World
  pub insert_reputer_payload :
      ℕ → InputValueBundle → ℕ → World → Reply UseFailure TxResponse × World
  pub get_stake : World → Reply UseFailure Text × World
  pub add_stake : ℕ → World → Reply UseFailure TxResponse × World
  pub can_submit_reputer_payload : World → Reply UseFailure Bool × World
  -- the block heights of the open windows, if the response has nonces
  pub get_open_reputer_submission_windows : World → Reply UseFailure (Option (List ℕ)) × World
  -- the user's function on a context and predictions: its type, with the call of it
  pub Callable : Type 0
  pub call_fn :
      Callable → RunContext → Dict lib.F → World → Reply UseFailure (DecInput lib.F) × World

-- how a reputer is built; `min_stake` is `min_stake_uallo`
pub record Reputer (h : ReputerHost) : Type 0 where
  pub reputer_fn : Option h.Callable
  pub topic_id : ℕ
  pub address : Text
  pub min_stake : Option ℕ

module _ (h : ReputerHost) where
  abbrev pub R : Type 0 → Type 0
  R = Exec h.World UseFailure

  abbrev pub ask : {A : Type 0} → (h.World → Reply UseFailure A × h.World) → R A
  ask f w = let (r, w') = f w in (outcome r, w')

  abbrev pub demand : {A : Type 0} → Option A → R A
  demand none = throw failed
  demand (some a) = pure a

  -- `{v.label_name: float(v.value) for v in values}`; `none` is the `ValueError`
  unfoldable pub predicted : List LabeledValue → Dict h.lib.F → Option (Dict h.lib.F)
  unfolding insert
  predicted [] acc = some acc
  predicted (v ∷ vs) acc =
      and_then (h.float_of v.labeled) (λ x. predicted vs (insert v.label_name x acc))

  -- the `ValueError` or `TypeError` of `canonicalize_dec`
  unfoldable pub or_failed : Fallible Text → R Text
  or_failed (value t) = pure t
  or_failed (error e) = throw failed

  -- `compute_loss`
  unfoldable pub compute_loss : h.Callable → RunContext → List LabeledValue → R Text
  unfolding predicted or_failed canonicalize_dec
  compute_loss fn context values = demand (predicted values []) >>= λ inferences.
      ask (h.call_fn fn context inferences) >>= λ loss. or_failed (canonicalize_dec h.lib loss)

  unfoldable pub worker_losses :
      h.Callable → RunContext → List WorkerValues → R (List (Text × Text))
  unfolding compute_loss
  worker_losses fn context [] = pure []
  worker_losses fn context (x ∷ xs) = compute_loss fn context x.values >>= λ loss.
      worker_losses fn context xs >>= λ losses. pure ((x.worker, loss) ∷ losses)

  -- `ooifs[forecaster][inferer] = loss`
  unfoldable pub put_loss : Text → Text → Text → Dict (Dict Text) → Dict (Dict Text)
  unfolding insert lookup
  put_loss forecaster inferer loss ooifs =
      insert forecaster (insert inferer loss (get_or (lookup forecaster ooifs) [])) ooifs

  unfoldable pub pair_losses :
      h.Callable
      → RunContext
      → List OneOutInfererForecasterValue
      → Dict (Dict Text)
      → R (Dict (Dict Text))
  unfolding compute_loss put_loss
  pair_losses fn context [] ooifs = pure ooifs
  pair_losses fn context (x ∷ xs) ooifs = compute_loss fn context x.combined_inference >>= λ loss.
      pair_losses fn context xs (put_loss x.forecaster x.withheld_inferer loss ooifs)

  -- `_compute_loss_bundle`; the reputer's address is filled in by `submit`
  unfoldable pub compute_loss_bundle : Reputer h → NetworkInferenceBundle → R InputValueBundle
  unfolding compute_loss worker_losses pair_losses
  compute_loss_bundle r bundle = do
    let context : RunContext = record { run_topic = r.topic_id; run_nonce = bundle.nonce }
    -- `ValueError` without a function
    fn ← demand r.reputer_fn
    combined ← compute_loss fn context bundle.combined_value
    naive ← compute_loss fn context bundle.naive_value
    inferers ← worker_losses fn context bundle.inferer_values
    forecasters ← worker_losses fn context bundle.forecaster_values
    one_out_inferers ← worker_losses fn context bundle.one_out_inferer_values
    one_out_forecasters ← worker_losses fn context bundle.one_out_forecaster_values
    one_in_forecasters ← worker_losses fn context bundle.one_in_forecaster_values
    pairs ← pair_losses fn context bundle.one_out_inferer_forecaster_values []
    pure (record {
      topic_id = r.topic_id;
      reputer = r.address;
      combined_loss = combined;
      naive_loss = naive;
      inferer_losses = inferers;
      forecaster_losses = forecasters;
      one_out_inferer_losses = one_out_inferers;
      one_out_forecaster_losses = one_out_forecasters;
      one_in_forecaster_losses = one_in_forecasters;
      one_out_inferer_forecaster_losses = pairs;
    })

  -- `int(stake_resp.amount) if stake_resp.amount else 0`
  unfoldable pub stake_of : Text → R ℕ
  stake_of [] = pure 0
  stake_of (c ∷ t) = demand (h.int_of (c ∷ t))

  -- the current stake, or `none` where it cannot be read
  unfoldable pub no_stake : UseFailure → R (Option ℕ)
  no_stake cancelled = throw cancelled
  no_stake _ = pure none

  unfoldable pub current_stake : R (Option ℕ)
  unfolding stake_of no_stake
  current_stake = try_except (ask h.get_stake >>= stake_of >>= λ n. pure (some n)) no_stake

  unfoldable pub top_up : ℕ → Option ℕ → R (Unit {0})
  unfolding ignore_failure
  top_up min_stake none = pure tt
  top_up min_stake (some current) =
      if leb min_stake current
      then pure tt
      else try_except (ask (h.add_stake (min_stake - current)) >> pure tt) ignore_failure

  unfoldable pub stake_to : Option ℕ → R (Unit {0})
  unfolding top_up current_stake
  stake_to none = pure tt
  stake_to (some zero) = pure tt
  stake_to (some (suc n)) = current_stake >>= top_up (suc n)

  -- `_maybe_stake`
  unfoldable pub maybe_stake : Reputer h → R (Unit {0})
  unfolding stake_to
  maybe_stake r = stake_to r.min_stake

  unfoldable pub register_unless : Bool → R (Unit {0})
  register_unless true = pure tt
  register_unless false = ask h.register

  unfoldable pub worker_is_whitelisted : R Bool
  worker_is_whitelisted = ask h.can_submit_reputer_payload

  -- `get_unfulfilled_nonces`
  unfoldable pub open_nonces : R (List ℕ)
  unfolding set_of
  open_nonces = ask h.get_open_reputer_submission_windows >>= λ nonces.
      pure (set_of (λ n. true) (get_or nonces []))

  -- `initialize`
  unfoldable pub initialize : Reputer h → R Bool
  unfolding register_unless maybe_stake ignore_failure
  initialize r =
      ask h.is_reputer_registered
      >>= register_unless
      >> try_except (maybe_stake r) ignore_failure
      >> pure true

  -- the stake behind a payload that went out
  unfoldable pub stake_after :
      Reputer h → Submission InputValueBundle → R (Submission InputValueBundle)
  unfolding maybe_stake ignore_failure
  stake_after r (worker_result bundle response) =
      try_except (maybe_stake r) ignore_failure >> pure (worker_result bundle response)
  stake_after r s = pure s

  unfoldable pub send_payload :
      Reputer h → ℕ → ℕ → InputValueBundle → R (Submission InputValueBundle)
  unfolding on_submit_error stake_after
  send_payload r nonce account_seq bundle =
      try_except
        (ask (h.insert_reputer_payload nonce bundle account_seq) >>= λ response.
          pure (worker_result bundle response))
        on_submit_error
      >>= stake_after r

  unfoldable pub submit_bundle :
      Reputer h → ℕ → ℕ → Option NetworkInferenceBundle → R (Submission InputValueBundle)
  unfolding compute_loss_bundle send_payload
  submit_bundle r nonce account_seq none = pure (error_value failed)
  submit_bundle r nonce account_seq (some bundle) =
      or_return (compute_loss_bundle r bundle) (send_payload r nonce account_seq)

  -- `submit`
  unfoldable pub submit : Reputer h → ℕ → ℕ → R (Submission InputValueBundle)
  unfolding submit_bundle
  submit r nonce account_seq =
      or_return (ask (h.get_network_inferences_at_block nonce)) (submit_bundle r nonce account_seq)
