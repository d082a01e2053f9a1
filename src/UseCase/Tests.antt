-- ===== src/UseCase/Tests.antt =====
-- The use cases at concrete inputs: a chain that counts payloads and stake, and takes every transaction.
use allora_sdk_py.Prelude.{
  ℕ, zero, suc, ◌+◌, ◌-◌, max, ◌≡◌, refl, sym, ap, ◌∙◌, true, false, none, some, [], ◌∷◌, map,
  length, get_or, ltb,
}
use allora_sdk_py.Prelude.Int.{pos}
use allora_sdk_py.Tx.Errors.{Text, codes}
use allora_sdk_py.Tx.State.{standard}
use allora_sdk_py.Exec.{ok, answer, ◌>>◌}
use allora_sdk_py.Exec.Post.{Post}
use allora_sdk_py.Canonical.{Decimals, finite, int}
use allora_sdk_py.Autostake.Key.{inferer, EventRewardsSettled, AutoStakeKey}
use allora_sdk_py.Autostake.Handler.{process_autostake_rewards_settled}
use allora_sdk_py.Autostake.Tests.{node, event, config, key, taken}
use allora_sdk_py.UseCase.{RunContext}
use allora_sdk_py.UseCase.Reputer.{
  NetworkInferenceBundle, ReputerHost, Reputer, submit, maybe_stake,
}
use allora_sdk_py.UseCase.Reputer.Counted.{IsCounted}
use allora_sdk_py.UseCase.Reputer.Payloads.{IsCancelled, Sent, submit-Sent}
use allora_sdk_py.UseCase.Reputer.Stake.{IsLedger, maybe_stake-Ends}
use allora_sdk_py.UseCase.Predictor.{scalar, PredictorHost, Options}
use allora_sdk_py.UseCase.Inferer.{
  SanityCheckConfig, Inferer, first_floats, is_throttled, sanity_check_submission,
  handle_rewards_settled,
}
use allora_sdk_py.UseCase.Inferer.Rewards.{handle_rewards_settled-again}
use allora_sdk_py.UseCase.Inferer.Throttle.{sanity_check_submission-throttled}
use allora_sdk_py.UseCase.GroundTruth.{Scoring, Scorer, cached, score_all, loss_by}
use allora_sdk_py.UseCase.GroundTruth.Once.{scored, score_all-once}

-- every number is read as zero
abbrev zeros_only : Decimals
zeros_only = record {
  F = ℕ;
  str_of_float = λ x. [];
  parse = λ t. none;
  of_int = λ n. finite false (0 ∷ []) (pos 0);
}

abbrev unary : ℕ → Text
unary zero = []
unary (suc n) = b'1' ∷ unary n

length-unary : (n : ℕ) → length (unary n) ≡ n
length-unary zero = refl
length-unary (suc n) = ap suc (length-unary n)

abbrev no_inferences : NetworkInferenceBundle
no_inferences = record {
  nonce = 5;
  combined_value = [];
  naive_value = [];
  inferer_values = [];
  forecaster_values = [];
  one_out_inferer_values = [];
  one_out_forecaster_values = [];
  one_in_forecaster_values = [];
  one_out_inferer_forecaster_values = [];
}

-- the payloads and the stake
abbrev chain : ReputerHost
chain = record {
  World = ℕ × ℕ;
  lib = zeros_only;
  float_of = λ t. some 0;
  int_of = λ t. some (length t);
  is_reputer_registered = λ w. (answer true, w);
  register = λ w. (answer tt, w);
  get_network_inferences_at_block = λ n w. (answer (some no_inferences), w);
  insert_reputer_payload = λ n b q w. (answer taken, (suc w.0, w.1));
  get_stake = λ w. (answer (unary w.1), w);
  add_stake = λ n w. (answer taken, (w.0, w.1 + n));
  can_submit_reputer_payload = λ w. (answer true, w);
  get_open_reputer_submission_windows = λ w. (answer none, w);
  Callable = Unit;
  call_fn = λ f c d w. (answer (int (pos 1)), w);
}

abbrev reputer : Reputer chain
reputer = record { reputer_fn = some tt; topic_id = 3; address = codes "a"; min_stake = some 9 }

chain-IsCounted : IsCounted chain (λ w. w.0)
chain-IsCounted = record {
  sends = λ n b q w. refl;
  inferences = λ n w. refl;
  stake = λ w. refl;
  staking = λ n w. refl;
  losses = λ f c d w. refl;
}

submit-Sent_example :
    Post ⊥
      (IsCancelled chain (λ w. w.0) chain-IsCounted 2)
      (Sent chain (λ w. w.0) chain-IsCounted 2)
      (submit chain reputer 5 1 (2, 4))
submit-Sent_example = submit-Sent chain (λ w. w.0) chain-IsCounted reputer 5 1 (2, 4)

chain-IsLedger : IsLedger chain (λ w. w.1)
chain-IsLedger = record {
  text_of = unary;
  reads = λ n c t e. ap (λ u. some (length u)) (sym e) ∙ ap some (length-unary n);
  empty = λ n e. sym (length-unary n) ∙ ap length e;
  told = λ w. refl;
  left = λ w. refl;
  response = taken;
  accepted = λ n w. refl;
  raised = λ n w. refl;
}

maybe_stake-Ends_example :
    Post ⊥
      (λ _ _. ⊥)
      (λ _ v. v.1 ≡ max (get_or reputer.min_stake 0) 4)
      (maybe_stake chain reputer (2, 4))
maybe_stake-Ends_example = maybe_stake-Ends chain (λ w. w.1) chain-IsLedger reputer (2, 4)

-- a chain whose clock is its stake
abbrev predictor : PredictorHost
predictor = record {
  staking = node;
  lib = zeros_only;
  float_of = λ v. some 0;
  float_of_text = λ t. some (length t);
  Secs = ℕ;
  minus = λ a b. a - b;
  below = ltb;
  monotonic = λ w. (w, suc w);
  is_worker_registered = λ w. (answer true, w);
  register = λ w. (answer tt, w);
  can_submit_worker_payload = λ w. (answer true, w);
  get_unfulfilled_worker_nonces = λ w. (answer none, w);
  insert_worker_payload = λ p n q w. (answer taken, w);
  get_latest_network_inferences = λ w. (answer ((codes "abc" ∷ []) ∷ []), w + 10);
  predict_fn = some (λ c w. (answer (scalar (int (pos 1))), w));
  forecast_fn = none;
}

abbrev options : Options
options = record { topic_id = 3; address = codes "a"; fee_tier = standard; autostake = some config }

abbrev new_inferer : Inferer predictor
new_inferer = record { world = 7; last_autostake_key = none; sanity_cache = none }

abbrev inferer_event : EventRewardsSettled
inferer_event = record event {
  actor_type = record { name = some (codes "ACTOR_TYPE_INFERER_UNSPECIFIED"); as_str = [] };
}

abbrev inferer_key : AutoStakeKey
inferer_key = record key { role = inferer }

rewarded :
    (process_autostake_rewards_settled node inferer inferer_event 3
      (codes "a")
      (some config)
      standard
      none
      7).0
    ≡ ok (some inferer_key)
unfolding process_autostake_rewards_settled
rewarded = refl

handle_rewards_settled-again_example :
    handle_rewards_settled predictor options inferer_event
      (handle_rewards_settled predictor options inferer_event new_inferer).1
    ≡ (ok tt, (handle_rewards_settled predictor options inferer_event new_inferer).1)
handle_rewards_settled-again_example =
    handle_rewards_settled-again predictor options inferer_event new_inferer inferer_key rewarded

abbrev sanity : SanityCheckConfig predictor
sanity = record { enabled = true; throttle_interval = 60 }

never_checked : is_throttled predictor 60 7 none ≡ false
unfolding is_throttled
never_checked = refl

sanity_check_submission-throttled_example :
    (sanity_check_submission predictor sanity >> sanity_check_submission predictor sanity)
      new_inferer
    ≡ (
      ok tt,
      record new_inferer {
        world = 19;
        sanity_cache = some (7, first_floats predictor ((codes "abc" ∷ []) ∷ []));
      },
    )
sanity_check_submission-throttled_example =
    sanity_check_submission-throttled predictor sanity new_inferer 7 18 8 18 19
      ((codes "abc" ∷ []) ∷ []) refl never_checked refl refl refl

-- the truth is how often it was fetched
abbrev scoring : Scoring
scoring = record {
  World = ℕ;
  F = ℕ;
  Truth = ℕ;
  gt_fn = λ c w. (answer w, suc w);
  loss_fn = λ t i. some t;
  log10_of = λ x. some x;
  log_loss = true;
  multi_output = true;
}

abbrev run : RunContext
run = record { run_topic = 3; run_nonce = 5 }

abbrev no_truth : Scorer scoring
no_truth = record { world = 4; gt_cache = none }

not_cached : cached scoring run none ≡ none
unfolding cached
not_cached = refl

score_all-once_example : score_all scoring run ([] ∷ [] ∷ []) no_truth ≡ (
  map (λ x. scored scoring run 4 (loss_by scoring 4 x)) ([] ∷ [] ∷ []),
  record { world = 5; gt_cache = some (run, 4) },
)
score_all-once_example = score_all-once scoring run 4 [] ([] ∷ []) no_truth 5 not_cached refl
