-- ===== src/UseCase/Reputer/Counted.antt =====
-- About src/allora_sdk/worker/reputer.py: the calls of a reputer that send no payload.
use allora_sdk_py.Prelude.{
  ℕ, zero, suc, ◌≡◌, refl, ◌∙◌, Option, none, some, List, [], ◌∷◌, leb, ◌-◌,
}
use allora_sdk_py.Tx.Errors.{Text}
use allora_sdk_py.Exec.{Reply, answer, fault, outcome, pure, throw, try_except, ◌>>=◌, ◌>>◌}
use allora_sdk_py.Exec.Post.{
  Post, Triple, Triple-pure, Triple-throw, Triple-if, Triple-bind, Triple-try, Triple-weaken,
}
use allora_sdk_py.Subscriber.Dict.{Dict}
use allora_sdk_py.Canonical.{Fallible, value, error, canonicalize_dec}
use allora_sdk_py.UseCase.{UseFailure, tx_error, failed, cancelled, ignore_failure, RunContext}
use allora_sdk_py.UseCase.Reputer.{
  WorkerValues, OneOutInfererForecasterValue, NetworkInferenceBundle, InputValueBundle, ReputerHost,
  Reputer, R, ask, demand, predicted, or_failed, compute_loss, worker_losses, put_loss, pair_losses,
  compute_loss_bundle, stake_of, no_stake, current_stake, top_up, stake_to, maybe_stake,
  LabeledValue,
}

-- a count of payloads: one more for each that is sent, and no change by any other call
pub record IsCounted (h : ReputerHost) (count : h.World → ℕ) : Type 0 where
  pub sends :
      (nonce : ℕ) (bundle : InputValueBundle) (seq : ℕ) (w : h.World)
      → count (h.insert_reputer_payload nonce bundle seq w).1 ≡ suc (count w)
  pub inferences :
      (nonce : ℕ) (w : h.World) → count (h.get_network_inferences_at_block nonce w).1 ≡ count w
  pub stake : (w : h.World) → count (h.get_stake w).1 ≡ count w
  pub staking : (amount : ℕ) (w : h.World) → count (h.add_stake amount w).1 ≡ count w
  pub losses :
      (fn : h.Callable) (context : RunContext) (d : Dict h.lib.F) (w : h.World)
      → count (h.call_fn fn context d w).1 ≡ count w

module _ (h : ReputerHost) (count : h.World → ℕ) (counted : IsCounted h count) where
  abbrev pub Is : ℕ → h.World → Type 0
  Is n w = count w ≡ n

  -- it ends, and no payload is sent
  abbrev pub Still : {A : Type 0} → R h A → Type 0
  Still m = (n : ℕ) → Triple ⊥ (Is n) (λ _. Is n) (λ _. Is n) m

  pub outcome-Post :
      {A : Type 0} (n : ℕ) (r : Reply UseFailure A) (w : h.World)
      → count w ≡ n
      → Post ⊥ (λ _. Is n) (λ _. Is n) (outcome r, w)
  outcome-Post n (answer a) w p = p
  outcome-Post n (fault e) w p = p

  pub ask-Still :
      {A : Type 0} (f : h.World → Reply UseFailure A × h.World)
      → ((w : h.World) → count (f w).1 ≡ count w)
      → Still (ask h f)
  ask-Still f k n = record { at = λ w p. outcome-Post n (f w).0 (f w).1 (k w ∙ p) }

  pub pure-Still : {A : Type 0} (a : A) → Still (pure a)
  pure-Still a n = Triple-pure a (λ w p. p)

  pub throw-Still : {A : Type 0} (e : UseFailure) → Still (throw {A = A} e)
  throw-Still e n = Triple-throw e (λ w p. p)

  pub bind-Still :
      {A B : Type 0} {m : R h A} {f : A → R h B}
      → Still m
      → ((a : A) → Still (f a))
      → Still (m >>= f)
  bind-Still p q n = Triple-bind (λ _. Is n) (p n) (λ a. q a n)

  pub demand-Still : {A : Type 0} (o : Option A) → Still (demand h o)
  demand-Still none = throw-Still failed
  demand-Still (some a) = pure-Still a

  pub or_failed-Still : (t : Fallible Text) → Still (or_failed h t)
  unfolding or_failed
  or_failed-Still (value t) = pure-Still t
  or_failed-Still (error e) = throw-Still failed

  pub compute_loss-Still :
      (fn : h.Callable) (context : RunContext) (vs : List LabeledValue)
      → Still (compute_loss h fn context vs)
  unfolding compute_loss
  compute_loss-Still fn context vs = bind-Still (demand-Still (predicted h vs [])) (λ d.
      bind-Still (ask-Still (h.call_fn fn context d) (counted.losses fn context d))
        (λ loss. or_failed-Still (canonicalize_dec h.lib loss)))

  pub worker_losses-Still :
      (fn : h.Callable) (context : RunContext) (xs : List WorkerValues)
      → Still (worker_losses h fn context xs)
  unfolding worker_losses
  worker_losses-Still fn context [] = pure-Still []
  worker_losses-Still fn context (x ∷ xs) =
      bind-Still (compute_loss-Still fn context x.values) (λ loss.
        bind-Still (worker_losses-Still fn context xs)
          (λ losses. pure-Still ((x.worker, loss) ∷ losses)))

  pub pair_losses-Still :
      (fn : h.Callable) (context : RunContext) (xs : List OneOutInfererForecasterValue)
      (d : Dict (Dict Text))
      → Still (pair_losses h fn context xs d)
  unfolding pair_losses
  pair_losses-Still fn context [] d = pure-Still d
  pair_losses-Still fn context (x ∷ xs) d =
      bind-Still (compute_loss-Still fn context x.combined_inference) (λ loss.
        pair_losses-Still fn context xs (put_loss h x.forecaster x.withheld_inferer loss d))

  pub compute_loss_bundle-Still :
      (r : Reputer h) (b : NetworkInferenceBundle) → Still (compute_loss_bundle h r b)
  unfolding compute_loss_bundle
  compute_loss_bundle-Still r b =
      let c : RunContext = record { run_topic = r.topic_id; run_nonce = b.nonce } in
      bind-Still (demand-Still r.reputer_fn) (λ fn.
        bind-Still (compute_loss-Still fn c b.combined_value) (λ combined.
          bind-Still (compute_loss-Still fn c b.naive_value) (λ naive.
            bind-Still (worker_losses-Still fn c b.inferer_values) (λ l1.
              bind-Still (worker_losses-Still fn c b.forecaster_values) (λ l2.
                bind-Still (worker_losses-Still fn c b.one_out_inferer_values) (λ l3.
                  bind-Still (worker_losses-Still fn c b.one_out_forecaster_values) (λ l4.
                    bind-Still (worker_losses-Still fn c b.one_in_forecaster_values) (λ l5.
                      bind-Still (pair_losses-Still fn c b.one_out_inferer_forecaster_values [])
                        (λ pairs. pure-Still _)))))))))

  -- it ends, sends no payload, and raises nothing but the cancellation
  abbrev pub Calm : {A : Type 0} → R h A → Type 0
  Calm m = (n : ℕ) → Triple ⊥ (Is n) (λ e w. (e ≡ cancelled) × (count w ≡ n)) (λ _. Is n) m

  pub pure-Calm : {A : Type 0} (a : A) → Calm (pure a)
  pure-Calm a n = Triple-pure a (λ w p. p)

  pub cancelled-Calm : {A : Type 0} → Calm (throw {A = A} cancelled)
  cancelled-Calm n = Triple-throw cancelled (λ w p. (refl, p))

  pub bind-Calm :
      {A B : Type 0} {m : R h A} {f : A → R h B} → Calm m → ((a : A) → Calm (f a)) → Calm (m >>= f)
  bind-Calm p q n = Triple-bind (λ _. Is n) (p n) (λ a. q a n)

  pub try-Calm :
      {A : Type 0} {m : R h A} {f : UseFailure → R h A}
      → Still m
      → ((e : UseFailure) → Calm (f e))
      → Calm (try_except m f)
  try-Calm p q n = Triple-try (λ _. Is n) (p n) (λ e. q e n)

  pub Calm-Still : {A : Type 0} {m : R h A} → Calm m → Still m
  Calm-Still p n = Triple-weaken (p n) (λ w q. q) (λ e w q. q.1) (λ a w q. q)

  pub ignore_failure-Calm : (e : UseFailure) → Calm (ignore_failure {W = h.World} e)
  unfolding ignore_failure
  ignore_failure-Calm (tx_error e) = pure-Calm tt
  ignore_failure-Calm failed = pure-Calm tt
  ignore_failure-Calm cancelled = cancelled-Calm

  pub no_stake-Calm : (e : UseFailure) → Calm (no_stake h e)
  unfolding no_stake
  no_stake-Calm (tx_error e) = pure-Calm none
  no_stake-Calm failed = pure-Calm none
  no_stake-Calm cancelled = cancelled-Calm

  pub stake_of-Still : (t : Text) → Still (stake_of h t)
  unfolding stake_of
  stake_of-Still [] = pure-Still 0
  stake_of-Still (c ∷ t) = demand-Still (h.int_of (c ∷ t))

  pub current_stake-Calm : Calm (current_stake h)
  unfolding current_stake
  current_stake-Calm =
      try-Calm
        (bind-Still (bind-Still (ask-Still h.get_stake counted.stake) stake_of-Still)
          (λ n. pure-Still (some n)))
        no_stake-Calm

  pub top_up-Calm : (min_stake : ℕ) (o : Option ℕ) → Calm (top_up h min_stake o)
  unfolding top_up
  top_up-Calm min_stake none n = pure-Calm tt n
  top_up-Calm min_stake (some current) n =
      Triple-if (leb min_stake current) (pure-Calm tt n) (added n)
    where
      added :
          Calm (try_except (ask h (h.add_stake (min_stake - current)) >> pure tt) ignore_failure)
      added =
          try-Calm
            (bind-Still
              (ask-Still (h.add_stake (min_stake - current))
                (counted.staking (min_stake - current)))
              (λ _. pure-Still tt))
            ignore_failure-Calm

  pub stake_to-Calm : (o : Option ℕ) → Calm (stake_to h o)
  unfolding stake_to
  stake_to-Calm none = pure-Calm tt
  stake_to-Calm (some zero) = pure-Calm tt
  stake_to-Calm (some (suc m)) = bind-Calm current_stake-Calm (top_up-Calm (suc m))

  pub maybe_stake-Calm : (r : Reputer h) → Calm (maybe_stake h r)
  unfolding maybe_stake
  maybe_stake-Calm r = stake_to-Calm r.min_stake
