-- ===== src/UseCase/Reputer/Payloads.antt =====
-- About src/allora_sdk/worker/reputer.py: the payloads that one `submit` sends, and what it raises.
use allora_sdk_py.Prelude.{
  ℕ, suc, ◌≤◌, ◌≡◌, refl, ap, ◌∙◌, Bool, true, false, Option, none, some, arith, if◌then◌else◌,
}
use allora_sdk_py.Exec.{Result, ok, raise, stuck}
use allora_sdk_py.Exec.Post.{
  Post, Triple, Triple-pure, Triple-throw, Triple-bind, Triple-try, Triple-weaken,
}
use allora_sdk_py.UseCase.{
  UseFailure, tx_error, failed, cancelled, Submission, worker_result, already_submitted,
  error_value, is_already_submitted, on_submit_error, return_error, branch_on,
}
use allora_sdk_py.UseCase.Reputer.{
  NetworkInferenceBundle, InputValueBundle, ReputerHost, Reputer, R, ask, compute_loss_bundle,
  stake_after, send_payload, submit_bundle, submit,
}
use allora_sdk_py.UseCase.Reputer.Counted.{
  IsCounted, Is, outcome-Post, ask-Still, compute_loss_bundle-Still, try-Calm, Calm-Still,
  ignore_failure-Calm, maybe_stake-Calm,
}

module _ (h : ReputerHost) (count : h.World → ℕ) (counted : IsCounted h count) where
  -- how many payloads were sent, for what `submit` returned
  abbrev pub Sent : ℕ → Submission InputValueBundle → h.World → Type 0
  Sent n (worker_result b t) w = count w ≡ suc n
  Sent n (already_submitted e) w = (count w ≡ suc n) × (is_already_submitted e ≡ true)
  Sent n (error_value e) w = count w ≤ suc n

  abbrev pub IsCancelled : ℕ → UseFailure → h.World → Type 0
  IsCancelled n e w = (e ≡ cancelled) × (count w ≤ suc n)

  -- `m` from `n` payloads, or from one more
  abbrev Submits : (h.World → Type 0) → ℕ → R h (Submission InputValueBundle) → Type 0
  Submits P n m = Triple ⊥ P (IsCancelled n) (Sent n) m

  stake_after-Submits :
      (r : Reputer h) (n : ℕ) (s : Submission InputValueBundle)
      → Submits (Sent n s) n (stake_after h r s)
  unfolding stake_after
  stake_after-Submits r n (worker_result b t) =
      Triple-bind (λ _. (Is h count counted) (suc n))
        (Triple-weaken
          ((try-Calm h count counted)
            ((Calm-Still h count counted) ((maybe_stake-Calm h count counted) r))
            (ignore_failure-Calm h count counted) (suc n))
          (λ w p. p) (λ e w p. (p.0, omega (arith, p.1))) (λ a w p. p))
        (λ _. Triple-pure (worker_result b t) (λ w p. p))
  stake_after-Submits r n (already_submitted e) = Triple-pure (already_submitted e) (λ w p. p)
  stake_after-Submits r n (error_value e) = Triple-pure (error_value e) (λ w p. p)

  on_submit_error-Submits :
      (n : ℕ) (e : UseFailure)
      → Submits ((Is h count counted) (suc n)) n (on_submit_error {W = h.World} e)
  unfolding on_submit_error
  on_submit_error-Submits n (tx_error e) = record {
    at = λ w p. go (is_already_submitted e) refl w p;
  }
    where
      go :
          (b : Bool)
          → is_already_submitted e ≡ b
          → (w : h.World) → (Is h count counted) (suc n) w
          → Sent n (if b then already_submitted e else error_value (tx_error e)) w
      go true known w p = (p, known)
      go false known w p = omega (arith, p)
  on_submit_error-Submits n failed = Triple-pure (error_value failed) (λ w p. omega (arith, p))
  on_submit_error-Submits n cancelled = Triple-throw cancelled (λ w p. (refl, omega (arith, p)))

  sent-Post :
      (nonce : ℕ) (b : InputValueBundle) (seq n : ℕ) (w : h.World)
      → (Is h count counted) n w
      → Post ⊥
          (λ _. (Is h count counted) (suc n))
          (λ _. (Is h count counted) (suc n))
          (ask h (h.insert_reputer_payload nonce b seq) w)
  sent-Post nonce b seq n w p =
      (outcome-Post h count counted) (suc n) (h.insert_reputer_payload nonce b seq w).0
        (h.insert_reputer_payload nonce b seq w).1 (counted.sends nonce b seq w ∙ ap suc p)

  send_payload-Submits :
      (r : Reputer h) (nonce seq n : ℕ) (b : InputValueBundle)
      → Submits ((Is h count counted) n) n (send_payload h r nonce seq b)
  unfolding send_payload
  send_payload-Submits r nonce seq n b =
      Triple-bind (Sent n)
        (Triple-try (λ _. (Is h count counted) (suc n))
          (Triple-bind (λ _. (Is h count counted) (suc n)) (record { at = sent-Post nonce b seq n })
            (λ t. Triple-pure (worker_result b t) (λ w p. p)))
          (on_submit_error-Submits n))
        (stake_after-Submits r n)

  return_error-Post :
      (n : ℕ) (e : UseFailure) (w : h.World)
      → (Is h count counted) n w
      → Post ⊥ (IsCancelled n) (Sent n) (return_error {A = InputValueBundle} e w)
  unfolding return_error
  return_error-Post n (tx_error e) w p = omega (arith, p)
  return_error-Post n failed w p = omega (arith, p)
  return_error-Post n cancelled w p = (refl, omega (arith, p))

  branch-Post :
      {A : Type 0} (n : ℕ) (r : Result UseFailure A × h.World)
      (f : A → R h (Submission InputValueBundle))
      → Post ⊥ (λ _. (Is h count counted) n) (λ _. (Is h count counted) n) r
      → ((a : A) → Submits ((Is h count counted) n) n (f a))
      → Post ⊥ (IsCancelled n) (Sent n) (branch_on r f)
  branch-Post n (ok a, w) f p k = (k a).at w p
  branch-Post n (raise e, w) f p k = return_error-Post n e w p
  branch-Post n (stuck, w) f p k = absurd p

  submit_bundle-Submits :
      (r : Reputer h) (nonce seq n : ℕ) (o : Option NetworkInferenceBundle)
      → Submits ((Is h count counted) n) n (submit_bundle h r nonce seq o)
  unfolding submit_bundle
  submit_bundle-Submits r nonce seq n none = record { at = λ w p. omega (arith, p) }
  submit_bundle-Submits r nonce seq n (some b) = record {
    at = λ w p.
        branch-Post n (compute_loss_bundle h r b w) (send_payload h r nonce seq)
          (((compute_loss_bundle-Still h count counted) r b n).at w p)
          (send_payload-Submits r nonce seq n);
  }

  -- Let a count be raised by one by a payload that is sent, and left by every other call. Then the
  -- reputer's `submit` ends, and raises nothing but a cancellation; a result and an
  -- `AlreadySubmittedError` come with exactly one payload, the latter only for an error that
  -- counts as one, and any other exception that it returns, like a cancellation, comes with at
  -- most one.
  pub submit-Sent :
      (r : Reputer h) (nonce seq : ℕ) (w : h.World)
      → Post ⊥ (IsCancelled (count w)) (Sent (count w)) (submit h r nonce seq w)
  unfolding submit
  submit-Sent r nonce seq w =
      branch-Post (count w) (ask h (h.get_network_inferences_at_block nonce) w)
        (submit_bundle h r nonce seq)
        (((ask-Still h count counted) (h.get_network_inferences_at_block nonce)
            (counted.inferences nonce) (count w)).at
          w refl)
        (submit_bundle-Submits r nonce seq (count w))
