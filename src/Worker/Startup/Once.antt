-- ===== src/Worker/Startup/Once.antt =====
-- About src/allora_sdk/worker/worker.py: how often a startup step runs.
use allora_sdk_py.Prelude.{
  ℕ, ◌≡◌, refl, ◌∙◌, subst, Bool, true, false, ◌&&◌, ◌||◌, not, Option, none, List, [], ◌∷◌,
  Bool-cases, inl, inr, arith,
}
use allora_sdk_py.Exec.{Reply, pure, throw, gets, modify}
use allora_sdk_py.Exec.Keeps.{Keeps, Keeps-bind, Keeps-then, Keeps-try, Keeps-if}
use allora_sdk_py.Worker.Host.{
  Failure, cancelled, system_exit, timeout_error, worker_not_whitelisted, http_error, failed,
  is_exception,
}
use allora_sdk_py.Worker.Startup.{
  Step, banner, balance, faucet, same_step, has_step, steps, StartupHost, Startup, S, ask,
  log_exception, complete, run_if_new, run_steps, run_all, run_startup_steps,
  spawn_startup_step_retry, first_or_retry, run_startup_steps_once, derive, resolve_first,
  resolve_chain_essentials, ensure_initialized, swallow, cancel_live, unsubscribe_each, cleanup,
}

-- how often `x` ran, by a count that any other call leaves
pub record IsRunCount (h : StartupHost) (x : Step) (count : h.World → ℕ) : Type 0 where
  pub checking : (w : h.World) → count (h.raise_for_chain_id_mismatch w).1 ≡ count w
  pub deriving_interval : (w : h.World) → count (h.derive_polling_interval w).1 ≡ count w
  pub others :
      (y : Step) (topic : Option h.Topic) (w : h.World)
      → same_step x y ≡ false
      → count (h.run_step y topic w).1 ≡ count w
  pub spawning : (topic : Option h.Topic) (w : h.World) → count (h.spawn_retry topic w) ≡ count w
  pub cancelling : (w : h.World) → count (h.cancel_retry w).1 ≡ count w
  pub unsubscribing : (id : ℕ) (w : h.World) → count (h.unsubscribe id w).1 ≡ count w
  pub cleaning : (w : h.World) → count (h.cleanup_context w).1 ≡ count w

same_step→≡ : (x y : Step) → same_step x y ≡ true → x ≡ y
unfolding same_step
same_step→≡ banner banner e = refl
same_step→≡ balance balance e = refl
same_step→≡ faucet faucet e = refl
same_step→≡ banner balance e = absurd cc
same_step→≡ banner faucet e = absurd cc
same_step→≡ balance banner e = absurd cc
same_step→≡ balance faucet e = absurd cc
same_step→≡ faucet banner e = absurd cc
same_step→≡ faucet balance e = absurd cc

module _ (h : StartupHost) (x : Step) (count : h.World → ℕ) (counted : IsRunCount h x count)
    (n : ℕ) where
  -- the step completed, after `n` runs
  abbrev pub Completed : Startup h → Type 0
  Completed s = (has_step x s.optional_steps_completed ≡ true) × (count s.world ≡ n)

  abbrev C : {A : Type 0} → S h A → Type 0
  C m = Keeps Completed m

  pure-C : {A : Type 0} (a : A) → C (pure a)
  pure-C a = record { at = λ s p. p }

  throw-C : {A : Type 0} (e : Failure) → C (throw {A = A} e)
  throw-C e = record { at = λ s p. p }

  ask-C :
      {A : Type 0} (f : h.World → Reply Failure A × h.World)
      → ((w : h.World) → count (f w).1 ≡ count w)
      → C (ask f)
  ask-C f k = record { at = λ s p. (p.0, k s.world ∙ p.1) }

  log_exception-C : (e : Failure) → C (log_exception {h = h} e)
  unfolding log_exception
  log_exception-C e = Keeps-if (is_exception e) (pure-C tt) (throw-C e)

  complete-C : (y : Step) → C (complete {h = h} y)
  unfolding complete has_step
  complete-C y = record { at = λ s p. (ground (arith, p.0), p.1) }

  run_if_new-C :
      (y : Step) (topic : Option h.Topic)
      → same_step x y ≡ false
      → (b : Bool) → C (run_if_new y topic b)
  unfolding run_if_new
  run_if_new-C y topic other true = pure-C tt
  run_if_new-C y topic other false =
      Keeps-try
        (Keeps-then (ask-C (h.run_step y topic) (λ w. counted.others y topic w other))
          (complete-C y))
        log_exception-C

  -- of the steps, `x` is passed over
  step-C :
      (y : Step) (topic : Option h.Topic) (s : Startup h)
      → Completed s
      → Completed (run_if_new y topic (has_step y s.optional_steps_completed) s).1
  unfolding run_if_new
  step-C y topic s p = elim (Bool-cases (same_step x y)) [
    | inl same ↦
        let known : has_step y s.optional_steps_completed ≡ true =
          subst (λ z. has_step z s.optional_steps_completed ≡ true) (same_step→≡ x y same) p.0 in
        rw known p
    | inr other ↦ (run_if_new-C y topic other (has_step y s.optional_steps_completed)).at s p
  ]

  run_steps-C : (topic : Option h.Topic) (ys : List Step) → C (run_steps topic ys)
  unfolding run_steps
  run_steps-C topic [] = pure-C tt
  run_steps-C topic (y ∷ ys) = Keeps-then (record { at = step-C y topic }) (run_steps-C topic ys)

  run_all-C : (topic : Option h.Topic) → C (run_all topic)
  unfolding run_all
  run_all-C topic = record {
    at = λ s p.
        (Keeps-then (run_steps-C topic steps) (record { at = λ t q. q })).at
          (record s { optional_steps_running = true }) p;
  }

  pub run_startup_steps-C : (topic : Option h.Topic) → C (run_startup_steps topic)
  unfolding run_startup_steps
  run_startup_steps-C topic = record {
    at = λ s p.
        (Keeps-if (s.optional_steps_done || s.optional_steps_running) (pure-C tt)
            (run_all-C topic)).at
          s p;
  }

  spawn-C : (topic : Option h.Topic) → C (spawn_startup_step_retry topic)
  unfolding spawn_startup_step_retry
  spawn-C topic = record {
    at = λ s p.
        elim (Bool-cases (s.shutting_down || (s.has_retry_task && not (h.is_retry_done s.world)))) [
          | inl busy ↦ rw busy p
          | inr free ↦ rw free (p.0, counted.spawning topic s.world ∙ p.1)
        ];
  }

  first_or_retry-C : (topic : Option h.Topic) (b : Bool) → C (first_or_retry topic b)
  unfolding first_or_retry
  first_or_retry-C topic true = spawn-C topic
  first_or_retry-C topic false = record {
    at = λ s p. (run_startup_steps-C topic).at (record s { optional_steps_attempted = true }) p;
  }

  once-C : (topic : Option h.Topic) → C (run_startup_steps_once topic)
  unfolding run_startup_steps_once
  once-C topic = record {
    at = λ s p. elim (Bool-cases (s.optional_steps_done || s.optional_steps_running)) [
      | inl idle ↦ rw idle p
      | inr free ↦ rw free ((first_or_retry-C topic s.optional_steps_attempted).at s p)
    ];
  }

  derive-C : C (derive {h = h})
  unfolding derive
  derive-C =
      Keeps-bind (ask-C h.derive_polling_interval counted.deriving_interval)
        (λ d. record { at = λ s p. p })

  resolve-C : C (resolve_chain_essentials {h = h})
  unfolding resolve_chain_essentials resolve_first
  resolve-C = record {
    at = λ s p.
        (Keeps-if s.initialized (Keeps-if s.polling_interval_derived (pure-C none) derive-C) (
            Keeps-bind (Keeps-then (ask-C h.raise_for_chain_id_mismatch counted.checking) derive-C)
              (λ topic. record { at = λ t q. q }))).at
          s p;
  }

  pub ensure_initialized-C : C (ensure_initialized {h = h})
  unfolding ensure_initialized
  ensure_initialized-C = record {
    at = λ s p.
        (Keeps-if (s.initialized && s.optional_steps_done && s.polling_interval_derived) (pure-C tt)
            (Keeps-bind resolve-C once-C)).at
          s p;
  }

  swallow-C : (e : Failure) → C (swallow {h = h} e)
  unfolding swallow
  swallow-C system_exit = throw-C system_exit
  swallow-C cancelled = pure-C tt
  swallow-C timeout_error = pure-C tt
  swallow-C worker_not_whitelisted = pure-C tt
  swallow-C (http_error status) = pure-C tt
  swallow-C failed = pure-C tt

  cancel_live-C : (b : Bool) → C (cancel_live {h = h} b)
  unfolding cancel_live
  cancel_live-C true = Keeps-try (ask-C h.cancel_retry counted.cancelling) swallow-C
  cancel_live-C false = pure-C tt

  unsubscribe_each-C : (ids : List ℕ) → C (unsubscribe_each {h = h} ids)
  unfolding unsubscribe_each
  unsubscribe_each-C [] = pure-C tt
  unsubscribe_each-C (id ∷ ids) =
      Keeps-then (Keeps-try (ask-C (h.unsubscribe id) (counted.unsubscribing id)) log_exception-C)
        (unsubscribe_each-C ids)

  gets-C : {A : Type 0} (g : Startup h → A) → C (gets g)
  gets-C g = record { at = λ s p. p }

  unset-C :
      (f : Startup h → Startup h) → ((s : Startup h) → Completed s → Completed (f s)) → C (modify f)
  unset-C f k = record { at = k }

  pub cleanup-C : C (cleanup {h = h})
  unfolding cleanup
  cleanup-C = record {
    at = λ s p.
        (Keeps-then
            (Keeps-then
              (Keeps-then
                (Keeps-bind
                  (Keeps-then
                    (Keeps-then (cancel_live-C (s.has_retry_task && not (h.is_retry_done s.world)))
                      (unset-C (λ t. record t { has_retry_task = false }) (λ t q. q)))
                    (gets-C (λ t. t.subscription_ids)))
                  unsubscribe_each-C)
                (unset-C (λ t. record t { subscription_ids = [] }) (λ t q. q)))
              (ask-C h.cleanup_context counted.cleaning))
            (unset-C (λ t. record t { has_queue = false; has_ctx = false }) (λ t q. q))).at
          (record s { shutting_down = true }) p;
  }

-- what reaches the startup of a worker: a caller, its retry task, and the clean-up
pub data StartupCall (h : StartupHost) : Type 0 where
  call_ensure_initialized : StartupCall h
  retry_steps : Option h.Topic → StartupCall h
  call_cleanup : StartupCall h

-- the state behind calls, whether they returned or raised
unfoldable pub behind_calls : {h : StartupHost} → List (StartupCall h) → Startup h → Startup h
behind_calls [] s = s
behind_calls (call_ensure_initialized ∷ ks) s = behind_calls ks (ensure_initialized s).1
behind_calls (retry_steps topic ∷ ks) s = behind_calls ks (run_startup_steps topic s).1
behind_calls (call_cleanup ∷ ks) s = behind_calls ks (cleanup s).1

-- Let a count of the runs of a startup step be left by every other call. Once the step has
-- completed, it stays completed and its count stays the same through any sequence of
-- initialisations, retries and clean-ups, whether they return or raise.
pub behind_calls-Completed :
    (h : StartupHost) (x : Step) (count : h.World → ℕ) (counted : IsRunCount h x count)
    (ks : List (StartupCall h)) (n : ℕ) (s : Startup h)
    → Completed h x count counted n s
    → Completed h x count counted n (behind_calls ks s)
unfolding behind_calls
behind_calls-Completed h x count counted [] n s p = p
behind_calls-Completed h x count counted (call_ensure_initialized ∷ ks) n s p =
    behind_calls-Completed h x count counted ks n (ensure_initialized s).1
      ((ensure_initialized-C h x count counted n).at s p)
behind_calls-Completed h x count counted (retry_steps topic ∷ ks) n s p =
    behind_calls-Completed h x count counted ks n (run_startup_steps topic s).1
      ((run_startup_steps-C h x count counted n topic).at s p)
behind_calls-Completed h x count counted (call_cleanup ∷ ks) n s p =
    behind_calls-Completed h x count counted ks n (cleanup s).1
      ((cleanup-C h x count counted n).at s p)
