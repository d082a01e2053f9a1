-- ===== src/Worker/Startup.antt =====
-- src/allora_sdk/worker/worker.py: the one-time startup of a worker, its retry task, and the clean-up.
-- Calls run one after the other: the lock is free, and a task does not reach the startup from inside
-- its own steps. The subscriptions to events and the context are calls on the world.
pub mod Once
pub mod Tests
use allora_sdk_py.Prelude.{
  ℕ, Bool, true, false, ◌&&◌, ◌||◌, not, Option, none, some, List, [], ◌∷◌, if◌then◌else◌,
}
use allora_sdk_py.Exec.{
  Result, Reply, Exec, outcome, pure, throw, gets, modify, try_except, ◌>>=◌, ◌>>◌,
}
use allora_sdk_py.Worker.Host.{Failure, system_exit, is_exception}

-- the optional steps
pub data Step : Type 0 where
  banner balance faucet : Step

unfoldable pub same_step : Step → Step → Bool
same_step banner banner = true
same_step balance balance = true
same_step faucet faucet = true
same_step _ _ = false

unfoldable pub has_step : Step → List Step → Bool
unfolding same_step
has_step x [] = false
has_step x (y ∷ ys) = same_step x y || has_step x ys

abbrev pub steps : List Step
steps = banner ∷ balance ∷ faucet ∷ []

pub record StartupHost : Type 1 where
  pub World : Type 0
  pub Topic : Type 0
  pub raise_for_chain_id_mismatch : World → Reply Failure (Unit {0}) × World
  -- whether the interval is derived now, and the topic, if one was fetched
  pub derive_polling_interval : World → Reply Failure (Bool × Option Topic) × World
  -- a step; the banner shows the topic
  pub run_step : Step → Option Topic → World → Reply Failure (Unit {0}) × World
  -- a retry task: starting one, whether the one there is done, and cancelling it
  pub spawn_retry : Option Topic → World → World
  pub is_retry_done : World → Bool
  pub cancel_retry : World → Reply Failure (Unit {0}) × World
  pub unsubscribe : ℕ → World → Reply Failure (Unit {0}) × World
  pub cleanup_context : World → Reply Failure (Unit {0}) × World

pub record Startup (h : StartupHost) : Type 0 where
  pub world : h.World
  pub initialized : Bool
  pub polling_interval_derived : Bool
  pub optional_steps_done : Bool
  pub optional_steps_running : Bool
  pub optional_steps_attempted : Bool
  pub optional_steps_completed : List Step
  pub has_retry_task : Bool
  pub shutting_down : Bool
  pub subscription_ids : List ℕ
  -- `self._ctx` and `self._queue` are there
  pub has_ctx : Bool
  pub has_queue : Bool

abbrev pub S : StartupHost → Type 0 → Type 0
S h = Exec (Startup h) Failure

unfoldable pub all_completed : List Step → List Step → Bool
unfolding has_step
all_completed [] done = true
all_completed (x ∷ xs) done = has_step x done && all_completed xs done

module _ {h : StartupHost} where
  abbrev pub ask : {A : Type 0} → (h.World → Reply Failure A × h.World) → S h A
  ask f s = let (r, w) = f s.world in (outcome r, record s { world = w })

  -- `except Exception: log`
  unfoldable pub log_exception : Failure → S h (Unit {0})
  unfolding is_exception
  log_exception e = if is_exception e then pure tt else throw e

  unfoldable pub complete : Step → S h (Unit {0})
  complete x = modify (λ s. record s { optional_steps_completed = x ∷ s.optional_steps_completed })

  -- a step that did not succeed yet
  unfoldable pub run_if_new : Step → Option h.Topic → Bool → S h (Unit {0})
  unfolding complete log_exception
  run_if_new x topic true = pure tt
  run_if_new x topic false = try_except (ask (h.run_step x topic) >> complete x) log_exception

  unfoldable pub run_steps : Option h.Topic → List Step → S h (Unit {0})
  unfolding run_if_new has_step
  run_steps topic [] = pure tt
  run_steps topic (x ∷ xs) =
      gets (λ s. has_step x s.optional_steps_completed) >>= run_if_new x topic >> run_steps topic xs

  abbrev pub ended : {A : Type 0} → Result Failure A × Startup h → Result Failure A × Startup h
  ended (r, s) = (r, record s { optional_steps_running = false })

  -- the `try` with its `finally`
  unfoldable pub run_all : Option h.Topic → S h (Unit {0})
  unfolding run_steps all_completed
  run_all topic s = ended (
      (run_steps topic steps
          >> modify (λ t. record t {
            optional_steps_done = all_completed steps t.optional_steps_completed;
          }))
        (record s { optional_steps_running = true }))

  -- `_run_startup_steps`
  unfoldable pub run_startup_steps : Option h.Topic → S h (Unit {0})
  unfolding run_all
  run_startup_steps topic =
      gets (λ s. s.optional_steps_done || s.optional_steps_running) >>= λ idle.
      if idle then pure tt else run_all topic

  -- `_spawn_startup_step_retry`
  unfoldable pub spawn_startup_step_retry : Option h.Topic → S h (Unit {0})
  spawn_startup_step_retry topic =
      gets (λ s. s.shutting_down || (s.has_retry_task && not (h.is_retry_done s.world))) >>= λ busy.
      if busy
      then pure tt
      else modify (λ s. record s { world = h.spawn_retry topic s.world; has_retry_task = true })

  unfoldable pub first_or_retry : Option h.Topic → Bool → S h (Unit {0})
  unfolding spawn_startup_step_retry run_startup_steps
  first_or_retry topic true = spawn_startup_step_retry topic
  first_or_retry topic false =
      modify (λ s. record s { optional_steps_attempted = true }) >> run_startup_steps topic

  -- `_run_startup_steps_once`
  unfoldable pub run_startup_steps_once : Option h.Topic → S h (Unit {0})
  unfolding first_or_retry
  run_startup_steps_once topic =
      gets (λ s. s.optional_steps_done || s.optional_steps_running) >>= λ idle.
      if idle then pure tt else gets (λ s. s.optional_steps_attempted) >>= first_or_retry topic

  unfoldable pub derive : S h (Option h.Topic)
  derive = ask h.derive_polling_interval >>= λ d.
      modify (λ s. record s { polling_interval_derived = s.polling_interval_derived || d.0 })
      >> pure d.1

  unfoldable pub resolve_first : S h (Option h.Topic)
  unfolding derive
  resolve_first = ask h.raise_for_chain_id_mismatch >> derive >>= λ topic.
      modify (λ s. record s { initialized = true }) >> pure topic

  -- `_resolve_chain_essentials`
  unfoldable pub resolve_chain_essentials : S h (Option h.Topic)
  unfolding resolve_first derive
  resolve_chain_essentials = gets (λ s. s.initialized) >>= λ started.
      gets (λ s. s.polling_interval_derived) >>= λ derived.
      if started then (if derived then pure none else derive) else resolve_first

  -- `_ensure_initialized`
  unfoldable pub ensure_initialized : S h (Unit {0})
  unfolding resolve_chain_essentials run_startup_steps_once
  ensure_initialized =
      gets (λ s. s.initialized && s.optional_steps_done && s.polling_interval_derived)
      >>= λ started.
          if started then pure tt else resolve_chain_essentials >>= run_startup_steps_once

  -- `except (CancelledError, Exception): pass`
  unfoldable pub swallow : Failure → S h (Unit {0})
  swallow system_exit = throw system_exit
  swallow _ = pure tt

  unfoldable pub cancel_live : Bool → S h (Unit {0})
  unfolding swallow
  cancel_live true = try_except (ask h.cancel_retry) swallow
  cancel_live false = pure tt

  unfoldable pub unsubscribe_each : List ℕ → S h (Unit {0})
  unfolding log_exception
  unsubscribe_each [] = pure tt
  unsubscribe_each (id ∷ ids) =
      try_except (ask (h.unsubscribe id)) log_exception >> unsubscribe_each ids

  -- `_cleanup`
  unfoldable pub cleanup : S h (Unit {0})
  unfolding cancel_live unsubscribe_each
  cleanup =
      modify (λ s. record s { shutting_down = true })
      >> gets (λ s. s.has_retry_task && not (h.is_retry_done s.world))
      >>= cancel_live
      >> modify (λ s. record s { has_retry_task = false })
      >> gets (λ s. s.subscription_ids)
      >>= unsubscribe_each
      >> modify (λ s. record s { subscription_ids = [] })
      >> ask h.cleanup_context
      >> modify (λ s. record s { has_queue = false; has_ctx = false })
