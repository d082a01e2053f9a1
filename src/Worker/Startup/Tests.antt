-- ===== src/Worker/Startup/Tests.antt =====
-- The startup of a worker at concrete inputs: a world that counts the requests to the faucet.
use allora_sdk_py.Prelude.{ℕ, suc, ◌≡◌, refl, true, false, none, [], ◌∷◌, arith}
use allora_sdk_py.Exec.{answer}
use allora_sdk_py.Worker.Startup.{
  Step, banner, balance, faucet, same_step, has_step, StartupHost, Startup,
}
use allora_sdk_py.Worker.Startup.Once.{
  IsRunCount, Completed, call_ensure_initialized, retry_steps, call_cleanup, behind_calls,
  behind_calls-Completed,
}

abbrev count_if : Step → ℕ → ℕ
count_if faucet w = suc w
count_if banner w = w
count_if balance w = w

abbrev host : StartupHost
host = record {
  World = ℕ;
  Topic = ℕ;
  raise_for_chain_id_mismatch = λ w. (answer tt, w);
  derive_polling_interval = λ w. (answer (true, none), w);
  run_step = λ x topic w. (answer tt, count_if x w);
  spawn_retry = λ topic w. w;
  is_retry_done = λ w. true;
  cancel_retry = λ w. (answer tt, w);
  unsubscribe = λ id w. (answer tt, w);
  cleanup_context = λ w. (answer tt, w);
}

other_steps : (y : Step) (w : ℕ) → same_step faucet y ≡ false → count_if y w ≡ w
unfolding same_step
other_steps banner w e = refl
other_steps balance w e = refl
other_steps faucet w e = absurd (ground arith)

host-IsRunCount : IsRunCount host faucet (λ w. w)
host-IsRunCount = record {
  checking = λ w. refl;
  deriving_interval = λ w. refl;
  others = λ y topic w e. other_steps y w e;
  spawning = λ topic w. refl;
  cancelling = λ w. refl;
  unsubscribing = λ id w. refl;
  cleaning = λ w. refl;
}

-- the faucet answered, and the balance could not be logged
abbrev funded : Startup host
funded = record {
  world = 1;
  initialized = true;
  polling_interval_derived = true;
  optional_steps_done = false;
  optional_steps_running = false;
  optional_steps_attempted = true;
  optional_steps_completed = faucet ∷ banner ∷ [];
  has_retry_task = false;
  shutting_down = false;
  subscription_ids = [];
  has_ctx = true;
  has_queue = true;
}

funded-Completed : Completed host faucet (λ w. w) host-IsRunCount 1 funded
unfolding has_step same_step
funded-Completed = (refl, refl)

behind_calls-Completed_example :
    Completed host faucet
      (λ w. w)
      host-IsRunCount
      1
      (behind_calls (call_ensure_initialized ∷ retry_steps none ∷ call_cleanup ∷ []) funded)
behind_calls-Completed_example =
    behind_calls-Completed host faucet (λ w. w) host-IsRunCount
      (call_ensure_initialized ∷ retry_steps none ∷ call_cleanup ∷ []) 1 funded funded-Completed
