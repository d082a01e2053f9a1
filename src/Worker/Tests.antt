-- ===== src/Worker/Tests.antt =====
-- A worker whose node answers at once, with seconds for timestamps: the theorems at concrete inputs.
use allora_sdk_py.Prelude.{
  ℕ, ◌+◌, ◌-◌, ◌*◌, ◌/◌, ◌^◌, ◌≤◌, ◌<◌, ◌≡◌, ◌↔◌, refl, true, false, ◌&&◌, none, some, List, [],
  ◌∷◌, ◌++◌, ltb, ◌==◌, length, elem, if◌then◌else◌, arith,
}
use allora_sdk_py.Exec.{answer}
use allora_sdk_py.Exec.Post.{Post}
use allora_sdk_py.OrderedSet.{TimestampOrderedSet, find, contains}
use allora_sdk_py.Tx.Float.{Float}
use allora_sdk_py.Worker.Nonces.{choose, max_unfulfilled_nonces}
use allora_sdk_py.Worker.Nonces.Choice.{
  IsIncreasing, is_eligible, choose-IsIncreasing, choose-is_eligible, choose-newest, length-choose,
}
use allora_sdk_py.Worker.Nonces.Sequential.{IsOldest, choose-IsOldest}
use allora_sdk_py.Worker.Host.{submitted, Host, Setup, Worker}
use allora_sdk_py.Worker.Quiet.{
  Asks, stamped, slept, locked, asked_balance, asked_account, requested_funds, asked_whitelist,
  asked_nonces,
}
use allora_sdk_py.Worker.Cycle.{note, maybe_submit_impl}
use allora_sdk_py.Worker.Cycle.Once.{HasNew, maybe_submit_impl-HasNew}
use allora_sdk_py.Worker.Cycle.Marks.{is_final, contains-note}
use allora_sdk_py.Worker.Cycle.Runs.{HasRun, log-maybe_submit_impl}
use allora_sdk_py.Worker.Polling.{
  new_polling, derive_polling_interval, IsSound, Answers, derive_polling_interval-IsSound,
}

-- The world is the clock and the submissions made.
abbrev host : Host
host = record {
  World = ℕ × List (ℕ × ℕ);
  Stamp = ℕ;
  before = ltb;
  earlier = λ t d. t - d;
  stamp = λ w. (w.0, w);
  sleep = λ d w. (answer tt, (w.0 + d, w.1));
  is_cancelled = λ w. false;
  has_ctx = λ w. true;
  has_queue = λ w. true;
  hold_expired = λ w. false;
  acquire_lock = λ w. (answer tt, w);
  balance = λ w. (answer (some 200000000), w);
  account_info = λ w. (answer (some 41), w);
  request_funds = λ w. (answer tt, w);
  worker_is_whitelisted = λ w. (answer true, w);
  get_unfulfilled_nonces = λ w. (answer (30 ∷ 10 ∷ 20 ∷ []), w);
  submit = λ n q w. (answer (some submitted), (w.0, w.1 ++ (n, q) ∷ []));
}

abbrev setup : Setup
setup = record {
  requires_sequential_nonces = false;
  max_nonces = 2;
  is_testnet = true;
  has_faucet = true;
}

abbrev seen : TimestampOrderedSet ℕ
seen = record { items = (30, 500) ∷ [] }

abbrev worker : Worker host
worker = record { world = (1000, []); submitted_nonces = seen; stopped = false; results = [] }

choose-IsIncreasing_example : IsIncreasing (choose seen false 2 (30 ∷ 10 ∷ 20 ∷ []) (some 40))
choose-IsIncreasing_example = choose-IsIncreasing seen 2 (30 ∷ 10 ∷ 20 ∷ []) (some 40)

choose-is_eligible_example : is_eligible seen (30 ∷ 10 ∷ 20 ∷ []) (some 40) 40 ≡ true
choose-is_eligible_example =
    choose-is_eligible seen 2 (30 ∷ 10 ∷ 20 ∷ []) (some 40) 40 (unfold choose contains in refl)

choose-newest_example : 10 < 40
choose-newest_example =
    choose-newest seen 2 (30 ∷ 10 ∷ 20 ∷ []) (some 40) 10 40 (unfold contains in refl)
      (unfold choose contains in refl) (unfold choose contains in refl)

length-choose_example :
    length (choose seen false (max_unfulfilled_nonces 0) (30 ∷ 10 ∷ 20 ∷ []) (some 40))
    ≤ max_unfulfilled_nonces 0
length-choose_example = length-choose seen false 0 (30 ∷ 10 ∷ 20 ∷ []) (some 40)

choose-IsOldest_example :
    (elem 10 (choose seen true 2 (30 ∷ 10 ∷ 20 ∷ []) (some 40)) ≡ true)
    ↔ IsOldest seen (30 ∷ 10 ∷ 20 ∷ []) (some 40) 10
choose-IsOldest_example = choose-IsOldest seen 2 (30 ∷ 10 ∷ 20 ∷ []) (some 40) 10

quiet : (w w' : ℕ × List (ℕ × ℕ)) → Asks host w w' → w'.1 ≡ w.1
quiet _ _ (stamped w) = refl
quiet _ _ (slept d w) = refl
quiet _ _ (locked w) = refl
quiet _ _ (asked_balance w) = refl
quiet _ _ (asked_account w) = refl
quiet _ _ (requested_funds w) = refl
quiet _ _ (asked_whitelist w) = refl
quiet _ _ (asked_nonces w) = refl

abbrev made : ℕ × List (ℕ × ℕ) → List (ℕ × ℕ)
made w = w.1

appends : (n q : ℕ) (w : ℕ × List (ℕ × ℕ)) → made (host.submit n q w).1 ≡ made w ++ (n, q) ∷ []
appends n q w = refl

log-maybe_submit_impl_example :
    Post ⊥
      (λ _. HasRun host setup made (some 40) worker)
      (λ _. HasRun host setup made (some 40) worker)
      (maybe_submit_impl setup (some 40) worker)
log-maybe_submit_impl_example = log-maybe_submit_impl host setup made quiet appends (some 40) worker

contains-note_example :
    contains 40 (note 40 (some submitted) worker).1.submitted_nonces
    ≡ (if (40 == 40) && is_final (some submitted) then true else contains 40 seen)
contains-note_example = contains-note 40 40 (some submitted) worker (unfold find in (refl, tt))

-- whole seconds
abbrev whole : Float
whole = record {
  F = ℕ;
  literal = λ a k. a / 10 ^ k;
  of_int = λ n. n;
  times = λ x y. x * y;
  plus = λ x y. x + y;
  divide = λ x y. x / y;
  below = ltb;
  trunc = λ x. x;
  is_finite = λ x. true;
  is_negative = λ x. false;
  is_zero = λ x. x == 0;
}

derive_polling_interval-IsSound_example :
    Answers (IsSound none) (derive_polling_interval whole 6 (answer (some 12)) (new_polling none))
derive_polling_interval-IsSound_example =
    derive_polling_interval-IsSound whole 6 (answer (some 12)) none (new_polling none)
      (unfold new_polling in (refl, (omega arith, omega arith)))

maybe_submit_impl-HasNew_example :
    Post ⊥
      (λ _. HasNew host made worker)
      (λ _. HasNew host made worker)
      (maybe_submit_impl setup (some 40) worker)
maybe_submit_impl-HasNew_example =
    maybe_submit_impl-HasNew host setup made quiet appends (some 40) worker
