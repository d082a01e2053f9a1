-- ===== src/Tx/Tests.antt =====
-- A node that lands every transaction at once, with exact fractions for floats: the theorems at
-- concrete inputs.
use allora_sdk_py.Prelude.{
  ℕ, ◌+◌, ◌*◌, ◌/◌, ◌^◌, ◌≤◌, ◌≡◌, refl, true, false, none, some, List, [], ◌∷◌, arith, ltb, ◌==◌,
}
use allora_sdk_py.Exec.{answer}
use allora_sdk_py.Exec.Post.{Post}
use allora_sdk_py.Tx.Float.{Float}
use allora_sdk_py.Tx.Errors.{codes, TxResponse}
use allora_sdk_py.Tx.Chain.{Chain, IsTimed}
use allora_sdk_py.Tx.State.{PendingTx, TxManager, Session, done, future_cancelled, standard}
use allora_sdk_py.Tx.Submit.{attempt_submissions, on_tx_timeout}
use allora_sdk_py.Tx.Submit.Timeout.{has_landed, Retries, on_tx_timeout-Retries}
use allora_sdk_py.Tx.Submit.Outcomes.{IsResolved, Cancelled}
use allora_sdk_py.Tx.Submit.Resolved.{attempt_submissions-resolves}
use allora_sdk_py.Tx.Simulate.{simulate_transaction}
use allora_sdk_py.Tx.Simulate.Ends.{Grows, simulate_transaction-Ends}
use allora_sdk_py.Tx.Broadcast.Ends.{Ends}
use allora_sdk_py.Tx.Frame.{
  Query, asked_now, slept, asked_account, asked_info, asked_balance, asked_price, asked_state,
  asked_params, signed, asked_tx,
}
use allora_sdk_py.Tx.Frame.Runs.{
  sent-attempt_submissions, last_fee-attempt_submissions, final_future-attempt_submissions,
  IsCapped,
}
use allora_sdk_py.Tx.Manager.{InFlight, Happening, task_done, submits, close}
use allora_sdk_py.Tx.Manager.Close.{future, among, IsSettled, IsAsked, close-IsSettled}
use allora_sdk_py.Tx.Manager.Forgotten.{closed_twice, behind_gather, closed_twice-forgets}

-- a numerator and a denominator
abbrev fraction : Float
fraction = record {
  F = ℕ × ℕ;
  literal = λ a k. (a, 10 ^ k);
  of_int = λ n. (n, 1);
  times = λ x y. (x.0 * y.0, x.1 * y.1);
  plus = λ x y. (x.0 * y.1 + y.0 * x.1, x.1 * y.1);
  divide = λ x y. (x.0 * y.1, x.1 * y.0);
  below = λ x y. ltb (x.0 * y.1) (y.0 * x.1);
  trunc = λ x. x.0 / x.1;
  is_finite = λ x. true;
  is_negative = λ x. false;
  is_zero = λ x. x.0 == 0;
}

abbrev landed : TxResponse
landed = record {
  code = 0;
  codespace = [];
  raw_log = [];
  txhash = codes "AB";
  gas_wanted = 300000;
  gas_used = 200000;
}

-- The world is the clock and the number of transactions that arrived.
abbrev node : Chain
node = record {
  float = fraction;
  decimal = fraction;
  to_float = λ x. x;
  parse_decimal = λ t. answer (0, 1);
  micros = λ x. x.0 * 1000000 / x.1;
  Messages = ℕ;
  TxBytes = ℕ;
  sign = λ m u g f q n w. (answer m, w);
  sign_empty = λ m u g q. m;
  hash_hex = λ b. codes "AB";
  World = ℕ × ℕ;
  now = λ w. (w.0, w);
  sleep = λ d w. (answer tt, (w.0 + d, w.1));
  cut_off = λ r w w'. false;
  text_of = λ e. [];
  status_of = λ e. 1;
  account = λ w. (answer tt, w);
  account_info = λ w. (answer (some (record { sequence = 7; account_number = 1 })), w);
  balance = λ a w. (answer none, w);
  gas_price = λ w. (answer none, w);
  feemarket_state = λ w. (answer none, w);
  feemarket_params = λ w. (answer none, w);
  simulate = λ b w. (answer (some 100000), w);
  broadcast_tx = λ b w. (answer (some landed), (w.0, w.1 + 1));
  get_tx = λ h w. (answer (some landed), w);
}

node-IsTimed : IsTimed node
node-IsTimed = record {
  sleep_raises = λ d w e h. cc;
  sleep_lasts = λ d w _. omega arith;
  now_monotone = λ w. omega arith;
  get_tx_monotone = λ h w. omega arith;
}

abbrev manager : TxManager node
manager = record {
  has_wallet = true;
  address = codes "allo1";
  fee_granter = none;
  max_fees = some 1000000000;
  account_sequence_retry_delay = none;
  gas_adjustment = (12, 10);
  base_gas = none;
  simulate_gas_from_start = true;
  query_interval = 2000000;
  query_timeout = 10000000;
  has_feemarket = false;
  use_dynamic_gas_price = false;
  congestion_aware_fees = false;
  fee_minimum_gas_price = (10, 1);
  dynamic_gas_price_default_multiplier = (1, 1);
  gas_price_cache_ttl = 5000000;
}

abbrev pending : PendingTx node
pending = record {
  parent_tx_id = 0;
  type_url = codes "/cosmos.bank.v1beta1.MsgSend";
  msgs = 5;
  fee_tier = standard;
  max_retries = 2;
  timeout = none;
  last_tx_hash = none;
  last_gas_limit = none;
  last_fee = none;
  last_landed_error = none;
  attempt = 0;
  final_future = none;
  same_seq_rebroadcast = false;
}

abbrev session : Session node
session = record {
  world = (100, 0);
  cached_gas_price = none;
  gas_price_cache_time = none;
  pending = pending;
  fee_multiplier = (1, 1);
  current_gas_limit = some 120000;
  next_account_seq = none;
}

attempt_submissions-resolves_example :
    Post ⊥ Cancelled (λ _ s'. IsResolved s') (attempt_submissions manager session)
attempt_submissions-resolves_example = attempt_submissions-resolves node-IsTimed manager session

quiet : (w w' : ℕ × ℕ) → Query node w w' → w'.1 ≡ w.1
quiet _ _ (asked_now w) = refl
quiet _ _ (slept d w) = refl
quiet _ _ (asked_account w) = refl
quiet _ _ (asked_info w) = refl
quiet _ _ (asked_balance a w) = refl
quiet _ _ (asked_price w) = refl
quiet _ _ (asked_state w) = refl
quiet _ _ (asked_params w) = refl
quiet _ _ (signed m u g f q n w) = refl
quiet _ _ (asked_tx h w) = refl

sent-attempt_submissions_example :
    (attempt_submissions manager session).1.world.1
    ≤ session.world.1 + session.pending.max_retries + 1
sent-attempt_submissions_example =
    sent-attempt_submissions node node-IsTimed manager (λ w. w.1) quiet (λ b w. refl) session

last_fee-attempt_submissions_example :
    IsCapped manager.max_fees (attempt_submissions manager session).1.pending.last_fee
last_fee-attempt_submissions_example =
    last_fee-attempt_submissions node node-IsTimed manager session tt

abbrev closed_session : Session node
closed_session = record session {
  pending = record pending { final_future = some future_cancelled };
}

final_future-attempt_submissions_example :
    (attempt_submissions manager closed_session).1.pending.final_future ≡ some future_cancelled
final_future-attempt_submissions_example =
    final_future-attempt_submissions node node-IsTimed manager closed_session future_cancelled refl

node-Grows : Grows node
node-Grows n h = omega arith

simulate_transaction-Ends_example : Ends (simulate_transaction manager (codes "/type") 5)
simulate_transaction-Ends_example = simulate_transaction-Ends manager node-Grows (codes "/type") 5

-- transaction 0 is not done, and transaction 1 has landed
abbrev two_inflight : InFlight node
two_inflight = record {
  parent_tx_id = 2;
  pendings = pending ∷ record pending { parent_tx_id = 1; final_future = some (done landed) } ∷ [];
  inflight = 0 ∷ 1 ∷ [];
  cancel_requested = [];
}

-- both tasks end, and a transaction is submitted between them
abbrev during_close : List (Happening node)
during_close = task_done 1 ∷ submits (codes "/type") 5 standard 2 none ∷ task_done 0 ∷ []

close-IsSettled_example :
    Post ⊥
      (λ _. IsAsked 0 two_inflight)
      (λ _. IsSettled 0 two_inflight)
      (close manager during_close (answer tt) two_inflight)
close-IsSettled_example =
    close-IsSettled manager during_close (answer tt) two_inflight 0 (omega arith, (omega arith, tt))
      refl refl

closed_twice-forgets_example :
    (future 2 (closed_twice manager during_close [] (answer tt) two_inflight).pendings
      ≡ future 2 (behind_gather manager during_close two_inflight).pendings)
    × (among 2 (closed_twice manager during_close [] (answer tt) two_inflight).cancel_requested
        ≡ false)
closed_twice-forgets_example =
    closed_twice-forgets manager during_close [] (answer tt) two_inflight 2 0 (1 ∷ []) refl
      (omega arith, (omega arith, tt)) tt (omega arith)

-- the node answers that the transaction landed, with success
abbrev sent_session : Session node
sent_session = record session { pending = record pending { last_tx_hash = some (codes "AB") } }

on_tx_timeout-Retries_example :
    Post ⊥
      (λ _ _. Unit)
      (Retries (has_landed sent_session) none)
      (on_tx_timeout manager 0 100 sent_session)
on_tx_timeout-Retries_example = on_tx_timeout-Retries manager 0 100 sent_session
