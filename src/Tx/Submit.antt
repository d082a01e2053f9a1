-- ===== src/Tx/Submit.antt =====
-- src/allora_sdk/rpc_client/tx_manager.py: `_attempt_submissions`, the retry loop of a transaction,
-- one function for each of its exception handlers, and `_await_sequence_retry_delay`.
pub mod Outcomes
pub mod Resolved
pub mod Timeout
use allora_sdk_py.Prelude.{
  ℕ, zero, suc, ◌+◌, ◌-◌, Bool, true, false, Option, none, some, ◌==◌, ltb, leb, if◌then◌else◌,
}
use allora_sdk_py.Exec.{pure, throw, gets, modify, ◌>>=◌, ◌>>◌, try_except}
use allora_sdk_py.Tx.Errors.{
  Text, Exc, out_of_gas, sequence_mismatch, insufficient_fees, max_fees_exceeded, tx_timeout,
  timeout_error, cancelled, TxResponse, exception_from_tx_response,
}
use allora_sdk_py.Tx.Chain.{Chain, scaled}
use allora_sdk_py.Tx.State.{
  TxManager, M, call, time, update_pending, set_result, set_exception, resolve,
}
use allora_sdk_py.Tx.Landed.{
  LandedOutcome, finalized, retry_new_sequence, not_landed, bail_if_landed,
  confirm_landed_with_grace, consume_landed_gas_seed,
}
use allora_sdk_py.Tx.Fees.{fee_multiplier_of, estimate_gas}
use allora_sdk_py.Tx.Broadcast.{pre_flight_checks, build_and_broadcast, wait_for_tx, seconds}

-- How a pass through the loop ends: `return`, or on to the next attempt.
pub data Flow : Type 0 where
  return again : Flow

module _ {ch : Chain} where
  -- `pending.timeout and start + pending.timeout < datetime.now()`; a timeout of 0 is false
  unfoldable pub past_deadline : ℕ → Option ℕ → M ch Bool
  past_deadline start none = pure false
  past_deadline start (some t) =
      if t == 0 then pure false else (do now ← time; pure (ltb (start + t) now))

  -- `attempt == pending.max_retries or …`
  unfoldable pub must_stop : ℕ → ℕ → M ch Bool
  unfolding past_deadline
  must_stop attempt start = do
    p ← gets (λ s. s.pending)
    if attempt == p.max_retries then pure true else past_deadline start p.timeout

  unfoldable pub fail : Exc → M ch Flow
  unfolding resolve
  fail e = do set_exception e; pure return

  -- stop with the exception, or go on
  unfoldable pub stop_or : Exc → Bool → M ch Flow → M ch Flow
  unfolding fail
  stop_or e true next = fail e
  stop_or e false next = next

  -- the delay, cut at the deadline, and whether it was cut
  unfoldable pub clamp_delay : ℕ → ℕ → Option ℕ → M ch (ℕ × Bool)
  clamp_delay start delay none = pure (delay, false)
  clamp_delay start delay (some t) = if t == 0 then pure (delay, false) else (do
    now ← time
    let remaining = start + t - now
    pure (if leb remaining delay then (remaining, true) else (delay, false)))

  unfoldable pub slept : ℕ → Bool → M ch Bool
  unfolding past_deadline resolve
  slept start expired = do
    timeout ← gets (λ s. s.pending.timeout)
    late ← if expired then pure true else past_deadline start timeout
    if late then (do set_exception sequence_mismatch; pure true) else pure false

  abbrev pub set_gas_limit : Option ℕ → M ch (Unit {0})
  set_gas_limit g = modify (λ s. record s { current_gas_limit = g })

  abbrev pub set_sequence : Option ℕ → M ch (Unit {0})
  set_sequence q = modify (λ s. record s { next_account_seq = q })

  unfoldable pub raise_for_status : TxResponse → M ch (Unit {0})
  unfolding exception_from_tx_response
  raise_for_status resp = elim (exception_from_tx_response resp) [
    | none ↦ pure tt
    | some err ↦ throw err
  ]

  unfoldable pub keep_seed : Option ℕ → M ch (Unit {0})
  keep_seed none = pure tt
  keep_seed (some g) = set_gas_limit (some g)

  -- the retry after a landed, retryable failure: a fresh sequence, and gas if it ran out
  unfoldable pub take_fresh_sequence : M ch (Unit {0})
  unfolding keep_seed
  take_fresh_sequence = do set_sequence none; seeded ← consume_landed_gas_seed; keep_seed seeded

module _ {ch : Chain} (mgr : TxManager ch) where
  unfoldable pub delay_for : Option ch.F → ℕ → M ch Bool
  unfolding clamp_delay slept
  delay_for none start = pure false
  delay_for (some d) start = do
    timeout ← gets (λ s. s.pending.timeout)
    (delay, expired) ← clamp_delay start (ch.micros d) timeout
    call (ch.sleep delay)
    slept start expired

  -- `_await_sequence_retry_delay`: true if the caller should stop
  unfoldable pub await_sequence_retry_delay : ℕ → M ch Bool
  unfolding delay_for
  await_sequence_retry_delay start = delay_for mgr.account_sequence_retry_delay start

  -- the body of the `try`
  unfoldable pub attempt_body : ℕ → M ch Flow
  unfolding resolve raise_for_status
  attempt_body attempt = do
    pre_flight_checks mgr
    update_pending (λ p. record p { attempt = attempt })
    let gas_multiplier = ch.plus (ch.literal 10 1) (ch.times (ch.of_int attempt) (ch.literal 3 1))
    s ← gets (λ s. s)
    b ←
        build_and_broadcast mgr s.pending.type_url s.pending.msgs s.current_gas_limit
          s.fee_multiplier gas_multiplier s.next_account_seq
    update_pending (λ p. record p {
      last_tx_hash = some b.tx_hash;
      last_gas_limit = some b.gas_limit;
      last_fee = some b.fee;
    })
    set_gas_limit (some b.gas_limit)
    set_sequence (some b.sequence)
    resp ← wait_for_tx mgr b.tx_hash (some (seconds 30)) (some (seconds 2))
    set_sequence (some (b.sequence + 1))
    raise_for_status resp
    set_result resp
    pure return

  -- the gas limit of the retry after an `OutOfGasError`
  unfoldable pub suggested_limit : Option ℕ → Option ℕ → Option ℕ → Text → ℕ
  suggested_limit (some (suc wanted)) last current type_url =
      scaled ch (suc wanted) (ch.literal 12 1)
  suggested_limit _ (some last) current type_url = scaled ch last (ch.literal 13 1)
  suggested_limit _ none (some current) type_url = scaled ch current (ch.literal 13 1)
  suggested_limit _ none none type_url = scaled ch (estimate_gas mgr type_url) (ch.literal 15 1)

  unfoldable pub on_out_of_gas : Exc → Option ℕ → ℕ → ℕ → M ch Flow
  unfolding stop_or suggested_limit
  on_out_of_gas err gas_wanted attempt start = do
    stop ← must_stop attempt start
    stop_or err stop (do
      s ← gets (λ s. s)
      set_gas_limit (
          some (
            suggested_limit gas_wanted s.pending.last_gas_limit s.current_gas_limit
              s.pending.type_url))
      pure again)

  unfoldable pub on_insufficient_fees : ℕ → ℕ → M ch Flow
  unfolding stop_or
  on_insufficient_fees attempt start = do
    modify (λ s. record s {
      cached_gas_price = none;
      gas_price_cache_time = none;
      fee_multiplier = ch.plus (ch.literal 10 1) (ch.times (ch.of_int attempt) (ch.literal 5 1));
    })
    stop ← must_stop attempt start
    stop_or insufficient_fees stop (pure again)

  unfoldable pub delayed_retry : ℕ → M ch Flow
  delayed_retry start = do
    ended ← await_sequence_retry_delay start
    if ended then pure return else pure again

  -- the retry that every path of the handler for a sequence mismatch ends with
  unfoldable pub sequence_retry : ℕ → ℕ → M ch Flow
  unfolding stop_or delayed_retry
  sequence_retry attempt start = do
    stop ← must_stop attempt start
    stop_or sequence_mismatch stop (delayed_retry start)

  unfoldable pub after_grace : ℕ → ℕ → LandedOutcome → M ch Flow
  unfolding sequence_retry
  after_grace attempt start finalized = pure return
  after_grace attempt start retry_new_sequence = do
    take_fresh_sequence
    sequence_retry attempt start
  after_grace attempt start not_landed = do set_sequence none; sequence_retry attempt start

  -- A rejected re-broadcast at the same sequence waits for the indexer first.
  unfoldable pub rejected : ℕ → ℕ → Bool → M ch Flow
  unfolding after_grace
  rejected attempt start false = do set_sequence none; sequence_retry attempt start
  rejected attempt start true = do
    update_pending (λ p. record p { same_seq_rebroadcast = false })
    outcome ← confirm_landed_with_grace mgr 3
    after_grace attempt start outcome

  unfoldable pub after_mismatch : ℕ → ℕ → LandedOutcome → M ch Flow
  unfolding rejected
  after_mismatch attempt start finalized = pure return
  after_mismatch attempt start _ = do
    flag ← gets (λ s. s.pending.same_seq_rebroadcast)
    rejected attempt start flag

  unfoldable pub on_sequence_mismatch : ℕ → ℕ → M ch Flow
  unfolding after_mismatch
  on_sequence_mismatch attempt start = do
    outcome ← bail_if_landed
    after_mismatch attempt start outcome

  unfoldable pub after_timeout : ℕ → ℕ → LandedOutcome → M ch Flow
  unfolding stop_or
  after_timeout attempt start finalized = pure return
  after_timeout attempt start retry_new_sequence = do
    take_fresh_sequence
    stop ← must_stop attempt start
    stop_or tx_timeout stop (pure again)
  after_timeout attempt start not_landed = do
    update_pending (λ p. record p { same_seq_rebroadcast = true })
    stop ← must_stop attempt start
    stop_or tx_timeout stop (pure again)

  unfoldable pub on_tx_timeout : ℕ → ℕ → M ch Flow
  unfolding after_timeout
  on_tx_timeout attempt start = do outcome ← bail_if_landed; after_timeout attempt start outcome

  unfoldable pub on_query_deadline : ℕ → ℕ → M ch Flow
  unfolding stop_or
  on_query_deadline attempt start = do
    stop ← must_stop attempt start
    stop_or tx_timeout stop (pure again)

  -- the `except` clauses, in their order; a `BaseException` passes them by
  unfoldable pub handle : ℕ → ℕ → Exc → M ch Flow
  unfolding fail
  handle attempt start (out_of_gas wanted used) =
      on_out_of_gas (out_of_gas wanted used) wanted attempt start
  handle attempt start insufficient_fees = on_insufficient_fees attempt start
  handle attempt start sequence_mismatch = on_sequence_mismatch attempt start
  handle attempt start tx_timeout = on_tx_timeout attempt start
  handle attempt start max_fees_exceeded = fail max_fees_exceeded
  handle attempt start timeout_error = on_query_deadline attempt start
  handle attempt start cancelled = throw cancelled
  handle attempt start e = fail e

  unfoldable pub one_attempt : ℕ → ℕ → M ch Flow
  unfolding handle
  one_attempt attempt start = try_except (attempt_body attempt) (handle attempt start)

  unfoldable pub go_on : Flow → M ch (Unit {0}) → M ch (Unit {0})
  go_on return next = pure tt
  go_on again next = next

  -- `for attempt in range(pending.max_retries + 1)`, on the attempts left
  unfoldable pub attempts : ℕ → ℕ → ℕ → M ch (Unit {0})
  unfolding resolve go_on
  attempts zero attempt start = set_exception tx_timeout
  attempts (suc left) attempt start = do
    flow ← one_attempt attempt start
    go_on flow (attempts left (suc attempt) start)

  -- `_attempt_submissions`; the session comes with the `gas_limit` and `account_seq` arguments
  unfoldable pub attempt_submissions : M ch (Unit {0})
  attempt_submissions = do
    start ← time
    modify (λ s. record s { fee_multiplier = fee_multiplier_of mgr s.pending.fee_tier })
    retries ← gets (λ s. s.pending.max_retries)
    attempts (suc retries) 0 start
