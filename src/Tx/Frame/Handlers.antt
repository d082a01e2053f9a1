-- ===== src/Tx/Frame/Handlers.antt =====
-- About src/allora_sdk/rpc_client/tx_manager.py: the handlers of `_attempt_submissions`, each with
-- a frame.
use allora_sdk_py.Prelude.{ℕ, Bool, true, false, Option, none, some, ◌==◌}
use allora_sdk_py.Exec.{pure, ◌>>=◌}
use allora_sdk_py.Exec.Post.{Triple-if}
use allora_sdk_py.Tx.Errors.{
  Exc, out_of_gas, sequence_mismatch, insufficient_fees, tx_timeout, timeout_error, cancelled,
}
use allora_sdk_py.Tx.Chain.{Chain}
use allora_sdk_py.Tx.State.{TxManager, M, failed}
use allora_sdk_py.Tx.Landed.{
  LandedOutcome, finalized, retry_new_sequence, not_landed, consume_landed_gas_seed, gas_seed,
}
use allora_sdk_py.Tx.Submit
use allora_sdk_py.Tx.Submit.{
  Flow, return, again, past_deadline, must_stop, fail, stop_or, clamp_delay, keep_seed,
  take_fresh_sequence, delay_for, await_sequence_retry_delay, on_out_of_gas, on_insufficient_fees,
  delayed_retry, sequence_retry, after_grace, rejected, after_mismatch, on_sequence_mismatch,
  after_timeout, on_tx_timeout, on_query_deadline, handle,
}
use allora_sdk_py.Tx.Frame
use allora_sdk_py.Tx.Frame.{Predicate, IsFrame, On, Keeps, call-Keeps, time-Keeps, resolve-On}
use allora_sdk_py.Tx.Frame.Steps.{
  Keeps-pure, Keeps-throw, Keeps-bind, bail_if_landed-Keeps, confirm_landed_with_grace-Keeps,
}

module _ (ch : Chain) (I : Predicate ch) (frame : IsFrame ch I) where
  past_deadline-Keeps : (t : ℕ) (o : Option ℕ) → Keeps ch I (past_deadline {ch = ch} t o)
  unfolding past_deadline
  past_deadline-Keeps t none = Keeps-pure ch I frame false
  past_deadline-Keeps t (some d) =
      Triple-if (d == 0) (Keeps-pure ch I frame false)
        (record { at = λ s h. (time-Keeps ch I frame).at s h })

  must_stop-Keeps : (a t : ℕ) → Keeps ch I (must_stop {ch = ch} a t)
  unfolding must_stop
  must_stop-Keeps a t = record {
    at = λ s h.
        (Triple-if (a == s.pending.max_retries) (Keeps-pure ch I frame true)
            (past_deadline-Keeps t s.pending.timeout)).at
          s h;
  }

  fail-Keeps : (e : Exc) → Keeps ch I (fail {ch = ch} e)
  unfolding fail
  fail-Keeps e = record { at = λ s h. resolve-On ch I frame (failed e) s h }

  stop_or-Keeps :
      (e : Exc) (b : Bool) (next : M ch Flow) → Keeps ch I next → Keeps ch I (stop_or e b next)
  unfolding stop_or
  stop_or-Keeps e true next h = fail-Keeps e
  stop_or-Keeps e false next h = h

  clamp_delay-Keeps :
      (start delay : ℕ) (t : Option ℕ) → Keeps ch I (clamp_delay {ch = ch} start delay t)
  unfolding clamp_delay
  clamp_delay-Keeps start delay none = Keeps-pure ch I frame (delay, false)
  clamp_delay-Keeps start delay (some t) =
      Triple-if (t == 0) (Keeps-pure ch I frame (delay, false))
        (record { at = λ s h. (time-Keeps ch I frame).at s h })

  slept-Keeps : (start : ℕ) (b : Bool) → Keeps ch I (Submit.slept {ch = ch} start b)
  unfolding Submit.slept
  slept-Keeps start b = record {
    at = λ s h.
        (Keeps-bind ch I frame
            (Triple-if b (Keeps-pure ch I frame true) (past_deadline-Keeps start s.pending.timeout))
            (λ late.
              Triple-if late
                (record { at = λ s' k. resolve-On ch I frame (failed sequence_mismatch) s' k })
                (Keeps-pure ch I frame false))).at
          s h;
  }

  keep_seed-Keeps : (o : Option ℕ) → Keeps ch I (keep_seed {ch = ch} o)
  unfolding keep_seed
  keep_seed-Keeps none = Keeps-pure ch I frame tt
  keep_seed-Keeps (some g) = record { at = λ s h. h }

  take_fresh_sequence-Keeps : Keeps ch I (take_fresh_sequence {ch = ch})
  unfolding take_fresh_sequence consume_landed_gas_seed
  take_fresh_sequence-Keeps = record {
    at = λ s h. (keep_seed-Keeps (gas_seed ch s.pending.last_landed_error)).at _ h;
  }

module _ (ch : Chain) (I : Predicate ch) (frame : IsFrame ch I) (mgr : TxManager ch) where
  delay_for-Keeps : (d : Option ch.F) (start : ℕ) → Keeps ch I (delay_for mgr d start)
  unfolding delay_for
  delay_for-Keeps none start = Keeps-pure ch I frame false
  delay_for-Keeps (some d) start = record {
    at = λ s h.
        (Keeps-bind ch I frame (clamp_delay-Keeps ch I frame start (ch.micros d) s.pending.timeout)
            (λ c.
              Keeps-bind ch I frame (call-Keeps ch I frame (ch.sleep c.0) (Frame.slept c.0))
                (λ _. slept-Keeps ch I frame start c.1))).at
          s h;
  }

  delayed_retry-Keeps : (start : ℕ) → Keeps ch I (delayed_retry mgr start)
  unfolding delayed_retry await_sequence_retry_delay
  delayed_retry-Keeps start =
      Keeps-bind ch I frame (delay_for-Keeps mgr.account_sequence_retry_delay start)
        (λ ended. Triple-if ended (Keeps-pure ch I frame return) (Keeps-pure ch I frame again))

  sequence_retry-Keeps : (a t : ℕ) → Keeps ch I (sequence_retry mgr a t)
  unfolding sequence_retry
  sequence_retry-Keeps a t = Keeps-bind ch I frame (must_stop-Keeps ch I frame a t) (λ stop.
      stop_or-Keeps ch I frame sequence_mismatch stop (delayed_retry mgr t) (delayed_retry-Keeps t))

  stop_or_again-Keeps :
      (a t : ℕ) (e : Exc)
      → Keeps ch I (do stop ← must_stop {ch = ch} a t; stop_or e stop (pure again))
  stop_or_again-Keeps a t e =
      Keeps-bind ch I frame (must_stop-Keeps ch I frame a t)
        (λ stop. stop_or-Keeps ch I frame e stop (pure again) (Keeps-pure ch I frame again))

  on_out_of_gas-Keeps : (e : Exc) (g : Option ℕ) (a t : ℕ) → Keeps ch I (on_out_of_gas mgr e g a t)
  unfolding on_out_of_gas
  on_out_of_gas-Keeps e g a t =
      Keeps-bind ch I frame (must_stop-Keeps ch I frame a t)
        (λ stop. stop_or-Keeps ch I frame e stop _ (record { at = λ s h. h }))

  after_grace-Keeps : (a t : ℕ) (o : LandedOutcome) → Keeps ch I (after_grace mgr a t o)
  unfolding after_grace
  after_grace-Keeps a t finalized = Keeps-pure ch I frame return
  after_grace-Keeps a t retry_new_sequence =
      Keeps-bind ch I frame (take_fresh_sequence-Keeps ch I frame) (λ _. sequence_retry-Keeps a t)
  after_grace-Keeps a t not_landed = record { at = λ s h. (sequence_retry-Keeps a t).at _ h }

  rejected-Keeps : (a t : ℕ) (b : Bool) → Keeps ch I (rejected mgr a t b)
  unfolding rejected
  rejected-Keeps a t false = record { at = λ s h. (sequence_retry-Keeps a t).at _ h }
  rejected-Keeps a t true = record {
    at = λ s h.
        (Keeps-bind ch I frame (confirm_landed_with_grace-Keeps ch I frame mgr 3)
            (λ o. after_grace-Keeps a t o)).at
          _ h;
  }

  after_mismatch-Keeps : (a t : ℕ) (o : LandedOutcome) → Keeps ch I (after_mismatch mgr a t o)
  unfolding after_mismatch
  after_mismatch-Keeps a t finalized = Keeps-pure ch I frame return
  after_mismatch-Keeps a t _ = record {
    at = λ s h. (rejected-Keeps a t s.pending.same_seq_rebroadcast).at s h;
  }

  after_timeout-Keeps : (a t : ℕ) (o : LandedOutcome) → Keeps ch I (after_timeout mgr a t o)
  unfolding after_timeout
  after_timeout-Keeps a t finalized = Keeps-pure ch I frame return
  after_timeout-Keeps a t retry_new_sequence =
      Keeps-bind ch I frame (take_fresh_sequence-Keeps ch I frame)
        (λ _. stop_or_again-Keeps a t tx_timeout)
  after_timeout-Keeps a t not_landed = record {
    at = λ s h. (stop_or_again-Keeps a t tx_timeout).at _ h;
  }

  pub handle-Keeps : (a t : ℕ) (e : Exc) → Keeps ch I (handle mgr a t e)
  unfolding handle on_query_deadline on_sequence_mismatch on_tx_timeout on_insufficient_fees
  handle-Keeps a t (out_of_gas w u) = on_out_of_gas-Keeps (out_of_gas w u) w a t
  handle-Keeps a t insufficient_fees = record {
    at = λ s h. (stop_or_again-Keeps a t insufficient_fees).at _ h;
  }
  handle-Keeps a t sequence_mismatch =
      Keeps-bind ch I frame (bail_if_landed-Keeps ch I frame) (λ o. after_mismatch-Keeps a t o)
  handle-Keeps a t tx_timeout =
      Keeps-bind ch I frame (bail_if_landed-Keeps ch I frame) (λ o. after_timeout-Keeps a t o)
  handle-Keeps a t timeout_error = stop_or_again-Keeps a t tx_timeout
  handle-Keeps a t cancelled = Keeps-throw ch I frame cancelled
  handle-Keeps a t e = fail-Keeps ch I frame e
