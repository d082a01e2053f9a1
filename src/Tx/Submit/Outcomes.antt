-- ===== src/Tx/Submit/Outcomes.antt =====
-- About src/allora_sdk/rpc_client/tx_manager.py: how each handler of an attempt ends. `Always` is
-- said from any state; `Ended` is what holds where the loop is left.
use allora_sdk_py.Prelude.{
  ℕ, zero, suc, ◌≡◌, refl, Bool, true, false, Option, none, some, arith, is_some,
}
use allora_sdk_py.Exec.{Reply, answer, fault, outcome, pure, ◌>>=◌}
use allora_sdk_py.Exec.Post.{Post, Triple, Triple-bind, Triple-pure}
use allora_sdk_py.Tx.Errors.{
  Exc, sequence_mismatch, cancelled, out_of_gas, insufficient_fees, tx_timeout, timeout_error, Text,
}
use allora_sdk_py.Tx.Chain.{Chain, IsTimed}
use allora_sdk_py.Tx.State.{TxManager, Session, M, call, resolve, Outcome}
use allora_sdk_py.Tx.Landed.{
  LandedOutcome, finalized, retry_new_sequence, not_landed, get_tx_checked, try_confirm_landed,
  bail_if_landed, confirm_landed_with_grace, unless_landed, consume_landed_gas_seed,
}
use allora_sdk_py.Tx.Broadcast.Ends.{Any}
use allora_sdk_py.Tx.Submit.{
  Flow, return, again, fail, must_stop, handle, take_fresh_sequence, await_sequence_retry_delay,
  sequence_retry, stop_or, on_out_of_gas, on_insufficient_fees, after_grace, rejected,
  after_mismatch, on_sequence_mismatch, after_timeout, on_tx_timeout, on_query_deadline, delay_for,
  delayed_retry, slept, clamp_delay,
}

module _ {ch : Chain} where
  abbrev pub IsResolved : Session ch → Type 0
  IsResolved s = is_some s.pending.final_future ≡ true

  abbrev pub Cancelled : Exc → Session ch → Type 0
  Cancelled e s = e ≡ cancelled

  -- from any state
  abbrev pub Always : {A : Type 0} → (A → Session ch → Type 0) → M ch A → Type 0
  Always Q m = Triple ⊥ (λ _. Unit) Cancelled Q m

  abbrev pub Bailed : LandedOutcome → Session ch → Type 0
  Bailed o s = o ≡ finalized → IsResolved s

  abbrev pub Ended : Flow → Session ch → Type 0
  Ended f s = f ≡ return → IsResolved s

  pub resolved : (o : Outcome) (s : Session ch) → is_some (resolve o s.pending).final_future ≡ true
  unfolding resolve
  resolved o s = ground arith

  get_tx_checked-ends : (h : Text) (s : Session ch) → Post ⊥ (λ _ _. Unit) Any (get_tx_checked h s)
  unfolding get_tx_checked
  get_tx_checked-ends h s = ground arith

  try_confirm_landed-Always : (h : Text) → Always Any (try_confirm_landed {ch = ch} h)
  unfolding try_confirm_landed
  try_confirm_landed-Always h = record { at = λ s _. ground arith }

  bail_if_landed-Always : Always Bailed (bail_if_landed {ch = ch})
  unfolding bail_if_landed
  bail_if_landed-Always = record { at = λ s _. ground arith }

  fail-Always : (e : Exc) → Always Ended (fail {ch = ch} e)
  unfolding fail
  fail-Always e = record { at = λ s _. ground arith }

  must_stop-Always : (a t : ℕ) → Always Any (must_stop {ch = ch} a t)
  unfolding must_stop
  must_stop-Always a t = record { at = λ s _. ground arith }

  take_fresh_sequence-Always : Always Any (take_fresh_sequence {ch = ch})
  unfolding take_fresh_sequence consume_landed_gas_seed
  take_fresh_sequence-Always = record { at = λ s _. ground arith }

  calm :
      (r : Reply Exc (Unit {0})) (s : Session ch)
      → ((e : Exc) → r ≡ fault e → e ≡ cancelled)
      → Post ⊥ Cancelled Any (outcome r, s)
  calm (answer a) s h = tt
  calm (fault e) s h = h e refl

module _ {ch : Chain} (timed : IsTimed ch) (mgr : TxManager ch) where
  call_sleep-Always : (d : ℕ) → Always {ch = ch} Any (call (ch.sleep d))
  call_sleep-Always d = record {
    at = λ s _.
        calm (ch.sleep d s.world).0 (record s { world = (ch.sleep d s.world).1 })
          (timed.sleep_raises d s.world);
  }

  unless_landed-Always :
      (o : LandedOutcome) (next : M ch LandedOutcome)
      → Always Bailed next
      → Triple ⊥ (Bailed {ch = ch} o) Cancelled Bailed (unless_landed o next)
  unfolding unless_landed
  unless_landed-Always finalized next h = Triple-pure finalized (λ s p. p)
  unless_landed-Always retry_new_sequence next h = Triple-pure retry_new_sequence (λ s p. p)
  unless_landed-Always not_landed next h = record { at = λ s _. h.at s tt }

  confirm_landed_with_grace-Always : (n : ℕ) → Always Bailed (confirm_landed_with_grace mgr n)
  unfolding confirm_landed_with_grace
  confirm_landed_with_grace-Always zero = record { at = λ s _. ground arith }
  confirm_landed_with_grace-Always (suc n) =
      let later = confirm_landed_with_grace-Always n in
      Triple-bind Any (call_sleep-Always mgr.query_interval) (λ _.
        Triple-bind Bailed bail_if_landed-Always
          (λ o. unless_landed-Always o (confirm_landed_with_grace mgr n) later))

  slept-Always :
      (start : ℕ) (cut : Bool)
      → Always {ch = ch} (λ stop s. stop ≡ true → IsResolved s) (slept start cut)
  unfolding slept
  slept-Always start cut = record { at = λ s _. ground arith }

  clamp_delay-Always :
      (start delay : ℕ) (t : Option ℕ) → Always {ch = ch} Any (clamp_delay start delay t)
  unfolding clamp_delay
  clamp_delay-Always start delay t = record { at = λ s _. ground arith }

  delay_for-Always :
      (d : Option ch.F) (start : ℕ)
      → Always (λ stop s. stop ≡ true → IsResolved s) (delay_for mgr d start)
  unfolding delay_for
  delay_for-Always none start = record { at = λ s _. ground arith }
  delay_for-Always (some d) start = record {
    at = λ s _.
        (Triple-bind Any (clamp_delay-Always start (ch.micros d) s.pending.timeout)
            (λ c. Triple-bind Any (call_sleep-Always c.0) (λ _. slept-Always start c.1))).at
          s tt;
  }

  -- The wait may end the submission: then the future is resolved.
  delayed_retry-Always : (start : ℕ) → Always Ended (delayed_retry mgr start)
  unfolding delayed_retry await_sequence_retry_delay
  delayed_retry-Always start =
      Triple-bind (λ stop s. stop ≡ true → IsResolved s)
        (delay_for-Always mgr.account_sequence_retry_delay start)
        (λ ended. record { at = λ s h. ground arith })

  stop_or-Always :
      (e : Exc) (b : Bool) (next : M ch Flow)
      → Always Ended next
      → Always {ch = ch} Ended (stop_or e b next)
  unfolding stop_or
  stop_or-Always e true next h = fail-Always e
  stop_or-Always e false next h = h

  sequence_retry-Always : (a t : ℕ) → Always Ended (sequence_retry mgr a t)
  unfolding sequence_retry
  sequence_retry-Always a t =
      Triple-bind Any (must_stop-Always a t) (λ stop.
        stop_or-Always sequence_mismatch stop (delayed_retry mgr t) (delayed_retry-Always t))

  again-Always : Always {ch = ch} Ended (pure again)
  again-Always = record { at = λ s _. ground arith }

  on_out_of_gas-Always :
      (e : Exc) (g : Option ℕ) (a t : ℕ) → Always Ended (on_out_of_gas mgr e g a t)
  unfolding on_out_of_gas
  on_out_of_gas-Always e g a t =
      Triple-bind Any (must_stop-Always a t)
        (λ stop. stop_or-Always e stop _ (record { at = λ s _. ground arith }))

  on_insufficient_fees-Always : (a t : ℕ) → Always Ended (on_insufficient_fees mgr a t)
  unfolding on_insufficient_fees
  on_insufficient_fees-Always a t = record {
    at = λ s _.
        (Triple-bind Any (must_stop-Always a t)
            (λ stop. stop_or-Always insufficient_fees stop (pure again) again-Always)).at
          _ tt;
  }

  after_grace-Always :
      (a t : ℕ) (o : LandedOutcome)
      → Triple ⊥ (Bailed {ch = ch} o) Cancelled Ended (after_grace mgr a t o)
  unfolding after_grace
  after_grace-Always a t finalized = Triple-pure return (λ s h _. h refl)
  after_grace-Always a t retry_new_sequence = record {
    at = λ s _.
        (Triple-bind Any take_fresh_sequence-Always (λ _. sequence_retry-Always a t)).at s tt;
  }
  after_grace-Always a t not_landed = record { at = λ s _. (sequence_retry-Always a t).at _ tt }

  rejected-Always : (a t : ℕ) (b : Bool) → Always Ended (rejected mgr a t b)
  unfolding rejected
  rejected-Always a t false = record { at = λ s _. (sequence_retry-Always a t).at _ tt }
  rejected-Always a t true = record {
    at = λ s _.
        (Triple-bind Bailed (confirm_landed_with_grace-Always 3) (λ o. after_grace-Always a t o)).at
          _ tt;
  }

  after_mismatch-Always :
      (a t : ℕ) (o : LandedOutcome)
      → Triple ⊥ (Bailed {ch = ch} o) Cancelled Ended (after_mismatch mgr a t o)
  unfolding after_mismatch
  after_mismatch-Always a t finalized = Triple-pure return (λ s h _. h refl)
  after_mismatch-Always a t _ = record {
    at = λ s _. (rejected-Always a t s.pending.same_seq_rebroadcast).at s tt;
  }

  on_sequence_mismatch-Always : (a t : ℕ) → Always Ended (on_sequence_mismatch mgr a t)
  unfolding on_sequence_mismatch
  on_sequence_mismatch-Always a t =
      Triple-bind Bailed bail_if_landed-Always (λ o. after_mismatch-Always a t o)

  retry_or_time_out-Always :
      (a t : ℕ)
      → Always {ch = ch} Ended (do stop ← must_stop a t; stop_or tx_timeout stop (pure again))
  retry_or_time_out-Always a t =
      Triple-bind Any (must_stop-Always a t)
        (λ stop. stop_or-Always tx_timeout stop (pure again) again-Always)

  after_timeout-Always :
      (a t : ℕ) (o : LandedOutcome)
      → Triple ⊥ (Bailed {ch = ch} o) Cancelled Ended (after_timeout mgr a t o)
  unfolding after_timeout
  after_timeout-Always a t finalized = Triple-pure return (λ s h _. h refl)
  after_timeout-Always a t retry_new_sequence = record {
    at = λ s _.
        (Triple-bind Any take_fresh_sequence-Always (λ _. retry_or_time_out-Always a t)).at s tt;
  }
  after_timeout-Always a t not_landed = record {
    at = λ s _. (retry_or_time_out-Always a t).at _ tt;
  }

  on_tx_timeout-Always : (a t : ℕ) → Always Ended (on_tx_timeout mgr a t)
  unfolding on_tx_timeout
  on_tx_timeout-Always a t =
      Triple-bind Bailed bail_if_landed-Always (λ o. after_timeout-Always a t o)

  -- Whichever exception ends an attempt: the handlers go on, or leave the future resolved, or let
  -- a cancellation pass; they raise nothing else.
  pub handle-Always : (a t : ℕ) (e : Exc) → Always Ended (handle mgr a t e)
  unfolding handle on_query_deadline
  handle-Always a t (out_of_gas w u) = on_out_of_gas-Always (out_of_gas w u) w a t
  handle-Always a t insufficient_fees = on_insufficient_fees-Always a t
  handle-Always a t sequence_mismatch = on_sequence_mismatch-Always a t
  handle-Always a t tx_timeout = on_tx_timeout-Always a t
  handle-Always a t timeout_error = retry_or_time_out-Always a t
  handle-Always a t cancelled = record { at = λ s _. refl }
  handle-Always a t e = fail-Always e
