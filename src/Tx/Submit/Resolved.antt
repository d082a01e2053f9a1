-- ===== src/Tx/Submit/Resolved.antt =====
-- About src/allora_sdk/rpc_client/tx_manager.py: how an attempt and the loop of
-- `_attempt_submissions` end.
use allora_sdk_py.Prelude.{ℕ, zero, suc, refl, some, arith}
use allora_sdk_py.Exec.{pure, ◌>>◌}
use allora_sdk_py.Exec.Post.{Post, Triple, Triple-bind, Triple-try}
use allora_sdk_py.Tx.Errors.{TxResponse}
use allora_sdk_py.Tx.Chain.{Chain, IsTimed}
use allora_sdk_py.Tx.State.{TxManager, Session, M, resolve, set_result}
use allora_sdk_py.Tx.Broadcast.{seconds, or_default}
use allora_sdk_py.Tx.Broadcast.Ends.{
  Raises, Any, pre_flight_checks-Ends, build_and_broadcast-Ends, wait_for_tx-Ends,
}
use allora_sdk_py.Tx.Submit.{
  Flow, raise_for_status, attempt_body, one_attempt, go_on, attempts, attempt_submissions, return,
  again,
}
use allora_sdk_py.Tx.Submit.Outcomes.{IsResolved, Cancelled, Always, Ended, handle-Always}

module _ {ch : Chain} (timed : IsTimed ch) (mgr : TxManager ch) where
  settle-Triple :
      (r : TxResponse) (s : Session ch)
      → Post ⊥ Raises Ended ((do raise_for_status r; set_result r; pure return) s)
  unfolding raise_for_status resolve
  settle-Triple r s = ground arith

  -- The body of the `try` ends, and where it returns it has set the result.
  attempt_body-Ended : (a : ℕ) → Triple ⊥ (λ _. Unit) Raises Ended (attempt_body mgr a)
  unfolding attempt_body
  attempt_body-Ended a = Triple-bind Any (pre_flight_checks-Ends mgr) (λ _. record {
    at = λ s _.
        let t = record s { pending = record (s.pending) { attempt = a } } in
        (Triple-bind Any
            (build_and_broadcast-Ends mgr s.pending.type_url s.pending.msgs s.current_gas_limit
              s.fee_multiplier _ s.next_account_seq)
            (λ b. record {
              at = λ s' _.
                  (Triple-bind Any
                      (wait_for_tx-Ends timed mgr b.tx_hash (some (seconds 30)) (some (seconds 2))
                        (unfold or_default in omega arith))
                      (λ r. record { at = λ s'' _. settle-Triple r _ })).at
                    _ tt;
            })).at
          t tt;
  })

  one_attempt-Always : (a t : ℕ) → Always Ended (one_attempt mgr a t)
  unfolding one_attempt
  one_attempt-Always a t =
      Triple-try Raises (attempt_body-Ended a)
        (λ e. record { at = λ s _. (handle-Always timed mgr a t e).at s tt })

  go_on-Triple :
      (f : Flow) (next : M ch (Unit {0}))
      → Always (λ _ s. IsResolved s) next
      → Triple ⊥ (Ended {ch = ch} f) Cancelled (λ _ s. IsResolved s) (go_on mgr f next)
  unfolding go_on
  go_on-Triple return next h = record { at = λ s p. p refl }
  go_on-Triple again next h = record { at = λ s _. h.at s tt }

  attempts-Always : (left a t : ℕ) → Always (λ _ s. IsResolved s) (attempts mgr left a t)
  unfolding attempts
  attempts-Always zero a t = record { at = λ s _. ground arith }
  attempts-Always (suc left) a t =
      let rest = attempts-Always left (suc a) t in
      Triple-bind Ended (one_attempt-Always a t)
        (λ f. go_on-Triple f (attempts mgr left (suc a) t) rest)

  -- If the clock does not go back, and `asyncio.sleep` takes its time where it returns and raises
  -- nothing but a cancellation, then whatever the node answers, `_attempt_submissions` ends, with
  -- the future of the transaction resolved or with the cancellation of its task; it raises nothing
  -- else.
  pub attempt_submissions-resolves :
      (s : Session ch) → Post ⊥ Cancelled (λ _ s'. IsResolved s') (attempt_submissions mgr s)
  unfolding attempt_submissions
  attempt_submissions-resolves s =
      (attempts-Always (suc s.pending.max_retries) 0 (ch.now s.world).0).at _ tt
