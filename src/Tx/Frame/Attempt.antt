-- ===== src/Tx/Frame/Attempt.antt =====
-- About src/allora_sdk/rpc_client/tx_manager.py: the frames of one attempt, before and after its
-- broadcast, and the cap on its fee.
use allora_sdk_py.Prelude.{
  ℕ, ◌≤◌, ◌≡◌, false, Option, none, some, arith, get_or, if◌then◌else◌, Bool-cases, inl, inr,
}
use allora_sdk_py.Exec.{Result, ok, raise, stuck, pure, throw, ◌>>◌}
use allora_sdk_py.Exec.Post.{
  Post, Triple, Triple-bind, Triple-pure, Triple-try, Triple-and, Triple-trivial, Triple-weaken,
}
use allora_sdk_py.Tx.Errors.{Text, Exc, timeout_error, max_fees_exceeded, TxResponse}
use allora_sdk_py.Tx.Chain.{Chain, AccountInfo, scaled}
use allora_sdk_py.Tx.State.{TxManager, Session, M, Outcome, call, set_result, done}
use allora_sdk_py.Tx.Fees.{
  get_current_gas_price, check_network_congestion, congested, over_cap, calculate_optimal_fee,
  estimate_gas,
}
use allora_sdk_py.Tx.Broadcast.{
  Broadcast, info_or_raise, checked_hash, broadcast_outcome, broadcast, build_and_broadcast,
  seconds,
}
use allora_sdk_py.Tx.Submit.{return, raise_for_status, attempt_body, one_attempt}
use allora_sdk_py.Tx.Frame.{
  Predicate, IsFrame, On, Keeps, call-Keeps, resolve-On, reply-Post, asked_info, signed,
}
use allora_sdk_py.Tx.Frame.Steps.{Keeps-pure, Keeps-throw, Keeps-bind}
use allora_sdk_py.Tx.Frame.Fees.{
  wait_for_tx-Keeps, pre_flight_checks-Keeps, calculate_optimal_fee-Keeps,
}
use allora_sdk_py.Tx.Frame.Handlers.{handle-Keeps}

-- The fee is at most `max_fees`, if that is set.
abbrev pub IsWithinCap : Option ℕ → ℕ → Type 0
IsWithinCap none fee = Unit
IsWithinCap (some cap) fee = fee ≤ cap

-- From before the one broadcast of an attempt to after it.
pub record IsStage (ch : Chain) (cap : Option ℕ) (I J : Predicate ch) : Type 0 where
  pub before : IsFrame ch I
  pub past : IsFrame ch J
  pub unsent : (w : ch.World) (f : Option Outcome) (l : Option ℕ) → I w f l → J w f l
  pub sends :
      (b : ch.TxBytes) (w : ch.World) (f : Option Outcome) (l : Option ℕ)
      → I w f l
      → J (ch.broadcast_tx b w).1 f l
  pub pays :
      (w : ch.World) (f : Option Outcome) (l : Option ℕ) (fee : ℕ)
      → IsWithinCap cap fee
      → J w f l
      → J w f (some fee)

module _ {ch : Chain} (mgr : TxManager ch) where
  capped : (cap : Option ℕ) (fee : ℕ) → over_cap mgr cap fee ≡ false → IsWithinCap cap fee
  unfolding over_cap
  capped none fee h = tt
  capped (some cap) fee h = ground arith

  -- A fee is returned only within the cap.
  pub calculate_optimal_fee-IsWithinCap :
      (g : ℕ) (x : ch.F)
      → Triple Unit
          (λ _. Unit)
          (λ _ _. Unit)
          (λ fee _. IsWithinCap mgr.max_fees fee)
          (calculate_optimal_fee mgr g x)
  unfolding calculate_optimal_fee
  calculate_optimal_fee-IsWithinCap g x =
      Triple-bind (λ _ _. Unit) (Triple-trivial (get_current_gas_price mgr))
        (λ p.
          Triple-bind (λ _ _. Unit) (Triple-trivial (check_network_congestion mgr))
            (λ c. last (scaled ch g (congested mgr (ch.times p x) c))))
    where
      last :
          (fee : ℕ)
          → Triple Unit
              (λ (_ : Session ch). Unit)
              (λ _ _. Unit)
              (λ fee' _. IsWithinCap mgr.max_fees fee')
              (if over_cap mgr mgr.max_fees fee then throw max_fees_exceeded else pure fee)
      last fee = elim (Bool-cases (over_cap mgr mgr.max_fees fee)) [
        | inl over ↦ rw over (record { at = λ s _. tt })
        | inr under ↦ rw under (record { at = λ s _. capped mgr.max_fees fee under })
      ]

module _ (ch : Chain) (mgr : TxManager ch) (I J : Predicate ch)
    (stage : IsStage ch mgr.max_fees I J) where
  unsent-Triple :
      {A : Type 0} {m : M ch A}
      → Keeps ch I m
      → Triple Unit (On ch I) (λ _. On ch J) (λ _. On ch I) m
  unsent-Triple h =
      Triple-weaken h (λ s p. p)
        (λ e s p. stage.unsent s.world s.pending.final_future s.pending.last_fee p) (λ a s p. p)

  checked_hash-Keeps : (o : Option TxResponse) → Keeps ch J (checked_hash mgr o)
  unfolding checked_hash
  checked_hash-Keeps o = record { at = λ s h. ground arith }

  broadcast_outcome-Post :
      (b : ch.TxBytes) (p : Result Exc (Option TxResponse) × Session ch)
      → Post Unit (λ _. On ch J) (λ _. On ch J) p
      → Post Unit (λ _. On ch J) (λ _. On ch J) (broadcast_outcome mgr b p)
  unfolding broadcast_outcome
  broadcast_outcome-Post b (ok o, s) h = (checked_hash-Keeps o).at s h
  broadcast_outcome-Post b (raise timeout_error, s) h = h
  broadcast_outcome-Post b (raise e, s) h = h
  broadcast_outcome-Post b (stuck, s) h = tt

  broadcast-Triple :
      (b : ch.TxBytes) → Triple Unit (On ch I) (λ _. On ch J) (λ _. On ch J) (broadcast mgr b)
  unfolding broadcast
  broadcast-Triple b = record {
    at = λ s h. broadcast_outcome-Post b (call (ch.broadcast_tx b) s) (
        reply-Post ch J stage.past (ch.broadcast_tx b s.world).0
          (record s { world = (ch.broadcast_tx b s.world).1 })
          (stage.sends b s.world s.pending.final_future s.pending.last_fee h));
  }

  info_or_raise-Keeps : (o : Option AccountInfo) → Keeps ch I (info_or_raise mgr o)
  unfolding info_or_raise
  info_or_raise-Keeps none = Keeps-throw ch I stage.before _
  info_or_raise-Keeps (some i) = Keeps-pure ch I stage.before i

  abbrev SentWithin : Broadcast → Session ch → Type 0
  SentWithin b s = On ch J s × IsWithinCap mgr.max_fees b.fee

  build_and_broadcast-Triple :
      (u : Text) (m : ch.Messages) (g : Option ℕ) (x y : ch.F) (q : Option ℕ)
      → Triple Unit (On ch I) (λ _. On ch J) SentWithin (build_and_broadcast mgr u m g x y q)
  unfolding build_and_broadcast
  build_and_broadcast-Triple u m g x y q =
      let gas = scaled ch (get_or g (estimate_gas mgr u)) y in
      Triple-bind (λ fee s. On ch I s × IsWithinCap mgr.max_fees fee) (fee_first gas)
        (λ fee. record {
          at = λ s h.
              (Triple-bind (λ _. On ch I)
                  (unsent-Triple (call-Keeps ch I stage.before ch.account_info asked_info))
                  (λ found.
                    Triple-bind (λ _. On ch I) (unsent-Triple (info_or_raise-Keeps found))
                      (λ info.
                        Triple-bind (λ _. On ch I)
                          (unsent-Triple (
                            call-Keeps ch I stage.before _
                              (signed m u gas fee _ info.account_number)))
                          (λ tx_bytes.
                            Triple-bind (λ _. On ch J) (broadcast-Triple tx_bytes)
                              (λ hash. Triple-pure _ (λ s' k. (k, h.1))))))).at
                s h.0;
        })
    where
      fee_first :
          (gas : ℕ)
          → Triple Unit
              (On ch I)
              (λ _. On ch J)
              (λ fee s. On ch I s × IsWithinCap mgr.max_fees fee)
              (calculate_optimal_fee mgr gas x)
      fee_first gas =
          Triple-weaken
            (Triple-and (unsent-Triple (calculate_optimal_fee-Keeps ch I stage.before mgr gas x))
              (calculate_optimal_fee-IsWithinCap mgr gas x))
            (λ s h. (h, tt)) (λ e s h. h.0) (λ a s h. h)

  raise_for_status-Keeps : (r : TxResponse) → Keeps ch J (raise_for_status {ch = ch} r)
  unfolding raise_for_status
  raise_for_status-Keeps r = record { at = λ s h. ground arith }

  confirmed-Keeps : (r : TxResponse) → Keeps ch J (do raise_for_status r; set_result r; pure return)
  confirmed-Keeps r =
      Keeps-bind ch J stage.past (raise_for_status-Keeps r)
        (λ _. record { at = λ s h. resolve-On ch J stage.past (done r) s h })

  attempt_body-Triple :
      (a : ℕ) → Triple Unit (On ch I) (λ _. On ch J) (λ _. On ch J) (attempt_body mgr a)
  unfolding attempt_body
  attempt_body-Triple a =
      Triple-bind (λ _. On ch I) (unsent-Triple (pre_flight_checks-Keeps ch I stage.before mgr))
        (λ _. record {
          at = λ s h.
              (Triple-bind SentWithin
                  (build_and_broadcast-Triple s.pending.type_url s.pending.msgs s.current_gas_limit
                    s.fee_multiplier _ s.next_account_seq)
                  (λ b. record {
                    at = λ s' k.
                        (Triple-bind (λ _. On ch J)
                            (wait_for_tx-Keeps ch J stage.past mgr b.tx_hash (some (seconds 30))
                              (some (seconds 2)))
                            (λ r. record { at = λ s'' m. (confirmed-Keeps r).at _ m })).at
                          _
                          (stage.pays s'.world s'.pending.final_future s'.pending.last_fee b.fee k.1
                            k.0);
                  })).at
                (record s { pending = record (s.pending) { attempt = a } }) h;
        })

  -- One attempt, its handler included.
  pub one_attempt-Triple :
      (a t : ℕ) → Triple Unit (On ch I) (λ _. On ch J) (λ _. On ch J) (one_attempt mgr a t)
  unfolding one_attempt
  one_attempt-Triple a t =
      Triple-try (λ _. On ch J) (attempt_body-Triple a)
        (λ e. handle-Keeps ch J stage.past mgr a t e)
