-- ===== src/Tx/Submit/Timeout.antt =====
-- About src/allora_sdk/rpc_client/tx_manager.py: the account sequence after a timed-out attempt.
use allora_sdk_py.Prelude.{
  ℕ, ◌≡◌, refl, Bool, true, false, ◌&&◌, Option, none, some, [], ◌∷◌, ltb, arith,
}
use allora_sdk_py.Exec.{Reply, answer, fault, pure, ◌>>=◌}
use allora_sdk_py.Exec.Post.{Post, Post-after, Triple, Triple-bind}
use allora_sdk_py.Tx.Errors.{Text, Exc, tx_timeout, TxResponse, exception_from_tx_response}
use allora_sdk_py.Tx.Chain.{Chain}
use allora_sdk_py.Tx.State.{TxManager, Session}
use allora_sdk_py.Tx.Landed.{
  consume_landed_gas_seed, LandedOutcome, finalized, retry_new_sequence, not_landed, retryable,
  bail_on_hash, bail_if_landed,
}
use allora_sdk_py.Tx.Submit.{
  keep_seed, Flow, again, must_stop, stop_or, take_fresh_sequence, after_timeout, on_tx_timeout,
}

is_retry : LandedOutcome → Bool
is_retry finalized = false
is_retry retry_new_sequence = true
is_retry not_landed = false

-- the node answers with a transaction that failed retryably
abbrev pub failed_retryably : Reply Exc (Option TxResponse) → Bool
failed_retryably (answer (some resp)) = retryable (exception_from_tx_response resp)
failed_retryably (answer none) = false
failed_retryably (fault e) = false

-- the transaction with this hash landed with a retryable failure, where attempts are left
abbrev pub landed_retryably : (ch : Chain) → Option Text → ch.World → Bool → Bool
landed_retryably ch none w left = false
landed_retryably ch (some []) w left = false
landed_retryably ch (some (c ∷ h)) w left = failed_retryably (ch.get_tx (c ∷ h) w).0 && left

module _ {ch : Chain} where
  abbrev pub has_landed : Session ch → Bool
  has_landed s =
      landed_retryably ch s.pending.last_tx_hash s.world
        (ltb s.pending.attempt s.pending.max_retries)

  abbrev Bailed : Option ℕ → Bool → LandedOutcome → Session ch → Type 0
  Bailed q b o s' = (s'.next_account_seq ≡ q) × (is_retry o ≡ b)

  bail_on_hash-Bailed :
      (h : Option Text) (s : Session ch)
      → Post ⊥
          (λ _ _. Unit)
          (Bailed s.next_account_seq
            (landed_retryably ch h s.world (ltb s.pending.attempt s.pending.max_retries)))
          (bail_on_hash h s)
  unfolding bail_on_hash is_retry
  bail_on_hash-Bailed none s = (refl, refl)
  bail_on_hash-Bailed (some []) s = (refl, refl)
  bail_on_hash-Bailed (some (c ∷ h)) s = ground arith

  bail_if_landed-Bailed :
      (s : Session ch)
      → Post ⊥ (λ _ _. Unit) (Bailed s.next_account_seq (has_landed s)) (bail_if_landed s)
  unfolding bail_if_landed
  bail_if_landed-Bailed s =
      bail_on_hash-Bailed s.pending.last_tx_hash
        (record s { pending = record s.pending { last_landed_error = none } })

  -- the sequence of the next attempt: a fresh one, or the one before, flagged as a re-broadcast
  abbrev pub IsNext : Bool → Option ℕ → Session ch → Type 0
  IsNext true q s = s.next_account_seq ≡ none
  IsNext false q s = (s.next_account_seq ≡ q) × (s.pending.same_seq_rebroadcast ≡ true)

  abbrev pub Retries : Bool → Option ℕ → Flow → Session ch → Type 0
  Retries b q f s = f ≡ again → IsNext b q s

  module _ (mgr : TxManager ch) where
    stop_or-Retries :
        (a t : ℕ) (b : Bool) (q : Option ℕ)
        → Triple ⊥
            (IsNext b q)
            (λ _ _. Unit)
            (Retries b q)
            (must_stop {ch = ch} a t >>= λ stop. stop_or tx_timeout stop (pure again))
    unfolding must_stop stop_or
    stop_or-Retries a t true q = record { at = λ s h. ground arith }
    stop_or-Retries a t false q = record { at = λ s h. ground arith }

    take_fresh_sequence-IsNext :
        (q : Option ℕ)
        → Triple ⊥ (λ _. Unit) (λ _ _. Unit) (λ _. IsNext true q) (take_fresh_sequence {ch = ch})
    unfolding take_fresh_sequence consume_landed_gas_seed keep_seed
    take_fresh_sequence-IsNext q = record { at = λ s h. ground arith }

    after_timeout-Retries :
        (a t : ℕ) (o : LandedOutcome) (s : Session ch)
        → Post ⊥ (λ _ _. Unit) (Retries (is_retry o) s.next_account_seq) (after_timeout mgr a t o s)
    unfolding after_timeout is_retry
    after_timeout-Retries a t finalized s = ground arith
    after_timeout-Retries a t retry_new_sequence s =
        (Triple-bind (λ _. IsNext true s.next_account_seq)
            (take_fresh_sequence-IsNext s.next_account_seq)
            (λ _. stop_or-Retries a t true s.next_account_seq)).at
          s tt
    after_timeout-Retries a t not_landed s =
        (stop_or-Retries a t false s.next_account_seq).at
          (record s { pending = record s.pending { same_seq_rebroadcast = true } }) (refl, refl)

    -- After a timed-out attempt the handler ends, and where it goes on, the next attempt takes a
    -- fresh sequence if the node answers that the last transaction landed with a retryable failure
    -- and attempts are left; in every other case it keeps the sequence of this attempt, and is
    -- flagged as a re-broadcast at the same sequence.
    pub on_tx_timeout-Retries :
        (a t : ℕ) (s : Session ch)
        → Post ⊥ (λ _ _. Unit) (Retries (has_landed s) s.next_account_seq) (on_tx_timeout mgr a t s)
    unfolding on_tx_timeout
    on_tx_timeout-Retries a t s =
        Post-after ⊥ (λ _ _. Unit) (Bailed s.next_account_seq (has_landed s))
          (Retries (has_landed s) s.next_account_seq) (after_timeout mgr a t) (bail_if_landed s)
          (bail_if_landed-Bailed s) (λ o s' h. rw⁻¹ (h.0, h.1) (after_timeout-Retries a t o s'))
