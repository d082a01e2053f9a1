-- ===== src/Tx/Frame/Runs.antt =====
-- About src/allora_sdk/rpc_client/tx_manager.py: the whole run of `_attempt_submissions`, from the
-- frames of its attempts.
use allora_sdk_py.Prelude.{ℕ, zero, suc, ◌+◌, ◌≤◌, ◌≡◌, Option, none, some, arith}
use allora_sdk_py.Exec.{Result, ok, raise, stuck}
use allora_sdk_py.Exec.Post.{Post, Triple, Triple-bind, Triple-weaken}
use allora_sdk_py.Tx.Errors.{Exc, tx_timeout}
use allora_sdk_py.Tx.Chain.{Chain, IsTimed}
use allora_sdk_py.Tx.State.{TxManager, Session, M, Outcome, failed}
use allora_sdk_py.Tx.Submit.{Flow, return, again, go_on, attempts, attempt_submissions}
use allora_sdk_py.Tx.Submit.Outcomes.{IsResolved, Cancelled}
use allora_sdk_py.Tx.Submit.Resolved.{attempt_submissions-resolves}
use allora_sdk_py.Tx.Frame.{Predicate, IsFrame, Query, On, resolve-On, asked_now}
use allora_sdk_py.Tx.Frame.Attempt.{IsStage, IsWithinCap, one_attempt-Triple}

-- `I k` holds where at most `k` more attempts may follow.
module _ (ch : Chain) (mgr : TxManager ch) (I : ℕ → Predicate ch)
    (stage : (k : ℕ) → IsStage ch mgr.max_fees (I (suc k)) (I k)) where
  to_zero : (k : ℕ) (w : ch.World) (f : Option Outcome) (l : Option ℕ) → I k w f l → I 0 w f l
  to_zero zero w f l h = h
  to_zero (suc k) w f l h = to_zero k w f l ((stage k).unsent w f l h)

  abbrev Spent : Session ch → Type 0
  Spent = On ch (I 0)

  go_on-Triple :
      (k : ℕ) (f : Flow) (next : M ch (Unit {0}))
      → Triple Unit (On ch (I k)) (λ _. Spent) (λ _. Spent) next
      → Triple Unit (On ch (I k)) (λ _. Spent) (λ _. Spent) (go_on mgr f next)
  unfolding go_on
  go_on-Triple k return next h = record {
    at = λ s p. to_zero k s.world s.pending.final_future s.pending.last_fee p;
  }
  go_on-Triple k again next h = h

  attempts-Triple :
      (k a t : ℕ) → Triple Unit (On ch (I k)) (λ _. Spent) (λ _. Spent) (attempts mgr k a t)
  unfolding attempts
  attempts-Triple zero a t = record {
    at = λ s h. resolve-On ch (I 0) (stage 0).past (failed tx_timeout) s h;
  }
  attempts-Triple (suc k) a t =
      let rest = attempts-Triple k (suc a) t in
      Triple-bind (λ _. On ch (I k))
        (Triple-weaken (one_attempt-Triple ch mgr (I (suc k)) (I k) (stage k) a t) (λ s p. p)
          (λ e s p. to_zero k s.world s.pending.final_future s.pending.last_fee p) (λ f s p. p))
        (λ f. go_on-Triple k f (attempts mgr k (suc a) t) rest)

  ended :
      {A : Type 0} (P Q : Session ch → Type 0) (r : Result Exc A × Session ch)
      → Post ⊥ Cancelled (λ _. Q) r
      → Post Unit (λ _. P) (λ _. P) r
      → P r.1
  ended P Q (ok a, s) h k = k
  ended P Q (raise e, s) h k = k
  ended P Q (stuck, s) h k = absurd h

  run :
      (s : Session ch)
      → On ch (I (suc s.pending.max_retries)) s
      → Post Unit (λ _. Spent) (λ _. Spent) (attempt_submissions mgr s)
  unfolding attempt_submissions
  run s h =
      let r = s.pending.max_retries in
      (attempts-Triple (suc r) 0 (ch.now s.world).0).at _ (
        (stage r).before.query s.world (ch.now s.world).1 s.pending.final_future s.pending.last_fee
          (asked_now s.world) h)

  pub attempt_submissions-On :
      IsTimed ch
      → (s : Session ch) → On ch (I (suc s.pending.max_retries)) s
      → On ch (I 0) (attempt_submissions mgr s).1
  attempt_submissions-On timed s h =
      ended Spent IsResolved (attempt_submissions mgr s) (attempt_submissions-resolves timed mgr s)
        (run s h)

-- a last fee, if any, is within the cap, if any
abbrev pub IsCapped : Option ℕ → Option ℕ → Type 0
IsCapped cap none = Unit
IsCapped cap (some fee) = IsWithinCap cap fee

module _ (ch : Chain) (timed : IsTimed ch) (mgr : TxManager ch) where
  -- Let the clock and the sleep behave, and let a count on the world be left by every call that
  -- only asks or signs and raised by one by a broadcast. Then a submission broadcasts at most
  -- `max_retries + 1` transactions.
  pub sent-attempt_submissions :
      (sent : ch.World → ℕ)
      → ((w w' : ch.World) → Query ch w w' → sent w' ≡ sent w)
      → ((b : ch.TxBytes) (w : ch.World) → sent (ch.broadcast_tx b w).1 ≡ sent w + 1)
      → (s : Session ch)
      → sent (attempt_submissions mgr s).1.world ≤ sent s.world + s.pending.max_retries + 1
  sent-attempt_submissions sent quiet adds s =
      omega (arith, attempt_submissions-On ch mgr budget stage timed s (omega arith))
    where
      bound : ℕ
      bound = sent s.world + s.pending.max_retries + 1

      budget : ℕ → Predicate ch
      budget k w f l = sent w + k ≤ bound

      budget-IsFrame : (k : ℕ) → IsFrame ch (budget k)
      budget-IsFrame k = record {
        query = λ w w' f l q h. omega (arith, quiet w w' q);
        resolves = λ w o l h. h;
      }

      stage : (k : ℕ) → IsStage ch mgr.max_fees (budget (suc k)) (budget k)
      stage k = record {
        before = budget-IsFrame (suc k);
        past = budget-IsFrame k;
        unsent = λ w f l h. omega arith;
        sends = λ b w f l h. omega (arith, adds b w);
        pays = λ w f l fee c h. h;
      }

  -- If the clock and the sleep behave and the last fee before is within `max_fees`, where both are
  -- set, then so is the last fee after a submission, whatever gas and fee multipliers its retries
  -- used.
  pub last_fee-attempt_submissions :
      (s : Session ch)
      → IsCapped mgr.max_fees s.pending.last_fee
      → IsCapped mgr.max_fees (attempt_submissions mgr s).1.pending.last_fee
  last_fee-attempt_submissions s h =
      attempt_submissions-On ch mgr (λ k w f l. IsCapped mgr.max_fees l) (λ k. stage) timed s h
    where
      kept : IsFrame ch (λ w f l. IsCapped mgr.max_fees l)
      kept = record { query = λ w w' f l q h. h; resolves = λ w o l h. h }

      stage :
          IsStage ch mgr.max_fees
            (λ w f l. IsCapped mgr.max_fees l)
            (λ w f l. IsCapped mgr.max_fees l)
      stage = record {
        before = kept;
        past = kept;
        unsent = λ w f l h. h;
        sends = λ b w f l h. h;
        pays = λ w f l fee c h. c;
      }

  -- If the clock and the sleep behave, a future that is done before, such as one that `close`
  -- cancelled, has the same outcome after the submission.
  pub final_future-attempt_submissions :
      (s : Session ch) (o : Outcome)
      → s.pending.final_future ≡ some o
      → (attempt_submissions mgr s).1.pending.final_future ≡ some o
  final_future-attempt_submissions s o h =
      attempt_submissions-On ch mgr (λ k w f l. f ≡ some o) (λ k. stage) timed s h
    where
      kept : IsFrame ch (λ w f l. f ≡ some o)
      kept = record { query = λ w w' f l q h. h; resolves = λ w x l h. cc }

      stage : IsStage ch mgr.max_fees (λ w f l. f ≡ some o) (λ w f l. f ≡ some o)
      stage = record {
        before = kept;
        past = kept;
        unsent = λ w f l h. h;
        sends = λ b w f l h. h;
        pays = λ w f l fee c h. h;
      }
