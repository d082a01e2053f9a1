-- ===== src/UseCase.antt =====
-- src/allora_sdk/worker/reputer.py, inferer.py and forecaster.py: what the three use cases share. The
-- chain, the user's functions and the clock are calls on a world, which answer or raise; sending a
-- transaction includes waiting for it.
pub mod Reputer
pub mod Predictor
pub mod Inferer
pub mod Forecaster
pub mod GroundTruth
pub mod Tests
use allora_sdk_py.Prelude.{ℕ, Bool, true, false, ◌||◌, Option, ◌==◌, if◌then◌else◌}
use allora_sdk_py.Tx.Errors.{Text, codes, lower, occurs, TxResponse}
use allora_sdk_py.Exec.{Result, ok, raise, stuck, Reply, Exec, outcome, pure, throw}

-- the fields of `TxError`
pub record TxError : Type 0 where
  pub codespace : Text
  pub code : ℕ
  pub message : Text
  pub tx_hash : Option Text

-- `cancelled` is no `Exception`
pub data UseFailure : Type 0 where
  tx_error : TxError → UseFailure
  failed : UseFailure
  cancelled : UseFailure

-- what `submit` returns: a `WorkerResult`, or an exception as a value
pub data Submission (A : Type 0) : Type 0 where
  worker_result : A → TxResponse → Submission A
  already_submitted : TxError → Submission A
  error_value : UseFailure → Submission A

unfoldable pub is_already_submitted : TxError → Bool
unfolding lower occurs
is_already_submitted e =
    e.code == 68
    || e.code == 75
    || e.code == 78
    || occurs (codes "already submitted") (lower e.message)

-- the two `except` clauses of `submit`
unfoldable pub on_submit_error : {W A : Type 0} → UseFailure → Exec W UseFailure (Submission A)
unfolding is_already_submitted
on_submit_error (tx_error e) =
    pure (if is_already_submitted e then already_submitted e else error_value (tx_error e))
on_submit_error failed = pure (error_value failed)
on_submit_error cancelled = throw cancelled

-- `except Exception as err: return err`
unfoldable pub return_error : {W A : Type 0} → UseFailure → Exec W UseFailure (Submission A)
return_error (tx_error e) = pure (error_value (tx_error e))
return_error failed = pure (error_value failed)
return_error cancelled = throw cancelled

-- `except Exception: log`
unfoldable pub ignore_failure : {W : Type 0} → UseFailure → Exec W UseFailure (Unit {0})
ignore_failure cancelled = throw cancelled
ignore_failure _ = pure tt

-- a step of `submit` whose exception is returned
abbrev pub branch_on :
    {W A B : Type 0}
    → Result UseFailure A × W
    → (A → Exec W UseFailure (Submission B))
    → Result UseFailure (Submission B) × W
branch_on (ok a, w) f = f a w
branch_on (raise e, w) f = return_error e w
branch_on (stuck, w) f = (stuck, w)

abbrev pub or_return :
    {W A B : Type 0}
    → Exec W UseFailure A
    → (A → Exec W UseFailure (Submission B))
    → Exec W UseFailure (Submission B)
or_return m f w = branch_on (m w) f

-- the topic and the nonce that a user's function is called for
pub record RunContext : Type 0 where
  pub run_topic : ℕ
  pub run_nonce : ℕ
