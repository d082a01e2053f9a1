-- ===== src/Tx/Frame/Steps.antt =====
-- About src/allora_sdk/rpc_client/tx_manager.py: the steps of a submission, each with a frame.
use allora_sdk_py.Prelude.{ℕ, zero, suc, Bool, true, false, Option, none, some, [], ◌∷◌}
use allora_sdk_py.Exec.{pure, throw, ◌>>=◌}
use allora_sdk_py.Exec.Post.{Triple-bind, Triple-pure, Triple-throw, Triple-if, Triple-try}
use allora_sdk_py.Tx.Errors.{Text, Exc, TxResponse, exception_from_tx_response, is_fatal}
use allora_sdk_py.Tx.Chain.{Chain}
use allora_sdk_py.Tx.State.{TxManager, M, done, failed}
use allora_sdk_py.Tx.Landed.{
  LandedOutcome, finalized, retry_new_sequence, not_landed, found_or_raise, get_tx_checked,
  get_tx_error, catch, try_confirm_landed, resolve_with, keep_or_resolve, landed_or_not,
  bail_on_hash, bail_if_landed, unless_landed, confirm_landed_with_grace,
}
use allora_sdk_py.Tx.Frame.{Predicate, IsFrame, On, Keeps, call-Keeps, resolve-On, asked_tx, slept}

module _ (ch : Chain) (I : Predicate ch) (frame : IsFrame ch I) where
  pub Keeps-pure : {A : Type 0} (a : A) → Keeps ch I (pure a)
  Keeps-pure a = Triple-pure a (λ s h. h)

  pub Keeps-throw : {A : Type 0} (e : Exc) → Keeps ch I (throw {A = A} e)
  Keeps-throw e = Triple-throw e (λ s h. h)

  pub Keeps-catch :
      {A : Type 0} (h : Exc → M ch A) (e : Exc) → Keeps ch I (h e) → Keeps ch I (catch h e)
  Keeps-catch h e k = Triple-if (is_fatal e) (Keeps-throw e) k

  pub Keeps-bind :
      {A B : Type 0} {m : M ch A} {f : A → M ch B}
      → Keeps ch I m
      → ((a : A) → Keeps ch I (f a))
      → Keeps ch I (m >>= f)
  Keeps-bind h k = Triple-bind (λ _. On ch I) h k

  found_or_raise-Keeps : (o : Option TxResponse) → Keeps ch I (found_or_raise {ch = ch} o)
  unfolding found_or_raise
  found_or_raise-Keeps none = record { at = λ s h. h }
  found_or_raise-Keeps (some r) = record { at = λ s h. h }

  pub get_tx_checked-Keeps : (h : Text) → Keeps ch I (get_tx_checked {ch = ch} h)
  unfolding get_tx_checked
  get_tx_checked-Keeps h =
      Triple-try (λ _. On ch I)
        (Keeps-bind (call-Keeps ch I frame (ch.get_tx h) (asked_tx h)) found_or_raise-Keeps)
        (λ e. Keeps-throw (get_tx_error e))

  try_confirm_landed-Keeps : (h : Text) → Keeps ch I (try_confirm_landed {ch = ch} h)
  unfolding try_confirm_landed
  try_confirm_landed-Keeps h =
      Triple-try (λ _. On ch I) (Keeps-bind (get_tx_checked-Keeps h) (λ r. Keeps-pure (some r)))
        (λ e. Keeps-catch (λ _. pure none) e (Keeps-pure none))

  resolve_with-Keeps : (r : TxResponse) (e : Option Exc) → Keeps ch I (resolve_with {ch = ch} r e)
  unfolding resolve_with
  resolve_with-Keeps r none = record { at = λ s h. resolve-On ch I frame (done r) s h }
  resolve_with-Keeps r (some e) = record { at = λ s h. resolve-On ch I frame (failed e) s h }

  keep_or_resolve-Keeps : (r : TxResponse) (b : Bool) → Keeps ch I (keep_or_resolve {ch = ch} r b)
  unfolding keep_or_resolve
  keep_or_resolve-Keeps r true = record { at = λ s h. h }
  keep_or_resolve-Keeps r false =
      Keeps-bind (resolve_with-Keeps r (exception_from_tx_response r)) (λ _. Keeps-pure finalized)

  landed_or_not-Keeps : (o : Option TxResponse) → Keeps ch I (landed_or_not {ch = ch} o)
  unfolding landed_or_not
  landed_or_not-Keeps none = Keeps-pure not_landed
  landed_or_not-Keeps (some r) = record { at = λ s h. (keep_or_resolve-Keeps r _).at s h }

  bail_on_hash-Keeps : (o : Option Text) → Keeps ch I (bail_on_hash {ch = ch} o)
  unfolding bail_on_hash
  bail_on_hash-Keeps none = Keeps-pure not_landed
  bail_on_hash-Keeps (some []) = Keeps-pure not_landed
  bail_on_hash-Keeps (some (c ∷ h)) =
      Keeps-bind (try_confirm_landed-Keeps (c ∷ h)) landed_or_not-Keeps

  pub bail_if_landed-Keeps : Keeps ch I (bail_if_landed {ch = ch})
  unfolding bail_if_landed
  bail_if_landed-Keeps = record { at = λ s h. (bail_on_hash-Keeps s.pending.last_tx_hash).at _ h }

  unless_landed-Keeps :
      (o : LandedOutcome) (next : M ch LandedOutcome)
      → Keeps ch I next
      → Keeps ch I (unless_landed o next)
  unfolding unless_landed
  unless_landed-Keeps finalized next h = Keeps-pure finalized
  unless_landed-Keeps retry_new_sequence next h = Keeps-pure retry_new_sequence
  unless_landed-Keeps not_landed next h = h

  pub confirm_landed_with_grace-Keeps :
      (mgr : TxManager ch) (n : ℕ) → Keeps ch I (confirm_landed_with_grace mgr n)
  unfolding confirm_landed_with_grace
  confirm_landed_with_grace-Keeps mgr zero = Keeps-pure not_landed
  confirm_landed_with_grace-Keeps mgr (suc n) =
      let later = confirm_landed_with_grace-Keeps mgr n in
      Keeps-bind (call-Keeps ch I frame (ch.sleep mgr.query_interval) (slept mgr.query_interval))
        (λ _.
          Keeps-bind bail_if_landed-Keeps
            (λ o. unless_landed-Keeps o (confirm_landed_with_grace mgr n) later))
