-- ===== src/Tx/Errors.antt =====
-- src/allora_sdk/rpc_client/tx_manager.py: the exceptions, and how chain responses and simulation
-- errors are classified. A message is the list of its code points. `str.lower` is modelled on
-- ASCII letters: no other character lowers to a letter of the three phrases that are searched for.
pub mod Classes
mod Tests
use Prim.Native.Char.{code}
use Prim.Native.String
use allora_sdk_py.Prelude.{
  ℕ, ◌+◌, Bool, true, false, ◌&&◌, ◌||◌, Option, none, some, List, [], ◌∷◌, map, String, ◌==◌, leb,
  if◌then◌else◌,
}

abbrev pub Text : Type 0
Text = List ℕ

abbrev pub codes : String → Text
codes String.[] = []
codes (String.◌∷◌ c s) = code c ∷ codes s

-- The exception classes of the module, those of the libraries that the code catches, and
-- `cancelled` for `asyncio.CancelledError`, which is a `BaseException` and no `Exception`.
pub data Exc : Type 0 where
  out_of_gas : Option ℕ → Option ℕ → Exc
  sequence_mismatch : Exc
  insufficient_fees : Exc
  insufficient_balance : Exc
  max_fees_exceeded : Exc
  tx_not_found : Exc
  tx_timeout : Exc
  tx_error : Text → ℕ → Text → Option Text → Exc
  timeout_error : Exc
  rpc_error : Option Text → Exc
  other : Text → Exc
  cancelled : Exc

-- The fields of `TxResponse` that the code reads.
pub record TxResponse : Type 0 where
  pub code : ℕ
  pub codespace : Text
  pub raw_log : Text
  pub txhash : Text
  pub gas_wanted : ℕ
  pub gas_used : ℕ

pub data ErrorClass : Type 0 where
  gas sequence fees generic : ErrorClass

-- `str.lower`
unfoldable pub lower : Text → Text
lower = map (λ c. if leb b'A' c && leb c b'Z' then c + 32 else c)

unfoldable pub starts_with : Text → Text → Bool
starts_with [] s = true
starts_with (p ∷ ps) [] = false
starts_with (p ∷ ps) (c ∷ s) = p == c && starts_with ps s

-- `needle in haystack`
unfoldable pub occurs : Text → Text → Bool
unfolding starts_with
occurs p [] = starts_with p []
occurs p (c ∷ s) = starts_with p (c ∷ s) || occurs p s

-- `_classify_error_from_message`
unfoldable pub classify_error_from_message : Text → ErrorClass
unfolding lower occurs
classify_error_from_message error_msg =
    let error_lower = lower error_msg in
    if occurs (codes "out of gas") error_lower
    then gas
    else if occurs (codes "account sequence mismatch") error_lower
    then sequence
    else if occurs (codes "insufficient fees") error_lower
    then fees
    else generic

-- `int(gas_wanted) if gas_wanted else None`
unfoldable pub truthy : ℕ → Option ℕ
truthy n = if n == 0 then none else some n

unfoldable pub classed_response : ErrorClass → TxResponse → Exc
unfolding truthy
classed_response gas resp = out_of_gas (truthy resp.gas_wanted) (truthy resp.gas_used)
classed_response sequence resp = sequence_mismatch
classed_response fees resp = insufficient_fees
classed_response generic resp = tx_error resp.codespace resp.code resp.raw_log (some resp.txhash)

-- `_exception_from_tx_response`; the messages of the classed exceptions are for people, and are
-- left out
unfoldable pub exception_from_tx_response : TxResponse → Option Exc
unfolding classed_response
exception_from_tx_response resp =
    if resp.code == 0
    then none
    else some (classed_response (classify_error_from_message resp.raw_log) resp)

classed_simulation : ErrorClass → Text → ℕ → Exc
classed_simulation gas msg value = out_of_gas none none
classed_simulation sequence msg value = sequence_mismatch
classed_simulation fees msg value = insufficient_fees
classed_simulation generic msg value = tx_error (codes "simulation") value msg none

-- `_exception_from_simulation_error`, on the message and the status value of the gRPC error
unfoldable pub exception_from_simulation_error : Text → ℕ → Exc
unfolding classed_simulation
exception_from_simulation_error msg value =
    classed_simulation (classify_error_from_message msg) msg value

-- `isinstance(err, _RETRYABLE_TX_ERRORS)`
unfoldable pub is_retryable : Exc → Bool
is_retryable (out_of_gas _ _) = true
is_retryable sequence_mismatch = true
is_retryable insufficient_fees = true
is_retryable _ = false

-- `except Exception` catches all but this
unfoldable pub is_fatal : Exc → Bool
is_fatal cancelled = true
is_fatal _ = false

-- `==` on texts
unfoldable pub text_eq : Text → Text → Bool
text_eq [] [] = true
text_eq [] (_ ∷ _) = false
text_eq (_ ∷ _) [] = false
text_eq (a ∷ s) (b ∷ t) = a == b && text_eq s t
