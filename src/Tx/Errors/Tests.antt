-- ===== src/Tx/Errors/Tests.antt =====
-- Messages as a node writes them: the classification theorems at concrete inputs.
use allora_sdk_py.Prelude.{◌≡◌, ◌↔◌, true, some, arith}
use allora_sdk_py.Tx.Errors.{
  codes, Exc, TxResponse, exception_from_tx_response, exception_from_simulation_error, is_retryable,
}
use allora_sdk_py.Tx.Errors.Classes.{IsTransient, exception_from_tx_response-IsTransient}

abbrev exhausted : TxResponse
exhausted = record {
  code = 11;
  codespace = codes "sdk";
  raw_log = codes "at WriteFlat: Out Of Gas: 5";
  txhash = codes "AB";
  gas_wanted = 300000;
  gas_used = 0;
}

exception_from_tx_response-IsTransient_example :
    ((err : Exc) × (exception_from_tx_response exhausted ≡ some err)
      × ((is_retryable err ≡ true) ↔ IsTransient exhausted.raw_log))
    × ((is_retryable (exception_from_simulation_error exhausted.raw_log 1) ≡ true)
        ↔ IsTransient exhausted.raw_log)
exception_from_tx_response-IsTransient_example =
    exception_from_tx_response-IsTransient exhausted 1 (λ e. ground arith)
