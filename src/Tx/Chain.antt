-- ===== src/Tx/Chain.antt =====
-- What the transaction manager calls and does not implement: the node (through the generated gRPC
-- or REST clients), cosmpy's transactions, the clock and asyncio. `World` is all that lies behind
-- these calls; each call takes it and gives the world after it, so any interleaving with the
-- outside is a choice of these functions. A call that raises gives the exception.
-- Times are numbers of microseconds, as in `datetime` and `timedelta`.
use allora_sdk_py.Prelude.{ℕ, ◌+◌, ◌≤◌, ◌≡◌, Bool, Option, List}
use allora_sdk_py.Exec.{Reply, answer, fault}
use allora_sdk_py.Tx.Float.{Float}
use allora_sdk_py.Tx.Errors.{Text, Exc, cancelled, TxResponse}

pub record AccountInfo : Type 0 where
  pub sequence : ℕ
  pub account_number : ℕ

pub record Chain : Type 1 where
  pub float : Float
  pub open float use {F, literal, of_int, times, plus, divide, below, trunc}
  -- Python's `Decimal`, and `float(d)`
  pub decimal : Float
  pub to_float : decimal.F → float.F
  -- `Decimal(text)`
  pub parse_decimal : Text → Reply Exc decimal.F
  -- the microseconds of a float of seconds
  pub micros : float.F → ℕ
  pub Messages : Type 0
  pub TxBytes : Type 0
  -- the same with one unit for the fee and an empty signature: gas limit and sequence
  pub sign_empty : Messages → Text → ℕ → ℕ → TxBytes
  -- `hashlib.sha256(tx_bytes).hexdigest().upper()`
  pub hash_hex : TxBytes → Text
  pub World : Type 0
  -- `Transaction`, sealed, signed by the wallet's signer and serialised: messages, type URL, gas
  -- limit, fee, sequence and account number. A signer may be remote, and raise.
  pub sign : Messages → Text → ℕ → ℕ → ℕ → ℕ → World → Reply Exc TxBytes × World
  pub now : World → ℕ × World
  pub sleep : ℕ → World → Reply Exc (Unit {0}) × World
  -- whether `asyncio.wait_for` cut off a call that led from one world to another
  pub cut_off : ℕ → World → World → Bool
  -- `str` of an exception that a client raised, and the status value of a gRPC error
  pub text_of : Exc → Text
  pub status_of : Exc → ℕ
  pub account : World → Reply Exc (Unit {0}) × World
  pub account_info : World → Reply Exc (Option AccountInfo) × World
  -- `none` stands for a response without a balance
  pub balance : Text → World → Reply Exc (Option ℕ) × World
  -- the `amount` of the price, `none` without a price
  pub gas_price : World → Reply Exc (Option Text) × World
  -- the `window` of the state, `none` without a state
  pub feemarket_state : World → Reply Exc (Option (List ℕ)) × World
  -- the `max_block_utilization` of the params, `none` without params
  pub feemarket_params : World → Reply Exc (Option ℕ) × World
  -- the `gas_used` of the simulation, `none` without one
  pub simulate : TxBytes → World → Reply Exc (Option ℕ) × World
  -- the `tx_response`, `none` without one
  pub broadcast_tx : TxBytes → World → Reply Exc (Option TxResponse) × World
  pub get_tx : Text → World → Reply Exc (Option TxResponse) × World

-- `int(n * x)`
abbrev pub scaled : (ch : Chain) → ℕ → ch.F → ℕ
scaled ch n x = ch.trunc (ch.times (ch.of_int n) x)

-- `asyncio.sleep` raises only where the task was cancelled, and where it returns, it took at least
-- as long as asked. The clock does not go back over a call.
pub record IsTimed (ch : Chain) : Type 0 where
  pub sleep_raises : (d : ℕ) (w : ch.World) (e : Exc) → (ch.sleep d w).0 ≡ fault e → e ≡ cancelled
  pub sleep_lasts :
      (d : ℕ) (w : ch.World)
      → (ch.sleep d w).0 ≡ answer tt
      → (ch.now w).0 + d ≤ (ch.now (ch.sleep d w).1).0
  pub now_monotone : (w : ch.World) → (ch.now w).0 ≤ (ch.now (ch.now w).1).0
  pub get_tx_monotone : (h : Text) (w : ch.World) → (ch.now w).0 ≤ (ch.now (ch.get_tx h w).1).0
