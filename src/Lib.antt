-- ===== src/Lib.antt =====
-- Verification of the Allora Python SDK: how it submits transactions, the worker that runs on it,
-- and the subscriber to the chain's events.
--
-- Parts, and how they interact. A worker (src/allora_sdk/worker/worker.py) polls for open nonces
-- and is told of them by events; a cycle chooses nonces, calls the use case for each with its
-- account sequence, and remembers what it submitted in a TimestampOrderedSet
-- (src/allora_sdk/utils/timestamp_ordered_set.py). A use case submits by the transaction manager
-- (src/allora_sdk/rpc_client/tx_manager.py), which simulates, prices, signs, broadcasts and
-- confirms in a task of its own, and retries. When rewards are settled,
-- src/allora_sdk/worker/autostake.py delegates them.
--
-- Prelude: names that all modules share. Exec: Python's coroutines as functions from a state to a
-- result and a state; an exception keeps what was written before it. Exec/Post: what holds after
-- an action; Exec/Keeps: what it keeps, however it ends.
--
-- OrderedSet: TimestampOrderedSet, its entries as a list, oldest first; each method has its name.
--
-- Tx: the transaction manager. Tx/Chain is the node, the clock and the signer, as a record of
-- calls on a world that answer or raise; Tx/Float is the float arithmetic. Tx/State has the fields
-- of TxManager and PendingTx, and in Session the local variables of `_attempt_submissions`.
-- Tx/Errors classifies messages, Tx/Fees prices, Tx/Broadcast is `_build_and_broadcast`,
-- `wait_for_tx` and `_pre_flight_checks`, Tx/Landed the checks whether an earlier transaction
-- landed, Tx/Submit is `_attempt_submissions`, one function for each handler, Tx/Simulate is
-- `simulate_transaction`, Tx/Manager is `submit_transaction` and `close`; what other code does
-- while `close` waits for the cancelled tasks is a list that `close` takes, and whether the wait
-- returns or is cut off is a parameter.
--
-- Worker: Worker/Host is what a worker calls and its state, Worker/Nonces the choice of nonces,
-- Worker/Cycle is `_maybe_submit_impl` and its callers, Worker/Faucet is `_maybe_faucet_request`,
-- Worker/Polling is `_derive_polling_interval`, Worker/Startup is `_ensure_initialized` with the
-- startup steps, their retry task and `_cleanup`; its calls run one after the other.
--
-- Autostake: Autostake/Text is `normalize_actor_type`, Autostake/Key the amounts and keys,
-- Autostake/Handler is `validate_autostake_config` and `process_autostake_rewards_settled`.
--
-- Canonical: src/allora_sdk/rpc_client/dec_canonical.py, `canonicalize_dec` on a decimal as its
-- sign, digits and exponent; Canonical/Numeral and Canonical/Reader are a reader of decimal
-- notation that the formats are held against.
--
-- Subscriber: src/allora_sdk/rpc_client/client_websocket_events.py. Subscriber/Query is
-- EventFilter and EventAttributeCondition, Subscriber/State what AlloraWebsocketSubscriber calls
-- and its fields, Subscriber/Calls its methods that start, subscribe, connect and stop,
-- Subscriber/Frames is `_handle_message`, Subscriber/Messages the dispatch to callbacks,
-- Subscriber/Conditions the conditions on attributes, Subscriber/Loop is `_event_loop`.
-- Events/Value has the Python values of a frame. `connect` and `event_loop` recurse on a number of
-- attempts and rounds, since their loops may run for ever; a first attempt that the node accepts
-- ends `connect`. Calls of a subscriber run one after the other, and its locks are free; a stop by
-- another task is read in the world.
--
-- UseCase: src/allora_sdk/worker/reputer.py, inferer.py, forecaster.py and utils.py.
-- UseCase/Reputer is the class Reputer, UseCase/Predictor what an inferer and a forecaster share,
-- UseCase/Inferer and UseCase/Forecaster are their `submit`, UseCase/GroundTruth is
-- `make_reputer_function`. Losses and predictions are signed as texts by Canonical, and rewards
-- are staked by Autostake. Sending a transaction and waiting for it is one call.
--
-- Time is counted in microseconds in Tx. The polls of `wait_for_tx` recurse on the number of poll
-- periods that fit its timeout and two more: a sleep that returns lasts at least as long as asked,
-- so the time is up before. A simulation recurses on the gas limits up to its maximum: each round
-- raises the limit. The attempts, the faucet and the grace period count down what their loops
-- count up. The polling loop of a worker runs for ever; its model runs for a number of rounds.
--
-- Other tasks act between the calls of a task; what they change is read in the world:
-- cancellation, the queue, the expired hold. Heights, amounts and sequences are natural numbers,
-- as their wire types are; a reward and a fee reserve are integers.
--
-- Not modelled: logging, which changes nothing; `run` and its tasks of a worker, the context of a
-- worker, the parsing of event attributes into messages, the HTTP client, the loss methods,
-- configuration and wallets.
pub mod Prelude
pub mod Exec
pub mod OrderedSet
pub mod Tx
pub mod Worker
pub mod Autostake
pub mod Canonical
pub mod Events
pub mod Subscriber
pub mod UseCase
