-- ===== src/Subscriber/Guarded/Runs.antt =====
-- About src/allora_sdk/rpc_client/client_websocket_events.py: rounds of the event loop and sequences of
-- calls.
use allora_sdk_py.Prelude.{ℕ, Option, none, some, List, [], ◌∷◌}
use allora_sdk_py.Tx.Errors.{Text}
use allora_sdk_py.Exec.{gets, ◌>>=◌}
use allora_sdk_py.Exec.Keeps.{Keeps-bind, Keeps-then, Keeps-try, Keeps-if}
use allora_sdk_py.Subscriber.Query.{EventAttributeCondition, EventFilter}
use allora_sdk_py.Subscriber.State.{
  Failure, cancelled, timed_out, closed, value_error, type_error, failed, Host, Setup, Subscriber,
  open_socket, is_running, if_open,
}
use allora_sdk_py.Subscriber.Calls.{
  reconnect_delay, subscribe_query, unsubscribe_id, subscribe_new_block_events,
  subscribe_new_block_events_typed, stop,
}
use allora_sdk_py.Subscriber.Frames.{handle_message}
use allora_sdk_py.Subscriber.Loop.{
  drop_socket, force_reconnect, ping_if_open, probe, on_timeout, receive, turn_on, sleep_if_running,
  recover, turn, is_silent,
}
use allora_sdk_py.Subscriber.Guarded.Frames.{handle_message-G}
use allora_sdk_py.Subscriber.Guarded.{G, pure-G, throw-G, ask-G, log_failure-G, IsGuarded}
use allora_sdk_py.Subscriber.Guarded.Calls.{
  subscribe_query-G, unsubscribe_id-G, subscribe_new_block_events-G,
  subscribe_new_block_events_typed-G, stop-G, connect-G,
}

module _ (h : Host) (c : Setup h) where
  drop_socket-G : G h c (drop_socket {h = h})
  drop_socket-G = record { at = λ s p. p }

  force_reconnect-G : (socket : h.Socket) → G h c (force_reconnect socket)
  unfolding force_reconnect
  force_reconnect-G socket =
      Keeps-then (Keeps-try (ask-G h c (h.close socket)) (log_failure-G h c)) drop_socket-G

  ping_if_open-G : (o : Option h.Socket) → G h c (ping_if_open o)
  unfolding ping_if_open
  ping_if_open-G none = pure-G h c tt
  ping_if_open-G (some socket) = ask-G h c (h.ping socket)

  probe-G : (socket : h.Socket) (silent : h.Secs) → G h c (probe c socket silent)
  unfolding probe
  probe-G socket silent = Keeps-if (is_silent c silent) (force_reconnect-G socket) ping
    where
      ping : G h c (gets (λ s. if_open h s.world (some socket)) >>= ping_if_open)
      ping = record { at = λ s p. (ping_if_open-G (if_open h s.world (some socket))).at s p }

  on_timeout-G :
      (socket : h.Socket) (last : h.Secs) (e : Failure) → G h c (on_timeout c socket last e)
  unfolding on_timeout
  on_timeout-G socket last timed_out = record {
    at = λ s p.
        (Keeps-then (probe-G socket (h.minus (h.monotonic s.world).0 last)) (pure-G h c last)).at
          (record s { world = (h.monotonic s.world).1 }) p;
  }
  on_timeout-G socket last cancelled = throw-G h c cancelled
  on_timeout-G socket last closed = throw-G h c closed
  on_timeout-G socket last value_error = throw-G h c value_error
  on_timeout-G socket last type_error = throw-G h c type_error
  on_timeout-G socket last failed = throw-G h c failed

  receive-G : (socket : h.Socket) → G h c (receive c socket)
  unfolding receive
  receive-G socket = Keeps-bind (ask-G h c (h.recv socket c.event_recv_timeout)) (λ m. record {
    at = λ s p.
        (Keeps-then (handle_message-G h c m) (pure-G h c (h.monotonic s.world).0)).at
          (record s { world = (h.monotonic s.world).1 }) p;
  })

  turn_on-G : (fuel : ℕ) (last : h.Secs) (o : Option h.Socket) → G h c (turn_on c fuel last o)
  unfolding turn_on
  turn_on-G fuel last none = Keeps-then (connect-G h c fuel) (record { at = λ s p. p })
  turn_on-G fuel last (some socket) = Keeps-try (receive-G socket) (on_timeout-G socket last)

  sleep_if_running-G : G h c (sleep_if_running {h = h})
  unfolding sleep_if_running
  sleep_if_running-G = record {
    at = λ s p.
        (Keeps-if (is_running s) (ask-G h c (h.sleep (h.secs reconnect_delay))) (pure-G h c tt)).at
          s p;
  }

  recover-G : (last : h.Secs) (e : Failure) → G h c (recover last e)
  unfolding recover
  recover-G last cancelled = throw-G h c cancelled
  recover-G last closed = record {
    at = λ s p. (Keeps-then sleep_if_running-G (pure-G h c last)).at _ p;
  }
  recover-G last timed_out = Keeps-then (ask-G h c (h.sleep (h.secs 1))) (pure-G h c last)
  recover-G last value_error = Keeps-then (ask-G h c (h.sleep (h.secs 1))) (pure-G h c last)
  recover-G last type_error = Keeps-then (ask-G h c (h.sleep (h.secs 1))) (pure-G h c last)
  recover-G last failed = Keeps-then (ask-G h c (h.sleep (h.secs 1))) (pure-G h c last)

  turn-G : (fuel : ℕ) (last : h.Secs) → G h c (turn c fuel last)
  unfolding turn
  turn-G fuel last = Keeps-try run (recover-G last)
    where
      run : G h c (gets open_socket >>= turn_on c fuel last)
      run = record { at = λ s p. (turn_on-G fuel last (open_socket s)).at s p }

-- what is called on a subscriber, by its user or by its task
pub data Call (h : Host) : Type 0 where
  call_subscribe : EventFilter → h.Callback → Option Text → Call h
  call_unsubscribe : Text → Call h
  call_new_block_events : Text → List EventAttributeCondition → h.Callback → Option Text → Call h
  call_typed : h.Class → List EventAttributeCondition → h.Callback → Option Text → Call h
  call_stop : Call h
  receive_frame : Text → Call h
  take_turn : ℕ → h.Secs → Call h

-- the subscriber behind a call, whether it returned or raised
unfoldable pub behind : {h : Host} → Setup h → Call h → Subscriber h → Subscriber h
behind c (call_subscribe f callback id) s = (subscribe_query c f callback id s).1
behind c (call_unsubscribe id) s = (unsubscribe_id id s).1
behind c (call_new_block_events name conditions callback id) s =
    (subscribe_new_block_events name conditions callback id s).1
behind c (call_typed cls conditions callback id) s =
    (subscribe_new_block_events_typed cls conditions callback id s).1
behind c call_stop s = (stop s).1
behind {h} c (receive_frame t) s = (handle_message h t s).1
behind c (take_turn fuel last) s = (turn c fuel last s).1

unfoldable pub behind_all : {h : Host} → Setup h → List (Call h) → Subscriber h → Subscriber h
unfolding behind
behind_all c [] s = s
behind_all c (k ∷ ks) s = behind_all c ks (behind c k s)

behind-IsGuarded :
    {h : Host} (c : Setup h) (k : Call h) (s : Subscriber h)
    → IsGuarded c s
    → IsGuarded c (behind c k s)
unfolding behind
behind-IsGuarded {h} c (call_subscribe f callback id) s p =
    (subscribe_query-G h c f callback id).at s p
behind-IsGuarded {h} c (call_unsubscribe id) s p = (unsubscribe_id-G h c id).at s p
behind-IsGuarded {h} c (call_new_block_events name conditions callback id) s p =
    (subscribe_new_block_events-G h c name conditions callback id).at s p
behind-IsGuarded {h} c (call_typed cls conditions callback id) s p =
    (subscribe_new_block_events_typed-G h c cls conditions callback id).at s p
behind-IsGuarded {h} c call_stop s p = (stop-G h c).at s p
behind-IsGuarded {h} c (receive_frame t) s p = (handle_message-G h c t).at s p
behind-IsGuarded {h} c (take_turn fuel last) s p = (turn-G h c fuel last).at s p

-- Let no subscription have the heartbeat's query, where there is a heartbeat. Then none has it
-- after any sequence of calls, frames and rounds of the event loop, whether they return, raise or
-- run out of fuel.
pub behind_all-IsGuarded :
    {h : Host} (c : Setup h) (ks : List (Call h)) (s : Subscriber h)
    → IsGuarded c s
    → IsGuarded c (behind_all c ks s)
unfolding behind_all
behind_all-IsGuarded c [] s p = p
behind_all-IsGuarded c (k ∷ ks) s p =
    behind_all-IsGuarded c ks (behind c k s) (behind-IsGuarded c k s p)
