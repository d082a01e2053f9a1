-- ===== src/Subscriber/Guarded.antt =====
-- About src/allora_sdk/rpc_client/client_websocket_events.py: the subscriptions of a subscriber whose
-- calls, frames and rounds of the event loop come in any order.
pub mod Calls
pub mod Frames
pub mod Runs
use allora_sdk_py.Prelude.{
  ℕ, zero, suc, ◌≡◌, refl, sym, subst, Bool, true, false, ◌&&◌, Option, none, some, List, [], ◌∷◌,
  ◌++◌, map, Bool-cases, inl, inr, if◌then◌else◌, arith,
}
use allora_sdk_py.Prelude.Int.{ℤ}
use allora_sdk_py.Tx.Errors.{Text, codes, text_eq}
use allora_sdk_py.Exec.{Exec, Reply, answer, fault, pure, throw, gets, modify, ◌>>◌, ◌>>=◌}
use allora_sdk_py.Exec.Keeps.{Keeps, Keeps-bind, Keeps-then, Keeps-try, Keeps-if, Keeps-same}
use allora_sdk_py.Events.Value.{Value, is_null, get, has_key, iterate}
use allora_sdk_py.Subscriber.Dict.{Dict, lookup, update, remove, map_values, has}
use allora_sdk_py.Subscriber.Query.{
  EventAttributeCondition, EventFilter, to_query, heartbeat_query, block_events_query,
}
use allora_sdk_py.Subscriber.State.{
  Failure, cancelled, timed_out, closed, is_exception, value_error, type_error, failed, Request,
  Host, Setup, Kind, tendermint_query, new_block_events, typed_new_block_events, Subscription,
  Subscriber, W, ask, log_failure, open_socket, is_running, query_of, if_open,
  get_event_type_from_class,
}
use allora_sdk_py.Subscriber.Calls.{
  reconnect_delay, subscription_request, heartbeat_request, start, ensure_started,
  reject_heartbeat_query, choose_id, store, subscribe_query, send_to, send_subscription,
  unsubscribe_from, request_unsubscribe, unsubscribe_id, send_all, send_heartbeat, connect_once,
  after_failure, connect, subscribe_events, subscribe_new_block_events, subscribe_class,
  subscribe_new_block_events_typed, unsubscribe_all, close_socket, stop, set_flags, set_active,
  mark_sent, on_subscriptions,
}
use allora_sdk_py.Subscriber.Conditions.{is_true}
use allora_sdk_py.Subscriber.Messages.{
  demand, take_fresh, gather_calls, execute_callbacks, execute_some, handle_block_events,
  handle_typed_block_events, handle_events, dispatch_if_called, dispatch_to_subscription,
  dispatch_if_active, dispatch_key, dispatch_events,
}
use allora_sdk_py.Subscriber.Frames.{
  set_active_key, confirm, or_no_height, height_or_none, dispatch_found, extract, parsed_height,
  dispatch_parsed, events_of_frame, caller_frame, handle_frame, handle_json, handle_message,
  is_heartbeat_id,
}
use allora_sdk_py.Subscriber.Loop.{
  force_reconnect, ping_if_open, probe, on_timeout, receive, turn_on, sleep_if_running, recover,
  turn, is_silent,
}
use allora_sdk_py.Subscriber.Guard.{
  AllValues, AllValues-insert, AllValues-update, AllValues-remove, AllValues-map_values,
  block_events_query-other,
}

-- a query that is not the heartbeat's, where there is a heartbeat
abbrev pub IsOther : {h : Host} → Setup h → Text → Type 0
IsOther c query = c.heartbeat && text_eq query heartbeat_query ≡ false

abbrev pub IsGuarded : {h : Host} → Setup h → Subscriber h → Type 0
IsGuarded c s = AllValues (λ i. IsOther c i.query) s.subscriptions

module _ (h : Host) (c : Setup h) where
  abbrev pub G : {A : Type 0} → W h A → Type 0
  G m = Keeps (IsGuarded c) m

  pub pure-G : {A : Type 0} (a : A) → G (pure a)
  pure-G a = record { at = λ s p. p }

  pub throw-G : {A : Type 0} (e : Failure) → G (throw {A = A} e)
  throw-G e = record { at = λ s p. p }

  pub ask-G : {A : Type 0} (f : h.World → Reply Failure A × h.World) → G (ask f)
  ask-G f = record { at = λ s p. p }

  -- a change that leaves every query
  pub update-G :
      (id : Text) (f : Subscription h → Subscription h)
      → ((i : Subscription h) → (f i).query ≡ i.query)
      → G (on_subscriptions (update id f))
  update-G id f same = record {
    at = λ s p.
        AllValues-update (λ i. IsOther c i.query) id f s.subscriptions
          (λ i o. subst (IsOther c) (sym (same i)) o) p;
  }

  pub log_failure-G : (e : Failure) → G (log_failure {h = h} e)
  unfolding log_failure
  log_failure-G e = Keeps-if (is_exception e) (pure-G tt) (throw-G e)

  pub start-G : G (start {h = h})
  unfolding start
  start-G = record { at = λ s p. ground arith }

  pub ensure_started-G : G (ensure_started {h = h})
  unfolding ensure_started
  ensure_started-G = record { at = λ s p. (Keeps-if (is_running s) (pure-G tt) start-G).at s p }

  pub choose_id-G : (prefix : Text) (id : Option Text) → G (choose_id {h = h} prefix id)
  unfolding choose_id
  choose_id-G prefix (some (d ∷ t)) = pure-G (d ∷ t)
  choose_id-G prefix (some []) = record { at = λ s p. p }
  choose_id-G prefix none = record { at = λ s p. p }

  pub store-G :
      (id query : Text) (kind : Kind h) (callback : h.Callback)
      → IsOther c query
      → G (store id query kind callback)
  unfolding store
  store-G id query kind callback other = record {
    at = λ s p. AllValues-insert (λ i. IsOther c i.query) id _ s.subscriptions other p;
  }

  pub send_to-G : (r : Request) (o : Option h.Socket) → G (send_to o r)
  unfolding send_to
  send_to-G r none = pure-G tt
  send_to-G r (some socket) = Keeps-try (ask-G (h.send socket r)) log_failure-G

  pub send_subscription-G : (r : Request) → G (send_subscription {h = h} r)
  unfolding send_subscription
  send_subscription-G r = record { at = λ s p. (send_to-G r (open_socket s)).at s p }

  pub gets-G : {A : Type 0} (g : Subscriber h → A) → G (gets g)
  gets-G g = record { at = λ s p. p }
