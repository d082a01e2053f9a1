-- ===== src/Subscriber/Calls.antt =====
-- src/allora_sdk/rpc_client/client_websocket_events.py: starting, subscribing, connecting and
-- unsubscribing.
use allora_sdk_py.Prelude.{
  ℕ, zero, suc, Bool, true, false, ◌&&◌, Option, none, some, List, [], ◌∷◌, ◌++◌, map,
  if◌then◌else◌, get_or,
}
use allora_sdk_py.Tx.Errors.{Text, codes, text_eq}
use allora_sdk_py.Exec.{pure, throw, diverge, gets, modify, try_except, ◌>>=◌, ◌>>◌}
use allora_sdk_py.Canonical.Numeral.{show}
use allora_sdk_py.Subscriber.Dict.{Dict, lookup, insert, update, remove, map_values, has}
use allora_sdk_py.Subscriber.Query.{
  EventAttributeCondition, EventFilter, new_blocks, transactions, sender, to_query, heartbeat_query,
  block_events_query,
}
use allora_sdk_py.Subscriber.State.{
  Failure, value_error, is_exception, heartbeat_id, caller_id, subscribe, unsubscribe, Request,
  Host, Setup, Kind, tendermint_query, new_block_events, typed_new_block_events, Subscription, W,
  ask, log_failure, is_running, open_socket, query_of, get_event_type_from_class,
}

abbrev pub subscription_request : Text → Text → Request
subscription_request id query = record { method = subscribe; id = caller_id id; query = query }

abbrev pub heartbeat_request : Request
heartbeat_request = record { method = subscribe; id = heartbeat_id; query = heartbeat_query }

abbrev pub reconnect_delay : ℕ
reconnect_delay = 5

module _ {h : Host} where
  unfoldable pub start : W h (Unit {0})
  unfolding is_running
  start = gets is_running >>= λ r.
      if r
      then pure tt
      else modify (λ s. record s { world = h.start_task s.world; running = true; has_task = true })

  unfoldable pub ensure_started : W h (Unit {0})
  unfolding start is_running
  ensure_started = gets is_running >>= λ r. if r then pure tt else start

  unfoldable pub reject_heartbeat_query : Setup h → Text → W h (Unit {0})
  unfolding text_eq heartbeat_query
  reject_heartbeat_query c query =
      if c.heartbeat && text_eq query heartbeat_query then throw value_error else pure tt

  unfoldable pub set_flags : Bool → Bool → Subscription h → Subscription h
  set_flags active sent i = record i { active = active; sent = sent }

  unfoldable pub set_active : Bool → Subscription h → Subscription h
  set_active active i = record i { active = active }

  unfoldable pub mark_sent : Subscription h → Subscription h
  mark_sent i = record i { sent = true }

  abbrev pub on_subscriptions : (Dict (Subscription h) → Dict (Subscription h)) → W h (Unit {0})
  on_subscriptions f = modify (λ s. record s { subscriptions = f s.subscriptions })

  -- a falsy id is replaced by a counted one
  unfoldable pub choose_id : Text → Option Text → W h Text
  unfolding show
  choose_id prefix (some (c ∷ t)) = pure (c ∷ t)
  choose_id prefix _ =
      modify (λ s. record s { counter = suc s.counter }) >> gets (λ s. prefix ++ show s.counter)

  -- the subscription and its callback, stored
  unfoldable pub store : Text → Text → Kind h → h.Callback → W h (Unit {0})
  unfolding insert lookup
  store id query kind callback =
      on_subscriptions
        (insert id (record { query = query; kind = kind; active = false; sent = false }))
      >> modify (λ s. record s {
        callbacks = insert id (get_or (lookup id s.callbacks) [] ++ callback ∷ []) s.callbacks;
      })

  -- `subscribe`
  unfoldable pub subscribe_query : Setup h → EventFilter → h.Callback → Option Text → W h Text
  unfolding reject_heartbeat_query ensure_started choose_id store to_query
  subscribe_query c event_filter callback subscription_id =
      reject_heartbeat_query c (to_query event_filter)
      >> ensure_started
      >> choose_id (codes "sub_") subscription_id
      >>= λ id. store id (to_query event_filter) tendermint_query callback >> pure id

  unfoldable pub subscribe_to_new_blocks : Setup h → h.Callback → W h Text
  unfolding subscribe_query new_blocks
  subscribe_to_new_blocks c callback = subscribe_query c new_blocks callback none

  unfoldable pub subscribe_to_transactions : Setup h → h.Callback → W h Text
  unfolding subscribe_query transactions
  subscribe_to_transactions c callback = subscribe_query c transactions callback none

  unfoldable pub subscribe_to_address_activity : Setup h → Text → h.Callback → W h Text
  unfolding subscribe_query transactions sender
  subscribe_to_address_activity c address callback =
      subscribe_query c (sender address transactions) callback none

  unfoldable pub send_to : Option h.Socket → Request → W h (Unit {0})
  unfolding log_failure
  send_to none r = pure tt
  send_to (some socket) r = try_except (ask (h.send socket r)) log_failure

  -- `_send_subscription`
  unfoldable pub send_subscription : Request → W h (Unit {0})
  unfolding send_to open_socket
  send_subscription r = gets open_socket >>= λ o. send_to o r

  unfoldable pub unsubscribe_from : Option h.Socket → Option Text → Text → W h (Unit {0})
  unfolding log_failure update set_active
  unsubscribe_from (some socket) (some query) id =
      try_except
        (ask (h.send socket (record { method = unsubscribe; id = caller_id id; query = query }))
          >> on_subscriptions (update id (set_active false)))
        log_failure
  unsubscribe_from _ _ id = pure tt

  -- `_unsubscribe`
  unfoldable pub request_unsubscribe : Text → W h (Unit {0})
  unfolding unsubscribe_from open_socket query_of
  request_unsubscribe id =
      gets open_socket >>= λ o. gets (query_of id) >>= λ q. unsubscribe_from o q id

  -- `unsubscribe`
  unfoldable pub unsubscribe_id : Text → W h (Unit {0})
  unfolding request_unsubscribe remove lookup
  unsubscribe_id id = gets (λ s. has id s.subscriptions) >>= λ known.
      if known
      then request_unsubscribe id
        >> modify (λ s. record s {
          subscriptions = remove id s.subscriptions;
          callbacks = remove id s.callbacks;
        })
      else pure tt

  unfoldable pub send_all : Dict (Subscription h) → W h (Unit {0})
  unfolding send_subscription update mark_sent
  send_all [] = pure tt
  send_all ((id, i) ∷ items) =
      send_subscription (subscription_request id i.query)
      >> on_subscriptions (update id mark_sent)
      >> send_all items

  unfoldable pub send_heartbeat : Setup h → W h (Unit {0})
  unfolding send_subscription heartbeat_query
  send_heartbeat c = if c.heartbeat then send_subscription heartbeat_request else pure tt

  -- the body of `_connect`'s `try`
  unfoldable pub connect_once : Setup h → W h (Unit {0})
  unfolding send_heartbeat send_all set_flags map_values
  connect_once c = ask h.connect >>= λ socket.
      modify (λ s. record s {
        websocket = some socket;
        subscriptions = map_values (set_flags false false) s.subscriptions;
      })
      >> gets (λ s. s.subscriptions)
      >>= λ items. send_heartbeat c >> send_all items

  unfoldable pub after_failure : W h (Unit {0}) → Failure → W h (Unit {0})
  unfolding is_exception
  after_failure again e =
      if is_exception e then ask (h.sleep (h.secs reconnect_delay)) >> again else throw e

  -- `_connect`, for at most `fuel` attempts
  unfoldable pub connect : Setup h → ℕ → W h (Unit {0})
  unfolding connect_once after_failure is_running
  connect c zero = diverge
  connect c (suc fuel) =
      let again : W h (Unit {0}) = connect c fuel in
      gets is_running >>= λ r.
      if r then try_except (connect_once c) (after_failure again) else pure tt

  -- `subscribe_new_block_events` and `subscribe_new_block_events_typed` behind the name of the event;
  -- `_send_subscription` asks again whether the websocket is open
  unfoldable pub subscribe_events :
      Text → List EventAttributeCondition → Kind h → h.Callback → Text → W h Text
  unfolding block_events_query store send_subscription
  subscribe_events event_name conditions kind callback id =
      store id (block_events_query event_name conditions) kind callback
      >> send_subscription (subscription_request id (block_events_query event_name conditions))
      >> pure id

  unfoldable pub subscribe_new_block_events :
      Text → List EventAttributeCondition → h.Callback → Option Text → W h Text
  unfolding ensure_started choose_id subscribe_events
  subscribe_new_block_events event_name conditions callback subscription_id =
      ensure_started
      >> choose_id (codes "block_events_") subscription_id
      >>= subscribe_events event_name conditions (new_block_events event_name conditions) callback

  unfoldable pub subscribe_class :
      h.Class → List EventAttributeCondition → h.Callback → Text → Option Text → W h Text
  unfolding subscribe_events
  subscribe_class cls conditions callback id (some (c ∷ t)) =
      subscribe_events (c ∷ t) conditions (typed_new_block_events (c ∷ t) cls conditions) callback
        id
  subscribe_class cls conditions callback id _ = throw value_error

  unfoldable pub subscribe_new_block_events_typed :
      h.Class → List EventAttributeCondition → h.Callback → Option Text → W h Text
  unfolding ensure_started choose_id subscribe_class get_event_type_from_class
  subscribe_new_block_events_typed cls conditions callback subscription_id =
      ensure_started >> choose_id (codes "typed_block_events_") subscription_id >>= λ id.
      subscribe_class cls conditions callback id (get_event_type_from_class h cls)

  unfoldable pub unsubscribe_all : List Text → W h (Unit {0})
  unfolding request_unsubscribe
  unsubscribe_all [] = pure tt
  unsubscribe_all (id ∷ ids) = request_unsubscribe id >> unsubscribe_all ids

  unfoldable pub close_socket : Option h.Socket → W h (Unit {0})
  close_socket none = pure tt
  close_socket (some socket) = ask (h.close socket) >> modify (λ s. record s { websocket = none })

  -- `stop`; awaiting the cancelled task raises only another exception of it
  unfoldable pub stop : W h (Unit {0})
  unfolding unsubscribe_all close_socket
  stop =
      modify (λ s. record s { running = false })
      >> gets (λ s. s.has_task)
      >>= (λ t. if t then ask h.cancel_task else pure tt)
      >> gets (λ s. map (λ e. e.0) s.subscriptions)
      >>= unsubscribe_all
      >> gets (λ s. s.websocket)
      >>= close_socket
