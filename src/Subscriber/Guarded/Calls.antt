-- ===== src/Subscriber/Guarded/Calls.antt =====
-- About src/allora_sdk/rpc_client/client_websocket_events.py: what the calls of a subscriber do to its
-- subscriptions.
use allora_sdk_py.Prelude.{
  ℕ, zero, suc, refl, Bool, false, ◌&&◌, Option, none, some, List, [], ◌∷◌, map, Bool-cases, inl,
  inr, if◌then◌else◌, arith,
}
use allora_sdk_py.Tx.Errors.{Text, codes, text_eq}
use allora_sdk_py.Exec.{pure, modify, ◌>>◌}
use allora_sdk_py.Exec.Keeps.{Keeps-bind, Keeps-then, Keeps-try, Keeps-if}
use allora_sdk_py.Subscriber.Dict.{Dict, remove, map_values, has}
use allora_sdk_py.Subscriber.Query.{
  EventAttributeCondition, EventFilter, to_query, heartbeat_query, block_events_query,
}
use allora_sdk_py.Subscriber.State.{
  Failure, is_exception, value_error, Host, Setup, Kind, tendermint_query, new_block_events,
  typed_new_block_events, Subscription, W, ask, open_socket, is_running, query_of,
  get_event_type_from_class,
}
use allora_sdk_py.Subscriber.Calls.{
  reconnect_delay, subscription_request, heartbeat_request, reject_heartbeat_query, subscribe_query,
  unsubscribe_from, request_unsubscribe, unsubscribe_id, send_all, send_heartbeat, connect_once,
  after_failure, connect, subscribe_events, subscribe_new_block_events, subscribe_class,
  subscribe_new_block_events_typed, unsubscribe_all, close_socket, stop, set_flags, set_active,
  mark_sent,
}
use allora_sdk_py.Subscriber.Guard.{
  AllValues-remove, AllValues-map_values, block_events_query-other,
}
use allora_sdk_py.Subscriber.Guarded.{
  IsOther, G, pure-G, throw-G, ask-G, update-G, log_failure-G, ensure_started-G, choose_id-G,
  store-G, send_subscription-G, gets-G,
}

module _ (h : Host) (c : Setup h) where
  pub subscribe_query-G :
      (f : EventFilter) (callback : h.Callback) (id : Option Text)
      → G h c (subscribe_query c f callback id)
  unfolding subscribe_query reject_heartbeat_query
  subscribe_query-G f callback id =
      elim (Bool-cases (c.heartbeat && text_eq (to_query f) heartbeat_query)) [
        | inl same ↦ rw same (record { at = λ s p. p })
        | inr other ↦ rw other (record {
          at = λ s p.
              (Keeps-bind (Keeps-then (ensure_started-G h c) ((choose_id-G h c) (codes "sub_") id))
                  (λ i.
                    Keeps-then ((store-G h c) i (to_query f) tendermint_query callback other)
                      ((pure-G h c) i))).at
                s p;
        })
      ]

  unsubscribe_from-G :
      (o : Option h.Socket) (q : Option Text) (id : Text) → G h c (unsubscribe_from o q id)
  unfolding unsubscribe_from set_active
  unsubscribe_from-G none q id = (pure-G h c) tt
  unsubscribe_from-G (some socket) none id = (pure-G h c) tt
  unsubscribe_from-G (some socket) (some q) id =
      Keeps-try
        (Keeps-then ((ask-G h c) (h.send socket _))
          ((update-G h c) id (set_active false) (λ i. refl)))
        (log_failure-G h c)

  request_unsubscribe-G : (id : Text) → G h c (request_unsubscribe {h = h} id)
  unfolding request_unsubscribe
  request_unsubscribe-G id = record {
    at = λ s p. (unsubscribe_from-G (open_socket s) (query_of id s) id).at s p;
  }

  pub unsubscribe_id-G : (id : Text) → G h c (unsubscribe_id {h = h} id)
  unfolding unsubscribe_id
  unsubscribe_id-G id = record {
    at = λ s p. (Keeps-if (has id s.subscriptions) known ((pure-G h c) tt)).at s p;
  }
    where
      known : G h c (
          request_unsubscribe {h = h} id
          >> modify (λ s. record s {
            subscriptions = remove id s.subscriptions;
            callbacks = remove id s.callbacks;
          }))
      known =
          Keeps-then (request_unsubscribe-G id)
            (record { at = λ s p. AllValues-remove (λ i. IsOther c i.query) id s.subscriptions p })

  send_all-G : (items : Dict (Subscription h)) → G h c (send_all items)
  unfolding send_all mark_sent
  send_all-G [] = (pure-G h c) tt
  send_all-G ((id, i) ∷ items) =
      Keeps-then
        (Keeps-then ((send_subscription-G h c) (subscription_request id i.query))
          ((update-G h c) id mark_sent (λ i. refl)))
        (send_all-G items)

  send_heartbeat-G : G h c (send_heartbeat c)
  unfolding send_heartbeat
  send_heartbeat-G =
      Keeps-if c.heartbeat ((send_subscription-G h c) heartbeat_request) ((pure-G h c) tt)

  connect_once-G : G h c (connect_once c)
  unfolding connect_once set_flags
  connect_once-G = Keeps-bind ((ask-G h c) h.connect) (λ socket. record {
    at = λ s p.
        (Keeps-then send_heartbeat-G
            (send_all-G (map_values (set_flags false false) s.subscriptions))).at
          _
          (AllValues-map_values (λ i. IsOther c i.query) (set_flags false false) s.subscriptions
            (λ i o. o) p);
  })

  after_failure-G :
      {again : W h (Unit {0})} → G h c again → (e : Failure) → G h c (after_failure again e)
  unfolding after_failure
  after_failure-G again e =
      Keeps-if (is_exception e) (Keeps-then ((ask-G h c) (h.sleep (h.secs reconnect_delay))) again)
        ((throw-G h c) e)

  pub connect-G : (fuel : ℕ) → G h c (connect c fuel)
  unfolding connect
  connect-G zero = record { at = λ s p. p }
  connect-G (suc fuel) = record {
    at = λ s p.
        (Keeps-if (is_running s) (Keeps-try connect_once-G (after_failure-G (connect-G fuel)))
            ((pure-G h c) tt)).at
          s p;
  }

  subscribe_events-G :
      (name : Text) (conditions : List EventAttributeCondition) (kind : Kind h)
      (callback : h.Callback) (id : Text)
      → G h c (subscribe_events name conditions kind callback id)
  unfolding subscribe_events
  subscribe_events-G name conditions kind callback id =
      Keeps-then
        (Keeps-then ((store-G h c) id (block_events_query name conditions) kind callback other) (
          (send_subscription-G h c) (subscription_request id (block_events_query name conditions))))
        ((pure-G h c) id)
    where
      other : IsOther c (block_events_query name conditions)
      other = ground (arith, block_events_query-other name conditions)

  pub subscribe_new_block_events-G :
      (name : Text) (conditions : List EventAttributeCondition) (callback : h.Callback)
      (id : Option Text)
      → G h c (subscribe_new_block_events name conditions callback id)
  unfolding subscribe_new_block_events
  subscribe_new_block_events-G name conditions callback id =
      Keeps-bind (Keeps-then (ensure_started-G h c) ((choose_id-G h c) (codes "block_events_") id))
        (subscribe_events-G name conditions (new_block_events name conditions) callback)

  subscribe_class-G :
      (cls : h.Class) (conditions : List EventAttributeCondition) (callback : h.Callback)
      (id : Text) (name : Option Text)
      → G h c (subscribe_class cls conditions callback id name)
  unfolding subscribe_class
  subscribe_class-G cls conditions callback id none = (throw-G h c) value_error
  subscribe_class-G cls conditions callback id (some []) = (throw-G h c) value_error
  subscribe_class-G cls conditions callback id (some (d ∷ t)) =
      subscribe_events-G (d ∷ t) conditions (typed_new_block_events (d ∷ t) cls conditions) callback
        id

  pub subscribe_new_block_events_typed-G :
      (cls : h.Class) (conditions : List EventAttributeCondition) (callback : h.Callback)
      (id : Option Text)
      → G h c (subscribe_new_block_events_typed cls conditions callback id)
  unfolding subscribe_new_block_events_typed
  subscribe_new_block_events_typed-G cls conditions callback id =
      Keeps-bind
        (Keeps-then (ensure_started-G h c) ((choose_id-G h c) (codes "typed_block_events_") id))
        (λ i. subscribe_class-G cls conditions callback i (get_event_type_from_class h cls))

  unsubscribe_all-G : (ids : List Text) → G h c (unsubscribe_all {h = h} ids)
  unfolding unsubscribe_all
  unsubscribe_all-G [] = (pure-G h c) tt
  unsubscribe_all-G (id ∷ ids) = Keeps-then (request_unsubscribe-G id) (unsubscribe_all-G ids)

  close_socket-G : (o : Option h.Socket) → G h c (close_socket o)
  unfolding close_socket
  close_socket-G none = (pure-G h c) tt
  close_socket-G (some socket) =
      Keeps-then ((ask-G h c) (h.close socket)) (record { at = λ s p. p })

  cancel_if-G : (t : Bool) → G h c (if t then ask h.cancel_task else pure tt)
  cancel_if-G t = Keeps-if t ((ask-G h c) h.cancel_task) ((pure-G h c) tt)

  pub stop-G : G h c (stop {h = h})
  unfolding stop
  stop-G = record {
    at = λ s p.
        (Keeps-bind
            (Keeps-then
              (Keeps-bind
                (Keeps-then (cancel_if-G s.has_task)
                  ((gets-G h c) (λ s. map (λ e. e.0) s.subscriptions)))
                unsubscribe_all-G)
              ((gets-G h c) (λ s. s.websocket)))
            close_socket-G).at
          (record s { running = false }) p;
  }
