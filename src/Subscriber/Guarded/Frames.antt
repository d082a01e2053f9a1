-- ===== src/Subscriber/Guarded/Frames.antt =====
-- About src/allora_sdk/rpc_client/client_websocket_events.py: what frames and rounds of the event loop
-- do to the subscriptions.
use allora_sdk_py.Prelude.{refl, Bool, ◌&&◌, Option, none, some, List, [], ◌∷◌, map, get_or, not}
use allora_sdk_py.Prelude.Int.{ℤ}
use allora_sdk_py.Tx.Errors.{Text, codes}
use allora_sdk_py.Exec.{Reply, answer, fault}
use allora_sdk_py.Exec.Keeps.{Keeps-bind, Keeps-try, Keeps-if}
use allora_sdk_py.Events.Value.{
  Value, null, dict, list, message, no_fields, values_of, is_null, get, has_key, iterate,
}
use allora_sdk_py.Subscriber.Dict.{lookup}
use allora_sdk_py.Subscriber.State.{
  Failure, cancelled, timed_out, closed, value_error, type_error, failed, Host, Setup, Kind,
  tendermint_query, new_block_events, typed_new_block_events, Subscription,
}
use allora_sdk_py.Subscriber.Calls.{set_active}
use allora_sdk_py.Subscriber.Conditions.{is_true}
use allora_sdk_py.Subscriber.Messages.{
  demand, calls, of_type, filter_events, marshal_events, filter_typed, key_of, take_fresh,
  gather_calls, execute_callbacks, execute_some, handle_block_events, handle_typed_block_events,
  handle_events, dispatch_if_called, dispatch_to_subscription, dispatch_if_active, dispatch_key,
  dispatch_events,
}
use allora_sdk_py.Subscriber.Frames.{
  result_data, set_active_key, confirm, or_no_height, height_or_none, dispatch_found, extract,
  parsed_height, dispatch_parsed, events_of_frame, caller_frame, handle_frame, handle_json,
  handle_message, is_heartbeat_id,
}
use allora_sdk_py.Subscriber.Guarded.{G, pure-G, throw-G, ask-G, update-G, log_failure-G}

module _ (h : Host) (c : Setup h) where
  demand-G : {A : Type 0} (o : Option A) → G h c (demand h o)
  demand-G none = throw-G h c failed
  demand-G (some a) = pure-G h c a

  gather_calls-G :
      (ts : List (h.Callback × Value h.F h.M)) (height : Option ℤ)
      → G h c (gather_calls h ts height)
  unfolding gather_calls
  gather_calls-G [] height = pure-G h c tt
  gather_calls-G (t ∷ ts) height = ask-G h c (h.gather (t ∷ ts) height)

  take_fresh-G :
      (id : Text) (now : h.Secs) (height : Option ℤ) (events : List (Value h.F h.M))
      → G h c (take_fresh h id now height events)
  unfolding take_fresh
  take_fresh-G id now height events = record { at = λ s p. p }

  execute_callbacks-G :
      (callbacks : List h.Callback) (events : List (Value h.F h.M)) (height : Option ℤ) (id : Text)
      → G h c (execute_callbacks h callbacks events height id)
  unfolding execute_callbacks
  execute_callbacks-G callbacks events height id = record {
    at = λ s p.
        (Keeps-bind (take_fresh-G id (h.time s.world).0 height events)
            (λ unique. gather_calls-G (calls h callbacks unique) height)).at
          (record s { world = (h.time s.world).1 }) p;
  }

  execute_some-G :
      (callbacks : List h.Callback) (events : List (Value h.F h.M)) (height : Option ℤ) (id : Text)
      → G h c (execute_some h callbacks events height id)
  unfolding execute_some
  execute_some-G callbacks [] height id = pure-G h c tt
  execute_some-G callbacks (e ∷ es) height id = execute_callbacks-G callbacks (e ∷ es) height id

  handle_events-G :
      (id : Text) (kind : Kind h) (callbacks : List h.Callback) (events : List (Value h.F h.M))
      (height : Option ℤ)
      → G h c (handle_events h id kind callbacks events height)
  unfolding handle_events handle_block_events handle_typed_block_events
  handle_events-G id tendermint_query callbacks events height =
      execute_callbacks-G callbacks events height id
  handle_events-G id (new_block_events [] conditions) callbacks events height = pure-G h c tt
  handle_events-G id (new_block_events (d ∷ name) conditions) callbacks events height =
      Keeps-bind (demand-G (of_type h (d ∷ name) events)) (λ es.
        Keeps-bind (demand-G (filter_events h (d ∷ name) conditions es))
          (λ ms. execute_some-G callbacks ms height id))
  handle_events-G id (typed_new_block_events [] cls conditions) callbacks events height =
      pure-G h c tt
  handle_events-G id (typed_new_block_events (d ∷ name) cls conditions) callbacks events height =
      Keeps-bind (demand-G (of_type h (d ∷ name) events)) (λ es.
        Keeps-bind (demand-G (marshal_events h es)) (λ ms.
          Keeps-bind (demand-G (filter_typed h cls conditions ms))
            (λ kept. execute_some-G callbacks (map message kept) height id)))

  dispatch_if_called-G :
      (id : Text) (kind : Kind h) (callbacks : List h.Callback) (v : Value h.F h.M)
      (height : Option ℤ)
      → G h c (dispatch_if_called h id kind callbacks v height)
  unfolding dispatch_if_called
  dispatch_if_called-G id kind [] v height = pure-G h c tt
  dispatch_if_called-G id kind (d ∷ ds) v height =
      Keeps-bind (demand-G (iterate v)) (λ es. handle_events-G id kind (d ∷ ds) es height)

  dispatch_if_active-G :
      (id : Text) (o : Option (Subscription h)) (v : Value h.F h.M) (height : Option ℤ)
      → G h c (dispatch_if_active h id o v height)
  unfolding dispatch_if_active dispatch_to_subscription
  dispatch_if_active-G id none v height = pure-G h c tt
  dispatch_if_active-G id (some i) v height = Keeps-if i.active called (pure-G h c tt)
    where
      called : G h c (dispatch_to_subscription h id i v height)
      called = record {
        at = λ s p.
            (Keeps-if (is_true h v)
                (dispatch_if_called-G id i.kind (get_or (lookup id s.callbacks) []) v height)
                (pure-G h c tt)).at
              s p;
      }

  dispatch_key-G :
      (o : Option Text) (v : Value h.F h.M) (height : Option ℤ) → G h c (dispatch_key h o v height)
  unfolding dispatch_key
  dispatch_key-G none v height = pure-G h c tt
  dispatch_key-G (some id) v height = record {
    at = λ s p. (dispatch_if_active-G id (lookup id s.subscriptions) v height).at s p;
  }

  dispatch_found-G :
      (v id : Value h.F h.M) (height : Option ℤ) → G h c (dispatch_found h v id height)
  unfolding dispatch_found dispatch_events
  dispatch_found-G v id height = Keeps-if (is_null v) (pure-G h c tt) (
      Keeps-if (is_true h id) (Keeps-bind (demand-G (key_of h id)) (λ k. dispatch_key-G k v height))
        (pure-G h c tt))

  or_no_height-G : (r : Reply Failure ℤ) → G h c (or_no_height h r)
  unfolding or_no_height
  or_no_height-G (answer n) = pure-G h c (some n)
  or_no_height-G (fault value_error) = pure-G h c none
  or_no_height-G (fault type_error) = pure-G h c none
  or_no_height-G (fault cancelled) = throw-G h c cancelled
  or_no_height-G (fault timed_out) = throw-G h c timed_out
  or_no_height-G (fault closed) = throw-G h c closed
  or_no_height-G (fault failed) = throw-G h c failed

  result_data-G : (frame d : Value h.F h.M) → G h c (result_data h frame d)
  result_data-G frame d =
      Keeps-bind (demand-G (get frame (codes "result") (dict no_fields)))
        (λ r. demand-G (get r (codes "data") d))

  extract-G : (frame id : Value h.F h.M) → G h c (extract h frame id)
  unfolding extract height_or_none
  extract-G frame id = Keeps-bind (result_data-G frame (dict no_fields)) (λ found.
      Keeps-bind (demand-G (get found (codes "value") (dict no_fields))) (λ v.
        Keeps-bind (demand-G (get v (codes "events") null)) (λ events.
          Keeps-bind (demand-G (get v (codes "height") null)) (λ t.
            Keeps-bind (Keeps-if (is_true h t) (or_no_height-G (h.int_of t)) (pure-G h c none))
              (λ n. dispatch_found-G events id n)))))

  dispatch_parsed-G :
      (frame id : Value h.F h.M) (events : List (Value h.F h.M)) (o : Option (Option ℤ))
      → G h c (dispatch_parsed h frame id events o)
  unfolding dispatch_parsed
  dispatch_parsed-G frame id events none = extract-G frame id
  dispatch_parsed-G frame id events (some n) = dispatch_found-G (list (values_of events)) id n

  events_of_frame-G :
      (frame id : Value h.F h.M) (o : Option (Option (List (Value h.F h.M) × Text)))
      → G h c (events_of_frame h frame id o)
  unfolding events_of_frame
  events_of_frame-G frame id none = extract-G frame id
  events_of_frame-G frame id (some none) = pure-G h c tt
  events_of_frame-G frame id (some (some (events, n))) =
      dispatch_parsed-G frame id events (parsed_height h n)

  set_active_key-G : (o : Option Text) (b : Bool) → G h c (set_active_key h o b)
  unfolding set_active_key set_active
  set_active_key-G none b = pure-G h c tt
  set_active_key-G (some id) b = update-G h c id (set_active b) (λ i. refl)

  handle_frame-G : (frame : Value h.F h.M) → G h c (handle_frame h frame)
  unfolding handle_frame caller_frame confirm
  handle_frame-G frame = Keeps-bind (demand-G (get frame (codes "id") null)) (λ id.
      Keeps-if (is_heartbeat_id h id) (pure-G h c tt) (
        Keeps-bind (result_data-G frame null) (λ found.
          Keeps-if (is_null found && has_key frame (codes "id"))
            (Keeps-bind (demand-G (key_of h id))
              (λ k. set_active_key-G k (not (has_key frame (codes "error")))))
            (events_of_frame-G frame id (h.validate frame)))))

  handle_json-G : (o : Option (Value h.F h.M)) → G h c (handle_json h o)
  unfolding handle_json
  handle_json-G none = pure-G h c tt
  handle_json-G (some frame) = Keeps-try (handle_frame-G frame) (log_failure-G h c)

  pub handle_message-G : (t : Text) → G h c (handle_message h t)
  unfolding handle_message
  handle_message-G t = handle_json-G (h.loads t)
