-- ===== src/Subscriber/Messages.antt =====
-- src/allora_sdk/rpc_client/client_websocket_events.py: what a subscriber does with a frame: heartbeats,
-- confirmations and rejections, and events that go to the callbacks of one subscription.
use allora_sdk_py.Prelude.{
  ℕ, suc, Bool, false, Option, none, some, List, [], ◌∷◌, ◌++◌, map, if◌then◌else◌, get_or,
}
use allora_sdk_py.Prelude.Int.{ℤ, pos, negsuc}
use allora_sdk_py.Tx.Errors.{Text, codes, text_eq}
use allora_sdk_py.Exec.{pure, throw, gets, ◌>>=◌}
use allora_sdk_py.Canonical.Numeral.{show}
use allora_sdk_py.Events.Value.{Value, null, str, list, dict, message, get, iterate}
use allora_sdk_py.Subscriber.Dict.{Dict, lookup, insert, has}
use allora_sdk_py.Subscriber.Query.{EventAttributeCondition}
use allora_sdk_py.Subscriber.State.{
  failed, Host, Kind, tendermint_query, new_block_events, typed_new_block_events, Subscription, W,
  ask, read,
}
use allora_sdk_py.Subscriber.Conditions.{and_then, is_true, matches_untyped, matches_typed}

abbrev pub dedupe_ttl_seconds : ℕ
dedupe_ttl_seconds = 60

-- `f"{block_height}:…"`
unfoldable pub height_text : Option ℤ → Text
unfolding show
height_text none = codes "None"
height_text (some (pos n)) = show n
height_text (some (negsuc n)) = b'-' ∷ show (suc n)

module _ (h : Host) where
  -- a step that raises where it has no value
  abbrev pub demand : {A : Type 0} → Option A → W h A
  demand none = throw failed
  demand (some a) = pure a

  -- the entries whose timestamp is not before the cutoff
  unfoldable pub prune_recent : h.Secs → Dict h.Secs → Dict h.Secs
  prune_recent cutoff [] = []
  prune_recent cutoff ((k, t) ∷ d) =
      let rest = prune_recent cutoff d in if h.at_most cutoff t then (k, t) ∷ rest else rest

  abbrev pub recent_key : Option ℤ → Value h.F h.M → Text
  recent_key height e = height_text height ++ b':' ∷ h.event_key e

  -- the events whose key is not among the recent ones, and the recent ones with theirs
  unfoldable pub fresh :
      h.Secs → Option ℤ → List (Value h.F h.M) → Dict h.Secs → List (Value h.F h.M) × Dict h.Secs
  unfolding lookup insert height_text
  fresh now height [] recent = ([], recent)
  fresh now height (e ∷ es) recent =
      let key = recent_key height e in
      let (others, seen) = fresh now height es recent in
      let (unique, kept) = fresh now height es (insert key now recent) in
      if has key recent then (others, seen) else (e ∷ unique, kept)

  unfoldable pub calls : List h.Callback → List (Value h.F h.M) → List (h.Callback × Value h.F h.M)
  calls [] es = []
  calls (c ∷ cs) es = map (λ e. (c, e)) es ++ calls cs es

  unfoldable pub gather_calls : List (h.Callback × Value h.F h.M) → Option ℤ → W h (Unit {0})
  gather_calls [] height = pure tt
  gather_calls (t ∷ ts) height = ask (h.gather (t ∷ ts) height)

  -- the new events of a subscription, which then count as recent
  unfoldable pub take_fresh :
      Text → h.Secs → Option ℤ → List (Value h.F h.M) → W h (List (Value h.F h.M))
  unfolding fresh prune_recent insert lookup
  take_fresh id now height events s =
      let old =
        prune_recent (h.minus now (h.secs dedupe_ttl_seconds))
          (get_or (lookup id s.recent_event_keys) []) in
      let (unique, kept) = fresh now height events old in
      pure unique (record s { recent_event_keys = insert id kept s.recent_event_keys })

  -- `_execute_callbacks`
  unfoldable pub execute_callbacks :
      List h.Callback → List (Value h.F h.M) → Option ℤ → Text → W h (Unit {0})
  unfolding take_fresh calls gather_calls
  execute_callbacks callbacks events height id = read h.time >>= λ now.
      take_fresh id now height events >>= λ unique. gather_calls (calls callbacks unique) height

  -- `==` of a value and a text
  unfoldable pub is_text : Text → Value h.F h.M → Bool
  unfolding text_eq
  is_text t (str u) = text_eq u t
  is_text t _ = false

  -- the events of one type
  unfoldable pub of_type : Text → List (Value h.F h.M) → Option (List (Value h.F h.M))
  unfolding get is_text
  of_type name [] = some []
  of_type name (e ∷ es) =
      let rest = of_type name es in
      and_then (get e (codes "type") null)
        (λ t. and_then rest (λ kept. some (if is_text name t then e ∷ kept else kept)))

  unfoldable pub filter_untyped :
      Text → List EventAttributeCondition → List (Value h.F h.M) → Option (List (Value h.F h.M))
  unfolding matches_untyped
  filter_untyped name conditions [] = some []
  filter_untyped name conditions (e ∷ es) =
      let rest = filter_untyped name conditions es in
      and_then (matches_untyped h name conditions e)
        (λ ok. and_then rest (λ kept. some (if ok then e ∷ kept else kept)))

  -- no condition: no event is looked at
  unfoldable pub filter_events :
      Text → List EventAttributeCondition → List (Value h.F h.M) → Option (List (Value h.F h.M))
  unfolding filter_untyped
  filter_events name [] es = some es
  filter_events name (c ∷ cs) es = filter_untyped name (c ∷ cs) es

  -- nothing is executed for no event
  unfoldable pub execute_some :
      List h.Callback → List (Value h.F h.M) → Option ℤ → Text → W h (Unit {0})
  unfolding execute_callbacks
  execute_some callbacks [] height id = pure tt
  execute_some callbacks (e ∷ es) height id = execute_callbacks callbacks (e ∷ es) height id

  -- `_handle_block_events`
  unfoldable pub handle_block_events :
      Text
      → Text
      → List EventAttributeCondition
      → List h.Callback
      → List (Value h.F h.M)
      → Option ℤ
      → W h (Unit {0})
  unfolding of_type filter_events execute_some
  handle_block_events id [] conditions callbacks event_data height = pure tt
  handle_block_events id (c ∷ name) conditions callbacks event_data height =
      demand (of_type (c ∷ name) event_data) >>= λ events.
      demand (filter_events (c ∷ name) conditions events) >>= λ matching.
      execute_some callbacks matching height id

  -- `marshal_event` of each event, where it gives a message
  unfoldable pub marshal_events : List (Value h.F h.M) → Option (List h.M)
  marshal_events [] = some []
  marshal_events (e ∷ es) =
      let rest = marshal_events es in
      and_then (h.marshal_event e)
        (λ m. and_then rest (λ ms. some (elim m [ none ↦ ms | some x ↦ x ∷ ms ])))

  unfoldable pub filter_typed :
      h.Class → List EventAttributeCondition → List h.M → Option (List h.M)
  unfolding matches_typed
  filter_typed cls conditions [] = some []
  filter_typed cls conditions (m ∷ ms) =
      let rest = filter_typed cls conditions ms in
      and_then (matches_typed h cls conditions m)
        (λ ok. and_then rest (λ kept. some (if ok then m ∷ kept else kept)))

  -- `_handle_typed_block_events`
  unfoldable pub handle_typed_block_events :
      Text
      → Text
      → h.Class
      → List EventAttributeCondition
      → List h.Callback
      → List (Value h.F h.M)
      → Option ℤ
      → W h (Unit {0})
  unfolding of_type marshal_events filter_typed execute_some
  handle_typed_block_events id [] cls conditions callbacks event_data height = pure tt
  handle_typed_block_events id (c ∷ name) cls conditions callbacks event_data height =
      demand (of_type (c ∷ name) event_data) >>= λ events.
      demand (marshal_events events) >>= λ messages.
      demand (filter_typed cls conditions messages) >>= λ matching.
      execute_some callbacks (map message matching) height id

  unfoldable pub handle_events :
      Text → Kind h → List h.Callback → List (Value h.F h.M) → Option ℤ → W h (Unit {0})
  unfolding handle_block_events handle_typed_block_events execute_callbacks
  handle_events id tendermint_query callbacks event_data height =
      execute_callbacks callbacks event_data height id
  handle_events id (new_block_events name conditions) callbacks event_data height =
      handle_block_events id name conditions callbacks event_data height
  handle_events id (typed_new_block_events name cls conditions) callbacks event_data height =
      handle_typed_block_events id name cls conditions callbacks event_data height

  unfoldable pub dispatch_if_called :
      Text → Kind h → List h.Callback → Value h.F h.M → Option ℤ → W h (Unit {0})
  unfolding handle_events iterate
  dispatch_if_called id kind [] event_data height = pure tt
  dispatch_if_called id kind (c ∷ cs) event_data height =
      demand (iterate event_data) >>= λ events. handle_events id kind (c ∷ cs) events height

  -- `_dispatch_to_subscription`
  unfoldable pub dispatch_to_subscription :
      Text → Subscription h → Value h.F h.M → Option ℤ → W h (Unit {0})
  unfolding dispatch_if_called is_true lookup
  dispatch_to_subscription id i event_data height =
      gets (λ s. get_or (lookup id s.callbacks) []) >>= λ callbacks.
      if is_true h event_data
      then dispatch_if_called id i.kind callbacks event_data height
      else pure tt

  unfoldable pub dispatch_if_active :
      Text → Option (Subscription h) → Value h.F h.M → Option ℤ → W h (Unit {0})
  unfolding dispatch_to_subscription
  dispatch_if_active id none event_data height = pure tt
  dispatch_if_active id (some i) event_data height =
      if i.active then dispatch_to_subscription id i event_data height else pure tt

  -- the id of a frame as a key of `subscriptions`: no other value than a text is one, and a list or a
  -- dict cannot be looked up
  unfoldable pub key_of : Value h.F h.M → Option (Option Text)
  key_of (str t) = some (some t)
  key_of (list _) = none
  key_of (dict _) = none
  key_of _ = some none

  unfoldable pub dispatch_key : Option Text → Value h.F h.M → Option ℤ → W h (Unit {0})
  unfolding dispatch_if_active lookup
  dispatch_key none event_data height = pure tt
  dispatch_key (some id) event_data height =
      gets (λ s. lookup id s.subscriptions) >>= λ i. dispatch_if_active id i event_data height

  -- `_dispatch_events`
  unfoldable pub dispatch_events : Value h.F h.M → Value h.F h.M → Option ℤ → W h (Unit {0})
  unfolding dispatch_key key_of is_true
  dispatch_events event_data target height =
      if is_true h target
      then demand (key_of target) >>= (λ id. dispatch_key id event_data height)
      else pure tt
