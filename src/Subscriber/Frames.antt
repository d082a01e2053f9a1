-- ===== src/Subscriber/Frames.antt =====
-- src/allora_sdk/rpc_client/client_websocket_events.py: the frames that a subscriber receives.
use allora_sdk_py.Prelude.{
  Bool, false, ◌&&◌, not, Option, none, some, List, [], ◌∷◌, ◌==◌, if◌then◌else◌,
}
use allora_sdk_py.Prelude.Int.{ℤ, pos}
use allora_sdk_py.Tx.Errors.{Text, codes}
use allora_sdk_py.Exec.{Reply, answer, fault, pure, throw, try_except, ◌>>=◌}
use allora_sdk_py.Events.Value.{
  Value, null, bool, int, float, str, list, dict, no_fields, get, has_key, is_null, values_of,
}
use allora_sdk_py.Subscriber.Dict.{update}
use allora_sdk_py.Subscriber.State.{Failure, value_error, type_error, Host, W, log_failure}
use allora_sdk_py.Subscriber.Calls.{on_subscriptions, set_active}
use allora_sdk_py.Subscriber.Conditions.{is_true}
use allora_sdk_py.Subscriber.Messages.{demand, key_of, dispatch_events}

module _ (h : Host) where
  -- `message_id == 0`
  unfoldable pub is_heartbeat_id : Value h.F h.M → Bool
  is_heartbeat_id (int (pos n)) = n == 0
  is_heartbeat_id (bool b) = not b
  is_heartbeat_id (float x) = h.is_zero_float x
  is_heartbeat_id _ = false

  abbrev empty_dict : Value h.F h.M
  empty_dict = dict no_fields

  -- a confirmation, or a rejection
  unfoldable pub set_active_key : Option Text → Bool → W h (Unit {0})
  unfolding update set_active
  set_active_key none active = pure tt
  set_active_key (some id) active = on_subscriptions (update id (set_active active))

  unfoldable pub confirm : Value h.F h.M → Value h.F h.M → W h (Unit {0})
  unfolding set_active_key key_of has_key
  confirm frame id =
      demand h (key_of h id) >>= λ key. set_active_key key (not (has_key frame (codes "error")))

  -- `int(height_str)`, where it raises one of the two that are caught
  unfoldable pub or_no_height : Reply Failure ℤ → W h (Option ℤ)
  or_no_height (answer n) = pure (some n)
  or_no_height (fault value_error) = pure none
  or_no_height (fault type_error) = pure none
  or_no_height (fault e) = throw e

  unfoldable pub height_or_none : Value h.F h.M → W h (Option ℤ)
  unfolding or_no_height is_true
  height_or_none v = if is_true h v then or_no_height (h.int_of v) else pure none

  -- nothing is dispatched where there are no events
  unfoldable pub dispatch_found : Value h.F h.M → Value h.F h.M → Option ℤ → W h (Unit {0})
  unfolding dispatch_events is_null
  dispatch_found events id height =
      if is_null events then pure tt else dispatch_events h events id height

  -- `data.get("result", {}).get("data")`
  abbrev pub result_data : Value h.F h.M → Value h.F h.M → W h (Value h.F h.M)
  result_data frame default = demand h (get frame (codes "result") empty_dict) >>= λ result.
      demand h (get result (codes "data") default)

  -- without the structured parser
  unfoldable pub extract : Value h.F h.M → Value h.F h.M → W h (Unit {0})
  unfolding height_or_none dispatch_found get
  extract frame id = result_data frame empty_dict >>= λ found.
      demand h (get found (codes "value") empty_dict) >>= λ v.
      demand h (get v (codes "events") null) >>= λ events.
      demand h (get v (codes "height") null) >>= λ t.
      height_or_none t >>= λ height. dispatch_found events id height

  -- the height of a parsed frame, where it is a number
  unfoldable pub parsed_height : Text → Option (Option ℤ)
  parsed_height [] = some none
  parsed_height (c ∷ t) = elim (h.int_of (str (c ∷ t))) [
    | answer n ↦ some (some n)
    | fault e ↦ none
  ]

  unfoldable pub dispatch_parsed :
      Value h.F h.M → Value h.F h.M → List (Value h.F h.M) → Option (Option ℤ) → W h (Unit {0})
  unfolding extract dispatch_found values_of
  dispatch_parsed frame id events none = extract frame id
  dispatch_parsed frame id events (some height) = dispatch_found (list (values_of events)) id height

  unfoldable pub events_of_frame :
      Value h.F h.M → Value h.F h.M → Option (Option (List (Value h.F h.M) × Text)) → W h (Unit {0})
  unfolding extract dispatch_parsed parsed_height
  events_of_frame frame id none = extract frame id
  events_of_frame frame id (some none) = pure tt
  events_of_frame frame id (some (some (events, height))) =
      dispatch_parsed frame id events (parsed_height height)

  -- a frame that is not the heartbeat's
  unfoldable pub caller_frame : Value h.F h.M → Value h.F h.M → W h (Unit {0})
  unfolding confirm events_of_frame get has_key is_null
  caller_frame frame id = result_data frame null >>= λ found.
      if is_null found && has_key frame (codes "id")
      then confirm frame id
      else events_of_frame frame id (h.validate frame)

  unfoldable pub handle_frame : Value h.F h.M → W h (Unit {0})
  unfolding caller_frame is_heartbeat_id get
  handle_frame frame = demand h (get frame (codes "id") null) >>= λ id.
      if is_heartbeat_id id then pure tt else caller_frame frame id

  unfoldable pub handle_json : Option (Value h.F h.M) → W h (Unit {0})
  unfolding handle_frame log_failure
  handle_json none = pure tt
  handle_json (some frame) = try_except (handle_frame frame) log_failure

  -- `_handle_message`
  unfoldable pub handle_message : Text → W h (Unit {0})
  unfolding handle_json
  handle_message t = handle_json (h.loads t)
