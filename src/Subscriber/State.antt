-- ===== src/Subscriber/State.antt =====
-- src/allora_sdk/rpc_client/client_websocket_events.py: what a subscriber calls, and its state. The
-- websocket library, the JSON and pydantic parsers, the event registry and the callbacks are a
-- `Host`. Another task may stop the subscriber while it waits; `is_stopped` of the world tells so.
-- Its locks are free whenever a call takes them, since calls run one after the other.
use allora_sdk_py.Prelude.{
  ℕ, Bool, true, false, ◌&&◌, not, Option, none, some, List, [], ◌∷◌, if◌then◌else◌,
}
use allora_sdk_py.Prelude.Int.{ℤ}
use allora_sdk_py.Tx.Errors.{Text, text_eq}
use allora_sdk_py.Exec.{Reply, Exec, outcome, pure, throw}
use allora_sdk_py.Events.Value.{Value}
use allora_sdk_py.Subscriber.Dict.{Dict, lookup}
use allora_sdk_py.Subscriber.Query.{EventAttributeCondition}

-- `cancelled` is no `Exception`; `closed` is `ConnectionClosed`
pub data Failure : Type 0 where
  cancelled timed_out closed value_error type_error failed : Failure

-- `except Exception`
unfoldable pub is_exception : Failure → Bool
is_exception cancelled = false
is_exception _ = true

-- the JSON-RPC id of a request: 0, or the id of a subscription
pub data RequestId : Type 0 where
  heartbeat_id : RequestId
  caller_id : Text → RequestId

pub data Method : Type 0 where
  subscribe unsubscribe : Method

pub record Request : Type 0 where
  pub method : Method
  pub id : RequestId
  pub query : Text

-- a type that a condition's value is coerced to
pub data FieldType : Type 0 where
  int_type float_type bool_type str_type other_type : FieldType
  list_of : FieldType → FieldType

pub record Host : Type 1 where
  pub World : Type 0
  pub Socket : Type 0
  pub Callback : Type 0
  -- floats, betterproto2 messages and their classes
  pub F : Type 0
  pub M : Type 0
  pub Class : Type 0
  -- seconds: a difference, a sum, `<=`, and whole ones
  pub Secs : Type 0
  pub secs : ℕ → Secs
  pub minus : Secs → Secs → Secs
  pub at_most : Secs → Secs → Bool
  -- the websocket: `close_code` as a truth value; `recv` under `wait_for`
  pub connect : World → Reply Failure Socket × World
  pub is_closed : Socket → World → Bool
  pub send : Socket → Request → World → Reply Failure (Unit {0}) × World
  pub recv : Socket → Secs → World → Reply Failure Text × World
  pub ping : Socket → World → Reply Failure (Unit {0}) × World
  pub close : Socket → World → Reply Failure (Unit {0}) × World
  -- `asyncio.sleep`, `time.monotonic`, `time.time`, `create_task` on the event loop
  pub sleep : Secs → World → Reply Failure (Unit {0}) × World
  pub monotonic : World → Secs × World
  pub time : World → Secs × World
  pub start_task : World → World
  pub cancel_task : World → Reply Failure (Unit {0}) × World
  pub is_stopped : World → Bool
  -- the callbacks on their events, at once, with their exceptions as results
  pub gather : List (Callback × Value F M) → Option ℤ → World → Reply Failure (Unit {0}) × World
  -- `json.loads`, where it parses; `JSONRPCResponse.model_validate`: `none` where it raises, and
  -- `some none` where the result holds no block events
  pub loads : Text → Option (Value F M)
  pub validate : Value F M → Option (Option (List (Value F M) × Text))
  -- `int(...)`, `str(...)`, `json.dumps` with sorted keys or `str`
  pub int_of : Value F M → Reply Failure ℤ
  pub str_of : Value F M → Text
  pub event_key : Value F M → Text
  -- `text.isdigit()`
  pub is_digit_text : Text → Bool
  -- `bool(x)` and `x == 0` on floats, `float(n)` where it is in range, and `float(text)` where it
  -- parses
  pub is_zero_float : F → Bool
  pub float_of_int : ℤ → Option F
  pub float_of_text : Text → Option F
  -- `==`, `<` and `<=`, `none` where they raise
  pub equal : Value F M → Value F M → Bool
  pub less : Value F M → Value F M → Option Bool
  pub less_equal : Value F M → Value F M → Option Bool
  -- the registry of event classes, `==` on classes, `__name__`, and the marshaler of events
  pub event_map : Dict Class
  pub same_class : Class → Class → Bool
  pub class_name : Class → Text
  pub field_type : Class → Text → Option FieldType
  pub marshal_event : Value F M → Option (Option M)
  pub field_of : M → Text → Value F M

-- `EventRegistry.get_event_class`
unfoldable pub get_event_class : (h : Host) → Text → Option h.Class
unfolding lookup
get_event_class h event_type = lookup event_type h.event_map

-- the first event type whose class passes the test
unfoldable pub first_type : {A : Type 0} → (A → Bool) → Dict A → Option Text
first_type p [] = none
first_type p ((t, cls) ∷ d) = let rest = first_type p d in if p cls then some t else rest

-- `_get_event_type_from_class`: the class itself, or one of its name
unfoldable pub get_event_type_from_class : (h : Host) → h.Class → Option Text
unfolding first_type text_eq
get_event_type_from_class h cls =
    let named : Option Text =
      first_type (λ c. text_eq (h.class_name c) (h.class_name cls)) h.event_map in
    elim (first_type (λ c. h.same_class c cls) h.event_map) [ none ↦ named | some t ↦ some t ]

pub record Setup (h : Host) : Type 0 where
  pub event_recv_timeout : h.Secs
  pub max_event_silence : Option h.Secs
  pub heartbeat : Bool

-- `subscription_type` with what it needs
pub data Kind (h : Host) : Type 0 where
  tendermint_query : Kind h
  new_block_events : Text → List EventAttributeCondition → Kind h
  typed_new_block_events : Text → h.Class → List EventAttributeCondition → Kind h

pub record Subscription (h : Host) : Type 0 where
  pub query : Text
  pub kind : Kind h
  pub active : Bool
  pub sent : Bool

pub record Subscriber (h : Host) : Type 0 where
  pub world : h.World
  pub websocket : Option h.Socket
  pub subscriptions : Dict (Subscription h)
  pub callbacks : Dict (List h.Callback)
  pub running : Bool
  pub has_task : Bool
  pub counter : ℕ
  pub recent_event_keys : Dict (Dict h.Secs)

abbrev pub W : Host → Type 0 → Type 0
W h = Exec (Subscriber h) Failure

unfoldable pub if_open : (h : Host) → h.World → Option h.Socket → Option h.Socket
if_open h w none = none
if_open h w (some socket) = if h.is_closed socket w then none else some socket

-- the watchdog's limit: `some none` where `None` or 0 turns it off; `none` is the `ValueError`
unfoldable pub silence_limit : (h : Host) → h.Secs → Option h.Secs → Option (Option h.Secs)
silence_limit h timeout none = some none
silence_limit h timeout (some m) =
    if h.at_most m (h.secs 0) && h.at_most (h.secs 0) m
    then some none
    else if h.at_most m timeout
    then none
    else some (some m)

unfoldable pub with_limit : (h : Host) → h.Secs → Bool → Option (Option h.Secs) → Option (Setup h)
with_limit h timeout heartbeat none = none
with_limit h timeout heartbeat (some m) =
    some (record { event_recv_timeout = timeout; max_event_silence = m; heartbeat = heartbeat })

module _ {h : Host} where
  -- `__init__`; `none` is its `ValueError`
  unfoldable pub configure : h.Secs → Option h.Secs → Bool → Option (Setup h)
  unfolding silence_limit with_limit
  configure timeout silence heartbeat =
      if h.at_most timeout (h.secs 0)
      then none
      else with_limit h timeout heartbeat (silence_limit h timeout silence)

  abbrev pub ask : {A : Type 0} → (h.World → Reply Failure A × h.World) → W h A
  ask f s = let (r, w) = f s.world in (outcome r, record s { world = w })

  -- a call that always answers
  abbrev pub read : {A : Type 0} → (h.World → A × h.World) → W h A
  read f s = let (a, w) = f s.world in pure a (record s { world = w })

  -- `except Exception: log`
  unfoldable pub log_failure : Failure → W h (Unit {0})
  unfolding is_exception
  log_failure e = if is_exception e then pure tt else throw e

  -- `self.running`
  unfoldable pub is_running : Subscriber h → Bool
  is_running s = s.running && not (h.is_stopped s.world)

  -- the websocket, where it is there and has no close code
  unfoldable pub open_socket : Subscriber h → Option h.Socket
  unfolding if_open
  open_socket s = if_open h s.world s.websocket

  unfoldable pub query_of : Text → Subscriber h → Option Text
  unfolding lookup
  query_of id s = elim (lookup id s.subscriptions) [ none ↦ none | some i ↦ some i.query ]
