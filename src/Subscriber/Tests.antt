-- ===== src/Subscriber/Tests.antt =====
-- client_websocket_events.py at concrete inputs: a node that accepts every connection, logs what it is
-- sent, sends nothing, and whose clock runs 100 seconds in each receive.
use allora_sdk_py.Prelude.{
  ℕ, ◌+◌, ◌-◌, ◌≡◌, refl, true, false, none, some, List, [], ◌∷◌, ◌++◌, arith, leb,
}
use allora_sdk_py.Prelude.Int.{pos}
use allora_sdk_py.Tx.Errors.{Text, codes, text_eq}
use allora_sdk_py.Exec.{answer, fault, ok, ◌>>=◌}
use allora_sdk_py.Exec.Post.{Post}
use allora_sdk_py.Events.Value.{Value, null, str, dict, field, no_fields, get, has_key, find_field}
use allora_sdk_py.Subscriber.Dict.{lookup, insert}
use allora_sdk_py.Subscriber.Query.{new_block_headers}
use allora_sdk_py.Subscriber.State.{
  timed_out, Request, Host, Setup, tendermint_query, Subscriber, open_socket, if_open, is_running,
  configure, silence_limit, with_limit,
}
use allora_sdk_py.Subscriber.Calls.{connect}
use allora_sdk_py.Subscriber.Messages.{
  take_fresh, fresh, prune_recent, height_text, dispatch_events,
}
use allora_sdk_py.Subscriber.Frames.{handle_message}
use allora_sdk_py.Subscriber.Loop.{turn, is_silent}
use allora_sdk_py.Subscriber.Resend.{IsLogged, Has, resent, connect-Sends}
use allora_sdk_py.Subscriber.Watchdog.{IsSilentRound, watchdog-resends, dropped}
use allora_sdk_py.Subscriber.Guarded.{IsGuarded}
use allora_sdk_py.Subscriber.Guarded.Runs.{
  Call, call_subscribe, call_new_block_events, take_turn, behind_all, behind_all-IsGuarded,
}
use allora_sdk_py.Subscriber.Delivery.{
  AllRecent, recent_of, IsReply, take_fresh-again, dispatch_events-rejected,
}
use allora_sdk_py.Subscriber.Silence.{configure-is_silent}

abbrev rejection : Value ℕ ℕ
rejection = dict (field (codes "id") (str (codes "sub_1")) (field (codes "error") null no_fields))

abbrev text_of : Value ℕ ℕ → Text
text_of (str t) = t
text_of v = []

abbrev node : Host
node = record {
  World = ℕ × List Request;
  Socket = ℕ;
  Callback = ℕ;
  F = ℕ;
  M = ℕ;
  Class = ℕ;
  Secs = ℕ;
  secs = λ n. n;
  minus = λ a b. a - b;
  at_most = leb;
  connect = λ w. (answer 7, w);
  is_closed = λ socket w. false;
  send = λ socket r w. (answer tt, (w.0, w.1 ++ r ∷ []));
  recv = λ socket t w. (fault timed_out, (w.0 + 100, w.1));
  ping = λ socket w. (answer tt, w);
  close = λ socket w. (answer tt, w);
  sleep = λ d w. (answer tt, w);
  monotonic = λ w. (w.0, w);
  time = λ w. (w.0, w);
  start_task = λ w. w;
  cancel_task = λ w. (answer tt, w);
  is_stopped = λ w. false;
  gather = λ ts n w. (answer tt, w);
  loads = λ t. some rejection;
  validate = λ v. none;
  int_of = λ v. answer (pos 0);
  str_of = λ v. [];
  event_key = text_of;
  is_zero_float = λ x. false;
  is_digit_text = λ t. false;
  float_of_int = λ n. some 0;
  float_of_text = λ t. none;
  equal = λ a b. false;
  less = λ a b. none;
  less_equal = λ a b. none;
  event_map = [];
  same_class = λ a b. false;
  class_name = λ cls. [];
  field_type = λ cls t. none;
  marshal_event = λ v. none;
  field_of = λ m t. null;
}

abbrev log : ℕ × List Request → List Request
log w = w.1

abbrev standard : Setup node
standard = record { event_recv_timeout = 30; max_event_silence = some 60; heartbeat = true }

-- one subscription on socket 3
abbrev subscribed : Subscriber node
subscribed = record {
  world = (5, []);
  websocket = some 3;
  subscriptions =
      (
        codes "sub_1",
        record {
          query = codes "tm.event='Tx'";
          kind = tendermint_query;
          active = true;
          sent = true;
        },
      )
      ∷ [];
  callbacks = (codes "sub_1", 1 ∷ []) ∷ [];
  running = true;
  has_task = true;
  counter = 1;
  recent_event_keys = [];
}

log-IsLogged : IsLogged node log 7
log-IsLogged = record {
  stays_open = λ w. refl;
  sends = λ r w. refl;
  survives = λ r w e h. absurd (ground arith);
}

running : is_running subscribed ≡ true
unfolding is_running
running = refl

connect-Sends_example :
    Post ⊥
      (λ _ _. ⊥)
      (λ _. Has node log 7 log-IsLogged ([] ++ resent standard subscribed.subscriptions))
      (connect standard 1 subscribed)
connect-Sends_example =
    connect-Sends node log 7 log-IsLogged standard 0 subscribed (5, []) running refl refl

silent_round : IsSilentRound standard subscribed 5
unfolding open_socket if_open is_silent
silent_round = record {
  old = 3;
  now = 105;
  waited = (105, []);
  read_clock = (105, []);
  closed_world = (105, []);
  ending = answer tt;
  is_open = refl;
  nothing = refl;
  clock = refl;
  too_long = refl;
  closing = refl;
  survives = λ e h. absurd (ground arith);
}

still_running : is_running (dropped node standard subscribed 5 silent_round) ≡ true
unfolding is_running
still_running = refl

connects : node.connect silent_round.closed_world ≡ (answer 7, silent_round.closed_world)
connects = refl

watchdog-resends_example :
    Post ⊥
      (λ _ _. ⊥)
      (λ _.
        Has node log 7 log-IsLogged
          (log silent_round.closed_world ++ resent standard subscribed.subscriptions))
      ((turn standard 2 5 >>= turn standard 2) subscribed)
watchdog-resends_example =
    watchdog-resends node log 7 log-IsLogged (λ w. refl) standard subscribed 5 1
      silent_round.closed_world silent_round still_running connects refl

abbrev fresh_subscriber : Subscriber node
fresh_subscriber = record {
  world = (0, []);
  websocket = none;
  subscriptions = [];
  callbacks = [];
  running = false;
  has_task = false;
  counter = 0;
  recent_event_keys = [];
}

abbrev calls : List (Call node)
calls =
    call_new_block_events (codes "emissions.v10.EventEMAScoresSet") [] 1 none
    ∷ call_subscribe new_block_headers 1 none
    ∷ take_turn 1 0
    ∷ []

behind_all-IsGuarded_example : IsGuarded standard (behind_all standard calls fresh_subscriber)
behind_all-IsGuarded_example = behind_all-IsGuarded standard calls fresh_subscriber tt

abbrev events : List (Value ℕ ℕ)
events = str (codes "a") ∷ str (codes "b") ∷ []

still_recent :
    AllRecent node 80 (
      recent_of node (codes "sub_1") (take_fresh node (codes "sub_1") 100 none events subscribed).1)
unfolding take_fresh fresh prune_recent lookup insert height_text text_eq
still_recent = (refl, (refl, tt))

take_fresh-again_example :
    (take_fresh node
      (codes "sub_1")
      140
      none
      events
      (take_fresh node (codes "sub_1") 100 none events subscribed).1).0
    ≡ ok []
take_fresh-again_example =
    take_fresh-again node (codes "sub_1") 100 140 none events subscribed still_recent

is_reply : IsReply node rejection (codes "sub_1")
unfolding get has_key find_field text_eq
is_reply = record {
  result = dict no_fields;
  named = refl;
  has_id = refl;
  has_result = refl;
  no_data = refl;
}

is_rejected : has_key rejection (codes "error") ≡ true
unfolding has_key find_field text_eq
is_rejected = refl

dispatch_events-rejected_example :
    dispatch_events node
      (str (codes "event"))
      (str (codes "sub_1"))
      none
      (handle_message node [] subscribed).1
    ≡ (ok tt, (handle_message node [] subscribed).1)
dispatch_events-rejected_example =
    dispatch_events-rejected node [] (codes "sub_1") rejection subscribed (str (codes "event")) none
      refl is_reply is_rejected

leb_trans : (a b c : ℕ) → leb a b ≡ true → leb b c ≡ true → leb a c ≡ true
leb_trans a b c p q = ground arith

built : configure {h = node} 30 (some 60) true ≡ some standard
unfolding configure silence_limit with_limit
built = refl

configure-is_silent_example : is_silent standard 20 ≡ false
configure-is_silent_example =
    configure-is_silent node 30 true leb_trans (some 60) standard 20 built refl
