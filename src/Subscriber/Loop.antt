-- ===== src/Subscriber/Loop.antt =====
-- src/allora_sdk/rpc_client/client_websocket_events.py: `_event_loop` with its watchdog.
use allora_sdk_py.Prelude.{ℕ, zero, suc, Bool, false, Option, none, some, if◌then◌else◌}
use allora_sdk_py.Exec.{pure, throw, diverge, gets, modify, try_except, ◌>>=◌, ◌>>◌}
use allora_sdk_py.Subscriber.State.{
  Failure, cancelled, timed_out, closed, Host, Setup, W, ask, read, log_failure, is_running,
  open_socket, if_open,
}
use allora_sdk_py.Subscriber.Calls.{reconnect_delay, connect}
use allora_sdk_py.Subscriber.Frames.{handle_message}

module _ {h : Host} where
  unfoldable pub is_silent : Setup h → h.Secs → Bool
  is_silent c silent = elim c.max_event_silence [ none ↦ false | some m ↦ h.at_most m silent ]

  abbrev pub drop_socket : W h (Unit {0})
  drop_socket = modify (λ s. record s { websocket = none })

  -- the watchdog drops the websocket, also where closing it fails
  unfoldable pub force_reconnect : h.Socket → W h (Unit {0})
  unfolding log_failure
  force_reconnect socket = try_except (ask (h.close socket)) log_failure >> drop_socket

  unfoldable pub ping_if_open : Option h.Socket → W h (Unit {0})
  ping_if_open none = pure tt
  ping_if_open (some socket) = ask (h.ping socket)

  unfoldable pub probe : Setup h → h.Socket → h.Secs → W h (Unit {0})
  unfolding is_silent force_reconnect ping_if_open if_open
  probe c socket silent =
      if is_silent c silent
      then force_reconnect socket
      else gets (λ s. if_open h s.world (some socket)) >>= ping_if_open

  -- `except asyncio.TimeoutError`
  unfoldable pub on_timeout : Setup h → h.Socket → h.Secs → Failure → W h h.Secs
  unfolding probe
  on_timeout c socket last timed_out =
      read h.monotonic >>= λ now. probe c socket (h.minus now last) >> pure last
  on_timeout c socket last e = throw e

  unfoldable pub receive : Setup h → h.Socket → W h h.Secs
  unfolding handle_message
  receive c socket = ask (h.recv socket c.event_recv_timeout) >>= λ m.
      read h.monotonic >>= λ now. handle_message h m >> pure now

  -- the body of the loop's `try`; it answers when the last message came
  unfoldable pub turn_on : Setup h → ℕ → h.Secs → Option h.Socket → W h h.Secs
  unfolding receive on_timeout connect
  turn_on c fuel last none = connect c fuel >> read h.monotonic
  turn_on c fuel last (some socket) = try_except (receive c socket) (on_timeout c socket last)

  unfoldable pub sleep_if_running : W h (Unit {0})
  unfolding is_running
  sleep_if_running =
      gets is_running >>= λ r. if r then ask (h.sleep (h.secs reconnect_delay)) else pure tt

  unfoldable pub recover : h.Secs → Failure → W h h.Secs
  unfolding sleep_if_running
  recover last cancelled = throw cancelled
  recover last closed = drop_socket >> sleep_if_running >> pure last
  recover last e = ask (h.sleep (h.secs 1)) >> pure last

  -- one round of the loop
  unfoldable pub turn : Setup h → ℕ → h.Secs → W h h.Secs
  unfolding turn_on recover open_socket
  turn c fuel last = try_except (gets open_socket >>= turn_on c fuel last) (recover last)

  unfoldable pub turns : Setup h → ℕ → ℕ → h.Secs → W h (Unit {0})
  unfolding turn is_running
  turns c attempts zero last = diverge
  turns c attempts (suc fuel) last =
      gets is_running >>= λ r. if r then turn c attempts last >>= turns c attempts fuel else pure tt

  -- `_event_loop`, for at most `fuel` rounds, each with at most `attempts` connections
  unfoldable pub event_loop : Setup h → ℕ → ℕ → W h (Unit {0})
  unfolding turns
  event_loop c attempts fuel = read h.monotonic >>= turns c attempts fuel
