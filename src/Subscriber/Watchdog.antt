-- ===== src/Subscriber/Watchdog.antt =====
-- About src/allora_sdk/rpc_client/client_websocket_events.py: an event loop whose websocket has gone silent.
use allora_sdk_py.Prelude.{ℕ, suc, ◌≡◌, refl, ◌∙◌, true, none, some, List, ◌++◌}
use allora_sdk_py.Exec.{Reply, answer, fault, Result, ok, raise, stuck, rescue, after, ◌>>=◌}
use allora_sdk_py.Exec.Post.{Post, Post-after}
use allora_sdk_py.Subscriber.State.{
  Failure, timed_out, is_exception, Request, Host, Setup, Subscriber, W, read, log_failure,
  open_socket, is_running, if_open,
}
use allora_sdk_py.Subscriber.Calls.{connect}
use allora_sdk_py.Subscriber.Loop.{
  is_silent, force_reconnect, probe, on_timeout, receive, turn_on, recover, turn,
}
use allora_sdk_py.Subscriber.Resend.{IsLogged, Has, resent, connect-Sends}

-- a round in which nothing is received in time, and the silence is too long; `ending` is what closing
-- the websocket gives
pub record IsSilentRound {h : Host} (c : Setup h) (s : Subscriber h) (last : h.Secs) : Type 0 where
  pub old : h.Socket
  pub now : h.Secs
  pub waited : h.World
  pub read_clock : h.World
  pub closed_world : h.World
  pub ending : Reply Failure (Unit {0})
  pub is_open : open_socket s ≡ some old
  pub nothing : h.recv old c.event_recv_timeout s.world ≡ (fault timed_out, waited)
  pub clock : h.monotonic waited ≡ (now, read_clock)
  pub too_long : is_silent c (h.minus now last) ≡ true
  pub closing : h.close old read_clock ≡ (ending, closed_world)
  pub survives : (e : Failure) → ending ≡ fault e → is_exception e ≡ true

module _ (h : Host) (c : Setup h) (s : Subscriber h) (last : h.Secs)
    (round : IsSilentRound c s last) where
  abbrev pub dropped : Subscriber h
  dropped = record s { world = round.closed_world; websocket = none }

  force_reconnect-dropped :
      (r : Reply Failure (Unit {0}))
      → ((e : Failure) → r ≡ fault e → is_exception e ≡ true)
      → h.close round.old round.read_clock ≡ (r, round.closed_world)
      → force_reconnect round.old (record s { world = round.read_clock }) ≡ (ok tt, dropped)
  unfolding force_reconnect log_failure
  force_reconnect-dropped (answer a) k e = rw e refl
  force_reconnect-dropped (fault f) k e = rw (e, k f refl) refl

  -- A round of the event loop that receives nothing in time after too long a silence returns, with
  -- the websocket closed and dropped, whether closing it answers or raises an `Exception`; apart
  -- from the world nothing else of the subscriber changes.
  turn-dropped : (attempts : ℕ) → turn c attempts last s ≡ (ok last, dropped)
  unfolding turn turn_on receive on_timeout probe
  turn-dropped attempts =
      rw
        (
          round.is_open,
          round.nothing,
          round.clock,
          round.too_long,
          force_reconnect-dropped round.ending round.survives round.closing,
        )
        refl

module _ (h : Host) (log : h.World → List Request) (socket : h.Socket)
    (ok_log : IsLogged h log socket)
    (quiet_clock : (w : h.World) → log (h.monotonic w).1 ≡ log w) where
  reading-Has :
      (l : List Request) (r : Result Failure (Unit {0}) × Subscriber h)
      → Post ⊥ (λ _ _. ⊥) (λ _. Has h log socket ok_log l) r
      → Post ⊥ (λ _ _. ⊥) (λ _. Has h log socket ok_log l) (after r (λ _. read h.monotonic))
  reading-Has l r p =
      Post-after ⊥ (λ _ _. ⊥) (λ _. Has h log socket ok_log l) (λ _. Has h log socket ok_log l)
        (λ _. read h.monotonic) r p (λ a s q. (q.0, quiet_clock s.world ∙ q.1))

  rescued-Has :
      (l : List Request) (f : Failure → W h h.Secs) (r : Result Failure h.Secs × Subscriber h)
      → Post ⊥ (λ _ _. ⊥) (λ _. Has h log socket ok_log l) r
      → Post ⊥ (λ _ _. ⊥) (λ _. Has h log socket ok_log l) (rescue r f)
  rescued-Has l f (ok a, s) p = p
  rescued-Has l f (raise e, s) p = absurd p
  rescued-Has l f (stuck, s) p = absurd p

  -- a round without a websocket
  reconnected-Has :
      (c : Setup h) (s : Subscriber h) (last : h.Secs) (attempts : ℕ) (w : h.World)
      → open_socket s ≡ none
      → is_running s ≡ true
      → h.connect s.world ≡ (answer socket, w)
      → log w ≡ log s.world
      → Post ⊥
          (λ _ _. ⊥)
          (λ _. Has h log socket ok_log (log s.world ++ resent c s.subscriptions))
          (turn c (suc attempts) last s)
  unfolding turn turn_on
  reconnected-Has c s last attempts w closed running e q = rw closed (
      rescued-Has _ (recover last) (after (connect c (suc attempts) s) (λ _. read h.monotonic)) (
        reading-Has _ (connect c (suc attempts) s)
          (connect-Sends h log socket ok_log c attempts s w running e q)))

  -- Let a round of the event loop receive nothing in time after too long a silence, with the old
  -- websocket closed or failing to close by an `Exception`, and let the subscriber then run and
  -- the node accept the next connection. Let the new websocket stay open, log what it is sent and
  -- raise nothing but an `Exception`, and let reading the clock and connecting leave that log.
  -- Then that round and the next end with the new websocket in use, over which the heartbeat's
  -- query, where there is one, and then the query of each subscription were sent, in their order.
  pub watchdog-resends :
      (c : Setup h) (s : Subscriber h) (last : h.Secs) (attempts : ℕ) (w : h.World)
      (round : IsSilentRound c s last)
      → is_running (dropped h c s last round) ≡ true
      → h.connect round.closed_world ≡ (answer socket, w)
      → log w ≡ log round.closed_world
      → Post ⊥
          (λ _ _. ⊥)
          (λ _. Has h log socket ok_log (log round.closed_world ++ resent c s.subscriptions))
          ((turn c (suc attempts) last >>= turn c (suc attempts)) s)
  unfolding open_socket if_open
  watchdog-resends c s last attempts w round running e q =
      rw (turn-dropped h c s last round (suc attempts))
        (reconnected-Has c (dropped h c s last round) last attempts w refl running e q)
