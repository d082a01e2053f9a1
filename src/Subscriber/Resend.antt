-- ===== src/Subscriber/Resend.antt =====
-- About src/allora_sdk/rpc_client/client_websocket_events.py: what goes out on a new connection.
use allora_sdk_py.Prelude.{
  ℕ, suc, ◌≡◌, refl, sym, ap, ◌∙◌, subst, Bool, true, false, some, List, [], ◌∷◌, ◌++◌,
  append_assoc, append_nil, if◌then◌else◌,
}
use allora_sdk_py.Tx.Errors.{Text}
use allora_sdk_py.Exec.{Reply, answer, fault, Result, outcome, ok, raise, stuck, rescue, pure, ◌>>◌}
use allora_sdk_py.Exec.Post.{Post, Triple, Triple-bind, Triple-weaken}
use allora_sdk_py.Subscriber.Dict.{Dict, update, map_values}
use allora_sdk_py.Subscriber.State.{
  Failure, is_exception, Request, Host, Setup, Subscription, Subscriber, W, log_failure,
  open_socket, if_open, is_running,
}
use allora_sdk_py.Subscriber.Calls.{
  subscription_request, heartbeat_request, send_to, send_subscription, send_all, send_heartbeat,
  connect_once, connect, set_flags, mark_sent, on_subscriptions,
}

-- the queries of a connection: the heartbeat's, and then each subscription's in its order
unfoldable pub queries : {h : Host} → Dict (Subscription h) → List Request
queries [] = []
queries ((id, i) ∷ d) = subscription_request id i.query ∷ queries d

unfoldable pub resent : {h : Host} → Setup h → Dict (Subscription h) → List Request
unfolding queries
resent c d = (if c.heartbeat then heartbeat_request ∷ [] else []) ++ queries d

-- an open websocket that logs what it is sent, and raises nothing but an `Exception`
pub record IsLogged (h : Host) (log : h.World → List Request) (socket : h.Socket) : Type 0 where
  pub stays_open : (w : h.World) → h.is_closed socket w ≡ false
  pub sends : (r : Request) (w : h.World) → log (h.send socket r w).1 ≡ log w ++ r ∷ []
  pub survives :
      (r : Request) (w : h.World) (e : Failure)
      → (h.send socket r w).0 ≡ fault e
      → is_exception e ≡ true

module _ (h : Host) (log : h.World → List Request) (socket : h.Socket)
    (ok_log : IsLogged h log socket) where
  -- the websocket is in use, and `l` was logged
  abbrev pub Has : List Request → Subscriber h → Type 0
  Has l s = (s.websocket ≡ some socket) × (log s.world ≡ l)

  -- it returns, and logs `rs`
  abbrev pub Sends : List Request → W h (Unit {0}) → Type 0
  Sends rs m = (l : List Request) → Triple ⊥ (Has l) (λ _ _. ⊥) (λ _. Has (l ++ rs)) m

  logged-Post :
      (l : List Request) (s : Subscriber h) (x : Reply Failure (Unit {0}) × h.World)
      → s.websocket ≡ some socket
      → log x.1 ≡ l
      → ((e : Failure) → x.0 ≡ fault e → is_exception e ≡ true)
      → Post ⊥
          (λ _ _. ⊥)
          (λ _. Has l)
          (rescue (outcome x.0, record s { world = x.1 }) (log_failure {h = h}))
  unfolding log_failure
  logged-Post l s (answer a, w) p q k = (p, q)
  logged-Post l s (fault e, w) p q k = rw (k e refl) (p, q)

  open_socket-Has : (l : List Request) (s : Subscriber h) → Has l s → open_socket s ≡ some socket
  unfolding open_socket if_open
  open_socket-Has l s p = rw (p.0, ok_log.stays_open s.world) refl

  send_subscription-Sends : (r : Request) → Sends (r ∷ []) (send_subscription r)
  unfolding send_subscription send_to
  send_subscription-Sends r l = record {
    at = λ s p. rw (open_socket-Has l s p) (
        logged-Post (l ++ r ∷ []) s (h.send socket r s.world) p.0
          (ok_log.sends r s.world ∙ ap (λ k. k ++ r ∷ []) p.1) (ok_log.survives r s.world));
  }

  mark_sent-Sends :
      (id : Text) (l : List Request)
      → Triple ⊥
          (Has l)
          (λ (_ : Failure) _. ⊥)
          (λ _. Has l)
          (on_subscriptions {h = h} (update id mark_sent))
  mark_sent-Sends id l = record { at = λ s p. p }

  send_all-Sends : (d : Dict (Subscription h)) → Sends (queries d) (send_all d)
  unfolding send_all queries
  send_all-Sends [] l = record { at = λ s p. (p.0, p.1 ∙ sym (append_nil l)) }
  send_all-Sends ((id, i) ∷ d) l =
      let r : Request = subscription_request id i.query in
      Triple-bind (λ _. Has (l ++ r ∷ []))
        (Triple-bind (λ _. Has (l ++ r ∷ [])) (send_subscription-Sends r l)
          (λ _. mark_sent-Sends id (l ++ r ∷ [])))
        (λ _.
          Triple-weaken (send_all-Sends d (l ++ r ∷ [])) (λ s p. p) (λ e s p. p)
            (λ a s p. (p.0, p.1 ∙ append_assoc l (r ∷ []) (queries d))))

  if-Sends :
      (b : Bool) (r : Request)
      → Sends (if b then r ∷ [] else []) (if b then send_subscription r else pure tt)
  if-Sends true r l = send_subscription-Sends r l
  if-Sends false r l = record { at = λ s p. (p.0, p.1 ∙ sym (append_nil l)) }

  send_heartbeat-Sends :
      (c : Setup h) → Sends (if c.heartbeat then heartbeat_request ∷ [] else []) (send_heartbeat c)
  unfolding send_heartbeat
  send_heartbeat-Sends c = if-Sends c.heartbeat heartbeat_request

  queries-map_values :
      (d : Dict (Subscription h)) → queries (map_values (set_flags false false) d) ≡ queries d
  unfolding queries map_values set_flags
  queries-map_values [] = refl
  queries-map_values ((id, i) ∷ d) =
      ap (λ r. subscription_request id i.query ∷ r) (queries-map_values d)

  after_connect-Sends :
      (c : Setup h) (d : Dict (Subscription h))
      → Sends (resent c d) (send_heartbeat c >> send_all d)
  unfolding resent
  after_connect-Sends c d l =
      let first : List Request = if c.heartbeat then heartbeat_request ∷ [] else [] in
      Triple-bind (λ _. Has (l ++ first)) (send_heartbeat-Sends c l)
        (λ _.
          Triple-weaken (send_all-Sends d (l ++ first)) (λ s p. p) (λ e s p. p)
            (λ a s p. (p.0, p.1 ∙ append_assoc l first (queries d))))

  connect_once-Sends :
      (c : Setup h) (s : Subscriber h) (w : h.World)
      → h.connect s.world ≡ (answer socket, w)
      → log w ≡ log s.world
      → Post ⊥ (λ _ _. ⊥) (λ _. Has (log s.world ++ resent c s.subscriptions)) (connect_once c s)
  unfolding connect_once resent
  connect_once-Sends c s w e q = rw e (
      subst (λ rs. Post ⊥ (λ _ _. ⊥) (λ _. Has (log s.world ++ rs)) (run fresh_state))
        (ap (λ qs. (if c.heartbeat then heartbeat_request ∷ [] else []) ++ qs)
          (queries-map_values s.subscriptions))
        ((after_connect-Sends c d (log s.world)).at fresh_state (refl, q)))
    where
      d : Dict (Subscription h)
      d = map_values (set_flags false false) s.subscriptions

      fresh_state : Subscriber h
      fresh_state = record s { world = w; websocket = some socket; subscriptions = d }

      run : W h (Unit {0})
      run = send_heartbeat c >> send_all d

  rescue-Post :
      (Q : Unit {0} → Subscriber h → Type 0) (f : Failure → W h (Unit {0}))
      (r : Result Failure (Unit {0}) × Subscriber h)
      → Post ⊥ (λ _ _. ⊥) Q r
      → Post ⊥ (λ _ _. ⊥) Q (rescue r f)
  rescue-Post Q f (ok a, s) p = p
  rescue-Post Q f (raise e, s) p = absurd p
  rescue-Post Q f (stuck, s) p = absurd p

  -- Let a running subscriber have the node accept its connection with a websocket that stays open,
  -- logs what it is sent and raises nothing but an `Exception`, and let connecting leave that log.
  -- Then `_connect` returns with that websocket in use, and the log has been extended by the
  -- heartbeat's query, where there is one, and then the query of each subscription, in their
  -- order.
  pub connect-Sends :
      (c : Setup h) (fuel : ℕ) (s : Subscriber h) (w : h.World)
      → is_running s ≡ true
      → h.connect s.world ≡ (answer socket, w)
      → log w ≡ log s.world
      → Post ⊥
          (λ _ _. ⊥)
          (λ _. Has (log s.world ++ resent c s.subscriptions))
          (connect c (suc fuel) s)
  unfolding connect
  connect-Sends c fuel s w running e q =
      rw running (rescue-Post _ _ (connect_once c s) (connect_once-Sends c s w e q))
