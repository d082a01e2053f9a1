-- ===== src/Subscriber/Delivery.antt =====
-- About src/allora_sdk/rpc_client/client_websocket_events.py: which events reach the callbacks.
use allora_sdk_py.Prelude.{
  ◌≡◌, refl, sym, ap, ◌∙◌, subst, true, false, not, Option, none, some, List, [], ◌∷◌, Bool-cases,
  inl, inr, is_some, All, get_or,
}
use allora_sdk_py.Prelude.Int.{ℤ}
use allora_sdk_py.Tx.Errors.{Text, codes}
use allora_sdk_py.Exec.{ok}
use allora_sdk_py.Events.Value.{Value, get, has_key, null, str, dict, no_fields, is_null}
use allora_sdk_py.Subscriber.Dict.{Dict, lookup, insert, update, has}
use allora_sdk_py.Subscriber.State.{Host, Subscription, Subscriber}
use allora_sdk_py.Subscriber.Calls.{set_active}
use allora_sdk_py.Subscriber.Messages.{
  fresh, recent_key, prune_recent, take_fresh, dedupe_ttl_seconds, dispatch_events, dispatch_key,
  dispatch_if_active, key_of,
}
use allora_sdk_py.Subscriber.Frames.{
  handle_message, handle_json, handle_frame, caller_frame, confirm, set_active_key, is_heartbeat_id,
}
use allora_sdk_py.Subscriber.Conditions.{is_true}
use allora_sdk_py.Subscriber.Lookup.{lookup-insert, lookup-update, has-insert, map_option}

module _ (h : Host) where
  -- the key of each event is among the recent ones
  abbrev pub AllSeen : Option ℤ → List (Value h.F h.M) → Dict h.Secs → Type 0
  AllSeen height es recent = All (λ e. has (recent_key h height e) recent ≡ true) es

  has-fresh :
      (k : Text) (now : h.Secs) (height : Option ℤ) (es : List (Value h.F h.M))
      (recent : Dict h.Secs)
      → has k recent ≡ true
      → has k (fresh h now height es recent).1 ≡ true
  unfolding fresh
  has-fresh k now height [] recent p = p
  has-fresh k now height (e ∷ es) recent p =
      elim (Bool-cases (has (recent_key h height e) recent)) [
        | inl seen ↦ rw seen (has-fresh k now height es recent p)
        | inr new ↦ rw new (
            has-fresh k now height es (insert (recent_key h height e) now recent)
              (has-insert k (recent_key h height e) now recent p))
      ]

  fresh-seen :
      (now : h.Secs) (height : Option ℤ) (e : Value h.F h.M) (es : List (Value h.F h.M))
      (recent : Dict h.Secs)
      → has (recent_key h height e) recent ≡ true
      → fresh h now height (e ∷ es) recent ≡ fresh h now height es recent
  unfolding fresh
  fresh-seen now height e es recent seen = rw seen refl

  fresh-new :
      (now : h.Secs) (height : Option ℤ) (e : Value h.F h.M) (es : List (Value h.F h.M))
      (recent : Dict h.Secs)
      → has (recent_key h height e) recent ≡ false
      → (fresh h now height (e ∷ es) recent).1
        ≡ (fresh h now height es (insert (recent_key h height e) now recent)).1
  unfolding fresh
  fresh-new now height e es recent new = rw new refl

  AllSeen-fresh :
      (now : h.Secs) (height : Option ℤ) (es : List (Value h.F h.M)) (recent : Dict h.Secs)
      → AllSeen height es (fresh h now height es recent).1
  AllSeen-fresh now height [] recent = tt
  AllSeen-fresh now height (e ∷ es) recent =
      let k : Text = recent_key h height e in
      elim (Bool-cases (has k recent)) [
        | inl seen ↦
            subst (AllSeen height (e ∷ es))
              (sym (ap (λ r. r.1) (fresh-seen now height e es recent seen)))
              (has-fresh k now height es recent seen, AllSeen-fresh now height es recent)
        | inr new ↦ subst (AllSeen height (e ∷ es)) (sym (fresh-new now height e es recent new)) (
          has-fresh k now height es (insert k now recent) (ap is_some (lookup-insert k now recent)),
          AllSeen-fresh now height es (insert k now recent),
        )
      ]

  fresh-AllSeen :
      (now : h.Secs) (height : Option ℤ) (es : List (Value h.F h.M)) (recent : Dict h.Secs)
      → AllSeen height es recent
      → fresh h now height es recent ≡ ([], recent)
  unfolding fresh
  fresh-AllSeen now height [] recent p = refl
  fresh-AllSeen now height (e ∷ es) recent p = rw p.0 (fresh-AllSeen now height es recent p.1)

  -- no timestamp is before the cutoff
  abbrev pub AllRecent : h.Secs → Dict h.Secs → Type 0
  AllRecent cutoff = All (λ e. h.at_most cutoff e.1 ≡ true)

  prune_recent-AllRecent :
      (cutoff : h.Secs) (d : Dict h.Secs) → AllRecent cutoff d → prune_recent h cutoff d ≡ d
  unfolding prune_recent
  prune_recent-AllRecent cutoff [] p = refl
  prune_recent-AllRecent cutoff ((k, t) ∷ d) p =
      rw p.0 (ap (λ r. (k, t) ∷ r) (prune_recent-AllRecent cutoff d p.1))

  abbrev pub recent_of : Text → Subscriber h → Dict h.Secs
  recent_of id s = get_or (lookup id s.recent_event_keys) []

  -- the events of one height, and then again
  fresh-again :
      (now later cutoff : h.Secs) (height : Option ℤ) (es : List (Value h.F h.M))
      (old kept : Dict h.Secs)
      → kept ≡ (fresh h now height es old).1
      → AllRecent cutoff kept
      → (fresh h later height es (prune_recent h cutoff kept)).0 ≡ []
  fresh-again now later cutoff height es old kept e p =
      ap (λ r. (fresh h later height es r).0) (prune_recent-AllRecent cutoff kept p)
      ∙ ap (λ r. r.0)
          (fresh-AllSeen later height es kept
            (subst (AllSeen height es) (sym e) (AllSeen-fresh now height es old)))

  -- Events that were taken for a subscription at some height are not taken again at that height,
  -- as long as no key that the subscription remembers is older than the time to live.
  pub take_fresh-again :
      (id : Text) (now later : h.Secs) (height : Option ℤ) (es : List (Value h.F h.M))
      (s : Subscriber h)
      → AllRecent
          (h.minus later (h.secs dedupe_ttl_seconds))
          (recent_of id (take_fresh h id now height es s).1)
      → (take_fresh h id later height es (take_fresh h id now height es s).1).0 ≡ ok []
  unfolding take_fresh
  take_fresh-again id now later height es s p =
      let old : Dict h.Secs =
        prune_recent h (h.minus now (h.secs dedupe_ttl_seconds)) (recent_of id s) in
      ap ok (
        fresh-again now later _ height es old (recent_of id (take_fresh h id now height es s).1)
          (ap (λ o. get_or o [])
            (lookup-insert id (fresh h now height es old).1 s.recent_event_keys))
          p)

  -- a frame that answers the request of a subscription: an id, and no data
  pub record IsReply (frame : Value h.F h.M) (id : Text) : Type 0 where
    pub result : Value h.F h.M
    pub named : get frame (codes "id") null ≡ some (str id)
    pub has_id : has_key frame (codes "id") ≡ true
    pub has_result : get frame (codes "result") (dict no_fields) ≡ some result
    pub no_data : get result (codes "data") null ≡ some null

  handle_message-IsReply :
      (t id : Text) (frame : Value h.F h.M) (s : Subscriber h)
      → h.loads t ≡ some frame
      → IsReply frame id
      → handle_message h t s ≡ (
        ok tt,
        record s {
          subscriptions =
              update id (set_active (not (has_key frame (codes "error")))) s.subscriptions;
        },
      )
  unfolding handle_message handle_json handle_frame caller_frame confirm set_active_key
      is_heartbeat_id key_of is_null
  handle_message-IsReply t id frame s e r = rw (e, r.named, r.has_result, r.no_data, r.has_id) refl

  dispatch_if_active-off :
      (id : Text) (o : Option (Subscription h)) (v : Value h.F h.M) (height : Option ℤ)
      (s : Subscriber h)
      → dispatch_if_active h id (map_option (set_active false) o) v height s ≡ (ok tt, s)
  unfolding dispatch_if_active set_active
  dispatch_if_active-off id none v height s = refl
  dispatch_if_active-off id (some i) v height s = refl

  dispatch_events-off :
      (id : Text) (v : Value h.F h.M) (height : Option ℤ) (s : Subscriber h)
      (d : Dict (Subscription h))
      → s.subscriptions ≡ update id (set_active false) d
      → dispatch_events h v (str id) height s ≡ (ok tt, s)
  unfolding dispatch_events dispatch_key key_of is_true
  dispatch_events-off [] v height s d e = refl
  dispatch_events-off (c ∷ t) v height s d e =
      ap (λ o. dispatch_if_active h (c ∷ t) o v height s)
        (ap (lookup (c ∷ t)) e ∙ lookup-update (c ∷ t) (set_active false) d)
      ∙ dispatch_if_active-off (c ∷ t) (lookup (c ∷ t) d) v height s

  -- Let a frame have the id of a subscription, no data and an error. Then after `_handle_message`,
  -- events with that id are dropped: dispatching them returns and changes nothing.
  pub dispatch_events-rejected :
      (t id : Text) (frame : Value h.F h.M) (s : Subscriber h) (v : Value h.F h.M)
      (height : Option ℤ)
      → h.loads t ≡ some frame
      → IsReply frame id
      → has_key frame (codes "error") ≡ true
      → dispatch_events h v (str id) height (handle_message h t s).1
        ≡ (ok tt, (handle_message h t s).1)
  dispatch_events-rejected t id frame s v height e r bad =
      dispatch_events-off id v height (handle_message h t s).1 s.subscriptions (
        ap (λ m. m.1.subscriptions) (handle_message-IsReply t id frame s e r)
        ∙ ap (λ b. update id (set_active (not b)) s.subscriptions) bad)
