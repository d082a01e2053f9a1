-- ===== src/Subscriber/Guard.antt =====
-- About src/allora_sdk/rpc_client/client_websocket_events.py: which queries the subscriptions have,
-- whatever is called.
use allora_sdk_py.Prelude.{
  ◌≡◌, refl, ap, ◌∙◌, false, List, [], ◌∷◌, ◌++◌, All, Bool-cases, inl, inr,
}
use allora_sdk_py.Tx.Errors.{Text, codes, text_eq}
use allora_sdk_py.Subscriber.Dict.{Dict, insert, update, remove, map_values}
use allora_sdk_py.Subscriber.Query.{
  EventAttributeCondition, EventFilter, to_query, heartbeat_query, block_events_query, join_and,
  with_conditions, event_type, new_block_headers, custom, to_query_condition,
}

module _ {A : Type 0} (P : A → Type 0) where
  abbrev pub AllValues : Dict A → Type 0
  AllValues = All (λ e. P e.1)

  pub AllValues-insert :
      (k : Text) (a : A) (d : Dict A) → P a → AllValues d → AllValues (insert k a d)
  unfolding insert
  AllValues-insert k a [] p q = (p, tt)
  AllValues-insert k a ((l, b) ∷ d) p q = elim (Bool-cases (text_eq k l)) [
    | inl same ↦ rw same (p, q.1)
    | inr other ↦ rw other (q.0, AllValues-insert k a d p q.1)
  ]

  pub AllValues-update :
      (k : Text) (f : A → A) (d : Dict A)
      → ((a : A) → P a → P (f a))
      → AllValues d
      → AllValues (update k f d)
  unfolding update
  AllValues-update k f [] p q = tt
  AllValues-update k f ((l, b) ∷ d) p q = elim (Bool-cases (text_eq k l)) [
    | inl same ↦ rw same (p b q.0, q.1)
    | inr other ↦ rw other (q.0, AllValues-update k f d p q.1)
  ]

  pub AllValues-remove : (k : Text) (d : Dict A) → AllValues d → AllValues (remove k d)
  unfolding remove
  AllValues-remove k [] q = tt
  AllValues-remove k ((l, b) ∷ d) q = elim (Bool-cases (text_eq k l)) [
    | inl same ↦ rw same (AllValues-remove k d q.1)
    | inr other ↦ rw other (q.0, AllValues-remove k d q.1)
  ]

  pub AllValues-map_values :
      (f : A → A) (d : Dict A)
      → ((a : A) → P a → P (f a))
      → AllValues d
      → AllValues (map_values f d)
  unfolding map_values
  AllValues-map_values f [] p q = tt
  AllValues-map_values f ((l, b) ∷ d) p q = (p b q.0, AllValues-map_values f d p q.1)

with_conditions_head :
    (event_name c : Text) (conditions : List EventAttributeCondition) (f : EventFilter)
    → (g : EventFilter) × (with_conditions event_name conditions (c ∷ f) ≡ c ∷ g)
unfolding with_conditions custom
with_conditions_head event_name c [] f = (f, refl)
with_conditions_head event_name c (d ∷ ds) f =
    with_conditions_head event_name c ds
      (f ++ (event_name ++ codes "." ++ to_query_condition d) ∷ [])

join_and-other :
    (f : EventFilter)
    → text_eq (join_and (codes "tm.event='NewBlockEvents'" ∷ f)) heartbeat_query ≡ false
unfolding heartbeat_query to_query join_and event_type new_block_headers text_eq
join_and-other [] = refl
join_and-other (c ∷ f) = refl

-- No query of block events is the heartbeat's.
pub block_events_query-other :
    (event_name : Text) (conditions : List EventAttributeCondition)
    → text_eq (block_events_query event_name conditions) heartbeat_query ≡ false
unfolding block_events_query to_query event_type
block_events_query-other event_name conditions =
    let (f, e) =
      with_conditions_head event_name (codes "tm.event='NewBlockEvents'") conditions [] in
    ap (λ g. text_eq (to_query g) heartbeat_query) e ∙ join_and-other f
