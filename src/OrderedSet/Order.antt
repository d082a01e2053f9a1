-- ===== src/OrderedSet/Order.antt =====
-- About src/allora_sdk/utils/timestamp_ordered_set.py: the order of the entries, and `prune`
-- beside a filter by age.
use allora_sdk_py.Prelude.{
  ℕ, ◌+◌, ◌≡◌, refl, ◌∙◌, Bool, false, Option, none, some, List, [], ◌∷◌, ◌++◌, arith, ◌==◌,
  if◌then◌else◌, length, elem, get_last?, Bool-cases, inl, inr,
}
use allora_sdk_py.OrderedSet.{
  TimestampOrderedSet, without, find, get_timestamp, add, newest, size, stale, without_all, prune,
}
use allora_sdk_py.OrderedSet.Lookup.{HasUniqueKeys, items-add}

module _ {T : Type 0} where
  get_last?-append : (l : List (ℕ × T)) (e : ℕ × T) → get_last? (l ++ e ∷ []) ≡ some e
  get_last?-append [] e = refl
  get_last?-append (x ∷ []) e = refl
  get_last?-append (x ∷ y ∷ r) e = get_last?-append (y ∷ r) e

  -- The item added last is the newest, also when it was there before.
  newest-add : (v : ℕ) (t : T) (s : TimestampOrderedSet T) → newest (add v t s) ≡ some (t, v)
  unfolding newest
  newest-add v t s = rw (items-add, get_last?-append)

module _ {T : Type 0} (before : T → T → Bool) where
  -- the entries that are not older than the cutoff, in their order
  abbrev pub fresh : T → List (ℕ × T) → List (ℕ × T)
  fresh cutoff [] = []
  fresh cutoff ((v, t) ∷ r) =
      let rest = fresh cutoff r in if before t cutoff then rest else (v, t) ∷ rest

  without_all-cons :
      (v : ℕ) (t : T) (vs : List ℕ) (l : List (ℕ × T))
      → elem v vs ≡ false
      → without_all vs ((v, t) ∷ l) ≡ (v, t) ∷ without_all vs l
  unfolding without_all
  without_all-cons v t [] l h = refl
  without_all-cons v t (u ∷ vs) l h = elim (Bool-cases (v == u)) [
    | inl same ↦ ground arith
    | inr other ↦ ground (arith, without_all-cons v t vs (without u l))
  ]

  without_all-head :
      (v : ℕ) (t : T) (vs : List ℕ) (l : List (ℕ × T))
      → without_all (v ∷ vs) ((v, t) ∷ l) ≡ without_all vs l
  unfolding without_all
  without_all-head v t vs l = ground arith

  elem-stale :
      (v : ℕ) (cutoff : T) (l : List (ℕ × T))
      → find v l ≡ none
      → elem v (stale before cutoff l) ≡ false
  unfolding find stale
  elem-stale v cutoff [] h = refl
  elem-stale v cutoff ((w, t) ∷ r) h = ground (arith, elem-stale v cutoff r)

  without_all-stale :
      (cutoff : T) (l : List (ℕ × T))
      → HasUniqueKeys l
      → without_all (stale before cutoff l) l ≡ fresh cutoff l
  unfolding stale
  without_all-stale cutoff [] h = unfold without_all in refl
  without_all-stale cutoff ((v, t) ∷ r) h = elim (Bool-cases (before t cutoff)) [
    | inl old ↦
        rw old (without_all-head v t (stale before cutoff r) r ∙ without_all-stale cutoff r h.1)
    | inr young ↦ rw young (
        ground (
          arith,
          without_all-cons v t (stale before cutoff r) r (elem-stale v cutoff r h.0),
          without_all-stale cutoff r h.1,
        ))
  ]

  -- If no key is double, `prune` keeps exactly the entries that are not older than the cutoff, in
  -- their order.
  pub items-prune :
      (cutoff : T) (s : TimestampOrderedSet T)
      → HasUniqueKeys s.items
      → (prune before cutoff s).1.items ≡ fresh cutoff s.items
  unfolding prune
  items-prune cutoff s h = without_all-stale cutoff s.items h

  length-stale :
      (cutoff : T) (l : List (ℕ × T))
      → length (stale before cutoff l) + length (fresh cutoff l) ≡ length l
  unfolding stale
  length-stale cutoff [] = omega arith
  length-stale cutoff ((v, t) ∷ r) = ground (arith, length-stale cutoff r)

  -- If no key is double, the number that `prune` returns is the number of entries that it removed.
  pub size-prune :
      (cutoff : T) (s : TimestampOrderedSet T)
      → HasUniqueKeys s.items
      → let (removed, s') = prune before cutoff s in removed + size s' ≡ size s
  unfolding prune size
  size-prune cutoff s h =
      ground (arith, length-stale cutoff s.items, without_all-stale cutoff s.items h)

  fresh-absent :
      (v : ℕ) (cutoff : T) (l : List (ℕ × T)) → find v l ≡ none → find v (fresh cutoff l) ≡ none
  unfolding find
  fresh-absent v cutoff [] h = refl
  fresh-absent v cutoff ((w, t) ∷ r) h = ground (arith, fresh-absent v cutoff r)

  fresh-HasUniqueKeys :
      (cutoff : T) (l : List (ℕ × T)) → HasUniqueKeys l → HasUniqueKeys (fresh cutoff l)
  fresh-HasUniqueKeys cutoff [] h = tt
  fresh-HasUniqueKeys cutoff ((v, t) ∷ r) h =
      ground (arith, fresh-HasUniqueKeys cutoff r h.1, fresh-absent v cutoff r h.0)

  pub prune-HasUniqueKeys :
      (cutoff : T) (s : TimestampOrderedSet T)
      → HasUniqueKeys s.items
      → HasUniqueKeys (prune before cutoff s).1.items
  prune-HasUniqueKeys cutoff s h =
      rw (items-prune cutoff s h) (fresh-HasUniqueKeys cutoff s.items h)

  -- what is left of a timestamp that is pruned at the cutoff
  abbrev pub live : T → Option T → Option T
  live cutoff none = none
  live cutoff (some t) = if before t cutoff then none else some t

  find-fresh :
      (v : ℕ) (cutoff : T) (l : List (ℕ × T))
      → HasUniqueKeys l
      → find v (fresh cutoff l) ≡ live cutoff (find v l)
  unfolding find
  find-fresh v cutoff [] h = refl
  find-fresh v cutoff ((w, t) ∷ r) h =
      ground (arith, find-fresh v cutoff r h.1, fresh-absent w cutoff r h.0)

  -- If no key is double, then after `prune` a key is found exactly if it was there with a
  -- timestamp not older than the cutoff, and then with that timestamp.
  pub get_timestamp-prune :
      (v : ℕ) (cutoff : T) (s : TimestampOrderedSet T)
      → HasUniqueKeys s.items
      → get_timestamp v (prune before cutoff s).1 ≡ live cutoff (get_timestamp v s)
  unfolding get_timestamp
  get_timestamp-prune v cutoff s h = rw (items-prune cutoff s h) (find-fresh v cutoff s.items h)
