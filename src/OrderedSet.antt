-- ===== src/OrderedSet.antt =====
-- src/allora_sdk/utils/timestamp_ordered_set.py: the set of submitted nonces. An `OrderedDict` is
-- its list of entries, oldest insertion first. A timestamp is a float of the caller: a type `T`
-- with the order test `before` (Python's `<`), a parameter of what compares.
pub mod Order
pub mod Lookup
mod Tests
use allora_sdk_py.Prelude.{
  ℕ, Bool, true, false, not, Option, none, some, List, [], ◌∷◌, ◌++◌, map, ◌==◌, length, elem,
  get_last?, if◌then◌else◌,
}

pub record TimestampOrderedSet (T : Type 0) : Type 0 where
  pub items : List (ℕ × T)

abbrev pub empty : {T : Type 0} → TimestampOrderedSet T
empty = record { items = [] }

module _ {T : Type 0} where
  -- `del self._data[value]`, `pop(value, None)`: a key stands at most once
  unfoldable pub without : ℕ → List (ℕ × T) → List (ℕ × T)
  without v [] = []
  without v ((w, t) ∷ r) = if v == w then r else (w, t) ∷ without v r

  unfoldable pub find : ℕ → List (ℕ × T) → Option T
  find v [] = none
  find v ((w, t) ∷ r) = if v == w then some t else find v r

  -- `__contains__`
  unfoldable pub contains : ℕ → TimestampOrderedSet T → Bool
  unfolding find
  contains v s = elim (find v s.items) [ none ↦ false | some _ ↦ true ]

  -- `get_timestamp`
  unfoldable pub get_timestamp : ℕ → TimestampOrderedSet T → Option T
  unfolding find
  get_timestamp v s = find v s.items

  -- `discard`
  unfoldable pub discard : ℕ → TimestampOrderedSet T → TimestampOrderedSet T
  unfolding without
  discard v s = record { items = without v s.items }

  -- `remove`: `none` is the `KeyError`
  unfoldable pub remove : ℕ → TimestampOrderedSet T → Option (TimestampOrderedSet T)
  unfolding without contains
  remove v s = if contains v s then some (record { items = without v s.items }) else none

  -- `add` with its timestamp given; the clock's reading is the caller's
  unfoldable pub add : ℕ → T → TimestampOrderedSet T → TimestampOrderedSet T
  unfolding without contains
  add v t s =
      let kept = if contains v s then without v s.items else s.items in
      record { items = kept ++ (v, t) ∷ [] }

  -- `__len__`
  unfoldable pub size : TimestampOrderedSet T → ℕ
  size s = length s.items

  -- `__bool__`
  unfoldable pub is_nonempty : TimestampOrderedSet T → Bool
  is_nonempty s = elim s.items [ [] ↦ false | _ ∷ _ ↦ true ]

  -- `clear`
  unfoldable pub clear : TimestampOrderedSet T → TimestampOrderedSet T
  clear s = empty

  -- `values`
  unfoldable pub values : TimestampOrderedSet T → List ℕ
  values s = map (λ e. e.0) s.items

  -- `timestamps`
  unfoldable pub timestamps : TimestampOrderedSet T → List T
  timestamps s = map (λ e. e.1) s.items

  -- `__iter__` and `items`: the pairs are turned round
  unfoldable pub iterate : TimestampOrderedSet T → List (T × ℕ)
  iterate s = map (λ e. (e.1, e.0)) s.items

  head_pair : List (ℕ × T) → Option (T × ℕ)
  head_pair [] = none
  head_pair ((v, t) ∷ _) = some (t, v)

  -- `oldest`
  unfoldable pub oldest : TimestampOrderedSet T → Option (T × ℕ)
  unfolding head_pair
  oldest s = head_pair s.items

  swap_pair : Option (ℕ × T) → Option (T × ℕ)
  swap_pair none = none
  swap_pair (some (v, t)) = some (t, v)

  -- `newest`
  unfoldable pub newest : TimestampOrderedSet T → Option (T × ℕ)
  unfolding swap_pair
  newest s = swap_pair (get_last? s.items)

  -- the loop that removes every collected key
  unfoldable pub without_all : List ℕ → List (ℕ × T) → List (ℕ × T)
  unfolding without
  without_all [] l = l
  without_all (v ∷ vs) l = without_all vs (without v l)

module _ {T : Type 0} (before : T → T → Bool) where
  -- the first loop of `prune`: the keys whose timestamp is older than the cutoff
  unfoldable pub stale : T → List (ℕ × T) → List ℕ
  stale cutoff [] = []
  stale cutoff ((v, t) ∷ r) =
      let rest = stale cutoff r in if before t cutoff then v ∷ rest else rest

  -- `prune`, with the number of items removed
  unfoldable pub prune : T → TimestampOrderedSet T → ℕ × TimestampOrderedSet T
  unfolding stale without_all
  prune cutoff s =
      let to_remove = stale cutoff s.items in
      (length to_remove, record { items = without_all to_remove s.items })

  -- `prune_older_than`; `ago` is `time.time() - seconds`
  unfoldable pub prune_older_than : (ℕ → T) → ℕ → TimestampOrderedSet T → ℕ × TimestampOrderedSet T
  unfolding prune
  prune_older_than ago seconds s = prune (ago seconds) s
