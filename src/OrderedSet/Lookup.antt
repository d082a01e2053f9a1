-- ===== src/OrderedSet/Lookup.antt =====
-- About src/allora_sdk/utils/timestamp_ordered_set.py: what a lookup finds after each operation,
-- and double keys.
use allora_sdk_py.Prelude.{
  ℕ, ◌≡◌, refl, ◌≢◌, true, false, none, some, List, [], ◌∷◌, ◌++◌, arith, ◌==◌, if◌then◌else◌,
}
use allora_sdk_py.OrderedSet.{
  TimestampOrderedSet, without, find, contains, get_timestamp, discard, remove, add,
}

module _ {T : Type 0} where
  -- An `OrderedDict` holds a key at most once.
  abbrev pub HasUniqueKeys : List (ℕ × T) → Type 0
  HasUniqueKeys [] = Unit
  HasUniqueKeys ((v, _) ∷ r) = (find v r ≡ none) × HasUniqueKeys r

  pub find-without_ne : (u v : ℕ) (l : List (ℕ × T)) → u ≢ v → find u (without v l) ≡ find u l
  unfolding find without
  find-without_ne u v [] h = refl
  find-without_ne u v ((w, t) ∷ r) h = ground (arith, find-without_ne u v r h)

  pub find-without_self : (v : ℕ) (l : List (ℕ × T)) → HasUniqueKeys l → find v (without v l) ≡ none
  unfolding find without
  find-without_self v [] h = refl
  find-without_self v ((w, t) ∷ r) h = ground (arith, find-without_self v r h.1)

  pub find-without :
      (u v : ℕ) (l : List (ℕ × T))
      → HasUniqueKeys l
      → find u (without v l) ≡ (if u == v then none else find u l)
  find-without u v l h = ground (arith, find-without_self v l h, find-without_ne u v l)

  pub without-HasUniqueKeys :
      (v : ℕ) (l : List (ℕ × T)) → HasUniqueKeys l → HasUniqueKeys (without v l)
  unfolding find without
  without-HasUniqueKeys v [] h = tt
  without-HasUniqueKeys v ((w, t) ∷ r) h =
      ground (arith, without-HasUniqueKeys v r h.1, find-without_ne w v r)

  -- `del` of a key that is not there, which the callers guard, changes nothing.
  pub without_absent : (v : ℕ) (l : List (ℕ × T)) → find v l ≡ none → without v l ≡ l
  unfolding find without
  without_absent v [] h = refl
  without_absent v ((w, t) ∷ r) h = ground (arith, without_absent v r)

  pub find-append :
      (u v : ℕ) (t : T) (l : List (ℕ × T))
      → find v l ≡ none
      → find u (l ++ (v, t) ∷ []) ≡ (if u == v then some t else find u l)
  unfolding find
  find-append u v t [] h = refl
  find-append u v t ((w, s) ∷ r) h = ground (arith, find-append u v t r)

  append-HasUniqueKeys :
      (v : ℕ) (t : T) (l : List (ℕ × T))
      → find v l ≡ none
      → HasUniqueKeys l
      → HasUniqueKeys (l ++ (v, t) ∷ [])
  unfolding find
  append-HasUniqueKeys v t [] h k = (refl, tt)
  append-HasUniqueKeys v t ((w, s) ∷ r) h k =
      ground (arith, append-HasUniqueKeys v t r, find-append w v t r)

  -- `add` appends behind what is left without the key, also where the key was not there.
  pub items-add :
      (v : ℕ) (t : T) (s : TimestampOrderedSet T)
      → (add v t s).items ≡ without v s.items ++ (v, t) ∷ []
  unfolding add contains
  items-add v t s = ground (arith, without_absent v s.items)

  pub add-HasUniqueKeys :
      (v : ℕ) (t : T) (s : TimestampOrderedSet T)
      → HasUniqueKeys s.items
      → HasUniqueKeys (add v t s).items
  add-HasUniqueKeys v t s h = rw items-add (
      append-HasUniqueKeys v t (without v s.items) (find-without_self v s.items h)
        (without-HasUniqueKeys v s.items h))

  -- If no key is double, then after `add` the key has the new timestamp and every other key what
  -- it had.
  pub get_timestamp-add :
      (u v : ℕ) (t : T) (s : TimestampOrderedSet T)
      → HasUniqueKeys s.items
      → get_timestamp u (add v t s) ≡ (if u == v then some t else get_timestamp u s)
  unfolding get_timestamp
  get_timestamp-add u v t s h = rw items-add (
      ground (
        arith,
        find-append u v t (without v s.items),
        find-without_self v s.items h,
        find-without_ne u v s.items,
      ))

  pub contains-add :
      (u v : ℕ) (t : T) (s : TimestampOrderedSet T)
      → HasUniqueKeys s.items
      → contains u (add v t s) ≡ (if u == v then true else contains u s)
  unfolding contains get_timestamp
  contains-add u v t s h = ground (arith, get_timestamp-add u v t s h)

  pub discard-HasUniqueKeys :
      (v : ℕ) (s : TimestampOrderedSet T)
      → HasUniqueKeys s.items
      → HasUniqueKeys (discard v s).items
  unfolding discard
  discard-HasUniqueKeys v s h = without-HasUniqueKeys v s.items h

  -- If no key is double, then after `discard` the key is not there, and every other key is there
  -- exactly if it was.
  pub contains-discard :
      (u v : ℕ) (s : TimestampOrderedSet T)
      → HasUniqueKeys s.items
      → contains u (discard v s) ≡ (if u == v then false else contains u s)
  unfolding contains discard
  contains-discard u v s h = ground (arith, find-without u v s.items h)

  -- `remove` raises exactly where the key is not there, and is `discard` elsewhere.
  pub remove_lem :
      (v : ℕ) (s : TimestampOrderedSet T)
      → remove v s ≡ (if contains v s then some (discard v s) else none)
  unfolding remove discard
  remove_lem v s = refl
