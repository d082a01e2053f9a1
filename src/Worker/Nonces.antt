-- ===== src/Worker/Nonces.antt =====
-- src/allora_sdk/worker/worker.py: which of the open nonces a cycle submits. A Python set of block
-- heights is a list without a double, in no order that matters: every use of it sorts it.
pub mod Choice
pub mod Sequential
use allora_sdk_py.Prelude.{
  ℕ, ◌+◌, ◌-◌, min, max, Bool, true, false, not, ◌&&◌, Option, none, some, List, [], ◌∷◌, ◌==◌, leb,
  ltb, length, drop, elem, if◌then◌else◌,
}
use allora_sdk_py.OrderedSet.{TimestampOrderedSet, contains}

-- `set.add`
unfoldable pub set_add : ℕ → List ℕ → List ℕ
set_add n l = if elem n l then l else n ∷ l

-- a set comprehension with the test `keep`
unfoldable pub set_of : (ℕ → Bool) → List ℕ → List ℕ
unfolding set_add
set_of keep [] = []
set_of keep (n ∷ l) = let rest = set_of keep l in if keep n then set_add n rest else rest

-- `sorted`
unfoldable pub insert : ℕ → List ℕ → List ℕ
insert n [] = n ∷ []
insert n (m ∷ l) = let rest = insert n l in if leb n m then n ∷ m ∷ l else m ∷ rest

unfoldable pub sorted : List ℕ → List ℕ
unfolding insert
sorted [] = []
sorted (n ∷ l) = insert n (sorted l)

-- `min` of a set, if it has one
unfoldable pub minimum : List ℕ → Option ℕ
minimum [] = none
minimum (n ∷ l) = elim (minimum l) [ none ↦ some n | some m ↦ some (min n m) ]

-- `l[-k:]`; as in Python the slice from `-0` is the whole list
unfoldable pub from_end : ℕ → List ℕ → List ℕ
from_end k l = if k == 0 then l else drop (length l - k) l

-- the cap that `__init__` sets; a negative argument gives 1 as 0 does
unfoldable pub max_unfulfilled_nonces : ℕ → ℕ
max_unfulfilled_nonces asked = max 1 asked

-- the cap of a cycle: with more than `cap` nonces the oldest are skipped
unfoldable pub cap_nonces : ℕ → List ℕ → List ℕ
unfolding from_end
cap_nonces most l = if ltb most (length l) then from_end most l else l

module _ {T : Type 0} (submitted : TimestampOrderedSet T) where
  unfoldable pub is_new : ℕ → Bool
  is_new n = not (contains n submitted)

  -- the event's nonce, if it is new
  unfoldable pub with_event : Option ℕ → List ℕ → List ℕ
  unfolding is_new set_add
  with_event none l = l
  with_event (some n) l = if is_new n then set_add n l else l

  -- the choice of workers whose nonces do not depend on one another
  unfoldable pub select_new_nonces : List ℕ → Option ℕ → List ℕ
  unfolding with_event set_of
  select_new_nonces nonces event = with_event event (set_of is_new nonces)

  unfoldable pub candidates : List ℕ → Option ℕ → List ℕ
  unfolding set_add
  candidates open_nonces none = open_nonces
  candidates open_nonces (some n) = set_add n open_nonces

  unfoldable pub only_if_new : Option ℕ → List ℕ
  only_if_new none = []
  only_if_new (some oldest) = if contains oldest submitted then [] else oldest ∷ []

  -- `_select_sequential_nonce`
  unfoldable pub select_sequential_nonce : List ℕ → Option ℕ → List ℕ
  unfolding candidates minimum only_if_new
  select_sequential_nonce open_nonces event = only_if_new (minimum (candidates open_nonces event))

  -- the nonces of a cycle, in the order of their submission
  unfoldable pub choose : Bool → ℕ → List ℕ → Option ℕ → List ℕ
  unfolding select_new_nonces select_sequential_nonce sorted cap_nonces
  choose sequential most nonces event =
      let new_nonces =
        if sequential
        then select_sequential_nonce nonces event
        else select_new_nonces nonces event in
      cap_nonces most (sorted new_nonces)
