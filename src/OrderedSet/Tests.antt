-- ===== src/OrderedSet/Tests.antt =====
-- The set of submitted nonces with numbers for timestamps: the theorems at concrete inputs.
use allora_sdk_py.Prelude.{ℕ, ◌+◌, ◌≡◌, refl, false, some, [], ◌∷◌, ltb, ◌==◌, if◌then◌else◌}
use allora_sdk_py.OrderedSet.{
  TimestampOrderedSet, find, get_timestamp, contains, discard, add, size, prune,
}
use allora_sdk_py.OrderedSet.Lookup.{get_timestamp-add, contains-discard}
use allora_sdk_py.OrderedSet.Order.{fresh, live, items-prune, size-prune, get_timestamp-prune}

abbrev submitted : TimestampOrderedSet ℕ
submitted = record { items = (30, 5) ∷ (10, 6) ∷ (20, 9) ∷ [] }

get_timestamp-add_example :
    get_timestamp 20 (add 10 11 submitted)
    ≡ (if 20 == 10 then some 11 else get_timestamp 20 submitted)
get_timestamp-add_example =
    get_timestamp-add 20 10 11 submitted (unfold find in (refl, (refl, (refl, tt))))

contains-discard_example :
    contains 10 (discard 10 submitted) ≡ (if 10 == 10 then false else contains 10 submitted)
contains-discard_example =
    contains-discard 10 10 submitted (unfold find in (refl, (refl, (refl, tt))))

items-prune_example : (prune ltb 7 submitted).1.items ≡ fresh ltb 7 submitted.items
items-prune_example = items-prune ltb 7 submitted (unfold find in (refl, (refl, (refl, tt))))

size-prune_example : let (removed, s') = prune ltb 7 submitted in removed + size s' ≡ size submitted
size-prune_example = size-prune ltb 7 submitted (unfold find in (refl, (refl, (refl, tt))))

get_timestamp-prune_example :
    get_timestamp 20 (prune ltb 7 submitted).1 ≡ live ltb 7 (get_timestamp 20 submitted)
get_timestamp-prune_example =
    get_timestamp-prune ltb 20 7 submitted (unfold find in (refl, (refl, (refl, tt))))
