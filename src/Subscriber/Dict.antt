-- ===== src/Subscriber/Dict.antt =====
-- A Python dict with texts as keys: an association list in the order of insertion.
use allora_sdk_py.Prelude.{Bool, Option, none, some, List, [], ◌∷◌, map, if◌then◌else◌, is_some}
use allora_sdk_py.Tx.Errors.{Text, text_eq}

abbrev pub Dict : Type 0 → Type 0
Dict A = List (Text × A)

module _ {A : Type 0} where
  unfoldable pub lookup : Text → Dict A → Option A
  lookup k [] = none
  lookup k ((l, a) ∷ d) = let rest = lookup k d in if text_eq k l then some a else rest

  -- `d[k] = a`
  unfoldable pub insert : Text → A → Dict A → Dict A
  insert k a [] = (k, a) ∷ []
  insert k a ((l, b) ∷ d) =
      let rest = insert k a d in if text_eq k l then (l, a) ∷ d else (l, b) ∷ rest

  -- `f` on the value of `k`, if it is there
  unfoldable pub update : Text → (A → A) → Dict A → Dict A
  update k f [] = []
  update k f ((l, b) ∷ d) =
      let rest = update k f d in if text_eq k l then (l, f b) ∷ d else (l, b) ∷ rest

  -- `d.pop(k, None)`
  unfoldable pub remove : Text → Dict A → Dict A
  remove k [] = []
  remove k ((l, b) ∷ d) = let rest = remove k d in if text_eq k l then rest else (l, b) ∷ rest

  -- `f` on every value
  unfoldable pub map_values : (A → A) → Dict A → Dict A
  map_values f = map (λ e. (e.0, f e.1))

  abbrev pub has : Text → Dict A → Bool
  has k d = is_some (lookup k d)
