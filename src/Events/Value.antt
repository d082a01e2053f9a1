-- ===== src/Events/Value.antt =====
-- src/allora_sdk/rpc_client/event_utils.py and client_websocket_events.py: the Python values that
-- come out of a JSON frame or go to a callback. `F` is the type of floats, `M` that of betterproto2
-- messages.
use allora_sdk_py.Prelude.{Bool, true, false, Option, none, some, List, [], ◌∷◌, if◌then◌else◌}
use allora_sdk_py.Prelude.Int.{ℤ}
use allora_sdk_py.Tx.Errors.{Text, text_eq}

mutual
  pub data Value (F M : Type 0) : Type 0 where
    null : Value F M
    bool : Bool → Value F M
    int : ℤ → Value F M
    float : F → Value F M
    str : Text → Value F M
    list : Values F M → Value F M
    dict : Fields F M → Value F M
    message : M → Value F M

  pub data Values (F M : Type 0) : Type 0 where
    no_values : Values F M
    value : Value F M → Values F M → Values F M

  pub data Fields (F M : Type 0) : Type 0 where
    no_fields : Fields F M
    field : Text → Value F M → Fields F M → Fields F M

module _ {F M : Type 0} where
  unfoldable pub elements : Values F M → List (Value F M)
  elements no_values = []
  elements (value v vs) = v ∷ elements vs

  unfoldable pub values_of : List (Value F M) → Values F M
  values_of [] = no_values
  values_of (v ∷ vs) = value v (values_of vs)

  unfoldable pub find_field : Text → Fields F M → Option (Value F M)
  find_field k no_fields = none
  find_field k (field l v fs) = let rest = find_field k fs in if text_eq k l then some v else rest

  unfoldable pub keys : Fields F M → List (Value F M)
  keys no_fields = []
  keys (field k v fs) = str k ∷ keys fs

  -- `v.get(key, default)`; only a dict has the method
  unfoldable pub get : Value F M → Text → Value F M → Option (Value F M)
  unfolding find_field
  get (dict fs) key default = elim (find_field key fs) [ none ↦ some default | some v ↦ some v ]
  get _ key default = none

  -- `key in v` for a dict
  unfoldable pub has_key : Value F M → Text → Bool
  unfolding find_field
  has_key (dict fs) key = elim (find_field key fs) [ none ↦ false | some v ↦ true ]
  has_key _ key = false

  unfoldable pub is_null : Value F M → Bool
  is_null null = true
  is_null _ = false

  -- the elements that a `for` takes from a value, where it can
  unfoldable pub iterate : Value F M → Option (List (Value F M))
  unfolding elements keys
  iterate (list vs) = some (elements vs)
  iterate (dict fs) = some (keys fs)
  iterate (str t) = some (chars t)
    where
      chars : Text → List (Value F M)
      chars [] = []
      chars (c ∷ t) = str (c ∷ []) ∷ chars t
  iterate _ = none
