-- ===== src/Subscriber/Conditions.antt =====
-- src/allora_sdk/rpc_client/client_websocket_events.py: whether an event matches the conditions on its
-- attributes.
use allora_sdk_py.Prelude.{
  ◌-◌, Bool, true, false, ◌&&◌, ◌||◌, not, Option, none, some, List, [], ◌∷◌, ◌==◌, length, take,
  get_last?, if◌then◌else◌, get_or,
}
use allora_sdk_py.Prelude.Int.{ℤ, pos}
use allora_sdk_py.Tx.Errors.{Text, codes, text_eq, occurs}
use allora_sdk_py.Exec.{Reply, answer, fault}
use allora_sdk_py.Events.Value.{
  Value, null, bool, int, float, str, list, dict, no_values, no_fields, value, elements, values_of,
  get, is_null, iterate,
}
use allora_sdk_py.Subscriber.Query.{EventAttributeCondition}
use allora_sdk_py.Subscriber.State.{
  Failure, Host, get_event_class, FieldType, int_type, float_type, bool_type, str_type, other_type,
  list_of,
}

-- what follows a call that may raise; `none` is the exception
abbrev pub and_then : {A B : Type 0} → Option A → (A → Option B) → Option B
and_then none f = none
and_then (some a) f = f a

-- what a call answers; its exception is not told apart
unfoldable pub answered : {A : Type 0} → Reply Failure A → Option A
answered (answer a) = some a
answered (fault e) = none

-- `_strip_quotes` of the marshaler
unfoldable pub strip_quotes : Text → Text
strip_quotes [] = []
strip_quotes (c ∷ t) = if c == b'"' && ends_quoted t then take (length t - 1) t else c ∷ t
  where
    ends_quoted : Text → Bool
    ends_quoted t = elim (get_last? t) [ none ↦ false | some d ↦ d == b'"' ]

module _ (h : Host) where
  unfoldable pub strip_outer_quotes : Value h.F h.M → Value h.F h.M
  unfolding strip_quotes
  strip_outer_quotes (str t) = str (strip_quotes t)
  strip_outer_quotes v = v

  -- `s.isdigit() or (s.startswith('-') and s[1:].isdigit())`
  unfoldable pub is_int_text : Text → Bool
  is_int_text [] = h.is_digit_text []
  is_int_text (c ∷ t) = h.is_digit_text (c ∷ t) || (c == b'-' && h.is_digit_text t)

  -- `int` is applied to digits that it may not take, such as a superscript two, and then raises
  unfoldable pub to_int : Value h.F h.M → Option (Value h.F h.M)
  unfolding is_int_text answered
  to_int (str t) =
      if is_int_text t
      then and_then (answered (h.int_of (str t))) (λ n. some (int n))
      else some (str t)
  to_int v = some v

  unfoldable pub float_or_same : Text → Option h.F → Value h.F h.M
  float_or_same t none = str t
  float_or_same t (some x) = float x

  -- `float(n)` raises where `n` is too large
  unfoldable pub float_or_raise : ℤ → Option (Value h.F h.M)
  float_or_raise n = and_then (h.float_of_int n) (λ x. some (float x))

  unfoldable pub to_float : Value h.F h.M → Option (Value h.F h.M)
  unfolding float_or_same float_or_raise
  to_float (int n) = float_or_raise n
  to_float (bool true) = float_or_raise (pos 1)
  to_float (bool false) = float_or_raise (pos 0)
  to_float (str t) = some (float_or_same t (h.float_of_text t))
  to_float v = some v

  unfoldable pub to_bool : Value h.F h.M → Value h.F h.M
  unfolding text_eq
  to_bool (str t) =
      if text_eq t (codes "true")
      then bool true
      else if text_eq t (codes "false")
      then bool false
      else str t
  to_bool v = v

  unfoldable pub to_str : Value h.F h.M → Value h.F h.M
  to_str (str t) = str t
  to_str v = str (h.str_of v)

  -- `[f(v) for v in vs]`
  unfoldable pub coerce_all :
      (Value h.F h.M → Option (Value h.F h.M))
      → List (Value h.F h.M)
      → Option (List (Value h.F h.M))
  coerce_all f [] = some []
  coerce_all f (v ∷ vs) =
      let rest = coerce_all f vs in and_then (f v) (λ u. and_then rest (λ us. some (u ∷ us)))

  unfoldable pub coerce_list :
      (Value h.F h.M → Option (Value h.F h.M)) → Value h.F h.M → Option (Value h.F h.M)
  unfolding coerce_all elements values_of
  coerce_list f (list vs) = and_then (coerce_all f (elements vs)) (λ us. some (list (values_of us)))
  coerce_list f v = and_then (f v) (λ u. some (list (value u no_values)))

  unfoldable pub coerce_to : FieldType → Value h.F h.M → Option (Value h.F h.M)
  unfolding strip_outer_quotes to_int to_float to_bool to_str coerce_list
  coerce_to int_type v = to_int (strip_outer_quotes v)
  coerce_to float_type v = to_float (strip_outer_quotes v)
  coerce_to bool_type v = some (to_bool (strip_outer_quotes v))
  coerce_to str_type v = some (to_str (strip_outer_quotes v))
  coerce_to other_type v = some (strip_outer_quotes v)
  coerce_to (list_of t) v = coerce_list (coerce_to t) (strip_outer_quotes v)

  -- `_coerce_value_to_type`
  unfoldable pub coerce : Option FieldType → Value h.F h.M → Option (Value h.F h.M)
  unfolding coerce_to
  coerce none v = some (strip_outer_quotes v)
  coerce (some t) v = coerce_to t v

  unfoldable pub any : (Value h.F h.M → Bool) → List (Value h.F h.M) → Bool
  any p [] = false
  any p (v ∷ vs) = p v || any p vs

  unfoldable pub contains : Value h.F h.M → Value h.F h.M → Bool
  unfolding any occurs elements
  contains (list vs) v = any (λ u. h.equal u v) (elements vs)
  contains (str t) (str p) = occurs p t
  contains _ _ = false

  -- `_cmp`
  unfoldable pub compare_values : Text → Value h.F h.M → Value h.F h.M → Bool
  unfolding text_eq contains
  compare_values op a b =
      if text_eq op (codes "=")
      then h.equal a b
      else if text_eq op (codes "<")
      then get_or (h.less a b) false
      else if text_eq op (codes "<=")
      then get_or (h.less_equal a b) false
      else if text_eq op (codes ">")
      then get_or (h.less b a) false
      else if text_eq op (codes ">=")
      then get_or (h.less_equal b a) false
      else if text_eq op (codes "CONTAINS")
      then contains a b
      else false

  unfoldable pub compare_any : Text → Value h.F h.M → Value h.F h.M → Bool
  unfolding compare_values any elements
  compare_any op (list vs) right = any (λ v. compare_values op v right) (elements vs)
  compare_any op left right = compare_values op left right

  -- `_evaluate_operator`
  unfoldable pub evaluate_operator : Value h.F h.M → Text → Value h.F h.M → Bool
  unfolding compare_any is_null text_eq
  evaluate_operator left op right =
      if text_eq op (codes "EXISTS") then not (is_null left) else compare_any op left right

  unfoldable pub is_true : Value h.F h.M → Bool
  is_true null = false
  is_true (bool b) = b
  is_true (int (pos n)) = not (n == 0)
  is_true (float x) = not (h.is_zero_float x)
  is_true (str []) = false
  is_true (list no_values) = false
  is_true (dict no_fields) = false
  is_true _ = true

  -- `event_json.get('attributes') or []`
  unfoldable pub attribute_list : Value h.F h.M → Option (List (Value h.F h.M))
  unfolding is_true iterate
  attribute_list v = if is_true v then iterate v else some []

  -- an attribute whose key is no text matches no condition; a key that cannot be hashed raises
  unfoldable pub keyed :
      Value h.F h.M
      → Value h.F h.M
      → List (Text × Value h.F h.M)
      → Option (List (Text × Value h.F h.M))
  keyed (str k) v rest = some ((k, v) ∷ rest)
  keyed (list _) v rest = none
  keyed (dict _) v rest = none
  keyed _ v rest = some rest

  -- `values_by_key`
  unfoldable pub pairs : List (Value h.F h.M) → Option (List (Text × Value h.F h.M))
  unfolding keyed get
  pairs [] = some []
  pairs (a ∷ rest_of) =
      let rest = pairs rest_of in
      and_then (get a (codes "key") null)
        (λ k. and_then (get a (codes "value") null) (λ v. and_then rest (keyed k v)))

  unfoldable pub raw_values : Text → List (Text × Value h.F h.M) → List (Value h.F h.M)
  unfolding text_eq
  raw_values k [] = []
  raw_values k ((l, v) ∷ ps) = let rest = raw_values k ps in if text_eq k l then v ∷ rest else rest

  -- `_get_expected_field_type`
  unfoldable pub expected_field_type : Option h.Class → Text → Option FieldType
  expected_field_type none name = none
  expected_field_type (some cls) name = h.field_type cls name

  unfoldable pub holds_among :
      Option h.Class → EventAttributeCondition → List (Value h.F h.M) → Option Bool
  unfolding evaluate_operator coerce coerce_all expected_field_type text_eq values_of
  holds_among cls c [] = some false
  holds_among cls c (v ∷ vs) =
      if text_eq c.operator (codes "EXISTS")
      then some true
      else let t : Option FieldType = expected_field_type cls c.attribute_name in
        and_then (coerce_all (coerce t) (v ∷ vs)) (λ left.
          and_then (coerce t (str c.operand))
            (λ right. some (evaluate_operator (list (values_of left)) c.operator right)))

  -- the first condition that does not hold ends the loop
  abbrev pub and_also : Option Bool → Option Bool → Option Bool
  and_also first rest = and_then first (λ b. if b then rest else some false)

  unfoldable pub all_hold :
      Option h.Class → List EventAttributeCondition → List (Text × Value h.F h.M) → Option Bool
  unfolding holds_among raw_values
  all_hold cls [] ps = some true
  all_hold cls (c ∷ cs) ps =
      and_also (holds_among cls c (raw_values c.attribute_name ps)) (all_hold cls cs ps)

  -- `_event_matches_conditions_untyped`
  unfoldable pub matches_untyped : Text → List EventAttributeCondition → Value h.F h.M → Option Bool
  unfolding all_hold pairs attribute_list get get_event_class
  matches_untyped event_name conditions event =
      and_then (get event (codes "attributes") null) (λ found.
        and_then (attribute_list found)
          (λ l. and_then (pairs l) (all_hold (get_event_class h event_name) conditions)))

  unfoldable pub field_holds : h.Class → h.M → EventAttributeCondition → Option Bool
  unfolding evaluate_operator coerce is_null text_eq
  field_holds cls event c =
      let left : Value h.F h.M = h.field_of event c.attribute_name in
      if text_eq c.operator (codes "EXISTS")
      then some (not (is_null left))
      else and_then (coerce (h.field_type cls c.attribute_name) (str c.operand))
          (λ right. some (evaluate_operator left c.operator right))

  -- `_event_matches_conditions_typed`
  unfoldable pub matches_typed : h.Class → List EventAttributeCondition → h.M → Option Bool
  unfolding field_holds
  matches_typed cls [] event = some true
  matches_typed cls (c ∷ cs) event = and_also (field_holds cls event c) (matches_typed cls cs event)
