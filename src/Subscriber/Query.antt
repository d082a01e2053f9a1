-- ===== src/Subscriber/Query.antt =====
-- src/allora_sdk/rpc_client/client_websocket_events.py: the queries of the event service, and the
-- conditions on attributes.
use allora_sdk_py.Prelude.{
  Bool, true, false, Option, none, some, List, [], ◌∷◌, ◌++◌, if◌then◌else◌,
}
use allora_sdk_py.Tx.Errors.{Text, codes, text_eq}

pub record EventAttributeCondition : Type 0 where
  pub attribute_name : Text
  pub operator : Text
  pub operand : Text

unfoldable pub mem : Text → List Text → Bool
mem t [] = false
mem t (u ∷ us) = let rest = mem t us in if text_eq t u then true else rest

abbrev pub valid_operators : List Text
valid_operators =
    codes "="
    ∷ codes "<"
    ∷ codes "<="
    ∷ codes ">"
    ∷ codes ">="
    ∷ codes "CONTAINS"
    ∷ codes "EXISTS"
    ∷ []

-- the constructor; `none` is its `ValueError`
unfoldable pub condition : Text → Text → Text → Option EventAttributeCondition
unfolding mem
condition attribute_name operator operand =
    if mem operator valid_operators
    then some (record { attribute_name = attribute_name; operator = operator; operand = operand })
    else none

unfoldable pub to_query_condition : EventAttributeCondition → Text
to_query_condition c =
    if text_eq c.operator (codes "EXISTS")
    then c.attribute_name ++ codes " EXISTS"
    else c.attribute_name ++ codes " " ++ c.operator ++ codes " '" ++ c.operand ++ codes "'"

-- `EventFilter`: its conditions
abbrev pub EventFilter : Type 0
EventFilter = List Text

abbrev quoted : Text → Text → Text
quoted key operand = key ++ codes "='" ++ operand ++ codes "'"

unfoldable pub event_type : Text → EventFilter → EventFilter
event_type t f = f ++ quoted (codes "tm.event") t ∷ []

unfoldable pub message_action : Text → EventFilter → EventFilter
message_action t f = f ++ quoted (codes "message.action") t ∷ []

unfoldable pub message_module : Text → EventFilter → EventFilter
message_module t f = f ++ quoted (codes "message.module") t ∷ []

unfoldable pub sender : Text → EventFilter → EventFilter
sender address f = f ++ quoted (codes "message.sender") address ∷ []

-- a text, or a number by its digits
pub data AttributeValue : Type 0 where
  text : Text → AttributeValue
  number : Text → AttributeValue

unfoldable pub attribute : Text → AttributeValue → EventFilter → EventFilter
attribute key (text t) f = f ++ quoted key t ∷ []
attribute key (number t) f = f ++ (key ++ codes "=" ++ t) ∷ []

unfoldable pub custom : Text → EventFilter → EventFilter
custom query f = f ++ query ∷ []

-- `" AND ".join`
unfoldable pub join_and : List Text → Text
join_and [] = []
join_and (c ∷ []) = c
join_and (c ∷ d ∷ cs) = c ++ codes " AND " ++ join_and (d ∷ cs)

unfoldable pub to_query : EventFilter → Text
unfolding join_and
to_query [] = codes "tm.event='NewBlock'"
to_query (c ∷ cs) = join_and (c ∷ cs)

unfoldable pub new_blocks : EventFilter
unfolding event_type
new_blocks = event_type (codes "NewBlock") []

unfoldable pub new_block_headers : EventFilter
unfolding event_type
new_block_headers = event_type (codes "NewBlockHeader") []

unfoldable pub transactions : EventFilter
unfolding event_type
transactions = event_type (codes "Tx") []

-- `_new_block_headers().to_query()`
unfoldable pub heartbeat_query : Text
unfolding new_block_headers to_query
heartbeat_query = to_query new_block_headers

-- `event_filter.custom(...)` for each condition
unfoldable pub with_conditions : Text → List EventAttributeCondition → EventFilter → EventFilter
unfolding custom to_query_condition
with_conditions event_name [] f = f
with_conditions event_name (c ∷ cs) f =
    with_conditions event_name cs (custom (event_name ++ codes "." ++ to_query_condition c) f)

-- the query of `subscribe_new_block_events` and its typed variant
unfoldable pub block_events_query : Text → List EventAttributeCondition → Text
unfolding event_type with_conditions to_query
block_events_query event_name conditions =
    to_query (with_conditions event_name conditions (event_type (codes "NewBlockEvents") []))
