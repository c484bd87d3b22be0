-- ===== src/Cloud.antt =====
-- matterHub::CloudConnector of src/main/include/CloudConnector.h: the commands of the cloud, as
-- they come over MQTT, become work for InteractionModelHelper. cJSON is a parameter.
pub mod Commands
pub mod Writes
pub mod Startup
pub mod Delivered
pub mod Reached
pub mod Tests
use matter_hub.Prelude.{
  ℕ, String, codes, zero, suc, ◌≡◌, List, [], ◌∷◌, ◌++◌, length, Bool, true, false, ◌&&◌, Option,
  none, some, ltb, ◌==◌, if◌then◌else◌,
}
use matter_hub.OrderedMap.{text_eq}
use matter_hub.Prelude.Int.{ℤ, to_unsigned, to_signed}
use matter_hub.Outcome.{Outcome, ret, null_pointer, ◌>>=◌, or_fault, at, for_range}
use matter_hub.Text.{split, stoull, stoi}
use matter_hub.Interaction.{
  WriteValue, int_value, int16_value, int32_value, int64_value, uint8_value, uint16_value,
  uint32_value, uint64_value, bool_value, float_value, double_value, Work, subscribe, command, read,
  write,
}

-- The `type` of a node, as far as the code asks for it.
pub data NodeType : Type 0 where
  json_true json_false json_other : NodeType

-- What the code uses of cJSON. A null pointer is `none`, and `value_int`, `value_string`,
-- `value_double` and `node_type` are fields of its struct.
pub record Cjson : Type 1 where
  pub Node : Type 0
  pub Double : Type 0
  pub parse_with_length : List ℕ → Option Node
  pub get_object_item : Option Node → String → Option Node
  pub get_array_size : Option Node → ℕ
  pub get_array_item : Option Node → ℕ → Option Node
  pub value_int : Node → ℤ
  pub value_string : Node → Option (List ℕ)
  pub value_double : Node → Double
  pub node_type : Node → NodeType

-- The tokens of a text; the fuel of the loop never runs out.
unfoldable pub tokens : List ℕ → List (List ℕ)
unfolding split
tokens s = elim (split s) [ none ↦ [] | some ts ↦ ts ]

module _ (J : Cjson) where
  open J use {Node, Double, value_int, value_string, value_double, node_type}

  module _ (node_id endpoint_id cluster_id attribute_id : ℕ) (element : Node) where
    -- The first chain of tests on `dataType` in handleWrite.
    write_signed : List ℕ → List (Work Double) → List (Work Double)
    unfolding text_eq write
    write_signed data_type queue =
        let value = value_int element in
        if text_eq data_type (codes "Int8")
        then write node_id endpoint_id cluster_id attribute_id (int_value value) queue
        else if text_eq data_type (codes "Int16")
        then write node_id endpoint_id cluster_id attribute_id (int16_value (to_signed 16 value))
            queue
        else if text_eq data_type (codes "Int32")
        then write node_id endpoint_id cluster_id attribute_id (int32_value (to_signed 32 value))
            queue
        else if text_eq data_type (codes "Int64")
        then write node_id endpoint_id cluster_id attribute_id (int64_value (to_signed 64 value))
            queue
        else queue

    write_bool : NodeType → List (Work Double) → List (Work Double)
    unfolding write
    write_bool json_true queue =
        write node_id endpoint_id cluster_id attribute_id (bool_value true) queue
    write_bool json_false queue =
        write node_id endpoint_id cluster_id attribute_id (bool_value false) queue
    write_bool json_other queue = queue

    -- The second chain.
    write_unsigned : List ℕ → List (Work Double) → List (Work Double)
    unfolding text_eq write write_bool
    write_unsigned data_type queue =
        let value = value_int element in
        if text_eq data_type (codes "UInt8")
        then write node_id endpoint_id cluster_id attribute_id (uint8_value (to_unsigned 8 value))
            queue
        else if text_eq data_type (codes "UInt16")
        then write node_id endpoint_id cluster_id attribute_id (uint16_value (to_unsigned 16 value))
            queue
        else if text_eq data_type (codes "UInt32")
        then write node_id endpoint_id cluster_id attribute_id (uint32_value (to_unsigned 32 value))
            queue
        else if text_eq data_type (codes "UInt64")
        then write node_id endpoint_id cluster_id attribute_id (uint64_value (to_unsigned 64 value))
            queue
        else if text_eq data_type (codes "Boolean")
        then write_bool (node_type element) queue
        else if text_eq data_type (codes "float")
        then write node_id endpoint_id cluster_id attribute_id (float_value (value_double element))
            queue
        else if text_eq data_type (codes "double")
        then write node_id endpoint_id cluster_id attribute_id (double_value (value_double element))
            queue
        else queue

  -- handleWrite; a `dataType` that is no string has a null `valuestring`. A null metric has no
  -- `dataType`, since cJSON_GetObjectItem answers null for it.
  pub handle_write : ℕ → ℕ → ℕ → ℕ → Option Node → List (Work Double) → Outcome (List (Work Double))
  unfolding write_signed write_unsigned
  handle_write node_id endpoint_id cluster_id attribute_id element queue =
      elim (J.get_object_item element "dataType") [
        | none ↦ ret queue
        | some item ↦ do
          data_type ← or_fault (value_string item) null_pointer
          metric ← or_fault element null_pointer
          ret (
              write_unsigned node_id endpoint_id cluster_id attribute_id metric data_type
                (write_signed node_id endpoint_id cluster_id attribute_id metric data_type queue))
      ]

  -- What DCMD_callback does with the four parts of a metric's name.
  perform_action :
      ℕ → ℕ → ℕ → List ℕ → ℕ → Option Node → List (Work Double) → Outcome (List (Work Double))
  unfolding text_eq command read subscribe handle_write
  perform_action node_id endpoint_id cluster_id action id element queue =
      let queue' : List (Work Double) =
        if text_eq action (codes "cmd")
        then command node_id endpoint_id cluster_id id queue
        else queue in
      if text_eq action (codes "read")
      then ret (read node_id endpoint_id cluster_id id queue')
      else if text_eq action (codes "subscribe")
      then ret (subscribe node_id endpoint_id cluster_id id 1 10 queue')
      else if text_eq action (codes "write")
      then handle_write node_id endpoint_id cluster_id id element queue'
      else ret queue'

  perform_name : ℕ → List (List ℕ) → Option Node → List (Work Double) → Outcome (List (Work Double))
  unfolding perform_action
  perform_name node_id (endpoint ∷ cluster ∷ action ∷ specific ∷ []) element queue = do
    endpoint_id ← stoi endpoint
    cluster_id ← stoi cluster
    id ← stoi specific
    perform_action node_id (to_unsigned 16 endpoint_id) (to_unsigned 32 cluster_id) action
        (to_unsigned 32 id) element queue
  perform_name node_id _ element queue = ret queue

  -- The body of the loop over the metrics. A `name` that is no string has a null `valuestring`.
  metric_step : ℕ → Option Node → ℕ → List (Work Double) → Outcome (List (Work Double))
  unfolding perform_name tokens
  metric_step node_id metrics i queue =
      let element = J.get_array_item metrics i in
      elim (J.get_object_item element "name") [
        | none ↦ ret queue
        | some item ↦ do
          name ← or_fault (value_string item) null_pointer
          perform_name node_id (tokens name) element queue
      ]

  -- DCMD_callback
  pub dcmd_callback : List ℕ → List ℕ → List (Work Double) → Outcome (List (Work Double))
  unfolding metric_step tokens
  dcmd_callback topic message queue =
      let topic_split = tokens topic in
      if ltb (length topic_split) 5 then ret queue else do
        node ← at topic_split 4
        node_id ← stoull node
        let metrics = J.get_object_item (J.parse_with_length message) "metrics"
        for_range (J.get_array_size metrics) 0 (metric_step node_id metrics) queue
