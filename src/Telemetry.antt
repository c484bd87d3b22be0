-- ===== src/Telemetry.antt =====
-- onAttributeReadCallback of src/main/include/CloudConnector.h: an attribute report becomes a DDATA
-- message. The TLV reader, cJSON's printer and the clock are parameters.
pub mod Topics
pub mod Messages
pub mod Expected
pub mod Reported
pub mod Tests
use matter_hub.Prelude.{
  ℕ, zero, suc, ◌+◌, ◌%◌, ◌^◌, List, [], ◌∷◌, ◌++◌, codes, Bool, true, false, Option, none, some,
  ◌==◌, if◌then◌else◌,
}
use matter_hub.Prelude.Int.{ℤ}
use matter_hub.Text.{decimal, decimal_int, snprintf, slash}
use matter_hub.Mqtt.{
  Manager, MqttCommandData, publish, CString, heap, get_instance, process_command,
}

-- chip::TLV::TLVElementType, the constants that the switch lists.
pub data ElementType : Type 0 where
  not_specified : ElementType
  int8 int16 int32 int64 uint8 uint16 uint32 uint64 : ElementType
  boolean_false boolean_true : ElementType
  floating_point_number32 floating_point_number64 : ElementType
  utf8_string_1byte utf8_string_2byte utf8_string_4byte utf8_string_8byte : ElementType
  byte_string_1byte byte_string_2byte byte_string_4byte byte_string_8byte : ElementType
  null structure array list end_of_container : ElementType

-- What a TLVReader at an element answers: `get_signed w` and `get_unsigned w` what `Get` stores in
-- a variable of w bits, and `get_string n` the C string that `GetString` leaves in a buffer of n
-- bytes.
pub record Reader (D : Type 0) : Type 0 where
  pub control_byte : ℕ
  pub get_signed : ℕ → ℤ
  pub get_unsigned : ℕ → ℕ
  pub get_float : D
  pub get_double : D
  pub get_length : ℕ
  pub get_string : ℕ → List ℕ

-- A value that is added to a cJSON object.
pub data MetricValue (D : Type 0) : Type 0 where
  signed_number : ℤ → MetricValue D
  unsigned_number : ℕ → MetricValue D
  number : D → MetricValue D
  boolean : Bool → MetricValue D
  quoted : List ℕ → MetricValue D

-- The items of the one metric, and of the message; `none` is an item that is not added.
pub record Metric (D : Type 0) : Type 0 where
  pub name : List ℕ
  pub timestamp : ℕ
  pub data_type : Option (List ℕ)
  pub value : Option (MetricValue D)

pub record Ddata (D : Type 0) : Type 0 where
  pub timestamp : ℕ
  pub metric : Metric D

-- `element_type` is the cast of the control byte under kTLVTypeMask; `print` is cJSON_Print; and
-- `hub_id` is CONFIG_MATTERHUBID.
pub record TelemetryLibrary (D : Type 0) : Type 0 where
  pub control_byte_not_specified : ℕ
  pub element_type : ℕ → ElementType
  pub print : Ddata D → List ℕ
  pub hub_id : ℤ

-- The attribute that is reported.
pub record AttributePath : Type 0 where
  pub endpoint_id : ℕ
  pub cluster_id : ℕ
  pub attribute_id : ℕ

-- "spBv1.0/matterhub/DDATA/%d/%llu"
pub data_topic : ℤ → ℕ → List ℕ
unfolding snprintf
data_topic hub_id node_id =
    snprintf 256
      (codes "spBv1.0/matterhub/DDATA/" ++ (decimal_int hub_id ++ (slash ++ decimal node_id)))

-- "%u/%u/%u"
pub metric_name : AttributePath → List ℕ
unfolding snprintf
metric_name p = snprintf 256 (
    decimal p.endpoint_id ++ (slash ++ (decimal p.cluster_id ++ (slash ++ decimal p.attribute_id))))

-- `uint16_t length = data->GetLength(); length++;`
pub buffer_length : ℕ → ℕ
buffer_length n = (n % 2 ^ 16 + 1) % 2 ^ 16

-- A string that is copied with `new`.
abbrev pub heap_string : List ℕ → CString
heap_string s = record { text = s; origin = heap }

module _ {D : Type 0} where
  byte_string : Reader D → Option (List ℕ × MetricValue D)
  unfolding buffer_length
  byte_string r = some (codes "String", quoted (r.get_string (buffer_length r.get_length)))

  -- The switch: the items `dataType` and `value`.
  pub measured : ElementType → Reader D → Option (List ℕ × MetricValue D)
  unfolding byte_string
  measured int8 r = some (codes "Int8", signed_number (r.get_signed 8))
  measured int16 r = some (codes "Int16", signed_number (r.get_signed 16))
  measured int32 r = some (codes "Int32", signed_number (r.get_signed 32))
  measured int64 r = some (codes "Int64", signed_number (r.get_signed 64))
  measured uint8 r = some (codes "UInt8", unsigned_number (r.get_unsigned 8))
  measured uint16 r = some (codes "UInt16", unsigned_number (r.get_unsigned 16))
  measured uint32 r = some (codes "UInt32", unsigned_number (r.get_unsigned 32))
  measured uint64 r = some (codes "UInt64", unsigned_number (r.get_unsigned 64))
  measured boolean_false r = some (codes "Boolean", boolean false)
  measured boolean_true r = some (codes "Boolean", boolean true)
  measured floating_point_number32 r = some (codes "float", number r.get_float)
  measured floating_point_number64 r = some (codes "double", number r.get_double)
  measured byte_string_1byte r = byte_string r
  measured byte_string_2byte r = byte_string r
  measured byte_string_4byte r = byte_string r
  measured byte_string_8byte r = byte_string r
  measured not_specified r = none
  measured utf8_string_1byte r = none
  measured utf8_string_2byte r = none
  measured utf8_string_4byte r = none
  measured utf8_string_8byte r = none
  measured null r = none
  measured structure r = none
  measured array r = none
  measured list r = none
  measured end_of_container r = none

  with_value : Metric D → Option (List ℕ × MetricValue D) → Metric D
  with_value m none = m
  with_value m (some (data_type, value)) = record m {
    data_type = some data_type;
    value = some value;
  }

  -- The message; `first` and `second` are the two readings of the clock.
  pub ddata_of : ElementType → AttributePath → Reader D → ℕ → ℕ → Ddata D
  unfolding measured with_value metric_name
  ddata_of type path r first second = record {
    timestamp = first;
    metric =
        with_value
          (record { name = metric_name path; timestamp = second; data_type = none; value = none })
          (measured type r);
  }

  -- The command that is handed to the MQTT manager.
  pub telemetry_command :
      TelemetryLibrary D → ℕ → AttributePath → Reader D → ℕ → ℕ → MqttCommandData
  unfolding data_topic ddata_of
  telemetry_command lib node_id path r first second = record {
    task = publish;
    topic = heap_string (data_topic lib.hub_id node_id);
    payload =
        some (
          heap_string (lib.print (ddata_of (lib.element_type r.control_byte) path r first second)));
  }

  unfoldable pub on_attribute_read_callback :
      {C : Type 0}
      → TelemetryLibrary D
      → ℕ
      → AttributePath
      → Reader D
      → ℕ
      → ℕ
      → Manager C
      → Manager C
  unfolding telemetry_command get_instance process_command
  on_attribute_read_callback lib node_id path r first second s =
      if r.control_byte == lib.control_byte_not_specified
      then s
      else process_command (telemetry_command lib node_id path r first second) (get_instance s)
