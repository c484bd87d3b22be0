-- ===== src/Telemetry/Expected.antt =====
-- An independent description of the DDATA messages of src/main/include/CloudConnector.h: the message
-- that is due for a report.
use matter_hub.Prelude.{
  ℕ, ◌+◌, ◌%◌, ◌^◌, ◌≡◌, ◌∙◌, refl, List, [], ◌∷◌, ◌++◌, codes, take, true, false, none, some,
  arith,
}
use matter_hub.Prelude.Int.{ℤ}
use matter_hub.Text.{decimal, decimal_int, snprintf}
use matter_hub.Text.Split.{join}
use matter_hub.Telemetry.{
  ElementType, not_specified, int8, int16, int32, int64, uint8, uint16, uint32, uint64,
  boolean_false, boolean_true, floating_point_number32, floating_point_number64, utf8_string_1byte,
  utf8_string_2byte, utf8_string_4byte, utf8_string_8byte, byte_string_1byte, byte_string_2byte,
  byte_string_4byte, byte_string_8byte, null, structure, array, list, end_of_container, Reader,
  Metric, Ddata, signed_number, unsigned_number, number, boolean, quoted, AttributePath, data_topic,
  metric_name, buffer_length, byte_string, measured, with_value, ddata_of,
}

-- The types by what they hold; a number with its width.
pub data IsSigned : ElementType → ℕ → Type 0 where
  signed8 : IsSigned int8 8
  signed16 : IsSigned int16 16
  signed32 : IsSigned int32 32
  signed64 : IsSigned int64 64

pub data IsUnsigned : ElementType → ℕ → Type 0 where
  unsigned8 : IsUnsigned uint8 8
  unsigned16 : IsUnsigned uint16 16
  unsigned32 : IsUnsigned uint32 32
  unsigned64 : IsUnsigned uint64 64

pub data IsBytes : ElementType → Type 0 where
  bytes1 : IsBytes byte_string_1byte
  bytes2 : IsBytes byte_string_2byte
  bytes4 : IsBytes byte_string_4byte
  bytes8 : IsBytes byte_string_8byte

-- The types that are reported without a value.
pub data IsBare : ElementType → Type 0 where
  bare_unspecified : IsBare not_specified
  bare_utf1 : IsBare utf8_string_1byte
  bare_utf2 : IsBare utf8_string_2byte
  bare_utf4 : IsBare utf8_string_4byte
  bare_utf8 : IsBare utf8_string_8byte
  bare_null : IsBare null
  bare_structure : IsBare structure
  bare_array : IsBare array
  bare_list : IsBare list
  bare_end : IsBare end_of_container

-- The type and the value of a metric, for what a reader reads at an element.
pub data Carries {D : Type 0} (r : Reader D) (m : Metric D) : ElementType → Type 0 where
  carries_signed :
      (t : ElementType) (w : ℕ)
      → IsSigned t w
      → m.data_type ≡ some (codes "Int" ++ decimal w)
      → m.value ≡ some (signed_number (r.get_signed w))
      → Carries r m t
  carries_unsigned :
      (t : ElementType) (w : ℕ)
      → IsUnsigned t w
      → m.data_type ≡ some (codes "UInt" ++ decimal w)
      → m.value ≡ some (unsigned_number (r.get_unsigned w))
      → Carries r m t
  carries_false :
      m.data_type ≡ some (codes "Boolean")
      → m.value ≡ some (boolean false)
      → Carries r m boolean_false
  carries_true :
      m.data_type ≡ some (codes "Boolean")
      → m.value ≡ some (boolean true)
      → Carries r m boolean_true
  carries_float :
      m.data_type ≡ some (codes "float")
      → m.value ≡ some (number r.get_float)
      → Carries r m floating_point_number32
  carries_double :
      m.data_type ≡ some (codes "double")
      → m.value ≡ some (number r.get_double)
      → Carries r m floating_point_number64
  carries_bytes :
      (t : ElementType)
      → IsBytes t
      → m.data_type ≡ some (codes "String")
      → m.value ≡ some (quoted (r.get_string ((r.get_length + 1) % 2 ^ 16)))
      → Carries r m t
  carries_nothing :
      (t : ElementType) → IsBare t → m.data_type ≡ none → m.value ≡ none → Carries r m t

-- The message for a report that is read between two readings of the clock. A buffer of 256 bytes
-- cuts the name off after 255 characters.
pub record IsMessage {D : Type 0} (type : ElementType) (path : AttributePath) (r : Reader D)
    (first second : ℕ) (d : Ddata D) : Type 0 where
  pub sent_at : d.timestamp ≡ first
  pub read_at : d.metric.timestamp ≡ second
  pub named :
      d.metric.name
      ≡ take 255 (
          join
            (decimal path.endpoint_id ∷ decimal path.cluster_id ∷ decimal path.attribute_id ∷ []))
  pub carries : Carries r d.metric type

-- The topic of a device's reports.
abbrev pub report_topic : ℤ → ℕ → List ℕ
report_topic hub_id node = take 255 (
    join (
      codes "spBv1.0" ∷ codes "matterhub" ∷ codes "DDATA" ∷ decimal_int hub_id ∷ decimal node ∷ []))

pub data_topic-report_topic :
    (hub_id : ℤ) (node : ℕ) → data_topic hub_id node ≡ report_topic hub_id node
unfolding data_topic snprintf join
data_topic-report_topic hub_id node = refl

module _ {D : Type 0} (path : AttributePath) (r : Reader D) (first second : ℕ) where
  wrapped : buffer_length r.get_length ≡ (r.get_length + 1) % 2 ^ 16
  unfolding buffer_length
  wrapped = omega arith

  ddata_of-Carries :
      (type : ElementType) → Carries r (ddata_of type path r first second).metric type
  unfolding ddata_of measured with_value byte_string decimal
  ddata_of-Carries int8 = carries_signed int8 8 signed8 refl refl
  ddata_of-Carries int16 = carries_signed int16 16 signed16 refl refl
  ddata_of-Carries int32 = carries_signed int32 32 signed32 refl refl
  ddata_of-Carries int64 = carries_signed int64 64 signed64 refl refl
  ddata_of-Carries uint8 = carries_unsigned uint8 8 unsigned8 refl refl
  ddata_of-Carries uint16 = carries_unsigned uint16 16 unsigned16 refl refl
  ddata_of-Carries uint32 = carries_unsigned uint32 32 unsigned32 refl refl
  ddata_of-Carries uint64 = carries_unsigned uint64 64 unsigned64 refl refl
  ddata_of-Carries boolean_false = carries_false refl refl
  ddata_of-Carries boolean_true = carries_true refl refl
  ddata_of-Carries floating_point_number32 = carries_float refl refl
  ddata_of-Carries floating_point_number64 = carries_double refl refl
  ddata_of-Carries byte_string_1byte = carries_bytes byte_string_1byte bytes1 refl (rw wrapped refl)
  ddata_of-Carries byte_string_2byte = carries_bytes byte_string_2byte bytes2 refl (rw wrapped refl)
  ddata_of-Carries byte_string_4byte = carries_bytes byte_string_4byte bytes4 refl (rw wrapped refl)
  ddata_of-Carries byte_string_8byte = carries_bytes byte_string_8byte bytes8 refl (rw wrapped refl)
  ddata_of-Carries not_specified = carries_nothing not_specified bare_unspecified refl refl
  ddata_of-Carries utf8_string_1byte = carries_nothing utf8_string_1byte bare_utf1 refl refl
  ddata_of-Carries utf8_string_2byte = carries_nothing utf8_string_2byte bare_utf2 refl refl
  ddata_of-Carries utf8_string_4byte = carries_nothing utf8_string_4byte bare_utf4 refl refl
  ddata_of-Carries utf8_string_8byte = carries_nothing utf8_string_8byte bare_utf8 refl refl
  ddata_of-Carries null = carries_nothing null bare_null refl refl
  ddata_of-Carries structure = carries_nothing structure bare_structure refl refl
  ddata_of-Carries array = carries_nothing array bare_array refl refl
  ddata_of-Carries list = carries_nothing list bare_list refl refl
  ddata_of-Carries end_of_container = carries_nothing end_of_container bare_end refl refl

  with_value-keeps :
      (type : ElementType)
      → ((ddata_of type path r first second).metric.name ≡ metric_name path)
        × ((ddata_of type path r first second).metric.timestamp ≡ second)
  unfolding ddata_of with_value
  with_value-keeps type =
      elim (measured type r)
        as (λ v.
          ((with_value
              (record {
                name = metric_name path;
                timestamp = second;
                data_type = none;
                value = none;
              })
              v).name
            ≡ metric_name path)
          × ((with_value
                (record {
                  name = metric_name path;
                  timestamp = second;
                  data_type = none;
                  value = none;
                })
                v).timestamp
              ≡ second)) [ none ↦ (refl, refl) | some (data_type, value) ↦ (refl, refl) ]

  name-joined :
      metric_name path
      ≡ take 255 (
          join
            (decimal path.endpoint_id ∷ decimal path.cluster_id ∷ decimal path.attribute_id ∷ []))
  unfolding metric_name snprintf join
  name-joined = refl

  pub ddata_of-IsMessage :
      (type : ElementType) → IsMessage type path r first second (ddata_of type path r first second)
  unfolding ddata_of
  ddata_of-IsMessage type =
      let (named, at) = with_value-keeps type in
      record {
        sent_at = refl;
        read_at = at;
        named = named ∙ name-joined;
        carries = ddata_of-Carries type;
      }
