-- ===== src/Cloud/Writes.antt =====
-- The writes of handleWrite: which value goes out for which `dataType`.
use matter_hub.Prelude.{ℕ, codes, ◌≡◌, refl, ap, ◌∙◌, List, [], ◌∷◌, ◌++◌, some, arith}
use matter_hub.Prelude.Int.{ℤ, pos, to_unsigned, to_signed}
use matter_hub.Outcome.{ret}
use matter_hub.Interaction.{
  WriteValue, int_value, int16_value, int32_value, int64_value, uint8_value, uint16_value,
  uint32_value, uint64_value, writing, Work,
}
use matter_hub.Cloud.{Cjson, json_other, handle_write, write_signed, write_unsigned}

-- The integer types that a `dataType` can name.
pub data IntegerType : Type 0 where
  int8 int16 int32 int64 uint8 uint16 uint32 uint64 : IntegerType

abbrev pub type_name : IntegerType → List ℕ
type_name int8 = codes "Int8"
type_name int16 = codes "Int16"
type_name int32 = codes "Int32"
type_name int64 = codes "Int64"
type_name uint8 = codes "UInt8"
type_name uint16 = codes "UInt16"
type_name uint32 = codes "UInt32"
type_name uint64 = codes "UInt64"

-- The C++ value that is written: `Int8` alone is not narrowed to its type.
abbrev pub converted : {D : Type 0} → IntegerType → ℤ → WriteValue D
converted int8 v = int_value v
converted int16 v = int16_value (to_signed 16 v)
converted int32 v = int32_value (to_signed 32 v)
converted int64 v = int64_value (to_signed 64 v)
converted uint8 v = uint8_value (to_unsigned 8 v)
converted uint16 v = uint16_value (to_unsigned 16 v)
converted uint32 v = uint32_value (to_unsigned 32 v)
converted uint64 v = uint64_value (to_unsigned 64 v)

abbrev pub write_work : {D : Type 0} → ℕ → ℕ → ℕ → ℕ → WriteValue D → Work D
write_work node e k a v = record { fabric_id = 1; node_id = node; interaction = writing e k a v }

-- A zero of the C++ type.
abbrev pub zero_value : {D : Type 0} → (t : IntegerType) → WriteValue D
zero_value int8 = int_value (pos 0)
zero_value int16 = int16_value (pos 0)
zero_value int32 = int32_value (pos 0)
zero_value int64 = int64_value (pos 0)
zero_value uint8 = uint8_value 0
zero_value uint16 = uint16_value 0
zero_value uint32 = uint32_value 0
zero_value uint64 = uint64_value 0

-- `dataType` of the metric is the given text.
pub record HasType (J : Cjson) (metric : J.Node) (text : List ℕ) : Type 0 where
  pub item : J.Node
  pub has_type : J.get_object_item (some metric) "dataType" ≡ some item
  pub is_text : J.value_string item ≡ some text

module _ (J : Cjson) (node e k a : ℕ) (metric : J.Node) (queue : List (Work J.Double)) where
  both_chains :
      (t : IntegerType)
      → write_unsigned J node e k a metric
          (type_name t)
          (write_signed J node e k a metric (type_name t) queue)
        ≡ queue ++ write_work node e k a (converted t (J.value_int metric)) ∷ []
  unfolding write_unsigned write_signed
  both_chains int8 = refl
  both_chains int16 = refl
  both_chains int32 = refl
  both_chains int64 = refl
  both_chains uint8 = refl
  both_chains uint16 = refl
  both_chains uint32 = refl
  both_chains uint64 = refl

  handle_write-HasType :
      (text : List ℕ)
      → HasType J metric text
      → handle_write J node e k a (some metric) queue
        ≡ ret
            (write_unsigned J node e k a metric text (write_signed J node e k a metric text queue))
  unfolding handle_write
  handle_write-HasType text h = rw (h.has_type, handle_write) (rw h.is_text)

  -- For each integer type that `dataType` names, exactly one write is scheduled, by exactly one of
  -- the two chains of tests, and its value is the converted `valueint` of the metric itself.
  handle_write_integer :
      (t : IntegerType)
      → HasType J metric (type_name t)
      → handle_write J node e k a (some metric) queue
        ≡ ret (queue ++ write_work node e k a (converted t (J.value_int metric)) ∷ [])
  handle_write_integer t h = handle_write-HasType (type_name t) h ∙ ap ret (both_chains t)

  converted-zero : (t : IntegerType) → converted {D = J.Double} t (pos 0) ≡ zero_value t
  unfolding to_unsigned to_signed
  converted-zero int8 = refl
  converted-zero int16 = refl
  converted-zero int32 = refl
  converted-zero int64 = refl
  converted-zero uint8 = refl
  converted-zero uint16 = refl
  converted-zero uint32 = refl
  converted-zero uint64 = refl

  -- If cJSON leaves `valueint` of the metric at 0, as it does for an object, then the one write
  -- that is scheduled for an integer type is a write of zero, whatever `value` the metric has.
  handle_write_zero :
      (t : IntegerType)
      → HasType J metric (type_name t)
      → J.value_int metric ≡ pos 0
      → handle_write J node e k a (some metric) queue
        ≡ ret (queue ++ write_work node e k a (zero_value t) ∷ [])
  handle_write_zero t h object =
      handle_write_integer t h
      ∙ ap (λ v. ret (queue ++ write_work node e k a v ∷ []))
          (ap (converted t) object ∙ converted-zero t)

  boolean_object :
      J.node_type metric ≡ json_other
      → write_unsigned J node e k a metric
          (codes "Boolean")
          (write_signed J node e k a metric (codes "Boolean") queue)
        ≡ queue
  unfolding write_unsigned write_signed
  boolean_object object = ground arith

  -- For a metric that is neither cJSON_True nor cJSON_False itself, as no object is, and that says
  -- it is a Boolean, no write is scheduled.
  handle_write_boolean :
      HasType J metric (codes "Boolean")
      → J.node_type metric ≡ json_other
      → handle_write J node e k a (some metric) queue ≡ ret queue
  handle_write_boolean h object =
      handle_write-HasType (codes "Boolean") h ∙ ap ret (boolean_object object)
