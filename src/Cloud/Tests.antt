-- ===== src/Cloud/Tests.antt =====
-- A small JSON library in the place of cJSON, and the theorems about DCMD messages at concrete
-- inputs.
use text.Mathlib.Text.{◌==◌ as str_eq}
use matter_hub.Prelude.{
  ℕ, codes, zero, suc, ◌≡◌, refl, List, [], ◌∷◌, ◌++◌, map, get_elem?, String, Bool, true, false,
  Option, none, some, arith, if◌then◌else◌,
}
use matter_hub.Prelude.Int.{ℤ, pos}
use matter_hub.Outcome.{ret}
use matter_hub.Text.{decimal}
use matter_hub.Text.Split.{join}
use matter_hub.Cloud.{Cjson, NodeType, json_true, json_false, json_other, dcmd_callback}
use matter_hub.Cloud.Commands.{
  Wish, InRange, Names, cmd, subscribe, name_of, work_of, dcmd_callback_schedules,
}
use matter_hub.Cloud.Writes.{HasType}
use matter_hub.OrderedMap.{find, text_key}
use matter_hub.Mqtt.{Manager, client_subscribe}
use matter_hub.Mqtt.Delayed.{connect}
use matter_hub.Interaction.{WriteValue, Work, Delivered}
use matter_hub.Interaction.Tests.{table}
use matter_hub.Reports.Tests.{sdk, peer}
use matter_hub.Chip.{Device}
use matter_hub.Mqtt.{event_data, mqtt_event_handler}
use matter_hub.Cloud.Delivered.{Callback, call_back, run_interactions, AllMeet}
use matter_hub.Cloud.Reached.{started, message_reaches_device}
use matter_hub.Cloud.Startup.{commands_filter, init_dcmd, init_dcmd-connect}

mutual
  data Json : Type 0 where
    quoted : List ℕ → Json
    num : ℤ → Json
    boolean : Bool → Json
    array : Items → Json
    object : Fields → Json

  data Items : Type 0 where
    nil : Items
    cons : Json → Items → Items

  data Fields : Type 0 where
    end : Fields
    field : String → Json → Fields → Fields

item_at : Items → ℕ → Option Json
item_at nil i = none
item_at (cons x xs) zero = some x
item_at (cons x xs) (suc i) = item_at xs i

size : Items → ℕ
size nil = 0
size (cons x xs) = suc (size xs)

field_of : Fields → String → Option Json
field_of end k = none
field_of (field j v fs) k = if str_eq j k then some v else field_of fs k

object_item : Option Json → String → Option Json
object_item (some (object fs)) k = field_of fs k
object_item _ k = none

array_size : Option Json → ℕ
array_size (some (array xs)) = size xs
array_size _ = 0

array_item : Option Json → ℕ → Option Json
array_item (some (array xs)) i = item_at xs i
array_item _ i = none

int_of : Json → ℤ
int_of (num z) = z
int_of _ = pos 0

text_of : Json → Option (List ℕ)
text_of (quoted s) = some s
text_of _ = none

type_of : Json → NodeType
type_of (boolean true) = json_true
type_of (boolean false) = json_false
type_of _ = json_other

abbrev toggle : Wish
toggle = record { action = cmd; endpoint = 1; cluster = 6; specific = 2 }

abbrev watch : Wish
watch = record { action = subscribe; endpoint = 1; cluster = 6; specific = 0 }

abbrev named : Wish → Json
named w = object (field "name" (quoted (name_of w)) end)

abbrev document : Json
document = object (field "metrics" (array (cons (named toggle) (cons (named watch) nil))) end)

-- Every text parses to the same document.
abbrev json : Cjson
json = record {
  Node = Json;
  Double = ℕ;
  parse_with_length = λ s. some document;
  get_object_item = object_item;
  get_array_size = array_size;
  get_array_item = array_item;
  value_int = int_of;
  value_string = text_of;
  value_double = λ x. 0;
  node_type = type_of;
}

toggle-InRange : InRange toggle
toggle-InRange = record { endpoint = omega arith; cluster = omega arith; specific = omega arith }

watch-InRange : InRange watch
watch-InRange = record { endpoint = omega arith; cluster = omega arith; specific = omega arith }

document-Names :
    (i : ℕ) (w : Wish)
    → get_elem? (toggle ∷ watch ∷ []) i ≡ some w
    → Names json (object_item (some document) "metrics") i w
unfolding object_item field_of array_item item_at text_of
document-Names zero w e =
    let e' : toggle ≡ w = ground arith in
    rw (← e') (record {
      item = quoted (name_of toggle);
      has_name = refl;
      is_text = refl;
      in_range = toggle-InRange;
    })
document-Names (suc zero) w e =
    let e' : watch ≡ w = ground arith in
    rw (← e') (record {
      item = quoted (name_of watch);
      has_name = refl;
      is_text = refl;
      in_range = watch-InRange;
    })
document-Names (suc (suc i)) w e = cc

document-size : array_size (object_item (some document) "metrics") ≡ 2
unfolding object_item field_of array_size size
document-size = refl

dcmd_callback_schedules_example :
    dcmd_callback json
      (join (codes "spBv1.0" ∷ codes "matterhub" ∷ codes "DCMD" ∷ codes "0" ∷ decimal 333 ∷ []))
      (codes "{}")
      []
    ≡ ret (map (work_of 333) (toggle ∷ watch ∷ []))
dcmd_callback_schedules_example =
    dcmd_callback_schedules json (codes "spBv1.0") (codes "matterhub") (codes "DCMD") (codes "0")
      (codes "{}") 333 (toggle ∷ watch ∷ []) [] (omega arith) (omega arith) document-size
      document-Names

abbrev sixteen : Json
sixteen = object (field "dataType" (quoted (codes "Int16")) (field "value" (num (pos 70000)) end))

abbrev truth : Json
truth = object (field "dataType" (quoted (codes "Boolean")) (field "value" (boolean true) end))

sixteen-HasType : HasType json sixteen (codes "Int16")
unfolding object_item field_of text_of
sixteen-HasType = record { item = quoted (codes "Int16"); has_type = refl; is_text = refl }

truth-HasType : HasType json truth (codes "Boolean")
unfolding object_item field_of text_of
truth-HasType = record { item = quoted (codes "Boolean"); has_type = refl; is_text = refl }

sixteen_int : int_of sixteen ≡ pos 0
unfolding int_of
sixteen_int = refl

truth_type : type_of truth ≡ json_other
unfolding type_of
truth_type = refl

abbrev starting : Manager ℕ
starting = record {
  initialised = true;
  connected = false;
  topic_callbacks = [];
  stored_commands = [];
  calls = [];
  freed = [];
}

init_dcmd-connect_example :
    ((connect (init_dcmd (pos 7) 1 starting)).calls
      ≡ ([] ++ []) ++ client_subscribe (commands_filter (pos 7)) ∷ [])
    × (find (commands_filter (pos 7)) (connect (init_dcmd (pos 7) 1 starting)).topic_callbacks
        ≡ some 1)
init_dcmd-connect_example = init_dcmd-connect (pos 7) 1 starting refl refl

abbrev fresh_manager : Manager (Callback ℕ)
fresh_manager = record {
  initialised = true;
  connected = false;
  topic_callbacks = [];
  stored_commands = [];
  calls = [];
  freed = [];
}

abbrev kept : WriteValue ℕ → WriteValue ℕ
kept v = v

abbrev one_device : ℕ → Option Device
one_device node = some peer

message_reaches_device_example :
    (works : List (Work ℕ)) × (ds : List (Delivered ℕ)) × (call_back
        (mqtt_event_handler
          (event_data
            (join
              (codes "spBv1.0" ∷ codes "matterhub" ∷ codes "DCMD" ∷ codes "0" ∷ decimal 333 ∷ []))
            (codes "{}"))
          (started json (pos 7) fresh_manager)).1
        []
      ≡ ret works)
    × (run_interactions sdk table kept one_device works ≡ ret ds)
    × AllMeet sdk table 6 7 (toggle ∷ watch ∷ []) ds
message_reaches_device_example =
    message_reaches_device json sdk table kept peer 6 7 one_device (pos 7) fresh_manager
      (codes "spBv1.0") (codes "matterhub") (codes "DCMD") (codes "0") (codes "{}") 333 333
      (toggle ∷ watch ∷ []) refl (λ e. omega arith) (λ e. omega arith) (λ e. omega arith) refl refl
      refl refl refl refl (omega arith) (omega arith) document-size document-Names
      ((λ e. refl), ((λ e. cc), tt))
