-- ===== src/Mqtt/Tests.antt =====
-- The theorems about the MQTT manager at concrete inputs.
use mathlib.Core.List.{Mem}
use matter_hub.Prelude.{ℕ, codes, ◌≡◌, refl, ◌≢◌, List, [], ◌∷◌, map, true, false, none, some, inl}
use matter_hub.Mqtt.{
  Manager, MqttCommandData, publish, subscribe, unsubscribe, CString, heap, argument,
  event_connected, event_disconnected, mqtt_sub_handler, shell_argument,
  mqtt_command_worker_function,
}
use matter_hub.Mqtt.Delayed.{process_all, connect, connect_drains, process_all-connect, call_of}
use matter_hub.Mqtt.Invariant.{
  Happening, commanded, subscribed, notified, happen_all, IsSettled, happen_all-IsSettled,
}
use matter_hub.Mqtt.Memory.{shell_argument_deleted}

abbrev pub owned : List ℕ → CString
owned text = record { text = text; origin = heap }

abbrev pub sub : List ℕ → MqttCommandData
sub topic = record { task = subscribe; topic = owned topic; payload = none }

abbrev pub unsub : List ℕ → MqttCommandData
unsub topic = record { task = unsubscribe; topic = owned topic; payload = none }

abbrev pub pub_to : List ℕ → List ℕ → MqttCommandData
pub_to topic text = record { task = publish; topic = owned topic; payload = some (owned text) }

-- Callbacks are numbers here.
abbrev pub offline : Manager ℕ
offline = record {
  initialised = true;
  connected = false;
  topic_callbacks = [];
  stored_commands = unsub (codes "old") ∷ [];
  calls = [];
  freed = [];
}

abbrev online : Manager ℕ
online = record offline { connected = true; stored_commands = [] }

connect_drains_example : connect offline ≡ record offline {
  connected = true;
  stored_commands = [];
  calls = map call_of (unsub (codes "old") ∷ []);
  freed = owned (codes "old") ∷ [];
}
connect_drains_example = connect_drains offline refl

sub_not_publish : (topic : List ℕ) → (sub topic).task ≢ publish
sub_not_publish topic e = cc

pub unsub_not_publish : (topic : List ℕ) → (unsub topic).task ≢ publish
unsub_not_publish topic e = cc

process_all-connect_example :
    connect (process_all (sub (codes "a") ∷ unsub (codes "b") ∷ []) offline)
    ≡ process_all (sub (codes "a") ∷ unsub (codes "b") ∷ []) (connect offline)
process_all-connect_example =
    process_all-connect (sub (codes "a") ∷ unsub (codes "b") ∷ []) offline refl refl
      (sub_not_publish (codes "a"), (unsub_not_publish (codes "b"), tt))

abbrev history : List (Happening ℕ)
history =
    subscribed (sub (codes "a")) 5
    ∷ notified event_connected
    ∷ commanded (pub_to (codes "a") (codes "x"))
    ∷ notified event_disconnected
    ∷ commanded (sub (codes "c"))
    ∷ []

happen_all-IsSettled_example : IsSettled (happen_all offline history)
happen_all-IsSettled_example =
    happen_all-IsSettled offline history (refl, tt)
      (record {
        up = refl;
        nothing_waits = λ e. cc;
        no_publication = (unsub_not_publish (codes "old"), tt);
      })

shell_sub :
    mqtt_sub_handler ((codes "a") ∷ [])
    ≡ some (record { task = subscribe; topic = argument (codes "a"); payload = none })
unfolding mqtt_sub_handler
shell_sub = refl

shell_argument_deleted_example :
    ((argument (codes "a")).origin ≡ shell_argument)
    × Mem
        (argument (codes "a"))
        (mqtt_command_worker_function
          (some (record { task = subscribe; topic = argument (codes "a"); payload = none }))
          online).freed
shell_argument_deleted_example =
    shell_argument_deleted (codes "a" ∷ [])
      (record { task = subscribe; topic = argument (codes "a"); payload = none }) online
      (inl shell_sub) refl refl
