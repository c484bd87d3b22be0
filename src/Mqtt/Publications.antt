-- ===== src/Mqtt/Publications.antt =====
-- A publication and a subscription with a callback, with the client up and running.
use matter_hub.Prelude.{◌≡◌, refl, [], ◌∷◌, ◌++◌, true, false, some, Bool-cases, inl, inr}
use matter_hub.OrderedMap.{assign, text_key}
use matter_hub.Mqtt.{
  Manager, MqttCommandData, publish, CString, client_publish, get_instance, process_command,
  dispatch, publish_command, perform, subscribe_with, subscribe_command, delay, init_mqtt_manager,
}

module _ {C : Type 0} (topic : CString) (payload : CString) (s : Manager C) where
  abbrev publication : MqttCommandData
  publication = record { task = publish; topic = topic; payload = some payload }

  instance_up : s.initialised ≡ true → get_instance s ≡ s
  unfolding get_instance
  instance_up up = rw up refl

  publish_up :
      s.initialised ≡ true
      → process_command publication (get_instance s) ≡ publish_command publication s
  unfolding process_command dispatch
  publish_up up = rw (instance_up up, instance_up up) refl

  pub publish_online :
      s.initialised ≡ true
      → s.connected ≡ true
      → process_command publication (get_instance s) ≡ record s {
        calls = s.calls ++ client_publish topic.text (some payload.text) ∷ [];
        freed = s.freed ++ payload ∷ topic ∷ [];
      }
  unfolding publish_command perform
  publish_online up on = rw (publish_up up) (rw (on, publish_command) refl)

pub subscription_offline :
    {C : Type 0} (c : MqttCommandData) (callback : C) (s : Manager C)
    → s.initialised ≡ true
    → s.connected ≡ false
    → subscribe_with c callback (get_instance s) ≡ record s {
      topic_callbacks = assign c.topic.text callback s.topic_callbacks;
      stored_commands = s.stored_commands ++ c ∷ [];
    }
unfolding subscribe_with subscribe_command delay get_instance
subscription_offline c callback s up off = rw (up, off) refl

-- The same for a manager that may not be set up yet: what it stores.
pub subscription_stored :
    {C : Type 0} (c : MqttCommandData) (callback : C) (s : Manager C)
    → s.connected ≡ false
    → ((subscribe_with c callback (get_instance s)).stored_commands ≡ s.stored_commands ++ c ∷ [])
      × ((subscribe_with c callback (get_instance s)).topic_callbacks
          ≡ assign c.topic.text callback s.topic_callbacks)
unfolding subscribe_with subscribe_command delay get_instance init_mqtt_manager
subscription_stored c callback s off = elim (Bool-cases s.initialised) [
  | inl up ↦ rw (up, off) (refl, refl)
  | inr down ↦ rw (down, off) (refl, refl)
]
