-- ===== src/Cloud/Startup.antt =====
-- InitDCMD of src/main/include/CloudConnector.h: the subscription to the commands of this hub.
use mathlib.Core.List.{append_assoc, map-append}
use matter_hub.Prelude.{
  ℕ, ◌≡◌, refl, List, [], ◌∷◌, ◌++◌, codes, map, take, true, false, none, some,
}
use matter_hub.Prelude.Int.{ℤ}
use matter_hub.Text.{decimal_int, snprintf}
use matter_hub.Text.Split.{join}
use matter_hub.OrderedMap.{find, assign, find-assign_self, text_key}
use matter_hub.Mqtt.{
  Manager, MqttCommandData, subscribe, CString, heap, get_instance, subscribe_with,
  client_subscribe,
}
use matter_hub.Mqtt.Delayed.{connect, call_of, connect_drains}
use matter_hub.Mqtt.Publications.{subscription_offline}

pub dcmd_topic : ℤ → CString
unfolding decimal_int snprintf
dcmd_topic hub_id = record {
  text = snprintf 256 (codes "spBv1.0/matterhub/DCMD/" ++ (decimal_int hub_id ++ codes "/+"));
  origin = heap;
}

abbrev pub dcmd_command : ℤ → MqttCommandData
dcmd_command hub_id = record { task = subscribe; topic = dcmd_topic hub_id; payload = none }

-- `callback` is DCMD_callback.
unfoldable pub init_dcmd : {C : Type 0} → ℤ → C → Manager C → Manager C
init_dcmd hub_id callback s = subscribe_with (dcmd_command hub_id) callback (get_instance s)

-- The filter of the hub's commands to its devices: five levels, the last of which stands for any
-- device, in a buffer of 256 bytes, which cuts them off after 255 characters.
abbrev pub commands_filter : ℤ → List ℕ
commands_filter hub_id = take 255 (
    join (codes "spBv1.0" ∷ codes "matterhub" ∷ codes "DCMD" ∷ decimal_int hub_id ∷ codes "+" ∷ []))

dcmd_topic-commands_filter : (hub_id : ℤ) → (dcmd_topic hub_id).text ≡ commands_filter hub_id
unfolding dcmd_topic snprintf join
dcmd_topic-commands_filter hub_id = refl

-- A hub whose manager is set up without a connection subscribes, as soon as the connection comes
-- up and after what was stored before, to one filter, of the levels spBv1.0, matterhub, DCMD, its
-- own id in decimal and +, cut off after 255 characters; and the callback is then registered for
-- that filter.
pub init_dcmd-connect :
    {C : Type 0} (hub_id : ℤ) (callback : C) (s : Manager C)
    → s.initialised ≡ true
    → s.connected ≡ false
    → ((connect (init_dcmd hub_id callback s)).calls
        ≡ (s.calls ++ map call_of s.stored_commands)
          ++ client_subscribe (commands_filter hub_id) ∷ [])
      × (find (commands_filter hub_id) (connect (init_dcmd hub_id callback s)).topic_callbacks
          ≡ some callback)
unfolding init_dcmd
init_dcmd-connect hub_id callback s up off =
    rw
      (
        ← dcmd_topic-commands_filter hub_id,
        subscription_offline (dcmd_command hub_id) callback s up off,
      )
      (let started : Manager _ = record s {
        topic_callbacks = assign (dcmd_topic hub_id).text callback s.topic_callbacks;
        stored_commands = s.stored_commands ++ dcmd_command hub_id ∷ [];
      } in
        rw (connect_drains started up) (
          simp (map-append, append_assoc),
          find-assign_self (dcmd_topic hub_id).text callback s.topic_callbacks,
        ))
