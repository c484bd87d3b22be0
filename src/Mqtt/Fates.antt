-- ===== src/Mqtt/Fates.antt =====
-- What becomes of each command that the MQTT manager of src/main/MQTTManager.cpp is given: an
-- account of a whole history that looks ahead for the next connection and keeps no store.
pub mod Accounted
pub mod Tests
use mathlib.Core.List.{append_assoc, map-append}
use matter_hub.Prelude.{
  ◌≡◌, ◌≢◌, ◌∙◌, ap, refl, List, [], ◌∷◌, ◌++◌, map, append-nil, Bool, true, false, if◌then◌else◌,
  ◌⊎◌, Bool-cases, inl, inr, arith,
}
use matter_hub.OrderedMap.{text_key, assign}
use matter_hub.Mqtt.{
  Manager, MqttCommandTask, MqttCommandData, publish, subscribe, unsubscribe, process_command,
  subscribe_with, MqttEvent, event_connected, event_disconnected, event_logged, event_data,
  mqtt_event_handler,
}
use matter_hub.Mqtt.Delayed.{
  connect, call_of, strings_for, strings_of, process_online, process_offline, publish_offline,
  connect_drains, strings_of-append,
}
use matter_hub.Mqtt.Invariant.{
  Happening, commanded, subscribed, notified, happen, happen_all, IsProper, IsSettled,
  command-IsSettled, subscribe-IsSettled, event-IsSettled,
}

-- A command reaches the client, waits for a connection, or is lost.
data Fate : Type 0 where
  reaches waits lost : Fate

is_sent : Fate → Bool
is_sent reaches = true
is_sent waits = false
is_sent lost = false

is_kept : Fate → Bool
is_kept reaches = false
is_kept waits = true
is_kept lost = false

-- Whether there is a connection, what the command does, and whether a connection comes up later.
fate : Bool → MqttCommandTask → Bool → Fate
fate true task later = reaches
fate false publish later = lost
fate false subscribe later = if later then reaches else waits
fate false unsubscribe later = if later then reaches else waits

module _ {C : Type 0} where
  comes_up : List (Happening C) → Bool
  comes_up [] = false
  comes_up (commanded c ∷ hs) = comes_up hs
  comes_up (subscribed c callback ∷ hs) = comes_up hs
  comes_up (notified event_connected ∷ hs) = true
  comes_up (notified event_disconnected ∷ hs) = comes_up hs
  comes_up (notified event_logged ∷ hs) = comes_up hs
  comes_up (notified (event_data topic message) ∷ hs) = comes_up hs

  -- The commands of a history with a fate, in their order.
  chosen : (Fate → Bool) → Bool → List (Happening C) → List MqttCommandData
  unfolding fate comes_up
  chosen p up [] = []
  chosen p up (commanded c ∷ hs) =
      let rest = chosen p up hs in if p (fate up c.task (comes_up hs)) then c ∷ rest else rest
  chosen p up (subscribed c callback ∷ hs) =
      let rest = chosen p up hs in if p (fate up c.task (comes_up hs)) then c ∷ rest else rest
  chosen p up (notified event_connected ∷ hs) = chosen p true hs
  chosen p up (notified event_disconnected ∷ hs) = chosen p false hs
  chosen p up (notified event_logged ∷ hs) = chosen p up hs
  chosen p up (notified (event_data topic message) ∷ hs) = chosen p up hs

  -- The commands that go to the client over a history, those that wait before it first, and those
  -- that wait after it.
  pub sent_over : Manager C → List (Happening C) → List MqttCommandData
  unfolding chosen comes_up is_sent
  sent_over s hs = (if comes_up hs then s.stored_commands else []) ++ chosen is_sent s.connected hs

  pub kept_over : Manager C → List (Happening C) → List MqttCommandData
  unfolding chosen comes_up is_kept
  kept_over s hs = (if comes_up hs then [] else s.stored_commands) ++ chosen is_kept s.connected hs

  -- Over a history from `s` to `t` the client got these calls, their strings were deleted, and the
  -- others wait.
  abbrev Accounts : Manager C → List (Happening C) → Manager C → Type 0
  Accounts s hs t =
      (t.calls ≡ s.calls ++ map call_of (sent_over s hs))
      × (t.freed ≡ s.freed ++ strings_of (sent_over s hs))
      × (t.stored_commands ≡ kept_over s hs)
