-- ===== src/Telemetry/Messages.antt =====
-- What a report does to the MQTT manager.
use matter_hub.Prelude.{ℕ, ◌≡◌, List, [], ◌∷◌, ◌++◌, true, false, some, ◌==◌}
use matter_hub.Mqtt.{Manager, client_publish}
use matter_hub.Mqtt.Publications.{publish_online}
use matter_hub.Telemetry.{
  Reader, TelemetryLibrary, AttributePath, data_topic, ddata_of, heap_string, telemetry_command,
  on_attribute_read_callback,
}

module _ {D C : Type 0} (lib : TelemetryLibrary D) (node : ℕ) (path : AttributePath) (r : Reader D)
    (first second : ℕ) (s : Manager C) where
  abbrev pub message : List ℕ
  message = lib.print (ddata_of (lib.element_type r.control_byte) path r first second)

  abbrev pub after : Manager C
  after = on_attribute_read_callback lib node path r first second s

  -- With a connection and a manager that is set up, a report whose type is known makes one call of
  -- the client: it publishes the printed message under the topic of the hub and the node. The two
  -- copied strings are freed and nothing else changes.
  pub report_published :
      s.initialised ≡ true
      → s.connected ≡ true
      → (r.control_byte == lib.control_byte_not_specified) ≡ false
      → after ≡ record s {
        calls = s.calls ++ client_publish (data_topic lib.hub_id node) (some message) ∷ [];
        freed = s.freed ++ heap_string message ∷ heap_string (data_topic lib.hub_id node) ∷ [];
      }
  unfolding on_attribute_read_callback telemetry_command
  report_published up on known = rw known (publish_online _ _ s up on)
