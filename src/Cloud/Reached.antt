-- ===== src/Cloud/Reached.antt =====
-- From the broker to the device: a message of the cloud goes through the event handler of
-- src/main/MQTTManager.cpp, DCMD_callback of src/main/include/CloudConnector.h, the work queue, and the
-- callbacks of src/main/InteractionModelHelper.cpp.
use matter_hub.Prelude.{
  ℕ, ◌^◌, ◌<◌, ◌≡◌, refl, ◌≢◌, List, [], ◌∷◌, ◌++◌, map, length, get_elem?, true, false, Option,
  some, ◌==◌,
}
use matter_hub.Prelude.Int.{ℤ}
use matter_hub.Outcome.{ret}
use matter_hub.Chip.{Device}
use matter_hub.Text.{decimal}
use matter_hub.Text.Split.{join, NoneHasSlash}
use matter_hub.OrderedMap.{assign, text_key}
use matter_hub.Reports.{ReportLibrary}
use matter_hub.Interaction.{WriteValue, Work, ConnectionLibrary, Delivered}
use matter_hub.Mqtt.{Manager, event_data, mqtt_event_handler}
use matter_hub.Mqtt.Delayed.{connect, connect_drains}
use matter_hub.Mqtt.Publications.{subscription_offline}
use matter_hub.Cloud.{Cjson, dcmd_callback}
use matter_hub.Cloud.Commands.{Wish, work_of, Names, dcmd_callback_schedules}
use matter_hub.Cloud.Startup.{dcmd_topic, dcmd_command, init_dcmd}
use matter_hub.Cloud.Delivered.{
  Callback, call_back, run_interactions, OnlyOnOff, AllMeet, wishes-AllMeet,
}

module _ (J : Cjson) where
  open J use {Double}

  abbrev pub started : ℤ → Manager (Callback Double) → Manager (Callback Double)
  started hub_id s = connect (init_dcmd hub_id (dcmd_callback J) s)

  started_callbacks :
      (hub_id : ℤ) (s : Manager (Callback Double))
      → s.initialised ≡ true
      → s.connected ≡ false
      → s.topic_callbacks ≡ []
      → (started hub_id s).topic_callbacks ≡ ((dcmd_topic hub_id).text, dcmd_callback J) ∷ []
  unfolding init_dcmd assign
  started_callbacks hub_id s up apart none_yet =
      rw (subscription_offline (dcmd_command hub_id) (dcmd_callback J) s up apart) (
        let waiting : Manager (Callback Double) = record s {
          topic_callbacks = assign (dcmd_topic hub_id).text (dcmd_callback J) s.topic_callbacks;
          stored_commands = s.stored_commands ++ dcmd_command hub_id ∷ [];
        } in
        rw (connect_drains waiting up) (rw none_yet refl))

  message_schedules :
      (hub_id : ℤ) (s : Manager (Callback Double)) (topic message : List ℕ)
      (queue result : List (Work Double))
      → s.initialised ≡ true
      → s.connected ≡ false
      → s.topic_callbacks ≡ []
      → dcmd_callback J topic message queue ≡ ret result
      → call_back (mqtt_event_handler (event_data topic message) (started hub_id s)).1 queue
        ≡ ret result
  unfolding mqtt_event_handler call_back
  message_schedules hub_id s topic message queue result up apart none_yet scheduled =
      rw (started_callbacks hub_id s up apart none_yet) (rw scheduled refl)

  -- A hub whose manager is set up without a connection and without a callback starts its cloud
  -- connector, and the connection comes up. Then a message on a topic of five tokens, the last of them
  -- a node, with any number of metrics that name an action without a value, reaches the device of the
  -- node: the event handler and DCMD_callback schedule work without a fault, and for a node that has a
  -- peer, whose device connects and has a session, the run of the work queue asks the device exactly
  -- what the metrics wish, one answer for each in their order. The commands are of the OnOff
  -- cluster: Off, On or Toggle is sent on the session to the endpoint, and a command of another id is
  -- ignored. A reading or a subscription makes the request on the session for the one path that it
  -- names. The ids of Off, On and Toggle are distinct.
  pub message_reaches_device :
      (lib : ReportLibrary) (c : ConnectionLibrary) (recall : WriteValue Double → WriteValue Double)
      (device : Device) (on_off_id session : ℕ) (devices : ℕ → Option Device) (hub_id : ℤ)
      (s : Manager (Callback Double)) (t0 t1 t2 t3 message : List ℕ) (node peer : ℕ)
      (ws : List Wish)
      → device.secure_session ≡ some session
      → c.off_id ≢ c.on_id
      → c.off_id ≢ c.toggle_id
      → c.on_id ≢ c.toggle_id
      → c.peer_id_for_node 1 node ≡ some peer
      → (peer == c.undefined_node_id) ≡ false
      → devices peer ≡ some device
      → s.initialised ≡ true
      → s.connected ≡ false
      → s.topic_callbacks ≡ []
      → NoneHasSlash (t0 ∷ t1 ∷ t2 ∷ t3 ∷ [])
      → node < 2 ^ 64
      → J.get_array_size (J.get_object_item (J.parse_with_length message) "metrics") ≡ length ws
      → ((i : ℕ) (w : Wish)
          → get_elem? ws i ≡ some w
          → Names J (J.get_object_item (J.parse_with_length message) "metrics") i w)
      → OnlyOnOff on_off_id ws
      → (works : List (Work Double)) × (ds : List (Delivered Double)) × (call_back
            (mqtt_event_handler
              (event_data (join (t0 ∷ t1 ∷ t2 ∷ t3 ∷ decimal node ∷ [])) message)
              (started hub_id s)).1
            []
          ≡ ret works)
        × (run_interactions lib c recall devices works ≡ ret ds)
        × AllMeet lib c on_off_id session ws ds
  message_reaches_device lib c recall device on_off_id session devices hub_id s t0 t1 t2 t3 message
        node peer ws connected off_on off_toggle on_toggle known defined answers up apart none_yet
        slashes lt size named only =
      let (ds, ran, all) =
        wishes-AllMeet lib c on_off_id recall device session connected off_on off_toggle on_toggle
          devices node peer known defined answers ws only in
      (
        map (work_of node) ws,
        ds,
        message_schedules hub_id s _ message [] (map (work_of node) ws) up apart none_yet
            (dcmd_callback_schedules J t0 t1 t2 t3 message node ws [] slashes lt size named),
        ran,
        all,
      )
