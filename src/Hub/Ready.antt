-- ===== src/Hub/Ready.antt =====
-- What the hub has started when nothing fails.
use matter_hub.Prelude.{◌≡◌, refl, [], ◌∷◌, ◌++◌, true, false, some}
use matter_hub.Chip.{failed}
use matter_hub.OrderedMap.{find, text_key, find-assign_self}
use matter_hub.Mqtt.Publications.{subscription_stored}
use matter_hub.Cloud.Startup.{init_dcmd, dcmd_topic, dcmd_command}
use matter_hub.App.{EventQueue, start_app_task}
use matter_hub.Hub.{
  Hub, init_server_work, StartLibrary, run_work, thread_runs, app_main, start_parts, launch_shell,
}

module _ {C Q : Type 0} (queue : EventQueue Q) (lib : StartLibrary) (callback : C)
    (s : Hub C Q) where
  abbrev started : Q → Hub C Q
  started q = record s {
    mqtt = init_dcmd lib.hub_id callback s.mqtt;
    scheduled = init_server_work ∷ [];
    shell_runs = true;
    app = record s.app { event_queue = some q };
  }

  makes_queue :
      (q : Q)
      → queue.create 10 ≡ some q
      → (start_app_task queue lib.event_queue_failed lib.create_task_failed lib.has_task s.app).0
        ≡ record s.app { event_queue = some q }
  unfolding start_app_task
  makes_queue q made = rw (made, start_app_task) refl

  launched : lib.has_shell ≡ true → launch_shell lib s ≡ record s { shell_runs = true }
  unfolding launch_shell
  launched shell = rw (shell, launch_shell) refl

  app_main_starts :
      (q : Q)
      → lib.has_shell ≡ true
      → lib.has_nvs ≡ true
      → failed lib.device_manager ≡ false
      → thread_runs lib.thread ≡ true
      → queue.create 10 ≡ some q
      → s.scheduled ≡ []
      → app_main queue lib callback s ≡ started q
  unfolding app_main start_parts
  app_main_starts q shell nvs managed threaded made idle =
      rw (nvs, app_main)
        (rw (managed, app_main)
          (rw (threaded, app_main)
            (rw (launched shell, idle, start_parts) (rw (makes_queue q made) refl))))

  -- In a build with the shell, if the flash memory, the device manager and Thread, where it is built in, start, and the event
  -- queue can be made, a hub whose work queue is empty and whose MQTT manager has no connection is,
  -- after two pieces of work, as follows: the shell, the server and the switch commands are there, the binding manager has its handler, the task has its queue, the MQTT manager keeps the
  -- subscription to the commands of the hub and its callback, and no work is left.
  app_main_ready :
      (q : Q)
      → lib.has_shell ≡ true
      → lib.has_nvs ≡ true
      → failed lib.device_manager ≡ false
      → thread_runs lib.thread ≡ true
      → queue.create 10 ≡ some q
      → s.scheduled ≡ []
      → s.mqtt.connected ≡ false
      → (t : Hub C Q) × (run_work 2 (app_main queue lib callback s) ≡ t)
        × (t.shell_runs ≡ true)
        × (t.server_runs ≡ true)
        × (t.has_switch_commands ≡ true)
        × (t.has_light_handler ≡ true)
        × (t.app.event_queue ≡ some q)
        × (t.mqtt.stored_commands ≡ s.mqtt.stored_commands ++ dcmd_command lib.hub_id ∷ [])
        × (find (dcmd_topic lib.hub_id).text t.mqtt.topic_callbacks ≡ some callback)
        × (t.scheduled ≡ [])
  unfolding run_work init_dcmd
  app_main_ready q shell nvs managed threaded made idle offline = (
    record (started q) {
      scheduled = [];
      server_runs = true;
      has_switch_commands = true;
      has_light_handler = true;
    },
    rw (app_main_starts q shell nvs managed threaded made idle) refl,
    refl,
    refl,
    refl,
    refl,
    refl,
    (subscription_stored (dcmd_command lib.hub_id) callback s.mqtt offline).0,
    rw (subscription_stored (dcmd_command lib.hub_id) callback s.mqtt offline).1
        (find-assign_self (dcmd_topic lib.hub_id).text callback s.mqtt.topic_callbacks),
    refl,
  )
