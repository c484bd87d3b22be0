-- ===== src/Hub.antt =====
-- src/main/main.cpp, with InitBindingHandler of src/main/BindingHandler.cpp: the order in which the
-- hub starts its parts, and where it gives up.
pub mod Ready
use matter_hub.Prelude.{
  ℕ, zero, suc, ◌≡◌, List, [], ◌∷◌, ◌++◌, Bool, true, false, not, ◌&&◌, Option, none, some,
  if◌then◌else◌,
}
use matter_hub.Prelude.Int.{ℤ}
use matter_hub.Chip.{ChipError, failed}
use matter_hub.Mqtt.{Manager}
use matter_hub.Cloud.Startup.{init_dcmd}
use matter_hub.App.{EventQueue, App, start_app_task}

-- The two functions that are scheduled.
pub data Scheduled : Type 0 where
  init_server_work init_binding_handler_work : Scheduled

-- The parts of the hub: the MQTT manager, the application task, the work queue; and whether the
-- shell runs with the hub's commands, whether the server was initialised, whether the switch
-- commands are registered, and whether the binding manager has its handler.
pub record Hub (C Q : Type 0) : Type 0 where
  pub mqtt : Manager C
  pub app : App Q
  pub scheduled : List Scheduled
  pub shell_runs : Bool
  pub server_runs : Bool
  pub has_switch_commands : Bool
  pub has_light_handler : Bool

-- Whether the shell is built in, CONFIG_ENABLE_CHIP_SHELL; what nvs_flash_init, the device manager
-- and the Thread stack answer, `none` for a build without Thread; whether the task can be created, its two errors, and CONFIG_MATTERHUBID.
pub record StartLibrary : Type 0 where
  pub has_shell : Bool
  pub has_nvs : Bool
  pub device_manager : ChipError
  pub thread : Option (ChipError × ChipError)
  pub has_task : Bool
  pub event_queue_failed : ChipError
  pub create_task_failed : ChipError
  pub hub_id : ℤ

pub thread_runs : Option (ChipError × ChipError) → Bool
unfolding failed
thread_runs none = true
thread_runs (some (stack, task)) = not (failed stack) && not (failed task)

module _ {C Q : Type 0} where
  -- InitBindingHandler
  init_binding_handler : Hub C Q → Hub C Q
  init_binding_handler s = record s {
    scheduled = s.scheduled ++ init_binding_handler_work ∷ [];
    has_switch_commands = true;
  }

  -- InitServer
  init_server : Hub C Q → Hub C Q
  unfolding init_binding_handler
  init_server s = init_binding_handler (record s { server_runs = true })

  -- InitBindingHandlerInternal
  init_binding_handler_internal : Hub C Q → Hub C Q
  init_binding_handler_internal s = record s { has_light_handler = true }

  -- The work queue is first in, first out.
  pub run_work : ℕ → Hub C Q → Hub C Q
  unfolding init_server init_binding_handler_internal
  run_work zero s = s
  run_work (suc n) s = elim s.scheduled [
    | [] ↦ s
    | init_server_work ∷ rest ↦ run_work n (init_server (record s { scheduled = rest }))
    | init_binding_handler_work ∷ rest ↦
        run_work n (init_binding_handler_internal (record s { scheduled = rest }))
  ]

  -- app_main from InitDCMD on; the error of the task only goes to the log.
  pub start_parts : EventQueue Q → StartLibrary → C → Hub C Q → Hub C Q
  unfolding init_dcmd start_app_task
  start_parts queue lib callback s = record s {
    mqtt = init_dcmd lib.hub_id callback s.mqtt;
    scheduled = s.scheduled ++ init_server_work ∷ [];
    app = (start_app_task queue lib.event_queue_failed lib.create_task_failed lib.has_task s.app).0;
  }

  -- The shell with the commands of the hub, in a build with the shell.
  launch_shell : StartLibrary → Hub C Q → Hub C Q
  launch_shell lib s = if lib.has_shell then record s { shell_runs = true } else s

  -- app_main; `callback` is DCMD_callback.
  pub app_main : EventQueue Q → StartLibrary → C → Hub C Q → Hub C Q
  unfolding start_parts thread_runs failed launch_shell
  app_main queue lib callback s = elim lib.has_nvs [
    | false ↦ s
    | true ↦ elim (failed lib.device_manager) [
      | true ↦ launch_shell lib s
      | false ↦ elim (thread_runs lib.thread) [
        | false ↦ launch_shell lib s
        | true ↦ start_parts queue lib callback (launch_shell lib s)
      ]
    ]
  ]
