-- ===== src/App.antt =====
-- src/main/AppTask.cpp with its headers: the button, the bounded queue of events and the task that
-- handles them. The queue of FreeRTOS is an interface.
pub mod Presses
pub mod Rounds
pub mod Lights
pub mod Tests
use matter_hub.Prelude.{
  ℕ, zero, suc, ◌+◌, ◌<◌, ◌≡◌, List, [], ◌∷◌, ◌++◌, length, Bool, true, false, ◌&&◌, Option, none,
  some, ◌==◌, if◌then◌else◌,
}
use matter_hub.Chip.{ChipError, no_error, failed}
use matter_hub.Interaction.{ConnectionLibrary, toggle}
use matter_hub.Bindings.{Bindings, BindingLibrary}
use matter_hub.Bindings.Shell.{command_data, schedule_switch}

-- EventHandler: the one function that the code stores in an event.
pub data EventHandler : Type 0 where
  switch_action : EventHandler

-- AppEvent, with the action of a button event; a null handler is `none`.
pub record AppEvent : Type 0 where
  pub type : ℕ
  pub action : ℕ
  pub handler : Option EventHandler

-- A queue of events: xQueueCreate, with `none` for a null handle; xQueueSend, which says whether it
-- stored the event; and xQueueReceive. The laws are what FreeRTOS documents: a queue is first in,
-- first out, and holds as many events as it was created for.
pub record EventQueue (Q : Type 0) : Type 0 where
  pub create : ℕ → Option Q
  pub send : AppEvent → Q → Q × Bool
  pub receive : Q → Option (AppEvent × Q)
  pub items : Q → List AppEvent
  pub size : Q → ℕ
  pub created : (n : ℕ) (q : Q) → create n ≡ some q → (items q ≡ []) × (size q ≡ n)
  pub stored :
      (e : AppEvent) (q : Q)
      → length (items q) < size q
      → (items (send e q).0 ≡ items q ++ e ∷ []) × (size (send e q).0 ≡ size q)
  pub full : (e : AppEvent) (q : Q) → length (items q) ≡ size q → send e q ≡ (q, false)
  pub nothing_received : (q : Q) → items q ≡ [] → receive q ≡ none
  pub received :
      (e : AppEvent) (es : List AppEvent) (q : Q)
      → items q ≡ e ∷ es
      → (q' : Q) × (receive q ≡ some (e, q')) × (items q' ≡ es) × (size q' ≡ size q)

-- `sAppEventQueue`, and what the handlers of the binding commands keep.
pub record App (Q : Type 0) : Type 0 where
  pub event_queue : Option Q
  pub bindings : Bindings

-- APP_EVENT_QUEUE_SIZE, BUTTON_PRESSED, APP_LIGHT_SWITCH and kEventType_Button
abbrev pub app_event_queue_size : ℕ
app_event_queue_size = 10

abbrev pub button_pressed : ℕ
button_pressed = 1

abbrev pub app_light_switch : ℕ
app_light_switch = 1

abbrev pub event_type_button : ℕ
event_type_button = 0

-- AppTask::Init
unfoldable pub init : ChipError
init = no_error

module _ (lib : BindingLibrary) (c : ConnectionLibrary) where
  -- SwitchActionEventHandler
  pub switch_action_event_handler : AppEvent → Bindings → Bindings
  unfolding schedule_switch command_data
  switch_action_event_handler event s =
      if event.type == event_type_button
      then schedule_switch lib c (command_data lib c toggle false) s
      else s

  -- DispatchEvent
  pub dispatch_event : AppEvent → Bindings → Bindings
  unfolding switch_action_event_handler
  dispatch_event event s = elim event.handler [
    | none ↦ s
    | some switch_action ↦ switch_action_event_handler event s
  ]

module _ {Q : Type 0} (queue : EventQueue Q) where
  -- StartAppTask, with the two application errors and whether the task can be created.
  unfoldable pub start_app_task : ChipError → ChipError → Bool → App Q → App Q × ChipError
  start_app_task event_queue_failed create_task_failed has_task s =
      elim (queue.create app_event_queue_size) [
        | none ↦ (record s { event_queue = none }, event_queue_failed)
        | some q ↦
            (record s { event_queue = some q }, if has_task then no_error else create_task_failed)
      ]

  -- PostEvent
  pub post_event : AppEvent → App Q → App Q
  post_event event s = elim s.event_queue [
    | none ↦ s
    | some q ↦ record s { event_queue = some (queue.send event q).0 }
  ]

  -- ButtonEventHandler
  pub button_event : ℕ → AppEvent
  button_event action = record {
    type = event_type_button;
    action = action;
    handler = some switch_action;
  }

  pub button_event_handler : ℕ → ℕ → App Q → App Q
  unfolding post_event button_event
  button_event_handler button_handle button_action s =
      if (button_handle == app_light_switch) && (button_action == button_pressed)
      then post_event (button_event button_action) s
      else s

  -- The inner loop of AppTaskMain, on fuel: events are received and dispatched until the queue is
  -- empty.
  pub receive_loop : BindingLibrary → ConnectionLibrary → ℕ → Q → Bindings → Q × Bindings
  unfolding dispatch_event
  receive_loop lib c zero q s = (q, s)
  receive_loop lib c (suc fuel) q s = elim (queue.receive q) [
    | none ↦ (q, s)
    | some (event, q') ↦ receive_loop lib c fuel q' (dispatch_event lib c event s)
  ]

  -- One round of the outer loop, with fuel for every event in the queue.
  pub app_task_round : BindingLibrary → ConnectionLibrary → App Q → App Q
  unfolding receive_loop
  app_task_round lib c s = elim s.event_queue [
    | none ↦ s
    | some q ↦
        let (q', b) = receive_loop lib c (length (queue.items q)) q s.bindings in
        record s { event_queue = some q'; bindings = b }
  ]

  -- The rounds of AppTaskMain's outer loop, as many as the list has elements: each is what happens to
  -- the state before a round, while the task waits for an event.
  unfoldable pub task_rounds :
      BindingLibrary → ConnectionLibrary → List (App Q → App Q) → App Q → App Q
  task_rounds lib c [] s = s
  task_rounds lib c (arrive ∷ arrivals) s =
      task_rounds lib c arrivals (app_task_round lib c (arrive s))

  -- AppTaskMain
  unfoldable pub app_task_main :
      BindingLibrary → ConnectionLibrary → List (App Q → App Q) → App Q → App Q
  unfolding init task_rounds failed
  app_task_main lib c arrivals s = if failed init then s else task_rounds lib c arrivals s
