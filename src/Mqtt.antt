-- ===== src/Mqtt.antt =====
-- src/main/MQTTManager.cpp with src/main/include/MQTTManager.h, and src/main/MQTTCommands.cpp: the
-- commands, the manager's state, and what it asks of the ESP MQTT client. `C` is the type of a
-- topic's callback.
pub mod Delayed
pub mod Invariant
pub mod Fates
pub mod Memory
pub mod Publications
pub mod Tests
use matter_hub.Prelude.{
  ℕ, zero, suc, ◌≡◌, List, [], ◌∷◌, ◌++◌, map, length, String, Bool, true, false, Option, none,
  some, ◌==◌, if◌then◌else◌,
}
use matter_hub.OrderedMap.{text_key, assign}

-- Who owns the memory of a C string: the allocator behind `Platform::Delete`, or the shell, which
-- keeps the words of its command line.
pub data Origin : Type 0 where
  heap shell_argument : Origin

pub record CString : Type 0 where
  pub text : List ℕ
  pub origin : Origin

pub data MqttCommandTask : Type 0 where
  publish subscribe unsubscribe : MqttCommandTask

pub record MqttCommandData : Type 0 where
  pub task : MqttCommandTask
  pub topic : CString
  pub payload : Option CString

-- The calls of the ESP MQTT client.
pub data ClientCall : Type 0 where
  client_init register_event client_start : ClientCall
  client_publish : List ℕ → Option (List ℕ) → ClientCall
  client_subscribe client_unsubscribe : List ℕ → ClientCall

-- The statics of MQTTManager.cpp. `calls` and `freed` record what went to the client and to
-- `Platform::Delete`, the strings only.
pub record Manager (C : Type 0) : Type 0 where
  pub initialised : Bool
  pub connected : Bool
  pub topic_callbacks : List (List ℕ × C)
  pub stored_commands : List MqttCommandData
  pub calls : List ClientCall
  pub freed : List CString

abbrev pub text_of : Option CString → Option (List ℕ)
text_of none = none
text_of (some s) = some s.text

-- Deleting a null pointer does nothing.
abbrev pub non_null : Option CString → List CString
non_null none = []
non_null (some s) = s ∷ []

module _ {C : Type 0} where
  -- initMQTTManager
  init_mqtt_manager : Manager C → Manager C
  init_mqtt_manager s = record s {
    calls = s.calls ++ client_init ∷ register_event ∷ client_start ∷ [];
  }

  -- MQTTManager::GetInstance
  unfoldable pub get_instance : Manager C → Manager C
  unfolding init_mqtt_manager
  get_instance s = if s.initialised then s else record (init_mqtt_manager s) { initialised = true }

  -- One call of the client, after which the command's strings are deleted.
  perform : ClientCall → List CString → Manager C → Manager C
  perform call strings s = record s { calls = s.calls ++ call ∷ []; freed = s.freed ++ strings }

  -- Without a connection, the command is put off.
  delay : MqttCommandData → Manager C → Manager C
  delay c s = record s { stored_commands = s.stored_commands ++ c ∷ [] }

  unfoldable pub publish_command : MqttCommandData → Manager C → Manager C
  unfolding perform
  publish_command c s =
      if s.connected
      then perform (client_publish c.topic.text (text_of c.payload))
          (non_null c.payload ++ c.topic ∷ []) s
      else s

  pub subscribe_command : MqttCommandData → Manager C → Manager C
  unfolding perform delay
  subscribe_command c s =
      if s.connected then perform (client_subscribe c.topic.text) (c.topic ∷ []) s else delay c s

  -- The overload with a callback.
  pub subscribe_with : MqttCommandData → C → Manager C → Manager C
  unfolding subscribe_command
  subscribe_with c callback s =
      let s' : Manager C = record s {
        topic_callbacks = assign c.topic.text callback s.topic_callbacks;
      } in
      subscribe_command c s'

  pub unsubscribe_command : MqttCommandData → Manager C → Manager C
  unfolding perform delay
  unsubscribe_command c s =
      if s.connected then perform (client_unsubscribe c.topic.text) (c.topic ∷ []) s else delay c s

  -- The switch of ProcessCommand.
  dispatch : MqttCommandTask → MqttCommandData → Manager C → Manager C
  unfolding publish_command subscribe_command unsubscribe_command
  dispatch subscribe c s = subscribe_command c s
  dispatch unsubscribe c s = unsubscribe_command c s
  dispatch publish c s = publish_command c s

  unfoldable pub process_command : MqttCommandData → Manager C → Manager C
  unfolding dispatch get_instance
  process_command c s = dispatch c.task c (get_instance s)

  -- `storedCommand = mStoredCommands.erase(storedCommand)` at the first element.
  erase_first : Manager C → Manager C
  erase_first s = record s { stored_commands = elim s.stored_commands [ [] ↦ [] | c ∷ cs ↦ cs ] }

  -- The while loop of MQTT_EVENT_CONNECTED, on fuel.
  drain : ℕ → Manager C → Manager C
  unfolding process_command erase_first get_instance
  drain zero s = s
  drain (suc fuel) s = elim s.stored_commands [
    | [] ↦ s
    | c ∷ cs ↦ elim s.connected [
      | true ↦ drain fuel (erase_first (process_command c (get_instance s)))
      | false ↦ s
    ]
  ]

-- The events of the client that the handler tells apart. All others only write to the log.
pub data MqttEvent : Type 0 where
  event_connected event_disconnected event_logged : MqttEvent
  event_data : List ℕ → List ℕ → MqttEvent

-- A call of a topic's callback, with the topic and the data of the message.
pub record Invocation (C : Type 0) : Type 0 where
  pub callback : C
  pub topic : List ℕ
  pub message : List ℕ

module _ {C : Type 0} where
  -- The loop over `topicCallbacks`.
  invoke_all : List ℕ → List ℕ → List (List ℕ × C) → List (Invocation C)
  invoke_all topic message [] = []
  invoke_all topic message ((key, callback) ∷ rest) =
      record { callback = callback; topic = topic; message = message }
      ∷ invoke_all topic message rest

  unfoldable pub mqtt_event_handler : MqttEvent → Manager C → Manager C × List (Invocation C)
  unfolding drain invoke_all
  mqtt_event_handler event_connected s =
      (drain (length s.stored_commands) (record s { connected = true }), [])
  mqtt_event_handler event_disconnected s = (record s { connected = false }, [])
  mqtt_event_handler event_logged s = (s, [])
  mqtt_event_handler (event_data topic message) s = (s, invoke_all topic message s.topic_callbacks)

-- The shell's handlers of MQTTCommands.cpp: `none` is the help text, and a command goes to
-- MQTTCommandWorkerFunction through the work queue. The strings point into the command line.
abbrev pub argument : List ℕ → CString
argument text = record { text = text; origin = shell_argument }

unfoldable pub mqtt_sub_handler : List (List ℕ) → Option MqttCommandData
mqtt_sub_handler (topic ∷ []) =
    some (record { task = subscribe; topic = argument topic; payload = none })
mqtt_sub_handler _ = none

pub mqtt_unsub_handler : List (List ℕ) → Option MqttCommandData
mqtt_unsub_handler (topic ∷ []) =
    some (record { task = unsubscribe; topic = argument topic; payload = none })
mqtt_unsub_handler _ = none

pub mqtt_pub_handler : List (List ℕ) → Option MqttCommandData
mqtt_pub_handler (topic ∷ message ∷ []) =
    some (record { task = publish; topic = argument topic; payload = some (argument message) })
mqtt_pub_handler _ = none

-- A null context is `none`.
pub mqtt_command_worker_function : {C : Type 0} → Option MqttCommandData → Manager C → Manager C
unfolding process_command get_instance
mqtt_command_worker_function none s = s
mqtt_command_worker_function (some c) s = process_command c (get_instance s)
