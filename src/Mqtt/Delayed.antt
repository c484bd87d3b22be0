-- ===== src/Mqtt/Delayed.antt =====
-- What happens to a command that is given while there is no connection.
use mathlib.Core.List.{append_assoc, map-append}
use matter_hub.Prelude.{
  ℕ, suc, ◌≡◌, refl, sym, ◌∙◌, ◌≢◌, List, [], ◌∷◌, ◌++◌, map, length, append-nil, true, false,
  arith,
}
use matter_hub.OrderedMap.{text_key}
use matter_hub.Mqtt.{
  Manager, MqttCommandData, MqttCommandTask, publish, subscribe, unsubscribe, CString, ClientCall,
  client_publish, client_subscribe, client_unsubscribe, text_of, non_null, process_command, drain,
  event_connected, mqtt_event_handler,
}

-- The client call that a command stands for, and the strings that it owns.
abbrev pub call_for : MqttCommandTask → MqttCommandData → ClientCall
call_for publish c = client_publish c.topic.text (text_of c.payload)
call_for subscribe c = client_subscribe c.topic.text
call_for unsubscribe c = client_unsubscribe c.topic.text

abbrev pub call_of : MqttCommandData → ClientCall
call_of c = call_for c.task c

abbrev pub strings_for : MqttCommandTask → MqttCommandData → List CString
strings_for publish c = non_null c.payload ++ c.topic ∷ []
strings_for subscribe c = c.topic ∷ []
strings_for unsubscribe c = c.topic ∷ []

abbrev pub strings_of : List MqttCommandData → List CString
strings_of [] = []
strings_of (c ∷ cs) = strings_for c.task c ++ strings_of cs

-- All commands are subscriptions or their cancellations.
abbrev pub IsDelayable : List MqttCommandData → Type 0
IsDelayable [] = Unit
IsDelayable (c ∷ cs) = (c.task ≢ publish) × IsDelayable cs

pub strings_of-append :
    (cs ds : List MqttCommandData) → strings_of (cs ++ ds) ≡ strings_of cs ++ strings_of ds
strings_of-append [] ds = refl
strings_of-append (c ∷ cs) ds = simp (strings_of-append cs ds, append_assoc)

module _ {C : Type 0} where
  unfoldable pub process_all : List MqttCommandData → Manager C → Manager C
  process_all [] s = s
  process_all (c ∷ cs) s = process_all cs (process_command c s)

  unfoldable pub connect : Manager C → Manager C
  connect s = (mqtt_event_handler event_connected s).0

  -- All of the commands are carried out, in their order.
  abbrev carried_out : List MqttCommandData → Manager C → Manager C
  carried_out cs s = record s {
    calls = s.calls ++ map call_of cs;
    freed = s.freed ++ strings_of cs;
  }

  pub process_online :
      (c : MqttCommandData) (s : Manager C)
      → s.initialised ≡ true
      → s.connected ≡ true
      → process_command c s
        ≡ record s { calls = s.calls ++ call_of c ∷ []; freed = s.freed ++ strings_for c.task c }
  unfolding process_command
  process_online c s up on = ground arith

  pub process_offline :
      (c : MqttCommandData) (s : Manager C)
      → s.initialised ≡ true
      → s.connected ≡ false
      → c.task ≢ publish
      → process_command c s ≡ record s { stored_commands = s.stored_commands ++ c ∷ [] }
  unfolding process_command
  process_offline c s up off h = ground arith

  pub publish_offline :
      (c : MqttCommandData) (s : Manager C)
      → s.initialised ≡ true
      → s.connected ≡ false
      → c.task ≡ publish
      → process_command c s ≡ s
  unfolding process_command
  publish_offline c s up off h = ground arith

  process_all_online :
      (cs : List MqttCommandData) (s : Manager C)
      → s.initialised ≡ true
      → s.connected ≡ true
      → process_all cs s ≡ carried_out cs s
  unfolding process_all
  process_all_online [] s up on = simp append-nil
  process_all_online (c ∷ cs) s up on =
      rw (process_online c s up on) (process_all_online cs _ up on ∙ simp append_assoc)

  process_all_offline :
      (cs : List MqttCommandData) (s : Manager C)
      → s.initialised ≡ true
      → s.connected ≡ false
      → IsDelayable cs
      → process_all cs s ≡ record s { stored_commands = s.stored_commands ++ cs }
  unfolding process_all
  process_all_offline [] s up off h = simp append-nil
  process_all_offline (c ∷ cs) s up off (h, hs) =
      rw (process_offline c s up off h) (process_all_offline cs _ up off hs ∙ simp append_assoc)

  drain_step :
      (fuel : ℕ) (c : MqttCommandData) (cs : List MqttCommandData) (s : Manager C)
      → s.initialised ≡ true
      → s.connected ≡ true
      → s.stored_commands ≡ c ∷ cs
      → drain (suc fuel) s
        ≡ drain fuel (record s {
          stored_commands = cs;
          calls = s.calls ++ call_of c ∷ [];
          freed = s.freed ++ strings_for c.task c;
        })
  unfolding drain
  drain_step fuel c cs s up on e = ground arith

  drain_done :
      (s : Manager C) → s.stored_commands ≡ [] → drain 0 s ≡ record s { stored_commands = [] }
  unfolding drain
  drain_done s e = ground arith

  -- With fuel for each stored command the loop carries all of them out and ends.
  drain_lem :
      (cs : List MqttCommandData) (s : Manager C)
      → s.initialised ≡ true
      → s.connected ≡ true
      → s.stored_commands ≡ cs
      → drain (length cs) s ≡ record (carried_out cs s) { stored_commands = [] }
  drain_lem [] s up on e = drain_done s e ∙ simp append-nil
  drain_lem (c ∷ cs) s up on e =
      drain_step (length cs) c cs s up on e
      ∙ drain_lem cs
          (record s {
            stored_commands = cs;
            calls = s.calls ++ call_of c ∷ [];
            freed = s.freed ++ strings_for c.task c;
          })
          up on refl
      ∙ simp append_assoc

  -- When a connection comes up for a manager that is set up, the stored commands go to the client,
  -- each once and in their order, and none is left; the fuel of the loop is enough.
  pub connect_drains :
      (s : Manager C)
      → s.initialised ≡ true
      → connect s ≡ record s {
        connected = true;
        stored_commands = [];
        calls = s.calls ++ map call_of s.stored_commands;
        freed = s.freed ++ strings_of s.stored_commands;
      }
  unfolding connect mqtt_event_handler
  connect_drains s up = drain_lem s.stored_commands (record s { connected = true }) up refl refl

  -- Subscriptions and cancellations that a manager that is set up gets without a connection have,
  -- once it comes up, the same effect as if they were given after it came up.
  pub process_all-connect :
      (cs : List MqttCommandData) (s : Manager C)
      → s.initialised ≡ true
      → s.connected ≡ false
      → IsDelayable cs
      → connect (process_all cs s) ≡ process_all cs (connect s)
  process_all-connect cs s up off h =
      rw (process_all_offline cs s up off h, connect_drains s up)
        (connect_drains (record s { stored_commands = s.stored_commands ++ cs }) up
          ∙ simp (map-append, strings_of-append)
              (sym (
                process_all_online cs
                  (record s {
                    connected = true;
                    stored_commands = [];
                    calls = s.calls ++ map call_of s.stored_commands;
                    freed = s.freed ++ strings_of s.stored_commands;
                  })
                  up refl
                ∙ simp append_assoc)))
