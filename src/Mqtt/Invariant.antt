-- ===== src/Mqtt/Invariant.antt =====
-- An invariant of the MQTT manager over all that can happen to it.
use matter_hub.Prelude.{◌≡◌, refl, ◌≢◌, List, [], ◌∷◌, ◌++◌, true, arith}
use matter_hub.OrderedMap.{text_key}
use matter_hub.Mqtt.{
  Manager, MqttCommandData, publish, subscribe, process_command, subscribe_with, MqttEvent,
  event_connected, event_disconnected, event_logged, event_data, mqtt_event_handler,
}
use matter_hub.Mqtt.Delayed.{connect, connect_drains, IsDelayable}

-- What can happen to the manager: a command, a subscription with a callback, an event.
pub data Happening (C : Type 0) : Type 0 where
  commanded : MqttCommandData → Happening C
  subscribed : MqttCommandData → C → Happening C
  notified : MqttEvent → Happening C

IsDelayable-append :
    (cs : List MqttCommandData) (c : MqttCommandData)
    → IsDelayable cs
    → c.task ≢ publish
    → IsDelayable (cs ++ c ∷ [])
IsDelayable-append [] c h n = (n, tt)
IsDelayable-append (x ∷ cs) c (h, hs) n = (h, IsDelayable-append cs c hs n)

module _ {C : Type 0} where
  unfoldable pub happen : Manager C → Happening C → Manager C
  happen s (commanded c) = process_command c s
  happen s (subscribed c callback) = subscribe_with c callback s
  happen s (notified e) = (mqtt_event_handler e s).0

  unfoldable pub happen_all : Manager C → List (Happening C) → Manager C
  happen_all s [] = s
  happen_all s (h ∷ hs) = happen_all (happen s h) hs

  -- The manager is set up; while it is connected, nothing waits; and what waits is no publication.
  pub record IsSettled (s : Manager C) : Type 0 where
    pub up : s.initialised ≡ true
    pub nothing_waits : s.connected ≡ true → s.stored_commands ≡ []
    pub no_publication : IsDelayable s.stored_commands

  -- Who calls `Subscribe` with a callback says `subscribe` in the command, too.
  abbrev pub IsProper : List (Happening C) → Type 0
  IsProper [] = Unit
  IsProper (subscribed c callback ∷ hs) = (c.task ≡ subscribe) × IsProper hs
  IsProper (commanded c ∷ hs) = IsProper hs
  IsProper (notified e ∷ hs) = IsProper hs

  pub command-IsSettled :
      (c : MqttCommandData) (s : Manager C) → IsSettled s → IsSettled (process_command c s)
  unfolding process_command
  command-IsSettled c s v = ground (arith, IsDelayable-append s.stored_commands c v.no_publication)

  pub subscribe-IsSettled :
      (c : MqttCommandData) (callback : C) (s : Manager C)
      → c.task ≡ subscribe
      → IsSettled s
      → IsSettled (subscribe_with c callback s)
  unfolding subscribe_with
  subscribe-IsSettled c callback s t v =
      ground (arith, IsDelayable-append s.stored_commands c v.no_publication)

  connect-IsSettled : (s : Manager C) → IsSettled s → IsSettled (connect s)
  connect-IsSettled s v =
      rw (connect_drains s v.up)
        (record { up = v.up; nothing_waits = λ e. refl; no_publication = tt })

  pub event-IsSettled :
      (e : MqttEvent) (s : Manager C) → IsSettled s → IsSettled (mqtt_event_handler e s).0
  unfolding mqtt_event_handler connect
  event-IsSettled event_connected s v = connect-IsSettled s v
  event-IsSettled event_disconnected s v = record {
    up = v.up;
    nothing_waits = λ e. cc;
    no_publication = v.no_publication;
  }
  event-IsSettled event_logged s v = v
  event-IsSettled (event_data topic message) s v = v

  -- Whatever happens to a manager that is set up and settled, it stays so: while it is connected no
  -- command waits, and no publication ever waits. The subscriptions with a callback have to be
  -- subscriptions.
  pub happen_all-IsSettled :
      (s : Manager C) (hs : List (Happening C))
      → IsProper hs
      → IsSettled s
      → IsSettled (happen_all s hs)
  unfolding happen_all happen
  happen_all-IsSettled s [] p v = v
  happen_all-IsSettled s (commanded c ∷ hs) p v =
      happen_all-IsSettled (process_command c s) hs p (command-IsSettled c s v)
  happen_all-IsSettled s (subscribed c callback ∷ hs) (t, p) v =
      happen_all-IsSettled (subscribe_with c callback s) hs p (subscribe-IsSettled c callback s t v)
  happen_all-IsSettled s (notified e ∷ hs) p v =
      happen_all-IsSettled (mqtt_event_handler e s).0 hs p (event-IsSettled e s v)
