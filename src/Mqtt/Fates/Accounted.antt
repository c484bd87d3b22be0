-- ===== src/Mqtt/Fates/Accounted.antt =====
-- src/main/MQTTManager.cpp gives each command the fate that Fates foretells.
use mathlib.Core.List.{append_assoc, map-append}
use matter_hub.Prelude.{
  ◌≡◌, ◌≢◌, ◌∙◌, refl, List, [], ◌∷◌, ◌++◌, map, append-nil, Bool, true, false, if◌then◌else◌, ◌⊎◌,
  Bool-cases, inl, inr, arith,
}
use matter_hub.OrderedMap.{text_key, assign}
use matter_hub.Mqtt.{
  Manager, MqttCommandTask, MqttCommandData, publish, subscribe, unsubscribe, process_command,
  subscribe_with, MqttEvent, event_connected, event_disconnected, event_logged, event_data,
  mqtt_event_handler,
}
use matter_hub.Mqtt.Delayed.{
  connect, call_of, strings_for, strings_of, process_online, process_offline, publish_offline,
  connect_drains, strings_of-append,
}
use matter_hub.Mqtt.Invariant.{
  Happening, commanded, subscribed, notified, happen, happen_all, IsProper, IsSettled,
  command-IsSettled, subscribe-IsSettled, event-IsSettled,
}
use matter_hub.Mqtt.Fates.{
  Fate, reaches, waits, is_sent, is_kept, fate, comes_up, chosen, sent_over, kept_over, Accounts,
}

is_publication : (task : MqttCommandTask) → (task ≡ publish) ⊎ (task ≢ publish)
is_publication publish = inl refl
is_publication subscribe = inr (λ e. cc)
is_publication unsubscribe = inr (λ e. cc)

fate_stored :
    (task : MqttCommandTask) (later : Bool)
    → task ≢ publish
    → fate false task later ≡ (if later then reaches else waits)
unfolding fate
fate_stored subscribe later delayable = refl
fate_stored unsubscribe later delayable = refl
fate_stored publish later delayable = elim (delayable refl) [ ]

none_before :
    (u : Bool) (c : MqttCommandData) (cs : List MqttCommandData)
    → (if u then [] else []) ++ c ∷ cs ≡ c ∷ (if u then [] else []) ++ cs
none_before true c cs = refl
none_before false c cs = refl

nothing_before : (u : Bool) (cs : List MqttCommandData) → (if u then [] else []) ++ cs ≡ cs
nothing_before true cs = refl
nothing_before false cs = refl

module _ {C : Type 0} where
  -- One step of a history that gives some commands to the client.
  account_step :
      (s s' t : Manager C) (h : Happening C) (hs : List (Happening C)) (cs : List MqttCommandData)
      → s'.calls ≡ s.calls ++ map call_of cs
      → s'.freed ≡ s.freed ++ strings_of cs
      → sent_over s (h ∷ hs) ≡ cs ++ sent_over s' hs
      → kept_over s (h ∷ hs) ≡ kept_over s' hs
      → Accounts s' hs t
      → Accounts s (h ∷ hs) t
  account_step s s' t h hs cs called freed gone left (a, b, d) =
      rw (gone, left)
        (
          a ∙ rw called (simp (map-append, append_assoc)),
          b ∙ rw freed (simp (strings_of-append, append_assoc)),
          d,
        )

  comes_up-next :
      (c : MqttCommandData) (hs : List (Happening C)) → comes_up (commanded c ∷ hs) ≡ comes_up hs
  unfolding comes_up
  comes_up-next c hs = refl

  chosen-next :
      (p : Fate → Bool) (up : Bool) (c : MqttCommandData) (hs : List (Happening C))
      → chosen p up (commanded c ∷ hs)
        ≡ (if p (fate up c.task (comes_up hs)) then c ∷ chosen p up hs else chosen p up hs)
  unfolding chosen
  chosen-next p up c hs = refl

  online-Accounts :
      (c : MqttCommandData) (s t : Manager C) (hs : List (Happening C))
      → s.connected ≡ true
      → s.stored_commands ≡ []
      → Accounts
          (record s { calls = s.calls ++ call_of c ∷ []; freed = s.freed ++ strings_for c.task c })
          hs
          t
      → Accounts s (commanded c ∷ hs) t
  unfolding sent_over kept_over fate is_sent is_kept
  online-Accounts c s t hs on none h =
      account_step s
        (record s { calls = s.calls ++ call_of c ∷ []; freed = s.freed ++ strings_for c.task c }) t
        (commanded c) hs (c ∷ []) refl (simp append-nil)
        (rw (comes_up-next c hs, chosen-next is_sent _ c hs, on, none)
          (none_before (comes_up hs) c _))
        (rw (comes_up-next c hs, chosen-next is_kept _ c hs, on, none) refl) h

  stored-Accounts :
      (c : MqttCommandData) (s t : Manager C) (hs : List (Happening C))
      → s.connected ≡ false
      → c.task ≢ publish
      → Accounts (record s { stored_commands = s.stored_commands ++ c ∷ [] }) hs t
      → Accounts s (commanded c ∷ hs) t
  unfolding sent_over kept_over fate is_sent is_kept
  stored-Accounts c s t hs off delayable h =
      account_step s (record s { stored_commands = s.stored_commands ++ c ∷ [] }) t (commanded c) hs
        [] (simp append-nil) (simp append-nil)
        (rw
          (
            comes_up-next c hs,
            chosen-next is_sent _ c hs,
            off,
            fate_stored c.task (comes_up hs) delayable,
          )
          (elim (Bool-cases (comes_up hs)) [
            | inl h ↦ rw h (simp append_assoc)
            | inr h ↦ rw h refl
          ]))
        (rw
          (
            comes_up-next c hs,
            chosen-next is_kept _ c hs,
            off,
            fate_stored c.task (comes_up hs) delayable,
          )
          (elim (Bool-cases (comes_up hs)) [
            | inl h ↦ rw h refl
            | inr h ↦ rw h (simp append_assoc)
          ]))
        h

  lost-Accounts :
      (c : MqttCommandData) (s t : Manager C) (hs : List (Happening C))
      → s.connected ≡ false
      → c.task ≡ publish
      → Accounts s hs t
      → Accounts s (commanded c ∷ hs) t
  unfolding sent_over kept_over fate is_sent is_kept
  lost-Accounts c s t hs off publication h =
      account_step s s t (commanded c) hs [] (simp append-nil) (simp append-nil)
        (rw (comes_up-next c hs, chosen-next is_sent _ c hs, off, publication) refl)
        (rw (comes_up-next c hs, chosen-next is_kept _ c hs, off, publication) refl) h

  commanded-Accounts :
      (c : MqttCommandData) (s t : Manager C) (hs : List (Happening C))
      → IsSettled s
      → Accounts (process_command c s) hs t
      → Accounts s (commanded c ∷ hs) t
  commanded-Accounts c s t hs v h = elim (Bool-cases s.connected) [
    | inl on ↦
        online-Accounts c s t hs on (v.nothing_waits on) (rw (process_online c s v.up on) at h)
    | inr off ↦ elim (is_publication c.task) [
      | inl e ↦ lost-Accounts c s t hs off e (rw (publish_offline c s v.up off e) at h)
      | inr n ↦ stored-Accounts c s t hs off n (rw (process_offline c s v.up off n) at h)
    ]
  ]

  abbrev connected_state : Manager C → Manager C
  connected_state s = record s {
    connected = true;
    stored_commands = [];
    calls = s.calls ++ map call_of s.stored_commands;
    freed = s.freed ++ strings_of s.stored_commands;
  }

  notified-Accounts :
      (e : MqttEvent) (s t : Manager C) (hs : List (Happening C))
      → IsSettled s
      → Accounts (mqtt_event_handler e s).0 hs t
      → Accounts s (notified e ∷ hs) t
  unfolding mqtt_event_handler sent_over kept_over chosen comes_up connect
  notified-Accounts event_connected s t hs v h =
      account_step s (connected_state s) t (notified event_connected) hs s.stored_commands refl refl
        (rw (nothing_before (comes_up hs)) refl) (rw (nothing_before (comes_up hs)) refl)
        (rw (connect_drains s v.up) at h)
  notified-Accounts event_disconnected s t hs v h = h
  notified-Accounts event_logged s t hs v h = h
  notified-Accounts (event_data topic message) s t hs v h = h

  abbrev with_callback : MqttCommandData → C → Manager C → Manager C
  with_callback c callback s = record s {
    topic_callbacks = assign c.topic.text callback s.topic_callbacks;
  }

  subscribe_with-process :
      (c : MqttCommandData) (callback : C) (s : Manager C)
      → c.task ≡ subscribe
      → s.initialised ≡ true
      → subscribe_with c callback s ≡ process_command c (with_callback c callback s)
  unfolding subscribe_with process_command
  subscribe_with-process c callback s e up = ground arith

  subscribed-Accounts :
      (c : MqttCommandData) (callback : C) (s t : Manager C) (hs : List (Happening C))
      → c.task ≡ subscribe
      → IsSettled s
      → Accounts (subscribe_with c callback s) hs t
      → Accounts s (subscribed c callback ∷ hs) t
  unfolding sent_over kept_over chosen comes_up
  subscribed-Accounts c callback s t hs e v h =
      commanded-Accounts c (with_callback c callback s) t hs
        (record { up = v.up; nothing_waits = v.nothing_waits; no_publication = v.no_publication })
        (rw (subscribe_with-process c callback s e v.up) at h)

  -- Over any history of a manager that is set up and settled, the client gets exactly the calls of
  -- these commands, in the order in which they were given: those that wait before it, if a
  -- connection comes up in it; each that is given with a connection; and each subscription or
  -- cancellation that is given without one, if one comes up later in it. Their strings and no
  -- others are deleted. Afterwards, in their order, the commands wait that waited before, if no
  -- connection came up, and the subscriptions and cancellations that were given without one and
  -- after the last one came up. A publication without a connection is lost. The subscriptions with
  -- a callback have to be subscriptions.
  pub happen_all-Accounts :
      (s : Manager C) (hs : List (Happening C))
      → IsProper hs
      → IsSettled s
      → Accounts s hs (happen_all s hs)
  unfolding happen_all happen sent_over kept_over chosen comes_up
  happen_all-Accounts s [] p v = (simp append-nil, simp append-nil, simp append-nil)
  happen_all-Accounts s (commanded c ∷ hs) p v =
      commanded-Accounts c s (happen_all (process_command c s) hs) hs v
        (happen_all-Accounts (process_command c s) hs p (command-IsSettled c s v))
  happen_all-Accounts s (subscribed c callback ∷ hs) (e, p) v =
      subscribed-Accounts c callback s (happen_all (subscribe_with c callback s) hs) hs e v (
        happen_all-Accounts (subscribe_with c callback s) hs p
          (subscribe-IsSettled c callback s e v))
  happen_all-Accounts s (notified e ∷ hs) p v =
      notified-Accounts e s (happen_all (mqtt_event_handler e s).0 hs) hs v
        (happen_all-Accounts (mqtt_event_handler e s).0 hs p (event-IsSettled e s v))
