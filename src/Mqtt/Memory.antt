-- ===== src/Mqtt/Memory.antt =====
-- The messages that the callbacks of topics get, and the strings that are deleted.
use mathlib.Core.List.{Mem, mem-cons_self, mem-cons_of_mem, mem-append_right}
use matter_hub.Prelude.{
  ℕ, ◌≡◌, subst, ◌⊎◌, inl, inr, List, [], ◌∷◌, ◌++◌, true, some, arith, Bool-cases,
}
use matter_hub.OrderedMap.{text_key, find, find-assign_self}
use matter_hub.Mqtt.{
  Manager, MqttCommandData, MqttCommandTask, publish, subscribe, unsubscribe, CString, heap,
  shell_argument, non_null, process_command, subscribe_with, MqttEvent, event_connected,
  event_disconnected, event_logged, event_data, mqtt_event_handler, Invocation, invoke_all,
  mqtt_sub_handler, mqtt_unsub_handler, mqtt_pub_handler, mqtt_command_worker_function,
}
use matter_hub.Mqtt.Delayed.{connect, connect_drains, strings_for, strings_of}
use matter_hub.Mqtt.Invariant.{Happening, commanded, subscribed, notified, happen, happen_all}

module _ {C : Type 0} where
  abbrev message_for : C → List ℕ → List ℕ → Invocation C
  message_for callback topic message = record {
    callback = callback;
    topic = topic;
    message = message;
  }

  invoke_all-mem :
      (key topic message : List ℕ) (callback : C) (m : List (List ℕ × C))
      → find key m ≡ some callback
      → Mem (message_for callback topic message) (invoke_all topic message m)
  unfolding find invoke_all
  invoke_all-mem key topic message callback [] e = cc
  invoke_all-mem key topic message callback ((k, c) ∷ m) e =
      elim (Bool-cases (text_key.beq k key)) [
        | inl same ↦
            let e' : c ≡ callback = ground arith in
            subst
              (λ x.
                Mem (message_for x topic message)
                  (message_for c topic message ∷ invoke_all topic message m))
              e' mem-cons_self
        | inr other ↦ mem-cons_of_mem _ (invoke_all-mem key topic message callback m (ground arith))
      ]

  callbacks-subscribe_with :
      (c : MqttCommandData) (callback : C) (s : Manager C)
      → find c.topic.text (subscribe_with c callback s).topic_callbacks ≡ some callback
  unfolding subscribe_with
  callbacks-subscribe_with c callback s =
      ground (arith, find-assign_self c.topic.text callback s.topic_callbacks)

  -- After a subscription with a callback, that callback gets every message of the client, on
  -- whatever topic it comes, with its topic and its text.
  subscribed_callback_gets_all :
      (c : MqttCommandData) (callback : C) (s : Manager C) (topic message : List ℕ)
      → Mem
          (record { callback = callback; topic = topic; message = message })
          (mqtt_event_handler (event_data topic message) (subscribe_with c callback s)).1
  unfolding mqtt_event_handler
  subscribed_callback_gets_all c callback s topic message =
      invoke_all-mem c.topic.text topic message callback _ (callbacks-subscribe_with c callback s)

-- All strings come from the allocator.
abbrev pub IsHeap : List CString → Type 0
IsHeap [] = Unit
IsHeap (s ∷ ss) = (s.origin ≡ heap) × IsHeap ss

abbrev pub OwnsStrings : List MqttCommandData → Type 0
OwnsStrings [] = Unit
OwnsStrings (c ∷ cs) = (c.topic.origin ≡ heap) × IsHeap (non_null c.payload) × OwnsStrings cs

IsHeap-append : (ss ts : List CString) → IsHeap ss → IsHeap ts → IsHeap (ss ++ ts)
IsHeap-append [] ts h k = k
IsHeap-append (s ∷ ss) ts (e, h) k = (e, IsHeap-append ss ts h k)

strings_for-IsHeap :
    (t : MqttCommandTask) (c : MqttCommandData)
    → c.topic.origin ≡ heap
    → IsHeap (non_null c.payload)
    → IsHeap (strings_for t c)
strings_for-IsHeap publish c h k = IsHeap-append (non_null c.payload) (c.topic ∷ []) k (h, tt)
strings_for-IsHeap subscribe c h k = (h, tt)
strings_for-IsHeap unsubscribe c h k = (h, tt)

strings_of-IsHeap : (cs : List MqttCommandData) → OwnsStrings cs → IsHeap (strings_of cs)
strings_of-IsHeap [] h = tt
strings_of-IsHeap (c ∷ cs) (h, k, hs) =
    IsHeap-append (strings_for c.task c) (strings_of cs) (strings_for-IsHeap c.task c h k)
      (strings_of-IsHeap cs hs)

owns_append :
    (cs : List MqttCommandData) (c : MqttCommandData)
    → OwnsStrings cs
    → c.topic.origin ≡ heap
    → IsHeap (non_null c.payload)
    → OwnsStrings (cs ++ c ∷ [])
owns_append [] c h k l = (k, l, tt)
owns_append (x ∷ cs) c (h, h', hs) k l = (h, h', owns_append cs c hs k l)

strings_for-topic : (t : MqttCommandTask) (c : MqttCommandData) → Mem c.topic (strings_for t c)
strings_for-topic publish c = mem-append_right (non_null c.payload) mem-cons_self
strings_for-topic subscribe c = mem-cons_self
strings_for-topic unsubscribe c = mem-cons_self

-- What the three handlers of the shell make of a command line.
abbrev pub FromShell : List (List ℕ) → MqttCommandData → Type 0
FromShell words c =
    (mqtt_sub_handler words ≡ some c)
    ⊎ ((mqtt_unsub_handler words ≡ some c) ⊎ (mqtt_pub_handler words ≡ some c))

shell_argument_topic :
    (words : List (List ℕ)) (c : MqttCommandData)
    → FromShell words c
    → c.topic.origin ≡ shell_argument
unfolding mqtt_sub_handler mqtt_unsub_handler mqtt_pub_handler
shell_argument_topic [] c h = ground arith
shell_argument_topic (a ∷ []) c h = ground arith
shell_argument_topic (a ∷ b ∷ []) c h = ground arith
shell_argument_topic (a ∷ b ∷ d ∷ ws) c h = ground arith

module _ {C : Type 0} where
  pub record OwnsAll (s : Manager C) : Type 0 where
    pub up : s.initialised ≡ true
    pub waiting : OwnsStrings s.stored_commands
    pub deleted : IsHeap s.freed

  -- Every command comes with strings from the allocator.
  abbrev pub IsOwning : List (Happening C) → Type 0
  IsOwning [] = Unit
  IsOwning (subscribed c callback ∷ hs) =
      (c.topic.origin ≡ heap) × IsHeap (non_null c.payload) × IsOwning hs
  IsOwning (commanded c ∷ hs) = (c.topic.origin ≡ heap) × IsHeap (non_null c.payload) × IsOwning hs
  IsOwning (notified e ∷ hs) = IsOwning hs

  command-OwnsAll :
      (c : MqttCommandData) (s : Manager C)
      → c.topic.origin ≡ heap
      → IsHeap (non_null c.payload)
      → OwnsAll s
      → OwnsAll (process_command c s)
  unfolding process_command
  command-OwnsAll c s h k v = ground (
    arith,
    owns_append s.stored_commands c v.waiting h k,
    IsHeap-append s.freed (strings_for c.task c) v.deleted (strings_for-IsHeap c.task c h k),
  )

  subscribe-OwnsAll :
      (c : MqttCommandData) (callback : C) (s : Manager C)
      → c.topic.origin ≡ heap
      → IsHeap (non_null c.payload)
      → OwnsAll s
      → OwnsAll (subscribe_with c callback s)
  unfolding subscribe_with
  subscribe-OwnsAll c callback s h k v = ground (
    arith,
    owns_append s.stored_commands c v.waiting h k,
    IsHeap-append s.freed (c.topic ∷ []) v.deleted (h, tt),
  )

  connect-OwnsAll : (s : Manager C) → OwnsAll s → OwnsAll (connect s)
  connect-OwnsAll s v = rw (connect_drains s v.up) (record {
    up = v.up;
    waiting = tt;
    deleted = IsHeap-append s.freed _ v.deleted (strings_of-IsHeap s.stored_commands v.waiting);
  })

  event-OwnsAll : (e : MqttEvent) (s : Manager C) → OwnsAll s → OwnsAll (mqtt_event_handler e s).0
  unfolding mqtt_event_handler connect
  event-OwnsAll event_connected s v = connect-OwnsAll s v
  event-OwnsAll event_disconnected s v = record {
    up = v.up;
    waiting = v.waiting;
    deleted = v.deleted;
  }
  event-OwnsAll event_logged s v = v
  event-OwnsAll (event_data topic message) s v = v

  -- If every command comes with strings from the allocator and the manager is set up and has only
  -- such strings, then, whatever happens, only such strings are deleted and only such strings wait.
  happen_all-OwnsAll :
      (s : Manager C) (hs : List (Happening C))
      → IsOwning hs
      → OwnsAll s
      → OwnsAll (happen_all s hs)
  unfolding happen_all happen
  happen_all-OwnsAll s [] p v = v
  happen_all-OwnsAll s (commanded c ∷ hs) (h, k, p) v =
      happen_all-OwnsAll (process_command c s) hs p (command-OwnsAll c s h k v)
  happen_all-OwnsAll s (subscribed c callback ∷ hs) (h, k, p) v =
      happen_all-OwnsAll (subscribe_with c callback s) hs p (subscribe-OwnsAll c callback s h k v)
  happen_all-OwnsAll s (notified e ∷ hs) p v =
      happen_all-OwnsAll (mqtt_event_handler e s).0 hs p (event-OwnsAll e s v)

  worker_online :
      (c : MqttCommandData) (s : Manager C)
      → s.initialised ≡ true
      → s.connected ≡ true
      → (mqtt_command_worker_function (some c) s).freed ≡ s.freed ++ strings_for c.task c
  unfolding mqtt_command_worker_function
  worker_online c s up on = ground arith

  -- For every command line that one of the three handlers of the shell accepts, the topic of the
  -- command points into the command line, and the worker deletes it if the manager is set up and
  -- connected.
  pub shell_argument_deleted :
      (words : List (List ℕ)) (c : MqttCommandData) (s : Manager C)
      → FromShell words c
      → s.initialised ≡ true
      → s.connected ≡ true
      → (c.topic.origin ≡ shell_argument)
        × Mem c.topic (mqtt_command_worker_function (some c) s).freed
  shell_argument_deleted words c s accepted up on = (
    shell_argument_topic words c accepted,
    rw (worker_online c s up on) (mem-append_right s.freed (strings_for-topic c.task c)),
  )
