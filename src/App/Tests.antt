-- ===== src/App/Tests.antt =====
-- A queue as a list with its size, and the theorem about presses at a concrete input.
use matter_hub.Prelude.{
  ℕ, ◌+◌, ◌≤◌, ◌<◌, ◌≡◌, refl, List, [], ◌∷◌, ◌++◌, length, Bool, true, false, Option, none, some,
  ltb, if◌then◌else◌, arith,
}
use matter_hub.Chip.{other}
use matter_hub.Interaction.Tests.{table}
use matter_hub.Bindings.Tests.{lights, dark, with_peer, dark_sessions}
use matter_hub.App.{AppEvent, EventQueue, App, start_app_task, app_task_main}
use matter_hub.App.Rounds.{kept_presses, arrivals}
use matter_hub.App.Lights.{presses_reach_lights}
use matter_hub.Outcome.{ret}
use matter_hub.Heap.{object_at}
use matter_hub.Interaction.{toggle}
use matter_hub.Bindings.{Bindings, BindingLibrary, Sent}
use matter_hub.Bindings.Queue.{run_queue, sent_by, AllReach}

abbrev pub Events : Type 0
Events = List AppEvent × ℕ

pub send : AppEvent → Events → Events × Bool
send e (es, n) = if ltb (length es) n then ((es ++ e ∷ [], n), true) else ((es, n), false)

pub receive : Events → Option (AppEvent × Events)
receive ([], n) = none
receive (e ∷ es, n) = some (e, (es, n))

pub send_stored :
    (e : AppEvent) (q : Events)
    → length q.0 < q.1
    → ((send e q).0.0 ≡ q.0 ++ e ∷ []) × ((send e q).0.1 ≡ q.1)
unfolding send
send_stored e (es, n) h = let room : ltb (length es) n ≡ true = ground arith in rw room (refl, refl)

pub send_full : (e : AppEvent) (q : Events) → length q.0 ≡ q.1 → send e q ≡ (q, false)
unfolding send
send_full e (es, n) h = let full : ltb (length es) n ≡ false = ground arith in rw full refl

pub receive_nothing : (q : Events) → q.0 ≡ [] → receive q ≡ none
unfolding receive
receive_nothing ([], n) h = refl
receive_nothing (e ∷ es, n) h = cc

pub receive_first :
    (e : AppEvent) (es : List AppEvent) (q : Events)
    → q.0 ≡ e ∷ es
    → (q' : Events) × (receive q ≡ some (e, q')) × (q'.0 ≡ es) × (q'.1 ≡ q.1)
unfolding receive
receive_first e es ([], n) h = absurd (cc)
receive_first e es (e' ∷ es', n) h = ((es', n), cc, cc, refl)

pub created_empty :
    (n : ℕ) (q : Events) → ◌≡◌ {A = Option Events} (some ([], n)) (some q) → (q.0 ≡ []) × (q.1 ≡ n)
created_empty n q h = (cc, cc)

abbrev pub list_queue : EventQueue Events
list_queue = record {
  create = λ n. some ([], n);
  send = send;
  receive = receive;
  items = λ q. q.0;
  size = λ q. q.1;
  created = created_empty;
  stored = send_stored;
  full = send_full;
  nothing_received = receive_nothing;
  received = receive_first;
}

abbrev pub idle : App Events
idle = record { event_queue = none; bindings = dark }

-- An allocator that takes the address above all others.
abbrev above : {D : Type 0} → List (ℕ × D) → ℕ
above [] = 1
above ((a, d) ∷ os) = if ltb a (above os) then above os else a + 1

object_at-above : {D : Type 0} (x : ℕ) (os : List (ℕ × D)) → above os ≤ x → object_at x os ≡ none
unfolding object_at
object_at-above x [] h = refl
object_at-above x ((a, d) ∷ os) h = ground (arith, object_at-above x os)

abbrev fresh_lights : BindingLibrary
fresh_lights = record lights { new_command = above }

-- Two presses among other events before the first round, and one before the second.
abbrev events : List (List (ℕ × ℕ))
events = ((1, 1) ∷ (2, 1) ∷ (1, 0) ∷ (1, 1) ∷ []) ∷ ((1, 1) ∷ []) ∷ []

presses_reach_lights_example :
    (q : Events) × (b : Bindings) × (batches : List (List Sent)) × (length batches
      ≡ kept_presses events)
    × AllReach toggle false (with_peer dark.table) batches
    × (app_task_main list_queue fresh_lights table
          (arrivals list_queue events)
          (start_app_task list_queue (other 1) (other 2) true idle).0
        ≡ record { event_queue = some q; bindings = b })
    × (q.0 ≡ [])
    × (run_queue fresh_lights table b
        ≡ ret (record dark { queue = []; sent = [] ++ sent_by batches }))
presses_reach_lights_example =
    presses_reach_lights fresh_lights table (λ e. omega arith) (λ e. omega arith) (λ e. omega arith)
      list_queue (other 1) (other 2) events ([], 10) idle refl
      (λ os. object_at-above (above os) os (omega arith)) refl dark_sessions
