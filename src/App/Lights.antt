-- ===== src/App/Lights.antt =====
-- From the button to the lights: src/main/AppTask.cpp schedules the commands that the workers of
-- src/main/BindingHandler.cpp send.
use matter_hub.Prelude.{
  ℕ, zero, suc, ◌≡◌, refl, ◌≢◌, ap, ◌∙◌, List, [], ◌∷◌, ◌++◌, append-nil, append_assoc, length,
  false, true, none, some,
}
use matter_hub.Outcome.{ret}
use matter_hub.Chip.{ChipError}
use matter_hub.Heap.{object_at}
use matter_hub.Interaction.{ConnectionLibrary, toggle}
use matter_hub.Bindings.{BindingCommandData, Bindings, BindingLibrary, Sent}
use matter_hub.Bindings.Shell.{command_data, schedule_switch, on_off_toggle_switch_command_handler}
use matter_hub.Bindings.Notified.{HasSessions}
use matter_hub.Bindings.Queue.{
  run_queue, stacked, AreFresh, workers, sent_by, AllReach, run_works-AllReach,
}
use matter_hub.App.{EventQueue, App, start_app_task, app_task_main}
use matter_hub.App.Presses.{toggles}
use matter_hub.App.Rounds.{kept_presses, arrivals, main_toggles}

module _ (lib : BindingLibrary) (c : ConnectionLibrary) where
  abbrev toggle_data : BindingCommandData
  toggle_data = command_data lib c toggle false

  -- Where `n` toggle commands are allocated above other objects.
  abbrev addresses : ℕ → List (ℕ × BindingCommandData) → List ℕ
  addresses zero os = []
  addresses (suc n) os = lib.new_command os ∷ addresses n ((lib.new_command os, toggle_data) ∷ os)

  length-addresses : (n : ℕ) (os : List (ℕ × BindingCommandData)) → length (addresses n os) ≡ n
  length-addresses zero os = refl
  length-addresses (suc n) os = ap suc (length-addresses n _)

  addresses-AreFresh :
      ((os : List (ℕ × BindingCommandData)) → object_at (lib.new_command os) os ≡ none)
      → (n : ℕ) (os : List (ℕ × BindingCommandData)) → AreFresh toggle_data (addresses n os) os
  addresses-AreFresh fresh zero os = tt
  addresses-AreFresh fresh (suc n) os = (fresh os, addresses-AreFresh fresh n _)

  toggles-stacked :
      (n : ℕ) (s : Bindings)
      → toggles lib c n s ≡ record s {
        commands = stacked toggle_data (addresses n s.commands) s.commands;
        queue = s.queue ++ workers (addresses n s.commands);
      }
  unfolding toggles on_off_toggle_switch_command_handler schedule_switch
  toggles-stacked zero s = rw (append-nil s.queue) refl
  toggles-stacked (suc n) s =
      toggles-stacked n (on_off_toggle_switch_command_handler lib c toggle s)
      ∙ rw (append_assoc s.queue) refl

module _ (lib : BindingLibrary) (c : ConnectionLibrary) (off_on : c.off_id ≢ c.on_id)
    (off_toggle : c.off_id ≢ c.toggle_id) (on_toggle : c.on_id ≢ c.toggle_id) where
  toggles_reach :
      (n : ℕ) (s : Bindings)
      → ((os : List (ℕ × BindingCommandData)) → object_at (lib.new_command os) os ≡ none)
      → s.queue ≡ []
      → HasSessions (lib.notified s.table 1 lib.on_off_cluster_id)
      → (batches : List (List Sent)) × (length batches ≡ n)
        × AllReach toggle false (lib.notified s.table 1 lib.on_off_cluster_id) batches
        × (run_queue lib c (toggles lib c n s)
            ≡ ret (record s { queue = []; sent = s.sent ++ sent_by batches }))
  unfolding run_queue
  toggles_reach n s fresh empty sessions =
      let (batches, long, all, ran) =
        run_works-AllReach lib c off_on off_toggle on_toggle toggle false
          (addresses lib c n s.commands) s.commands (record s { queue = [] })
          (addresses-AreFresh lib c fresh n s.commands) sessions in
      (
        batches,
        long ∙ length-addresses lib c n s.commands,
        all,
        rw (toggles-stacked lib c n s, empty) ran,
      )

  -- From a start of the task with a queue: over any number of rounds of the task, with any button
  -- events before each, and a run of the platform's work queue after them, no fault occurs, and each
  -- press of the light switch that fit the queue, ten at most before each round, has sent the toggle
  -- command once to every bound device, in the order of the bindings, and to nothing else. Nothing is
  -- left in either queue, and no object of a command on the heap. The allocator gives fresh addresses,
  -- the three command ids differ, the work queue is empty before, and the notified devices have
  -- sessions.
  pub presses_reach_lights :
      {Q : Type 0} (queue : EventQueue Q) (queue_failed task_failed : ChipError)
      (rounds : List (List (ℕ × ℕ))) (q : Q) (s : App Q)
      → queue.create 10 ≡ some q
      → ((os : List (ℕ × BindingCommandData)) → object_at (lib.new_command os) os ≡ none)
      → s.bindings.queue ≡ []
      → HasSessions (lib.notified s.bindings.table 1 lib.on_off_cluster_id)
      → (q' : Q) × (b : Bindings) × (batches : List (List Sent)) × (length batches
          ≡ kept_presses rounds)
        × AllReach toggle false (lib.notified s.bindings.table 1 lib.on_off_cluster_id) batches
        × (app_task_main queue lib c
              (arrivals queue rounds)
              (start_app_task queue queue_failed task_failed true s).0
            ≡ record { event_queue = some q'; bindings = b })
        × (queue.items q' ≡ [])
        × (run_queue lib c b
            ≡ ret (record s.bindings { queue = []; sent = s.bindings.sent ++ sent_by batches }))
  presses_reach_lights queue queue_failed task_failed rounds q s made fresh empty sessions =
      let (q', ran, done) = main_toggles queue lib c queue_failed task_failed rounds q s made in
      let (batches, long, all, sent) =
        toggles_reach (kept_presses rounds) s.bindings fresh empty sessions in
      (q', toggles lib c (kept_presses rounds) s.bindings, batches, long, all, ran, done, sent)
