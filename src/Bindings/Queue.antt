-- ===== src/Bindings/Queue.antt =====
-- The work queue of the platform with several switch commands in it: src/main/BindingHandler.cpp puts
-- a worker with the address of its data into it, and the platform runs them in their order.
use matter_hub.Prelude.{
  ℕ, ◌≡◌, refl, ◌≢◌, List, [], ◌∷◌, ◌++◌, append_assoc, append-nil, length, suc, ap, ◌∙◌, Bool,
  Option, none, some, arith,
}
use matter_hub.Outcome.{Outcome, ret, ◌>>=◌}
use matter_hub.Chip.{Device}
use matter_hub.Heap.{object_at, delete, object_at-cons, delete-cons}
use matter_hub.Interaction.{ConnectionLibrary, OnOffCommand}
use matter_hub.Bindings.{
  BindingCommandData, BindingTableEntry, Bindings, BindingLibrary, Sent, Work, switch_worker,
  binding_worker, switch_worker_function, binding_worker_function,
}
use matter_hub.Bindings.Shell.{command_data}
use matter_hub.Bindings.Notified.{Reaches, HasSessions, notify_all-Reaches}

module _ (lib : BindingLibrary) (c : ConnectionLibrary) where
  unfoldable pub run_work : Work → Bindings → Outcome Bindings
  run_work (switch_worker address) s = switch_worker_function lib c (some address) s
  run_work (binding_worker address) s = binding_worker_function lib c (some address) s

  -- Works that were scheduled, in their order.
  unfoldable pub run_works : List Work → Bindings → Outcome Bindings
  unfolding run_work
  run_works [] s = ret s
  run_works (w ∷ ws) s = run_work w s >>= run_works ws

  -- The platform takes what is in the queue. No worker schedules more.
  unfoldable pub run_queue : Bindings → Outcome Bindings
  unfolding run_works
  run_queue s = run_works s.queue (record s { queue = [] })

-- The objects `d` at some addresses, the first of which was allocated first, above other objects.
module _ {D : Type 0} (d : D) where
  abbrev pub stacked : List ℕ → List (ℕ × D) → List (ℕ × D)
  stacked [] os = os
  stacked (a ∷ rest) os = stacked rest ((a, d) ∷ os)

  -- Each address is free when it is allocated.
  abbrev pub AreFresh : List ℕ → List (ℕ × D) → Type 0
  AreFresh [] os = Unit
  AreFresh (a ∷ rest) os = (object_at a os ≡ none) × AreFresh rest ((a, d) ∷ os)

  fresh_apart :
      (a b : ℕ) (os : List (ℕ × D)) → object_at a os ≡ some d → object_at b os ≡ none → a ≢ b
  fresh_apart a b os live free same = cc

  object_at-later :
      (a b : ℕ) (os : List (ℕ × D)) → a ≢ b → object_at a ((b, d) ∷ os) ≡ object_at a os
  unfolding object_at
  object_at-later a b os apart = ground arith

  delete-later :
      (a b : ℕ) (os : List (ℕ × D)) → a ≢ b → delete a ((b, d) ∷ os) ≡ (b, d) ∷ delete a os
  unfolding delete
  delete-later a b os apart = ground arith

  object_at-stacked :
      (a : ℕ) (rest : List ℕ) (os : List (ℕ × D))
      → AreFresh rest os
      → object_at a os ≡ some d
      → object_at a (stacked rest os) ≡ some d
  object_at-stacked a [] os fresh live = live
  object_at-stacked a (b ∷ rest) os (free, fresh) live =
      object_at-stacked a rest ((b, d) ∷ os) fresh
        (rw (object_at-later a b os (fresh_apart a b os live free)) live)

  delete-stacked :
      (a : ℕ) (rest : List ℕ) (os : List (ℕ × D))
      → AreFresh rest os
      → object_at a os ≡ some d
      → delete a (stacked rest os) ≡ stacked rest (delete a os)
  delete-stacked a [] os fresh live = refl
  delete-stacked a (b ∷ rest) os (free, fresh) live =
      let apart = fresh_apart a b os live free in
      rw (← delete-later a b os apart)
        (delete-stacked a rest ((b, d) ∷ os) fresh (rw (object_at-later a b os apart) live))

  pub free_without :
      (a b : ℕ) (os : List (ℕ × D)) → object_at b ((a, d) ∷ os) ≡ none → object_at b os ≡ none
  unfolding object_at
  free_without a b os free = ground arith

  free_later :
      (a b : ℕ) (os os' : List (ℕ × D))
      → (object_at b os ≡ none → object_at b os' ≡ none)
      → object_at b ((a, d) ∷ os) ≡ none
      → object_at b ((a, d) ∷ os') ≡ none
  unfolding object_at
  free_later a b os os' less free = ground arith

  -- Fewer live objects leave more addresses free.
  AreFresh-mono :
      (rest : List ℕ) (os os' : List (ℕ × D))
      → ((b : ℕ) → object_at b os ≡ none → object_at b os' ≡ none)
      → AreFresh rest os
      → AreFresh rest os'
  AreFresh-mono [] os os' less fresh = tt
  AreFresh-mono (a ∷ rest) os os' less (free, fresh) = (
    less a free,
    AreFresh-mono rest ((a, d) ∷ os) ((a, d) ∷ os') (λ b h. free_later a b os os' (less b) h) fresh,
  )

abbrev pub workers : List ℕ → List Work
workers [] = []
workers (a ∷ rest) = switch_worker a ∷ workers rest

-- What several runs send, one after the other.
abbrev pub sent_by : List (List Sent) → List Sent
sent_by [] = []
sent_by (batch ∷ batches) = batch ++ sent_by batches

-- Each run reaches the same bindings.
abbrev pub AllReach :
    OnOffCommand → Bool → List (BindingTableEntry × Option Device) → List (List Sent) → Type 0
AllReach command is_group calls [] = Unit
AllReach command is_group calls (batch ∷ batches) =
    Reaches command is_group calls batch × AllReach command is_group calls batches

module _ (lib : BindingLibrary) (c : ConnectionLibrary) (off_on : c.off_id ≢ c.on_id)
    (off_toggle : c.off_id ≢ c.toggle_id) (on_toggle : c.on_id ≢ c.toggle_id)
    (command : OnOffCommand) (is_group : Bool) where
  abbrev d : BindingCommandData
  d = command_data lib c command is_group

  -- The worker for the oldest of the commands that are scheduled.
  pub run_oldest :
      (a : ℕ) (rest : List ℕ) (os : List (ℕ × BindingCommandData)) (s : Bindings)
      → object_at a os ≡ none
      → AreFresh d rest ((a, d) ∷ os)
      → HasSessions (lib.notified s.table 1 lib.on_off_cluster_id)
      → (sent : List Sent) × Reaches command is_group
          (lib.notified s.table 1 lib.on_off_cluster_id)
          sent
        × (switch_worker_function lib c
              (some a)
              (record s { commands = stacked d rest ((a, d) ∷ os) })
            ≡ ret (record s { commands = stacked d rest os; sent = s.sent ++ sent }))
        × AreFresh d rest os
  unfolding switch_worker_function command_data
  run_oldest a rest os s free fresh sessions =
      let live = object_at-stacked d a rest ((a, d) ∷ os) fresh (object_at-cons a d os) in
      let (sent, reached, ran) =
        notify_all-Reaches lib c off_on off_toggle on_toggle command is_group a
          (lib.notified s.table 1 lib.on_off_cluster_id)
          (record s { commands = stacked d rest ((a, d) ∷ os) }) live sessions in
      let gone = delete-stacked d a rest ((a, d) ∷ os) fresh (object_at-cons a d os) in
      (
        sent,
        reached,
        rw live (rw ran (rw gone (rw (delete-cons a d os free) refl))),
        AreFresh-mono d rest ((a, d) ∷ os) os (λ b h. free_without d a b os h) fresh,
      )

  -- The workers of commands that are scheduled run without a fault, each sends the command to the
  -- bindings, and no object of a command is left.
  pub run_works-AllReach :
      (addresses : List ℕ) (os : List (ℕ × BindingCommandData)) (s : Bindings)
      → AreFresh d addresses os
      → HasSessions (lib.notified s.table 1 lib.on_off_cluster_id)
      → (batches : List (List Sent)) × (length batches ≡ length addresses)
        × AllReach command is_group (lib.notified s.table 1 lib.on_off_cluster_id) batches
        × (run_works lib c (workers addresses) (record s { commands = stacked d addresses os })
            ≡ ret (record s { commands = os; sent = s.sent ++ sent_by batches }))
  unfolding run_works run_work
  run_works-AllReach [] os s fresh sessions = ([], refl, tt, rw (append-nil s.sent) refl)
  run_works-AllReach (a ∷ rest) os s (free, fresh) sessions =
      let (sent, reached, ran, fresh') = run_oldest a rest os s free fresh sessions in
      let (batches, long, all, done) =
        run_works-AllReach rest os (record s { sent = s.sent ++ sent }) fresh' sessions in
      (
        sent ∷ batches,
        ap suc long,
        (reached, all),
        rw ran (done ∙ rw (append_assoc s.sent sent (sent_by batches)) refl),
      )
