-- ===== src/App/Rounds.antt =====
-- Several rounds of the task of src/main/AppTask.cpp.
use matter_hub.Prelude.{ℕ, zero, suc, ◌+◌, ◌≡◌, refl, ap, ◌∙◌, List, [], ◌∷◌, true, some, arith}
use matter_hub.Chip.{ChipError, failed}
use matter_hub.Interaction.{ConnectionLibrary, toggle}
use matter_hub.Bindings.{Bindings, BindingLibrary}
use matter_hub.Bindings.Shell.{on_off_toggle_switch_command_handler}
use matter_hub.App.{EventQueue, App, start_app_task, task_rounds, app_task_main}
use matter_hub.App.Presses.{pressed, at_most, toggles, press_all, start_makes, round_toggles}

-- The presses that are kept, ten at most in each round.
abbrev pub kept_presses : List (List (ℕ × ℕ)) → ℕ
kept_presses [] = 0
kept_presses (bs ∷ rest) = at_most 10 (pressed bs) + kept_presses rest

toggles-add :
    (lib : BindingLibrary) (c : ConnectionLibrary) (n m : ℕ) (s : Bindings)
    → toggles lib c m (toggles lib c n s) ≡ toggles lib c (n + m) s
unfolding toggles
toggles-add lib c zero m s = let e : 0 + m ≡ m = omega arith in rw e refl
toggles-add lib c (suc n) m s =
    let e : suc n + m ≡ suc (n + m) = omega arith in
    rw e (toggles-add lib c n m (on_off_toggle_switch_command_handler lib c toggle s))

module _ {Q : Type 0} (queue : EventQueue Q) where
  -- The button events before each round.
  abbrev pub arrivals : List (List (ℕ × ℕ)) → List (App Q → App Q)
  arrivals [] = []
  arrivals (bs ∷ rest) = press_all queue bs ∷ arrivals rest

  rounds_toggle :
      (lib : BindingLibrary) (c : ConnectionLibrary) (rounds : List (List (ℕ × ℕ))) (q : Q)
      (b : Bindings)
      → (queue.items q ≡ []) × (queue.size q ≡ 10)
      → (q' : Q) × (task_rounds queue lib c
            (arrivals rounds)
            (record { event_queue = some q; bindings = b })
          ≡ record { event_queue = some q'; bindings = toggles lib c (kept_presses rounds) b })
        × (queue.items q' ≡ [])
  unfolding task_rounds toggles
  rounds_toggle lib c [] q b (empty, sized) = (q, refl, empty)
  rounds_toggle lib c (bs ∷ rest) q b ready =
      let (next, ran, empty, sized) = round_toggles queue lib c bs q b ready in
      let (q', later, done) =
        rounds_toggle lib c rest next (toggles lib c (at_most 10 (pressed bs)) b) (empty, sized) in
      (
        q',
        ap (task_rounds queue lib c (arrivals rest)) ran
            ∙ (later ∙ rw (toggles-add lib c (at_most 10 (pressed bs)) (kept_presses rest) b) refl),
        done,
      )

  pub main_toggles :
      (lib : BindingLibrary) (c : ConnectionLibrary) (queue_failed task_failed : ChipError)
      (rounds : List (List (ℕ × ℕ))) (q : Q) (s : App Q)
      → queue.create 10 ≡ some q
      → (q' : Q) × (app_task_main queue lib c
            (arrivals rounds)
            (start_app_task queue queue_failed task_failed true s).0
          ≡ record {
            event_queue = some q';
            bindings = toggles lib c (kept_presses rounds) s.bindings;
          })
        × (queue.items q' ≡ [])
  unfolding app_task_main failed
  main_toggles lib c queue_failed task_failed rounds q s made =
      let (q', ran, done) = rounds_toggle lib c rounds q s.bindings (queue.created 10 q made) in
      (q', rw (start_makes queue queue_failed task_failed q s made) ran, done)
