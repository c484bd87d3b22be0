-- ===== src/App/Presses.antt =====
-- What presses of the button do: the queue keeps as many as it has room for, and each that is kept
-- toggles the lights once.
use matter_hub.Prelude.{
  ℕ, zero, suc, ◌+◌, ◌≤◌, ◌≡◌, refl, ap, ◌∙◌, inl, inr, List, [], ◌∷◌, ◌++◌, length, true, ◌&&◌,
  some, ◌==◌, ltb, Bool-cases, if◌then◌else◌, arith,
}
use matter_hub.Chip.{ChipError}
use matter_hub.Interaction.{ConnectionLibrary, toggle}
use matter_hub.Bindings.{Bindings, BindingLibrary}
use matter_hub.Bindings.Shell.{on_off_toggle_switch_command_handler}
use matter_hub.App.{
  AppEvent, EventQueue, App, dispatch_event, switch_action_event_handler, post_event, button_event,
  button_event_handler, receive_loop, app_task_round, start_app_task,
}

-- The presses of the light switch among calls of ButtonEventHandler, each with its handle and
-- action.
pub pressed : List (ℕ × ℕ) → ℕ
pressed [] = 0
pressed ((button, action) ∷ bs) =
    let rest = pressed bs in if (button == 1) && (action == 1) then suc rest else rest

-- `n` toggle commands, one after the other.
unfoldable pub toggles : BindingLibrary → ConnectionLibrary → ℕ → Bindings → Bindings
toggles lib c zero s = s
toggles lib c (suc n) s = toggles lib c n (on_off_toggle_switch_command_handler lib c toggle s)

-- `n` copies of the event of a press.
abbrev presses : {Q : Type 0} → EventQueue Q → ℕ → List AppEvent
presses queue zero = []
presses queue (suc n) = button_event queue 1 ∷ presses queue n

pub at_most : ℕ → ℕ → ℕ
at_most limit n = if ltb n limit then n else limit

module _ {Q : Type 0} (queue : EventQueue Q) where
  pub press_all : List (ℕ × ℕ) → App Q → App Q
  press_all [] s = s
  press_all ((button, action) ∷ bs) s = press_all bs (button_event_handler queue button action s)

  -- The queue holds `n` presses and nothing else.
  abbrev HoldsPresses : Q → ℕ → Type 0
  HoldsPresses q n = (queue.items q ≡ presses queue n) × (queue.size q ≡ 10)

  presses-snoc : (n : ℕ) → presses queue n ++ button_event queue 1 ∷ [] ≡ presses queue (suc n)
  presses-snoc zero = refl
  presses-snoc (suc n) = ap (◌∷◌ (button_event queue 1)) (presses-snoc n)

  length-presses : (n : ℕ) → length (presses queue n) ≡ n
  length-presses zero = refl
  length-presses (suc n) = ap suc (length-presses n)

  send_press :
      (q : Q) (n : ℕ)
      → n ≤ 10
      → HoldsPresses q n
      → HoldsPresses (queue.send (button_event queue 1) q).0 (at_most 10 (suc n))
  unfolding at_most
  send_press q n bound (holds, size) = elim (Bool-cases (ltb n 10)) [
    | inl room ↦
        let (stored, kept) =
          queue.stored (button_event queue 1) q
            (rw (holds, size, length-presses n) (ground arith)) in
        let fits : at_most 10 (suc n) ≡ suc n = ground arith in
        rw fits (stored ∙ rw holds (presses-snoc n), kept ∙ size)
    | inr full ↦
        let same : at_most 10 (suc n) ≡ n = ground arith in
        let filled : length (queue.items q) ≡ queue.size q =
          rw (holds, size, length-presses n) (ground arith) in
        rw (same, queue.full (button_event queue 1) q filled) (holds, size)
  ]

  press_one :
      (button action : ℕ) (q : Q) (b : Bindings)
      → ((button == 1) && (action == 1)) ≡ true
      → button_event_handler queue button action (record { event_queue = some q; bindings = b })
        ≡ record { event_queue = some (queue.send (button_event queue 1) q).0; bindings = b }
  unfolding button_event_handler post_event
  press_one button action q b press = let one : action ≡ 1 = ground arith in rw press (rw one refl)

  press_all-HoldsPresses :
      (bs : List (ℕ × ℕ)) (q : Q) (b : Bindings) (n : ℕ)
      → n ≤ 10
      → HoldsPresses q n
      → (q' : Q) × (press_all bs (record { event_queue = some q; bindings = b })
          ≡ record { event_queue = some q'; bindings = b })
        × HoldsPresses q' (at_most 10 (n + pressed bs))
  unfolding press_all pressed at_most button_event_handler
  press_all-HoldsPresses [] q b n bound (holds, size) =
      let same : at_most 10 (n + 0) ≡ n = ground arith in (q, refl, rw same (holds, size))
  press_all-HoldsPresses ((button, action) ∷ bs) q b n bound holds =
      elim (Bool-cases ((button == 1) && (action == 1))) [
        | inl press ↦
            let (q', ran, held) =
              press_all-HoldsPresses bs (queue.send (button_event queue 1) q).0 b
                (at_most 10 (suc n)) (ground arith) (send_press q n bound holds) in
            let same : at_most 10 (at_most 10 (suc n) + pressed bs)
                ≡ at_most 10 (n + suc (pressed bs)) =
              ground arith in
            (q', rw (press_one button action q b press) ran, rw press (rw (← same) held))
        | inr other ↦
            let (q', ran, held) = press_all-HoldsPresses bs q b n bound holds in
            (q', rw (other, button_event_handler) ran, rw other held)
      ]

  dispatch_press :
      (lib : BindingLibrary) (c : ConnectionLibrary) (s : Bindings)
      → dispatch_event lib c (button_event queue 1) s
        ≡ on_off_toggle_switch_command_handler lib c toggle s
  unfolding dispatch_event button_event switch_action_event_handler
      on_off_toggle_switch_command_handler
  dispatch_press lib c s = refl

  receive_presses :
      (lib : BindingLibrary) (c : ConnectionLibrary) (n : ℕ) (q : Q) (s : Bindings)
      → queue.items q ≡ presses queue n
      → (q' : Q) × (receive_loop queue lib c n q s ≡ (q', toggles lib c n s))
        × (queue.items q' ≡ [])
        × (queue.size q' ≡ queue.size q)
  unfolding receive_loop toggles
  receive_presses lib c zero q s holds = (q, refl, holds, refl)
  receive_presses lib c (suc n) q s holds =
      let (next, got, rest, kept) =
        queue.received (button_event queue 1) (presses queue n) q holds in
      let (q', ran, done, same) =
        receive_presses lib c n next (on_off_toggle_switch_command_handler lib c toggle s) rest in
      (q', rw (got, receive_loop) (rw (dispatch_press lib c s) ran), done, same ∙ kept)

  pub start_makes :
      (queue_failed task_failed : ChipError) (q : Q) (s : App Q)
      → queue.create 10 ≡ some q
      → (start_app_task queue queue_failed task_failed true s).0
        ≡ record { event_queue = some q; bindings = s.bindings }
  unfolding start_app_task
  start_makes queue_failed task_failed q s made = rw (made, start_app_task) refl

  -- A round of the task after any button events, from an empty queue.
  pub round_toggles :
      (lib : BindingLibrary) (c : ConnectionLibrary) (bs : List (ℕ × ℕ)) (q : Q) (b : Bindings)
      → (queue.items q ≡ []) × (queue.size q ≡ 10)
      → (q' : Q) × (app_task_round queue lib c
            (press_all bs (record { event_queue = some q; bindings = b }))
          ≡ record { event_queue = some q'; bindings = toggles lib c (at_most 10 (pressed bs)) b })
        × (queue.items q' ≡ [])
        × (queue.size q' ≡ 10)
  unfolding app_task_round
  round_toggles lib c bs q b (empty, sized) =
      let (full, pressed_all, (held, large)) =
        press_all-HoldsPresses bs q b 0 (omega arith) (empty, sized) in
      let count : 0 + pressed bs ≡ pressed bs = omega arith in
      let held' = rw count at held in
      let (q', ran, done, same) = receive_presses lib c (at_most 10 (pressed bs)) full b held' in
      (
        q',
        rw pressed_all (rw (held', length-presses (at_most 10 (pressed bs))) (rw ran refl)),
        done,
        same ∙ large,
      )
