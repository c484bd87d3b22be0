-- ===== src/Interaction/Callbacks/Received.antt =====
-- What a run of reports does to a subscription.
use mathlib.Core.List.{append_assoc}
use matter_hub.Prelude.{
  ℕ, ◌≡◌, refl, sym, ap, ◌∙◌, List, [], ◌∷◌, ◌++◌, append-nil, Option, none, some, Bool-cases, inl,
  inr,
}
use matter_hub.Chip.{ChipError, failed}
use matter_hub.Interaction.Callbacks.{
  ReportedPath, Context, given, this, context_of, Listener, call_callback, on_attribute_data,
  no_data, on_event_data, on_error, Report, attribute_report, event_report, error_report, receive,
  receive_all, good,
}

module _ {D C : Type 0} where
  -- What a single report leaves as it is.
  record Kept (r : Report D) (s : Listener D C) : Type 0 where
    callback_kept : (receive r s).callback ≡ s.callback
    context_kept : (receive r s).context ≡ s.context

  event-Kept :
      (payload : Option D) (status : Option ChipError) (s : Listener D C)
      → ((receive (event_report payload status) s).calls ≡ s.calls)
        × Kept (event_report payload status) s
  unfolding receive on_event_data no_data
  event-Kept none none s = (refl, record { callback_kept = refl; context_kept = refl })
  event-Kept (some d) none s = (refl, record { callback_kept = refl; context_kept = refl })
  event-Kept none (some e) s = elim (Bool-cases (failed e)) [
    | inl h ↦ (
      rw (h, receive, on_event_data) refl,
      record {
        callback_kept = rw (h, receive, on_event_data) refl;
        context_kept = rw (h, receive, on_event_data) refl;
      },
    )
    | inr h ↦ (
      rw (h, receive, on_event_data) refl,
      record {
        callback_kept = rw (h, receive, on_event_data) refl;
        context_kept = rw (h, receive, on_event_data) refl;
      },
    )
  ]
  event-Kept (some d) (some e) s = elim (Bool-cases (failed e)) [
    | inl h ↦ (
      rw (h, receive, on_event_data) refl,
      record {
        callback_kept = rw (h, receive, on_event_data) refl;
        context_kept = rw (h, receive, on_event_data) refl;
      },
    )
    | inr h ↦ (
      rw (h, receive, on_event_data) refl,
      record {
        callback_kept = rw (h, receive, on_event_data) refl;
        context_kept = rw (h, receive, on_event_data) refl;
      },
    )
  ]

  attribute-Kept :
      (path : ReportedPath) (payload : Option D) (e : ChipError) (f : C) (s : Listener D C)
      → s.callback ≡ some f
      → ((receive (attribute_report path payload e) s).calls
          ≡ s.calls ++ good f (context_of s.context) (attribute_report path payload e ∷ []))
        × Kept (attribute_report path payload e) s
  unfolding receive on_attribute_data call_callback good
  attribute-Kept path none e f s c = elim (Bool-cases (failed e)) [
    | inl h ↦ (
      rw (h, receive, on_attribute_data, good) (simp append-nil),
      record {
        callback_kept = rw (h, receive, on_attribute_data) refl;
        context_kept = rw (h, receive, on_attribute_data) refl;
      },
    )
    | inr h ↦ (
      rw (h, receive, on_attribute_data, good) (simp append-nil),
      record {
        callback_kept = rw (h, receive, on_attribute_data) refl;
        context_kept = rw (h, receive, on_attribute_data) refl;
      },
    )
  ]
  attribute-Kept path (some d) e f s c = elim (Bool-cases (failed e)) [
    | inl h ↦ (
      rw (h, receive, on_attribute_data, good) (simp append-nil),
      record {
        callback_kept = rw (h, receive, on_attribute_data) refl;
        context_kept = rw (h, receive, on_attribute_data) refl;
      },
    )
    | inr h ↦ (
      rw (h, receive, on_attribute_data, good) (rw (c, call_callback) refl),
      record {
        callback_kept = rw (h, receive, on_attribute_data) (rw (c, call_callback) refl);
        context_kept = rw (h, receive, on_attribute_data) (rw (c, call_callback) refl);
      },
    )
  ]

  good-cons :
      (f : C) (c : Context) (r : Report D) (rs : List (Report D))
      → good f c (r ∷ rs) ≡ good f c (r ∷ []) ++ good f c rs
  unfolding good
  good-cons f c (event_report payload status) rs = refl
  good-cons f c (error_report e) rs = refl
  good-cons f c (attribute_report path none e) rs = elim (Bool-cases (failed e)) [
    | inl h ↦ rw (h, good) refl
    | inr h ↦ rw (h, good) refl
  ]
  good-cons f c (attribute_report path (some d) e) rs = elim (Bool-cases (failed e)) [
    | inl h ↦ rw (h, good) refl
    | inr h ↦ rw (h, good) refl
  ]

  receive-good :
      (r : Report D) (f : C) (s : Listener D C)
      → s.callback ≡ some f
      → ((receive r s).calls ≡ s.calls ++ good f (context_of s.context) (r ∷ [])) × Kept r s
  unfolding receive on_error good
  receive-good (attribute_report path payload e) f s c = attribute-Kept path payload e f s c
  receive-good (event_report payload status) f s c =
      let (same, kept) = event-Kept payload status s in (rw same (simp append-nil), kept)
  receive-good (error_report e) f s c =
      (simp append-nil, record { callback_kept = refl; context_kept = refl })

  receive_all-called :
      (rs : List (Report D)) (f : C) (s : Listener D C)
      → s.callback ≡ some f
      → (receive_all rs s).calls ≡ s.calls ++ good f (context_of s.context) rs
  unfolding receive_all
  receive_all-called [] f s c = unfold good in simp append-nil
  receive_all-called (r ∷ rs) f s c =
      let (called, kept) = receive-good r f s c in
      receive_all-called rs f (receive r s) (kept.callback_kept ∙ c)
      ∙ rw (called, kept.context_kept)
          (append_assoc s.calls (good f (context_of s.context) (r ∷ []))
              (good f (context_of s.context) rs)
            ∙ ap (◌++◌ s.calls) (sym (good-cons f (context_of s.context) r rs)))

  -- While reports come in, the callback of a subscription is called once for each attribute report
  -- that has data and no error, in their order, with the given context or else with the
  -- subscription itself, and never otherwise.
  pub receive_all-good :
      (rs : List (Report D)) (f : C) (s : Listener D C)
      → s.callback ≡ some f
      → ((c : ℕ) → s.context ≡ some c → (receive_all rs s).calls ≡ s.calls ++ good f (given c) rs)
        × (s.context ≡ none → (receive_all rs s).calls ≡ s.calls ++ good f this rs)
  unfolding context_of
  receive_all-good rs f s called = (
    λ c own. receive_all-called rs f s called ∙ rw own refl,
    λ own. receive_all-called rs f s called ∙ rw own refl,
  )
