-- ===== src/Interaction/Callbacks.antt =====
-- The read client callbacks of the class Subscription in src/main/include/Subscription.h.
pub mod Received
use matter_hub.Prelude.{
  ℕ, ◌≡◌, refl, sym, ap, ◌∙◌, ◌≢◌, List, [], ◌∷◌, ◌++◌, append-nil, append_assoc, Bool, true, false,
  Option, none, some, Bool-cases, inl, inr, arith,
}
use matter_hub.Chip.{ChipError, no_error, internal, failed}
use matter_hub.Reports.{Reports, cleanup_read_client, shutdown}

-- A ConcreteDataAttributePath, by its ids.
pub record ReportedPath : Type 0 where
  pub endpoint_id : ℕ
  pub cluster_id : ℕ
  pub attribute_id : ℕ

-- What a callback gets as its context: `mContext`, or the subscription itself.
pub data Context : Type 0 where
  given : ℕ → Context
  this : Context

-- A call of the callback; `D` is the type of what a TLVReader reads.
pub record Call (D C : Type 0) : Type 0 where
  pub callback : C
  pub path : ReportedPath
  pub payload : D
  pub context : Context

-- `mError`, `mCallback`, `mContext`, the calls of the callback, and what InteractionModelReports
-- keeps; null pointers are `none`. `is_deleted` says that the subscription has deleted itself.
pub record Listener (D C : Type 0) : Type 0 where
  pub error : ChipError
  pub callback : Option C
  pub context : Option ℕ
  pub calls : List (Call D C)
  pub reports : Reports
  pub is_deleted : Bool

unfoldable pub context_of : Option ℕ → Context
context_of none = this
context_of (some c) = given c

module _ {D C : Type 0} where
  call_callback : Option C → ReportedPath → D → Listener D C → Listener D C
  unfolding context_of
  call_callback none path payload s = s
  call_callback (some f) path payload s = record s {
    calls =
        s.calls
        ++ record { callback = f; path = path; payload = payload; context = context_of s.context }
          ∷ [];
  }

  -- OnAttributeData, with the result of `status.ToChipError()`.
  pub on_attribute_data : ReportedPath → Option D → ChipError → Listener D C → Listener D C
  unfolding call_callback
  on_attribute_data path payload status s = elim (failed status) [
    | true ↦ record s { error = status }
    | false ↦ elim payload [
      | none ↦ record s { error = internal }
      | some d ↦ call_callback s.callback path d s
    ]
  ]

  no_data : Option D → Listener D C → Listener D C
  no_data none s = record s { error = internal }
  no_data (some d) s = s

  -- OnEventData
  pub on_event_data : Option D → Option ChipError → Listener D C → Listener D C
  unfolding no_data
  on_event_data payload none s = no_data payload s
  on_event_data payload (some status) s = elim (failed status) [
    | true ↦ record s { error = status }
    | false ↦ no_data payload s
  ]

  -- OnError
  pub on_error : ChipError → Listener D C → Listener D C
  on_error e s = record s { error = e }

  -- OnDone of the read client at an address
  pub on_done : ℕ → Listener D C → Listener D C
  on_done address s = record s {
    reports = shutdown (cleanup_read_client address s.reports);
    is_deleted = true;
  }

-- What the read client reports before it is done.
pub data Report (D : Type 0) : Type 0 where
  attribute_report : ReportedPath → Option D → ChipError → Report D
  event_report : Option D → Option ChipError → Report D
  error_report : ChipError → Report D

module _ {D C : Type 0} where
  pub receive : Report D → Listener D C → Listener D C
  unfolding on_attribute_data on_event_data on_error
  receive (attribute_report path payload status) s = on_attribute_data path payload status s
  receive (event_report payload status) s = on_event_data payload status s
  receive (error_report e) s = on_error e s

  pub receive_all : List (Report D) → Listener D C → Listener D C
  unfolding receive
  receive_all [] s = s
  receive_all (r ∷ rs) s = receive_all rs (receive r s)

  -- The attribute reports that have data and no error, as calls of `f`.
  pub good : C → Context → List (Report D) → List (Call D C)
  good f c [] = []
  good f c (attribute_report path payload status ∷ rs) =
      let rest = good f c rs in
      elim (failed status) [
        | true ↦ rest
        | false ↦ elim payload [
          | none ↦ rest
          | some d ↦ record { callback = f; path = path; payload = d; context = c } ∷ rest
        ]
      ]
  good f c (event_report payload status ∷ rs) = good f c rs
  good f c (error_report e ∷ rs) = good f c rs
