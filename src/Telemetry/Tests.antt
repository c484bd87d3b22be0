-- ===== src/Telemetry/Tests.antt =====
-- The theorems about telemetry at concrete inputs.
use matter_hub.Prelude.{
  List, ℕ, ◌≡◌, refl, [], ◌∷◌, ◌++◌, codes, Bool, true, false, ◌==◌, some, none, zero, ◌+◌, arith,
}
use matter_hub.Prelude.Int.{pos}
use matter_hub.Outcome.{ret}
use matter_hub.Text.{split, stoull}
use matter_hub.Mqtt.{Manager, ClientCall}
use matter_hub.Telemetry.{boolean_true, uint16, Reader, TelemetryLibrary, AttributePath, data_topic}
use matter_hub.Telemetry.Topics.{data_topic-tokens}
use matter_hub.Chip.{no_error}
use matter_hub.Interaction.Callbacks.{
  ReportedPath, this, Listener, Report, attribute_report, receive_all, good,
}
use matter_hub.Telemetry.Reported.{
  CloudCallback, attribute_read, publish_calls, Published, reports_reach_broker,
}

abbrev lamp : AttributePath
lamp = record { endpoint_id = 1; cluster_id = 6; attribute_id = 0 }

data_topic-tokens_example :
    (h n : List ℕ) × (split (data_topic (pos 0) 333)
      ≡ some (codes "spBv1.0" ∷ codes "matterhub" ∷ codes "DDATA" ∷ h ∷ n ∷ []))
    × (stoull h ≡ ret 0)
    × (stoull n ≡ ret 333)
data_topic-tokens_example = data_topic-tokens 0 333 (omega arith) (omega arith)

-- Doubles are numbers here, the printer writes the metric's name, and control byte 255 stands for a
-- type that is not specified.
abbrev printer : TelemetryLibrary ℕ
printer = record {
  control_byte_not_specified = 255;
  element_type = λ b. elim (b == 9) [ true ↦ boolean_true | false ↦ uint16 ];
  print = λ m. m.metric.name;
  hub_id = pos 0;
}

abbrev reader : Reader ℕ
reader = record {
  control_byte = 9;
  get_signed = λ w. pos 1;
  get_unsigned = λ w. 1;
  get_float = 1;
  get_double = 1;
  get_length = 0;
  get_string = λ n. [];
}

abbrev manager : Bool → Manager ℕ
manager connected = record {
  initialised = true;
  connected = connected;
  topic_callbacks = [];
  stored_commands = [];
  calls = [];
  freed = [];
}

abbrev lamp_path : ReportedPath
lamp_path = record { endpoint_id = 1; cluster_id = 6; attribute_id = 0 }

-- Three reports, of which the second has no data and the third no type.
abbrev reports : List (Report (Reader ℕ))
reports =
    attribute_report lamp_path (some reader) no_error
    ∷ attribute_report lamp_path none no_error
    ∷ attribute_report lamp_path (some (record reader { control_byte = 255 })) no_error
    ∷ []

abbrev listener : Listener (Reader ℕ) CloudCallback
listener = record {
  error = no_error;
  callback = some attribute_read;
  context = none;
  calls = [];
  reports = record { read_clients = []; requests = [] };
  is_deleted = false;
}

abbrev clock : ℕ → ℕ × ℕ
clock i = (i, i + 1)

reports_reach_broker_example :
    (cs : List ClientCall) × Published printer 333 clock zero (good attribute_read this reports) cs
    × ((publish_calls printer 333 clock zero
          (receive_all reports listener).calls
          (manager true)).calls
        ≡ (manager true).calls ++ cs)
reports_reach_broker_example =
    reports_reach_broker printer 333 clock reports listener (manager true) refl refl refl refl refl
