-- ===== src/DeviceCallbacks.antt =====
-- src/main/DeviceCallbacks.cpp: what the hub does when an attribute of its own server has changed.
pub mod Tests
use matter_hub.Prelude.{ℕ, List, [], ◌∷◌, ◌++◌, true, false, Option, ◌==◌}
use matter_hub.Outcome.{Outcome, ret, or_fault, null_pointer, ◌>>=◌}

-- A change of an attribute, with the octet that the pointer to the new value points to, `none` for
-- a null pointer. The handler does not look at the mask.
pub record AttributeChange : Type 0 where
  pub endpoint_id : ℕ
  pub cluster_id : ℕ
  pub attribute_id : ℕ
  pub type : ℕ
  pub size : ℕ
  pub value : Option ℕ

-- The lines of the log.
pub data LogLine : Type 0 where
  attribute_changed : ℕ → ℕ → ℕ → LogLine
  switch_configuration : ℕ → ℕ → ℕ → ℕ → LogLine
  unhandled_cluster : ℕ → LogLine
  free_heap : LogLine

pub on_off_switch_configuration_attribute_change_callback :
    AttributeChange → List LogLine → Outcome (List LogLine)
on_off_switch_configuration_attribute_change_callback c log = do
  value ← or_fault c.value null_pointer
  ret (log ++ switch_configuration c.attribute_id c.type value c.size ∷ [])

-- `configuration_id` is OnOffSwitchConfiguration::Id.
pub post_attribute_change_callback : ℕ → AttributeChange → List LogLine → Outcome (List LogLine)
unfolding on_off_switch_configuration_attribute_change_callback
post_attribute_change_callback configuration_id c log =
    let entered = log ++ attribute_changed c.cluster_id c.endpoint_id c.attribute_id ∷ [] in
    do
      handled ← elim (c.cluster_id == configuration_id) [
        | true ↦ on_off_switch_configuration_attribute_change_callback c entered
        | false ↦ ret (entered ++ unhandled_cluster c.cluster_id ∷ [])
      ]
      ret (handled ++ free_heap ∷ [])
