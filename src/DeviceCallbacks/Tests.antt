-- ===== src/DeviceCallbacks/Tests.antt =====
-- The callback for a changed attribute at concrete changes.
use matter_hub.Prelude.{ℕ, ◌≡◌, refl, [], ◌∷◌, Option, none}
use matter_hub.Outcome.{ret, fault, null_pointer}
use matter_hub.DeviceCallbacks.{
  AttributeChange, attribute_changed, unhandled_cluster, free_heap,
  on_off_switch_configuration_attribute_change_callback, post_attribute_change_callback,
}

abbrev change : ℕ → Option ℕ → AttributeChange
change cluster value = record {
  endpoint_id = 1;
  cluster_id = cluster;
  attribute_id = 16;
  type = 48;
  size = 1;
  value = value;
}

-- A change of the switch configuration without a value is read all the same.
reads_null : post_attribute_change_callback 7 (change 7 none) [] ≡ fault null_pointer
unfolding post_attribute_change_callback on_off_switch_configuration_attribute_change_callback
reads_null = refl

-- A change of another cluster is named in the log and handled no further.
logs_unhandled :
    post_attribute_change_callback 7 (change 6 none) []
    ≡ ret (attribute_changed 6 1 16 ∷ unhandled_cluster 6 ∷ free_heap ∷ [])
unfolding post_attribute_change_callback
logs_unhandled = refl
