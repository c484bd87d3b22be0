-- ===== src/Clusters/Tests.antt =====
-- A library for the cluster commands.
use matter_hub.Prelude.{◌+◌, length}
use matter_hub.Prelude.Int.{pos}
use matter_hub.Clusters.{ClusterLibrary}

-- Every word is read as 1, and new objects stand above the others.
abbrev pub ones : ClusterLibrary
ones = record { new_address = λ os. length os + 1; atoi = λ s. pos 1; on_off_cluster_id = 6 }
