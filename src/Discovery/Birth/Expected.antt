-- ===== src/Discovery/Birth/Expected.antt =====
-- An independent description of the DBIRTH message of src/main/DiscoverCommands.cpp.
use matter_hub.Prelude.{
  ℕ, suc, ◌+◌, ◌-◌, ◌%◌, ◌^◌, ◌<◌, ◌≤◌, ◌≡◌, refl, List, [], ◌∷◌, codes, ltb, take, Bool-cases, inl,
  inr, arith,
}
use matter_hub.Prelude.Int.{ℤ, pos, negsuc, to_signed, to_unsigned}
use matter_hub.Text.{decimal, decimal_int, snprintf}
use matter_hub.Text.Split.{join}
use matter_hub.Discovery.{Cluster, Endpoint}
use matter_hub.Discovery.Birth.{
  BirthCluster, BirthEndpoint, int_array, birth_clusters, birth_endpoints, birth_topic,
}

-- How a list of unsigned ids of 32 bits is shown: an id of 2 ^ 31 or more as the number that is
-- 2 ^ 32 less.
pub data Shown : List ℕ → List ℤ → Type 0 where
  none_shown : Shown [] []
  small_shown :
      (id : ℕ) {ids : List ℕ} {shown : List ℤ}
      → id % 2 ^ 32 < 2 ^ 31
      → Shown ids shown
      → Shown (id ∷ ids) (pos (id % 2 ^ 32) ∷ shown)
  large_shown :
      (id n : ℕ) {ids : List ℕ} {shown : List ℤ}
      → 2 ^ 31 ≤ id % 2 ^ 32
      → id % 2 ^ 32 + suc n ≡ 2 ^ 32
      → Shown ids shown
      → Shown (id ∷ ids) (negsuc n ∷ shown)

-- The clusters and the endpoints of a message show those of a manager, in their order, and no others.
pub data ShowsClusters : List (ℕ × Cluster) → List BirthCluster → Type 0 where
  no_cluster : ShowsClusters [] []
  next_cluster :
      (k : ℕ) (cluster : Cluster) (b : BirthCluster) {ks : List (ℕ × Cluster)}
      {bs : List BirthCluster}
      → b.id ≡ k
      → Shown cluster.attributes b.attributes
      → Shown cluster.commands b.commands
      → ShowsClusters ks bs
      → ShowsClusters ((k, cluster) ∷ ks) (b ∷ bs)

pub data ShowsEndpoints : List (ℕ × Endpoint) → List BirthEndpoint → Type 0 where
  no_endpoint : ShowsEndpoints [] []
  next_endpoint :
      (e : ℕ) (endpoint : Endpoint) (b : BirthEndpoint) {es : List (ℕ × Endpoint)}
      {bs : List BirthEndpoint}
      → b.id ≡ e
      → ShowsClusters endpoint.clusters b.clusters
      → ShowsEndpoints es bs
      → ShowsEndpoints ((e, endpoint) ∷ es) (b ∷ bs)

int_array-Shown : (ids : List ℕ) → Shown ids (int_array ids)
unfolding int_array to_signed to_unsigned
int_array-Shown [] = none_shown
int_array-Shown (id ∷ ids) = elim (Bool-cases (ltb (id % 2 ^ 32) (2 ^ 31))) [
  | inl small ↦ rw small (small_shown id (ground arith) (int_array-Shown ids))
  | inr large ↦ rw large (
      large_shown id (2 ^ 32 - 1 - id % 2 ^ 32) (ground arith) (ground arith) (int_array-Shown ids))
]

birth_clusters-Shows : (ks : List (ℕ × Cluster)) → ShowsClusters ks (birth_clusters ks)
unfolding birth_clusters
birth_clusters-Shows [] = no_cluster
birth_clusters-Shows ((k, cluster) ∷ ks) =
    next_cluster k cluster _ refl (int_array-Shown cluster.attributes)
      (int_array-Shown cluster.commands) (birth_clusters-Shows ks)

pub birth_endpoints-Shows : (es : List (ℕ × Endpoint)) → ShowsEndpoints es (birth_endpoints es)
unfolding birth_endpoints
birth_endpoints-Shows [] = no_endpoint
birth_endpoints-Shows ((e, endpoint) ∷ es) =
    next_endpoint e endpoint _ refl (birth_clusters-Shows endpoint.clusters)
      (birth_endpoints-Shows es)

-- The topic, which a buffer of 256 bytes cuts off after 255 characters.
abbrev pub device_topic : ℤ → ℕ → List ℕ
device_topic hub_id node = take 255 (
    join (
      codes "spBv1.0"
      ∷ codes "matterhub"
      ∷ codes "DBIRTH"
      ∷ decimal_int hub_id
      ∷ decimal node
      ∷ []))

pub birth_topic-device_topic :
    (hub_id : ℤ) (node : ℕ) → birth_topic hub_id node ≡ device_topic hub_id node
unfolding birth_topic snprintf join
birth_topic-device_topic hub_id node = refl
